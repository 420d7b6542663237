-- ===== src/Server/WaitList.antt =====
-- `wait_list_t` of src/http_server/wait_list.hpp: the queue of workers between the threads. Each
-- operation holds the mutex from its start to its end, but while it waits, so that an execution is a
-- sequence of operations; one that has to wait does not happen, which `none` says.
pub mod Refines
use dlg_service.Prelude.{
  ℕ, zero, suc, ◌+◌, ◌-◌, ◌≡◌, Option, none, some, List, [], ◌∷◌, ◌++◌, Bool, true, false,
  if◌then◌else◌,
}
use dlg_service.Server.LinkedList.{Links, empty, is_empty, add, del}

pub record WaitList : Type 0 where
  pub links : Links
  pub alive : Bool
  pub num : ℕ

-- The constructor, whatever the memory holds.
unfoldable pub wait_list : Links → WaitList
wait_list memory = record { links = empty memory; alive = true; num = 0 }

unfoldable pub put : ℕ → WaitList → WaitList
put node w = if w.alive then record w { links = add node w.links; num = w.num + 1 } else w

-- What the operations that take a node do once there is one.
abbrev pub take_node : ℕ → WaitList → WaitList
take_node node w = record w { links = del node w.links; num = w.num - 1 }

-- `get()`; the result `none` is NULL.
unfoldable pub get : WaitList → Option (WaitList × Option ℕ)
get w =
    if w.alive
    then (if is_empty w.links
        then none
        else some (take_node (w.links.prev 0) w, some (w.links.prev 0)))
    else some (w, none)

-- `get(abstime)`, whose wait ends in time out while the list is empty.
unfoldable pub get_timed : WaitList → Option (WaitList × Option ℕ)
get_timed w =
    if w.alive
    then (if is_empty w.links
        then some (w, none)
        else some (take_node (w.links.prev 0) w, some (w.links.prev 0)))
    else some (w, none)

unfoldable pub get_from_head : WaitList → Option (WaitList × Option ℕ)
get_from_head w =
    if w.alive
    then (if is_empty w.links
        then none
        else some (take_node (w.links.next 0) w, some (w.links.next 0)))
    else some (w, none)

unfoldable pub flush : WaitList → WaitList
flush w = record w { alive = false }

-- The operations as the steps of an execution.
pub data Op : Type 0 where
  put_op : ℕ → Op
  get_op : Op
  get_timed_op : Op
  get_from_head_op : Op
  flush_op : Op

-- A result goes in front of those of the later steps.
abbrev pub with_result {ℓ} :
    {S : Type ℓ} → Option ℕ → Option (S × List (Option ℕ)) → Option (S × List (Option ℕ))
with_result r none = none
with_result r (some (s, rs)) = some (s, r ∷ rs)

-- An execution: the state after it and what its `get`s returned.
unfoldable pub run : List Op → WaitList → Option (WaitList × List (Option ℕ))
run [] w = some (w, [])
run (put_op n ∷ ops) w = run ops (put n w)
run (flush_op ∷ ops) w = run ops (flush w)
run (get_op ∷ ops) w = elim (get w) [ none ↦ none | some (w', r) ↦ with_result r (run ops w') ]
run (get_timed_op ∷ ops) w = elim (get_timed w) [
  | none ↦ none
  | some (w', r) ↦ with_result r (run ops w')
]
run (get_from_head_op ∷ ops) w = elim (get_from_head w) [
  | none ↦ none
  | some (w', r) ↦ with_result r (run ops w')
]
