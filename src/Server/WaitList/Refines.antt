-- ===== src/Server/WaitList/Refines.antt =====
-- The ring of nodes implements a queue.
use dlg_service.Prelude.{
  ℕ, ◌≡◌, ◌≢◌, refl, sym, ap, ◌∙◌, subst, Option, none, some, List, [], ◌∷◌, ◌++◌, Bool, true,
  false, ◌==◌, All, arith, length, length-append,
}
use mathlib.Core.List.{append-nil}
use dlg_service.Server.LinkedList.{Links, empty, is_empty, IsChain, AreDistinct, Holds, add-Holds}
use dlg_service.Server.LinkedList.Del.{del-Holds}
use dlg_service.Server.WaitList.{
  WaitList, wait_list, put, get, get_timed, get_from_head, flush, take_node, Op, put_op, get_op,
  get_timed_op, get_from_head_op, flush_op, with_result, run,
}

-- the newest of some nodes, and the others
unfoldable pub newest : ℕ → List ℕ → List ℕ × ℕ
newest x [] = ([], x)
newest x (y ∷ ys) = let r = newest y ys in (x ∷ r.0, r.1)

-- An execution on a queue, that is on whether it still serves and on its nodes, the oldest first: one
-- that is closed takes nothing in and gives NULL, one that serves waits for a node, or gives NULL
-- when the time is out; `get` takes the oldest, `get_from_head` the newest.
unfoldable pub queue_run : List Op → Bool → List ℕ → Option ((Bool × List ℕ) × List (Option ℕ))
queue_run [] b xs = some ((b, xs), [])
queue_run (put_op n ∷ ops) true xs = queue_run ops true (xs ++ n ∷ [])
queue_run (put_op n ∷ ops) false xs = queue_run ops false xs
queue_run (flush_op ∷ ops) b xs = queue_run ops false xs
queue_run (get_op ∷ ops) false xs = with_result none (queue_run ops false xs)
queue_run (get_op ∷ ops) true [] = none
queue_run (get_op ∷ ops) true (x ∷ xs) = with_result (some x) (queue_run ops true xs)
queue_run (get_timed_op ∷ ops) false xs = with_result none (queue_run ops false xs)
queue_run (get_timed_op ∷ ops) true [] = with_result none (queue_run ops true [])
queue_run (get_timed_op ∷ ops) true (x ∷ xs) = with_result (some x) (queue_run ops true xs)
queue_run (get_from_head_op ∷ ops) false xs = with_result none (queue_run ops false xs)
queue_run (get_from_head_op ∷ ops) true [] = none
queue_run (get_from_head_op ∷ ops) true (x ∷ xs) =
    with_result (some (newest x xs).1) (queue_run ops true (newest x xs).0)

-- Every node that is put is one that the queue does not hold at that time.
unfoldable pub AreFresh : List Op → Bool → List ℕ → Type 0
AreFresh [] b xs = Unit
AreFresh (put_op n ∷ ops) true xs = (n ≢ 0) × All (λ y. y ≢ n) xs × AreFresh ops true (xs ++ n ∷ [])
AreFresh (put_op n ∷ ops) false xs = AreFresh ops false xs
AreFresh (flush_op ∷ ops) b xs = AreFresh ops false xs
AreFresh (get_op ∷ ops) false xs = AreFresh ops false xs
AreFresh (get_op ∷ ops) true [] = Unit
AreFresh (get_op ∷ ops) true (x ∷ xs) = AreFresh ops true xs
AreFresh (get_timed_op ∷ ops) false xs = AreFresh ops false xs
AreFresh (get_timed_op ∷ ops) true [] = AreFresh ops true []
AreFresh (get_timed_op ∷ ops) true (x ∷ xs) = AreFresh ops true xs
AreFresh (get_from_head_op ∷ ops) false xs = AreFresh ops false xs
AreFresh (get_from_head_op ∷ ops) true [] = Unit
AreFresh (get_from_head_op ∷ ops) true (x ∷ xs) = AreFresh ops true (newest x xs).0

-- A wait list stands for a queue.
pub record Models (w : WaitList) (b : Bool) (xs : List ℕ) : Type 0 where
  pub holds : Holds w.links xs
  pub size : w.num ≡ length xs
  pub serves : w.alive ≡ b

-- Two executions both wait, or both end with the same results, the one's state standing for the other's.
unfoldable pub Agree :
    Option (WaitList × List (Option ℕ)) → Option ((Bool × List ℕ) × List (Option ℕ)) → Type 0
Agree none none = Unit
Agree (some (w, rs)) (some ((b, xs), rs')) = Models w b xs × (rs ≡ rs')
Agree _ _ = ⊥

Agree-with_result :
    (r : Option ℕ) (o : Option (WaitList × List (Option ℕ)))
    (o' : Option ((Bool × List ℕ) × List (Option ℕ)))
    → Agree o o'
    → Agree (with_result r o) (with_result r o')
unfolding Agree
Agree-with_result r none none a = tt
Agree-with_result r (some (w, rs)) (some ((b, xs), rs')) a = (a.0, ap (λ l. r ∷ l) a.1)
Agree-with_result r none (some x) a = absurd a
Agree-with_result r (some x) none a = absurd a

pub wait_list-Models : (memory : Links) → Models (wait_list memory) true []
unfolding wait_list empty
wait_list-Models memory = record {
  holds = record { chain = (refl, refl); distinct = tt };
  size = refl;
  serves = refl;
}

put-Models :
    (n : ℕ) (w : WaitList) (xs : List ℕ)
    → n ≢ 0
    → All (λ y. y ≢ n) xs
    → Models w true xs
    → Models (put n w) true (xs ++ n ∷ [])
unfolding put
put-Models n w xs nz d m = rw m.serves (record {
  holds = add-Holds n w.links xs nz d m.holds;
  size = omega (arith, m.size, length-append xs (n ∷ []));
  serves = refl;
})

put-Models_closed :
    (n : ℕ) (w : WaitList) (xs : List ℕ) → Models w false xs → Models (put n w) false xs
unfolding put
put-Models_closed n w xs m = rw m.serves (record { holds = m.holds; size = m.size; serves = refl })

take_node-Models :
    (x : ℕ) (w : WaitList) (xs ys : List ℕ)
    → Models w true (xs ++ x ∷ ys)
    → Models (take_node x w) true (xs ++ ys)
take_node-Models x w xs ys m = record {
  holds = del-Holds x w.links xs ys m.holds;
  size = omega (arith, m.size, length-append xs (x ∷ ys), length-append xs ys);
  serves = m.serves;
}

-- the head leads to the newest node, which is no NULL
newest_lem :
    (l : Links) (a x : ℕ) (xs : List ℕ)
    → IsChain l a (x ∷ xs)
    → AreDistinct (x ∷ xs)
    → (l.next 0 ≡ (newest x xs).1) × (l.next 0 ≢ 0)
unfolding newest
newest_lem l a x [] c d = (c.2.1, λ e. d.0 (sym c.2.1 ∙ e))
newest_lem l a x (y ∷ ys) c d = newest_lem l x y ys c.2 d.2

newest-append : (x : ℕ) (xs : List ℕ) → (newest x xs).0 ++ (newest x xs).1 ∷ [] ≡ x ∷ xs
unfolding newest
newest-append x [] = refl
newest-append x (y ∷ ys) = ap (λ l. x ∷ l) (newest-append y ys)

newest-Models :
    (w : WaitList) (x : ℕ) (xs : List ℕ)
    → Models w true (x ∷ xs)
    → Models (take_node (newest x xs).1 w) true (newest x xs).0
newest-Models w x xs m =
    subst (Models (take_node (newest x xs).1 w) true) (append-nil (newest x xs).0) (
      take_node-Models (newest x xs).1 w (newest x xs).0 []
        (subst (Models w true) (sym (newest-append x xs)) m))

module _ (w : WaitList) where
  get-closed :
      (xs : List ℕ)
      → Models w false xs
      → (get w ≡ some (w, none))
        × (get_timed w ≡ some (w, none))
        × (get_from_head w ≡ some (w, none))
  unfolding get get_timed get_from_head
  get-closed xs m = (rw m.serves refl, rw m.serves refl, rw m.serves refl)

  get-empty :
      Models w true [] → (get w ≡ none) × (get_timed w ≡ some (w, none)) × (get_from_head w ≡ none)
  unfolding get get_timed get_from_head is_empty
  get-empty m =
      let e : (w.links.next 0 == 0) ≡ true = ground (arith, m.holds.chain.1) in
      (rw (m.serves, e) refl, rw (m.serves, e) refl, rw (m.serves, e) refl)

  get-some :
      (x : ℕ) (xs : List ℕ)
      → Models w true (x ∷ xs)
      → (get w ≡ some (take_node x w, some x))
        × (get_timed w ≡ some (take_node x w, some x))
        × (get_from_head w ≡ some (take_node (newest x xs).1 w, some (newest x xs).1))
  unfolding get get_timed get_from_head is_empty
  get-some x xs m =
      let (at, nz) = newest_lem w.links 0 x xs m.holds.chain m.holds.distinct in
      let e : (w.links.next 0 == 0) ≡ false = ground arith in
      let p = m.holds.chain.0 in
      (rw (m.serves, e, p) refl, rw (m.serves, e, p) refl, rw (m.serves, e, at) refl)

-- Every execution on a wait list that stands for a queue agrees with the execution on the queue, if
-- the nodes that are put are fresh: both wait at the same operation or neither does; the `get`s
-- return the same; and the wait list stands for the queue again, its length counted.
pub run-Agree :
    (ops : List Op) (w : WaitList) (b : Bool) (xs : List ℕ)
    → Models w b xs
    → AreFresh ops b xs
    → Agree (run ops w) (queue_run ops b xs)
unfolding run queue_run AreFresh
run-Agree [] w b xs m f = unfold Agree in (m, refl)
run-Agree (put_op n ∷ ops) w true xs m f =
    run-Agree ops (put n w) true (xs ++ n ∷ []) (put-Models n w xs f.0 f.1 m) f.2
run-Agree (put_op n ∷ ops) w false xs m f =
    run-Agree ops (put n w) false xs (put-Models_closed n w xs m) f
run-Agree (flush_op ∷ ops) w b xs m f =
    run-Agree ops (flush w) false xs
      (unfold flush in record { holds = m.holds; size = m.size; serves = refl }) f
run-Agree (get_op ∷ ops) w false xs m f =
    rw ((get-closed w xs m).0, run) (Agree-with_result none _ _ (run-Agree ops w false xs m f))
run-Agree (get_op ∷ ops) w true [] m f = rw ((get-empty w m).0, run) (unfold Agree in tt)
run-Agree (get_op ∷ ops) w true (x ∷ xs) m f =
    rw ((get-some w x xs m).0, run)
      (Agree-with_result (some x) _ _
        (run-Agree ops (take_node x w) true xs (take_node-Models x w [] xs m) f))
run-Agree (get_timed_op ∷ ops) w false xs m f =
    rw ((get-closed w xs m).1, run) (Agree-with_result none _ _ (run-Agree ops w false xs m f))
run-Agree (get_timed_op ∷ ops) w true [] m f =
    rw ((get-empty w m).1, run) (Agree-with_result none _ _ (run-Agree ops w true [] m f))
run-Agree (get_timed_op ∷ ops) w true (x ∷ xs) m f =
    rw ((get-some w x xs m).1, run)
      (Agree-with_result (some x) _ _
        (run-Agree ops (take_node x w) true xs (take_node-Models x w [] xs m) f))
run-Agree (get_from_head_op ∷ ops) w false xs m f =
    rw ((get-closed w xs m).2, run) (Agree-with_result none _ _ (run-Agree ops w false xs m f))
run-Agree (get_from_head_op ∷ ops) w true [] m f = rw ((get-empty w m).2, run) (unfold Agree in tt)
run-Agree (get_from_head_op ∷ ops) w true (x ∷ xs) m f =
    rw ((get-some w x xs m).2, run)
      (Agree-with_result (some (newest x xs).1) _ _ (
        run-Agree ops (take_node (newest x xs).1 w) true (newest x xs).0 (newest-Models w x xs m)
          f))
