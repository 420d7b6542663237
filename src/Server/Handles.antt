-- ===== src/Server/Handles.antt =====
-- The table of connections of `Http_Server` in src/http_server/http_server.cpp: `m_fd_set` with the
-- reference counts of its handles, and `_now_connections`. The table is guarded by `_map_mutex` and the
-- number by `_connections_mutex`, so that each critical section is a step of its own: `svc` counts a
-- descriptor and later inserts its handle, and `release_handle`, which holds `_map_mutex` all the time,
-- closes a descriptor, erases its handle and then takes the other mutex to count it off. The state says
-- how far these two have come. A handle's count `_ref` is an int of 32 bits, written as its bits.
pub mod Erase
pub mod Counted
use dlg_service.Prelude.{
  ℕ, ◌+◌, ◌-◌, ◌%◌, ◌≡◌, ◌⊎◌, Option, none, some, [], ◌∷◌, Bool, ◌||◌, leb, ◌==◌, if◌then◌else◌,
  Map, lookup, upsert, nat_ord,
}
use Prim.Native.Nat.{Ordering}

-- How far a call of `release_handle` that holds `_map_mutex` has come: there is none, or it has closed a
-- descriptor whose handle is still in the table, or it has erased the handle and not counted it off.
pub data Closing : Type 0 where
  idle : Closing
  closed : ℕ → Closing
  erased : Closing

pub record Connections : Type 0 where
  -- m_fd_set: the count of the handle of a descriptor
  pub handles : Map ℕ ℕ
  -- _now_connections
  pub now : ℕ
  -- the descriptor that `svc` has counted and whose handle it has not inserted; `svc` accepts under
  -- `_epoll_mutex`, so that there is one at most
  pub accepting : Option ℕ
  pub closing : Closing

-- `MAX_FD_NUM`.
abbrev pub max_fd_num : ℕ
max_fd_num = 1024

-- `acquire` and `release`.
abbrev pub acquire : ℕ → ℕ
acquire ref = (ref + 1) % 4294967296

abbrev pub release : ℕ → ℕ
release ref = (ref + 4294967295) % 4294967296

-- `m_fd_set.erase(fd)`.
unfoldable pub erase : ℕ → Map ℕ ℕ → Map ℕ ℕ
erase fd [] = []
erase fd ((j, r) ∷ m) =
    let rest = erase fd m in
    elim (nat_ord.cmp fd j) [
      | Ordering.eq ↦ m
      | Ordering.lt ↦ (j, r) ∷ m
      | Ordering.gt ↦ (j, r) ∷ rest
    ]

-- What `svc` does with an accepted descriptor under `_connections_mutex`: it is closed, or counted.
unfoldable pub accept_fd : ℕ → Connections → Connections
accept_fd new_fd s =
    if leb max_fd_num s.now || leb 1024 new_fd
    then s
    else record s { now = s.now + 1; accepting = some new_fd }

-- `insert` leaves the handle that a descriptor has; the new one's count is 0.
abbrev pub insert_ref : Option ℕ → ℕ
insert_ref none = 0
insert_ref (some r) = r

-- `create_handle` with `insert_handle`, under `_map_mutex`.
unfoldable pub insert_handle : ℕ → Connections → Connections
insert_handle fd s = record s { handles = upsert fd insert_ref s.handles; accepting = none }

abbrev pub acquire_ref : ℕ → Option ℕ → ℕ
acquire_ref r _ = acquire r

-- `get_handle`: a descriptor without a handle gives NULL.
unfoldable pub get_handle : ℕ → Connections → Connections
get_handle fd s = elim (lookup fd s.handles) [
  | none ↦ s
  | some r ↦ record s { handles = upsert fd (acquire_ref r) s.handles }
]

abbrev pub set_ref : ℕ → Option ℕ → ℕ
set_ref r _ = r

-- `release_handle` of the handle of a descriptor, up to `::close(fd)` where this is the last user. Where the
-- connection should be closed but is still in use, the line that logs this releases the handle once more.
unfoldable pub release_handle : ℕ → Bool → ℕ → Connections → Connections
release_handle fd close_handle ref s =
    if close_handle
    then (if release ref == 0
        then record s { handles = upsert fd (set_ref 0) s.handles; closing = closed fd }
        else record s { handles = upsert fd (set_ref (release (release ref))) s.handles })
    else record s { handles = upsert fd (set_ref (release ref)) s.handles }

-- `release_handle` goes on: the handle is erased.
unfoldable pub erase_handle : ℕ → Connections → Connections
erase_handle fd s = record s { handles = erase fd s.handles; closing = erased }

-- And the connection is counted off under `_connections_mutex`; then `_map_mutex` is free.
unfoldable pub count_off : Connections → Connections
count_off s = record s { now = s.now - 1; closing = idle }

-- The kernel may hand out the descriptor: it is not open, since it has no handle or has just been closed.
abbrev pub IsFree : ℕ → Connections → Type 0
IsFree fd s = (lookup fd s.handles ≡ none) ⊎ (s.closing ≡ closed fd)

-- What can happen, in any order. `svc` accepts a descriptor that the kernel hands out while none waits for its
-- handle. Inserting, fetching and releasing want `_map_mutex`, which is free where no handle is being
-- closed. What is released is a handle of the table.
pub data Step : Connections → Connections → Type 0 where
  counted : (fd : ℕ) (s : Connections) → s.accepting ≡ none → IsFree fd s → Step s (accept_fd fd s)
  inserted :
      (fd : ℕ) (s : Connections)
      → s.accepting ≡ some fd
      → s.closing ≡ idle
      → Step s (insert_handle fd s)
  fetched : (fd : ℕ) (s : Connections) → s.closing ≡ idle → Step s (get_handle fd s)
  released :
      (fd : ℕ) (close_handle : Bool) (ref : ℕ) (s : Connections)
      → lookup fd s.handles ≡ some ref
      → s.closing ≡ idle
      → Step s (release_handle fd close_handle ref s)
  removed : (fd : ℕ) (s : Connections) → s.closing ≡ closed fd → Step s (erase_handle fd s)
  counted_off : (s : Connections) → s.closing ≡ erased → Step s (count_off s)

abbrev pub no_connections : Connections
no_connections = record { handles = []; now = 0; accepting = none; closing = idle }

-- The states that the server comes to.
pub data Reachable : Connections → Type 0 where
  fresh : Reachable no_connections
  after : {s t : Connections} → Reachable s → Step s t → Reachable t
