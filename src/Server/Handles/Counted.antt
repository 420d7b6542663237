-- ===== src/Server/Handles/Counted.antt =====
-- The server's number of connections and its table; src/http_server/http_server.cpp.
use dlg_service.Prelude.{
  ℕ, ◌+◌, ◌≤◌, ◌≡◌, refl, ap, sym, ◌∙◌, subst, Option, none, some, Bool, true, false, ◌||◌, leb,
  ◌==◌, lookup, upsert, nat_ord, length, arith, Bool-cases, inl, inr, Option-cases, IsSorted,
  upsert-IsSorted, lookup-upsert_self,
}
use dlg_service.Server.Handles.{
  Connections, Closing, idle, closed, erased, max_fd_num, insert_ref, accept_fd, insert_handle,
  acquire_ref, get_handle, set_ref, release, release_handle, erase_handle, erase, count_off, IsFree,
  Step, counted, inserted, fetched, released, removed, counted_off, Reachable, fresh, after,
}
use dlg_service.Server.Handles.Erase.{
  length-upsert_new, length-upsert_old, length-erase, lookup-upsert-none, lookup-erase_self,
  lookup-erase-none, erase-IsSorted,
}

-- The descriptors that are counted and have no handle yet, and those that have no handle any more.
abbrev pub early : Option ℕ → ℕ
early none = 0
early (some fd) = 1

abbrev pub late : Closing → ℕ
late idle = 0
late (closed fd) = 0
late erased = 1

-- Each counted connection is one with a handle, one that waits for it or one that has just lost it; there are at
-- most MAX_FD_NUM; and a descriptor that waits for a handle has none, unless it is that of the handle
-- which is about to be erased.
pub record IsCounted (s : Connections) : Type 0 where
  pub total : s.now ≡ length s.handles + early s.accepting + late s.closing
  pub bounded : s.now ≤ max_fd_num
  pub waits : (fd : ℕ) → s.accepting ≡ some fd → IsFree fd s

-- and the table is ascending, and a handle that is about to be erased is there
record IsKept (s : Connections) : Type 0 where
  is_counted : IsCounted s
  is_sorted : IsSorted s.handles
  there : (fd : ℕ) → s.closing ≡ closed fd → (ref : ℕ) × (lookup fd s.handles ≡ some ref)

accept_fd-IsKept :
    (fd : ℕ) (s : Connections)
    → s.accepting ≡ none
    → IsFree fd s
    → IsKept s
    → IsKept (accept_fd fd s)
unfolding accept_fd
accept_fd-IsKept fd s none_waits free k = elim (Bool-cases (leb max_fd_num s.now || leb 1024 fd)) [
  | inl full ↦ rw (full, accept_fd) k
  | inr room ↦
      let at_none : early s.accepting ≡ 0 = ap early none_waits in
      rw (room, accept_fd)
        (record {
          is_counted = record {
            total = omega (arith, k.is_counted.total, at_none);
            bounded = one_more s.now fd room;
            waits = λ i e. subst (λ j. IsFree j s) (some-eq fd i e) free;
          };
          is_sorted = k.is_sorted;
          there = k.there;
        })
]
  where
    one_more : (n i : ℕ) → (leb max_fd_num n || leb 1024 i) ≡ false → n + 1 ≤ max_fd_num
    one_more n i h = ground arith

    some-eq : (i j : ℕ) → some i ≡ some j → i ≡ j
    some-eq i j e = cc

insert_handle-IsKept :
    (fd : ℕ) (s : Connections)
    → s.accepting ≡ some fd
    → s.closing ≡ idle
    → IsKept s
    → IsKept (insert_handle fd s)
unfolding insert_handle
insert_handle-IsKept fd s waiting free k =
    let new : lookup fd s.handles ≡ none = elim (k.is_counted.waits fd waiting) [
      | inl n ↦ n
      | inr c ↦ cc
    ] in
    let at_fd : early s.accepting ≡ 1 = ap early waiting in
    record {
      is_counted = record {
        total =
            omega (arith, k.is_counted.total, at_fd, length-upsert_new fd insert_ref s.handles new);
        bounded = k.is_counted.bounded;
        waits = λ i e. cc;
      };
      is_sorted = upsert-IsSorted fd insert_ref s.handles k.is_sorted;
      there = λ i e. cc;
    }

-- What is written for a handle of the table keeps all that is said of it.
upsert-IsKept :
    (fd ref : ℕ) (f : Option ℕ → ℕ) (s : Connections)
    → lookup fd s.handles ≡ some ref
    → s.closing ≡ idle
    → IsKept s
    → IsKept (record s { handles = upsert fd f s.handles })
upsert-IsKept fd ref f s h free k = record {
  is_counted = record {
    total = omega (arith, k.is_counted.total, length-upsert_old fd f s.handles ref h);
    bounded = k.is_counted.bounded;
    waits = λ i e. elim (k.is_counted.waits i e) [
      | inl n ↦ inl (lookup-upsert-none i fd f s.handles ref n h)
      | inr c ↦ inr c
    ];
  };
  is_sorted = upsert-IsSorted fd f s.handles k.is_sorted;
  there = λ i e. cc;
}

closed-eq : (i j : ℕ) → closed i ≡ closed j → i ≡ j
closed-eq i j e = cc

-- Closing the descriptor of a handle of the table begins here.
close-IsKept :
    (fd ref : ℕ) (s : Connections)
    → lookup fd s.handles ≡ some ref
    → s.closing ≡ idle
    → IsKept s
    → IsKept (record s { closing = closed fd })
close-IsKept fd ref s h free k = record {
  is_counted = record {
    total = omega (arith, k.is_counted.total, ap late free);
    bounded = k.is_counted.bounded;
    waits = λ i e. elim (k.is_counted.waits i e) [ inl n ↦ inl n | inr c ↦ cc ];
  };
  is_sorted = k.is_sorted;
  there = λ i e. (ref, subst (λ j. lookup j s.handles ≡ some ref) (closed-eq fd i e) h);
}

get_handle-IsKept :
    (fd : ℕ) (s : Connections) → s.closing ≡ idle → IsKept s → IsKept (get_handle fd s)
unfolding get_handle
get_handle-IsKept fd s free k = elim (Option-cases (lookup fd s.handles)) [
  | inl e ↦ rw (e, get_handle) k
  | inr (r, e) ↦ rw (e, get_handle) (upsert-IsKept fd r (acquire_ref r) s e free k)
]

release_handle-IsKept :
    (fd : ℕ) (b : Bool) (ref : ℕ) (s : Connections)
    → lookup fd s.handles ≡ some ref
    → s.closing ≡ idle
    → IsKept s
    → IsKept (release_handle fd b ref s)
unfolding release_handle
release_handle-IsKept fd false ref s h free k =
    upsert-IsKept fd ref (set_ref (release ref)) s h free k
release_handle-IsKept fd true ref s h free k = elim (Bool-cases (release ref == 0)) [
  | inl last ↦
      rw (last, release_handle)
        (close-IsKept fd 0 (record s { handles = upsert fd (set_ref 0) s.handles })
          (lookup-upsert_self fd (set_ref 0) s.handles) free
          (upsert-IsKept fd ref (set_ref 0) s h free k))
  | inr more ↦
      rw (more, release_handle) (upsert-IsKept fd ref (set_ref (release (release ref))) s h free k)
]

erase_handle-IsKept :
    (fd : ℕ) (s : Connections) → s.closing ≡ closed fd → IsKept s → IsKept (erase_handle fd s)
unfolding erase_handle
erase_handle-IsKept fd s c k =
    let (ref, h) = k.there fd c in
    record {
      is_counted = record {
        total = omega (arith, k.is_counted.total, ap late c, length-erase fd s.handles ref h);
        bounded = k.is_counted.bounded;
        waits = λ i e. elim (k.is_counted.waits i e) [
          | inl n ↦ inl (lookup-erase-none i fd s.handles k.is_sorted n)
          | inr d ↦ inl (
              subst (λ j. lookup j (erase fd s.handles) ≡ none) (closed-eq fd i (sym c ∙ d))
                (lookup-erase_self fd s.handles k.is_sorted))
        ];
      };
      is_sorted = erase-IsSorted fd s.handles k.is_sorted;
      there = λ i e. cc;
    }

count_off-IsKept : (s : Connections) → s.closing ≡ erased → IsKept s → IsKept (count_off s)
unfolding count_off
count_off-IsKept s c k = record {
  is_counted = record {
    total = omega (arith, k.is_counted.total, ap late c);
    bounded = omega (arith, k.is_counted.bounded);
    waits = λ i e. elim (k.is_counted.waits i e) [ inl n ↦ inl n | inr d ↦ cc ];
  };
  is_sorted = k.is_sorted;
  there = λ i e. cc;
}

Step-IsKept : {s t : Connections} → Step s t → IsKept s → IsKept t
Step-IsKept (counted fd s n free) k = accept_fd-IsKept fd s n free k
Step-IsKept (inserted fd s w free) k = insert_handle-IsKept fd s w free k
Step-IsKept (fetched fd s free) k = get_handle-IsKept fd s free k
Step-IsKept (released fd b ref s h free) k = release_handle-IsKept fd b ref s h free k
Step-IsKept (removed fd s c) k = erase_handle-IsKept fd s c k
Step-IsKept (counted_off s c) k = count_off-IsKept s c k

Reachable-IsKept : {s : Connections} → Reachable s → IsKept s
Reachable-IsKept fresh = record {
  is_counted = record { total = refl; bounded = omega arith; waits = λ i e. cc };
  is_sorted = tt;
  there = λ i e. cc;
}
Reachable-IsKept (after r st) = Step-IsKept st (Reachable-IsKept r)

-- In every state that the server comes to by the critical sections of accepting, inserting, fetching and
-- releasing, in any order that the mutexes allow: `_now_connections` is the number of handles, one more
-- while a counted descriptor waits for its handle, and one more while a handle is erased and not counted
-- off; it is at most MAX_FD_NUM; and a descriptor that waits for its handle has none, but for a handle
-- that is about to be erased.
pub Reachable-IsCounted : (s : Connections) → Reachable s → IsCounted s
Reachable-IsCounted s r = (Reachable-IsKept r).is_counted
