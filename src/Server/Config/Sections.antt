-- ===== src/Server/Config/Sections.antt =====
-- `set_section` of `config_map` keeps every value, and what is set in a section is found there again.
use dlg_service.Prelude.{
  ◌≡◌, refl, ap, ◌∙◌, sym, some, List, [], ◌∷◌, ◌++◌, map, ◌==◌, ◌&&◌, if◌then◌else◌, Bytes,
  bytes_eq, bytes_eq→eq, bytes_eq_refl, true, false, length, Bool-cases, inl, inr,
}
use mathlib.Core.List.{append_assoc, append-nil}
use dlg_service.Index.Types.{c_str}
use dlg_service.Server.Config.{
  section, value, ConfigMapNode, nil, node, ConfigMap, chain_at, change_at, has_section,
  find_section, strip, pieces, enter, set_section, put_value, set_value, find_value, get_value,
}
use dlg_service.Server.Config.Values.{
  value_at, has_path, paths_eq, value_at_nil, value_at-change_at,
}

chain_at_missing :
    (b : Bytes) (q : List Bytes) (t : ConfigMapNode)
    → has_section b t ≡ false
    → chain_at (b ∷ q) t ≡ nil
unfolding chain_at has_section
chain_at_missing b q nil h = refl
chain_at_missing b q (node value key val left right) h = chain_at_missing b q right h
chain_at_missing b q (node section key val left right) h = elim (Bool-cases (bytes_eq key b)) [
  | inl e ↦
      let found : has_section b (node section key val left right) ≡ true =
        rw (e, has_section) refl in
      absurd cc
  | inr e ↦
      let later : has_section b (node section key val left right) ≡ has_section b right =
        rw (e, has_section) refl in
      rw e (chain_at_missing b q right (sym later ∙ h))
]

value_at-find_section :
    (s : Bytes) (q : List Bytes) (k : Bytes) (t : ConfigMapNode)
    → value_at q k (find_section s t) ≡ value_at q k t
unfolding find_section chain_at find_value
value_at-find_section s q k t = elim (Bool-cases (has_section s t)) [
  | inl e ↦ rw e refl
  | inr e ↦ rw e (fresh q e)
]
  where
    fresh :
        (r : List Bytes)
        → has_section s t ≡ false
        → value_at r k (node section s [] nil t) ≡ value_at r k t
    fresh [] e = refl
    fresh (b ∷ r) e = elim (Bool-cases (bytes_eq s b)) [
      | inl f ↦
          let free : has_section b t ≡ false =
            ap (λ x. has_section x t) (sym (bytes_eq→eq s b f)) ∙ e in
          rw (f, chain_at)
            (value_at_nil r k
              ∙ sym (ap (find_value k) (chain_at_missing b r t free) ∙ value_at_nil [] k))
      | inr f ↦ rw (f, chain_at) refl
    ]

value_at-change_section :
    (s : Bytes) (p q : List Bytes) (k : Bytes) (t : ConfigMapNode)
    → value_at q k (change_at p (find_section s) t) ≡ value_at q k t
unfolding chain_at change_at find_value
value_at-change_section s [] q k t = value_at-find_section s q k t
value_at-change_section s (a ∷ p) q k nil = refl
value_at-change_section s (a ∷ p) [] k (node value key val left right) =
    elim (Bool-cases (bytes_eq key k)) [
      | inl e ↦ rw e refl
      | inr e ↦ rw e (value_at-change_section s (a ∷ p) [] k right)
    ]
value_at-change_section s (a ∷ p) (b ∷ q) k (node value key val left right) =
    value_at-change_section s (a ∷ p) (b ∷ q) k right
value_at-change_section s (a ∷ p) [] k (node section key val left right) =
    elim (Bool-cases (bytes_eq key a)) [
      | inl e ↦ rw e refl
      | inr e ↦ rw e (value_at-change_section s (a ∷ p) [] k right)
    ]
value_at-change_section s (a ∷ p) (b ∷ q) k (node section key val left right) =
    elim (Bool-cases (bytes_eq key a)) [
      | inl e ↦ elim (Bool-cases (bytes_eq key b)) [
        | inl f ↦ rw (e, f, chain_at) (value_at-change_section s p q k left)
        | inr f ↦ rw (e, f, chain_at) refl
      ]
      | inr e ↦ elim (Bool-cases (bytes_eq key b)) [
        | inl f ↦ rw (e, f, chain_at) refl
        | inr f ↦ rw (e, f, chain_at) (value_at-change_section s (a ∷ p) (b ∷ q) k right)
      ]
    ]

has_path-has_section :
    (s : Bytes) (t : ConfigMapNode) → has_section s t ≡ true → has_path (s ∷ []) t ≡ true
unfolding has_path has_section
has_path-has_section s nil h = absurd cc
has_path-has_section s (node value key val left right) h = has_path-has_section s right h
has_path-has_section s (node section key val left right) h = elim (Bool-cases (bytes_eq key s)) [
  | inl e ↦ rw e refl
  | inr e ↦
      let later : has_section s (node section key val left right) ≡ has_section s right =
        rw (e, has_section) refl in
      rw e (has_path-has_section s right (sym later ∙ h))
]

has_path-change_at :
    (s : Bytes) (p : List Bytes) (t : ConfigMapNode)
    → has_path p t ≡ true
    → has_path (p ++ s ∷ []) (change_at p (find_section s) t) ≡ true
unfolding has_path change_at find_section
has_path-change_at s [] t h = elim (Bool-cases (has_section s t)) [
  | inl e ↦ rw e (has_path-has_section s t e)
  | inr e ↦ rw e (rw (bytes_eq_refl s) refl)
]
has_path-change_at s (a ∷ p) nil h = absurd cc
has_path-change_at s (a ∷ p) (node value key val left right) h =
    has_path-change_at s (a ∷ p) right h
has_path-change_at s (a ∷ p) (node section key val left right) h =
    elim (Bool-cases (bytes_eq key a)) [
      | inl e ↦
          let later : has_path (a ∷ p) (node section key val left right) ≡ has_path p left =
            rw (e, has_path) refl in
          rw e (rw (e, has_path) (has_path-change_at s p left (sym later ∙ h)))
      | inr e ↦
          let later : has_path (a ∷ p) (node section key val left right) ≡ has_path (a ∷ p) right =
            rw (e, has_path) refl in
          rw e (rw (e, has_path) (has_path-change_at s (a ∷ p) right (sym later ∙ h)))
    ]

-- The names of sections in a key.
unfoldable pub names : List Bytes → List Bytes
names [] = []
names (piece ∷ rest) =
    let more = names rest in if length (strip piece) == 0 then more else strip piece ∷ more

abbrev pub section_path : Bytes → List Bytes
section_path key = names (pieces b'/' [] (map (λ c. if c == 92 then b'/' else c) (c_str key)))

-- What entering sections does: `cur` is a section of the tree, and no value changes.
record IsEntered (path : List Bytes) (config config' : ConfigMap) : Type 0 where
  at_path : config'.cur ≡ path
  is_there : has_path config'.cur config'.root_left ≡ true
  same_values :
      (q : List Bytes) (k : Bytes) → value_at q k config'.root_left ≡ value_at q k config.root_left

enter-IsEntered :
    (rest : List Bytes) (config : ConfigMap)
    → has_path config.cur config.root_left ≡ true
    → IsEntered (config.cur ++ names rest) config (enter rest config)
unfolding enter names
enter-IsEntered [] config h = record {
  at_path = sym (append-nil config.cur);
  is_there = h;
  same_values = λ q k. refl;
}
enter-IsEntered (piece ∷ rest) config h = elim (Bool-cases (length (strip piece) == 0)) [
  | inl e ↦ rw e (enter-IsEntered rest config h)
  | inr e ↦
      let sub = strip piece in
      let below : ConfigMap = record {
        root_left = change_at config.cur (find_section sub) config.root_left;
        cur = config.cur ++ sub ∷ [];
      } in
      let entered =
        enter-IsEntered rest below (has_path-change_at sub config.cur config.root_left h) in
      rw e (record {
        at_path = entered.at_path ∙ append_assoc config.cur (sub ∷ []) (names rest);
        is_there = entered.is_there;
        same_values = λ q k.
            entered.same_values q k ∙ value_at-change_section sub config.cur q k config.root_left;
      })
]

set_section-IsEntered :
    (key : Bytes) (config : ConfigMap)
    → IsEntered (section_path key) config (set_section key config)
unfolding set_section
set_section-IsEntered key config =
    let entered =
      enter-IsEntered (pieces b'/' [] (map (λ c. if c == 92 then b'/' else c) (c_str key)))
        (record config { cur = [] }) root_there in
    record {
      at_path = entered.at_path;
      is_there = entered.is_there;
      same_values = entered.same_values;
    }
  where
    root_there : has_path [] config.root_left ≡ true
    root_there = unfold has_path in refl

-- A value that is set in one section: get_value in any section gives it for its key in that section, and
-- for other keys and in other sections what it gave before.
pub get_value-set_value :
    (a b k k' v : Bytes) (config : ConfigMap)
    → get_value k' (set_section b (set_value k v (set_section a config))) ≡ (
        if paths_eq (section_path a) (section_path b) && bytes_eq k k'
        then some v
        else get_value k' (set_section b config))
unfolding get_value set_value
get_value-set_value a b k k' v config =
    let first = set_section-IsEntered a config in
    let opened = set_section a config in
    let put = change_at opened.cur (put_value k v) opened.root_left in
    let second = set_section-IsEntered b (record opened { root_left = put }) in
    let direct = set_section-IsEntered b config in
    let old : value_at (section_path b) k' opened.root_left ≡ get_value k' (set_section b config) =
      first.same_values (section_path b) k'
      ∙ sym (direct.same_values (section_path b) k')
      ∙ ap (λ q. value_at q k' (set_section b config).root_left) (sym direct.at_path) in
    second.same_values (set_section b (record opened { root_left = put })).cur k'
    ∙ ap (λ q. value_at q k' put) second.at_path
    ∙ value_at-change_at k k' v opened.cur (section_path b) opened.root_left first.is_there
    ∙ ap
        (λ p.
          if paths_eq p (section_path b) && bytes_eq k k'
          then some v
          else value_at (section_path b) k' opened.root_left)
        first.at_path
    ∙ ap (λ o. if paths_eq (section_path a) (section_path b) && bytes_eq k k' then some v else o)
        old
