-- ===== src/Server/Config/Values.antt =====
-- `config_map` as a map from sections and keys to values.
use dlg_service.Prelude.{
  ◌≡◌, refl, ap, ◌∙◌, sym, Option, none, some, List, [], ◌∷◌, ◌&&◌, if◌then◌else◌, Bytes, bytes_eq,
  bytes_eq→eq, bytes_eq_refl, true, false, Bool, Bool-cases, inl, inr, arith,
}
use dlg_service.Server.Config.{
  section, value, ConfigMapNode, nil, node, is_section, chain_at, change_at, has_value,
  assign_value, put_value, find_value,
}

-- The value of a key in the section of a path.
abbrev pub value_at : List Bytes → Bytes → ConfigMapNode → Option Bytes
value_at path key t = find_value key (chain_at path t)

-- There is a section at the path.
unfoldable pub has_path : List Bytes → ConfigMapNode → Bool
has_path [] t = true
has_path (sub ∷ path) nil = false
has_path (sub ∷ path) (node type' key val left right) =
    let down = has_path path left in
    let next = has_path (sub ∷ path) right in
    if is_section type' && bytes_eq key sub then down else next

unfoldable pub paths_eq : List Bytes → List Bytes → Bool
paths_eq [] [] = true
paths_eq [] (b ∷ q) = false
paths_eq (a ∷ p) [] = false
paths_eq (a ∷ p) (b ∷ q) = bytes_eq a b && paths_eq p q

-- a key that is equal to one of two texts and not to the other
pub unlike :
    (k k' key : Bytes) → bytes_eq key k ≡ false → bytes_eq key k' ≡ true → bytes_eq k k' ≡ false
unlike k k' key e g = elim (Bool-cases (bytes_eq k k')) [
  | inl f ↦
      let q : key ≡ k = bytes_eq→eq key k' g ∙ sym (bytes_eq→eq k k' f) in
      let r : bytes_eq key k ≡ true = ap (bytes_eq key) (sym q) ∙ bytes_eq_refl key in absurd cc
  | inr f ↦ f
]

find_value-assign_value :
    (k k' v : Bytes) (t : ConfigMapNode)
    → has_value k t ≡ true
    → find_value k' (assign_value k v t) ≡ (if bytes_eq k k' then some v else find_value k' t)
unfolding find_value assign_value has_value
find_value-assign_value k k' v nil h = absurd cc
find_value-assign_value k k' v (node section key val left right) h =
    find_value-assign_value k k' v right h
find_value-assign_value k k' v (node value key val left right) h =
    elim (Bool-cases (bytes_eq key k)) [
      | inl e ↦ elim (Bool-cases (bytes_eq k k')) [
        | inl f ↦
            let g : bytes_eq key k' ≡ true = ap (λ x. bytes_eq x k') (bytes_eq→eq key k e) ∙ f in
            rw (e, f) (rw g refl)
        | inr f ↦
            let g : bytes_eq key k' ≡ false = ap (λ x. bytes_eq x k') (bytes_eq→eq key k e) ∙ f in
            rw (e, f) (rw g refl)
      ]
      | inr e ↦
          let later : has_value k (node value key val left right) ≡ has_value k right =
            rw (e, has_value) refl in
          let rest = find_value-assign_value k k' v right (sym later ∙ h) in
          elim (Bool-cases (bytes_eq key k')) [
            | inl g ↦ rw (e, g) (rw (unlike k k' key e g) refl)
            | inr g ↦ rw (e, g) rest
          ]
    ]

find_value-put_value :
    (k k' v : Bytes) (t : ConfigMapNode)
    → find_value k' (put_value k v t) ≡ (if bytes_eq k k' then some v else find_value k' t)
unfolding put_value
find_value-put_value k k' v t = elim (Bool-cases (has_value k t)) [
  | inl e ↦ rw e (find_value-assign_value k k' v t e)
  | inr e ↦ rw e (unfold find_value in refl)
]

chain_at-assign_value :
    (k v s : Bytes) (r : List Bytes) (t : ConfigMapNode)
    → chain_at (s ∷ r) (assign_value k v t) ≡ chain_at (s ∷ r) t
unfolding chain_at assign_value
chain_at-assign_value k v s r nil = refl
chain_at-assign_value k v s r (node section key val left right) =
    ground (arith, chain_at-assign_value k v s r right)
chain_at-assign_value k v s r (node value key val left right) =
    ground (arith, chain_at-assign_value k v s r right)

chain_at-put_value :
    (k v s : Bytes) (r : List Bytes) (t : ConfigMapNode)
    → chain_at (s ∷ r) (put_value k v t) ≡ chain_at (s ∷ r) t
unfolding put_value chain_at
chain_at-put_value k v s r t = elim (Bool-cases (has_value k t)) [
  | inl e ↦ rw e (chain_at-assign_value k v s r t)
  | inr e ↦ rw e refl
]

pub value_at_nil : (q : List Bytes) (k : Bytes) → value_at q k nil ≡ none
unfolding chain_at find_value
value_at_nil [] k = refl
value_at_nil (b ∷ q) k = refl

pub value_at-change_at :
    (k k' v : Bytes) (p q : List Bytes) (t : ConfigMapNode)
    → has_path p t ≡ true
    → value_at q k' (change_at p (put_value k v) t)
      ≡ (if paths_eq p q && bytes_eq k k' then some v else value_at q k' t)
unfolding chain_at change_at has_path paths_eq find_value
value_at-change_at k k' v [] [] t h = find_value-put_value k k' v t
value_at-change_at k k' v [] (b ∷ q) t h = ap (find_value k') (chain_at-put_value k v b q t)
value_at-change_at k k' v (a ∷ p) q nil h = absurd cc
value_at-change_at k k' v (a ∷ p) [] (node value key val left right) h =
    elim (Bool-cases (bytes_eq key k')) [
      | inl e ↦ rw e refl
      | inr e ↦ rw e (value_at-change_at k k' v (a ∷ p) [] right h)
    ]
value_at-change_at k k' v (a ∷ p) (b ∷ q) (node value key val left right) h =
    value_at-change_at k k' v (a ∷ p) (b ∷ q) right h
value_at-change_at k k' v (a ∷ p) [] (node section key val left right) h =
    elim (Bool-cases (bytes_eq key a)) [
      | inl e ↦ rw e refl
      | inr e ↦
          let later : has_path (a ∷ p) (node section key val left right) ≡ has_path (a ∷ p) right =
            rw (e, has_path) refl in
          rw e (value_at-change_at k k' v (a ∷ p) [] right (sym later ∙ h))
    ]
value_at-change_at k k' v (a ∷ p) (b ∷ q) (node section key val left right) h =
    elim (Bool-cases (bytes_eq key a)) [
      | inl e ↦
          let later : has_path (a ∷ p) (node section key val left right) ≡ has_path p left =
            rw (e, has_path) refl in
          elim (Bool-cases (bytes_eq key b)) [
            | inl f ↦
                let g : bytes_eq a b ≡ true =
                  ap (λ x. bytes_eq x b) (sym (bytes_eq→eq key a e)) ∙ f in
                rw (e, f, chain_at) (rw g (value_at-change_at k k' v p q left (sym later ∙ h)))
            | inr f ↦
                let g : bytes_eq a b ≡ false =
                  ap (λ x. bytes_eq x b) (sym (bytes_eq→eq key a e)) ∙ f in
                rw (e, f, chain_at) (rw g refl)
          ]
      | inr e ↦
          let later : has_path (a ∷ p) (node section key val left right) ≡ has_path (a ∷ p) right =
            rw (e, has_path) refl in
          elim (Bool-cases (bytes_eq key b)) [
            | inl f ↦ rw (e, f, chain_at) (rw (unlike a b key e f) refl)
            | inr f ↦
                rw (e, f, chain_at)
                  (value_at-change_at k k' v (a ∷ p) (b ∷ q) right (sym later ∙ h))
          ]
    ]
