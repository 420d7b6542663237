-- ===== src/Server/Config/Import.antt =====
-- `import` of `config_map` reads back what a line of a configuration says.
use dlg_service.Prelude.{
  ℕ, suc, ◌≡◌, ◌≢◌, refl, ap, ◌∙◌, sym, some, [], ◌∷◌, ◌++◌, ◌==◌, Bytes, false, length,
  length-append, drop, take-append, find-append, All, arith,
}
use mathlib.Core.List.{append_assoc}
use dlg_service.Index.Types.{c_str}
use dlg_service.Server.Config.{
  is_space, strip_left, strip_right, strip, until, ConfigMap, set_value, import_value, import_line,
}

strip_right-append :
    (s : Bytes) (c : ℕ) → is_space c ≡ false → strip_right (s ++ c ∷ []) ≡ s ++ c ∷ []
unfolding strip_right
strip_right-append [] c h = rw h refl
strip_right-append (d ∷ s) c h =
    let full : (length (strip_right (s ++ c ∷ [])) == 0) ≡ false =
      ground (arith, ap length (strip_right-append s c h), length-append s (c ∷ [])) in
    rw full (ap (λ r. d ∷ r) (strip_right-append s c h))

pub strip-append :
    (b : ℕ) (s : Bytes) (c : ℕ)
    → is_space b ≡ false
    → is_space c ≡ false
    → strip (b ∷ s ++ c ∷ []) ≡ b ∷ s ++ c ∷ []
unfolding strip strip_left
strip-append b s c g h = rw g (strip_right-append (b ∷ s) c h)

pub until-append :
    (c : ℕ) (s rest : Bytes) → All (λ x. x ≢ c) s → until c (s ++ c ∷ rest) ≡ some (s, rest)
unfolding until
until-append c s rest a =
    rw (find-append s c [] rest a, until)
      (ap (λ l. some (l, drop (suc (length s)) (s ++ c ∷ rest)))
          (take-append s (c ∷ rest) (length s) refl)
        ∙ ap (λ l. some (s, l)) (behind s))
  where
    behind : (t : Bytes) → drop (suc (length t)) (t ++ c ∷ rest) ≡ rest
    behind [] = refl
    behind (b ∷ t) = behind t

-- `"key"="value"`
abbrev pub parameter_line : Bytes → Bytes → Bytes
parameter_line key value = b'"' ∷ (key ++ b'"' ∷ (b'=' ∷ (b'"' ∷ (value ++ b'"' ∷ []))))

strip-parameter_line :
    (key value : Bytes) → strip (parameter_line key value) ≡ parameter_line key value
strip-parameter_line key value =
    let split : key ++ b'"' ∷ (b'=' ∷ (b'"' ∷ (value ++ b'"' ∷ [])))
        ≡ (key ++ b'"' ∷ (b'=' ∷ (b'"' ∷ value))) ++ b'"' ∷ [] =
      sym (append_assoc key (b'"' ∷ (b'=' ∷ (b'"' ∷ value))) (b'"' ∷ [])) in
    ap (λ l. strip (b'"' ∷ l)) split
    ∙ strip-append b'"' (key ++ b'"' ∷ (b'=' ∷ (b'"' ∷ value))) b'"' refl refl
    ∙ ap (λ l. b'"' ∷ l) (sym split)

-- A line with a name and a value in quotation marks, neither of which has a quotation mark, and the name
-- not empty, sets the value of that name in the section that is open.
pub import_line-parameter_line :
    (key value : Bytes) (config : ConfigMap)
    → key ≢ []
    → All (λ c. c ≢ b'"') key
    → All (λ c. c ≢ b'"') value
    → import_line (parameter_line key value) config ≡ set_value (c_str key) (c_str value) config
unfolding import_line import_value
import_line-parameter_line key value config n a b =
    let rest = b'=' ∷ (b'"' ∷ (value ++ b'"' ∷ [])) in
    let full : (length key == 0) ≡ false = not_empty key n in
    let behind : strip rest ≡ rest = strip-append b'=' (b'"' ∷ value) b'"' refl refl in
    let last : strip (b'"' ∷ (value ++ b'"' ∷ [])) ≡ b'"' ∷ (value ++ b'"' ∷ []) =
      strip-append b'"' value b'"' refl refl in
    rw (strip-parameter_line key value, import_line)
      (rw (until-append b'"' key rest a)
        (rw full (rw behind (rw (last, import_value) (rw (until-append b'"' value [] b) refl)))))
  where
    not_empty : (s : Bytes) → s ≢ [] → (length s == 0) ≡ false
    not_empty [] m = absurd (m refl)
    not_empty (c ∷ s) m = ground arith
