-- ===== src/Server/Configuration/Read.antt =====
-- `readString` reads what a file sets.
use dlg_service.Prelude.{
  ◌≡◌, ◌≢◌, refl, ap, ◌∙◌, some, none, Option, List, [], ◌∷◌, ◌++◌, ◌==◌, Bytes, bytes_eq_refl,
  true, false, length, All, arith,
}
use dlg_service.Index.Types.{c_str}
use dlg_service.Server.Config.{
  strip, config_map, ConfigMap, import_line, import_lines, set_section, set_value, get_value,
}
use dlg_service.Server.Config.Import.{
  strip-append, until-append, parameter_line, import_line-parameter_line,
}
use dlg_service.Server.Config.Values.{paths_eq}
use dlg_service.Server.Config.Sections.{section_path, get_value-set_value}
use dlg_service.Server.Configuration.{read_string}

-- `[path]`
abbrev pub section_line : Bytes → Bytes
section_line path = b'[' ∷ (path ++ b']' ∷ [])

import_line-section_line :
    (path : Bytes) (config : ConfigMap)
    → path ≢ []
    → All (λ c. c ≢ b']') path
    → import_line (section_line path) config ≡ set_section (strip path) config
unfolding import_line
import_line-section_line path config n a =
    let full : (length path == 0) ≡ false = not_empty path n in
    rw (strip-append b'[' path b']' refl refl, import_line)
      (rw (until-append b']' path [] a) (rw full refl))
  where
    not_empty : (s : Bytes) → s ≢ [] → (length s == 0) ≡ false
    not_empty [] m = absurd (m refl)
    not_empty (c ∷ s) m = ground arith

paths_eq_refl : (p : List Bytes) → paths_eq p p ≡ true
unfolding paths_eq
paths_eq_refl [] = refl
paths_eq_refl (a ∷ p) = rw (bytes_eq_refl a) (paths_eq_refl p)

-- Of a file with the line of a section and the line of a parameter, readString of that section and name
-- gives the parameter's value, where the section's name is not empty, has no blanks at its ends and no
-- closing bracket, the parameter's name is not empty, and neither it nor the value has a quotation mark.
pub read_string-parameter_line :
    (path name text : Bytes)
    → path ≢ []
    → strip path ≡ path
    → All (λ c. c ≢ b']') path
    → name ≢ []
    → All (λ c. c ≢ b'"') name
    → All (λ c. c ≢ b'"') text
    → read_string (some (section_line path ∷ parameter_line name text ∷ [])) path name ≡ c_str text
unfolding read_string import_lines
read_string-parameter_line path name text n s a m b c =
    let opened = import_line (section_line path) config_map in
    let opening : opened ≡ set_section path config_map =
      import_line-section_line path config_map n a ∙ ap (λ p. set_section p config_map) s in
    let setting : import_line (parameter_line name text) opened
        ≡ set_value (c_str name) (c_str text) (set_section path config_map) =
      import_line-parameter_line name text opened m b c
      ∙ ap (set_value (c_str name) (c_str text)) opening in
    let found : get_value (c_str name)
          (set_section path (set_value (c_str name) (c_str text) (set_section path config_map)))
        ≡ some (c_str text) =
      get_value-set_value path path (c_str name) (c_str name) (c_str text) config_map
      ∙ rw (paths_eq_refl (section_path path), bytes_eq_refl (c_str name)) refl in
    let result : Option Bytes → Bytes = λ o. elim o [ none ↦ [] | some v ↦ v ] in
    ap (λ x. result (get_value (c_str name) (set_section path x))) setting ∙ ap result found
