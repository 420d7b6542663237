-- ===== src/Server/Configuration.antt =====
-- src/http_server/configuration.cpp, on the lines of the file; `atoi` is a parameter, on numbers that are
-- not negative.
pub mod Read
use dlg_service.Prelude.{
  ℕ, ◌+◌, ◌*◌, Option, none, some, List, [], ◌∷◌, ◌++◌, Bytes, find, take, drop,
}
use dlg_service.Index.Types.{c_str}
use dlg_service.Server.Config.{ConfigMap, config_map, import_lines, set_section, get_value}

-- The map of a file; a file that is missing leaves it empty.
unfoldable pub imported : Option (List Bytes) → ConfigMap
imported none = config_map
imported (some lines) = import_lines lines config_map

-- `readString`
unfoldable pub read_string : Option (List Bytes) → Bytes → Bytes → Bytes
read_string none path name = []
read_string (some lines) path name =
    elim (get_value (c_str name) (set_section path (import_lines lines config_map))) [
      | none ↦ []
      | some v ↦ v
    ]

module _ (atoi : Bytes → ℕ) where
  -- `SeparateIP`: the address and the port, or (none) -1.
  unfoldable pub separate_ip : Bytes → Option (Bytes × ℕ)
  separate_ip value = elim (find (c_str value) (b':' ∷ [])) [
    | none ↦ none
    | some i ↦ some (take i (c_str value), atoi (drop (i + 1) (c_str value)))
  ]

  -- `readParameter`: `listen_port` and `thread_stack_size`, or (none) -1.
  unfoldable pub read_parameter : Option (List Bytes) → Bytes → Option (ℕ × ℕ)
  read_parameter file key =
      let config =
        set_section
          (key ++ (b'/' ∷ b'P' ∷ b'a' ∷ b'r' ∷ b'a' ∷ b'm' ∷ b'e' ∷ b't' ∷ b'e' ∷ b'r' ∷ []))
          (imported file) in
      elim (get_value (b'L' ∷ b'i' ∷ b's' ∷ b't' ∷ b'e' ∷ b'n' ∷ b'P' ∷ b'o' ∷ b'r' ∷ b't' ∷ [])
        config) [
          | none ↦ none
          | some port ↦ some (
            atoi port,
            elim (get_value
                (b'T' ∷ b'h' ∷ b'r' ∷ b'e' ∷ b'a' ∷ b'd' ∷ b'S' ∷ b't' ∷ b'a' ∷ b'c' ∷ b'k' ∷ b'S'
                  ∷ b'i' ∷ b'z' ∷ b'e' ∷ [])
                config) [ none ↦ 256 * 1024 | some size ↦ atoi size * 1024 ],
          )
        ]

  -- `readThreadNumber`: `receiver_num`.
  unfoldable pub read_thread_number : Option (List Bytes) → Bytes → ℕ
  read_thread_number file key =
      elim (get_value
        (b'R' ∷ b'e' ∷ b'c' ∷ b'e' ∷ b'i' ∷ b'v' ∷ b'e' ∷ b'r' ∷ b'T' ∷ b'h' ∷ b'r' ∷ b'e' ∷ b'a'
          ∷ b'd' ∷ [])
        (set_section
          (key
            ++ (b'/' ∷ b'T' ∷ b'h' ∷ b'r' ∷ b'e' ∷ b'a' ∷ b'd' ∷ b'N' ∷ b'u' ∷ b'm' ∷ b'b' ∷ b'e'
                ∷ b'r' ∷ []))
          (imported file))) [ none ↦ 3 | some n ↦ atoi n ]

  -- `open`: the members, or (none) -1.
  unfoldable pub open_configuration : Option (List Bytes) → Bytes → Option ((ℕ × ℕ) × ℕ)
  open_configuration file key = elim (read_parameter file key) [
    | none ↦ none
    | some p ↦ some (p, read_thread_number file key)
  ]
