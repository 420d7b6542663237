-- ===== src/Examples/Responses.antt =====
-- The theorems on responses, their writing and the configuration at concrete inputs.
use dlg_service.Prelude.{
  refl, List, ◌≤◌, ◌≡◌, some, [], ◌∷◌, Bytes, length, arith, bytes_eq, if◌then◌else◌, ◌&&◌,
}
use dlg_service.Server.Config.{get_value, set_section, set_value, config_map}
use dlg_service.Index.Types.{c_str}
use dlg_service.Server.Config.{import_line}
use dlg_service.Server.Config.Import.{parameter_line, import_line-parameter_line}
use dlg_service.Server.Socket.Write.{Round, wrote, writen, returned, takes, writen-whole}
use dlg_service.Server.Config.{strip, strip_left, strip_right}
use dlg_service.Server.Configuration.{read_string}
use dlg_service.Server.Configuration.Read.{section_line, read_string-parameter_line}
use dlg_service.Server.Config.Values.{paths_eq}
use dlg_service.Server.Config.Sections.{section_path, get_value-set_value}
use dlg_service.Server.Response.{
  HttpResponse, http_response, fill_content, filled, dump_to_buff, decimal, decimal_from,
}
use dlg_service.Server.Response.Head.{response_head, field_lines}
use dlg_service.Server.Response.Dump.{IsDumped, dump_to_buff-fill_content}

abbrev ok : HttpResponse
ok = http_response 1 2

dump_to_buff-fill_content_example :
    (fill_content 2 (b'h' ∷ b'i' ∷ []) ok ≡ some (filled 2 (b'h' ∷ b'i' ∷ []) ok))
    × IsDumped 64
        (filled 2 (b'h' ∷ b'i' ∷ []) ok)
        (dump_to_buff 64 (filled 2 (b'h' ∷ b'i' ∷ []) ok) (λ i. 0))
dump_to_buff-fill_content_example =
    dump_to_buff-fill_content 64 ok (b'h' ∷ b'i' ∷ []) (λ i. 0) (omega arith) (omega arith) fits
  where
    fits : length (response_head (filled 2 (b'h' ∷ b'i' ∷ []) ok)) ≤ 64
    fits = unfold response_head field_lines filled http_response decimal decimal_from in omega arith

abbrev http : Bytes
http = b'h' ∷ []

abbrev deep : Bytes
deep = b'h' ∷ b'/' ∷ b'p' ∷ []

get_value-set_value_example :
    get_value http (set_section deep (set_value http deep (set_section deep config_map))) ≡ (
      if paths_eq (section_path deep) (section_path deep) && bytes_eq http http
      then some deep
      else get_value http (set_section deep config_map))
get_value-set_value_example = get_value-set_value deep deep http http deep config_map

import_line-parameter_line_example :
    import_line (parameter_line http deep) config_map
    ≡ set_value (c_str http) (c_str deep) config_map
import_line-parameter_line_example =
    import_line-parameter_line http deep config_map (λ e. cc) ((λ e. omega arith), tt)
      ((λ e. omega arith), ((λ e. omega arith), ((λ e. omega arith), tt)))

abbrev rounds : List Round
rounds = wrote 2 ∷ wrote 1 ∷ wrote 7 ∷ []

writen-whole_example : writen rounds deep ≡ returned (length deep) deep
unfolding takes
writen-whole_example =
    writen-whole rounds deep (omega arith, (omega arith, (omega arith, tt))) (omega arith)

read_string-parameter_line_example :
    read_string (some (section_line deep ∷ parameter_line http deep ∷ [])) deep http ≡ c_str deep
unfolding strip strip_left strip_right
read_string-parameter_line_example =
    read_string-parameter_line deep http deep (λ e. cc) refl
      ((λ e. omega arith), ((λ e. omega arith), ((λ e. omega arith), tt))) (λ e. cc)
      ((λ e. omega arith), tt) ((λ e. omega arith), ((λ e. omega arith), ((λ e. omega arith), tt)))
