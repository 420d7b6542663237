-- ===== src/Server/Handler.antt =====
-- `generate_response` of src/http_server/HttpHandler.cpp. The query's values are read and then replaced by
-- constants, so that the result depends on the search alone; `json_result` is what generate_json_result makes
-- of it, and none where GetLocationResult fails.
use dlg_service.Prelude.{Option, none, some, Bool, true, false, Bytes, length, ◌%◌, ◌^◌}
use dlg_service.Server.Response.{HttpResponse, http_response, fill_content}

-- The response that the worker has, or a new one: `HTTP10` and `SC200`.
unfoldable pub worker_response : Option HttpResponse → HttpResponse
worker_response none = http_response 0 2
worker_response (some r) = r

-- `generate_response`: 0 or (false) -1, and the worker's response; `none` where `fillContent` writes outside
-- its block. The size of the text is passed as an unsigned int.
unfoldable pub generate_response : Option Bytes → Option HttpResponse → Option (Bool × HttpResponse)
generate_response none response = some (false, worker_response response)
generate_response (some json_result) response =
    elim (fill_content (length json_result % 2 ^ 32) json_result (worker_response response)) [
      | none ↦ none
      | some r ↦ some (true, r)
    ]
