-- ===== src/Request/Body/Tests.antt =====
-- Bodies and host names at concrete inputs.
use mathlib.Core.List.{flatten}
use phorklift.Prelude.{refl, none, some, [], ◌∷◌, arith, false}
use phorklift.Request.State.{receive_body_sync, Request}
use phorklift.Request.Body.{feed}
use phorklift.Request.Body.Feeding.{IsSized, Took, feed-Took}

-- A request that expects three bytes.
abbrev upload : Request
upload = record {
  state = receive_body_sync;
  closed = false;
  is_broken = false;
  redirects = 0;
  filter_indexs = record { process_headers = 0; process_body = 0; response_headers = 0 };
  filter_terminal = none;
  named_path = none;
  conf_host = some 0;
  conf_path = some 5;
  is_http2 = false;
  is_subrequest = false;
  host = none;
  uri_path = none;
  content_length = some 3;
  chunked = false;
  body = [];
  body_finished = false;
  status_code = 0;
  resp_content_length = none;
  resp_headers = [];
  easy_str_len = 0;
  easy_fd = 0;
  content_original_length = none;
  content_generated_length = 0;
  sent_length = 0;
}

upload-IsSized : IsSized 3 upload
upload-IsSized = record {
  positive = omega arith;
  declared = refl;
  fits = omega arith;
  flagged = refl;
}

feed-Took_example :
    Took 3
      (flatten ((7 ∷ []) ∷ (8 ∷ 9 ∷ []) ∷ []))
      upload
      (feed 0 upload ((7 ∷ []) ∷ (8 ∷ 9 ∷ []) ∷ []))
feed-Took_example = feed-Took 3 0 upload ((7 ∷ []) ∷ (8 ∷ 9 ∷ []) ∷ []) upload-IsSized (omega arith)
