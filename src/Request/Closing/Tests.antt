-- ===== src/Request/Closing/Tests.antt =====
-- Runs of the counters and the log of a closed request.
use phorklift.Prelude.{◌≡◌, refl, true, false, ◌⊎◌, none, some, List, [], ◌∷◌, ◌++◌, arith}
use phorklift.Request.State.{Request, done}
use phorklift.Request.Closing.{
  Seen, PathStats, AccessLog, Entry, custom, dash, line, request_stats, format_entries, access_log,
  is_known,
}
use phorklift.Request.Closing.Counted.{Distinct, sum_of, IsCounted, request_stats-IsCounted}
use phorklift.Request.Closing.Logged.{access_log-format}

abbrev request : Request
request = record {
  state = done;
  closed = true;
  is_broken = false;
  redirects = 0;
  filter_indexs = record { process_headers = 0; process_body = 0; response_headers = 0 };
  filter_terminal = none;
  named_path = none;
  conf_host = some 0;
  conf_path = some 0;
  is_http2 = false;
  is_subrequest = false;
  host = none;
  uri_path = none;
  content_length = none;
  chunked = false;
  body = [];
  body_finished = true;
  status_code = 200;
  resp_content_length = none;
  resp_headers = [];
  easy_str_len = 0;
  easy_fd = 0;
  content_original_length = none;
  content_generated_length = 0;
  sent_length = 10;
}

abbrev seen : Seen
seen = record {
  raw = b'/' ∷ [];
  create_time = 3;
  req_end_time = 5;
  resp_begin_time = 6;
  close_time = 9;
}

abbrev zeros : PathStats
zeros = record {
  fail_no_host = 0;
  fail_no_path = 0;
  total = 0;
  done = 0;
  req_acc_ms = 0;
  react_acc_ms = 0;
  resp_acc_ms = 0;
  total_acc_ms = 0;
  statuses = λ c. 0;
  status_others = 0;
}

request_stats-IsCounted_example :
    IsCounted (200 ∷ 404 ∷ []) (request_stats (200 ∷ 404 ∷ []) seen request zeros)
unfolding Distinct is_known sum_of
request_stats-IsCounted_example =
    request_stats-IsCounted (200 ∷ 404 ∷ []) seen request zeros (refl, (refl, tt))
      (record { by_status = refl; done_le = omega arith })

abbrev log : AccessLog
log = record {
  rate_is_zero = false;
  rate_is_one = true;
  replace_format = false;
  enable_subrequest = false;
  format = none;
  filter = none;
}

access_log-format_example :
    (false ≡ false
      → access_log true (record log { format = some (λ r. some (b'x' ∷ [])) }) seen request
        ≡ access_log true log seen request)
    × ((access_log true log seen request ≡ [])
        ⊎ ((front : List Entry) × (access_log true log seen request
              ≡ front ++ line seen request dash ∷ [])))
access_log-format_example = access_log-format true log seen request (some (λ r. some (b'x' ∷ [])))

-- With `replace_format`, both are logged.
replaced :
    access_log true
      (record log { replace_format = true; format = some (λ r. some (b'x' ∷ [])) })
      seen
      request
    ≡ custom (b'x' ∷ []) ∷ line seen request dash ∷ []
unfolding access_log format_entries
replaced = refl
