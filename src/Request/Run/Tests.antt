-- ===== src/Request/Run/Tests.antt =====
-- The request pipeline at concrete inputs.
use phorklift.Prelude.{◌≡◌, refl, false, none, some, List, [], ◌∷◌, arith, drop}
use phorklift.Request.State.{
  ok, error, again, State, response_headers_3, response_headers_2, process_headers, Request,
}
use phorklift.Request.Filters.{Phase, Filter, filter_run, run_from, index}
use phorklift.Request.Filters.Resume.{filter_run-resume}
use phorklift.Request.Steps.{Callback, PathConf, sub, Env, steps, redirect}
use phorklift.Request.Run.{crashes, run}
use phorklift.Request.Run.Livelock.{run-never}
use phorklift.Request.Run.Redirects.{redirect-crashes}

abbrev succeeds : Callback
succeeds r = (ok, r)

abbrev fails_always : Callback
fails_always r = (error, r)

abbrev waits_always : Callback
waits_always r = (again, r)

abbrev plain_path : PathConf
plain_path = record {
  content_process_headers = none;
  content_process_body = none;
  content_response_headers = succeeds;
  filters = λ ph. [];
  req_body_sync = false;
  req_body_max = 0;
}

abbrev server : Callback → Env
server write = record {
  default_host = 0;
  default_path = λ h. 0;
  path = λ p. plain_path;
  host_locate = λ n. some 1;
  path_locate = λ h u. some 5;
  dynamic = λ p r. sub p;
  http1_request_headers = succeeds;
  http1_request_body = succeeds;
  write_headers = write;
  write_body = succeeds;
  simple_body_len = λ c. 100;
}

abbrev request_at : State → Request
request_at s = record {
  state = s;
  closed = false;
  is_broken = false;
  redirects = 0;
  filter_indexs = record { process_headers = 0; process_body = 0; response_headers = 0 };
  filter_terminal = none;
  named_path = none;
  conf_host = some 0;
  conf_path = some 5;
  is_http2 = false;
  is_subrequest = false;
  host = none;
  uri_path = some (b'/' ∷ []);
  content_length = none;
  chunked = false;
  body = [];
  body_finished = false;
  status_code = 200;
  resp_content_length = none;
  resp_headers = [];
  easy_str_len = 0;
  easy_fd = 0;
  content_original_length = none;
  content_generated_length = 0;
  sent_length = 0;
}

run-never_example : run (steps (server fails_always)) 1000 (request_at response_headers_3) ≡ none
run-never_example =
    run-never (server fails_always) 5 refl (λ r. refl) 1000 (request_at response_headers_3)
      (record {
        open_request = refl;
        broken = λ h. absurd (omega arith);
        main = refl;
        has_path = refl;
        coded = omega arith;
        at_headers = omega arith;
      })

abbrev jump : State → Callback
jump st = redirect (λ p r. r) (b'@' ∷ b'e' ∷ [])

redirect-crashes_example :
    run jump 1 (request_at response_headers_2)
    ≡ some (crashes (jump response_headers_2 (request_at response_headers_2)).1)
unfolding redirect
redirect-crashes_example =
    redirect-crashes jump (λ p r. r) (b'@' ∷ b'e' ∷ []) (request_at response_headers_2)
      (request_at response_headers_2) 5 0 refl refl refl refl refl

abbrev chain : List Filter
chain = record { id = 1; call = succeeds } ∷ record { id = 2; call = waits_always } ∷ []

abbrev after_one : Request
after_one = record (request_at process_headers) {
  filter_indexs = record { process_headers = 1; process_body = 0; response_headers = 0 };
}

filter_run-resume_example :
    (m : Filter) × (rest : List Filter) × (s : Request) × (drop
        (index Phase.process_headers after_one)
        chain
      ≡ m ∷ rest)
    × ((m.call s).0 ≡ again)
unfolding filter_run run_from
filter_run-resume_example =
    filter_run-resume Phase.process_headers chain (request_at process_headers) after_one
      ((λ r n. refl), ((λ r n. refl), tt)) refl
