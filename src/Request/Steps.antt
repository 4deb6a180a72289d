-- ===== src/Request/Steps.antt =====
-- The steps of phl_request.c, from the headers of the request to those of the response. Callbacks
-- of modules, the HTTP parsers and writers and the lookups are fields of `Env`.
pub mod Contract
pub mod Redirect
use phorklift.Prelude.{
  ℕ, suc, ◌+◌, ◌≡◌, Bool, true, false, not, ◌&&◌, ◌||◌, Option, none, some, List, [], ◌∷◌, Text,
  ◌==◌, if◌then◌else◌, ltb, leb, first,
}
use phorklift.Request.State.{
  Ret, ok, error, again, brk, status, State, receive_headers, locate_conf_host, locate_conf_path,
  receive_body_sync, process_headers, process_body, response_headers_1, response_headers_2,
  response_headers_3, response_body, done, Indexes, Request,
}
use phorklift.Request.Filters.{Phase, Filter, filter_run}

abbrev pub Callback : Type 0
Callback = Request → Ret × Request

-- `struct phl_conf_path`: the content module's callbacks, the filters, and what the steps read.
pub record PathConf : Type 0 where
  pub content_process_headers : Option Callback
  pub content_process_body : Option Callback
  pub content_response_headers : Callback
  pub filters : Phase → List Filter
  pub req_body_sync : Bool
  pub req_body_max : ℕ

-- What the loop over phl_dynamic_get() ends with: a path that is not dynamic, or the path at which
-- it failed and its error.
pub data SubPath : Type 0 where
  sub : ℕ → SubPath
  fails : ℕ → Ret → SubPath

pub record Env : Type 0 where
  pub default_host : ℕ
  pub default_path : ℕ → ℕ
  pub path : ℕ → PathConf
  pub host_locate : Option Text → Option ℕ
  pub path_locate : ℕ → Text → Option ℕ
  pub dynamic : ℕ → Request → SubPath
  pub http1_request_headers : Callback
  pub http1_request_body : Callback
  pub write_headers : Callback
  pub write_body : Callback
  pub simple_body_len : ℕ → ℕ

abbrev pub is_id : Option ℕ → ℕ → Bool
is_id none i = false
is_id (some j) i = j == i

abbrev pub is_none {ℓ} : {A : Type ℓ} → Option A → Bool
is_none none = true
is_none (some a) = false

abbrev pub is_zero : Option ℕ → Bool
is_zero none = false
is_zero (some n) = n == 0

-- `content_length > max`, for a length that is known
abbrev pub exceeds : Option ℕ → ℕ → Bool
exceeds none max = false
exceeds (some n) max = ltb max n

abbrev pub maybe : Option Callback → Callback
maybe none r = (ok, r)
maybe (some f) r = f r

-- phl_request_reset_response()
unfoldable pub reset_response : Request → Request
reset_response r = if r.status_code == 0 then r else record r {
  status_code = 0;
  content_generated_length = 0;
  sent_length = 0;
  resp_content_length = none;
  resp_headers = [];
}

-- The resets at the end of phl_request_redirect(). The contexts of modules are not in the model.
unfoldable pub restart : Request → Request
unfolding reset_response
restart r = record (reset_response r) {
  conf_path = none;
  state = receive_headers;
  filter_indexs = record { process_headers = 0; process_body = 0; response_headers = 0 };
  filter_terminal = none;
  is_broken = false;
}

-- phl_request_redirect(); `set_uri` is phl_request_set_uri(), whose result is not looked at.
unfoldable pub redirect : (Text → Request → Request) → Text → Request → Ret × Request
unfolding restart
redirect set_uri path r =
    let r' = record r { redirects = suc r.redirects } in
    if ltb 10 r.redirects
    then (error, r')
    else if first path == b'@'
    then (brk, restart (record r' { named_path = some path }))
    else if first path == b'/'
    then (brk, restart (set_uri path r'))
    else (error, r')

module _ (env : Env) where
  -- What follows a read of `r->conf_path->…`. A null pointer is left for the log of
  -- phl_request_run() to trip over.
  abbrev pub at_path : Option ℕ → Request → (PathConf → Ret × Request) → Ret × Request
  at_path none r k = (error, r)
  at_path (some p) r k = k (env.path p)

  abbrev pub with_path : Request → (PathConf → Ret × Request) → Ret × Request
  with_path r k = at_path r.conf_path r k

  pub receive_headers_step : Callback
  receive_headers_step r = if r.is_http2 then (again, r) else env.http1_request_headers r

  pub receive_body_step : Callback
  receive_body_step r = with_path r λ p.
      if not p.req_body_sync
      then (ok, r)
      else if r.is_http2
      then (if r.body_finished then ok else again, r)
      else env.http1_request_body r

  pub locate_host_step : Callback
  locate_host_step r =
      if not (is_id r.conf_host env.default_host) then (ok, r) else elim (env.host_locate r.host) [
        | none ↦ (error, record r { conf_host = none })
        | some h ↦ (ok, record r { conf_host = some h; conf_path = some (env.default_path h) })
      ]

  -- "check some path-confs"
  pub check_path : ℕ → Callback
  check_path p r =
      let max = (env.path p).req_body_max in
      if not (max == 0) && exceeds r.content_length max then (status 413, r) else (ok, r)

  -- The part behind the label `dynamic_get`.
  pub after_dynamic : SubPath → Callback
  after_dynamic (fails q ret) r = (ret, record r { conf_path = some q })
  after_dynamic (sub q) r = check_path q (record r { conf_path = some q })

  pub dynamic_get : ℕ → Callback
  dynamic_get p r = after_dynamic (env.dynamic p r) r

  -- The result of phl_conf_path_locate(); NULL leaves the default path, for the log.
  pub located : ℕ → Option ℕ → Callback
  located h none r = (status 404, record r { conf_path = some (env.default_path h) })
  located h (some p) r = dynamic_get p (record r { conf_path = some p })

  -- `uri_path`
  pub locate_by_name : ℕ → Option Text → Callback
  locate_by_name h none r = (error, r)
  locate_by_name h (some u) r = located h (env.path_locate h u) r

  abbrev pub request_path : Request → Option Text
  request_path r = elim r.named_path [ none ↦ r.uri_path | some n ↦ some n ]

  pub locate_in_host : Option ℕ → Option ℕ → Callback
  locate_in_host none p r = (error, record r { conf_path = none })
  locate_in_host (some h) none r = (error, r)
  locate_in_host (some h) (some p) r =
      if p == env.default_path h then locate_by_name h (request_path r) r else dynamic_get p r

  pub locate_path_step : Callback
  locate_path_step r = locate_in_host r.conf_host r.conf_path r

  -- What follows a filter chain.
  abbrev pub and_then : Ret × Request → Callback → Ret × Request
  and_then (ok, r) k = k r
  and_then (ret, r) k = (ret, r)

  pub process_headers_step : Callback
  process_headers_step r = with_path r λ p.
      and_then (filter_run Phase.process_headers (p.filters Phase.process_headers) r)
        (maybe p.content_process_headers)

  pub process_body_step : Callback
  process_body_step r =
      if r.is_broken || (is_none r.content_length && not r.chunked) || is_zero r.content_length
      then (ok, r)
      else with_path r λ p.
        and_then (filter_run Phase.process_body (p.filters Phase.process_body) r)
          (maybe p.content_process_body)

  -- phl_request_simple_response_body() with a null buffer: the length of the page for a status.
  pub simple_response_len : ℕ → ℕ
  simple_response_len code = if ltb code 400 then 0 else env.simple_body_len code

  abbrev set_original : Ret × Request → Ret × Request
  set_original (ret, r) = (ret, record r { content_original_length = r.resp_content_length })

  unfoldable pub response_headers_1_step : Callback
  response_headers_1_step r =
      if not r.is_broken
      then with_path r (λ p. set_original (p.content_response_headers r))
      else if r.easy_str_len == 0 && r.easy_fd == 0
      then set_original
          (ok, record r { resp_content_length = some (simple_response_len r.status_code) })
      else set_original (ok, r)

  unfoldable pub response_headers_2_step : Callback
  response_headers_2_step r =
      with_path r λ p. filter_run Phase.response_headers (p.filters Phase.response_headers) r

  unfoldable pub response_headers_3_step : Callback
  response_headers_3_step r = if r.is_subrequest then (ok, r) else env.write_headers r

  -- `phl_request_steps[]`
  unfoldable pub steps : State → Callback
  steps receive_headers = receive_headers_step
  steps locate_conf_host = locate_host_step
  steps locate_conf_path = locate_path_step
  steps receive_body_sync = receive_body_step
  steps process_headers = process_headers_step
  steps process_body = process_body_step
  steps response_headers_1 = response_headers_1_step
  steps response_headers_2 = response_headers_2_step
  steps response_headers_3 = response_headers_3_step
  steps response_body = env.write_body
  steps done = λ r. (ok, r)
