-- ===== src/Upstream/Content.antt =====
-- A content module that asks an upstream server, phl_upstream_content.c: the connection of a request,
-- what is sent and read on it, and another attempt when that fails.
pub mod Contract
pub mod Attempts
pub mod Failing
mod Tests
mod Types
pub use Types.*
use phorklift.Prelude.{
  ℕ, suc, zero, ◌+◌, ◌-◌, Bool, true, false, Option, none, some, List, [], ◌∷◌, drop, leb, ◌==◌,
  if◌then◌else◌,
}
use phorklift.Request.State.{Ret, ok, error, again, status, Request}
use phorklift.Request.Steps.{reset_response}
use phorklift.Upstream.Stream.{
  UpStream, Read, bytes, none_yet, failed, Source, connection_read, connection_write,
  read_notfinish,
}

-- The loop of phl_upstream_content_status_code_retry()
pub in_codes : ℕ → List ℕ → Bool
in_codes code [] = false
in_codes code (p ∷ ps) = let rest = in_codes code ps in if code == p then true else rest

-- phl_upstream_content_status_code_retry()
pub status_code_retry : Option (List ℕ) → ℕ → Bool
status_code_retry none code = false
status_code_retry (some codes) code = in_codes code codes

-- PHL_PTR2RET
pub ret_of : Got → Ret
ret_of no_connection = error
ret_of not_ready = again
ret_of (connected u) = ok

-- phl_upstream_content_set_ops(): a configuration, which may be NULL, with the number of its
-- operations, if it has any. `false` is "different ops for one upstream".
pub set_ops : Option (Option ℕ) → ℕ → Bool × Option (Option ℕ)
set_ops none ops = (true, none)
set_ops (some none) ops = (true, some (some ops))
set_ops (some (some old)) ops = (old == ops, some (some old))

module _ (up : Upstream) where
  open up use {
    Data, World, max_retries, retry_status_codes, build_request, parse_response_headers,
    is_response_body_done, build_response_body, get_connection, retry_connection,
    release_connection, source, sink, is_blocked, moved,
  }

  abbrev pub Here : Type 0
  Here = Exchange Data World

  abbrev pub Result : Type 0
  Result = Outcome Data World

  abbrev pub with_ctx : Ctx Data → Here → Here
  with_ctx c x = record x { ctx = some c }

  -- "return r->resp.status_code != 0 ? PHL_OK : WUY_HTTP_502"
  pub no_retry : Here → Result
  no_retry x = returns (if x.request.status_code == 0 then status 502 else ok) x

  -- phl_upstream_content_fail() behind the retry; `next` is the call of
  -- phl_upstream_content_generate_response_headers() that ends it.
  pub retried : (Here → Result) → Ctx Data → Got × World → Here → Result
  retried next c (no_connection, w) x =
      returns (status 500)
        (with_ctx (record c { upc = got no_connection }) (record x { world = w }))
  retried next c (g, w) x =
      next (with_ctx (record c { upc = got g; has_sent_request = false }) (record x { world = w }))

  pub count_retry : (Here → Result) → Upc → Option ℕ → Ctx Data → Here → Result
  count_retry next u none c x = no_retry (with_ctx c x)
  count_retry next u (some k) c x =
      let c' = record c { retries = some (suc k) } in
      if leb max_retries k
      then no_retry (with_ctx c' x)
      else retried next c' (retry_connection u x.world)
          (record x { request = reset_response x.request })

  -- phl_upstream_content_fail(), for a connection that is one.
  pub content_fail : (Here → Result) → Upc → Ctx Data → Here → Result
  content_fail next u c x =
      let failing = record u { error = true } in
      count_retry next failing c.retries (record c { upc = got (connected failing) }) x

  -- phl_upstream_connection_read_notfinish() and what follows.
  pub headers_read : (Here → Result) → Bool → Upc → Option UpStream → Ctx Data → Here → Result
  headers_read next is_done u none c x = crashes
  headers_read next is_done u (some s) c x =
      let u' = record u { stream = s } in
      let c' = record c { upc = got (connected u') } in
      if is_done
      then if status_code_retry retry_status_codes x.request.status_code
        then content_fail next u' c' x
        else returns ok (with_ctx c' x)
      else returns again (with_ctx c' x)

  pub headers_parsed : (Here → Result) → Upc → List ℕ → Bool → Option ℕ → Ctx Data → Here → Result
  headers_parsed next u buffer is_done none c x = content_fail next u c x
  headers_parsed next u buffer is_done (some n) c x =
      headers_read next is_done u (read_notfinish (drop n buffer) u.stream) c x

  pub received :
      (Here → Result)
      → (Request → Data → List ℕ → Parsed Data)
      → Upc
      → Read
      → Ctx Data
      → Here
      → Result
  received next parse u none_yet c x = returns again (with_ctx c x)
  received next parse u failed c x = content_fail next u c x
  received next parse u (bytes buffer) c x =
      let p = parse x.request c.module_data buffer in
      headers_parsed next u buffer p.is_done p.proc_len (record c { module_data = p.data_after })
        (record x { request = p.request_after })

  pub read_headers :
      (Here → Result)
      → Option (Request → Data → List ℕ → Parsed Data)
      → Pointer
      → Ctx Data
      → Here
      → Result
  read_headers next none p c x =
      returns ok (with_ctx c (record x { request = record x.request { status_code = 200 } }))
  read_headers next (some parse) (got (connected u)) c x =
      let o = connection_read (source u.id x.world) 4096 u.stream in
      let u' = record u { stream = o.1 } in
      received next parse u' o.0 (record c { upc = got (connected u') })
        (record x { world = moved u.id x.world })
  read_headers next (some parse) _ c x = crashes

  pub sent : (Here → Result) → Ret → Upc → Ctx Data → Here → Result
  sent next again u c x = returns again (with_ctx c x)
  sent next error u c x = content_fail next u c x
  sent next _ u c x =
      read_headers next parse_response_headers c.upc (record c { has_sent_request = true }) x

  pub send_request : (Here → Result) → Pointer → Ctx Data → Here → Result
  send_request next (got (connected u)) c x =
      let o = connection_write (sink u.id x.world) (is_blocked u.id x.world) c.req_buf u.stream in
      let u' = record u { stream = o.1 } in
      sent next o.0 u' (record c { upc = got (connected u') })
        (record x { world = moved u.id x.world })
  send_request next _ c x = crashes

  pub on_connection : (Here → Result) → Ctx Data → Here → Result
  on_connection next c x =
      if c.has_sent_request
      then read_headers next parse_response_headers c.upc c x
      else send_request next c.upc c x

  pub connection_got : (Here → Result) → Got × World → Ctx Data → Here → Result
  connection_got next (connected u, w) c x =
      on_connection next (record c { upc = got (connected u) }) (record x { world = w })
  connection_got next (g, w) c x = returns (ret_of g) (with_ctx c (record x { world = w }))

  pub with_connection : (Here → Result) → Pointer → Ctx Data → Here → Result
  with_connection next null c x = connection_got next (get_connection x.request x.world) c x
  with_connection next (got g) c x = on_connection next c x

  pub request_built : (Here → Result) → Ret → Ctx Data → Here → Result
  request_built next ok c x = with_connection next c.upc c x
  request_built next ret c x = returns ret (with_ctx c x)

  pub with_context : (Here → Result) → Option (Ctx Data) → Here → Result
  with_context next none x =
      let b = build_request x.request in
      request_built next b.ret
        (record {
          has_sent_request = false;
          retries = b.retries;
          req_buf = b.req_buf;
          upc = null;
          module_data = b.data_after;
        })
        x
  with_context next (some c) x = with_connection next c.upc c x

  -- phl_upstream_content_generate_response_headers(), which calls itself by way of
  -- phl_upstream_content_fail(), on fuel.
  pub generate_response_headers : ℕ → Here → Result
  generate_response_headers zero x = unfinished
  generate_response_headers (suc fuel) x = with_context (generate_response_headers fuel) x.ctx x

  -- A call that waits is followed by another, when something has moved.
  pub go_on : (Here → Result) → (World → World) → Result → Result
  go_on next move (returns again x) = next (record x { world = move x.world })
  go_on next move o = o

  -- The calls of one request.
  pub resumed : List (World → World) → Here → Result
  resumed [] x = generate_response_headers (suc max_retries) x
  resumed (move ∷ moves) x =
      go_on (resumed moves) move (generate_response_headers (suc max_retries) x)

  pub body_built :
      Option (Request → Data → List ℕ → Read × Data) → List ℕ → Ctx Data → Here → Read × Here
  body_built none buffer c x = (bytes buffer, with_ctx c x)
  body_built (some build) buffer c x =
      let o = build x.request c.module_data buffer in
      (o.0, with_ctx (record c { module_data = o.1 }) x)

  pub body_received : Read → Ctx Data → Here → Read × Here
  body_received (bytes buffer) c x = body_built build_response_body buffer c x
  body_received ret c x = (ret, with_ctx c x)

  pub read_body : ℕ → Pointer → Ctx Data → Here → Option (Read × Here)
  read_body buf_len (got (connected u)) c x =
      let o = connection_read (source u.id x.world) buf_len u.stream in
      some (
        body_received o.0 (record c { upc = got (connected (record u { stream = o.1 })) })
          (record x { world = moved u.id x.world }))
  read_body buf_len _ c x = none

  pub body_done : Option (Request → Data → Bool) → Ctx Data → Here → Bool
  body_done none c x = false
  body_done (some is_done) c x = is_done x.request c.module_data

  -- phl_upstream_content_generate_response_body(), with the context that is there. A length of 0 is
  -- `bytes []`; `none` is a read through a pointer that is none.
  pub generate_response_body : ℕ → Ctx Data → Here → Option (Read × Here)
  generate_response_body buf_len c x =
      if body_done is_response_body_done c x
      then some (bytes [], x)
      else read_body buf_len c.upc c x

  -- phl_upstream_content_ctx_free() of a context that is not NULL; `none` is a read through a pointer
  -- that is none.
  pub free_pointer : Bool → Pointer → World → Option World
  free_pointer is_clean null w = some w
  free_pointer is_clean (got (connected u)) w = some (release_connection u is_clean w)
  free_pointer is_clean (got _) w = none
