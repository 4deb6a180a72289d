-- ===== src/Upstream/Proxy/Once.antt =====
-- modules/phl_proxy.c with phl_upstream_content.c: how often a request is sent.
use phorklift.Prelude.{Option, some, List, [], ◌∷◌}
use phorklift.Request.State.{Request}
use phorklift.Upstream.Content.{Upstream, Here, Result, with_context, go_on}
use phorklift.Upstream.Proxy.{
  Parsers, Passed, build_request, parse_response_headers, is_response_body_done,
  build_response_body,
}

-- The operations of the proxy in a content module; the rest of the upstream configuration stays.
abbrev pub proxied : {D : Type 0} → Parsers D → Passed → Upstream → Upstream
proxied {D} lib q up = record {
  Data = Option D;
  World = up.World;
  max_retries = up.max_retries;
  retry_status_codes = up.retry_status_codes;
  build_request = build_request lib q;
  parse_response_headers = some (parse_response_headers lib q);
  is_response_body_done = some (λ r d. is_response_body_done lib q d);
  build_response_body = some (λ r d b. build_response_body lib q d b);
  get_connection = up.get_connection;
  retry_connection = up.retry_connection;
  release_connection = up.release_connection;
  source = up.source;
  sink = up.sink;
  is_blocked = up.is_blocked;
  moved = up.moved;
}

-- The calls of one request, like those of `resumed`, when `next` stands for all later attempts.
unfoldable pub calls :
    (up : Upstream) → (Here up → Result up) → List (up.World → up.World) → Here up → Result up
calls up next [] x = with_context up next x.ctx x
calls up next (move ∷ moves) x = go_on up (calls up next moves) move (with_context up next x.ctx x)
