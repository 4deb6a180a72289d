-- ===== src/Upstream/Content/Tests.antt =====
-- A request to an upstream server (phl_upstream_content.c) at concrete inputs.
use phorklift.Prelude.{
  ℕ, suc, zero, ◌≡◌, refl, true, false, Option, none, some, List, [], ◌∷◌, take, length,
  length-take, ap, arith,
}
use phorklift.Request.State.{Ret, ok, response_headers_2}
use phorklift.Upstream.Stream.{
  connection_write, written, connection_read, read_from, read_more, answer, read_notfinish,
}
use phorklift.Request.Steps.{reset_response}
use phorklift.Upstream.Stream.Room.{IsBounded}
use phorklift.Upstream.Content.{
  Upc, Got, no_connection, connected, got, Upstream, Ctx, Exchange, returns, Outcome, resumed,
  content_fail, generate_response_headers, in_codes, with_context, request_built, with_connection,
  connection_got, on_connection, send_request, sent, read_headers, received, headers_parsed,
  headers_read, count_retry, retried, no_retry, status_code_retry, ret_of,
}
use phorklift.Upstream.Content.Contract.{IsReliable, Sound, Usable}
use phorklift.Upstream.Content.Attempts.{resumed-Sound}
use phorklift.Upstream.Content.Failing.{Ruined, content_fail-Ruined}

abbrev fresh : ℕ → Upc
fresh n = record {
  id = n;
  error = false;
  stream = record { preread = none; prewrite_len = 0; sent = [] };
}

-- The world counts the connections that were got; there is a second one, but no third. A server
-- answers with its status code.
abbrev answers : ℕ → List ℕ
answers zero = 503 ∷ []
answers (suc n) = 204 ∷ []

abbrev code_of : List ℕ → ℕ
code_of [] = 0
code_of (c ∷ cs) = c

abbrev next_of : ℕ → Got × ℕ
next_of zero = (connected (fresh 1), 1)
next_of (suc n) = (no_connection, suc n)

abbrev servers : Upstream
servers = record {
  Data = ℕ;
  World = ℕ;
  max_retries = 2;
  retry_status_codes = some (503 ∷ []);
  build_request = λ r. record { ret = ok; retries = some 0; req_buf = b'G' ∷ []; data_after = 0 };
  parse_response_headers = some (λ r d buffer. record {
    proc_len = some (length buffer);
    is_done = true;
    data_after = d;
    request_after = record r { status_code = code_of buffer };
  });
  is_response_body_done = none;
  build_response_body = none;
  get_connection = λ r w. (connected (fresh 0), w);
  retry_connection = λ u w. next_of w;
  release_connection = λ u is_clean w. w;
  source = λ i w n. some (take n (answers i));
  sink = λ i w payload. some (length payload);
  is_blocked = λ i w. false;
  moved = λ i w. w;
}

source-IsBounded : (i : ℕ) → IsBounded (λ n. some (take n (answers i)))
source-IsBounded i n l e =
    let taken : take n (answers i) ≡ l = cc in
    omega (arith, length-take n (answers i), ap length taken)

servers-IsReliable : IsReliable servers
servers-IsReliable = record {
  gets = λ r w. omega arith;
  gets_again = λ u w. again_usable w;
  reads = λ i w. source-IsBounded i;
}
  where
    again_usable : (w : ℕ) → Usable (next_of w).0
    again_usable zero = omega arith
    again_usable (suc n) = tt

abbrev asked : Exchange ℕ ℕ
asked = record {
  request = record {
    state = response_headers_2;
    closed = false;
    is_broken = false;
    redirects = 0;
    filter_indexs = record { process_headers = 0; process_body = 0; response_headers = 0 };
    filter_terminal = none;
    named_path = none;
    conf_host = some 0;
    conf_path = some 0;
    is_http2 = false;
    is_subrequest = false;
    host = none;
    uri_path = none;
    content_length = none;
    chunked = false;
    body = [];
    body_finished = true;
    status_code = 0;
    resp_content_length = none;
    resp_headers = [];
    easy_str_len = 0;
    easy_fd = 0;
    content_original_length = none;
    content_generated_length = 0;
    sent_length = 0;
  };
  ctx = none;
  world = 0;
}

abbrev code_after : Outcome ℕ ℕ → Option (Ret × ℕ)
code_after (returns ret x) = some (ret, x.request.status_code)
code_after _ = none

-- The first server answers 503, for which the configuration asks for another attempt; the second one
-- answers 204.
second_attempt : code_after (resumed servers [] asked) ≡ some (ok, 204)
unfolding resumed generate_response_headers with_context request_built with_connection
    connection_got on_connection send_request sent read_headers received headers_parsed headers_read
    content_fail count_retry retried no_retry status_code_retry in_codes ret_of connection_write
    written connection_read read_from read_more answer read_notfinish reset_response
second_attempt = refl

resumed-Sound_example : Sound servers servers.max_retries (resumed servers ((λ w. w) ∷ []) asked)
resumed-Sound_example = resumed-Sound servers servers-IsReliable ((λ w. w) ∷ []) asked tt

abbrev second_ctx : Ctx ℕ
second_ctx = record {
  has_sent_request = true;
  retries = some 1;
  req_buf = b'G' ∷ [];
  upc = got (connected (fresh 1));
  module_data = 0;
}

abbrev on_second : Exchange ℕ ℕ
on_second = record asked { ctx = some second_ctx; world = 1 }

content_fail-Ruined_example :
    Ruined servers
      (content_fail servers (generate_response_headers servers 3) (fresh 1) second_ctx on_second)
content_fail-Ruined_example =
    content_fail-Ruined servers 2 (fresh 1) 1 second_ctx on_second refl (omega arith) refl
