-- ===== src/Upstream/Proxy/Tests.antt =====
-- The proxy (modules/phl_proxy.c) at concrete inputs.
use phorklift.Prelude.{
  ℕ, ◌≡◌, refl, true, false, Option, none, some, List, [], ◌∷◌, length, take, starts_with, ◌==◌,
  if◌then◌else◌, str_eq,
}
use phorklift.Request.State.{ok, Request, response_headers_2}
use phorklift.Upstream.Content.{Upc, no_connection, connected, Upstream, Exchange, Outcome}
use phorklift.Http1.{waits}
use phorklift.Upstream.Proxy.{
  StatusLine, line, incomplete, HeaderLine, took, more, Parsers, Passed, build_request,
  build_request_headers, uri_of, header_texts, header_text, optional, printed,
  parse_response_headers, after_status, parse_lines, parse_line, handle, stopped, same_name,
}

-- A status line of two bytes, the second of which is the code; a header line of three bytes; and an
-- empty line of two.
abbrev status_of : List ℕ → StatusLine
status_of (c ∷ code ∷ rest) = line 2 code
status_of _ = incomplete

abbrev line_of : List ℕ → HeaderLine
line_of (name ∷ value ∷ rest) = if name == 13 then took 2 [] [] else took 3 (name ∷ []) (value ∷ [])
line_of _ = more

abbrev lib : Parsers ℕ
lib = record {
  status_line = status_of;
  header_line = line_of;
  atoi = length;
  print_number = λ n. n ∷ [];
  enabled = 0;
  decode = λ d b. waits d;
  is_finished = λ d. false;
}

abbrev posted : Passed
posted = record {
  is_get_or_head = false;
  method_name = b'P' ∷ [];
  is_rewrited = false;
  raw = b'/' ∷ [];
  path = b'/' ∷ [];
  query = none;
  headers = (b'A' ∷ [], b'1' ∷ []) ∷ [];
  client_addr = b':' ∷ b':' ∷ [];
  x_forwarded_for = false;
}

abbrev upload : Request
upload = record {
  state = response_headers_2;
  closed = false;
  is_broken = false;
  redirects = 0;
  filter_indexs = record { process_headers = 0; process_body = 0; response_headers = 0 };
  filter_terminal = none;
  named_path = none;
  conf_host = some 0;
  conf_path = some 0;
  is_http2 = false;
  is_subrequest = false;
  host = none;
  uri_path = none;
  content_length = none;
  chunked = false;
  body = 7 ∷ [];
  body_finished = true;
  status_code = 0;
  resp_content_length = none;
  resp_headers = [];
  easy_str_len = 0;
  easy_fd = 0;
  content_original_length = none;
  content_generated_length = 0;
  sent_length = 0;
}

-- "P / HTTP/1.1", "A: 1", an empty line, and the body.
sends :
    (build_request lib posted upload).req_buf
    ≡ b'P' ∷ 32 ∷ b'/' ∷ 32 ∷ b'H' ∷ b'T' ∷ b'T' ∷ b'P' ∷ b'/' ∷ b'1' ∷ b'.' ∷ b'1' ∷ 13 ∷ 10 ∷ b'A'
      ∷ b':' ∷ 32 ∷ b'1' ∷ 13 ∷ 10 ∷ 13 ∷ 10 ∷ 7 ∷ []
unfolding build_request build_request_headers uri_of header_texts header_text optional printed
    same_name str_eq
sends = refl

abbrev reply : List ℕ
reply = b'H' ∷ 201 ∷ b'B' ∷ b'2' ∷ 10 ∷ 13 ∷ 10 ∷ b'x' ∷ []

-- The body that follows the headers is not taken.
takes : (parse_response_headers lib posted upload none reply).proc_len ≡ some 7
unfolding parse_response_headers after_status parse_lines parse_line handle stopped starts_with
takes = refl

abbrev server : ℕ → Upc
server n = record {
  id = n;
  error = false;
  stream = record { preread = none; prewrite_len = 0; sent = [] };
}

abbrev net : Upstream
net = record {
  Data = ℕ;
  World = ℕ;
  max_retries = 3;
  retry_status_codes = none;
  build_request = λ r. record { ret = ok; retries = some 0; req_buf = []; data_after = 0 };
  parse_response_headers = none;
  is_response_body_done = none;
  build_response_body = none;
  get_connection = λ r w. (connected (server w), w);
  retry_connection = λ u w. (no_connection, w);
  release_connection = λ u is_clean w. w;
  source = λ i w n. some (take n reply);
  sink = λ i w payload. none;
  is_blocked = λ i w. false;
  moved = λ i w. w;
}

abbrev arrived : Exchange (Option ℕ) ℕ
arrived = record { request = upload; ctx = none; world = 4 }

abbrev later_attempts : Exchange (Option ℕ) ℕ → Outcome (Option ℕ) ℕ
later_attempts x = Outcome.unfinished
