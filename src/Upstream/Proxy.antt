-- ===== src/Upstream/Proxy.antt =====
-- The content module that passes a request on, modules/phl_proxy.c: what it sends to the upstream
-- server, and what it reads of the response.
pub mod Once
mod Tests
use phorklift.Prelude.{
  ℕ, suc, zero, ◌+◌, Bool, true, false, not, ◌&&◌, ◌||◌, Option, none, some, List, [], ◌∷◌, ◌++◌,
  length, drop, Text, str_eq, starts_with, ◌==◌, if◌then◌else◌, map, to_lower,
}
use phorklift.Request.State.{Ret, ok, Request}
use phorklift.Upstream.Stream.{Read, bytes, none_yet, failed}
use phorklift.Upstream.Content.{Parsed, Built}
use phorklift.Http1.{Decoded, bad, waits, piece}

-- The words of HTTP that the module writes or looks for.
abbrev pub version_end : Text
version_end = 32 ∷ b'H' ∷ b'T' ∷ b'T' ∷ b'P' ∷ b'/' ∷ b'1' ∷ b'.' ∷ b'1' ∷ 13 ∷ 10 ∷ []

abbrev pub host_name : Text
host_name = b'H' ∷ b'o' ∷ b's' ∷ b't' ∷ []

abbrev pub length_name : Text
length_name =
    b'C' ∷ b'o' ∷ b'n' ∷ b't' ∷ b'e' ∷ b'n' ∷ b't' ∷ b'-' ∷ b'L' ∷ b'e' ∷ b'n' ∷ b'g' ∷ b't' ∷ b'h'
    ∷ []

abbrev pub connection_name : Text
connection_name = b'C' ∷ b'o' ∷ b'n' ∷ b'n' ∷ b'e' ∷ b'c' ∷ b't' ∷ b'i' ∷ b'o' ∷ b'n' ∷ []

abbrev pub encoding_name : Text
encoding_name =
    b'T' ∷ b'r' ∷ b'a' ∷ b'n' ∷ b's' ∷ b'f' ∷ b'e' ∷ b'r' ∷ b'-' ∷ b'E' ∷ b'n' ∷ b'c' ∷ b'o' ∷ b'd'
    ∷ b'i' ∷ b'n' ∷ b'g' ∷ []

abbrev pub forwarded_name : Text
forwarded_name =
    b'X' ∷ b'-' ∷ b'F' ∷ b'o' ∷ b'r' ∷ b'w' ∷ b'a' ∷ b'r' ∷ b'd' ∷ b'e' ∷ b'd' ∷ b'-' ∷ b'F' ∷ b'o'
    ∷ b'r' ∷ []

abbrev pub line_end : Text
line_end = 13 ∷ 10 ∷ []

-- `wuy_http_status_line` of libwuya: 0, a negative number, or the bytes of the line and its code.
pub data StatusLine : Type 0 where
  incomplete bad_line : StatusLine
  line : ℕ → ℕ → StatusLine

-- `wuy_http_header` of libwuya: 0, a negative number, or the bytes of the line, the name, the value.
pub data HeaderLine : Type 0 where
  more bad_header : HeaderLine
  took : ℕ → Text → Text → HeaderLine

-- The functions of libwuya and of the C library; `D` is the state of the decoder of chunks, and
-- `enabled` that of a new one.
pub record Parsers (D : Type 0) : Type 0 where
  pub status_line : List ℕ → StatusLine
  pub header_line : List ℕ → HeaderLine
  pub atoi : Text → ℕ
  pub print_number : ℕ → Text
  pub enabled : D
  pub decode : D → List ℕ → Decoded D
  pub is_finished : D → Bool

-- What the module reads of the request that is not in the record of the request.
pub record Passed : Type 0 where
  pub is_get_or_head : Bool
  pub method_name : Text
  pub is_rewrited : Bool
  pub raw : Text
  pub path : Text
  pub query : Option Text
  pub headers : List (Text × Text)
  pub client_addr : Text
  pub x_forwarded_for : Bool

-- The URI of the request line.
pub uri_of : Passed → Text
uri_of q = if not q.is_rewrited then q.raw else q.path ++ elim (q.query) [ none ↦ [] | some t ↦ t ]

pub header_text : Text → Text → Text
header_text name value = name ++ (b':' ∷ 32 ∷ value) ++ line_end

-- `strcasecmp(a, b) == 0`
pub same_name : Text → Text → Bool
same_name a b = str_eq (map to_lower a) (map to_lower b)

-- The loop over the headers of the request: the text, and whether "X-Forwarded-For" was there.
pub header_texts : Passed → List (Text × Text) → Text × Bool
header_texts q [] = ([], false)
header_texts q ((name, value) ∷ hs) =
    let (rest, seen) = header_texts q hs in
    if q.x_forwarded_for && same_name name forwarded_name
    then (header_text name (value ++ (b',' ∷ 32 ∷ q.client_addr)) ++ rest, true)
    else (header_text name value ++ rest, seen)

pub optional : Text → Option Text → Text
optional name none = []
optional name (some value) = header_text name value

module _ {D : Type 0} (lib : Parsers D) (q : Passed) where
  open lib use {status_line, header_line, atoi, print_number, enabled, decode, is_finished}

  pub printed : Option ℕ → Option Text
  printed none = none
  printed (some n) = some (print_number n)

  -- phl_proxy_build_request_headers()
  pub build_request_headers : Request → Text
  build_request_headers r =
      let (texts, seen) = header_texts q q.headers in
      q.method_name
      ++ (32 ∷ uri_of q)
      ++ version_end
      ++ optional host_name r.host
      ++ optional length_name (printed r.content_length)
      ++ texts
      ++ (if q.x_forwarded_for && not seen then header_text forwarded_name q.client_addr else [])
      ++ line_end

  -- phl_proxy_build_request(): only a GET or a HEAD may be tried again.
  pub build_request : Request → Built (Option D)
  build_request r = record {
    ret = ok;
    retries = if q.is_get_or_head then some 0 else none;
    req_buf = build_request_headers r ++ r.body;
    data_after = none;
  }

  pub stopped : Option ℕ → Bool → Option D → Request → Parsed (Option D)
  stopped n is_done d r = record {
    proc_len = n;
    is_done = is_done;
    data_after = d;
    request_after = r;
  }

  -- "handle some": the lengths of names are those of the constants, on what follows.
  pub handle : List ℕ → Text → Text → Option D → Request → Option D × Request
  handle rest name value d r =
      if starts_with length_name rest
      then (d, record r { resp_content_length = some (atoi value) })
      else if starts_with connection_name rest
      then (d, r)
      else if starts_with encoding_name rest
      then (some enabled, r)
      else (d, record r { resp_headers = r.resp_headers ++ (name, value) ∷ [] })

  -- One round of the loop over the header lines; `n` bytes have been taken.
  pub parse_line :
      (ℕ → List ℕ → Option D → Request → Parsed (Option D))
      → ℕ
      → List ℕ
      → HeaderLine
      → Option D
      → Request
      → Parsed (Option D)
  parse_line next n rest bad_header d r = stopped none false d r
  parse_line next n rest more d r = stopped (some n) false d r
  parse_line next n rest (took k name value) d r =
      let o = handle rest name value d r in
      if k == 0
      then stopped (some n) false d r
      else if k == 2
      then stopped (some (n + 2)) true d r
      else next (n + k) (drop k rest) o.0 o.1

  -- The loop, with fuel for its rounds.
  pub parse_lines : ℕ → ℕ → List ℕ → Option D → Request → Parsed (Option D)
  parse_lines zero n rest d r = stopped (some n) false d r
  parse_lines (suc fuel) n rest d r = parse_line (parse_lines fuel) n rest (header_line rest) d r

  pub after_status : StatusLine → List ℕ → Option D → Request → Parsed (Option D)
  after_status incomplete buffer d r = stopped none false d r
  after_status bad_line buffer d r = stopped none false d r
  after_status (line n code) buffer d r =
      parse_lines (suc (length buffer)) n (drop n buffer) d (record r { status_code = code })

  -- phl_proxy_parse_response_headers()
  pub parse_response_headers : Request → Option D → List ℕ → Parsed (Option D)
  parse_response_headers r d buffer =
      if r.status_code == 0
      then after_status (status_line buffer) buffer d r
      else parse_lines (suc (length buffer)) 0 buffer d r

  -- phl_proxy_is_response_body_done()
  pub is_response_body_done : Option D → Bool
  is_response_body_done none = false
  is_response_body_done (some d) = is_finished d

  -- The loop over the chunks, with fuel for its rounds: the data, and `none` for an error.
  pub decode_chunks : ℕ → D → List ℕ → Option (List ℕ × D)
  decode_chunks fuel d [] = some ([], d)
  decode_chunks zero d (c ∷ buf) = some ([], d)
  decode_chunks (suc fuel) d (c ∷ buf) = decoded (decode_chunks fuel) (decode d (c ∷ buf))
    where
      joined : List ℕ → Option (List ℕ × D) → Option (List ℕ × D)
      joined b none = none
      joined b (some (b', d')) = some (b ++ b', d')

      decoded : (D → List ℕ → Option (List ℕ × D)) → Decoded D → Option (List ℕ × D)
      decoded next bad = none
      decoded next (waits d') = some ([], d')
      decoded next (piece d' b rest) = joined b (next d' rest)

  -- "buf_pos == buffer && !wuy_http_chunked_is_finished(chunked)"
  pub chunks_read : Option D → Option (List ℕ × D) → Read × Option D
  chunks_read d none = (failed, d)
  chunks_read d (some (b, d')) =
      (if (length b == 0) && not (is_finished d') then none_yet else bytes b, some d')

  -- phl_proxy_build_response_body()
  pub build_response_body : Option D → List ℕ → Read × Option D
  build_response_body none buffer = (bytes buffer, none)
  build_response_body (some d) buffer =
      chunks_read (some d) (decode_chunks (length buffer) d buffer)
