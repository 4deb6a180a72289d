-- ===== src/Http1/Tests.antt =====
-- HTTP/1 (phl_http1.c) at concrete inputs.
use phorklift.Prelude.{
  ℕ, suc, ◌<◌, ◌≤◌, ◌≡◌, refl, Bool, true, false, none, some, List, [], ◌∷◌, length, arith, ap, leb,
}
use phorklift.Request.State.{again, receive_body_sync, Request}
use phorklift.Request.Body.Feeding.{IsSized}
use phorklift.Http1.{Decoded, waits, piece, request_body, packfix, pack}
use phorklift.Http1.Chunks.{Packed, pack-Packed}
use phorklift.Http1.Bodies.{request_body-receives}

-- A request that expects three bytes.
abbrev upload : Request
upload = record {
  state = receive_body_sync;
  closed = false;
  is_broken = false;
  redirects = 0;
  filter_indexs = record { process_headers = 0; process_body = 0; response_headers = 0 };
  filter_terminal = none;
  named_path = none;
  conf_host = some 0;
  conf_path = some 5;
  is_http2 = false;
  is_subrequest = false;
  host = none;
  uri_path = none;
  content_length = some 3;
  chunked = false;
  body = [];
  body_finished = false;
  status_code = 0;
  resp_content_length = none;
  resp_headers = [];
  easy_str_len = 0;
  easy_fd = 0;
  content_original_length = none;
  content_generated_length = 0;
  sent_length = 0;
}

upload-IsSized : IsSized 3 upload
upload-IsSized = record {
  positive = omega arith;
  declared = refl;
  fits = omega arith;
  flagged = refl;
}

-- A decoder that takes each byte for a chunk.
abbrev each : ℕ → List ℕ → Decoded ℕ
each d [] = waits d
each d (c ∷ buf) = piece (suc d) (c ∷ []) buf

abbrev rest_of : Decoded ℕ → List ℕ
rest_of (piece d b rest) = rest
rest_of _ = []

abbrev is_piece : Decoded ℕ → Bool
is_piece (piece d b rest) = true
is_piece _ = false

each_consumes :
    (d d' : ℕ) (buf b rest : List ℕ) → each d buf ≡ piece d' b rest → length rest < length buf
each_consumes d d' [] b rest e = let no : ⊥ = ground (arith, ap is_piece e) in elim no [ ]
each_consumes d d' (c ∷ buf) b rest e = omega (arith, ap (λ x. length (rest_of x)) e)

abbrev two_seen : ℕ → Bool
two_seen d = leb 2 d

request_body-receives_example :
    ((request_body each two_seen 0 0 (1 ∷ 2 ∷ []) upload).0 ≡ again)
    × ((request_body each two_seen 0 0 (1 ∷ 2 ∷ []) upload).1.1.body ≡ 1 ∷ 2 ∷ [])
request_body-receives_example =
    request_body-receives each two_seen 0 3 0 (1 ∷ 2 ∷ []) upload upload-IsSized (omega arith)

-- Each length is written as zeros.
abbrev zeros : ℕ → List ℕ
zeros n = 48 ∷ 48 ∷ 48 ∷ 48 ∷ 48 ∷ 48 ∷ 48 ∷ 48 ∷ []

abbrev payload : List ℕ
payload = 1 ∷ 2 ∷ 3 ∷ []

three_fit : length payload ≤ (packfix true 20).1
unfolding packfix
three_fit = omega arith

pack-Packed_example : Packed 20 (packfix true 20).0 payload (pack zeros true payload true)
pack-Packed_example = pack-Packed zeros (λ n. refl) true true payload 20 (omega arith) three_fit
