-- ===== src/Http1.antt =====
-- HTTP/1, phl_http1.c: the body of a request, the chunks of a response, and the connection's state.
pub mod Chunks
pub mod Bodies
mod Tests
use phorklift.Prelude.{
  ℕ, suc, zero, ◌+◌, ◌-◌, Bool, true, false, not, ◌&&◌, ◌||◌, Option, none, some, List, [], ◌∷◌,
  ◌++◌, length, leb, ◌==◌, if◌then◌else◌,
}
use phorklift.Request.Steps.{is_none}
use phorklift.Connection.{Connection, set_state, reading, writing, idle}
use phorklift.Request.Body.{append_body}
use phorklift.Request.State.{
  Ret, ok, again, status, Request, State, rank, response_headers_1, is_done,
}

-- What `wuy_http_chunked_decode` of libwuya makes of bytes: an error; no data yet; or a piece of
-- data, and the bytes behind it. `D` is the state of the decoder.
pub data Decoded (D : Type 0) : Type 0 where
  bad : Decoded D
  waits : D → Decoded D
  piece : D → List ℕ → List ℕ → Decoded D

module _ {D : Type 0} (decode : D → List ℕ → Decoded D) (is_finished : D → Bool)
    (body_max : ℕ) where
  -- What follows the loop over the chunks.
  pub after_chunks : D → Request → Ret × (D × Request)
  after_chunks d r =
      if is_finished d then (ok, (d, record r { body_finished = true })) else (again, (d, r))

  -- The rest of one round, behind the decoder and behind phl_request_append_body().
  pub appended : (Request → Ret × (D × Request)) → D → Ret × Request → Ret × (D × Request)
  appended more d (ok, r) = more r
  appended more d (ret, r) = (ret, (d, r))

  pub decoded :
      (D → List ℕ → Request → Ret × (D × Request)) → D → Request → Decoded D → Ret × (D × Request)
  decoded more d r bad = (status 400, (d, r))
  decoded more d r (waits d') = after_chunks d' r
  decoded more d r (piece d' data_bytes rest) =
      appended (more d' rest) d' (append_body body_max r data_bytes)

  -- "while (buf_pos < buf_end)", with fuel for the rounds.
  pub chunks : ℕ → D → List ℕ → Request → Ret × (D × Request)
  chunks fuel d [] r = after_chunks d r
  chunks zero d (c ∷ buf) r = (again, (d, r))
  chunks (suc fuel) d (c ∷ buf) r = decoded (chunks fuel) d r (decode d (c ∷ buf))

  -- "return r->req.body_finished ? PHL_OK : PHL_AGAIN"
  pub plain : D → Ret × Request → Ret × (D × Request)
  plain d (ok, r) = (if r.body_finished then ok else again, (d, r))
  plain d (ret, r) = (ret, (d, r))

  -- phl_http1_request_body(), for the bytes that wait in the receive buffer; all of them are taken.
  pub request_body : D → List ℕ → Request → Ret × (D × Request)
  request_body d buf r =
      if is_none r.content_length && not r.chunked
      then (ok, (d, r))
      else if is_none r.content_length
      then chunks (length buf) d buf r
      else plain d (append_body body_max r buf)

-- phl_http1_response_is_chunked(); `version` is that of the request.
pub is_chunked : ℕ → Request → Bool
is_chunked version r = not (version == 0) && is_none r.resp_content_length

-- phl_http1_response_body_packfix(): the room for the payload in a buffer of that size, and where
-- it begins.
pub packfix : Bool → ℕ → ℕ × ℕ
packfix chunked buf_len = if chunked then (10, buf_len - (10 + 7)) else (0, buf_len)

-- phl_http1_response_body_pack(): the bytes from the start of the buffer on. `hex` is the number as
-- `sprintf` prints it with "%-8x".
pub pack : (ℕ → List ℕ) → Bool → List ℕ → Bool → List ℕ
pack hex chunked payload is_last =
    if not chunked
    then payload
    else if not (length payload == 0) && is_last
    then (hex (length payload) ++ 13 ∷ 10 ∷ [])
      ++ (payload ++ 13 ∷ 10 ∷ 48 ∷ 13 ∷ 10 ∷ 13 ∷ 10 ∷ [])
    else (hex (length payload) ++ 13 ∷ 10 ∷ []) ++ (payload ++ 13 ∷ 10 ∷ [])

-- phl_http1_set_state(), where the connection may have a request, in that state.
pub state_for : Option State → phorklift.Connection.State
state_for none = idle
state_for (some s) = if leb (rank response_headers_1) (rank s) then writing else reading

pub update_state : Option State → Connection → Connection
update_state s c = set_state (state_for s) c

-- phl_http1_request_close(): the connection lives on after a request that is done, except under
-- HTTP/1.0. `close` is phl_connection_close().
pub request_close : (Connection → Connection) → State → ℕ → Connection → Connection
request_close close s version c =
    if not (is_done s) || (version == 0) then close c else set_state idle c
