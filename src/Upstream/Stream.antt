-- ===== src/Upstream/Stream.antt =====
-- Reads and writes of an upstream connection, phl_upstream.c: bytes that are read once more, and
-- writes that are cut short.
pub mod Reading
pub mod Writing
pub mod Room
mod Tests
use phorklift.Prelude.{
  ℕ, suc, zero, ◌+◌, ◌-◌, ◌≡◌, Bool, true, false, Option, none, some, List, [], ◌∷◌, ◌++◌, length,
  take, drop, ltb, ◌==◌, if◌then◌else◌,
}
use phorklift.Request.State.{Ret, ok, error, again}

-- The part of `struct phl_upstream_connection` that these functions use, and what the stream has
-- taken so far. `preread` is NULL or the buffer, `preread_len` its length.
pub record UpStream : Type 0 where
  pub preread : Option (List ℕ)
  pub prewrite_len : ℕ
  pub sent : List ℕ

-- The bytes that are read, or PHL_AGAIN, or PHL_ERROR.
pub data Read : Type 0 where
  bytes : List ℕ → Read
  none_yet failed : Read

-- `loop_stream_read` of libloop with room for that many bytes; `none` is a failure.
abbrev pub Source : Type 0
Source = ℕ → Option (List ℕ)

-- "return ret_len == 0 ? PHL_AGAIN : ret_len"
unfoldable pub answer : List ℕ → Read
answer [] = none_yet
answer (c ∷ cs) = bytes (c ∷ cs)

unfoldable pub read_more : List ℕ → Option (List ℕ) → UpStream → Read × UpStream
read_more front none u = (failed, u)
read_more front (some more) u = (answer (front ++ more), u)

pub read_preread : Source → List ℕ → ℕ → UpStream → Read × UpStream
read_preread source pre buf_len u =
    if ltb buf_len (length pre)
    then (bytes (take buf_len pre), record u { preread = some (drop buf_len pre) })
    else if buf_len - length pre == 0
    then (bytes pre, record u { preread = none })
    else read_more pre (source (buf_len - length pre)) (record u { preread = none })

unfoldable pub read_from : Source → Option (List ℕ) → ℕ → UpStream → Read × UpStream
read_from source none buf_len u = read_more [] (source buf_len) u
read_from source (some pre) buf_len u = read_preread source pre buf_len u

-- phl_upstream_connection_read()
unfoldable pub connection_read : Source → ℕ → UpStream → Read × UpStream
connection_read source buf_len u = read_from source u.preread buf_len u

-- phl_upstream_connection_read_notfinish(): bytes that are left for the next read. It asserts that
-- there are none already; `none` is a failed assertion.
pub keep : Option (List ℕ) → List ℕ → UpStream → Option UpStream
keep none buffer u = some (record u { preread = some buffer })
keep (some pre) buffer u = none

unfoldable pub read_notfinish : List ℕ → UpStream → Option UpStream
read_notfinish [] u = some u
read_notfinish (c ∷ cs) u = keep u.preread (c ∷ cs) u

-- The part of phl_upstream_connection_write() behind the write of the payload, without the part that is
-- skipped, of which the stream has taken so many bytes.
unfoldable pub written : List ℕ → Option ℕ → UpStream → Ret × UpStream
written payload none u = (error, u)
written payload (some write_len) u =
    let after = record u { sent = u.sent ++ take write_len payload } in
    if write_len == length payload
    then (ok, record after { prewrite_len = 0 })
    else (again, record after { prewrite_len = write_len })

-- phl_upstream_connection_write(): `sink` is `loop_stream_write`, and `is_blocked` is
-- `loop_stream_is_write_blocked`, both of libloop.
unfoldable pub connection_write : (List ℕ → Option ℕ) → Bool → List ℕ → UpStream → Ret × UpStream
connection_write sink is_blocked payload u =
    let rest = drop u.prewrite_len payload in
    if is_blocked then (again, u) else written rest (sink rest) u
