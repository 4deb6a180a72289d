-- ===== src/Request/Response/Counts.antt =====
-- phl_request_response_body(): how many bytes it asks of a file.
use phorklift.Prelude.{ℕ, ◌+◌, ◌-◌, ◌%◌, ◌^◌, ◌≤◌, ◌<◌, ◌≡◌, Option, none, some, arith}
use phorklift.Request.Response.{int_count, file_count}

low_bits :
    (n generated : ℕ)
    → generated ≤ n
    → n - generated < 2 ^ 32
    → ((2 ^ 64 + n) - generated) % 2 ^ 32 ≡ n - generated
low_bits n generated h l = omega arith

-- With fewer than 2^31 bytes left of a file of known length, the step asks for no more than the
-- buffer holds, and for no more than is left.
pub file_count_le :
    (buf_len n generated : ℕ)
    → generated ≤ n
    → n - generated < 2 ^ 31
    → (file_count buf_len (some n) generated ≤ buf_len)
      × (file_count buf_len (some n) generated ≤ n - generated)
unfolding file_count int_count
file_count_le buf_len n generated h l = ground (arith, low_bits n generated h (omega arith))

-- From 2^31 up to 2^32 bytes left, or a length that is not known (any more) after fewer than 2^31
-- bytes.
abbrev pub IsNegative : Option ℕ → ℕ → Type 0
IsNegative none generated = generated < 2 ^ 31
IsNegative (some n) generated =
    (generated ≤ n) × (2 ^ 31 ≤ n - generated) × (n - generated < 2 ^ 32)

-- With 2^31 up to 2^32 bytes left of a file, or with a length that is not known, as after a filter
-- has compressed the response, the step asks `read` for more bytes than the buffer holds.
pub file_count-overruns :
    (buf_len generated : ℕ) (o : Option ℕ)
    → buf_len < 2 ^ 31
    → IsNegative o generated
    → buf_len < file_count buf_len o generated
unfolding file_count int_count
file_count-overruns buf_len generated none h l = ground arith
file_count-overruns buf_len generated (some n) h l = ground (arith, low_bits n generated l.0 l.2)
