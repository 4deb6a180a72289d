-- ===== src/Request/Response.antt =====
-- The step of phl_request.c that makes the body of a response, phl_request_response_body(): where the
-- bytes come from, how many fit, and when the body is complete.
pub mod Sending
pub mod Endless
pub mod Counts
mod Tests
use phorklift.Prelude.{
  ℕ, suc, zero, ◌+◌, ◌-◌, ◌*◌, ◌%◌, ◌^◌, Bool, true, false, not, Option, none, some, List, [], ◌∷◌,
  ◌++◌, length, take, drop, ltb, leb, ◌==◌, if◌then◌else◌,
}
use phorklift.Request.State.{Ret, ok, error, again}
use phorklift.Connection.{Space, space, later, failed}

-- Bytes, or a negative number.
pub data Body : Type 0 where
  given : List ℕ → Body
  stops : Ret → Body

-- What the filters make of a piece: the bytes, and whether it is the last.
pub record Filtered : Type 0 where
  pub body : Body
  pub is_last : Bool

-- What the step uses. `World` is the connection, the file and the state of the modules. `packfix`
-- is the room that the framing of HTTP/1 or HTTP/2 leaves, and `pack` is that framing; `window` is
-- http2_stream_window(), under HTTP/2. `simple_body` is phl_request_simple_response_body().
pub record Sources : Type 1 where
  pub World : Type 0
  pub now : World → ℕ
  pub make_space : World → Space × World
  pub packfix : ℕ → ℕ
  pub window : Option (World → ℕ)
  pub read : ℕ → World → Option (List ℕ) × World
  pub content : ℕ → World → Body × World
  pub simple_body : ℕ → ℕ → List ℕ
  pub filter : List ℕ → ℕ → Bool → World → Filtered × World
  pub pack : List ℕ → Bool → List ℕ
  pub put : List ℕ → World → World

-- The part of `struct phl_request` that the step reads and writes. PHL_CONTENT_LENGTH_INIT is
-- `none`, and an `easy_fd` of 0 is no file. `written` is what has been put into the send buffer.
pub record Response (W : Type 0) : Type 0 where
  pub status_code : ℕ
  pub is_broken : Bool
  pub easy_string : List ℕ
  pub easy_fd : ℕ
  pub content_length : Option ℕ
  pub content_original_length : Option ℕ
  pub content_generated_length : ℕ
  pub sent_length : ℕ
  pub resp_begin_time : ℕ
  pub written : List ℕ
  pub world : W

-- The step returns, or it is still running when the fuel is gone.
pub data Outcome (W : Type 0) : Type 0 where
  returns : Ret → Response W → Outcome W
  unfinished : Outcome W

-- "content_generated_length >= content_original_length"
pub is_complete : ℕ → Option ℕ → Bool
is_complete generated none = false
is_complete generated (some n) = leb n generated

-- "body_len == 0", where no length is known.
pub is_last_piece : ℕ → Option ℕ → ℕ → Bool
is_last_piece generated none body_len = body_len == 0
is_last_piece generated (some n) body_len = leb n generated

-- `body_len` is an `int`: the low 32 bits of the difference, which is negative from 2^31 on. It is
-- compared with `buf_len` first, and converted to the `size_t` of `read` then.
pub int_count : ℕ → ℕ → ℕ
int_count buf_len low =
    if leb (2 ^ 31) low then 2 ^ 64 - (2 ^ 32 - low) else if ltb buf_len low then buf_len else low

-- The number of bytes that is asked of the file. PHL_CONTENT_LENGTH_INIT is SIZE_MAX.
pub file_count : ℕ → Option ℕ → ℕ → ℕ
file_count buf_len (some n) generated = int_count buf_len (((2 ^ 64 + n) - generated) % 2 ^ 32)
file_count buf_len none generated = int_count buf_len ((2 ^ 64 - 1 - generated) % 2 ^ 32)

-- The result of `read`; a negative one is PHL_ERROR.
pub from_file {ℓ} : {W : Type ℓ} → Option (List ℕ) × W → Body × W
from_file (none, w) = (stops error, w)
from_file (some b, w) = (given b, w)

-- What follows one filter of phl_module_filter_response_body().
pub after_filter {ℓ} :
    {W : Type ℓ} → (List ℕ → Bool → W → Filtered × W) → Filtered × W → Filtered × W
after_filter next (f, w) = elim (f.body) [ stops ret ↦ (f, w) | given b ↦ next b f.is_last w ]

-- phl_module_filter_response_body(): the filters of a path, in their order, each of which may change
-- the bytes and whether they are the last.
pub filter_response_body {ℓ} :
    {W : Type ℓ}
    → List (List ℕ → ℕ → Bool → W → Filtered × W)
    → List ℕ
    → ℕ
    → Bool
    → W
    → Filtered × W
filter_response_body [] b buf_len is_last w = (record { body = given b; is_last = is_last }, w)
filter_response_body (f ∷ fs) b buf_len is_last w =
    after_filter (λ b' l w'. filter_response_body fs b' buf_len l w') (f b buf_len is_last w)

module _ (src : Sources) where
  open src use {
    World, now, make_space, packfix, window, read, content, simple_body, filter, pack, put,
  }

  abbrev pub Here : Type 0
  Here = Response World

  abbrev pub Result : Type 0
  Result = Outcome World

  abbrev pub at : World → Here → Here
  at w x = record x { world = w }

  -- "generate body"
  pub generate : ℕ → Here → Body × World
  generate buf_len x =
      if not (length x.easy_string == 0)
      then (given (take buf_len (drop x.content_generated_length x.easy_string)), x.world)
      else if not (x.easy_fd == 0)
      then from_file (read (file_count buf_len x.content_length x.content_generated_length) x.world)
      else if not x.is_broken
      then content buf_len x.world
      else (given (simple_body x.status_code buf_len), x.world)

  -- "pack", and the call of itself that follows a piece that is not the last.
  pub packed : (Here → Result) → Filtered → Here → Result
  packed next f x = elim (f.body) [
    | stops ret ↦ returns ret x
    | given body ↦
        let framed = pack body f.is_last in
        let x' = record x {
          sent_length = x.sent_length + length framed;
          written = x.written ++ framed;
          world = put framed x.world;
        } in
        if f.is_last then returns ok x' else next x'
  ]

  -- From the label `skip_generate` on.
  pub filtered : (Here → Result) → List ℕ → ℕ → Bool → Here → Result
  filtered next body buf_len is_last x =
      let o = filter body buf_len is_last x.world in packed next o.0 (at o.1 x)

  pub generated : (Here → Result) → Body → ℕ → Here → Result
  generated next (stops ret) buf_len x = returns ret x
  generated next (given body) buf_len x =
      let total = x.content_generated_length + length body in
      filtered next body buf_len (is_last_piece total x.content_original_length (length body))
        (record x { content_generated_length = total })

  pub with_len : (Here → Result) → ℕ → Here → Result
  with_len next buf_len x =
      if is_complete x.content_generated_length x.content_original_length
      then filtered next [] buf_len true x
      else let o = generate buf_len x in generated next o.0 buf_len (at o.1 x)

  -- "window < buf_len"
  pub in_window : (Here → Result) → Option (World → ℕ) → ℕ → Here → Result
  in_window next none buf_len x = with_len next buf_len x
  in_window next (some size) buf_len x =
      let limit = size x.world in
      if limit == 0
      then returns again x
      else with_len next (if ltb limit buf_len then limit else buf_len) x

  pub with_space : (Here → Result) → Space → Here → Result
  with_space next failed x = returns error x
  with_space next later x = returns again x
  with_space next (space n) x = in_window next window (packfix n) x

  pub begun : Here → Here
  begun x = record x {
    resp_begin_time = if x.resp_begin_time == 0 then now x.world else x.resp_begin_time;
  }

  -- phl_request_response_body(), on fuel.
  pub response_body : ℕ → Here → Result
  response_body zero x = unfinished
  response_body (suc fuel) x =
      let o = make_space x.world in with_space (response_body fuel) o.0 (at o.1 (begun x))

  -- A call that waits is followed by another, when something has moved.
  pub go_on : (Here → Result) → (World → World) → Result → Result
  go_on next move (returns again x) = next (at (move x.world) x)
  go_on next move o = o

  -- The calls of the step for one response.
  pub resumed : ℕ → List (World → World) → Here → Result
  resumed fuel [] x = response_body fuel x
  resumed fuel (move ∷ moves) x = go_on (resumed fuel moves) move (response_body fuel x)
