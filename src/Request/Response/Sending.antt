-- ===== src/Request/Response/Sending.antt =====
-- phl_request_response_body(): a response that is one string, of known length, under HTTP/1.
use phorklift.Prelude.{
  ℕ, suc, zero, ◌+◌, ◌-◌, ◌≤◌, ◌<◌, ◌≡◌, refl, Bool, true, false, not, Option, none, some, List, [],
  ◌∷◌, ◌++◌, length, take, drop, length-take, length-drop, ◌==◌, arith, if_intro, ap, sym, subst,
  ◌∙◌,
}
use mathlib.Core.List.{append-nil}
use phorklift.Request.State.{ok, error, again, brk, status}
use phorklift.Connection.{Space, space, later, failed}
use phorklift.Request.Response.{
  Body, given, Filtered, Sources, Response, Outcome, returns, unfinished, is_complete,
  is_last_piece, Here, Result, at, generate, packed, filtered, generated, with_len, in_window,
  with_space, begun, response_body, go_on, resumed,
}

abbrev no_bytes : List ℕ
no_bytes = []

take_nil : (k : ℕ) → take k no_bytes ≡ no_bytes
take_nil zero = refl
take_nil (suc k) = refl

take-length-take : (k : ℕ) (s : List ℕ) → take (length (take k s)) s ≡ take k s
take-length-take zero s = refl
take-length-take (suc k) [] = refl
take-length-take (suc k) (c ∷ s) = ap (λ t. c ∷ t) (take-length-take k s)

take-next :
    (g k : ℕ) (s : List ℕ) → take (g + length (take k (drop g s))) s ≡ take g s ++ take k (drop g s)
take-next zero k s =
    let e : 0 + length (take k s) ≡ length (take k s) = omega arith in
    ap (λ n. take n s) e ∙ take-length-take k s
take-next (suc g) k [] =
    let e : suc g + length (take k no_bytes) ≡ suc (g + length (take k no_bytes)) = omega arith in
    ap (λ n. take n no_bytes) e ∙ sym (take_nil k)
take-next (suc g) k (c ∷ s) =
    let e : suc g + length (take k (drop g s)) ≡ suc (g + length (take k (drop g s))) =
      omega arith in
    ap (λ n. take n (c ∷ s)) e ∙ ap (λ t. c ∷ t) (take-next g k s)

take_whole : (n : ℕ) (s : List ℕ) → length s ≤ n → take n s ≡ s
take_whole zero [] h = refl
take_whole zero (c ∷ s) h = let no : ⊥ = omega (arith, h) in elim no [ ]
take_whole (suc n) [] h = refl
take_whole (suc n) (c ∷ s) h = ap (λ t. c ∷ t) (take_whole n s (omega (arith, h)))

is_complete_lem : (g n : ℕ) (o : Option ℕ) → o ≡ some n → is_complete g o ≡ true → n ≤ g
unfolding is_complete
is_complete_lem g n none e h = cc
is_complete_lem g n (some m) e h = let same : m ≡ n = cc in ground arith

incomplete_lem : (g n : ℕ) (o : Option ℕ) → o ≡ some n → is_complete g o ≡ false → g < n
unfolding is_complete
incomplete_lem g n none e h = cc
incomplete_lem g n (some m) e h = let same : m ≡ n = cc in ground arith

is_last_lem : (g n k : ℕ) (o : Option ℕ) → o ≡ some n → is_last_piece g o k ≡ true → n ≤ g
unfolding is_last_piece
is_last_lem g n k none e h = cc
is_last_lem g n k (some m) e h = let same : m ≡ n = cc in ground arith

-- There is room, or there will be later.
abbrev pub Roomy : Space → Type 0
Roomy (space n) = 0 < n
Roomy later = Unit
Roomy failed = ⊥

-- HTTP/1 without chunks, no filter, and a connection that does not fail.
pub record IsPlain (src : Sources) : Type 0 where
  pub rooms : (w : src.World) → Roomy (src.make_space w).0
  pub unframed : (n : ℕ) → src.packfix n ≡ n
  pub unpacked : (b : List ℕ) (l : Bool) → src.pack b l ≡ b
  pub unlimited : src.window ≡ none
  pub unfiltered :
      (b : List ℕ) (n : ℕ) (l : Bool) (w : src.World)
      → (src.filter b n l w).0 ≡ record { body = given b; is_last = l }

-- So far, as much of the string has been written as was generated.
pub record IsAt {W : Type 0} (s : List ℕ) (x : Response W) : Type 0 where
  pub string : x.easy_string ≡ s
  pub whole : x.content_original_length ≡ some (length s)
  pub within : x.content_generated_length ≤ length s
  pub front : x.written ≡ take x.content_generated_length s

abbrev pub Sends : {W : Type 0} → List ℕ → Outcome W → Type 0
Sends s (returns ok x) = x.written ≡ s
Sends s (returns again x) = IsAt s x
Sends s (returns _ x) = ⊥
Sends s unfinished = ⊥

module _ (src : Sources) (plain : IsPlain src) (s : List ℕ) (some_bytes : 0 < length s) where
  open src use {World, make_space, packfix, window, pack}

  packed_last :
      (next : Here src → Result src) (f : Filtered) (body : List ℕ) (x : Here src)
      → f ≡ record { body = given body; is_last = true }
      → x.written ++ body ≡ s
      → Sends s (packed src next f x)
  unfolding packed
  packed_last next f body x e h =
      subst (λ f'. Sends s (packed src next f' x)) (sym e)
        (ap (λ b. x.written ++ b) (plain.unpacked body true) ∙ h)

  packed_more :
      (next : Here src → Result src) (f : Filtered) (body : List ℕ) (x : Here src)
      → f ≡ record { body = given body; is_last = false }
      → x.easy_string ≡ s
      → x.content_original_length ≡ some (length s)
      → x.content_generated_length ≤ length s
      → x.written ++ body ≡ take x.content_generated_length s
      → ((x' : Here src)
          → IsAt s x'
          → x'.content_generated_length ≡ x.content_generated_length
          → Sends s (next x'))
      → Sends s (packed src next f x)
  unfolding packed
  packed_more next f body x e string whole within front k =
      subst (λ f'. Sends s (packed src next f' x)) (sym e)
        (k _
          (record {
            string = string;
            whole = whole;
            within = within;
            front = ap (λ b. x.written ++ b) (plain.unpacked body false) ∙ front;
          })
          refl)

  piece-Sends :
      (next : Here src → Result src) (buf_len : ℕ) (b : List ℕ) (w : World) (x : Here src)
      → 0 < buf_len
      → x.content_generated_length < length s
      → IsAt s x
      → b ≡ take buf_len (drop x.content_generated_length s)
      → ((x' : Here src)
          → IsAt s x'
          → x.content_generated_length < x'.content_generated_length
          → Sends s (next x'))
      → Sends s (generated src next (given b) buf_len (at src w x))
  unfolding generated filtered
  piece-Sends next buf_len b w x pos short h e k = go (is_last_piece total whole (length b)) refl
    where
      total : ℕ
      total = x.content_generated_length + length b

      whole : Option ℕ
      whole = x.content_original_length

      moved : (0 < length b) × (total ≤ length s)
      moved =
          let n = length-take buf_len (drop x.content_generated_length s) in
          let m = length-drop x.content_generated_length s in ground (arith, n, m, ap length e)

      front : x.written ++ b ≡ take total s
      front =
          ap (λ f. f ++ b) h.front
          ∙ ap (λ t. take x.content_generated_length s ++ t) e
          ∙ sym (take-next x.content_generated_length buf_len s)
          ∙ ap (λ t. take (x.content_generated_length + length t) s) (sym e)

      go :
          (l : Bool)
          → is_last_piece total whole (length b) ≡ l
          → Sends s (
              filtered src next b buf_len l
                (record (at src w x) { content_generated_length = total }))
      go true l =
          packed_last next _ b _ (plain.unfiltered b buf_len true w)
            (front ∙ take_whole total s (is_last_lem total (length s) (length b) whole h.whole l))
      go false l =
          packed_more next _ b _ (plain.unfiltered b buf_len false w) h.string h.whole moved.1 front
            (λ x' at' same. k x' at' (omega (arith, same, moved.0)))

  with_len-Sends :
      (next : Here src → Result src) (buf_len : ℕ) (x : Here src)
      → 0 < buf_len
      → IsAt s x
      → ((x' : Here src)
          → IsAt s x'
          → x.content_generated_length < x'.content_generated_length
          → Sends s (next x'))
      → Sends s (with_len src next buf_len x)
  unfolding with_len filtered generate
  with_len-Sends next buf_len x pos h k =
      if_intro (Sends s) (is_complete x.content_generated_length x.content_original_length) _ _
        (λ e. packed_last next _ [] _ (plain.unfiltered [] buf_len true x.world) (
          append-nil x.written
          ∙ h.front
          ∙ take_whole _ s (is_complete_lem _ (length s) _ h.whole e)))
        (λ e.
          if_intro (λ (o : Body × World). Sends s (generated src next o.0 buf_len (at src o.1 x)))
            (not (length x.easy_string == 0)) _ _
            (λ t.
              piece-Sends next buf_len _ _ x pos (incomplete_lem _ (length s) _ h.whole e) h
                (ap (λ l. take buf_len (drop x.content_generated_length l)) h.string) k)
            (λ t. let no : ⊥ = ground (arith, ap length h.string) in elim no [ ]))

  with_space-Sends :
      (next : Here src → Result src) (o : Space) (x : Here src)
      → Roomy o
      → IsAt s x
      → ((x' : Here src)
          → IsAt s x'
          → x.content_generated_length < x'.content_generated_length
          → Sends s (next x'))
      → Sends s (with_space src next o x)
  unfolding with_space in_window
  with_space-Sends next failed x r h k = elim r [ ]
  with_space-Sends next later x r h k = h
  with_space-Sends next (space n) x r h k =
      subst (λ o. Sends s (in_window src next o (packfix n) x)) (sym plain.unlimited)
        (with_len-Sends next (packfix n) x (omega (arith, r, plain.unframed n)) h k)

  response_body-Sends :
      (fuel : ℕ) (x : Here src)
      → IsAt s x
      → length s - x.content_generated_length < fuel
      → Sends s (response_body src fuel x)
  unfolding response_body begun
  response_body-Sends zero x h l = let no : ⊥ = omega arith in elim no [ ]
  response_body-Sends (suc fuel) x h l =
      with_space-Sends (response_body src fuel) _ _ (plain.rooms x.world)
        (record { string = h.string; whole = h.whole; within = h.within; front = h.front })
        (λ x' h' more. response_body-Sends fuel x' h' (omega (arith, l, more, h'.within)))

  go_on-Sends :
      (next : Here src → Result src) (move : World → World) (o : Result src)
      → Sends s o
      → ((x : Here src) → IsAt s x → Sends s (next x))
      → Sends s (go_on src next move o)
  unfolding go_on
  go_on-Sends next move (returns ok x) h k = h
  go_on-Sends next move (returns again x) h k =
      k _ (record { string = h.string; whole = h.whole; within = h.within; front = h.front })
  go_on-Sends next move (returns error x) h k = elim h [ ]
  go_on-Sends next move (returns brk x) h k = elim h [ ]
  go_on-Sends next move (returns (status c) x) h k = elim h [ ]
  go_on-Sends next move unfinished h k = elim h [ ]

  -- A response that is one string, of the announced length, goes out as that string, whatever room
  -- each round finds, and however often the step has to wait for room: every call of the step ends,
  -- within one round more than the string has bytes, and either has written the whole string, or
  -- waits, with a front of it written, and goes on from there in the next call. This is HTTP/1
  -- without chunks and without filters, on a connection that does not fail.
  pub resumed-Sends :
      (moves : List (World → World)) (x : Here src)
      → IsAt s x
      → Sends s (resumed src (suc (length s)) moves x)
  unfolding resumed
  resumed-Sends [] x h = response_body-Sends (suc (length s)) x h (omega arith)
  resumed-Sends (move ∷ moves) x h =
      go_on-Sends (resumed src (suc (length s)) moves) move _
        (response_body-Sends (suc (length s)) x h (omega arith))
        (λ x' h'. resumed-Sends moves x' h')
