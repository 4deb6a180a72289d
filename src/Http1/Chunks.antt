-- ===== src/Http1/Chunks.antt =====
-- phl_http1.c: chunks of a response in their buffer, and the loop over the chunks of a request.
use phorklift.Prelude.{
  ℕ, suc, zero, ◌+◌, ◌≤◌, ◌<◌, ◌≡◌, refl, sym, ◌∙◌, Bool, true, false, not, ◌&&◌, List, [], ◌∷◌,
  ◌++◌, length, take, drop, ◌==◌, arith, if_intro, length-append, ap,
}
use mathlib.Core.List.{append-nil}
use phorklift.Request.State.{Ret, ok, error, again, brk, status, Request}
use phorklift.Http1.{Decoded, bad, waits, piece, appended, decoded, chunks, packfix, pack}

drop_front : (a b : List ℕ) (n : ℕ) → length a ≡ n → drop n (a ++ b) ≡ b
drop_front [] b zero e = refl
drop_front [] b (suc n) e = let no : ⊥ = omega (arith, e) in elim no [ ]
drop_front (x ∷ a) b zero e = let no : ⊥ = omega (arith, e) in elim no [ ]
drop_front (x ∷ a) b (suc n) e = drop_front a b n (omega (arith, e))

take_front : (a b : List ℕ) → take (length a) (a ++ b) ≡ a
take_front [] b = refl
take_front (x ∷ a) b = ap (λ l. x ∷ l) (take_front a b)

-- The bytes lie inside the buffer, and the payload where phl_http1_response_body_packfix() has put
-- it.
abbrev pub Packed : ℕ → ℕ → List ℕ → List ℕ → Type 0
Packed buf_len start payload b =
    (length b ≤ buf_len) × (take (length payload) (drop start b) ≡ payload)

module _ (hex : ℕ → List ℕ) (wide : (n : ℕ) → length (hex n) ≡ 8) where
  framed-Packed :
      (payload end : List ℕ) (buf_len : ℕ)
      → length payload + length end + 10 ≤ buf_len
      → Packed buf_len 10 payload ((hex (length payload) ++ 13 ∷ 10 ∷ []) ++ (payload ++ end))
  framed-Packed payload end buf_len le =
      let head = hex (length payload) ++ 13 ∷ 10 ∷ [] in
      let h : length head ≡ 10 =
        omega (arith, length-append (hex (length payload)) (13 ∷ 10 ∷ []), wide (length payload)) in
      (
        omega (arith, length-append head (payload ++ end), length-append payload end, h),
        ap (λ l. take (length payload) l) (drop_front head (payload ++ end) 10 h)
            ∙ take_front payload end,
      )

  -- A payload that fits into the room that phl_http1_response_body_packfix() gives still fits into
  -- the buffer with its chunk header and the end of the chunk, and it is not moved. A buffer for
  -- chunks has at least 17 bytes.
  pub pack-Packed :
      (chunked is_last : Bool) (payload : List ℕ) (buf_len : ℕ)
      → 17 ≤ buf_len
      → length payload ≤ (packfix chunked buf_len).1
      → Packed buf_len (packfix chunked buf_len).0 payload (pack hex chunked payload is_last)
  unfolding packfix pack
  pack-Packed false is_last payload buf_len w le =
      (le, ap (λ l. take (length payload) l) (sym (append-nil payload)) ∙ take_front payload [])
  pack-Packed true is_last payload buf_len w le =
      if_intro (Packed buf_len 10 payload) (not (length payload == 0) && is_last) _ _
        (λ e. framed-Packed payload _ buf_len (omega arith))
        (λ e. framed-Packed payload _ buf_len (omega arith))

module _ {D : Type 0} (decode : D → List ℕ → Decoded D) (is_finished : D → Bool) (body_max : ℕ)
    (consumes : (d d' : D) (buf b rest : List ℕ)
      → decode d buf ≡ piece d' b rest
      → length rest < length buf) where
  appended-same :
      (f g : Request → Ret × (D × Request)) (d : D) (o : Ret × Request)
      → ((q : Request) → f q ≡ g q)
      → appended decode is_finished body_max f d o ≡ appended decode is_finished body_max g d o
  unfolding appended
  appended-same f g d (ok, r) h = h r
  appended-same f g d (error, r) h = refl
  appended-same f g d (again, r) h = refl
  appended-same f g d (brk, r) h = refl
  appended-same f g d (status code, r) h = refl

  decoded-same :
      (d : D) (r : Request) (buf : List ℕ) (x : Decoded D)
      → decode d buf ≡ x
      → (f g : D → List ℕ → Request → Ret × (D × Request))
      → ((d' : D) (rest : List ℕ) (q : Request)
          → length rest < length buf
          → f d' rest q ≡ g d' rest q)
      → decoded decode is_finished body_max f d r x ≡ decoded decode is_finished body_max g d r x
  unfolding decoded
  decoded-same d r buf bad e f g h = refl
  decoded-same d r buf (waits d') e f g h = refl
  decoded-same d r buf (piece d' b rest) e f g h =
      appended-same (f d' rest) (g d' rest) d' _ (λ q. h d' rest q (consumes d d' buf b rest e))

  -- The loop over the chunks ends: with as much fuel as there are bytes, more fuel changes nothing.
  pub chunks-enough :
      (fuel : ℕ) (d : D) (buf : List ℕ) (r : Request)
      → length buf ≤ fuel
      → chunks decode is_finished body_max (suc fuel) d buf r
        ≡ chunks decode is_finished body_max fuel d buf r
  unfolding chunks
  chunks-enough fuel d [] r le = refl
  chunks-enough zero d (c ∷ buf) r le = let no : ⊥ = omega (arith, le) in elim no [ ]
  chunks-enough (suc fuel) d (c ∷ buf) r le =
      decoded-same d r (c ∷ buf) _ refl _ _
        λ d' rest q lt. chunks-enough fuel d' rest q (omega arith)
