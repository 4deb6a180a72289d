-- ===== src/Log/Writing.antt =====
-- phl_log_file_vwrite() in phl_log.c: where it writes, and what reaches the file.
use phorklift.Prelude.{
  ℕ, zero, suc, ◌+◌, ◌-◌, ◌≤◌, ◌<◌, ◌≡◌, refl, ◌⊎◌, inl, inr, Bool, true, false, Option,
  if◌then◌else◌, none, some, List, [], ◌∷◌, ◌++◌, Text, length, take, ltb, leb, ap, sym, ◌∙◌, arith,
  if_intro, length-append, length-take,
}
use mathlib.Core.List.{append_assoc, append-nil}
use phorklift.Log.{LogFile, flush_file, printed_text, vwrite_at, vwrite}

-- What has been logged to a file, flushed or not.
abbrev pub logged : LogFile → List ℕ
logged f = f.written ++ f.buffer

length-printed_text : (n : ℕ) (s : Text) → length (printed_text n s) ≤ n
unfolding printed_text
length-printed_text zero s = omega arith
length-printed_text (suc n) s =
    if_intro (λ (l : List ℕ). length l ≤ suc n) (ltb (length s) (suc n)) s (take n s ++ 0 ∷ [])
      (λ t. ground arith)
      (λ f. let a = length-append (take n s) (0 ∷ []) in let b = length-take n s in omega arith)

-- What a text becomes in the room that is left for it: it is whole if it is shorter than the room, else
-- its front part is followed by a 0 and fills the room.
abbrev pub Fitted : ℕ → Text → Text → Type 0
Fitted room s text =
    ((length s < room) × (text ≡ s))
    ⊎ ((room ≤ length s)
        × ((room ≡ 0) × (text ≡ []) ⊎ (0 < room) × (text ≡ take (room - 1) s ++ 0 ∷ [])))

minus_one : (n : ℕ) → n ≡ suc n - 1
minus_one n = omega arith

printed_text-Fitted : (n : ℕ) (s : Text) → Fitted n s (printed_text n s)
unfolding printed_text
printed_text-Fitted zero s = inr (omega arith, inl (refl, refl))
printed_text-Fitted (suc n) s =
    if_intro (Fitted (suc n) s) (ltb (length s) (suc n)) s (take n s ++ 0 ∷ [])
      (λ t. inl (ground arith, refl))
      (λ f. inr (ground arith, inr (omega arith, ap (λ k. take k s ++ 0 ∷ []) (minus_one n))))

-- The bytes of the buffer that are left when the time, a space and the end of the line are in it.
abbrev pub room_for : ℕ → Text → ℕ → ℕ
room_for buf_size stamp used = buf_size - (used + (length stamp + 1)) - 1

-- What a line adds: the time, a space, the text and the end of a line; all of it inside the buffer,
-- of which `used` bytes were taken before.
pub record Line (max_line used : ℕ) (stamp s : Text) (f g : LogFile) : Type 0 where
  pub text : Text
  pub adds : logged g ≡ logged f ++ (stamp ++ b' ' ∷ (text ++ b'\n' ∷ []))
  pub fitted : Fitted (room_for f.buf_size stamp used) s text
  pub enough : max_line - (length stamp + 2) ≤ room_for f.buf_size stamp used
  pub inside : length g.buffer ≤ g.buf_size
  pub same_size : g.buf_size ≡ f.buf_size

vwrite_at-Line :
    (max_line : ℕ) (stamp s : Text) (f : LogFile)
    → length stamp + 2 ≤ max_line
    → length f.buffer + max_line ≤ f.buf_size
    → (g : LogFile) × (vwrite_at stamp s f ≡ some g) × Line max_line (length f.buffer) stamp s f g
unfolding vwrite_at
vwrite_at-Line max_line stamp s f l b =
    let n = f.buf_size - (length f.buffer + (length stamp + 1)) - 1 in
    let text = printed_text n s in
    let line = stamp ++ b' ' ∷ (text ++ b'\n' ∷ []) in
    let room : leb f.buf_size (length f.buffer + (length stamp + 1)) ≡ false = ground arith in
    (
      record f { buffer = f.buffer ++ line },
      rw room,
      record {
        text = text;
        adds = sym (append_assoc f.written f.buffer line);
        fitted = printed_text-Fitted n s;
        enough = omega arith;
        inside =
            let p = length-printed_text n s in
            let q = length-append f.buffer line in
            let r = length-append stamp (b' ' ∷ (text ++ b'\n' ∷ [])) in
            let t = length-append text (b'\n' ∷ []) in omega arith;
        same_size = refl;
      },
    )

take-length : (l : List ℕ) → take (length l) l ≡ l
take-length [] = refl
take-length (c ∷ l) = ap (λ k. c ∷ k) (take-length l)

-- The bytes of the buffer that are taken, with the flush that makes room for a line.
unfoldable pub used_after : ℕ → LogFile → ℕ
used_after max_line f = if ltb (f.buf_size - length f.buffer) max_line then 0 else length f.buffer

-- When `max_line` has room for the time, a space and the end of the line, and the buffer for
-- `max_line`, a line is written inside the buffer, and it is added to what has been logged before,
-- whether that is flushed first or not. A flush comes first when less than `max_line` bytes are left in
-- the buffer; write() takes all of the buffer then. The text has the room that is left beside the time,
-- the space and the end of the line, in an empty buffer after a flush, which is what `max_line` leaves
-- at least: a text that is shorter than the room is added as it is, and of another the front part,
-- followed by a 0 in the last byte of the room.
pub vwrite-Line :
    (max_line : ℕ) (stamp s : Text) (f : LogFile)
    → length stamp + 2 ≤ max_line
    → max_line ≤ f.buf_size
    → length f.buffer ≤ f.buf_size
    → (g : LogFile) × (vwrite (some (length f.buffer)) max_line stamp s f ≡ some g)
      × Line max_line (used_after max_line f) stamp s f g
unfolding vwrite flush_file used_after
vwrite-Line max_line stamp s f l k b = go (ltb (f.buf_size - length f.buffer) max_line) refl
  where
    flushed : LogFile
    flushed = flush_file (some (length f.buffer)) f

    same : logged flushed ≡ logged f
    same = append-nil _ ∙ ap (λ d. f.written ++ d) (take-length f.buffer)

    go :
        (t : Bool)
        → ltb (f.buf_size - length f.buffer) max_line ≡ t
        → (g : LogFile) × (vwrite_at stamp s (if t then flushed else f) ≡ some g)
          × Line max_line (if t then 0 else length f.buffer) stamp s f g
    go true t =
        let (g, e, x) = vwrite_at-Line max_line stamp s flushed l (omega arith) in
        (
          g,
          e,
          record {
            text = x.text;
            adds = x.adds ∙ ap (λ h. h ++ (stamp ++ b' ' ∷ (x.text ++ b'\n' ∷ []))) same;
            fitted = x.fitted;
            enough = x.enough;
            inside = x.inside;
            same_size = x.same_size;
          },
        )
    go false t = vwrite_at-Line max_line stamp s f l (ground arith)

-- When `max_line` has less room than that, there are buffers whose end a line overruns: all with at
-- least `max_line` bytes left, but not more than the time and the space.
pub vwrite-overruns :
    (wrote : Option ℕ) (max_line : ℕ) (stamp s : Text) (f : LogFile)
    → max_line ≤ f.buf_size - length f.buffer
    → f.buf_size - length f.buffer ≤ length stamp + 1
    → vwrite wrote max_line stamp s f ≡ none
unfolding vwrite vwrite_at
vwrite-overruns wrote max_line stamp s f l k =
    let t : ltb (f.buf_size - length f.buffer) max_line ≡ false = ground arith in
    let room : leb f.buf_size (length f.buffer + (length stamp + 1)) ≡ true = ground arith in
    rw (t, room)
