-- ===== src/Upstream/Stream/Room.antt =====
-- What phl_upstream_connection_read() leaves in the buffer for the next read, for a reader with a
-- buffer of 4096 bytes.
use phorklift.Prelude.{
  ℕ, ◌+◌, ◌-◌, ◌≤◌, ◌≡◌, refl, Bool, true, false, ◌==◌, Option, none, some, List, [], ◌∷◌, ◌++◌,
  length, length-append, ltb, ◌==◌, arith, if_intro, ap,
}
use phorklift.Request.State.{Ret}
use phorklift.Upstream.Stream.{
  UpStream, Read, bytes, none_yet, failed, Source, answer, read_more, read_preread, read_from, keep,
  connection_read, connection_write, written, read_notfinish,
}

abbrev pub kept_length : Option (List ℕ) → ℕ
kept_length none = 0
kept_length (some pre) = length pre

-- What is kept for the next read fits the buffer of 4096 bytes.
abbrev pub Small : UpStream → Type 0
Small u = kept_length u.preread ≤ 4096

-- A source gives no more than it is asked for.
abbrev pub IsBounded : Source → Type 0
IsBounded source = (n : ℕ) (l : List ℕ) → source n ≡ some l → length l ≤ n

-- What a read into 4096 bytes gives, and that nothing is kept behind it.
abbrev pub Fits : Read × UpStream → Type 0
Fits (bytes b, u) = (length b ≤ 4096) × (u.preread ≡ none)
Fits (ret, u) = u.preread ≡ none

answer-Fits : (l : List ℕ) (u : UpStream) → length l ≤ 4096 → u.preread ≡ none → Fits (answer l, u)
unfolding answer
answer-Fits [] u h e = e
answer-Fits (c ∷ cs) u h e = (h, e)

read_more-Fits :
    (front : List ℕ) (o : Option (List ℕ)) (u : UpStream)
    → u.preread ≡ none
    → ((l : List ℕ) → o ≡ some l → length front + length l ≤ 4096)
    → Fits (read_more front o u)
unfolding read_more
read_more-Fits front none u e h = e
read_more-Fits front (some more) u e h =
    answer-Fits (front ++ more) u (ground (arith, h more refl, length-append front more)) e

read_preread-Fits :
    (source : Source) (pre : List ℕ) (u : UpStream)
    → IsBounded source
    → length pre ≤ 4096
    → Fits (read_preread source pre 4096 u)
unfolding read_preread
read_preread-Fits source pre u b h =
    if_intro Fits (ltb 4096 (length pre)) _ _ (λ e. let no : ⊥ = ground arith in elim no [ ])
      (λ e.
        if_intro Fits (4096 - length pre == 0) _ _ (λ e'. (h, refl))
          (λ e'.
            read_more-Fits pre (source (4096 - length pre)) (record u { preread = none }) refl
              (λ l e''. ground (arith, b (4096 - length pre) l e''))))

read_from-Fits :
    (source : Source) (o : Option (List ℕ)) (u : UpStream)
    → IsBounded source
    → u.preread ≡ o
    → Small u
    → Fits (read_from source o 4096 u)
unfolding read_from
read_from-Fits source none u b e h =
    read_more-Fits [] (source 4096) u e (λ l e'. omega (arith, b 4096 l e'))
read_from-Fits source (some pre) u b e h =
    read_preread-Fits source pre u b (ground (arith, h, ap kept_length e))

pub connection_read-Fits :
    (source : Source) (u : UpStream)
    → IsBounded source
    → Small u
    → Fits (connection_read source 4096 u)
unfolding connection_read
connection_read-Fits source u b h = read_from-Fits source u.preread u b refl h

pub Fits-Small : (r : Read) (u : UpStream) → Fits (r, u) → Small u
Fits-Small (bytes b) u f = ground (arith, ap kept_length f.1)
Fits-Small none_yet u f = ground (arith, ap kept_length f)
Fits-Small failed u f = ground (arith, ap kept_length f)

-- What is left of a buffer can be kept.
abbrev pub Keeps : Option UpStream → Type 0
Keeps none = ⊥
Keeps (some u) = Small u

keep-Keeps :
    (o : Option (List ℕ)) (l : List ℕ) (u : UpStream)
    → o ≡ none
    → length l ≤ 4096
    → Keeps (keep o l u)
unfolding keep
keep-Keeps none l u e h = h
keep-Keeps (some pre) l u e h = cc

pub read_notfinish-Keeps :
    (l : List ℕ) (u : UpStream) → u.preread ≡ none → length l ≤ 4096 → Keeps (read_notfinish l u)
unfolding read_notfinish
read_notfinish-Keeps [] u e h = ground (arith, ap kept_length e)
read_notfinish-Keeps (c ∷ cs) u e h = keep-Keeps u.preread (c ∷ cs) u e h

written-Small :
    (payload : List ℕ) (o : Option ℕ) (u : UpStream) → Small u → Small (written payload o u).1
unfolding written
written-Small payload none u h = h
written-Small payload (some n) u h =
    if_intro (λ (o : Ret × UpStream). Small o.1) (n == length payload) _ _ (λ e. h) (λ e. h)

pub connection_write-Small :
    (sink : List ℕ → Option ℕ) (is_blocked : Bool) (payload : List ℕ) (u : UpStream)
    → Small u
    → Small (connection_write sink is_blocked payload u).1
unfolding connection_write
connection_write-Small sink true payload u h = h
connection_write-Small sink false payload u h = written-Small _ _ u h
