-- ===== src/Upstream/Stream/Reading.antt =====
-- phl_upstream_connection_read(): the order of the bytes that are read.
use phorklift.Prelude.{
  ℕ, ◌-◌, ◌≤◌, ◌<◌, ◌≡◌, ◌≢◌, refl, sym, ◌∙◌, Option, none, some, List, [], ◌∷◌, ◌++◌, length, ltb,
  ◌==◌, arith, if_intro, ap, subst, take-append-drop, length-append, length-take, ◌⊎◌, inl, inr,
}
use mathlib.Core.List.{append-nil}
use phorklift.Upstream.Stream.{
  UpStream, Read, bytes, none_yet, failed, Source, answer, read_more, read_preread, read_from,
  connection_read,
}

abbrev pub kept : Option (List ℕ) → List ℕ
kept none = []
kept (some pre) = pre

abbrev pub got : Read → List ℕ
got (bytes b) = b
got none_yet = []
got failed = []

-- Nothing is kept, or there is room behind it: the stream is asked, and its answer is `o`.
abbrev pub Answers : Source → ℕ → Option (List ℕ) → Option (List ℕ) → Type 0
Answers source buf_len preread o =
    ((preread ≡ none) ⊎ (length (kept preread) < buf_len))
    × (source (buf_len - length (kept preread)) ≡ o)

-- What is kept fills the buffer and the stream is not asked; or the stream gives `more` for the room
-- that is left.
abbrev pub Asked : Source → ℕ → Option (List ℕ) → List ℕ → Type 0
Asked source buf_len preread more =
    ((preread ≢ none) × (buf_len ≤ length (kept preread)) × (more ≡ []))
    ⊎ Answers source buf_len preread (some more)

-- A read fails when the stream does; otherwise what is read and what is kept are, in order, what was kept
-- and what the stream gives, and what is read fits into the buffer.
abbrev pub InOrder : Source → ℕ → UpStream → Read × UpStream → Type 0
InOrder source buf_len u (r, u') =
    ((r ≡ failed) × Answers source buf_len u.preread none)
    ⊎ ((more : List ℕ) × Asked source buf_len u.preread more
        × (got r ++ kept u'.preread ≡ kept u.preread ++ more)
        × (length (got r) ≤ buf_len))

minus_zero : (n : ℕ) → n - 0 ≡ n
minus_zero n = omega arith

got-answer : (b : List ℕ) → got (answer b) ≡ b
unfolding answer
got-answer [] = refl
got-answer (c ∷ cs) = refl

module _ (source : Source)
    (fits : (k : ℕ) (more : List ℕ) → source k ≡ some more → length more ≤ k) where
  read_more-InOrder :
      (front : List ℕ) (buf_len : ℕ) (o : Option (List ℕ)) (u v : UpStream)
      → source (buf_len - length front) ≡ o
      → length front ≤ buf_len
      → kept u.preread ≡ front
      → (u.preread ≡ none) ⊎ (length (kept u.preread) < buf_len)
      → v.preread ≡ none
      → InOrder source buf_len u (read_more front o v)
  unfolding read_more
  read_more-InOrder front buf_len none u v e le k w n =
      inl (refl, (w, subst (λ p. source (buf_len - length p) ≡ none) (sym k) e))
  read_more-InOrder front buf_len (some more) u v e le k w n =
      let l = fits _ more e in
      inr (
        more,
        inr (w, subst (λ p. source (buf_len - length p) ≡ some more) (sym k) e),
        ap (λ b. b ++ kept v.preread) (got-answer (front ++ more))
            ∙ ap (λ p. (front ++ more) ++ kept p) n
            ∙ append-nil (front ++ more)
            ∙ ap (λ p. p ++ more) (sym k),
        subst (λ b. length b ≤ buf_len) (sym (got-answer (front ++ more)))
            (ground (arith, length-append front more, l)),
      )

  read_preread-InOrder :
      (pre : List ℕ) (buf_len : ℕ) (u : UpStream)
      → u.preread ≡ some pre
      → InOrder source buf_len u (read_preread source pre buf_len u)
  unfolding read_preread
  read_preread-InOrder pre buf_len u e =
      let k : kept u.preread ≡ pre = ap kept e in
      let is_kept : u.preread ≢ none = λ z. cc in
      let l = ap length k in
      if_intro (InOrder source buf_len u) (ltb buf_len (length pre)) _ _
        (λ lt. inr (
          [],
          inl (is_kept, ground (arith, l), refl),
          take-append-drop buf_len pre ∙ sym k ∙ sym (append-nil (kept u.preread)),
          ground (arith, length-take buf_len pre),
        ))
        λ ge.
          if_intro (InOrder source buf_len u) (buf_len - length pre == 0) _ _
            (λ full.
              inr (
                [],
                inl (is_kept, ground (arith, l), refl),
                ap (λ p. p ++ []) (sym k),
                ground arith,
              ))
            λ room.
              read_more-InOrder pre buf_len (source (buf_len - length pre)) u
                (record u { preread = none }) refl (ground arith) k (inr (ground (arith, l))) refl

  read_from-InOrder :
      (buf_len : ℕ) (o : Option (List ℕ)) (u : UpStream)
      → u.preread ≡ o
      → InOrder source buf_len u (read_from source o buf_len u)
  unfolding read_from
  read_from-InOrder buf_len none u e =
      read_more-InOrder [] buf_len (source buf_len) u u (ap source (minus_zero buf_len))
        (omega arith) (ap kept e) (inl e) e
  read_from-InOrder buf_len (some pre) u e = read_preread-InOrder pre buf_len u e

  -- The stream is asked, for the room that is left, when nothing is kept or what is kept does not
  -- fill the buffer, and a read fails when the stream does. Otherwise what is read, and what is kept
  -- after it, are in order the bytes that were kept and those that the stream gives now, without loss
  -- or repetition, and what is read fits into the buffer. `libloop` gives no more than there is room
  -- for.
  pub connection_read-InOrder :
      (buf_len : ℕ) (u : UpStream) → InOrder source buf_len u (connection_read source buf_len u)
  unfolding connection_read
  connection_read-InOrder buf_len u = read_from-InOrder buf_len u.preread u refl
