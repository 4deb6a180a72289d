-- ===== src/Upstream/Stream/Writing.antt =====
-- phl_upstream_connection_write(): a write that the stream cuts.
use phorklift.Prelude.{
  ℕ, suc, zero, ◌+◌, ◌-◌, ◌<◌, ◌≡◌, refl, sym, ◌∙◌, false, Option, some, List, [], ◌∷◌, ◌++◌,
  length, take, drop, ◌==◌, arith, if_intro, ap, subst, take-append-drop, length-append,
  length-take, length-drop,
}
use mathlib.Core.List.{append_assoc}
use phorklift.Request.State.{Ret, ok, again}
use phorklift.Upstream.Stream.{UpStream, written, connection_write}

-- The stream takes `n` bytes.
abbrev pub takes : ℕ → List ℕ → Option ℕ
takes n b = some n

-- The calls for one request, one after the other, each with the number of bytes that the stream
-- takes of it, as long as they are answered by PHL_AGAIN.
pub continue_writes : (UpStream → Ret × UpStream) → Ret × UpStream → Ret × UpStream
continue_writes f (again, u) = f u
continue_writes f (ret, u) = (ret, u)

pub writes : List ℕ → List ℕ → UpStream → Ret × UpStream
writes payload [] u = (again, u)
writes payload (n ∷ ns) u =
    continue_writes (writes payload ns) (connection_write (takes n) false payload u)

-- What a write leaves when the stream takes `n` bytes of what is offered, and when it takes all.
abbrev cut_at : List ℕ → ℕ → UpStream → UpStream
cut_at payload n u = record u {
  prewrite_len = n;
  sent = u.sent ++ take n (drop u.prewrite_len payload);
}

abbrev rest_at : List ℕ → UpStream → UpStream
rest_at payload u = record u { prewrite_len = 0; sent = u.sent ++ drop u.prewrite_len payload }

write_cut :
    (payload : List ℕ) (n : ℕ) (u : UpStream)
    → n < length payload - u.prewrite_len
    → connection_write (takes n) false payload u ≡ (again, cut_at payload n u)
unfolding connection_write written
write_cut payload n u lt =
    let l = length-drop u.prewrite_len payload in
    if_intro (λ o. o ≡ (again, cut_at payload n u)) (n == length (drop u.prewrite_len payload)) _ _
      (λ e. let no : ⊥ = ground (arith, l, lt, e) in elim no [ ]) (λ e. refl)

take_all : (b : List ℕ) (n : ℕ) → n ≡ length b → take n b ≡ b
take_all [] zero e = refl
take_all [] (suc n) e = refl
take_all (c ∷ cs) zero e = let no : ⊥ = omega (arith, e) in elim no [ ]
take_all (c ∷ cs) (suc n) e = ap (λ l. c ∷ l) (take_all cs n (omega arith))

write_rest :
    (payload : List ℕ) (n : ℕ) (u : UpStream)
    → n ≡ length payload - u.prewrite_len
    → connection_write (takes n) false payload u ≡ (ok, rest_at payload u)
unfolding connection_write written
write_rest payload n u e =
    let l = e ∙ sym (length-drop u.prewrite_len payload) in
    if_intro (λ o. o ≡ (ok, rest_at payload u)) (n == length (drop u.prewrite_len payload)) _ _
      (λ t.
        ap (λ b. (ok, record u { prewrite_len = 0; sent = u.sent ++ b }))
          (take_all (drop u.prewrite_len payload) n l))
      (λ t. let no : ⊥ = ground (arith, l, t) in elim no [ ])

-- A predicate of the result of the writes, when the stream cuts the first, or takes all of it.
after_cut :
    (P : Ret × UpStream → Type 0) (payload ns : List ℕ) (n : ℕ) (u : UpStream)
    → n < length payload - u.prewrite_len
    → P (writes payload ns (cut_at payload n u))
    → P (writes payload (n ∷ ns) u)
unfolding writes continue_writes
after_cut P payload ns n u lt h =
    subst (λ o. P (continue_writes (writes payload ns) o)) (sym (write_cut payload n u lt)) h

after_rest :
    (P : Ret × UpStream → Type 0) (payload ns : List ℕ) (n : ℕ) (u : UpStream)
    → n ≡ length payload - u.prewrite_len
    → P (ok, rest_at payload u)
    → P (writes payload (n ∷ ns) u)
unfolding writes continue_writes
after_rest P payload ns n u e h =
    subst (λ o. P (continue_writes (writes payload ns) o)) (sym (write_rest payload n u e)) h

-- The pieces that the stream has taken.
two_pieces : (s p : List ℕ) (n k : ℕ) → k ≡ 0 → (s ++ take n (drop k p)) ++ drop n p ≡ s ++ p
two_pieces s p n k z =
    subst (λ j. (s ++ take n (drop j p)) ++ drop n p ≡ s ++ p) (sym z)
      (append_assoc s (take n p) (drop n p) ∙ ap (λ b. s ++ b) (take-append-drop n p))

three_pieces :
    (s p : List ℕ) (n m k : ℕ)
    → k ≡ 0
    → n + m < length p
    → length (((s ++ take n (drop k p)) ++ take m (drop n p)) ++ drop m p) ≡ length s + length p + n
three_pieces s p n m k z lt =
    let a = length-append ((s ++ take n (drop k p)) ++ take m (drop n p)) (drop m p) in
    let b = length-append (s ++ take n (drop k p)) (take m (drop n p)) in
    let c = length-append s (take n (drop k p)) in
    omega (
      arith,
      a,
      b,
      c,
      length-take n (drop k p),
      length-take m (drop n p),
      length-drop k p,
      length-drop n p,
      length-drop m p,
      z,
      lt,
    )

-- A payload that the stream takes in two pieces is sent as a whole and once.
pub writes-twice :
    (payload : List ℕ) (n : ℕ) (u : UpStream)
    → u.prewrite_len ≡ 0
    → n < length payload
    → ((writes payload (n ∷ (length payload - n) ∷ []) u).0 ≡ ok)
      × ((writes payload (n ∷ (length payload - n) ∷ []) u).1.sent ≡ u.sent ++ payload)
writes-twice payload n u z lt =
    after_cut (λ o. (o.0 ≡ ok) × (o.1.sent ≡ u.sent ++ payload)) payload _ n u (omega arith)
      (after_rest (λ o. (o.0 ≡ ok) × (o.1.sent ≡ u.sent ++ payload)) payload [] _
        (cut_at payload n u) refl (refl, two_pieces u.sent payload n u.prewrite_len z))

-- A payload that the stream takes in three pieces is not sent right: after the second cut the
-- connection forgets the first piece, so that as many bytes as that had are sent again. Still the
-- last write is answered by PHL_OK.
pub writes-repeat :
    (payload : List ℕ) (n m : ℕ) (u : UpStream)
    → u.prewrite_len ≡ 0
    → n + m < length payload
    → ((writes payload (n ∷ m ∷ (length payload - m) ∷ []) u).0 ≡ ok)
      × (length (writes payload (n ∷ m ∷ (length payload - m) ∷ []) u).1.sent
          ≡ length u.sent + length payload + n)
writes-repeat payload n m u z lt =
    let P : Ret × UpStream → Type 0 =
      λ o. (o.0 ≡ ok) × (length o.1.sent ≡ length u.sent + length payload + n) in
    let c = cut_at payload n u in
    after_cut P payload _ n u (omega arith) (
      after_cut P payload _ m c (omega arith) (
        after_rest P payload [] _ (cut_at payload m c) refl
          (refl, three_pieces u.sent payload n m u.prewrite_len z lt)))
