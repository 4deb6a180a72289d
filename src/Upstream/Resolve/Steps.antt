-- ===== src/Upstream/Resolve/Steps.antt =====
-- phl_upstream_resolve_hostname() in phl_upstream_resolve.c: one step of a round.
use phorklift.Prelude.{
  ℕ, zero, suc, ◌+◌, ◌-◌, ◌≤◌, ◌<◌, ◌≡◌, refl, Bool, true, false, ◌⊎◌, Option, none, some, List, [],
  ◌∷◌, ◌++◌, length, drop, if◌then◌else◌, ap, sym, ◌∙◌, arith, inl, inr, if_intro, Bool-cases,
  length-drop,
}
use mathlib.Core.List.{append-nil, append_assoc}
use phorklift.Upstream.Resolve.{Hostname, Upstream}
use phorklift.Upstream.Resolve.Rounds.{
  address_delete, clear, updated, finish, next_hostname, resolve_hostname,
}

-- Which hostnames are to be resolved.
abbrev pub needs : List Hostname → List Bool
needs [] = []
needs (h ∷ hs) = h.need_resolved ∷ needs hs

-- The indices of them, from one on.
unfoldable pub needed : ℕ → List Bool → List ℕ
needed i [] = []
needed i (b ∷ bs) = let rest = needed (suc i) bs in if b then i ∷ rest else rest

-- The hostnames from an index on: none is left, or the one `j` further on is the next.
abbrev Next : ℕ → List Hostname → Type 0
Next i hs =
    ((next_hostname i hs ≡ none) × (needed i (needs hs) ≡ []))
    ⊎ ((j : ℕ) × (j < length hs)
        × (next_hostname i hs ≡ some (suc (i + j)))
        × (needed i (needs hs) ≡ (i + j) ∷ needed (suc (i + j)) (drop (suc j) (needs hs))))

next-here :
    (i : ℕ) (h : Hostname) (hs : List Hostname)
    → h.need_resolved ≡ true
    → (next_hostname i (h ∷ hs) ≡ some (suc i))
      × (needed i (needs (h ∷ hs)) ≡ i ∷ needed (suc i) (needs hs))
unfolding next_hostname needed
next-here i h hs e = (rw e, rw e)

next-there :
    (i : ℕ) (h : Hostname) (hs : List Hostname)
    → h.need_resolved ≡ false
    → (next_hostname i (h ∷ hs) ≡ next_hostname (suc i) hs)
      × (needed i (needs (h ∷ hs)) ≡ needed (suc i) (needs hs))
unfolding next_hostname needed
next-there i h hs e = (rw e, rw e)

next-cases : (i : ℕ) (hs : List Hostname) → Next i hs
unfolding next_hostname needed
next-cases i [] = inl (refl, refl)
next-cases i (h ∷ hs) = go (Bool-cases h.need_resolved) (next-cases (suc i) hs)
  where
    go : (h.need_resolved ≡ true) ⊎ (h.need_resolved ≡ false) → Next (suc i) hs → Next i (h ∷ hs)
    go (inl t) later =
        let here = next-here i h hs t in
        let z : i + 0 ≡ i = omega arith in
        inr (
          0,
          omega arith,
          here.0 ∙ ap (λ k. some (suc k)) (sym z),
          here.1 ∙ ap (λ k. k ∷ needed (suc k) (needs hs)) (sym z),
        )
    go (inr f) (inl later) =
        let there = next-there i h hs f in inl (there.0 ∙ later.0, there.1 ∙ later.1)
    go (inr f) (inr (j, l, n, e)) =
        let there = next-there i h hs f in
        let z : suc i + j ≡ i + suc j = omega arith in
        inr (
          suc j,
          omega arith,
          there.0 ∙ n ∙ ap (λ k. some (suc k)) z,
          there.1 ∙ e ∙ ap (λ k. k ∷ needed (suc k) (drop (suc j) (needs hs))) z,
        )

needs-drop : (n : ℕ) (hs : List Hostname) → needs (drop n hs) ≡ drop n (needs hs)
needs-drop zero hs = refl
needs-drop (suc n) [] = refl
needs-drop (suc n) (h ∷ hs) = needs-drop n hs

drop-nil : (n : ℕ) → drop {A = Bool} n [] ≡ []
drop-nil zero = refl
drop-nil (suc n) = refl

drop-drop : (a b : ℕ) (l : List Bool) → drop a (drop b l) ≡ drop (b + a) l
drop-drop a zero l = ap (λ n. drop n l) (omega arith)
drop-drop a (suc b) [] = drop-nil a ∙ sym (drop-nil (suc b + a))
drop-drop a (suc b) (x ∷ l) =
    let z : suc (b + a) ≡ suc b + a = omega arith in drop-drop a b l ∙ ap (λ n. drop n (x ∷ l)) z

-- The end of a round leaves what was asked, and is ready for the next.
clear-asked :
    (ids : List ℕ) (u : Upstream)
    → ((clear ids u).asked ≡ u.asked) × ((clear ids u).resolve_index ≡ u.resolve_index)
unfolding clear address_delete
clear-asked [] u = (refl, refl)
clear-asked (i ∷ ids) u =
    if_intro
      (λ (v : Upstream).
        ((clear ids v).asked ≡ u.asked) × ((clear ids v).resolve_index ≡ u.resolve_index))
      ((u.store i).resolve_deleted) _ _ (λ t. clear-asked ids (address_delete i u))
      (λ f. clear-asked ids _)

updated-asked :
    (u : Upstream) → ((updated u).asked ≡ u.asked) × ((updated u).resolve_index ≡ u.resolve_index)
unfolding updated
updated-asked u =
    if_intro (λ (v : Upstream). (v.asked ≡ u.asked) × (v.resolve_index ≡ u.resolve_index)) _ _ _
      (λ t. (refl, refl)) (λ f. (refl, refl))

pub finish-asked : (u : Upstream) → ((finish u).asked ≡ u.asked) × ((finish u).resolve_index ≡ 0)
unfolding finish
finish-asked u =
    let w = record u { resolve_index = 0; address_num = 0 } in
    let c = clear-asked u.address_head w in
    let x = updated-asked (clear u.address_head w) in
    if_intro (λ (v : Upstream). (v.asked ≡ u.asked) × (v.resolve_index ≡ 0)) u.resolve_updated _ _
      (λ t. (x.0 ∙ c.0, x.1 ∙ c.1)) (λ f. (refl, refl))

-- The hostnames that a step still has to ask for.
abbrev pub left : Upstream → List ℕ
left u = needed u.resolve_index (drop u.resolve_index (needs u.hostnames))

-- A step ends the round, when no hostname is left, or asks for the next.
abbrev pub Stepped : Upstream → Upstream → Type 0
Stepped u v =
    ((v.resolve_index ≡ 0) × (v.asked ≡ u.asked ++ left u))
    ⊎ ((u.resolve_index < v.resolve_index)
        × (v.resolve_index ≤ length v.hostnames)
        × (needs v.hostnames ≡ needs u.hostnames)
        × (v.asked ++ left v ≡ u.asked ++ left u))

abbrev or_zero : Option ℕ → ℕ
or_zero none = 0
or_zero (some k) = k

pub resolve_hostname-Stepped : (u : Upstream) → Stepped u (resolve_hostname u)
unfolding resolve_hostname
resolve_hostname-Stepped u =
    go (next_hostname u.resolve_index (drop u.resolve_index u.hostnames)) refl
      (next-cases u.resolve_index (drop u.resolve_index u.hostnames))
  where
    i : ℕ
    i = u.resolve_index

    hs : List Hostname
    hs = drop u.resolve_index u.hostnames

    go :
        (o : Option ℕ)
        → next_hostname i hs ≡ o
        → Next i hs
        → Stepped u (elim o [
          | some k ↦ record u { resolve_index = k; asked = u.asked ++ (k - 1) ∷ [] }
          | none ↦ finish u
        ])
    go none e (inl n) = inl (
      (finish-asked u).1,
      (finish-asked u).0
          ∙ sym (append-nil u.asked)
          ∙ ap (λ l. u.asked ++ l) (sym (ap (needed i) (sym (needs-drop i u.hostnames)) ∙ n.1)),
    )
    go none e (inr x) = let no : ⊥ = cc in elim no [ ]
    go (some k) e (inl n) = let no : ⊥ = cc in elim no [ ]
    go (some k) e (inr (j, l, n, f)) =
        let same : some k ≡ some (suc (i + j)) = sym e ∙ n in
        let at_k : k ≡ suc (i + j) = ap (or_zero) same in
        let sum : i + suc j ≡ suc (i + j) = omega arith in
        let pred : i + j ≡ k - 1 = omega arith in
        let count = length-drop i u.hostnames in
        let rest = needed k (drop k (needs u.hostnames)) in
        let tail : needed (suc (i + j)) (drop (suc j) (needs hs)) ≡ rest =
          ap (λ l. needed (suc (i + j)) (drop (suc j) l)) (needs-drop i u.hostnames)
          ∙ ap (needed (suc (i + j))) (drop-drop (suc j) i (needs u.hostnames))
          ∙ ap (λ n. needed (suc (i + j)) (drop n (needs u.hostnames))) sum
          ∙ ap (λ n. needed n (drop n (needs u.hostnames))) (sym at_k) in
        let all : left u ≡ (k - 1) ∷ rest =
          ap (needed i) (sym (needs-drop i u.hostnames))
          ∙ f
          ∙ ap (λ l. (i + j) ∷ l) tail
          ∙ ap (λ n. n ∷ rest) pred in
        inr (
          omega arith,
          omega arith,
          refl,
          append_assoc u.asked ((k - 1) ∷ []) rest ∙ ap (λ l. u.asked ++ l) (sym all),
        )
