-- ===== src/Upstream/Hash/Members.antt =====
-- loadbalances/phl_upstream_hash.c: which addresses have a vnode in the ring.
use phorklift.Prelude.{
  ℕ, zero, suc, ◌<◌, ◌≡◌, ◌⊎◌, inl, inr, refl, List, [], ◌∷◌, ◌++◌, length, take, drop, arith, sym,
  subst,
}
use phorklift.Upstream.Hash.{Vnode, Ring, vnode_num, rounds, vnodes_of, all_vnodes}

-- An address has a vnode in a ring.
abbrev pub InRing : ℕ → List Vnode → Type 0
InRing a [] = ⊥
InRing a (v ∷ vs) = (v.address ≡ a) ⊎ InRing a vs

abbrev pub Listed : ℕ → List ℕ → Type 0
Listed a [] = ⊥
Listed a (b ∷ bs) = (b ≡ a) ⊎ Listed a bs

InRing-append : (a : ℕ) (vs ws : List Vnode) → InRing a vs ⊎ InRing a ws → InRing a (vs ++ ws)
InRing-append a [] ws (inl h) = elim h [ ]
InRing-append a [] ws (inr h) = h
InRing-append a (v ∷ vs) ws (inl (inl e)) = inl e
InRing-append a (v ∷ vs) ws (inl (inr h)) = inr (InRing-append a vs ws (inl h))
InRing-append a (v ∷ vs) ws (inr h) = inr (InRing-append a vs ws (inr h))

InRing-split : (a : ℕ) (vs ws : List Vnode) → InRing a (vs ++ ws) → InRing a vs ⊎ InRing a ws
InRing-split a [] ws h = inr h
InRing-split a (v ∷ vs) ws (inl e) = inl (inl e)
InRing-split a (v ∷ vs) ws (inr h) = elim (InRing-split a vs ws h) [
  | inl k ↦ inl (inr k)
  | inr k ↦ inr k
]

InRing-vnodes_of : (ring : Ring) (a i b : ℕ) → InRing b (vnodes_of ring a i) → (a ≡ b) × (0 < i)
unfolding vnodes_of
InRing-vnodes_of ring a zero b h = elim h [ ]
InRing-vnodes_of ring a (suc i) b h = elim (InRing-split b (vnodes_of ring a i) _ h) [
  | inl k ↦ ((InRing-vnodes_of ring a i b k).0, omega arith)
  | inr (inl e) ↦ (e, omega arith)
  | inr (inr k) ↦ elim k [ ]
]

vnodes_of-InRing : (ring : Ring) (a i : ℕ) → 0 < i → InRing a (vnodes_of ring a i)
unfolding vnodes_of
vnodes_of-InRing ring a zero h = let no : ⊥ = omega arith in elim no [ ]
vnodes_of-InRing ring a (suc i) h = InRing-append a (vnodes_of ring a i) _ (inr (inl refl))

pub all_vnodes-InRing :
    (ring : Ring) (xs : List ℕ) (a : ℕ)
    → Listed a xs
    → 0 < rounds (vnode_num ring a)
    → InRing a (all_vnodes ring xs)
unfolding all_vnodes
all_vnodes-InRing ring [] a h pos = h
all_vnodes-InRing ring (b ∷ bs) a (inl e) pos =
    InRing-append a (vnodes_of ring b (rounds (vnode_num ring b))) _ (
      inl (
        subst (λ c. InRing a (vnodes_of ring c (rounds (vnode_num ring c)))) (sym e)
          (vnodes_of-InRing ring a (rounds (vnode_num ring a)) pos)))
all_vnodes-InRing ring (b ∷ bs) a (inr h) pos =
    InRing-append a (vnodes_of ring b (rounds (vnode_num ring b))) _
      (inr (all_vnodes-InRing ring bs a h pos))

pub all_vnodes-Listed :
    (ring : Ring) (xs : List ℕ) (a : ℕ) → InRing a (all_vnodes ring xs) → Listed a xs
unfolding all_vnodes
all_vnodes-Listed ring [] a h = h
all_vnodes-Listed ring (b ∷ bs) a h =
    elim (InRing-split a (vnodes_of ring b (rounds (vnode_num ring b))) _ h) [
      | inl k ↦ inl (InRing-vnodes_of ring b (rounds (vnode_num ring b)) a k).0
      | inr k ↦ inr (all_vnodes-Listed ring bs a k)
    ]

pub InRing-length : (a : ℕ) (vs : List Vnode) → InRing a vs → 0 < length vs
InRing-length a [] h = elim h [ ]
InRing-length a (v ∷ vs) h = omega arith

pub InRing-drop : (a i : ℕ) (vs : List Vnode) → InRing a (drop i vs) → InRing a vs
InRing-drop a zero vs h = h
InRing-drop a (suc i) [] h = h
InRing-drop a (suc i) (v ∷ vs) h = inr (InRing-drop a i vs h)

pub InRing-take : (a i : ℕ) (vs : List Vnode) → InRing a (take i vs) → InRing a vs
InRing-take a zero vs h = elim h [ ]
InRing-take a (suc i) [] h = h
InRing-take a (suc i) (v ∷ vs) (inl e) = inl e
InRing-take a (suc i) (v ∷ vs) (inr h) = inr (InRing-take a i vs h)

pub InRing-parts :
    (a i : ℕ) (vs : List Vnode) → InRing a vs → InRing a (drop i vs) ⊎ InRing a (take i vs)
InRing-parts a zero vs h = inl h
InRing-parts a (suc i) [] h = inl h
InRing-parts a (suc i) (v ∷ vs) (inl e) = inr (inl e)
InRing-parts a (suc i) (v ∷ vs) (inr h) = elim (InRing-parts a i vs h) [
  | inl k ↦ inl k
  | inr k ↦ inr (inr k)
]
