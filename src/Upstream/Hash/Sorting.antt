-- ===== src/Upstream/Hash/Sorting.antt =====
-- An insertion sort of vnodes by their hashes, for examples of the ring.
use phorklift.Prelude.{
  ℕ, zero, suc, ◌<◌, ◌≤◌, inl, inr, List, [], ◌∷◌, length, arith, leb, if◌then◌else◌, if_intro,
}
use phorklift.Upstream.Hash.{Vnode, hash_at}
use phorklift.Upstream.Hash.Members.{InRing}
use phorklift.Upstream.Hash.Picking.{IsSorting}

unfoldable pub insert : Vnode → List Vnode → List Vnode
insert v [] = v ∷ []
insert v (w ∷ ws) = let rest = insert v ws in if leb v.hash w.hash then v ∷ w ∷ ws else w ∷ rest

unfoldable pub sort : List Vnode → List Vnode
sort [] = []
sort (v ∷ vs) = insert v (sort vs)

abbrev AllAbove : ℕ → List Vnode → Type 0
AllAbove h [] = Unit
AllAbove h (v ∷ vs) = (h ≤ v.hash) × AllAbove h vs

abbrev IsInOrder : List Vnode → Type 0
IsInOrder [] = Unit
IsInOrder (v ∷ vs) = AllAbove v.hash vs × IsInOrder vs

AllAbove-weaken : (h k : ℕ) (vs : List Vnode) → h ≤ k → AllAbove k vs → AllAbove h vs
AllAbove-weaken h k [] l a = tt
AllAbove-weaken h k (v ∷ vs) l a = (omega (arith, a.0), AllAbove-weaken h k vs l a.1)

insert-AllAbove :
    (h : ℕ) (v : Vnode) (vs : List Vnode) → h ≤ v.hash → AllAbove h vs → AllAbove h (insert v vs)
unfolding insert
insert-AllAbove h v [] l a = (l, tt)
insert-AllAbove h v (w ∷ ws) l a =
    if_intro (AllAbove h) (leb v.hash w.hash) _ _ (λ e. (l, a))
      (λ e. (a.0, insert-AllAbove h v ws l a.1))

insert-IsInOrder : (v : Vnode) (vs : List Vnode) → IsInOrder vs → IsInOrder (insert v vs)
unfolding insert
insert-IsInOrder v [] o = (tt, tt)
insert-IsInOrder v (w ∷ ws) o =
    if_intro IsInOrder (leb v.hash w.hash) _ _
      (λ e. ((ground arith, AllAbove-weaken v.hash w.hash ws (ground arith) o.0), o))
      (λ e. (insert-AllAbove w.hash v ws (ground arith) o.0, insert-IsInOrder v ws o.1))

sort-IsInOrder : (vs : List Vnode) → IsInOrder (sort vs)
unfolding sort
sort-IsInOrder [] = tt
sort-IsInOrder (v ∷ vs) = insert-IsInOrder v (sort vs) (sort-IsInOrder vs)

hash_at_above : (h : ℕ) (vs : List Vnode) (j : ℕ) → AllAbove h vs → j < length vs → h ≤ hash_at vs j
unfolding hash_at
hash_at_above h [] j a l = ground arith
hash_at_above h (v ∷ vs) zero a l = a.0
hash_at_above h (v ∷ vs) (suc j) a l = hash_at_above h vs j a.1 (omega arith)

hash_at_le :
    (vs : List Vnode) (i j : ℕ) → IsInOrder vs → i ≤ j → j < length vs → hash_at vs i ≤ hash_at vs j
unfolding hash_at
hash_at_le [] i j o l l' = ground arith
hash_at_le (v ∷ vs) zero zero o l l' = omega arith
hash_at_le (v ∷ vs) zero (suc j) o l l' = hash_at_above v.hash vs j o.0 (omega arith)
hash_at_le (v ∷ vs) (suc i) zero o l l' = ground arith
hash_at_le (v ∷ vs) (suc i) (suc j) o l l' = hash_at_le vs i j o.1 (omega arith) (omega arith)

insert-InRing : (a : ℕ) (v : Vnode) (vs : List Vnode) → InRing a (v ∷ vs) → InRing a (insert v vs)
unfolding insert
insert-InRing a v [] h = h
insert-InRing a v (w ∷ ws) h =
    if_intro (InRing a) (leb v.hash w.hash) _ _ (λ e. h)
      (λ e. elim h [
        | inl k ↦ inr (insert-InRing a v ws (inl k))
        | inr (inl k) ↦ inl k
        | inr (inr k) ↦ inr (insert-InRing a v ws (inr k))
      ])

InRing-insert : (a : ℕ) (v : Vnode) (vs : List Vnode) → InRing a (insert v vs) → InRing a (v ∷ vs)
unfolding insert
InRing-insert a v [] = λ h. h
InRing-insert a v (w ∷ ws) =
    if_intro (λ l. InRing a l → InRing a (v ∷ w ∷ ws)) (leb v.hash w.hash) _ _ (λ e h. h)
      (λ e h. elim h [
        | inl k ↦ inr (inl k)
        | inr k ↦ elim (InRing-insert a v ws k) [ inl k' ↦ inl k' | inr k' ↦ inr (inr k') ]
      ])

sort-InRing : (a : ℕ) (vs : List Vnode) → InRing a vs → InRing a (sort vs)
unfolding sort
sort-InRing a [] h = h
sort-InRing a (v ∷ vs) h =
    insert-InRing a v (sort vs) (elim h [ inl k ↦ inl k | inr k ↦ inr (sort-InRing a vs k) ])

InRing-sort : (a : ℕ) (vs : List Vnode) → InRing a (sort vs) → InRing a vs
unfolding sort
InRing-sort a [] h = h
InRing-sort a (v ∷ vs) h = elim (InRing-insert a v (sort vs) h) [
  | inl k ↦ inl k
  | inr k ↦ inr (InRing-sort a vs k)
]

pub sort-IsSorting : IsSorting sort
sort-IsSorting = record {
  keeps = sort-InRing;
  adds_none = InRing-sort;
  sorted = λ vs i j. hash_at_le (sort vs) i j (sort-IsInOrder vs);
}
