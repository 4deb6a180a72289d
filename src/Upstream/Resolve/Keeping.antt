-- ===== src/Upstream/Resolve/Keeping.antt =====
-- phl_upstream_resolve_on_read() in phl_upstream_resolve.c: which addresses an answer leaves as they
-- are.
use phorklift.Prelude.{
  ℕ, ◌<◌, ◌≡◌, refl, true, false, ◌⊎◌, Option, some, List, [], ◌∷◌, map, ◌==◌, ap, sym, ◌∙◌, arith,
  inl, inr, subst, All,
}
use phorklift.Upstream.Resolve.{Sock, Hostname, Upstream, Making, has, address_add}
use phorklift.Upstream.Resolve.Diff.{Merged, with_node, mark, added, against, diff}
use phorklift.Upstream.Resolve.Replies.{
  IsAddrCmp, Sound, Rest, diff-Took, Took, Sound-mark, Sound-added, write-other, ne_of_lt,
  eq_of_compare,
}
use phorklift.Upstream.Resolve.Clearing.{has-here, has-there}
use Prim.Native.Nat.{Ordering, compare}

-- In strict order.
abbrev pub Ascending : List ℕ → Type 0
Ascending [] = Unit
Ascending (k ∷ l) = All (λ x. k < x) l × Ascending l

above : (k x : ℕ) (l : List ℕ) → All (λ y. k < y) l → has x l ≡ true → k < x
unfolding has
above k x [] a h = let no : ⊥ = cc in elim no [ ]
above k x (y ∷ l) (b, a) h = let rest = above k x l a in ground (arith, rest)

split : (i j : ℕ) (ids : List ℕ) → has i (j ∷ ids) ≡ true → (i ≡ j) ⊎ (has i ids ≡ true)
unfolding has
split i j ids h = ground arith

lt_of_compare : (a b : ℕ) → compare a b ≡ Ordering.lt → a < b
lt_of_compare a b e = ground arith

gt_of_compare : (a b : ℕ) → compare a b ≡ Ordering.gt → b < a
gt_of_compare a b e = ground arith

above-all : (a b : ℕ) (l : List ℕ) → a < b → All (λ x. b < x) l → All (λ x. a < x) l
above-all a b [] h t = tt
above-all a b (x ∷ l) h (c, t) = (omega arith, above-all a b l h t)

Sound-has : (u : Upstream) (i : ℕ) (ids : List ℕ) → Sound u ids → has i ids ≡ true → i < u.fresh
unfolding has
Sound-has u i [] s h = let no : ⊥ = cc in elim no [ ]
Sound-has u i (j ∷ ids) (b, d, n, s) h = elim (split i j ids h) [
  | inl e ↦ subst (λ k. k < u.fresh) (sym e) b
  | inr r ↦ Sound-has u i ids s r
]

apart : (i j : ℕ) (ids : List ℕ) → has i ids ≡ true → has j ids ≡ false → (i == j) ≡ false
unfolding has
apart i j [] h n = cc
apart i j (x ∷ ids) h n = let rest = apart i j ids in ground (arith, rest)

module _ (cmp : Sock → Sock → Ordering) (law : IsAddrCmp cmp) where
  open law use {rank}

  abbrev rank_of : Upstream → ℕ → ℕ
  rank_of u i = rank ((u.store i).sockaddr)

  -- The numbers of the addresses of a list, marked or not.
  unfoldable pub ranks : Upstream → List ℕ → List ℕ
  ranks u [] = []
  ranks u (i ∷ ids) = rank_of u i ∷ ranks u ids

  ranks-eq :
      (u v : Upstream) (ids : List ℕ)
      → ((i : ℕ) → has i ids ≡ true → v.store i ≡ u.store i)
      → ranks v ids ≡ ranks u ids
  unfolding ranks has
  ranks-eq u v [] e = refl
  ranks-eq u v (i ∷ ids) e =
      ap (λ x. rank (x.sockaddr) ∷ ranks v ids) (e i (has-here i ids))
      ∙ ap (λ l. rank_of u i ∷ l) (ranks-eq u v ids (λ j h. e j (has-there j i ids h)))

  has-ranks :
      (u : Upstream) (i : ℕ) (ids : List ℕ)
      → has i ids ≡ true
      → has (rank_of u i) (ranks u ids) ≡ true
  unfolding ranks has
  has-ranks u i [] h = cc
  has-ranks u i (j ∷ ids) h = elim (split i j ids h) [
    | inl e ↦
        subst (λ k. has (rank_of u i) (rank_of u k ∷ ranks u ids) ≡ true) e
          (has-here (rank_of u i) (ranks u ids))
    | inr r ↦ has-there (rank_of u i) (rank_of u j) (ranks u ids) (has-ranks u i ids r)
  ]

  abbrev Kept : List Sock → List ℕ → Upstream → Merged → Type 0
  Kept answer ids u r =
      (i : ℕ)
      → has i ids ≡ true
      → has (rank_of u i) (map rank answer) ≡ true
      → (r.1).store i ≡ u.store i

  -- An answer is among the later ones, if it is not the first.
  later_of : (s k : ℕ) (l : List ℕ) → s < k → has k (s ∷ l) ≡ true → has k l ≡ true
  unfolding has
  later_of s k l b h = ground arith

  -- An address before the first answer is not in the answer.
  missing : (s k : ℕ) (l : List ℕ) → All (λ x. s < x) l → k < s → has k (s ∷ l) ≡ true → ⊥
  missing s k l a b h = elim (split k s l h) [
    | inl e ↦ omega arith
    | inr r ↦ let c = above s k l a r in omega arith
  ]

  module _ (m : Making) (h : Hostname) where
    abbrev Keeps : List Sock → (List ℕ → Upstream → Merged) → Type 0
    Keeps answer rest =
        (ids : List ℕ) (u : Upstream)
        → Sound u ids
        → Ascending (ranks u ids)
        → Kept answer ids u (rest ids u)

    added-same :
        (s : Sock) (before : Option ℕ) (u : Upstream) (i : ℕ)
        → i < u.fresh
        → (added cmp m h s before u).store i ≡ u.store i
    unfolding added address_add
    added-same s before u i l = write-other u.store u.fresh _ i (ne_of_lt i u.fresh l)

    mark-same : (i j : ℕ) (u : Upstream) → (i == j) ≡ false → (mark j u).store i ≡ u.store i
    unfolding mark
    mark-same i j u e = write-other u.store j _ i e

    new-Kept :
        (s : Sock) (before : Option ℕ) (answer : List Sock) (ids : List ℕ) (u : Upstream)
        (rest : List ℕ → Upstream → Merged)
        → Keeps answer rest
        → Sound u ids
        → Ascending (ranks u ids)
        → All (λ x. rank s < x) (ranks u ids)
        → Kept (s ∷ answer) ids u (rest ids (added cmp m h s before u))
    new-Kept s before answer ids u rest g sound asc a i hi hr =
        let w = added cmp m h s before u in
        let old = added-same s before u in
        let same : ranks w ids ≡ ranks u ids =
          ranks-eq u w ids (λ j hj. old j (Sound-has u j ids sound hj)) in
        let here = old i (Sound-has u i ids sound hi) in
        g ids w (Sound-added cmp law m h s before ids u sound) (subst Ascending (sym same) asc) i hi
          (subst (λ x. has (rank (x.sockaddr)) (map rank answer) ≡ true) (sym here)
            (later_of (rank s) _ (map rank answer) (above (rank s) _ _ a (has-ranks u i ids hi))
              hr))
        ∙ here

    -- The next node is the answer.
    eq-Kept :
        (s : Sock) (answer : List Sock) (j : ℕ) (ids : List ℕ) (u : Upstream) (r : Merged)
        → j < u.fresh
        → has j ids ≡ false
        → rank_of u j ≡ rank s
        → Took cmp law answer ids u r
        → All (λ x. rank_of u j < x) (ranks u ids)
        → Kept answer ids u r
        → Kept (s ∷ answer) (j ∷ ids) u (with_node j r)
    eq-Kept s answer j ids u r b n e t up g i hi hr = elim (split i j ids hi) [
      | inl same ↦
          t.frame i (subst (λ k. k < u.fresh) (sym same) b)
            (subst (λ k. has k ids ≡ false) (sym same) n)
      | inr there ↦ g i there (
          let l = above (rank_of u j) _ _ up (has-ranks u i ids there) in
          later_of (rank s) _ _ (subst (λ k. k < rank_of u i) e l) hr)
    ]

    -- The next node is before the answer.
    gt-Kept :
        (s : Sock) (answer : List Sock) (j : ℕ) (ids : List ℕ) (u : Upstream) (r : Merged)
        → has j ids ≡ false
        → rank_of u j < rank s
        → All (λ x. rank s < x) (map rank answer)
        → Kept (s ∷ answer) ids (mark j u) r
        → Kept (s ∷ answer) (j ∷ ids) u (with_node j r)
    gt-Kept s answer j ids u r n l a g i hi hr = elim (split i j ids hi) [
      | inl same ↦
          let no : ⊥ =
            missing (rank s) (rank_of u i) (map rank answer) a
              (subst (λ k. rank_of u k < rank s) (sym same) l) hr in
          elim no [ ]
      | inr there ↦
          let here = mark-same i j u (apart i j ids there n) in
          g i there
            (subst (λ x. has (rank (x.sockaddr)) (map rank (s ∷ answer)) ≡ true) (sym here) hr)
          ∙ here
    ]

    against-Keeps :
        (s : Sock) (answer : List Sock) (rest : List ℕ → Upstream → Merged)
        → Rest cmp law m h answer rest
        → Keeps answer rest
        → All (λ x. rank s < x) (map rank answer)
        → Keeps (s ∷ answer) (against cmp m h s rest)
    unfolding against has ranks
    against-Keeps s answer rest f g a [] u sound asc = λ i hi hr. cc
    against-Keeps s answer rest f g a (j ∷ ids) u (b, d, n, sound) (up, asc) =
        let marked : ranks (mark j u) ids ≡ ranks u ids =
          ranks-eq u (mark j u) ids (λ i hi. mark-same i j u (apart i j ids hi n)) in
        go (cmp s ((u.store j).sockaddr)) (sym (law.compares s ((u.store j).sockaddr))) (
          against-Keeps s answer rest f g a ids (mark j u) (Sound-mark u j ids sound n)
            (subst Ascending (sym marked) asc))
      where
        go :
            (o : Ordering)
            → compare (rank s) (rank_of u j) ≡ o
            → Kept (s ∷ answer) ids (mark j u) (against cmp m h s rest ids (mark j u))
            → Kept (s ∷ answer) (j ∷ ids) u (elim o [
              | Ordering.eq ↦ with_node j (rest ids u)
              | Ordering.lt ↦ with_node u.fresh (rest (j ∷ ids) (added cmp m h s (some j) u))
              | Ordering.gt ↦ with_node j (against cmp m h s rest ids (mark j u))
            ])
        go Ordering.eq e tail =
            eq-Kept s answer j ids u (rest ids u) b n (eq_of_compare _ _ e) (f ids u sound) up
              (g ids u sound asc)
        go Ordering.lt e tail =
            let l = lt_of_compare (rank s) (rank_of u j) e in
            new-Kept s (some j) answer (j ∷ ids) u rest g (b, d, n, sound) (up, asc)
              (l, above-all (rank s) (rank_of u j) _ l up)
        go Ordering.gt e tail =
            gt-Kept s answer j ids u (against cmp m h s rest ids (mark j u)) n
              (gt_of_compare (rank s) (rank_of u j) e) a tail

    -- When the answer and the list of a hostname are in the order of the comparison, the merge leaves
    -- every address that the answer has too as it was: not marked, and with its connections and its
    -- counters. The list has no marked address and no address twice, and all are in the store.
    pub diff-Keeps :
        (answer : List Sock) (ids : List ℕ) (u : Upstream)
        → Ascending (map rank answer)
        → Sound u ids
        → Ascending (ranks u ids)
        → Kept answer ids u (diff cmp m h answer ids u)
    unfolding diff has
    diff-Keeps [] ids u asc sound up = λ i hi hr. cc
    diff-Keeps (s ∷ answer) ids u (first, asc) sound up =
        against-Keeps s answer (diff cmp m h answer) (diff-Took cmp law m h answer)
          (λ is w ws wu. diff-Keeps answer is w asc ws wu) first ids u sound up
