-- ===== src/Upstream/Hash/Picking.antt =====
-- loadbalances/phl_upstream_hash.c: what phl_upstream_hash_pick() returns.
use phorklift.Prelude.{
  ℕ, zero, suc, ◌<◌, ◌≤◌, ◌≡◌, inl, inr, refl, Bool, true, false, Option, none, some, List, [], ◌∷◌,
  length, take, drop, arith, if_intro, sym, subst, ap, ◌∙◌,
}
use phorklift.Upstream.Hash.{
  Vnode, Ring, vnode_num, rounds, any_negative, all_vnodes, update, hash_at, Found, nowhere,
  unfinished, place, first_pickable, address_at, or_else, around, search, pick,
}
use phorklift.Upstream.Hash.Search.{IsAdjacent, Lands, search-Lands}
use phorklift.Upstream.Hash.Members.{
  InRing, Listed, all_vnodes-InRing, all_vnodes-Listed, InRing-length, InRing-drop, InRing-take,
  InRing-parts,
}

-- An order by hashes, with the same vnodes: `qsort` of the C library.
pub record IsSorting (qsort : List Vnode → List Vnode) : Type 0 where
  pub keeps : (a : ℕ) (vs : List Vnode) → InRing a vs → InRing a (qsort vs)
  pub adds_none : (a : ℕ) (vs : List Vnode) → InRing a (qsort vs) → InRing a vs
  pub sorted :
      (vs : List Vnode) (i j : ℕ)
      → i ≤ j
      → j < length (qsort vs)
      → hash_at (qsort vs) i ≤ hash_at (qsort vs) j

abbrev or_zero : Option ℕ → ℕ
or_zero none = 0
or_zero (some n) = n

module _ (is_pickable : ℕ → Bool) where
  -- What the scan of some vnodes finds.
  abbrev Scans : List Vnode → Option ℕ → Type 0
  Scans vs none = (b : ℕ) → InRing b vs → is_pickable b ≡ false
  Scans vs (some a) = InRing a vs × (is_pickable a ≡ true)

  Scans-cons :
      (v : Vnode) (vs : List Vnode) (o : Option ℕ)
      → is_pickable v.address ≡ false
      → Scans vs o
      → Scans (v ∷ vs) o
  Scans-cons v vs none e h =
      λ b k. elim k [ inl e' ↦ subst (λ a. is_pickable a ≡ false) e' e | inr k' ↦ h b k' ]
  Scans-cons v vs (some a) e h = (inr h.0, h.1)

  first_pickable-Scans : (vs : List Vnode) → Scans vs (first_pickable is_pickable vs)
  unfolding first_pickable
  first_pickable-Scans [] = λ b h. elim h [ ]
  first_pickable-Scans (v ∷ vs) =
      if_intro (Scans (v ∷ vs)) (is_pickable v.address) _ _ (λ e. (inl refl, e))
        (λ e. Scans-cons v vs _ e (first_pickable-Scans vs))

  -- An address of the ring, pickable if any address of the ring is.
  abbrev pub Chosen : List Vnode → Option ℕ → Type 0
  Chosen vs none = ⊥
  Chosen vs (some a) =
      InRing a vs × ((b : ℕ) → InRing b vs → is_pickable b ≡ true → is_pickable a ≡ true)

  address_at-InRing :
      (vs : List Vnode) (i : ℕ) → i < length vs → (a : ℕ) × (address_at vs i ≡ some a) × InRing a vs
  unfolding address_at
  address_at-InRing [] i h = let no : ⊥ = omega arith in elim no [ ]
  address_at-InRing (v ∷ vs) zero h = (v.address, refl, inl refl)
  address_at-InRing (v ∷ vs) (suc i) h =
      let (a, e, k) = address_at-InRing vs i (omega arith) in (a, e, inr k)

  or_else-Chosen :
      (vs : List Vnode) (i : ℕ) (o o' : Option ℕ)
      → i < length vs
      → Scans (drop i vs) o
      → Scans (take i vs) o'
      → Chosen vs (or_else o (or_else o' (address_at vs i)))
  unfolding or_else
  or_else-Chosen vs i (some a) o' h s s' = (InRing-drop a i vs s.0, λ b k e. s.1)
  or_else-Chosen vs i none (some a) h s s' = (InRing-take a i vs s'.0, λ b k e. s'.1)
  or_else-Chosen vs i none none h s s' =
      let (a, e, k) = address_at-InRing vs i h in
      subst (Chosen vs) (sym e) (
        k,
        λ b k' e'. elim (InRing-parts b i vs k') [
          | inl d ↦ let no : ⊥ = bool_clash (s b d) e' in elim no [ ]
          | inr t ↦ let no : ⊥ = bool_clash (s' b t) e' in elim no [ ]
        ],
      )
    where
      bool_clash : {x : Bool} → x ≡ false → x ≡ true → ⊥
      bool_clash f t = cc

  around-Chosen :
      (vs : List Vnode) (key : ℕ) (f : Found)
      → Lands (hash_at vs) key (length vs) f
      → Chosen vs (around is_pickable vs f)
  unfolding around
  around-Chosen vs key nowhere h = h
  around-Chosen vs key unfinished h = h
  around-Chosen vs key (place i) h =
      or_else-Chosen vs i _ _ h.inside (first_pickable-Scans (drop i vs))
        (first_pickable-Scans (take i vs))

  address_at-first :
      (vs : List Vnode) (i a : ℕ)
      → address_at vs i ≡ some a
      → is_pickable a ≡ true
      → first_pickable is_pickable (drop i vs) ≡ some a
  unfolding address_at first_pickable
  address_at-first [] i a e h = let no : ⊥ = cc in elim no [ ]
  address_at-first (v ∷ vs) zero a e h =
      let same : v.address ≡ a = ap or_zero e in
      let up : is_pickable v.address ≡ true = ap is_pickable same ∙ h in
      if_intro (λ o. o ≡ some a) (is_pickable v.address) _ _ (λ t. ap some same)
        (λ f. let no : ⊥ = cc in elim no [ ])
  address_at-first (v ∷ vs) (suc i) a e h = address_at-first vs i a e h

  -- The address of the vnode that stands next to the key, if that is pickable.
  abbrev pub Nearest : List Vnode → ℕ → Option ℕ → Type 0
  Nearest vs key o =
      (i : ℕ) × (near : ℕ) × IsAdjacent (hash_at vs) key (length vs) i
      × (address_at vs i ≡ some near)
      × (is_pickable near ≡ true → o ≡ some near)

  around-Nearest :
      (vs : List Vnode) (key : ℕ) (f : Found)
      → Lands (hash_at vs) key (length vs) f
      → Nearest vs key (around is_pickable vs f)
  unfolding around or_else
  around-Nearest vs key nowhere h = elim h [ ]
  around-Nearest vs key unfinished h = elim h [ ]
  around-Nearest vs key (place i) h =
      let (near, e, k) = address_at-InRing vs i h.inside in
      (
        i,
        near,
        h,
        e,
        λ up.
            ap (λ o. or_else o (or_else (first_pickable is_pickable (take i vs)) (address_at vs i)))
              (address_at-first vs i near e up),
      )

  -- What a pick from a ring of these addresses gives for the hash of a key.
  pub record Answers (ring : Ring) (addresses : List ℕ) (key : ℕ) (vs : List Vnode) : Type 0 where
    pub picked : ℕ
    pub picks : pick is_pickable vs key ≡ some picked
    pub listed : Listed picked addresses
    pub nearest : Nearest vs key (some picked)
    pub preferred :
        (b : ℕ)
        → Listed b addresses
        → 0 < rounds (vnode_num ring b)
        → is_pickable b ≡ true
        → is_pickable picked ≡ true

  update-Answers :
      (ring : Ring) (addresses : List ℕ) (key first : ℕ)
      → IsSorting ring.qsort
      → Listed first addresses
      → 0 < rounds (vnode_num ring first)
      → Answers ring addresses key (ring.qsort (all_vnodes ring addresses))
  unfolding pick
  update-Answers ring addresses key first sorting h pos = reads _ refl chosen nearest
    where
      vs : List Vnode
      vs = ring.qsort (all_vnodes ring addresses)

      held : (b : ℕ) → Listed b addresses → 0 < rounds (vnode_num ring b) → InRing b vs
      held b l p = sorting.keeps b _ (all_vnodes-InRing ring addresses b l p)

      lands :
          Lands
            (hash_at vs)
            key
            (length vs)
            (search (hash_at vs) key (length vs) 0 (length vs) none)
      lands =
          search-Lands (hash_at vs) key (length vs) (sorting.sorted _)
            (InRing-length first vs (held first h pos))

      chosen : Chosen vs (pick is_pickable vs key)
      chosen = around-Chosen vs key _ lands

      nearest : Nearest vs key (pick is_pickable vs key)
      nearest = around-Nearest vs key _ lands

      reads :
          (o : Option ℕ)
          → pick is_pickable vs key ≡ o
          → Chosen vs (pick is_pickable vs key)
          → Nearest vs key (pick is_pickable vs key)
          → Answers ring addresses key vs
      reads none e c n = elim (subst (Chosen vs) e c) [ ]
      reads (some a) e c n =
          let (k, better) = subst (Chosen vs) e c in
          record {
            picked = a;
            picks = e;
            listed = all_vnodes-Listed ring addresses a (sorting.adds_none a _ k);
            nearest = subst (Nearest vs key) e n;
            preferred = λ b l p. better b (held b l p);
          }

  -- From a list of addresses of which none has a negative number of vnodes and one has some,
  -- phl_upstream_hash_update() makes a ring, and whatever the hash of the key, an address of the list is
  -- picked. In the ring, all vnodes before a certain one have hashes that are not above that of the key,
  -- and all behind it hashes that are not below; it is the address of this vnode that is picked if it
  -- is pickable. The address that is picked is pickable if any of the list is that has vnodes. `qsort`
  -- puts the vnodes in the order of their hashes and keeps them.
  pub pick-update :
      (ring : Ring) (addresses : List ℕ) (key first : ℕ)
      → IsSorting ring.qsort
      → any_negative ring addresses ≡ false
      → Listed first addresses
      → 0 < rounds (vnode_num ring first)
      → (vs : List Vnode) × (update ring addresses ≡ some vs) × Answers ring addresses key vs
  unfolding update
  pick-update ring addresses key first sorting none_negative h pos =
      (_, rw none_negative, update-Answers ring addresses key first sorting h pos)
