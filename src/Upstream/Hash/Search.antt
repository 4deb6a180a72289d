-- ===== src/Upstream/Hash/Search.antt =====
-- loadbalances/phl_upstream_hash.c: which vnode the binary search ends at.
use phorklift.Prelude.{
  ℕ, zero, suc, ◌+◌, ◌-◌, ◌/◌, ◌<◌, ◌≤◌, ◌≡◌, ◌⊎◌, inl, inr, refl, Option, none, some, ltb, leb,
  ◌==◌, if◌then◌else◌, arith, if_intro, subst, sym,
}
use phorklift.Upstream.Hash.{Found, unfinished, place, place_of, search}

module _ (hash : ℕ → ℕ) (key num : ℕ) where
  -- No other vnode lies between the key and this one.
  pub record IsAdjacent (v : ℕ) : Type 0 where
    pub inside : v < num
    pub below : (i : ℕ) → i < v → hash i ≤ key
    pub above : (i : ℕ) → v < i → i < num → key ≤ hash i

  -- What the search has left out, where it looks, and the vnode it looked at last.
  pub record IsNarrowed (low top : ℕ) (last : Option ℕ) : Type 0 where
    pub ordered : low ≤ top
    pub inside : top ≤ num
    pub left_out : (i : ℕ) → i < low → hash i < key
    pub right_out : (i : ℕ) → top ≤ i → i < num → key < hash i
    pub seen :
        ((last ≡ none) × (low ≡ 0) × (top ≡ num))
        ⊎ ((v : ℕ) × (last ≡ some v) × (v < num) × ((suc v ≡ low) ⊎ (v ≡ top)))

  abbrev pub Lands : Found → Type 0
  Lands (place v) = IsAdjacent v
  Lands _ = ⊥

  place_of-Lands : (low : ℕ) (o : Option ℕ) → 0 < num → IsNarrowed low low o → Lands (place_of o)
  unfolding place_of
  place_of-Lands low none pos h =
      let no : ⊥ = elim h.seen [ inl e ↦ omega (arith, e.1, e.2) | inr w ↦ cc ] in elim no [ ]
  place_of-Lands low (some v) pos h = elim h.seen [
    | inl e ↦ cc
    | inr w ↦
        let (v', e, lt, near) = w in
        let same : v ≡ v' = cc in
        record {
          inside = ground (arith, near, same, lt);
          below = λ i l. ground (arith, h.left_out i, near, same);
          above = λ i l l'. ground (arith, h.right_out i, near, same);
        }
  ]

  module _ (sorted : (i j : ℕ) → i ≤ j → j < num → hash i ≤ hash j) (pos : 0 < num) where
    search_from-Lands :
        (fuel low top : ℕ) (o : Option ℕ)
        → top - low ≤ fuel
        → IsNarrowed low top o
        → Lands (search hash key fuel low top o)
    unfolding search
    search_from-Lands zero low top o f h = go
      where
        same : low ≡ top
        same = ground (arith, h.ordered)

        go : Lands (if leb top low then place_of o else unfinished)
        go =
            if_intro Lands (leb top low) _ _
              (λ e. place_of-Lands low o pos (subst (λ t. IsNarrowed low t o) (sym same) h))
              (λ e. let no : ⊥ = ground arith in elim no [ ])
    search_from-Lands (suc fuel) low top o f h =
        let mid = (low + (top - 1)) / 2 in
        if_intro Lands (leb top low) _ _
          (λ e.
            place_of-Lands low o pos
              (subst (λ t. IsNarrowed low t o) (ground (arith, h.ordered)) h))
          (λ e.
            let between : (low ≤ mid) × (mid < top) = (ground (arith, h.ordered), ground arith) in
            if_intro Lands (hash mid == key) _ _
              (λ e'. record {
                inside = omega (arith, between.1, h.inside);
                below = λ i l. ground (arith, sorted i mid, h.inside, between);
                above = λ i l l'. ground (arith, sorted mid i);
              })
              (λ e'.
                if_intro Lands (ltb (hash mid) key) _ _
                  (λ e''.
                    search_from-Lands fuel (suc mid) top (some mid) (omega (arith, between.0, f))
                      (record {
                        ordered = omega (arith, between.1);
                        inside = h.inside;
                        left_out = λ i l. ground (arith, sorted i mid, h.inside, between);
                        right_out = h.right_out;
                        seen = inr (mid, refl, omega (arith, between.1, h.inside), inl refl);
                      }))
                  (λ e''.
                    search_from-Lands fuel low mid (some mid) (omega (arith, between, f)) (record {
                      ordered = between.0;
                      inside = omega (arith, between.1, h.inside);
                      left_out = h.left_out;
                      right_out = λ i l l'. ground (arith, sorted mid i);
                      seen = inr (mid, refl, omega (arith, between.1, h.inside), inr refl);
                    }))))

    -- In an array of vnodes in the order of their hashes, which is not empty, the binary search ends
    -- within as many rounds as there are vnodes, at a vnode that no other one separates from the key.
    pub search-Lands : Lands (search hash key num 0 num none)
    search-Lands = search_from-Lands num 0 num none (omega arith) (record {
      ordered = omega arith;
      inside = omega arith;
      left_out = λ i l. ground arith;
      right_out = λ i l l'. ground arith;
      seen = inl (refl, refl, refl);
    })
