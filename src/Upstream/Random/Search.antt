-- ===== src/Upstream/Random/Search.antt =====
-- phl_upstream_random_random(): the binary search for the interval of a random number.
use phorklift.Prelude.{
  ℕ, zero, suc, ◌+◌, ◌-◌, ◌/◌, ◌≤◌, ◌<◌, ◌≡◌, refl, Option, some, ltb, leb, arith, if_intro,
}
use phorklift.Upstream.Random.{
  Probe, found, missed, narrowed, bisect, probe, follow, search, random,
}

-- The number lies in the interval that starts at element `m`, which is below `limit`.
abbrev pub Hit : (ℕ → ℕ) → ℕ → ℕ → ℕ → Type 0
Hit hash limit point m = (m < limit) × (hash m ≤ point) × (point < hash (suc m))

module _ (hash : ℕ → ℕ) (point limit : ℕ) where
  -- The bounds enclose the interval.
  abbrev Encloses : ℕ → ℕ → Type 0
  Encloses low top = (low < top) × (top ≤ limit) × (hash low ≤ point) × (point < hash top)

  abbrev Good : ℕ → ℕ → Probe → Type 0
  Good low top (found m) = Hit hash limit point m
  Good low top missed = ⊥
  Good low top (narrowed l t) = Encloses l t × (t - l < top - low)

  bisect-Good :
      (low top mid : ℕ)
      → Encloses low top
      → low ≤ mid
      → mid < top
      → Good low top (bisect hash point low top mid)
  unfolding bisect
  bisect-Good low top mid (lt, le, a, b) l r =
      if_intro (Good low top) (leb (hash (suc mid)) point) (narrowed (suc mid) top) _
        (λ e. ground arith)
        λ e.
          if_intro (Good low top) (ltb point (hash mid)) (narrowed low mid) (found mid)
            (λ f. ground arith) λ f. ground arith

  probe-Good : (low top : ℕ) → Encloses low top → Good low top (probe hash point low top)
  unfolding probe
  probe-Good low top h =
      if_intro (Good low top) (leb top low) missed
        (bisect hash point low top ((low + (top - 1)) / 2)) (λ e. ground arith)
        λ e. bisect-Good low top ((low + (top - 1)) / 2) h (ground arith) (ground arith)

  abbrev Found : Option ℕ → Type 0
  Found o = (m : ℕ) × (o ≡ some m) × Hit hash limit point m

  follow-Found :
      (again : ℕ → ℕ → Option ℕ) (low top : ℕ) (p : Probe)
      → Good low top p
      → ((l t : ℕ) → Encloses l t → t - l < top - low → Found (again l t))
      → Found (follow again p)
  unfolding follow
  follow-Found again low top (found m) h k = (m, refl, h)
  follow-Found again low top missed h k = elim h [ ]
  follow-Found again low top (narrowed l t) h k = k l t (h.0) (h.1)

  search-Found :
      (fuel low top : ℕ)
      → Encloses low top
      → top - low < fuel
      → Found (search hash point fuel low top)
  unfolding search
  search-Found zero low top h lt = elim lt [ ]
  search-Found (suc fuel) low top h lt =
      follow-Found _ low top (probe hash point low top) (probe-Good low top h)
        λ l t h' lt'. search-Found fuel l t h' (omega arith)

-- A number below the sum of the first `limit` weights is found, in the interval of one of them: the
-- loop ends, and the assertion behind it holds.
pub random-Hit :
    (hash : ℕ → ℕ) (limit point : ℕ)
    → hash 0 ≡ 0
    → point < hash limit
    → (m : ℕ) × (random hash limit point ≡ some m) × Hit hash limit point m
unfolding random
random-Hit hash limit point z lt =
    search-Found hash point limit (suc limit) 0 limit (ground arith) (omega arith)
