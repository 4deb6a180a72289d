-- ===== src/Upstream/Random/Keeping.antt =====
-- phl_upstream_random.c: which addresses the array has after expiries and recoveries.
use phorklift.Prelude.{
  ℕ, ◌-◌, ◌≤◌, ◌<◌, ◌≡◌, refl, sym, ◌∙◌, ap, Bool, false, ◌==◌, ◌⊎◌, inl, inr, if◌then◌else◌, arith,
  if_intro,
}
use native.Mathlib.Decide.{ℕ_discrete}
use phorklift.Upstream.Random.{Ctx, swapped, exchange, expire, recover}
use phorklift.Upstream.Random.Sums.{IsSummed}

-- The address stands in the array.
abbrev pub Among : Ctx → ℕ → Type 0
Among ctx a = (i : ℕ) × (i < ctx.total_num) × (a ≡ ctx.address i)

-- The array of `ctx` holds addresses of `start` only, and has its size.
abbrev pub Within : Ctx → Ctx → Type 0
Within start ctx =
    (ctx.total_num ≡ start.total_num) × ((i : ℕ) → i < ctx.total_num → Among start (ctx.address i))

-- Every address of `start` is in the array of `ctx`.
abbrev pub Covers : Ctx → Ctx → Type 0
Covers start ctx = (i : ℕ) → i < start.total_num → Among ctx (start.address i)

-- The addresses that are not available may not be used, or were not available in `start`.
abbrev pub Retired : (ℕ → Bool) → Ctx → Ctx → Type 0
Retired is_pickable start ctx =
    (i : ℕ)
    → ctx.available_num ≤ i
    → i < ctx.total_num
    → (is_pickable (ctx.address i) ≡ false)
      ⊎ ((j : ℕ) × (start.available_num ≤ j)
          × (j < start.total_num)
          × (ctx.address i ≡ start.address j))

-- The array of `ctx` has the addresses of `start` in another order, and no other address than those
-- that may not be used has been taken off the available ones.
pub record IsKept (is_pickable : ℕ → Bool) (start ctx : Ctx) : Type 0 where
  pub within : Within start ctx
  pub covers : Covers start ctx
  pub retired : Retired is_pickable start ctx

-- Where an element is after an exchange.
swapped_slot :
    (f : ℕ → ℕ) (i j k n : ℕ) → i < n → j < n → k < n → (m : ℕ) × (m < n) × (f k ≡ swapped i j f m)
swapped_slot f i j k n a b c = elim (ℕ_discrete k i) [
  | yes e ↦ (
    j,
    b,
    if_intro (λ x. f k ≡ x) (j == i) _ _ (λ t. ap f (e ∙ sym (ground (arith, t))))
        (λ t.
          if_intro (λ x. f k ≡ x) (j == j) _ _ (λ u. ap f e)
            (λ u. let no : ⊥ = ground (arith, u) in elim no [ ])),
  )
  | no d ↦ elim (ℕ_discrete k j) [
    | yes e ↦ (
      i,
      a,
      if_intro (λ x. f k ≡ x) (i == i) _ _ (λ t. ap f e)
          (λ t. let no : ⊥ = ground (arith, t) in elim no [ ]),
    )
    | no d' ↦ (
      k,
      c,
      if_intro (λ x. f k ≡ x) (k == i) _ _ (λ t. let no : ⊥ = d (ground (arith, t)) in elim no [ ])
          (λ t.
            if_intro (λ x. f k ≡ x) (k == j) _ _
              (λ u. let no : ⊥ = d' (ground (arith, u)) in elim no [ ]) (λ u. refl)),
    )
  ]
]

module _ (weight : ℕ → ℕ) where
  swapped-Among :
      (start ctx : Ctx) (i j k : ℕ)
      → Within start ctx
      → i < ctx.total_num
      → j < ctx.total_num
      → k < ctx.total_num
      → Among start (swapped i j ctx.address k)
  swapped-Among start ctx i j k (t, w) a b c =
      if_intro (Among start) (k == i) (ctx.address j)
        (if k == j then ctx.address i else ctx.address k) (λ e. w j b)
        λ e.
          if_intro (Among start) (k == j) (ctx.address i) (ctx.address k) (λ f. w i a) (λ f. w k c)

  exchange-Within :
      (start ctx : Ctx) (i j : ℕ)
      → Within start ctx
      → i < ctx.total_num
      → j < ctx.total_num
      → Within start (exchange weight ctx i j)
  unfolding exchange
  exchange-Within start ctx i j (t, w) a b =
      if_intro (Within start) (i == j) ctx _ (λ e. (t, w))
        λ e. (t, λ k c. swapped-Among start ctx i j k (t, w) a b c)

  pub expire-Within :
      (start ctx : Ctx) (i : ℕ)
      → Within start ctx
      → IsSummed weight ctx
      → i < ctx.available_num
      → Within start (expire weight ctx i)
  unfolding expire
  expire-Within start ctx i w good a =
      exchange-Within start _ i (ctx.available_num - 1) w (ground (arith, good.bound))
        (ground (arith, good.bound))

  pub exchange-Covers :
      (start ctx : Ctx) (i j : ℕ)
      → Covers start ctx
      → i < ctx.total_num
      → j < ctx.total_num
      → Covers start (exchange weight ctx i j)
  unfolding exchange
  exchange-Covers start ctx i j c a b =
      if_intro (Covers start) (i == j) ctx _ (λ e. c)
        λ e k l.
          let (s, lt, h) = c k l in
          let (m, lt', h') = swapped_slot ctx.address i j s ctx.total_num a b lt in (m, lt', h ∙ h')

  pub expire-Retired :
      (is_pickable : ℕ → Bool) (start ctx : Ctx) (m : ℕ)
      → Retired is_pickable start ctx
      → m < ctx.available_num
      → is_pickable (ctx.address m) ≡ false
      → Retired is_pickable start (expire weight ctx m)
  unfolding expire exchange
  expire-Retired is_pickable start ctx m r lt off =
      if_intro (Retired is_pickable start) (m == ctx.available_num - 1) _ _
        (λ e i le l. elim (ℕ_discrete i m) [
          | yes same ↦ inl (ap (λ k. is_pickable (ctx.address k)) same ∙ off)
          | no other ↦ r i (ground (arith, other, e)) l
        ])
        λ e i le l.
          if_intro (Reason i) (i == m) _ _ (λ t. let no : ⊥ = ground (arith, e, t) in elim no [ ])
            λ t.
              if_intro (Reason i) (i == ctx.available_num - 1) _ _ (λ u. inl off)
                (λ u. r i (ground (arith, u)) l)
    where
      Reason : ℕ → ℕ → Type 0
      Reason i a =
          (is_pickable a ≡ false)
          ⊎ ((j : ℕ) × (start.available_num ≤ j) × (j < start.total_num) × (a ≡ start.address j))

  pub recover-Retired :
      (is_pickable : ℕ → Bool) (ctx : Ctx) (m : ℕ)
      → ctx.available_num ≤ m
      → m < ctx.total_num
      → Retired is_pickable ctx (recover weight ctx m)
  unfolding recover exchange
  recover-Retired is_pickable ctx m le lt =
      if_intro (Retired is_pickable ctx) (ctx.available_num == m) _ _
        (λ e i b l. inr (i, omega arith, l, refl))
        λ e i b l.
          if_intro (Reason i) (i == ctx.available_num) _ _
            (λ t. let no : ⊥ = ground (arith, b, t) in elim no [ ])
            λ t.
              if_intro (Reason i) (i == m) _ _
                (λ u. inr (ctx.available_num, omega arith, omega arith, refl))
                (λ u. inr (i, omega arith, l, refl))
    where
      Reason : ℕ → ℕ → Type 0
      Reason i a =
          (is_pickable a ≡ false)
          ⊎ ((j : ℕ) × (ctx.available_num ≤ j) × (j < ctx.total_num) × (a ≡ ctx.address j))

  pub recover-Within :
      (start ctx : Ctx) (i : ℕ)
      → Within start ctx
      → ctx.available_num ≤ i
      → i < ctx.total_num
      → Within start (recover weight ctx i)
  unfolding recover
  recover-Within start ctx i w a b = exchange-Within start _ ctx.available_num i w (omega arith) b

  exchange_available :
      (ctx : Ctx) (i j : ℕ) → (exchange weight ctx i j).available_num ≡ ctx.available_num
  unfolding exchange
  exchange_available ctx i j =
      if_intro (λ c. c.available_num ≡ ctx.available_num) (i == j) ctx _ (λ e. refl) (λ e. refl)

  pub expire_available :
      (ctx : Ctx) (i : ℕ) → (expire weight ctx i).available_num ≡ ctx.available_num - 1
  unfolding expire
  expire_available ctx i = exchange_available _ i (ctx.available_num - 1)
