-- ===== src/Upstream/Random/Sums.antt =====
-- phl_upstream_random.c: the sums of weights through updates, expiries and recoveries.
use native.Mathlib.Decide.{dec_lt}
use phorklift.Prelude.{
  ℕ, zero, suc, ◌+◌, ◌-◌, ◌≤◌, ◌<◌, ◌≡◌, refl, sym, ◌∙◌, ap, ◌&&◌, List, [], ◌∷◌, length, ltb, leb,
  ◌==◌, if◌then◌else◌, arith, if_intro,
}
use phorklift.Upstream.Random.{
  Ctx, sum, nth, nth, update_from, update, swapped, exchange, expire, recover,
}

module _ (weight : ℕ → ℕ) where
  -- Each element of the array holds the sum of the weights before it, up to the sentinel.
  pub record IsSummed (ctx : Ctx) : Type 0 where
    pub sums : (i : ℕ) → i ≤ ctx.total_num → ctx.hash i ≡ sum (λ k. weight (ctx.address k)) i
    pub bound : ctx.available_num ≤ ctx.total_num

  sum_below :
      (f : ℕ → ℕ) (i j n : ℕ)
      → i < j
      → n ≤ i
      → sum (λ k. weight (swapped i j f k)) n ≡ sum (λ k. weight (f k)) n
  unfolding sum
  sum_below f i j zero lt le = refl
  sum_below f i j (suc n) lt le = let h = sum_below f i j n lt (omega arith) in ground (arith, h)

  sum_between :
      (f : ℕ → ℕ) (i j n : ℕ)
      → i < n
      → n ≤ j
      → sum (λ k. weight (swapped i j f k)) n + weight (f i)
        ≡ sum (λ k. weight (f k)) n + weight (f j)
  unfolding sum
  sum_between f i j zero lt le = omega arith
  sum_between f i j (suc n) lt le = elim (dec_lt i n) [
    | yes more ↦ let h = sum_between f i j n more (omega arith) in ground (arith, h)
    | no last ↦ let h = sum_below f i j n (omega arith) (omega arith) in ground (arith, h)
  ]

  sum_above :
      (f : ℕ → ℕ) (i j n : ℕ)
      → i < j
      → j < n
      → sum (λ k. weight (swapped i j f k)) n ≡ sum (λ k. weight (f k)) n
  unfolding sum
  sum_above f i j zero lt le = omega arith
  sum_above f i j (suc n) lt le = elim (dec_lt j n) [
    | yes more ↦ let h = sum_above f i j n lt more in ground (arith, h)
    | no last ↦ let h = sum_between f i j n (omega arith) (omega arith) in ground (arith, h)
  ]

  exchanged_sum :
      (ctx : Ctx) (i j k : ℕ)
      → IsSummed ctx
      → i < j
      → j < ctx.total_num
      → k ≤ ctx.total_num
      → (if ltb i k && leb k j
          then (ctx.hash k + weight (ctx.address j)) - weight (ctx.address i)
          else ctx.hash k)
        ≡ sum (λ m. weight (swapped i j ctx.address m)) k
  exchanged_sum ctx i j k good apart lt h = elim (dec_lt i k) [
    | no before ↦
        let e = sum_below ctx.address i j k apart (omega arith) in ground (arith, e, good.sums k h)
    | yes behind ↦ elim (dec_lt j k) [
      | yes after ↦
          let e = sum_above ctx.address i j k apart after in ground (arith, e, good.sums k h)
      | no inside ↦
          let e = sum_between ctx.address i j k behind (omega arith) in
          ground (arith, e, good.sums k h)
    ]
  ]

  -- An exchange of two addresses of the array, as at an expiry or a recovery, keeps every element at
  -- the sum of the weights before it.
  pub exchange-IsSummed :
      (ctx : Ctx) (i j : ℕ)
      → IsSummed ctx
      → i ≤ j
      → j < ctx.total_num
      → IsSummed (exchange weight ctx i j)
  unfolding exchange
  exchange-IsSummed ctx i j good le lt =
      if_intro IsSummed (i == j) ctx _ (λ same. good)
        λ apart. record {
          sums = λ k h. exchanged_sum ctx i j k good (ground arith) lt h;
          bound = good.bound;
        }

  add_assoc : (a b c : ℕ) → (a + b) + c ≡ a + (b + c)
  add_assoc a b c = omega arith

  sum_shift : (f : ℕ → ℕ) (n : ℕ) → sum f (suc n) ≡ f 0 + sum (λ k. f (suc k)) n
  unfolding sum
  sum_shift f zero = omega arith
  sum_shift f (suc n) = let h = sum_shift f n in omega arith

  update_sums :
      (hash : ℕ) (addresses : List ℕ) (i : ℕ)
      → i ≤ length addresses
      → update_from weight hash addresses i ≡ hash + sum (λ k. weight (nth addresses k)) i
  unfolding update_from sum nth
  update_sums hash [] zero le = omega arith
  update_sums hash [] (suc i) le = omega arith
  update_sums hash (a ∷ rest) zero le = omega arith
  update_sums hash (a ∷ rest) (suc i) le =
      let h = update_sums (hash + weight a) rest i (omega arith) in
      let e = sum_shift (λ k. weight (nth (a ∷ rest) k)) i in
      h ∙ add_assoc hash (weight a) _ ∙ ap (λ z. hash + z) (sym e)

  -- phl_upstream_random_update() sets the sums up, whatever the list of addresses.
  pub update-IsSummed : (addresses : List ℕ) → IsSummed (update weight addresses)
  unfolding update
  update-IsSummed addresses = record {
    sums = λ i h. update_sums 0 addresses i h ∙ omega arith;
    bound = omega arith;
  }

  pub expire-IsSummed :
      (ctx : Ctx) (down : ℕ)
      → IsSummed ctx
      → down < ctx.available_num
      → IsSummed (expire weight ctx down)
  unfolding expire
  expire-IsSummed ctx down good lt =
      exchange-IsSummed _ down (ctx.available_num - 1)
        (record { sums = good.sums; bound = ground (arith, good.bound) }) (omega arith)
        (ground (arith, good.bound))

  pub recover-IsSummed :
      (ctx : Ctx) (recov : ℕ)
      → IsSummed ctx
      → ctx.available_num ≤ recov
      → recov < ctx.total_num
      → IsSummed (recover weight ctx recov)
  unfolding recover
  recover-IsSummed ctx recov good le lt =
      exchange-IsSummed _ ctx.available_num recov (record { sums = good.sums; bound = omega arith })
        le lt
