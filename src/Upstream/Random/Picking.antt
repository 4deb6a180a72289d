-- ===== src/Upstream/Random/Picking.antt =====
-- phl_upstream_random_pick(): the address that is picked.
use phorklift.Prelude.{
  ℕ, zero, suc, ◌-◌, ◌≤◌, ◌<◌, ◌≡◌, refl, sym, ◌^◌, Bool, true, false, Option, some, ltb, ◌==◌, ◌⊎◌,
  inl, inr, arith, if_intro, subst,
}
use phorklift.Upstream.Random.{
  Ctx, sum, expire, recover, draw_below, done_or, pick_again, pick_at, pick,
}
use phorklift.Upstream.Random.Search.{random-Hit}
use phorklift.Upstream.Random.Sums.{IsSummed, expire-IsSummed, recover-IsSummed}
use phorklift.Upstream.Random.Keeping.{
  Among, IsKept, expire-Within, recover-Within, exchange-Covers, expire-Retired, recover-Retired,
  expire_available,
}

module _ (weight : ℕ → ℕ) where
  module _ (positive : (a : ℕ) → 0 < weight a) (draw : ℕ → ℕ → ℕ)
      (draw_lt : (k b : ℕ) → 0 < b → draw k b < b) (is_pickable is_up : ℕ → Bool) where
    sum_pos : (f : ℕ → ℕ) (n : ℕ) → 0 < n → 0 < sum (λ k. weight (f k)) n
    unfolding sum
    sum_pos f zero h = elim h [ ]
    sum_pos f (suc n) h = ground (arith, positive (f n))

    draws :
        (k limit : ℕ) (ctx : Ctx)
        → IsSummed weight ctx
        → 0 < limit
        → limit ≤ ctx.total_num
        → (m : ℕ) × (draw_below weight draw is_pickable is_up k limit ctx ≡ some m) × (m < limit)
    unfolding sum
    draws k limit ctx good pos le =
        let z = good.sums 0 (omega arith) in
        let p = sum_pos ctx.address limit pos in
        let (m, e, h) =
          random-Hit ctx.hash limit (draw k (ctx.hash limit)) z
            (draw_lt k (ctx.hash limit) (subst (λ b. 0 < b) (sym (good.sums limit le)) p)) in
        (m, e, h.0)

    expire-IsKept :
        (start ctx : Ctx) (m : ℕ)
        → IsKept is_pickable start ctx
        → IsSummed weight ctx
        → m < ctx.available_num
        → is_pickable (ctx.address m) ≡ false
        → IsKept is_pickable start (expire weight ctx m)
    unfolding expire
    expire-IsKept start ctx m k good lt off = record {
      within = expire-Within weight start ctx m k.within good lt;
      covers =
          exchange-Covers weight start _ m (ctx.available_num - 1) k.covers
            (ground (arith, good.bound)) (ground (arith, good.bound));
      retired = expire-Retired weight is_pickable start ctx m k.retired lt off;
    }

    same-IsKept : (ctx : Ctx) → IsKept is_pickable ctx ctx
    same-IsKept ctx = record {
      within = (refl, λ i h. (i, h, refl));
      covers = λ i h. (i, h, refl);
      retired = λ i le l. inr (i, le, l, refl);
    }

    recover-IsKept :
        (ctx : Ctx) (m : ℕ)
        → ctx.available_num ≤ m
        → m < ctx.total_num
        → IsKept is_pickable ctx (recover weight ctx m)
    unfolding recover
    recover-IsKept ctx m le lt = record {
      within = recover-Within weight ctx ctx m ((same-IsKept ctx).within) le lt;
      covers =
          exchange-Covers weight ctx _ ctx.available_num m ((same-IsKept ctx).covers) (omega arith)
            lt;
      retired = recover-Retired weight is_pickable ctx m le lt;
    }

    -- An address of the array is picked, and the array is in order afterwards. The address may be
    -- used, unless all are down.
    pub record Chosen (start : Ctx) (a : ℕ) (ctx : Ctx) : Type 0 where
      pub summed : IsSummed weight ctx
      pub kept : IsKept is_pickable start ctx
      pub among : Among start a
      pub reason : (is_pickable a ≡ true) ⊎ (is_up a ≡ true) ⊎ (ctx.available_num ≡ 0)

    abbrev Picks : Ctx → Option (ℕ × Ctx) → Type 0
    Picks start o = (a : ℕ) × (ctx : Ctx) × (o ≡ some (a, ctx)) × Chosen start a ctx

    abbrev Again : Ctx → (Ctx → ℕ → Option (ℕ × Ctx)) → Ctx → Type 0
    Again start retry ctx =
        (ctx' : Ctx) (a : ℕ)
        → IsSummed weight ctx'
        → IsKept is_pickable start ctx'
        → Among start a
        → ctx'.available_num ≡ ctx.available_num - 1
        → Picks start (retry ctx' a)

    done_or-Picks :
        (start ctx : Ctx) (retry : Ctx → ℕ → Option (ℕ × Ctx)) (m : ℕ)
        → IsSummed weight ctx
        → IsKept is_pickable start ctx
        → m < ctx.available_num
        → Again start retry ctx
        → Picks start (done_or weight draw is_pickable is_up retry ctx (some m))
    unfolding done_or
    done_or-Picks start ctx retry m good w lt again =
        let inside = w.within.1 m (ground (arith, good.bound)) in
        if_intro (Picks start) (is_pickable (ctx.address m)) _ _
          (λ e. (_, _, refl, record { summed = good; kept = w; among = inside; reason = inl e }))
          λ e.
            again (expire weight ctx m) (ctx.address m) (expire-IsSummed weight ctx m good lt)
              (expire-IsKept start ctx m w good lt e) inside (expire_available weight ctx m)

    pick_again-Picks :
        (fuel k : ℕ) (start ctx : Ctx) (a : ℕ)
        → IsSummed weight ctx
        → IsKept is_pickable start ctx
        → Among start a
        → ctx.available_num < fuel
        → Picks start (pick_again weight draw is_pickable is_up fuel k ctx a)
    unfolding pick_again
    pick_again-Picks zero k start ctx a good w inside lt = elim lt [ ]
    pick_again-Picks (suc fuel) k start ctx a good w inside lt =
        if_intro (Picks start) (ctx.available_num == 0) _ _
          (λ e. (
            _,
            _,
            refl,
            record { summed = good; kept = w; among = inside; reason = inr (inr (ground arith)) },
          ))
          λ e.
            let (m, d, h) = draws k ctx.available_num ctx good (ground arith) good.bound in
            subst
              (λ o. Picks start (
                done_or weight draw is_pickable is_up
                  (pick_again weight draw is_pickable is_up fuel (suc k)) ctx o))
              (sym d)
              (done_or-Picks start ctx _ m good w h λ ctx' a' good' w' inside' e'.
                pick_again-Picks fuel (suc k) start ctx' a' good' w' inside' (omega arith))

    pick_at-Picks :
        (fuel : ℕ) (ctx : Ctx) (m : ℕ)
        → IsSummed weight ctx
        → m < ctx.total_num
        → ctx.total_num < fuel
        → Picks ctx (pick_at weight draw is_pickable is_up fuel ctx (some m))
    unfolding pick_at
    pick_at-Picks fuel ctx m good lt enough =
        let a = ctx.address m in
        let w : IsKept is_pickable ctx ctx = same-IsKept ctx in
        let inside : Among ctx a = (m, lt, refl) in
        if_intro (Picks ctx) (ltb m ctx.available_num) _ _
          (λ e.
            done_or-Picks ctx ctx (pick_again weight draw is_pickable is_up fuel 1) m good w
              (ground arith)
              λ c b g v i h. pick_again-Picks fuel 1 ctx c b g v i (ground (arith, good.bound)))
          λ e.
            if_intro (Picks ctx) (is_up a) _ _
              (λ f. (
                _,
                _,
                refl,
                record {
                  summed = recover-IsSummed weight ctx m good (ground arith) lt;
                  kept = recover-IsKept ctx m (ground arith) lt;
                  among = inside;
                  reason = inr (inl f);
                },
              ))
              λ f.
                if_intro (Picks ctx) (is_pickable a) _ _
                  (λ g. (
                    _,
                    _,
                    refl,
                    record { summed = good; kept = w; among = inside; reason = inl g },
                  ))
                  λ g. pick_again-Picks fuel 1 ctx ctx a good w inside (ground (arith, good.bound))

    -- A pick ends, without a failed assertion, whatever is random: as long as the sums are in order,
    -- every weight is positive and there is an address at all, one visit of `retry` more than
    -- addresses is enough. The weights are multiples of a unit, and no more than 2 ^ 53 of it together,
    -- so that the sums of doubles are exact. The address is one of the array's; it may be used or is up,
    -- unless no address is available any more. For the next pick, the sums are in order and the array
    -- has the same addresses; those that are not available may not be used, or were not available
    -- before.
    pub pick-Chosen :
        (ctx : Ctx)
        → IsSummed weight ctx
        → sum (λ i. weight (ctx.address i)) ctx.total_num ≤ 2 ^ 53
        → 0 < ctx.total_num
        → (a : ℕ) × (ctx' : Ctx) × (pick weight draw is_pickable is_up (suc ctx.total_num) ctx
            ≡ some (a, ctx'))
          × Chosen ctx a ctx'
    unfolding pick
    pick-Chosen ctx good exact pos =
        let (m, d, h) = draws 0 ctx.total_num ctx good pos (omega arith) in
        subst (λ o. Picks ctx (pick_at weight draw is_pickable is_up (suc ctx.total_num) ctx o))
          (sym d) (pick_at-Picks (suc ctx.total_num) ctx m good h (omega arith))
