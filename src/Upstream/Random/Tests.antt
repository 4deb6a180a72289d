-- ===== src/Upstream/Random/Tests.antt =====
-- The random load balancer, phl_upstream_random.c, at concrete inputs.
use phorklift.Prelude.{
  ℕ, suc, ◌-◌, ◌*◌, ◌==◌, [], ◌∷◌, ◌<◌, ◌≤◌, ◌^◌, Bool, false, ◌≡◌, refl, some, arith,
}
use mathlib.Core.Option
use phorklift.Upstream.Random.{
  Ctx, sum, update, update_from, nth, exchange, expire, random, search, follow, probe, bisect, pick,
  pick_at, pick_again, done_or,
}
use phorklift.Upstream.Random.Sums.{IsSummed, update-IsSummed}
use phorklift.Upstream.Random.Picking.{Chosen, pick-Chosen}

-- Two addresses, 5 and 7, with the weights 6 and 8; the highest number is drawn each time.
abbrev heavier : ℕ → ℕ
heavier a = suc a

abbrev highest : ℕ → ℕ → ℕ
highest k b = b - 1

abbrev only_five : ℕ → Bool
only_five a = a == 5

abbrev never : ℕ → Bool
never a = false

abbrev two : Ctx
two = update heavier (5 ∷ 7 ∷ [])

-- The address 7 is drawn, expired, and then 5 is picked.
pick_runs : Option.map (λ p. p.0) (pick heavier highest only_five never 3 two) ≡ some 5
unfolding pick pick_at pick_again done_or random search follow probe bisect expire exchange update
    update_from nth
pick_runs = refl

two-IsSummed : IsSummed heavier two
two-IsSummed = update-IsSummed heavier (5 ∷ 7 ∷ [])

highest_lt : (k b : ℕ) → 0 < b → highest k b < b
highest_lt k b h = omega arith

two_addresses : 0 < two.total_num
unfolding update
two_addresses = omega arith

sum_of_two : sum (λ i. heavier (two.address i)) two.total_num ≤ 2 ^ 53
unfolding sum update nth
sum_of_two = omega arith

pick-Chosen_example :
    (a : ℕ) × (ctx : Ctx) × (pick heavier highest only_five never (suc two.total_num) two
      ≡ some (a, ctx))
    × Chosen heavier (λ a. omega arith) highest highest_lt only_five never two a ctx
pick-Chosen_example =
    pick-Chosen heavier (λ a. omega arith) highest highest_lt only_five never two two-IsSummed
      sum_of_two two_addresses

second : 1 < two.total_num
unfolding update
second = omega arith

abbrev steps_of_ten : ℕ → ℕ
steps_of_ten i = 10 * i
