-- ===== src/Upstream/Random.antt =====
-- The random load balancer, loadbalances/phl_upstream_random.c: addresses in an array with the sums
-- of the weights before them, the ones that are available in front.
pub mod Sums
pub mod Search
pub mod Keeping
pub mod Picking
mod Tests
use phorklift.Prelude.{
  ℕ, zero, suc, ◌+◌, ◌-◌, ◌/◌, Bool, true, false, ◌&&◌, Option, none, some, List, [], ◌∷◌, length,
  ltb, leb, ◌==◌, if◌then◌else◌,
}

-- `struct phl_upstream_random_ctx`, its array as a function for each member of the elements. An
-- address is its number. The weights and their sums are doubles: here they are numbers of a unit of which
-- every weight is a multiple, and a sum of up to 2 ^ 53 units has no error of rounding.
pub record Ctx : Type 0 where
  pub total_num : ℕ
  pub available_num : ℕ
  pub hash : ℕ → ℕ
  pub address : ℕ → ℕ

-- The sum of the first `n` weights.
pub sum : (ℕ → ℕ) → ℕ → ℕ
sum f zero = 0
sum f (suc n) = sum f n + f n

pub nth : List ℕ → ℕ → ℕ
nth [] i = 0
nth (x ∷ xs) zero = x
nth (x ∷ xs) (suc i) = nth xs i

-- "exchange address"
abbrev pub swapped : ℕ → ℕ → (ℕ → ℕ) → ℕ → ℕ
swapped i j f k = if k == i then f j else if k == j then f i else f k

module _ (weight : ℕ → ℕ) where
  -- phl_upstream_random_update(): `hash` grows along the list; the sentinel has the last sum.
  pub update_from : ℕ → List ℕ → ℕ → ℕ
  update_from hash [] i = hash
  update_from hash (a ∷ rest) zero = hash
  update_from hash (a ∷ rest) (suc i) = update_from (hash + weight a) rest i

  pub update : List ℕ → Ctx
  update addresses = record {
    total_num = length addresses;
    available_num = length addresses;
    hash = update_from 0 addresses;
    address = nth addresses;
  }

  -- phl_upstream_random_exchange(): "update hash in [index1+1, index2]". The difference is that of
  -- the weights after the exchange.
  pub exchange : Ctx → ℕ → ℕ → Ctx
  exchange ctx i j = if i == j then ctx else record ctx {
    address = swapped i j ctx.address;
    hash = λ k.
        if ltb i k && leb k j
        then (ctx.hash k + weight (ctx.address j)) - weight (ctx.address i)
        else ctx.hash k;
  }

  -- phl_upstream_random_expire() and phl_upstream_random_recover()
  pub expire : Ctx → ℕ → Ctx
  expire ctx down =
      exchange (record ctx { available_num = ctx.available_num - 1 }) down (ctx.available_num - 1)

  pub recover : Ctx → ℕ → Ctx
  recover ctx recov =
      exchange (record ctx { available_num = suc ctx.available_num }) ctx.available_num recov

-- One round of the loop in phl_upstream_random_random(); `top` is `high + 1`.
pub data Probe : Type 0 where
  found : ℕ → Probe
  missed : Probe
  narrowed : ℕ → ℕ → Probe

-- The comparisons of the number with the interval at `mid`.
pub bisect : (ℕ → ℕ) → ℕ → ℕ → ℕ → ℕ → Probe
bisect hash point low top mid =
    if leb (hash (suc mid)) point
    then narrowed (suc mid) top
    else if ltb point (hash mid)
    then narrowed low mid
    else found mid

pub probe : (ℕ → ℕ) → ℕ → ℕ → ℕ → Probe
probe hash point low top =
    if leb top low then missed else bisect hash point low top ((low + (top - 1)) / 2)

-- What follows a round; the `assert` behind the loop fails when nothing is found.
pub follow : (ℕ → ℕ → Option ℕ) → Probe → Option ℕ
follow again (found mid) = some mid
follow again missed = none
follow again (narrowed low top) = again low top

-- The loop of phl_upstream_random_random(), with fuel for its rounds.
pub search : (ℕ → ℕ) → ℕ → ℕ → ℕ → ℕ → Option ℕ
search hash point zero low top = none
search hash point (suc fuel) low top = follow (search hash point fuel) (probe hash point low top)

-- phl_upstream_random_random(); `point` is `wuy_rand_double() * ctx->addresses[limit].hash`.
pub random : (ℕ → ℕ) → ℕ → ℕ → Option ℕ
random hash limit point = search hash point (suc limit) 0 limit

-- The phase of phl_upstream_random_pick() behind its label `retry`, and what it needs: `draw k b` is
-- the k-th random number below `b`; `is_pickable` is phl_upstream_address_is_pickable(), and `is_up`
-- tells that no check has marked an address down.
module _ (weight : ℕ → ℕ) (draw : ℕ → ℕ → ℕ) (is_pickable is_up : ℕ → Bool) where
  abbrev pub draw_below : ℕ → ℕ → Ctx → Option ℕ
  draw_below k limit ctx = random ctx.hash limit (draw k (ctx.hash limit))

  -- "done! this is the mostly case", or expire the address and go to `retry`.
  pub done_or : (Ctx → ℕ → Option (ℕ × Ctx)) → Ctx → Option ℕ → Option (ℕ × Ctx)
  done_or retry ctx none = none
  done_or retry ctx (some picked) =
      if is_pickable (ctx.address picked)
      then some (ctx.address picked, ctx)
      else retry (expire weight ctx picked) (ctx.address picked)

  pub pick_again : ℕ → ℕ → Ctx → ℕ → Option (ℕ × Ctx)
  pick_again zero k ctx address = none
  pick_again (suc fuel) k ctx address =
      if ctx.available_num == 0
      then some (address, ctx)
      else done_or (pick_again fuel (suc k)) ctx (draw_below k ctx.available_num ctx)

  -- The part of phl_upstream_random_pick() behind its first random number.
  pub pick_at : ℕ → Ctx → Option ℕ → Option (ℕ × Ctx)
  pick_at fuel ctx none = none
  pick_at fuel ctx (some picked) =
      let address = ctx.address picked in
      if ltb picked ctx.available_num
      then done_or (pick_again fuel 1) ctx (some picked)
      else if is_up address
      then some (address, recover weight ctx picked)
      else if is_pickable address
      then some (address, ctx)
      else pick_again fuel 1 ctx address

  -- phl_upstream_random_pick(), with fuel for the visits of `retry`; `none` is a failed `assert`, or a
  -- run out of fuel.
  pub pick : ℕ → Ctx → Option (ℕ × Ctx)
  pick fuel ctx = pick_at fuel ctx (draw_below 0 ctx.total_num ctx)
