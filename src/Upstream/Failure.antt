-- ===== src/Upstream/Failure.antt =====
-- The passive health check of an address: the counters that phl_upstream_release_connection()
-- keeps, and phl_upstream_address_is_pickable().
use native.Mathlib.Decide.{dec_lt}
use phorklift.Prelude.{
  ℕ, zero, suc, ◌+◌, ◌≤◌, ◌<◌, ◌≡◌, refl, ◌≢◌, ◌⊎◌, Bool, true, false, not, ◌&&◌, Option, none,
  some, ◌==◌, if◌then◌else◌, ltb, leb, sym, ◌∙◌, ◌↔◌, arith, List, [], ◌∷◌, ◌-◌, All, length,
}

-- `failure` of `struct phl_upstream_address`; 0 in `down_time` is an address that is up.
pub record Failure : Type 0 where
  pub down_time : ℕ
  pub fails : ℕ
  pub passes : ℕ

-- `failure` of `struct phl_upstream_conf`, without the filter.
pub record FailureConf : Type 0 where
  pub fails : ℕ
  pub passes : ℕ
  pub timeout : ℕ

-- phl_upstream_release_connection(): the branches on `upc->error`. `now` is `time(NULL)`.
pub record_pass : FailureConf → Failure → Failure
record_pass conf f =
    let passed = record f { fails = 0; passes = suc f.passes } in
    if not (f.down_time == 0) && (suc f.passes == conf.passes)
    then record passed { down_time = 0 }
    else passed

pub record_fail : FailureConf → ℕ → Failure → Failure
record_fail conf now f =
    let failed = record f { passes = 0; fails = suc f.fails } in
    if (f.down_time == 0) && (suc f.fails == conf.fails)
    then record failed { down_time = now }
    else failed

unfoldable pub record_result : FailureConf → ℕ → Bool → Failure → Failure
unfolding record_pass record_fail
record_result conf now true f = record_fail conf now f
record_result conf now false f = record_pass conf f

-- phl_upstream_address_is_pickable(): `health_down` is `healthcheck.down_time`, `has_active` tells
-- whether connections are in use, and `filter` is the answer of the configured function, if any.
unfoldable pub is_pickable : FailureConf → Failure → ℕ → ℕ → Bool → Option Bool → Bool
is_pickable conf f health_down now has_active filter =
    if not (health_down == 0)
    then false
    else if f.down_time == 0
    then true
    else if ltb now (f.down_time + conf.timeout)
    then false
    else if has_active
    then false
    else elim filter [ none ↦ true | some answer ↦ answer ]

-- The results of connections, one after the other, each with the time at which it is recorded; `true`
-- is an error.
pub results : FailureConf → List (ℕ × Bool) → Failure → Failure
results conf [] f = f
results conf ((now, e) ∷ es) f = results conf es (record_result conf now e f)

-- Results of one kind in a row, at these times.
abbrev pub each : Bool → List ℕ → List (ℕ × Bool)
each b [] = []
each b (now ∷ times) = (now, b) ∷ each b times

-- The time in this place of a list, or 0 behind its end.
unfoldable pub time_at : ℕ → List ℕ → ℕ
time_at k [] = 0
time_at zero (now ∷ times) = now
time_at (suc k) (now ∷ times) = time_at k times

-- The state after some errors or passes in a row.
record_fail_up :
    (conf : FailureConf) (now : ℕ) (f : Failure)
    → f.down_time ≡ 0
    → ((record_fail conf now f).fails ≡ suc f.fails)
      × ((record_fail conf now f).down_time ≡ (if suc f.fails == conf.fails then now else 0))
unfolding record_fail
record_fail_up conf now f up = ground arith

record_fail_down :
    (conf : FailureConf) (now : ℕ) (f : Failure)
    → f.down_time ≢ 0
    → (record_fail conf now f).down_time ≡ f.down_time
unfolding record_fail
record_fail_down conf now f down = ground arith

stays_down :
    (conf : FailureConf) (times : List ℕ) (f : Failure)
    → f.down_time ≢ 0
    → (results conf (each true times) f).down_time ≡ f.down_time
unfolding results record_result
stays_down conf [] f down = refl
stays_down conf (now ∷ times) f down =
    let e = record_fail_down conf now f down in
    stays_down conf times (record_fail conf now f) (λ z. down (sym e ∙ z)) ∙ e

-- With a limit that is passed already, as with the limit 0, errors do not count.
never_down :
    (conf : FailureConf) (times : List ℕ) (f : Failure)
    → f.down_time ≡ 0
    → conf.fails ≤ f.fails
    → (results conf (each true times) f).down_time ≡ 0
unfolding results record_result
never_down conf [] f up h = up
never_down conf (now ∷ times) f up h =
    never_down conf times (record_fail conf now f) (ground (arith, record_fail_up conf now f up))
      (ground (arith, record_fail_up conf now f up))

goes_down :
    (conf : FailureConf) (k : ℕ) (times : List ℕ) (f : Failure)
    → All (λ now. 0 < now) times
    → f.down_time ≡ 0
    → f.fails + suc k ≡ conf.fails
    → (results conf (each true times) f).down_time ≡ time_at k times
unfolding results record_result time_at
goes_down conf k [] f pos up h = up
goes_down conf zero (now ∷ times) f (p, ps) up h =
    stays_down conf times (record_fail conf now f) (ground (arith, record_fail_up conf now f up))
    ∙ ground (arith, record_fail_up conf now f up)
goes_down conf (suc k) (now ∷ times) f (p, ps) up h =
    goes_down conf k times (record_fail conf now f) ps
      (ground (arith, record_fail_up conf now f up)) (ground (arith, record_fail_up conf now f up))

-- Errors in a row, at times of their own above 0, mark an address down that is up and whose last
-- connection ended well: with the time of that error which is in the place of the limit `fails`,
-- whatever errors come after it. The address stays up when there are fewer errors, or the limit is 0.
pub down-after :
    (conf : FailureConf) (times : List ℕ) (f : Failure)
    → All (λ now. 0 < now) times
    → f.down_time ≡ 0
    → f.fails ≡ 0
    → (results conf (each true times) f).down_time
      ≡ (if conf.fails == 0 then 0 else time_at (conf.fails - 1) times)
down-after conf times f pos up fresh = elim (dec_lt 0 conf.fails) [
  | yes on ↦ goes_down conf (conf.fails - 1) times f pos up (omega arith) ∙ ground arith
  | no off ↦ never_down conf times f up (omega arith) ∙ ground arith
]

record_pass_down :
    (conf : FailureConf) (f : Failure)
    → f.down_time ≢ 0
    → ((record_pass conf f).passes ≡ suc f.passes)
      × ((record_pass conf f).down_time ≡ (if suc f.passes == conf.passes then 0 else f.down_time))
unfolding record_pass
record_pass_down conf f down = ground arith

record_pass_up :
    (conf : FailureConf) (f : Failure) → f.down_time ≡ 0 → (record_pass conf f).down_time ≡ 0
unfolding record_pass
record_pass_up conf f up = ground arith

stays_up :
    (conf : FailureConf) (times : List ℕ) (f : Failure)
    → f.down_time ≡ 0
    → (results conf (each false times) f).down_time ≡ 0
unfolding results record_result
stays_up conf [] f up = up
stays_up conf (now ∷ times) f up =
    stays_up conf times (record_pass conf f) (record_pass_up conf f up)

recovers :
    (conf : FailureConf) (times : List ℕ) (f : Failure)
    → f.down_time ≢ 0
    → f.passes < conf.passes
    → (results conf (each false times) f).down_time
      ≡ (if leb conf.passes (f.passes + length times) then 0 else f.down_time)
unfolding results record_result
recovers conf [] f down h = ground arith
recovers conf (now ∷ times) f down h = elim (dec_lt (suc f.passes) conf.passes) [
  | yes more ↦
      recovers conf times (record_pass conf f) (ground (arith, record_pass_down conf f down))
        (ground (arith, record_pass_down conf f down))
      ∙ ground (arith, record_pass_down conf f down)
  | no last ↦
      stays_up conf times (record_pass conf f) (ground (arith, record_pass_down conf f down))
      ∙ ground (arith, record_pass_down conf f down)
]

-- An address that an error has marked down is up again exactly after `passes` connections in a row
-- that end well, and keeps its time of failure until then.
pub up-after :
    (conf : FailureConf) (times : List ℕ) (f : Failure)
    → f.down_time ≢ 0
    → f.passes ≡ 0
    → 0 < conf.passes
    → (results conf (each false times) f).down_time
      ≡ (if leb conf.passes (length times) then 0 else f.down_time)
up-after conf times f down fresh pos = recovers conf times f down (omega arith) ∙ ground arith

-- When an address is picked: it is not marked down by the active check; and either it is not marked
-- down by the passive one, or its time is over, it has no connection in use, and the configured
-- function, if there is one, agrees.
pub is_pickable_iff :
    (conf : FailureConf) (f : Failure) (health_down now : ℕ) (active : Bool) (filter : Option Bool)
    → (is_pickable conf f health_down now active filter ≡ true) ↔ (
        (health_down ≡ 0)
        × ((f.down_time ≡ 0)
            ⊎ ((f.down_time + conf.timeout ≤ now) × (active ≡ false) × (filter ≢ some false))))
unfolding is_pickable
is_pickable_iff conf f health_down now active filter = ground arith
