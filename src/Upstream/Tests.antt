-- ===== src/Upstream/Tests.antt =====
-- The passive health check (phl_upstream.c) at concrete inputs.
use phorklift.Prelude.{◌≡◌, refl, true, [], ◌∷◌, arith}
use phorklift.Upstream.Failure.{Failure, FailureConf, results, each, time_at, down-after}

abbrev limits : FailureConf
limits = record { fails = 2; passes = 3; timeout = 60 }

abbrev healthy : Failure
healthy = record { down_time = 0; fails = 0; passes = 4 }

down-after_example :
    (results limits (each true (1000 ∷ 1001 ∷ 1002 ∷ 1003 ∷ [])) healthy).down_time ≡ 1001
unfolding time_at
down-after_example =
    down-after limits (1000 ∷ 1001 ∷ 1002 ∷ 1003 ∷ []) healthy
      (omega arith, (omega arith, (omega arith, (omega arith, tt)))) refl refl
