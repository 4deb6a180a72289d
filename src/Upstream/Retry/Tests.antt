-- ===== src/Upstream/Retry/Tests.antt =====
-- A retry of an upstream connection (phl_upstream.c) at concrete inputs.
use phorklift.Prelude.{ℕ, Bool, true, false, none, some, [], ◌∷◌}
use phorklift.Upstream.Failure.{Failure, FailureConf, is_pickable}
use phorklift.Upstream.Pool.{Conn, Address}

abbrev limits : FailureConf
limits = record { fails = 2; passes = 3; timeout = 60 }

abbrev healthy : Failure
healthy = record { down_time = 0; fails = 0; passes = 4 }

abbrev old : Conn
old = record { id = 8; request = some 1; error = true }

abbrev one_active : Address
one_active = record { idle_num = 0; idle = []; active = old ∷ [] }

abbrev pickable : ℕ → Address → Bool × Address
pickable t a = (is_pickable limits healthy t 1000 false none, a)
