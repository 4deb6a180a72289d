-- ===== src/Upstream/Pool/Tests.antt =====
-- The connections of an upstream address (phl_upstream.c) at concrete inputs.
use phorklift.Prelude.{◌≡◌, refl, true, false, none, some, [], ◌∷◌, arith, inl}
use phorklift.Upstream.Pool.{
  Conn, Address, delete, reuse, connect, or_connect, get_connection, make_room, put_idle,
  release_connection,
}
use phorklift.Upstream.Pool.Counted.{count_nil}
use phorklift.Upstream.Pool.Reachable.{
  IsPool, got, released, Reachable, start, next, empty, reachable-IsPool,
}

abbrev first_conn : Conn
first_conn = record { id = 8; request = some 1; error = false }

abbrev one_active : Address
one_active = record { idle_num = 0; idle = []; active = first_conn ∷ [] }

get_runs : get_connection 1 (some 8) empty ≡ some (first_conn, one_active)
unfolding get_connection or_connect reuse connect
get_runs = refl

release_runs :
    release_connection 0 true false first_conn one_active
    ≡ record { idle_num = 1; idle = record first_conn { request = none } ∷ []; active = [] }
unfolding release_connection put_idle make_room delete
release_runs = refl

one_active-Reachable : Reachable 0 one_active
one_active-Reachable =
    next empty one_active start
      (got 1 (some 8) empty first_conn one_active (λ n e. omega (arith, count_nil n)) get_runs)

released-Reachable : Reachable 0 (release_connection 0 true false first_conn one_active)
released-Reachable =
    next one_active _ one_active-Reachable
      (released true false false first_conn one_active (inl refl))

-- With the limit 0, one connection is idle.
reachable-IsPool_example : IsPool 0 (release_connection 0 true false first_conn one_active)
reachable-IsPool_example =
    reachable-IsPool 0 (release_connection 0 true false first_conn one_active) released-Reachable
