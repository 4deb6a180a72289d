-- ===== src/Upstream/Pool.antt =====
-- The connections to one upstream address, phl_upstream.c: which are in use and which are idle.
pub mod Counted
pub mod Reachable
mod Tests
use phorklift.Prelude.{
  ℕ, suc, ◌-◌, ◌≡◌, Bool, true, false, not, ◌||◌, Option, none, some, List, [], ◌∷◌, ◌++◌, ltb,
  ◌==◌, if◌then◌else◌,
}

-- `struct phl_upstream_connection`; `request` is NULL in an idle one.
pub record Conn : Type 0 where
  pub id : ℕ
  pub request : Option ℕ
  pub error : Bool

-- The lists of `struct phl_upstream_address`.
pub record Address : Type 0 where
  pub idle_num : ℕ
  pub idle : List Conn
  pub active : List Conn

-- `wuy_list_delete` of libwuya: the node leaves the list that it is in.
pub delete : ℕ → List Conn → List Conn
delete id [] = []
delete id (c ∷ cs) = let rest = delete id cs in if c.id == id then rest else c ∷ rest

abbrev pub is_idle : Option ℕ → Bool
is_idle none = true
is_idle (some r) = false

-- phl_upstream_connection_close()
pub close_connection : Conn → Address → Address
close_connection c a = record {
  idle_num = if is_idle c.request then a.idle_num - 1 else a.idle_num;
  idle = delete c.id a.idle;
  active = delete c.id a.active;
}

-- "try to reuse an idle one" in phl_upstream_get_connection(), for the request `r`.
pub reuse : ℕ → List Conn → Address → Option (Conn × Address)
reuse r [] a = none
reuse r (c ∷ rest) a =
    let used = record c { request = some r } in
    some (used, record { idle_num = a.idle_num - 1; idle = rest; active = a.active ++ used ∷ [] })

-- "new connection": `socket` is what loop_tcp_connect_sockaddr() gives, NULL when it fails.
pub connect : ℕ → Option ℕ → Address → Option (Conn × Address)
connect r none a = none
connect r (some socket) a =
    let fresh : Conn = record { id = socket; request = some r; error = false } in
    some (fresh, record a { active = a.active ++ fresh ∷ [] })

pub or_connect : ℕ → Option ℕ → Address → Option (Conn × Address) → Option (Conn × Address)
or_connect r socket a none = connect r socket a
or_connect r socket a (some got) = some got

-- phl_upstream_get_connection(), once the address is picked.
pub get_connection : ℕ → Option ℕ → Address → Option (Conn × Address)
get_connection r socket a = or_connect r socket a (reuse r a.idle a)

-- "close the oldest one if pool is full"; the assertion is that there is one.
pub close_oldest : List Conn → Address → Address
close_oldest [] a = a
close_oldest (c ∷ rest) a = close_connection c a

pub make_room : ℕ → Address → Address
make_room idle_max a = if ltb idle_max a.idle_num then close_oldest a.idle a else a

-- "put the connection into idle pool"
pub put_idle : Conn → Address → Address
put_idle c a = record {
  idle_num = suc a.idle_num;
  idle = delete c.id a.idle ++ record c { request = none } ∷ [];
  active = delete c.id a.active;
}

-- phl_upstream_release_connection(), behind the counters of the health check; `is_closed` is
-- loop_stream_is_closed().
unfoldable pub release_connection : ℕ → Bool → Bool → Conn → Address → Address
release_connection idle_max is_clean is_closed c a =
    if c.error || not is_clean || is_closed
    then close_connection c a
    else put_idle c (make_room idle_max a)
