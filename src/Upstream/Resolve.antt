-- ===== src/Upstream/Resolve.antt =====
-- phl_upstream_resolve.c: the hostnames of an upstream are resolved in turn, and what the resolver
-- answers is merged into the addresses in use. Here: the addresses, their lists and their counters.
pub mod Stats
pub mod Diff
pub mod Rounds
pub mod Replies
pub mod Keeping
pub mod Clearing
pub mod Ending
pub mod Steps
pub mod Asking
pub mod Setup
mod Tests
use phorklift.Prelude.{
  ℕ, suc, Bool, true, false, ◌||◌, Option, none, some, List, [], ◌∷◌, ◌++◌, Text, ◌==◌,
  if◌then◌else◌,
}
use phorklift.Upstream.Resolve.Stats.{Slot, Counters, Process, own, alloc_stats}

-- `struct sockaddr`, as the program reads it: an address and its port, or a path.
pub data Sock : Type 0 where
  inet : ℕ → ℕ → Sock
  inet6 : ℕ → ℕ → Sock
  unix : Text → Sock

-- `struct phl_upstream_address`, the members that resolving uses: whether it has a connection
-- (`active_head` or `idle_head` is not empty), and whether its health is checked.
pub record Address : Type 0 where
  pub sockaddr : Sock
  pub weight : ℕ
  pub stats : Counters
  pub probed : Bool
  pub connected : Bool
  pub resolve_deleted : Bool

-- `struct phl_upstream_hostname`; an address is its number in the store.
pub record Hostname : Type 0 where
  pub name : Text
  pub host_len : ℕ
  pub need_resolved : Bool
  pub port : ℕ
  pub weight : ℕ
  pub address_head : List ℕ

-- `struct phl_upstream_conf`. `store` and `fresh` are the memory of the addresses, `freed` the ones
-- that are given back, `balancer` the addresses that the last `loadbalance->update()` saw, `asked` the
-- hostnames that were sent to the resolver, by their index, and `woken` the requests that run again.
pub record Upstream : Type 0 where
  pub store : ℕ → Address
  pub fresh : ℕ
  pub freed : List ℕ
  pub slots : List Slot
  pub hostnames : List Hostname
  pub address_head : List ℕ
  pub address_num : ℕ
  pub deleted_address_defer : List ℕ
  pub resolve_index : ℕ
  pub resolve_updated : Bool
  pub balancer : List ℕ
  pub asked : List ℕ
  pub wait_head : List ℕ
  pub woken : List ℕ

unfoldable pub write : (ℕ → Address) → ℕ → Address → ℕ → Address
write store i x j = if j == i then x else store j

-- An address is on a list.
unfoldable pub has : ℕ → List ℕ → Bool
has i [] = false
has i (x ∷ xs) = (i == x) || has i xs

-- wuy_list_delete()
unfoldable pub without : ℕ → List ℕ → List ℕ
without i [] = []
without i (x ∷ xs) = let rest = without i xs in if x == i then rest else x ∷ rest

-- wuy_list_add_before()
unfoldable pub insert_before : ℕ → ℕ → List ℕ → List ℕ
insert_before before i [] = []
insert_before before i (x ∷ xs) =
    let rest = insert_before before i xs in if x == before then i ∷ x ∷ xs else x ∷ rest

abbrev pub placed : Option ℕ → ℕ → List ℕ → List ℕ
placed none i ids = ids ++ i ∷ []
placed (some before) i ids = insert_before before i ids

-- The port of the hostname takes the place of the answer's.
unfoldable pub with_port : ℕ → Sock → Sock
with_port port (inet ip p) = if port == 0 then inet ip p else inet ip port
with_port port (inet6 ip p) = if port == 0 then inet6 ip p else inet6 ip port
with_port port (unix path) = unix path

-- What an address is made of: the hash of the name of a socket address (wuy_sockaddr_dumps() and
-- wuy_vhash64()), which process it is made in, whether `healthcheck.interval` is set, and the time.
pub record Making : Type 0 where
  pub key : Sock → ℕ
  pub process : Process
  pub probes : Bool
  pub now : ℕ

module _ (m : Making) where
  abbrev stats_of : Hostname → Sock → List Slot → Counters × List Slot
  stats_of h s slots =
      if h.need_resolved then alloc_stats m.process m.now (m.key s) slots else (own m.now, slots)

  -- phl_upstream_address_add(). The list of the hostname is rebuilt by the caller, in the order of
  -- its nodes; the name that the key is taken from is that of the answer, with the answer's port.
  unfoldable pub address_add : Hostname → Sock → Option ℕ → Upstream → Upstream
  address_add h s before u =
      let got = stats_of h s u.slots in
      record u {
        store = write u.store u.fresh (record {
          sockaddr = with_port h.port s;
          weight = h.weight;
          stats = got.0;
          probed = m.probes;
          connected = false;
          resolve_deleted = false;
        });
        fresh = suc u.fresh;
        slots = got.1;
        address_head = placed before u.fresh u.address_head;
      }
