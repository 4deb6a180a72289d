-- ===== src/Upstream/Resolve/Setup.antt =====
-- phl_upstream_conf_resolve_init() in phl_upstream_resolve.c: the hostnames of a configuration, and
-- their first addresses.
pub mod Begun
mod Tests
use phorklift.Prelude.{
  ℕ, suc, ◌+◌, ◌%◌, ◌^◌, Bool, true, false, Option, none, some, List, [], ◌∷◌, ◌++◌, Text, length,
  take, ltb, ◌==◌, if◌then◌else◌,
}
use phorklift.Upstream.Resolve.{Sock, Hostname, Upstream, Making, address_add}

-- The errors that are returned.
pub data Fault : Type 0 where
  too_long_hostname invalid_weight invalid_port resolve_fail : Fault
  no_address resolve_interval_zero no_address_dynamic : Fault

pub data Result (A : Type 0) : Type 0 where
  fault : Fault → Result A
  fine : A → Result A

-- strchr(): the offset of a character, and what follows it.
unfoldable pub find_char : ℕ → Text → Option (ℕ × Text)
find_char c [] = none
find_char c (d ∷ s) =
    let rest = find_char c s in
    if d == c then some (0, s) else elim rest [ none ↦ none | some (i, t) ↦ some (suc i, t) ]

-- What the function calls: wuy_sockaddr_loads(), atof(), whose number 1.0 is `unit`, atoi(), an int
-- as a number below 2^32, and phl_resolver_hostname(); and what it reads.
pub record Given : Type 0 where
  pub loads : Text → ℕ → Option Sock
  pub atof : Text → ℕ
  pub unit : ℕ
  pub atoi : Text → ℕ
  pub resolver : Text → Option (List Sock)
  pub default_port : ℕ
  pub in_worker : Bool
  pub resolve_interval : ℕ

-- "parse weight, marked by #": the length of the host and the weight.
unfoldable pub parse_weight : Given → Text → Result (ℕ × ℕ)
parse_weight g name = elim (find_char b'#' name) [
  | none ↦ fine (length name, g.unit)
  | some (i, rest) ↦ if g.atof rest == 0 then fault invalid_weight else fine (i, g.atof rest)
]

-- "parse the port": the length of the host and the port, an unsigned short.
unfoldable pub parse_port : Given → Text → ℕ → Result (ℕ × ℕ)
parse_port g name host_len = elim (find_char b':' name) [
  | none ↦ fine (host_len, g.default_port)
  | some (i, rest) ↦
      if g.atoi rest % 2 ^ 16 == 0 then fault invalid_port else fine (i, g.atoi rest % 2 ^ 16)
]

abbrev pub host_of : Text → ℕ → Bool → ℕ → ℕ → Hostname
host_of name host_len need port weight = record {
  name = name;
  host_len = host_len;
  need_resolved = need;
  port = port;
  weight = weight;
  address_head = [];
}

unfoldable pub any_needed : List Hostname → Bool
any_needed [] = false
any_needed (h ∷ hs) = let rest = any_needed hs in if h.need_resolved then true else rest

module _ (m : Making) (g : Given) where
  -- The addresses of a hostname, added one after the other: its list, and the upstream.
  unfoldable pub add_all : Hostname → List Sock → Upstream → List ℕ × Upstream
  add_all h [] u = (h.address_head, u)
  add_all h (s ∷ answer) u =
      add_all (record h { address_head = h.address_head ++ u.fresh ∷ [] }) answer
        (record (address_add m h s none u) { address_num = u.address_num + 1 })

  unfoldable pub with_addresses : Hostname → List Sock → Upstream → Upstream
  with_addresses h answer u =
      let r = add_all h answer u in
      record (r.1) { hostnames = r.1.hostnames ++ record h { address_head = r.0 } ∷ [] }

  abbrev pub resolved : Hostname → Upstream → Option (List Sock) → Result Upstream
  resolved h u none = fault resolve_fail
  resolved h u (some answer) = fine (with_addresses h answer u)

  -- "resolve the hostname", which is not done in a worker.
  abbrev pub with_host : Hostname → Upstream → Result Upstream
  with_host h u =
      if g.in_worker
      then fine (with_addresses h [] u)
      else resolved h u (g.resolver (take h.host_len h.name))

  abbrev pub with_port_of : Text → ℕ → Upstream → Result (ℕ × ℕ) → Result Upstream
  with_port_of name weight u (fault e) = fault e
  with_port_of name weight u (fine (host_len, port)) =
      with_host (host_of name host_len true port weight) u

  abbrev pub with_weight : Text → Upstream → Result (ℕ × ℕ) → Result Upstream
  with_weight name u (fault e) = fault e
  with_weight name u (fine (host_len, weight)) = elim (g.loads name g.default_port) [
    | some s ↦ fine (with_addresses (host_of name host_len false 0 weight) (s ∷ []) u)
    | none ↦ with_port_of name weight u (parse_port g name host_len)
  ]

  -- One round of the loop over the hostnames.
  unfoldable pub init_hostname : Text → Upstream → Result Upstream
  init_hostname name u =
      if ltb 4096 (length name)
      then fault too_long_hostname
      else with_weight name u (parse_weight g name)

  unfoldable pub init_hostnames : List Text → Upstream → Result Upstream
  init_hostnames [] u = fine u
  init_hostnames (name ∷ names) u = elim (init_hostname name u) [
    | fault e ↦ fault e
    | fine v ↦ init_hostnames names v
  ]

  -- The checks at the end; with the upstream, whether the timer is started, and if so, at once.
  unfoldable pub checked : Upstream → Result (Upstream × Option Bool)
  checked u =
      let needed = any_needed u.hostnames in
      if g.in_worker
      then (if needed
          then (if g.resolve_interval == 0
              then fault resolve_interval_zero
              else fine (u, some true))
          else if u.address_num == 0
          then fault no_address_dynamic
          else fine (u, none))
      else if u.address_num == 0
      then fault no_address
      else if needed
      then (if ltb 0 g.resolve_interval then fine (u, some false) else fine (u, none))
      else fine (u, none)

  unfoldable pub resolve_init : List Text → Upstream → Result (Upstream × Option Bool)
  resolve_init names u = elim (init_hostnames names u) [ fault e ↦ fault e | fine v ↦ checked v ]
