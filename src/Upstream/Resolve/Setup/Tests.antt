-- ===== src/Upstream/Resolve/Setup/Tests.antt =====
-- A run of the start of resolving.
use phorklift.Prelude.{
  ◌<◌, ◌≡◌, refl, Bool, true, false, ◌⊎◌, Option, none, some, List, [], ◌∷◌, Text, length, ◌==◌,
  if◌then◌else◌,
}
use phorklift.Upstream.Resolve.{inet, Upstream, Making, address_add}
use phorklift.Upstream.Resolve.Stats.{own, worker}
use phorklift.Upstream.Resolve.Setup.{
  Result, fault, fine, Given, find_char, parse_weight, parse_port, add_all, with_addresses,
  init_hostname, init_hostnames, any_needed, checked, resolve_init,
}
use phorklift.Upstream.Resolve.Setup.Begun.{IsBegun, resolve_init-IsBegun}

abbrev making : Making
making = record { key = λ s. 7; process = worker; probes = false; now = 5 }

-- A name of one character is an address.
abbrev given : Given
given = record {
  loads = λ name port. if length name == 1 then some (inet 9 port) else none;
  atof = λ s. length s;
  unit = 1;
  atoi = λ s. 80;
  resolver = λ name. some (inet 5 0 ∷ inet 6 0 ∷ []);
  default_port = 8000;
  in_worker = false;
  resolve_interval = 60;
}

abbrev empty : Upstream
empty = record {
  store = λ i. record {
    sockaddr = inet 0 0;
    weight = 0;
    stats = own 0;
    probed = false;
    connected = false;
    resolve_deleted = false;
  };
  fresh = 0;
  freed = [];
  slots = record { refs = 0; key = 0; create_time = 0 } ∷ [];
  hostnames = [];
  address_head = [];
  address_num = 0;
  deleted_address_defer = [];
  resolve_index = 0;
  resolve_updated = false;
  balancer = [];
  asked = [];
  wait_head = [];
  woken = [];
}

-- A hostname with a port, and an address.
abbrev names : List Text
names = (b'h' ∷ b's' ∷ b':' ∷ b'8' ∷ b'0' ∷ []) ∷ (b'a' ∷ []) ∷ []

abbrev value_of : Result (Upstream × Option Bool) → Upstream
value_of (fault e) = empty
value_of (fine (v, timer)) = v

abbrev begun : Upstream
begun = value_of (resolve_init making given names empty)

resolve_init-IsBegun_example : IsBegun begun × ((0 < begun.address_num) ⊎ (some false ≡ some true))
unfolding resolve_init init_hostnames init_hostname parse_weight parse_port find_char add_all
    with_addresses any_needed checked address_add
resolve_init-IsBegun_example =
    resolve_init-IsBegun making given names empty begun (some false)
      (record { lists = tt; number = refl }) refl

three_addresses : begun.address_head ≡ 0 ∷ 1 ∷ 2 ∷ []
unfolding resolve_init init_hostnames init_hostname parse_weight parse_port find_char add_all
    with_addresses any_needed checked address_add
three_addresses = refl
