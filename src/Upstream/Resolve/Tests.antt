-- ===== src/Upstream/Resolve/Tests.antt =====
-- Runs of the rounds of resolving.
use phorklift.Prelude.{
  ℕ, ◌+◌, ◌≡◌, refl, Bool, true, false, List, [], ◌∷◌, length, ◌==◌, if◌then◌else◌, arith, if_intro,
}
use phorklift.Upstream.Resolve.{Sock, inet, inet6, unix, Hostname, Upstream, Making, has, with_port}
use phorklift.Upstream.Resolve.Stats.{Slot, own, worker, master, scan, at, alloc_stats}
use phorklift.Upstream.Resolve.Diff.{diff}
use phorklift.Upstream.Resolve.Rounds.{finish, addresses, error, Reply, timer_handler}
use phorklift.Upstream.Resolve.Replies.{IsAddrCmp, live, diff-live}
use phorklift.Upstream.Resolve.Keeping.{ranks, diff-Keeps}
use phorklift.Upstream.Resolve.Ending.{Ended, finish-Ended}
use phorklift.Upstream.Resolve.Steps.{needed}
use phorklift.Upstream.Resolve.Asking.{run_round, timer_handler-asks}
use Prim.Native.Nat.{Ordering, compare}

abbrev ip_of : Sock → ℕ
ip_of (inet ip port) = ip
ip_of (inet6 ip port) = 4294967296 + ip
ip_of (unix path) = length path

abbrev by_ip : Sock → Sock → Ordering
by_ip a b = compare (ip_of a) (ip_of b)

ip_of-with_port : (port : ℕ) (a : Sock) → ip_of (with_port port a) ≡ ip_of a
unfolding with_port
ip_of-with_port port (inet ip p) =
    if_intro (λ (s : Sock). ip_of s ≡ ip) (port == 0) _ _ (λ t. refl) (λ f. refl)
ip_of-with_port port (inet6 ip p) =
    if_intro (λ (s : Sock). ip_of s ≡ 4294967296 + ip) (port == 0) _ _ (λ t. refl) (λ f. refl)
ip_of-with_port port (unix path) = refl

abbrev by_ip-IsAddrCmp : IsAddrCmp by_ip
by_ip-IsAddrCmp = record { rank = ip_of; compares = λ a b. refl; port_free = ip_of-with_port }

abbrev making : Making
making = record { key = ip_of; process = worker; probes = false; now = 5 }

abbrev host : List ℕ → Hostname
host ids = record {
  name = [];
  host_len = 0;
  need_resolved = true;
  port = 80;
  weight = 1;
  address_head = ids;
}

abbrev static_host : Hostname
static_host = record (host []) { need_resolved = false }

-- Two addresses, 2 and 3.
abbrev two : Bool → Upstream
two gone = record {
  store = λ i. record {
    sockaddr = inet (i + 2) 80;
    weight = 1;
    stats = own 0;
    probed = false;
    connected = false;
    resolve_deleted = gone;
  };
  fresh = 2;
  freed = [];
  slots = [];
  hostnames = host (0 ∷ 1 ∷ []) ∷ static_host ∷ host [] ∷ [];
  address_head = 0 ∷ 1 ∷ [];
  address_num = 2;
  deleted_address_defer = [];
  resolve_index = 0;
  resolve_updated = gone;
  balancer = 0 ∷ 1 ∷ [];
  asked = [];
  wait_head = [];
  woken = [];
}

abbrev answer : List Sock
answer = inet 1 0 ∷ inet 3 0 ∷ []

diff-live_example :
    let r = diff by_ip making (host (0 ∷ 1 ∷ [])) answer (0 ∷ 1 ∷ []) (two false) in
    live by_ip by_ip-IsAddrCmp (r.1) (r.0) ≡ 1 ∷ 3 ∷ []
unfolding has
diff-live_example =
    diff-live by_ip by_ip-IsAddrCmp making (host (0 ∷ 1 ∷ [])) answer (0 ∷ 1 ∷ []) (two false)
      (omega arith, refl, refl, (omega arith, refl, refl, tt))

-- Address 3 is still there, in its place in memory.
diff-Keeps_example :
    ((diff by_ip making (host (0 ∷ 1 ∷ [])) answer (0 ∷ 1 ∷ []) (two false)).1).store 1
    ≡ (two false).store 1
unfolding has ranks
diff-Keeps_example =
    diff-Keeps by_ip by_ip-IsAddrCmp making (host (0 ∷ 1 ∷ [])) answer (0 ∷ 1 ∷ []) (two false)
      ((omega arith, tt), (tt, tt)) (omega arith, refl, refl, (omega arith, refl, refl, tt))
      ((omega arith, tt), (tt, tt)) 1 refl refl

finish-Ended_example : Ended (two true) (finish (two true))
finish-Ended_example = finish-Ended (two true) refl

abbrev replies : ℕ → Reply
replies i = if i == 0 then addresses answer else error

timer_handler-asks_example :
    let v = run_round by_ip making replies 3 (timer_handler (two false)) in
    (v.resolve_index ≡ 0) × (v.asked ≡ 0 ∷ 2 ∷ [])
unfolding needed
timer_handler-asks_example = timer_handler-asks by_ip making replies (two false) refl

abbrev untouched : List Slot
untouched = record { refs = 0; key = 0; create_time = 0 } ∷ []

-- A name that the master allocates twice has one reference too few for four workers.
alloc_stats_twice :
    (alloc_stats (master 4) 9 7 ((alloc_stats (master 4) 9 7 untouched).1)).1
    ≡ record { refs = 5; key = 7; create_time = 9 } ∷ []
unfolding alloc_stats scan at
alloc_stats_twice = refl
