-- ===== src/Upstream/Resolve/Stats.antt =====
-- phl_upstream_alloc_stats() in phl_upstream_resolve.c: the counters of a resolved address, in a table
-- that the worker processes share.
use phorklift.Prelude.{ℕ, zero, suc, ◌+◌, Option, none, some, List, [], ◌∷◌, ◌==◌, if◌then◌else◌}

-- `struct phl_upstream_address_stats`, what the table uses of it.
pub record Slot : Type 0 where
  pub refs : ℕ
  pub key : ℕ
  pub create_time : ℕ

-- Where the counters of an address are: in the table, in `fake_stats`, or its own.
pub data Counters : Type 0 where
  slot : ℕ → Counters
  fake : Counters
  own : ℕ → Counters

-- `phl_in_worker` and `phl_conf_runtime->worker.num`
pub data Process : Type 0 where
  worker : Process
  master : ℕ → Process

-- How the loop ends: at a slot of this key, or with the first slot that is not used.
pub data Scan : Type 0 where
  found : ℕ → Scan
  idle : Option ℕ → Scan

abbrev pub or_first : Option ℕ → ℕ → Option ℕ
or_first none i = some i
or_first (some j) i = some j

unfoldable pub scan : ℕ → Option ℕ → ℕ → List Slot → Scan
scan key first i [] = idle first
scan key first i (s ∷ rest) =
    let after_idle = scan key (or_first first i) (suc i) rest in
    let after = scan key first (suc i) rest in
    if s.refs == 0
    then (if s.key == 0 then idle (or_first first i) else after_idle)
    else if s.key == key
    then found i
    else after

unfoldable pub at : ℕ → (Slot → Slot) → List Slot → List Slot
at i f [] = []
at zero f (s ∷ rest) = f s ∷ rest
at (suc i) f (s ∷ rest) = s ∷ at i f rest

abbrev pub first_refs : Process → ℕ
first_refs worker = 1
first_refs (master n) = n

unfoldable pub alloc_stats : Process → ℕ → ℕ → List Slot → Counters × List Slot
alloc_stats p now key slots = elim (scan key none 0 slots) [
  | found i ↦ (slot i, at i (λ s. record s { refs = s.refs + 1 }) slots)
  | idle none ↦ (fake, slots)
  | idle (some i) ↦
      (slot i, at i (λ s. record { refs = first_refs p; key = key; create_time = now }) slots)
]
