-- ===== src/Upstream/Hash.antt =====
-- The hash load balancer, loadbalances/phl_upstream_hash.c: a ring of virtual nodes, some for each
-- address, in the order of their hashes.
pub mod Search
pub mod Members
pub mod Picking
mod Sorting
mod Tests
use phorklift.Prelude.{
  ℕ, zero, suc, ◌+◌, ◌-◌, ◌/◌, Bool, true, false, ◌||◌, Option, none, some, List, [], ◌∷◌, ◌++◌,
  length, take, drop, Text, ltb, leb, ◌==◌, if◌then◌else◌,
}

-- `struct phl_upstream_hash_vnode`; an address is its number.
pub record Vnode : Type 0 where
  pub hash : ℕ
  pub address : ℕ

-- An integer: `pos n`, or `negsuc n` for -(n + 1).
pub data ℤ : Type 0 where
  pos : ℕ → ℤ
  negsuc : ℕ → ℤ

-- The configuration, and what the code uses of other code. The weight of an address is a double:
-- `is_zero` is whether it is 0, and `rounded` is `(int)(weight * address_vnodes + 0.5)`. Further the hash
-- of the sockaddr of an address exclusive-or the hash of `i`, and `qsort` by `hash`.
pub record Ring : Type 0 where
  pub address_vnodes : ℕ
  pub is_zero : ℕ → Bool
  pub rounded : ℕ → ℕ → ℤ
  pub vnode_hash : ℕ → ℕ → ℕ
  pub qsort : List Vnode → List Vnode

-- phl_upstream_hash_address_vnode_num()
pub vnode_num : Ring → ℕ → ℤ
vnode_num ring a =
    if ring.is_zero a then pos ring.address_vnodes else ring.rounded a ring.address_vnodes

-- "i < phl_upstream_hash_address_vnode_num(address)", from 0 on: how often the loop is run.
pub rounds : ℤ → ℕ
rounds (pos n) = n
rounds (negsuc n) = 0

pub is_negative : ℤ → Bool
is_negative (pos n) = false
is_negative (negsuc n) = true

-- The inner loop of phl_upstream_hash_update(), with its last round first.
pub vnodes_of : Ring → ℕ → ℕ → List Vnode
vnodes_of ring a zero = []
vnodes_of ring a (suc i) =
    vnodes_of ring a i ++ record { hash = ring.vnode_hash a i; address = a } ∷ []

pub all_vnodes : Ring → List ℕ → List Vnode
all_vnodes ring [] = []
all_vnodes ring (a ∷ rest) = vnodes_of ring a (rounds (vnode_num ring a)) ++ all_vnodes ring rest

pub any_negative : Ring → List ℕ → Bool
any_negative ring [] = false
any_negative ring (a ∷ rest) = is_negative (vnode_num ring a) || any_negative ring rest

-- phl_upstream_hash_update(): the new `ctx->vnodes`, whose length is `ctx->vnode_num`. A negative
-- number makes the sum smaller than the vnodes that are written, or less than 0 when none is: `none` is
-- an access outside of the array.
pub update : Ring → List ℕ → Option (List Vnode)
update ring addresses =
    if any_negative ring addresses then none else some (ring.qsort (all_vnodes ring addresses))

-- `ctx->vnodes[i].hash`
pub hash_at : List Vnode → ℕ → ℕ
hash_at [] i = 0
hash_at (v ∷ vs) zero = v.hash
hash_at (v ∷ vs) (suc i) = hash_at vs i

-- The pointer `vnode` behind the loop that searches: NULL, or the place of a vnode.
pub data Found : Type 0 where
  nowhere unfinished : Found
  place : ℕ → Found

pub place_of : Option ℕ → Found
place_of none = nowhere
place_of (some i) = place i

-- The loop of phl_upstream_hash_pick(), with fuel for its rounds; `top` is `high + 1`, and `last` is
-- `vnode`.
pub search : (ℕ → ℕ) → ℕ → ℕ → ℕ → ℕ → Option ℕ → Found
search hash key zero low top last = if leb top low then place_of last else unfinished
search hash key (suc fuel) low top last =
    let mid = (low + (top - 1)) / 2 in
    let right = search hash key fuel (suc mid) top (some mid) in
    let left = search hash key fuel low mid (some mid) in
    if leb top low
    then place_of last
    else if hash mid == key
    then place mid
    else if ltb (hash mid) key
    then right
    else left

-- The first address that is pickable.
pub first_pickable : (ℕ → Bool) → List Vnode → Option ℕ
first_pickable is_pickable [] = none
first_pickable is_pickable (v ∷ vs) =
    let rest = first_pickable is_pickable vs in
    if is_pickable v.address then some v.address else rest

pub address_at : List Vnode → ℕ → Option ℕ
address_at [] i = none
address_at (v ∷ vs) zero = some v.address
address_at (v ∷ vs) (suc i) = address_at vs i

pub or_else : Option ℕ → Option ℕ → Option ℕ
or_else none o = o
or_else (some a) o = some a

-- "check if down": from the vnode on, then from the front, then the vnode itself. `none` is a read
-- through NULL.
pub around : (ℕ → Bool) → List Vnode → Found → Option ℕ
around is_pickable vs (place i) =
    or_else (first_pickable is_pickable (drop i vs))
      (or_else (first_pickable is_pickable (take i vs)) (address_at vs i))
around is_pickable vs _ = none

-- phl_upstream_hash_pick() for the hash of a key. Without a key it returns NULL.
pub pick : (ℕ → Bool) → List Vnode → ℕ → Option ℕ
pick is_pickable vs key =
    around is_pickable vs (search (hash_at vs) key (length vs) 0 (length vs) none)
