-- ===== src/Upstream/Hash/Tests.antt =====
-- The hash load balancer (loadbalances/phl_upstream_hash.c) at concrete inputs.
use phorklift.Prelude.{
  ℕ, ◌+◌, ◌≡◌, refl, true, List, Option, none, some, ◌*◌, [], ◌∷◌, arith, ◌==◌, inl, inr,
}
use phorklift.Upstream.Hash.{
  Vnode, Ring, pos, negsuc, vnode_num, rounds, is_negative, any_negative, update, hash_at, search,
  pick, place_of, around, or_else, first_pickable, vnodes_of, all_vnodes,
}
use phorklift.Upstream.Hash.Picking.{Answers, pick-update}
use phorklift.Upstream.Hash.Sorting.{insert, sort, sort-IsSorting}

-- Two addresses, the second of twice the weight.
abbrev two : Ring
two = record {
  address_vnodes = 1;
  is_zero = λ a. a == 0;
  rounded = λ a n. pos (a * n);
  vnode_hash = λ a i. a * 10 + i * 25;
  qsort = sort;
}

abbrev ring_of : Option (List Vnode) → List Vnode
ring_of none = []
ring_of (some vs) = vs

-- A negative number of vnodes is refused nowhere.
negative : update (record two { rounded = λ a n. negsuc 0 }) (1 ∷ []) ≡ none
unfolding update any_negative is_negative vnode_num
negative = refl

-- The ring has the hashes 10, 20 and 45; a key with the hash 30 is near the first one of address 2.
picked : pick (λ a. true) (ring_of (update two (1 ∷ 2 ∷ []))) 30 ≡ some 2
unfolding pick around or_else first_pickable search place_of hash_at update any_negative is_negative
    all_vnodes vnodes_of vnode_num rounds sort insert
picked = refl

-- With address 2 down, its vnode leads on to address 1.
led_on : pick (λ a. a == 1) (ring_of (update two (1 ∷ 2 ∷ []))) 30 ≡ some 1
unfolding pick around or_else first_pickable search place_of hash_at update any_negative is_negative
    all_vnodes vnodes_of vnode_num rounds sort insert
led_on = refl

pick-update_example :
    (vs : List Vnode) × (update two (1 ∷ 2 ∷ []) ≡ some vs)
    × Answers (λ a. a == 1) two (1 ∷ 2 ∷ []) 30 vs
unfolding any_negative is_negative vnode_num rounds
pick-update_example =
    pick-update (λ a. a == 1) two (1 ∷ 2 ∷ []) 30 2 sort-IsSorting refl (inr (inl refl))
      (omega arith)

abbrev places : ℕ → ℕ
places i = i * 10
