-- ===== src/Modules/Tests.antt =====
-- Runs of the walk over the modules, the order of their filters, and their loading.
use phorklift.Prelude.{
  ℕ, zero, suc, take, ◌<◌, ◌≡◌, refl, true, false, Option, none, some, if◌then◌else◌, List, [], ◌∷◌,
  ◌++◌, Text, ltb, starts_with, str_eq, ◌==◌, arith,
}
use phorklift.Modules.{process_headers, Module, Registry, index_at, from_index, next_module, visit}
use phorklift.Modules.Walking.{IsFixed, place}
use phorklift.Modules.Filters.{
  filters_post, named_module, modules_at, store_ranks, filters_arbitrary, negsuc, outside,
}
use phorklift.Modules.Filters.Sorting.{insert, sorted, sorted-perm, sorted-InOrder}
use phorklift.Modules.Filters.Order.{
  IsRanking, IsQsort, not_after, by_rank, rank_for, lex, filters_post-sorted,
}
use phorklift.Modules.Filters.Listing.{having}
use phorklift.Modules.Loading.{
  prefix, extension, after_slash, base_name, mod_name_of, dynamic_load, dynamic_post, master_init,
  mod_name, Memory, set_up,
}
use phorklift.Modules.Loading.Indexes.{Distinct, dynamic_post-IsFixed}
use Prim.Native.Nat.{Ordering}

abbrev module_of : ℕ → ℕ → Module ℕ
module_of i rank = record {
  name = i ∷ [];
  index = i;
  filters = λ k. true;
  ranks = λ k. rank;
  has_ctx_free = false;
  has_worker_init = false;
  has_master_init = false;
}

abbrev registry : Registry ℕ
registry = record {
  statics = module_of 0 7 ∷ module_of 1 3 ∷ [];
  dynamics = some (module_of 2 7 ∷ []);
}

indexes_of : (k : ℕ) → k < 3 → index_at registry (place registry k) ≡ k
unfolding place
indexes_of zero l = refl
indexes_of (suc zero) l = refl
indexes_of (suc (suc zero)) l = refl
indexes_of (suc (suc (suc k))) l = let no : ⊥ = omega arith in elim no [ ]

registry-IsFixed : IsFixed registry
registry-IsFixed = record { some_static = omega arith; indexes = indexes_of }

numbers-IsRanking : IsRanking ℕ ◌==◌ ltb
numbers-IsRanking = record {
  place_of = λ n. n;
  same = λ a b. refl;
  less = λ a b. refl;
  is_set = hlevel;
}

abbrev qsort : (Module ℕ → Module ℕ → Ordering) → List (Module ℕ) → List (Module ℕ)
qsort cmp l = sorted (not_after cmp) l

qsort-IsQsort : IsQsort ℕ qsort
qsort-IsQsort = record {
  permutes = λ cmp l. sorted-perm (not_after cmp) l;
  sorts = λ cmp l o. sorted-InOrder (not_after cmp) o l;
}

-- The configuration gives module 1 the rank 9.
abbrev ranked : ℕ → Option ℕ
ranked i = if i == 1 then some 9 else none

-- The module of the smaller rank comes first, and module 0 before module 2.
filters_post-sorted_example :
    filters_post ◌==◌ ltb qsort registry (λ k. ranked) process_headers
    ≡ module_of 0 7 ∷ module_of 2 7 ∷ module_of 1 3 ∷ []
unfolding sorted having insert by_rank rank_for lex numbers-IsRanking
filters_post-sorted_example =
    filters_post-sorted ◌==◌ ltb numbers-IsRanking qsort registry (λ k. ranked) process_headers
      qsort-IsQsort registry-IsFixed

abbrev file : ℕ → Text
file c = prefix ++ c ∷ extension

-- Each of the two symbols has an address of its own.
abbrev address : Text → Option ℕ
address name = if str_eq (take 5 name) (prefix ++ b'a' ∷ []) then some 100 else some 200

abbrev in_memory : Memory ℕ
in_memory p = module_of 0 p

abbrev fixed : Memory ℕ
fixed = set_up 2 200 (set_up 1 100 in_memory)

dynamic_post-IsFixed_example : IsFixed (record {
  statics = master_init 0 (module_of 5 7 ∷ []);
  dynamics = some (fixed 100 ∷ fixed 200 ∷ []);
})
unfolding dynamic_post dynamic_load mod_name mod_name_of starts_with base_name after_slash str_eq
    Distinct set_up
dynamic_post-IsFixed_example =
    dynamic_post-IsFixed (λ name. some name) (λ h name. address name) (module_of 5 7 ∷ [])
      (file b'a' ∷ file b'b' ∷ []) in_memory fixed (100 ∷ 200 ∷ []) [] (omega arith) refl
      (((λ e. ground arith), tt), (tt, tt))

-- One file that is named twice gives one module, which has the index of the second entry.
one_file_twice : (set_up 2 100 (set_up 1 100 in_memory) 100).index ≡ 2
unfolding set_up
one_file_twice = refl

-- A negative key of a module's ranks is taken.
negative_key : filters_arbitrary registry (1 ∷ []) ((negsuc 0, some 5) ∷ []) (λ k i. none) ≡ outside
unfolding filters_arbitrary named_module modules_at visit next_module str_eq from_index store_ranks
negative_key = refl
