-- ===== src/Modules/Filters.antt =====
-- The table of filters of phl_module.c: the rank of a module, the order of the modules of each kind,
-- and the ranks of the configuration.
pub mod Listing
pub mod Order
pub mod Sorting
use phorklift.Prelude.{
  ℕ, zero, suc, Bool, true, false, ◌&&◌, Option, none, some, List, [], ◌∷◌, ◌++◌, Text, get_elem?,
  ltb, ◌==◌, if◌then◌else◌, str_eq,
}
use phorklift.Modules.{
  Kind, process_headers, process_body, response_headers, response_body, Module, Registry, module_at,
  visit, total, Place,
}
use Prim.Native.Nat.{compare, Ordering}

-- The ranks of the configuration, for each kind and the index of a module; NAN is `none`.
abbrev pub Ranks : Type 0 → Type 0
Ranks R = Kind → ℕ → Option R

-- The lists of modules of `struct phl_module_filters`, for each kind, up to the NULL that ends it.
abbrev pub Lists : Type 0 → Type 0
Lists R = Kind → List (Module R)

unfoldable pub is_kind : Kind → Kind → Bool
is_kind process_headers process_headers = true
is_kind process_body process_body = true
is_kind response_headers response_headers = true
is_kind response_body response_body = true
is_kind _ _ = false

module _ {R : Type 0} where
  -- phl_module_filter_get_rank()
  unfoldable pub get_rank : (ℕ → Option R) → Kind → Module R → R
  get_rank ranks kind m = elim (ranks m.index) [ some rank ↦ rank | none ↦ m.ranks kind ]

  -- phl_module_filters_init()
  unfoldable pub filters_init : Ranks R
  filters_init kind i = none

  -- A loop over the modules of a configuration.
  unfoldable pub modules_at : Registry R → List Place → List (Module R)
  modules_at r [] = []
  modules_at r (p ∷ ps) = elim (module_at r p) [
    | none ↦ modules_at r ps
    | some m ↦ m ∷ modules_at r ps
  ]

  -- `conf->modules[j][counts[j]++] = m`, where the module has a filter of that kind.
  unfoldable pub add_module : Module R → Lists R → Lists R
  add_module m lists kind = if m.filters kind then lists kind ++ m ∷ [] else lists kind

  unfoldable pub add_modules : List (Module R) → Lists R → Lists R
  add_modules [] lists = lists
  add_modules (m ∷ ms) lists = add_modules ms (add_module m lists)

  module _ (eq lt : R → R → Bool) where
    -- phl_module_filter_cmp(): the sign of the result; the difference of two indexes has that of
    -- their comparison.
    unfoldable pub filter_cmp : (ℕ → Option R) → Kind → Module R → Module R → Ordering
    filter_cmp ranks kind a b =
        let rank_a = get_rank ranks kind a in
        let rank_b = get_rank ranks kind b in
        if eq rank_a rank_b
        then compare a.index b.index
        else if lt rank_a rank_b
        then Ordering.lt
        else Ordering.gt

    -- phl_module_filters_post(), with the sort of the C library.
    unfoldable pub filters_post :
        ((Module R → Module R → Ordering) → List (Module R) → List (Module R))
        → Registry R
        → Ranks R
        → Lists R
    filters_post qsort r ranks kind =
        qsort (filter_cmp (ranks kind) kind)
          (add_modules (modules_at r (visit r (suc (total r)) none)) (λ k. []) kind)

-- A key or a value that Lua gives: `pos n`, or `negsuc n` for -(n + 1); a value that is no number is
-- `none`.
pub data ℤ : Type 0 where
  pos : ℕ → ℤ
  negsuc : ℕ → ℤ

-- What phl_module_filters_arbitrary() returns, or that it writes in front of the array.
pub data Stored (R : Type 0) : Type 0 where
  stored : Ranks R → Stored R
  unknown_module invalid_key invalid_rank : Stored R
  outside : Stored R

abbrev pub kind_at : ℕ → Kind
kind_at zero = process_headers
kind_at (suc zero) = process_body
kind_at (suc (suc zero)) = response_headers
kind_at (suc (suc (suc n))) = response_body

module _ {R : Type 0} where
  unfoldable pub set_rank : Kind → ℕ → R → Ranks R → Ranks R
  set_rank kind i rank ranks k j = if is_kind k kind && (j == i) then some rank else ranks k j

  unfoldable pub store_ranks : ℕ → List (ℤ × Option R) → Ranks R → Stored R
  store_ranks i [] ranks = stored ranks
  store_ranks i ((pos zero, v) ∷ rest) ranks = invalid_key
  store_ranks i ((pos (suc j), v) ∷ rest) ranks = if ltb 3 j then invalid_key else elim v [
    | none ↦ invalid_rank
    | some rank ↦ store_ranks i rest (set_rank (kind_at j) i rank ranks)
  ]
  store_ranks i ((negsuc j, v) ∷ rest) ranks = elim v [ none ↦ invalid_rank | some rank ↦ outside ]

  unfoldable pub named_module : Text → List (Module R) → Option (Module R)
  named_module name [] = none
  named_module name (m ∷ ms) =
      let rest = named_module name ms in if str_eq m.name name then some m else rest

  -- phl_module_filters_arbitrary()
  unfoldable pub filters_arbitrary : Registry R → Text → List (ℤ × Option R) → Ranks R → Stored R
  filters_arbitrary r name entries ranks =
      elim (named_module name (modules_at r (visit r (suc (total r)) none))) [
        | none ↦ unknown_module
        | some m ↦ store_ranks m.index entries ranks
      ]
