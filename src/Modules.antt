-- ===== src/Modules.antt =====
-- phl_module.c: the filter modules, compiled in or loaded, and the walk over them.
pub mod Filters
pub mod Loading
pub mod Walking
mod Tests
use phorklift.Prelude.{
  ℕ, zero, suc, ◌+◌, ◌-◌, Bool, true, false, Option, none, some, List, [], ◌∷◌, ◌++◌, Text, length,
  get_elem?, ltb, if◌then◌else◌, ◌≡◌,
}

-- The four kinds of filters, in the order of the enumeration.
pub data Kind : Type 0 where
  process_headers process_body response_headers response_body : Kind

-- `struct phl_module`, with its ranks in some type of numbers; `filters` says which of them it has.
pub record Module (R : Type 0) : Type 0 where
  pub name : Text
  pub index : ℕ
  pub filters : Kind → Bool
  pub ranks : Kind → R
  pub has_ctx_free : Bool
  pub has_worker_init : Bool
  pub has_master_init : Bool

-- `phl_module_statics`, and `phl_conf_runtime->dynamic_modules`, if there is one, up to the NULL that
-- ends it.
pub record Registry (R : Type 0) : Type 0 where
  pub statics : List (Module R)
  pub dynamics : Option (List (Module R))

-- A pointer to a module.
pub data Place : Type 0 where
  static_at : ℕ → Place
  dynamic_at : ℕ → Place

module _ {R : Type 0} where
  abbrev pub dynamic_list : Registry R → List (Module R)
  dynamic_list r = elim r.dynamics [ none ↦ [] | some ms ↦ ms ]

  abbrev pub module_at : Registry R → Place → Option (Module R)
  module_at r (static_at i) = get_elem? r.statics i
  module_at r (dynamic_at i) = get_elem? (dynamic_list r) i

  abbrev pub index_at : Registry R → Place → ℕ
  index_at r p = elim (module_at r p) [ none ↦ 0 | some m ↦ m.index ]

  -- `dynamic_modules[i].sym`
  abbrev pub sym_at : List (Module R) → ℕ → Option Place
  sym_at ms i = elim (get_elem? ms i) [ none ↦ none | some m ↦ some (dynamic_at i) ]

  -- The module that phl_module_next() gives for `next`.
  unfoldable pub from_index : Registry R → ℕ → Option Place
  from_index r next =
      if ltb next (length r.statics)
      then some (static_at next)
      else elim r.dynamics [ none ↦ none | some ms ↦ sym_at ms (next - length r.statics) ]

  -- phl_module_next()
  unfoldable pub next_module : Registry R → Option Place → Option Place
  next_module r none = some (static_at 0)
  next_module r (some p) = from_index r (suc (index_at r p))

  -- The loops `while ((m = phl_module_next(m)) != NULL)`: the modules that they visit.
  unfoldable pub visit : Registry R → ℕ → Option Place → List Place
  visit r zero p = []
  visit r (suc n) p = elim (next_module r p) [ none ↦ [] | some q ↦ q ∷ visit r n (some q) ]

  abbrev pub total : Registry R → ℕ
  total r = length r.statics + length (dynamic_list r)
