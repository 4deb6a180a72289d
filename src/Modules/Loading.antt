-- ===== src/Modules/Loading.antt =====
-- Loading of modules: phl_module_master_init(), phl_module_dynamic_load() and
-- phl_module_dynamic_post() of phl_module.c. The functions of the linker, dlopen() and dlsym(), are
-- parameters.
pub mod Names
pub mod Indexes
use phorklift.Prelude.{
  ℕ, zero, suc, ◌+◌, ◌-◌, Bool, true, false, ◌&&◌, not, Option, none, some, List, [], ◌∷◌, ◌++◌,
  Text, length, take, drop, starts_with, str_eq, ◌==◌, if◌then◌else◌,
}
use phorklift.Modules.{Module}

-- strrchr(s, '/'), and the step past it.
unfoldable pub after_slash : Text → Option Text
after_slash [] = none
after_slash (c ∷ s) = elim (after_slash s) [
  | some p ↦ some p
  | none ↦ if c == b'/' then some s else none
]

unfoldable pub base_name : Text → Text
base_name s = elim (after_slash s) [ none ↦ s | some p ↦ p ]

abbrev pub prefix : Text
prefix = b'p' ∷ b'h' ∷ b'l' ∷ b'_' ∷ []

abbrev pub extension : Text
extension = b'.' ∷ b's' ∷ b'o' ∷ []

abbrev pub suffix : Text
suffix = b'_' ∷ b'm' ∷ b'o' ∷ b'd' ∷ b'u' ∷ b'l' ∷ b'e' ∷ []

-- The test of the file's name, without its directory, and the name of the symbol.
unfoldable pub mod_name_of : Text → Option Text
mod_name_of p =
    if starts_with prefix p && str_eq (drop (length p - 3) p) extension
    then some (take (length p - 3) p ++ suffix)
    else none

unfoldable pub mod_name : Text → Option Text
mod_name filename = mod_name_of (base_name filename)

-- What phl_module_dynamic_load() returns, with `d->sym`, a pointer.
pub data Loaded : Type 0 where
  invalid_filename cannot_open no_symbol : Loaded
  loaded : ℕ → Loaded

-- The modules that the linker has put into memory, by their addresses.
abbrev pub Memory : Type 0 → Type 0
Memory R = ℕ → Module R

-- What phl_module_dynamic_post() returns, with the pointers of the configuration, the indexes for
-- which a `master_init` has run, and the memory.
pub data Posted (R : Type 0) : Type 0 where
  failed : Text → Loaded → Posted R
  posted : List ℕ → List ℕ → Memory R → Posted R

-- phl_module_fix(), and `m->master_init = NULL` after its call, in place.
unfoldable pub set_up : {R : Type 0} → ℕ → ℕ → Memory R → Memory R
set_up i m memory p =
    if p == m then record (memory m) { index = i; has_master_init = false } else memory p

abbrev pub and_module : {R : Type 0} → ℕ → ℕ → Bool → Posted R → Posted R
and_module i m has_master_init (failed name err) = failed name err
and_module i m has_master_init (posted ms inits memory) =
    posted (m ∷ ms) (if has_master_init then i ∷ inits else inits) memory

module _ {H : Type 0} (dlopen : Text → Option H) (dlsym : H → Text → Option ℕ) where
  abbrev symbol_of : Option ℕ → Loaded
  symbol_of none = no_symbol
  symbol_of (some m) = loaded m

  unfoldable pub dynamic_load : Text → Loaded
  dynamic_load filename = elim (mod_name filename) [
    | none ↦ invalid_filename
    | some name ↦ elim (dlopen filename) [
      | none ↦ cannot_open
      | some handle ↦ symbol_of (dlsym handle name)
    ]
  ]

  -- The loop over the configured files, the first of which has the index `i`.
  unfoldable pub dynamic_post : {R : Type 0} → ℕ → List Text → Memory R → Posted R
  dynamic_post i [] memory = posted [] [] memory
  dynamic_post i (name ∷ names) memory = elim (dynamic_load name) [
    | loaded m ↦
        and_module i m (memory m).has_master_init (dynamic_post (suc i) names (set_up i m memory))
    | err ↦ failed name err
  ]

-- phl_module_master_init(): the static modules, whose `master_init` is left.
unfoldable pub master_init : {R : Type 0} → ℕ → List (Module R) → List (Module R)
master_init i [] = []
master_init i (m ∷ ms) = record m { index = i } ∷ master_init (suc i) ms
