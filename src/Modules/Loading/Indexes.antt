-- ===== src/Modules/Loading/Indexes.antt =====
-- phl_module_master_init() and phl_module_dynamic_post() in phl_module.c: the indexes of the modules.
use phorklift.Prelude.{
  ℕ, zero, suc, ◌+◌, ◌<◌, ◌≡◌, refl, Option, none, some, List, [], ◌∷◌, ◌++◌, Text, length,
  get_elem?, ap, ◌≢◌, ◌∙◌, Bool, ◌==◌, All, map, if_intro, arith, length-append, subst,
}
use phorklift.Modules.{Module, Registry, dynamic_list}
use phorklift.Modules.Walking.{IsFixed}
use phorklift.Modules.Filters.Listing.{all_modules, module_at-place}
use phorklift.Modules.Loading.{
  Loaded, invalid_filename, cannot_open, no_symbol, loaded, Memory, Posted, failed, posted,
  dynamic_load, set_up, and_module, dynamic_post, master_init,
}

-- The modules of a list have the indexes from one on.
pub Numbered : {R : Type 0} → ℕ → List (Module R) → Type 0
Numbered i [] = Unit
Numbered i (m ∷ ms) = (m.index ≡ i) × Numbered (suc i) ms

-- The pointers of a list are different.
unfoldable pub Distinct : List ℕ → Type 0
Distinct [] = Unit
Distinct (m ∷ ms) = All (λ p. m ≢ p) ms × Distinct ms

module _ {R : Type 0} where
  Numbered-append :
      (i j : ℕ) (xs ys : List (Module R))
      → j ≡ i + length xs
      → Numbered i xs
      → Numbered j ys
      → Numbered i (xs ++ ys)
  unfolding Numbered
  Numbered-append i j [] ys e n m = subst (λ k. Numbered k ys) (omega arith) m
  Numbered-append i j (x ∷ xs) ys e (h, n) m =
      (h, Numbered-append (suc i) j xs ys (omega arith) n m)

  abbrev index_of : Option (Module R) → ℕ
  index_of o = elim o [ none ↦ 0 | some m ↦ m.index ]

  Numbered-get :
      (i k : ℕ) (ms : List (Module R))
      → k < length ms
      → Numbered i ms
      → index_of (get_elem? ms k) ≡ i + k
  unfolding Numbered
  Numbered-get i k [] l n = let no : ⊥ = omega arith in elim no [ ]
  Numbered-get i zero (m ∷ ms) l (h, n) = h ∙ omega arith
  Numbered-get i (suc k) (m ∷ ms) l (h, n) = Numbered-get (suc i) k ms (omega arith) n ∙ omega arith

  Numbered-IsFixed :
      (r : Registry R) → 0 < length r.statics → Numbered 0 (all_modules r) → IsFixed r
  Numbered-IsFixed r l n = record {
    some_static = l;
    indexes = λ k b.
        ap index_of (module_at-place r k)
        ∙ Numbered-get 0 k (all_modules r)
            (let c = length-append r.statics (dynamic_list r) in omega arith) n
        ∙ omega arith;
  }

  master_init-Numbered : (i : ℕ) (ms : List (Module R)) → Numbered i (master_init i ms)
  unfolding master_init Numbered
  master_init-Numbered i [] = tt
  master_init-Numbered i (m ∷ ms) = (refl, master_init-Numbered (suc i) ms)

  length-master_init : (i : ℕ) (ms : List (Module R)) → length (master_init i ms) ≡ length ms
  unfolding master_init
  length-master_init i [] = refl
  length-master_init i (m ∷ ms) = ap suc (length-master_init (suc i) ms)

  -- Other modules are as they were before, and those of different pointers have the indexes from one on.
  abbrev Posts : ℕ → List Text → Memory R → Posted R → Type 0
  Posts i names memory (failed name err) = Unit
  Posts i names memory (posted ms inits after) =
      (length ms ≡ length names)
      × ((p : ℕ) → All (λ m. p ≢ m) ms → after p ≡ memory p)
      × (Distinct ms → Numbered i (map after ms))

  set_up-same : (i m : ℕ) (memory : Memory R) → (set_up i m memory m).index ≡ i
  unfolding set_up
  set_up-same i m memory =
      if_intro (λ (x : Module R). x.index ≡ i) (m == m) _ _ (λ t. refl)
        (λ f. let no : ⊥ = ground arith in elim no [ ])

  set_up-other : (i m p : ℕ) (memory : Memory R) → p ≢ m → set_up i m memory p ≡ memory p
  unfolding set_up
  set_up-other i m p memory n =
      if_intro (λ (x : Module R). x ≡ memory p) (p == m) _ _
        (λ t. let no : ⊥ = n (ground arith) in elim no [ ]) (λ f. refl)

  and_module-Posts :
      (i : ℕ) (name : Text) (names : List Text) (m : ℕ) (b : Bool) (memory : Memory R)
      (rest : Posted R)
      → Posts (suc i) names (set_up i m memory) rest
      → Posts i (name ∷ names) memory (and_module i m b rest)
  unfolding Numbered Distinct
  and_module-Posts i name names m b memory (failed n err) p = tt
  and_module-Posts i name names m b memory (posted ms inits after) (l, same, n) = (
    ap suc l,
    (λ p (other, others). same p others ∙ set_up-other i m p memory other),
    (λ (others, d). (ap (λ x. x.index) (same m others) ∙ set_up-same i m memory, n d)),
  )

  module _ {H : Type 0} (dlopen : Text → Option H) (dlsym : H → Text → Option ℕ) where
    dynamic_post-Posts :
        (i : ℕ) (names : List Text) (memory : Memory R)
        → Posts i names memory (dynamic_post dlopen dlsym i names memory)
    unfolding dynamic_post Numbered
    dynamic_post-Posts i [] memory = (refl, (λ p others. refl), (λ d. tt))
    dynamic_post-Posts i (name ∷ names) memory =
        go (dynamic_load dlopen dlsym name)
          (λ m. dynamic_post-Posts (suc i) names (set_up i m memory))
      where
        rest : ℕ → Posted R
        rest m = dynamic_post dlopen dlsym (suc i) names (set_up i m memory)

        go :
            (o : Loaded)
            → ((m : ℕ) → Posts (suc i) names (set_up i m memory) (rest m))
            → Posts i (name ∷ names) memory (elim o [
              | loaded m ↦ and_module i m (memory m).has_master_init (rest m)
              | err ↦ failed name err
            ])
        go (loaded m) p =
            and_module-Posts i name names m ((memory m).has_master_init) memory (rest m) (p m)
        go invalid_filename p = tt
        go cannot_open p = tt
        go no_symbol p = tt

    -- After the start of the program, which has a static module, and a configuration that loads any
    -- number of files, every module has its own index: its place among the static modules, or after
    -- them its place among the files. No two of the files give one module, as one file does that is
    -- named twice.
    pub dynamic_post-IsFixed :
        (statics : List (Module R)) (names : List Text) (memory after : Memory R)
        (ms inits : List ℕ)
        → 0 < length statics
        → dynamic_post dlopen dlsym (length statics) names memory ≡ posted ms inits after
        → Distinct ms
        → IsFixed (record { statics = master_init 0 statics; dynamics = some (map after ms) })
    dynamic_post-IsFixed statics names memory after ms inits l e d =
        let r : Registry R = record {
          statics = master_init 0 statics;
          dynamics = some (map after ms);
        } in
        let n = length-master_init 0 statics in
        let p =
          subst (Posts (length statics) names memory) e
            (dynamic_post-Posts (length statics) names memory) in
        Numbered-IsFixed r (omega arith) (
          Numbered-append 0 (length statics) (master_init 0 statics) (map after ms) (omega arith)
            (master_init-Numbered 0 statics) (p.2 d))
