-- ===== src/Modules/Walking.antt =====
-- phl_module_next() in phl_module.c: the walk over the modules.
use phorklift.Prelude.{
  ℕ, zero, suc, ◌+◌, ◌-◌, ◌≤◌, ◌<◌, ◌≡◌, refl, true, false, Option, none, some, List, [], ◌∷◌,
  length, ltb, get_elem?, if◌then◌else◌, ap, sym, ◌∙◌, arith, inl, inr, Bool-cases,
}
use phorklift.Modules.{
  Module, Registry, Place, static_at, dynamic_at, index_at, sym_at, from_index, next_module, visit,
  total,
}

pub get_elem?-some :
    {A : Type 0} (xs : List A) (i : ℕ) → i < length xs → (x : A) × (get_elem? xs i ≡ some x)
get_elem?-some [] i l = let no : ⊥ = omega arith in elim no [ ]
get_elem?-some (x ∷ xs) zero l = (x, refl)
get_elem?-some (x ∷ xs) (suc i) l = get_elem?-some xs i (omega arith)

pub get_elem?-none : {A : Type 0} (xs : List A) (i : ℕ) → length xs ≤ i → get_elem? xs i ≡ none
get_elem?-none [] i l = refl
get_elem?-none (x ∷ xs) zero l = let no : ⊥ = omega arith in elim no [ ]
get_elem?-none (x ∷ xs) (suc i) l = get_elem?-none xs i (omega arith)

module _ {R : Type 0} where
  -- The module of an index.
  unfoldable pub place : Registry R → ℕ → Place
  place r k = if ltb k (length r.statics) then static_at k else dynamic_at (k - length r.statics)

  -- There is a static module, and every module has its own index.
  pub record IsFixed (r : Registry R) : Type 0 where
    pub some_static : 0 < length r.statics
    pub indexes : (k : ℕ) → k < total r → index_at r (place r k) ≡ k

  unfoldable pub places : Registry R → ℕ → ℕ → List Place
  places r k zero = []
  places r k (suc n) = place r k ∷ places r (suc k) n

  sym_at-some : (ms : List (Module R)) (i : ℕ) → i < length ms → sym_at ms i ≡ some (dynamic_at i)
  sym_at-some ms i l =
      ap (λ o. elim o [ none ↦ none | some m ↦ some (dynamic_at i) ]) ((get_elem?-some ms i l).1)

  sym_at-none : (ms : List (Module R)) (i : ℕ) → length ms ≤ i → sym_at ms i ≡ none
  sym_at-none ms i l =
      ap (λ o. elim o [ none ↦ none | some m ↦ some (dynamic_at i) ]) (get_elem?-none ms i l)

  abbrev list_of : Option (List (Module R)) → List (Module R)
  list_of o = elim o [ none ↦ [] | some ms ↦ ms ]

  abbrev dynamic_from : Option (List (Module R)) → ℕ → Option Place
  dynamic_from o i = elim o [ none ↦ none | some ms ↦ sym_at ms i ]

  dynamic_from-some :
      (o : Option (List (Module R))) (i : ℕ)
      → i < length (list_of o)
      → dynamic_from o i ≡ some (dynamic_at i)
  dynamic_from-some none i l = let no : ⊥ = omega arith in elim no [ ]
  dynamic_from-some (some ms) i l = sym_at-some ms i l

  dynamic_from-none :
      (o : Option (List (Module R))) (i : ℕ) → length (list_of o) ≤ i → dynamic_from o i ≡ none
  dynamic_from-none none i l = refl
  dynamic_from-none (some ms) i l = sym_at-none ms i l

  pub from_index-place : (r : Registry R) (n : ℕ) → n < total r → from_index r n ≡ some (place r n)
  unfolding from_index place
  from_index-place r n l = elim (Bool-cases (ltb n (length r.statics))) [
    | inl t ↦ rw t
    | inr f ↦ rw f (dynamic_from-some r.dynamics (n - length r.statics) (ground arith))
  ]

  pub from_index-none : (r : Registry R) (n : ℕ) → total r ≤ n → from_index r n ≡ none
  unfolding from_index
  from_index-none r n l =
      let f : ltb n (length r.statics) ≡ false = ground arith in
      rw f (dynamic_from-none r.dynamics (n - length r.statics) (omega arith))

  abbrev then_visit : Registry R → ℕ → Option Place → List Place
  then_visit r n o = elim o [ none ↦ [] | some q ↦ q ∷ visit r n (some q) ]

  visit-from :
      (r : Registry R) (m k : ℕ)
      → IsFixed r
      → total r ≡ m + suc k
      → visit r (suc m) (some (place r k)) ≡ places r (suc k) m
  unfolding visit next_module places
  visit-from r zero k f t = ap (then_visit r 0) (
      ap (λ i. from_index r (suc i)) (f.indexes k (omega arith))
      ∙ from_index-none r (suc k) (omega arith))
  visit-from r (suc m) k f t =
      ap (then_visit r (suc m)) (
        ap (λ i. from_index r (suc i)) (f.indexes k (omega arith))
        ∙ from_index-place r (suc k) (omega arith))
      ∙ ap (λ l. place r (suc k) ∷ l) (visit-from r m (suc k) f (omega arith))

  place-zero : (r : Registry R) → 0 < length r.statics → place r 0 ≡ static_at 0
  unfolding place
  place-zero r l = let t : ltb 0 (length r.statics) ≡ true = ground arith in rw t

  visit-first :
      (r : Registry R) (m : ℕ)
      → IsFixed r
      → total r ≡ suc m
      → visit r (suc (suc m)) none ≡ places r 0 (suc m)
  unfolding visit next_module places
  visit-first r m f e =
      let z = place-zero r f.some_static in
      ap (λ p. p ∷ visit r (suc m) (some p)) (sym z)
      ∙ ap (λ l. place r 0 ∷ l) (visit-from r m 0 f (omega arith))

  -- When every module has its own index, and there is one that is compiled in, a loop over the modules
  -- visits each of them once, in the order of their indexes, and ends.
  pub visit-places :
      (r : Registry R) → IsFixed r → visit r (suc (total r)) none ≡ places r 0 (total r)
  visit-places r f = go (total r) refl
    where
      go : (n : ℕ) → total r ≡ n → visit r (suc n) none ≡ places r 0 n
      go zero e = let no : ⊥ = let s = f.some_static in omega arith in elim no [ ]
      go (suc m) e = visit-first r m f e
