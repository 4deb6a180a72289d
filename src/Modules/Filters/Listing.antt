-- ===== src/Modules/Filters/Listing.antt =====
-- phl_module_filters_post() in phl_module.c: which modules its loops visit and list.
use phorklift.Prelude.{
  ℕ, zero, suc, ◌+◌, ◌-◌, ◌<◌, ◌≡◌, refl, true, false, Option, none, some, List, [], ◌∷◌, ◌++◌,
  length, length-append, get_elem?, ltb, if◌then◌else◌, if_intro, ap, sym, ◌∙◌, arith,
}
use mathlib.Core.List.{Memᴰ, append-nil, append_assoc}
use phorklift.Modules.{Kind, Module, Registry, Place, dynamic_list, module_at, visit, total}
use phorklift.Modules.Walking.{IsFixed, visit-places, places, place}
use phorklift.Modules.Filters.{Lists, modules_at, add_module, add_modules}

one : (k : ℕ) → k + 1 ≡ suc k
one k = omega arith

-- The members of a list that have a filter of a kind.
unfoldable pub having : {R : Type 0} → Kind → List (Module R) → List (Module R)
having kind [] = []
having kind (m ∷ ms) = let rest = having kind ms in if m.filters kind then m ∷ rest else rest

module _ {R : Type 0} where
  having-true :
      (kind : Kind) (m : Module R) (ms : List (Module R))
      → m.filters kind ≡ true
      → having kind (m ∷ ms) ≡ m ∷ having kind ms
  unfolding having
  having-true kind m ms t = rw t

  having-false :
      (kind : Kind) (m : Module R) (ms : List (Module R))
      → m.filters kind ≡ false
      → having kind (m ∷ ms) ≡ having kind ms
  unfolding having
  having-false kind m ms f = rw f

  pub add_modules-having :
      (kind : Kind) (ms : List (Module R)) (lists : Lists R)
      → add_modules ms lists kind ≡ lists kind ++ having kind ms
  unfolding add_modules add_module having
  add_modules-having kind [] lists = sym (append-nil (lists kind))
  add_modules-having kind (m ∷ ms) lists =
      add_modules-having kind ms (add_module m lists)
      ∙ if_intro (λ l. l ++ having kind ms ≡ lists kind ++ having kind (m ∷ ms)) (m.filters kind) _
          _
          (λ t.
            append_assoc (lists kind) (m ∷ []) (having kind ms)
            ∙ ap (λ l. lists kind ++ l) (sym (having-true kind m ms t)))
          (λ f. ap (λ l. lists kind ++ l) (sym (having-false kind m ms f)))

  -- The modules, in the order of their indexes.
  abbrev pub all_modules : Registry R → List (Module R)
  all_modules r = r.statics ++ dynamic_list r

  front_of :
      (xs ys : List (Module R)) (k : ℕ)
      → ltb k (length xs) ≡ true
      → get_elem? xs k ≡ get_elem? (xs ++ ys) k
  front_of [] ys k l = let no : ⊥ = ground arith in elim no [ ]
  front_of (x ∷ xs) ys zero l = refl
  front_of (x ∷ xs) ys (suc k) l = front_of xs ys k (ground arith)

  back_of :
      (xs ys : List (Module R)) (k : ℕ)
      → ltb k (length xs) ≡ false
      → get_elem? ys (k - length xs) ≡ get_elem? (xs ++ ys) k
  back_of [] ys k l = ap (get_elem? ys) (omega arith)
  back_of (x ∷ xs) ys zero l = let no : ⊥ = ground arith in elim no [ ]
  back_of (x ∷ xs) ys (suc k) l =
      let e : suc k - suc (length xs) ≡ k - length xs = omega arith in
      ap (get_elem? ys) e ∙ back_of xs ys k (ground arith)

  pub module_at-place :
      (r : Registry R) (k : ℕ) → module_at r (place r k) ≡ get_elem? (all_modules r) k
  unfolding place
  module_at-place r k =
      if_intro (λ (p : Place). module_at r p ≡ get_elem? (all_modules r) k)
        (ltb k (length r.statics)) _ _ (front_of r.statics (dynamic_list r) k)
        (back_of r.statics (dynamic_list r) k)

  get_elem?-middle :
      (front back : List (Module R)) (m : Module R)
      → get_elem? (front ++ m ∷ back) (length front) ≡ some m
  get_elem?-middle [] back m = refl
  get_elem?-middle (x ∷ front) back m = get_elem?-middle front back m

  then_at : Registry R → List Place → Option (Module R) → List (Module R)
  then_at r ps o = elim o [ none ↦ modules_at r ps | some m ↦ m ∷ modules_at r ps ]

  modules_at-places :
      (r : Registry R) (front back : List (Module R))
      → all_modules r ≡ front ++ back
      → modules_at r (places r (length front) (length back)) ≡ back
  unfolding modules_at places then_at
  modules_at-places r front [] e = refl
  modules_at-places r front (m ∷ back) e =
      let k = length front in
      let here : module_at r (place r k) ≡ some m =
        module_at-place r k ∙ ap (λ l. get_elem? l k) e ∙ get_elem?-middle front back m in
      let next : length (front ++ m ∷ []) ≡ suc k = length-append front (m ∷ []) ∙ one k in
      ap (then_at r (places r (suc k) (length back))) here
      ∙ ap (λ n. m ∷ modules_at r (places r n (length back))) (sym next)
      ∙ ap (λ l. m ∷ l)
          (modules_at-places r (front ++ m ∷ []) back (e ∙ sym (append_assoc front (m ∷ []) back)))

  pub listed :
      (r : Registry R) → IsFixed r → modules_at r (visit r (suc (total r)) none) ≡ all_modules r
  listed r f =
      ap (modules_at r) (visit-places r f)
      ∙ ap (λ n. modules_at r (places r 0 n)) (sym (length-append r.statics (dynamic_list r)))
      ∙ modules_at-places r [] (all_modules r) refl

  extend :
      (x m : Module R) (k l : List (Module R))
      → (Memᴰ m k → Memᴰ m l)
      → Memᴰ m (x ∷ k)
      → Memᴰ m (x ∷ l)
  extend x m k l f (Memᴰ.head e) = Memᴰ.head e
  extend x m k l f (Memᴰ.tail d) = Memᴰ.tail (f d)

  pub having-Mem :
      (kind : Kind) (ms : List (Module R)) (m : Module R) → Memᴰ m (having kind ms) → Memᴰ m ms
  unfolding having
  having-Mem kind [] m = λ h. h
  having-Mem kind (x ∷ ms) m =
      if_intro (λ l. Memᴰ m l → Memᴰ m (x ∷ ms)) (x.filters kind) _ _
        (λ t. extend x m (having kind ms) ms (having-Mem kind ms m))
        (λ f h. Memᴰ.tail (having-Mem kind ms m h))

  position :
      (m : Module R) (l : List (Module R))
      → Memᴰ m l
      → (k : ℕ) × (k < length l) × (get_elem? l k ≡ some m)
  position m [] d = elim d [ ]
  position m (x ∷ l) (Memᴰ.head e) = (0, omega arith, ap some (sym e))
  position m (x ∷ l) (Memᴰ.tail d) = let (k, b, e) = position m l d in (suc k, omega arith, e)

  index_of_Mem :
      (r : Registry R) (m : Module R)
      → IsFixed r
      → Memᴰ m (all_modules r)
      → get_elem? (all_modules r) m.index ≡ some m
  index_of_Mem r m f d =
      let (k, b, e) = position m (all_modules r) d in
      let n = length-append r.statics (dynamic_list r) in
      let i : m.index ≡ k =
        ap (λ o. elim o [ none ↦ 0 | some x ↦ x.index ]) (sym (module_at-place r k ∙ e))
        ∙ f.indexes k (omega arith) in
      ap (get_elem? (all_modules r)) i ∙ e

  abbrev or_module : Module R → Option (Module R) → Module R
  or_module m none = m
  or_module m (some x) = x

  pub same_index :
      (r : Registry R) (a b : Module R)
      → IsFixed r
      → Memᴰ a (all_modules r)
      → Memᴰ b (all_modules r)
      → a.index ≡ b.index
      → a ≡ b
  same_index r a b f d e i =
      ap (or_module a)
        (sym (index_of_Mem r a f d) ∙ ap (get_elem? (all_modules r)) i ∙ index_of_Mem r b f e)
