-- ===== src/Modules/Filters/Sorting.antt =====
-- For the qsort() of phl_module_filters_post() in phl_module.c: a list has one sorted order, if the
-- order tells its members apart.
use phorklift.Prelude.{◌≡◌, Bool, true, false, List, [], ◌∷◌, if◌then◌else◌, if_intro, ap, ◌∙◌}
use mathlib.Core.Bool.{Bool-set}
use mathlib.Core.List.{
  Mem, Perm, Pairwise, Pairwise-singleton, mem-cons_self, mem-cons_of_mem, forall_mem-cons,
}
use mathlib.Core.List.Pairwise
use mathlib.Core.List.Perm

module _ {A : Type 0} (before : A → A → Bool) where
  -- A reference for the sorts: insertion, one element after the other.
  unfoldable pub insert : A → List A → List A
  insert x [] = x ∷ []
  insert x (y ∷ ys) = let rest = insert x ys in if before x y then x ∷ y ∷ ys else y ∷ rest

  unfoldable pub sorted : List A → List A
  sorted [] = []
  sorted (x ∷ xs) = insert x (sorted xs)

  abbrev pub Before : A → A → Type 0
  Before x y = before x y ≡ true

  abbrev pub InOrder : List A → Type 0
  InOrder = Pairwise Before

  pub record IsOrder : Type 0 where
    pub reflexive : (x : A) → Before x x
    pub total : (x y : A) → before x y ≡ false → Before y x
    pub transitive : (x y z : A) → Before x y → Before y z → Before x z

  abbrev Below : A → List A → Type 0
  Below x l = (y : A) → Mem y l → Before x y

  Below-cons : (x y : A) (l : List A) → Before x y → Below x l → Below x (y ∷ l)
  Below-cons x y l b h = (forall_mem-cons (λ z. Bool-set (before x z) true)).1 (b, h)

  insert-perm : (x : A) (l : List A) → Perm (insert x l) (x ∷ l)
  unfolding insert
  insert-perm x [] = Perm.rfl
  insert-perm x (y ∷ l) =
      if_intro (λ k. Perm k (x ∷ y ∷ l)) (before x y) _ _ (λ t. Perm.rfl)
        (λ f. Perm.trans (Perm.cons y (insert-perm x l)) (Perm.swap x y l))

  pub sorted-perm : (l : List A) → Perm (sorted l) l
  unfolding sorted
  sorted-perm [] = Perm.rfl
  sorted-perm (x ∷ l) = Perm.trans (insert-perm x (sorted l)) (Perm.cons x (sorted-perm l))

  module _ (o : IsOrder) where
    Below-head : (x y : A) (l : List A) → Before x y → InOrder (y ∷ l) → Below x (y ∷ l)
    Below-head x y l b (Pairwise.cons h s) =
        Below-cons x y l b (λ z m. o.transitive x y z b (h z m))

    heads : (x y : A) (l r : List A) → InOrder (x ∷ l) → Perm (y ∷ r) (x ∷ l) → Before x y
    heads x y l r s p = Below-head x x l (o.reflexive x) s y ((Perm.mem_iff p).0 mem-cons_self)

    -- The order tells the members of a list apart.
    abbrev pub Apart : List A → Type 0
    Apart l = (x y : A) → Mem x l → Mem y l → Before x y → Before y x → x ≡ y

    pub eq_of_perm : (l r : List A) → Apart l → InOrder l → InOrder r → Perm l r → l ≡ r
    eq_of_perm [] r a s t p = Perm.nil-eq p
    eq_of_perm (x ∷ l) [] a s t p = Perm.eq-nil p
    eq_of_perm (x ∷ l) (y ∷ r) a s t p =
        let e =
          a x y mem-cons_self ((Perm.mem_iff p).1 mem-cons_self) (heads x y l r s (Perm.symm p))
            (heads y x r l t p) in
        let tails = Perm.cons_inv (Perm.trans p (Perm.symm (Perm.cons' e Perm.rfl))) in
        ap (λ z. z ∷ l) e
        ∙ ap (λ k. y ∷ k)
            (eq_of_perm l r (λ u v m n. a u v (mem-cons_of_mem x m) (mem-cons_of_mem x n))
              (Pairwise.of_cons s) (Pairwise.of_cons t) tails)

    insert-InOrder : (x : A) (l : List A) → InOrder l → InOrder (insert x l)
    unfolding insert
    insert-InOrder x [] s = Pairwise-singleton Before x
    insert-InOrder x (y ∷ l) (Pairwise.cons h s) =
        if_intro InOrder (before x y) _ _
          (λ t. Pairwise.cons (Below-head x y l t (Pairwise.cons h s)) (Pairwise.cons h s))
          (λ f.
            Pairwise.cons
              (λ z m. Below-cons y x l (o.total x y f) h z ((Perm.mem_iff (insert-perm x l)).0 m))
              (insert-InOrder x l s))

    pub sorted-InOrder : (l : List A) → InOrder (sorted l)
    unfolding sorted
    sorted-InOrder [] = Pairwise.nil
    sorted-InOrder (x ∷ l) = insert-InOrder x (sorted l) (sorted-InOrder l)
