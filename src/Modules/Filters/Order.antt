-- ===== src/Modules/Filters/Order.antt =====
-- phl_module_filters_post() and phl_module_filter_cmp() in phl_module.c: the order of the filters.
use phorklift.Prelude.{
  ℕ, ◌≡◌, refl, Bool, true, false, Option, none, some, List, [], ltb, leb, ◌==◌, if◌then◌else◌, ap,
  sym, ◌∙◌, arith,
}
use mathlib.Core.List.{Perm}
use mathlib.Core.List.Perm
use mathlib.Core.Logic.{∥∥₁_elim}
use phorklift.Modules.{Kind, Module, Registry}
use phorklift.Modules.Walking.{IsFixed}
use phorklift.Modules.Filters.{Ranks, get_rank, filter_cmp, filters_post}
use phorklift.Modules.Filters.Sorting.{
  IsOrder, InOrder, sorted, eq_of_perm, sorted-perm, sorted-InOrder,
}
use phorklift.Modules.Filters.Listing.{
  having, all_modules, add_modules-having, listed, having-Mem, same_index,
}
use Prim.Native.Nat.{compare, Ordering}

-- The numbers that a configuration gives as ranks, which are not NAN: == and < are those of their
-- places in the order of such numbers.
pub record IsRanking (R : Type 0) (eq lt : R → R → Bool) : Type 0 where
  pub place_of : R → ℕ
  pub same : (a b : R) → eq a b ≡ (place_of a == place_of b)
  pub less : (a b : R) → lt a b ≡ ltb (place_of a) (place_of b)
  pub is_set : IsSet R

-- `cmp(a, b) <= 0`
unfoldable pub not_after :
    {R : Type 0} → (Module R → Module R → Ordering) → Module R → Module R → Bool
not_after cmp a b = elim (cmp a b) [ Ordering.gt ↦ false | _ ↦ true ]

-- qsort(): the result has the same elements, and they are sorted if the comparison is an order.
pub record IsQsort (R : Type 0)
    (qsort : (Module R → Module R → Ordering) → List (Module R) → List (Module R)) : Type 0 where
  pub permutes : (cmp : Module R → Module R → Ordering) (l : List (Module R)) → Perm (qsort cmp l) l
  pub sorts :
      (cmp : Module R → Module R → Ordering) (l : List (Module R))
      → IsOrder (not_after cmp)
      → InOrder (not_after cmp) (qsort cmp l)

-- The smaller rank first, and the smaller index where two ranks are equal.
unfoldable pub lex : ℕ → ℕ → ℕ → ℕ → Bool
lex p i q j = if p == q then leb i j else ltb p q

lex_total : (p i q j : ℕ) → lex p i q j ≡ false → lex q j p i ≡ true
unfolding lex
lex_total p i q j h = ground arith

lex_trans : (p i q j r k : ℕ) → lex p i q j ≡ true → lex q j r k ≡ true → lex p i r k ≡ true
unfolding lex
lex_trans p i q j r k h g = ground arith

lex_refl : (p i : ℕ) → lex p i p i ≡ true
unfolding lex
lex_refl p i = ground arith

lex_anti : (p i q j : ℕ) → lex p i q j ≡ true → lex q j p i ≡ true → i ≡ j
unfolding lex
lex_anti p i q j h g = ground arith

-- The sign of a comparison that is written with tests.
sign :
    (e l : Bool) (i j : ℕ)
    → (elim (if e then compare i j else if l then Ordering.lt else Ordering.gt) [
      | Ordering.gt ↦ false
      | _ ↦ true
    ])
      ≡ (if e then leb i j else l)
sign true l i j = refl
sign false true i j = refl
sign false false i j = refl

Module-set : {R : Type 0} → IsSet R → IsSet (Module R)
Module-set {R} s = hlevel

module _ {R : Type 0} (eq lt : R → R → Bool) (law : IsRanking R eq lt) (ranks : ℕ → Option R)
    (kind : Kind) where
  open law use {place_of}

  abbrev before : Module R → Module R → Bool
  before = not_after (filter_cmp eq lt ranks kind)

  before-lex :
      (a b : Module R)
      → before a b
        ≡ lex (place_of (get_rank ranks kind a)) a.index (place_of (get_rank ranks kind b)) b.index
  unfolding not_after filter_cmp lex
  before-lex a b =
      let p = get_rank ranks kind a in
      let q = get_rank ranks kind b in
      sign (eq p q) (lt p q) a.index b.index
      ∙ ap (λ e. if e then leb a.index b.index else lt p q) (law.same p q)
      ∙ ap (λ l. if place_of p == place_of q then leb a.index b.index else l) (law.less p q)

  pub filter_cmp-IsOrder : IsOrder before
  filter_cmp-IsOrder = record {
    reflexive = λ a. before-lex a a ∙ lex_refl _ _;
    total = λ a b h. before-lex b a ∙ lex_total _ _ _ _ (sym (before-lex a b) ∙ h);
    transitive = λ a b c h g.
        before-lex a c
        ∙ lex_trans _ _ _ _ _ _ (sym (before-lex a b) ∙ h) (sym (before-lex b c) ∙ g);
  }

  before-index : (a b : Module R) → before a b ≡ true → before b a ≡ true → a.index ≡ b.index
  before-index a b h g = lex_anti _ _ _ _ (sym (before-lex a b) ∙ h) (sym (before-lex b a) ∙ g)

-- The rank that the configuration gives to a module, else the module's own.
unfoldable pub rank_for : {R : Type 0} → Option R → R → R
rank_for (some configured) own = configured
rank_for none own = own

unfoldable pub by_rank : {R : Type 0} → (R → ℕ) → (ℕ → Option R) → Kind → Module R → Module R → Bool
by_rank place_of ranks kind a b =
    lex (place_of (rank_for (ranks a.index) (a.ranks kind))) a.index
      (place_of (rank_for (ranks b.index) (b.ranks kind))) b.index

get_rank-rank_for :
    {R : Type 0} (o : Option R) (own : R)
    → (elim o [ some rank ↦ rank | none ↦ own ]) ≡ rank_for o own
unfolding rank_for
get_rank-rank_for (some r) own = refl
get_rank-rank_for none own = refl

module _ {R : Type 0} (eq lt : R → R → Bool) (law : IsRanking R eq lt) (ranks : ℕ → Option R)
    (kind : Kind) where
  open law use {place_of}

  not_after-by_rank : not_after (filter_cmp eq lt ranks kind) ≡ by_rank place_of ranks kind
  unfolding by_rank get_rank
  not_after-by_rank = λ i a b.
      (before-lex eq lt law ranks kind a b
          ∙ ap (λ p. lex (place_of p) a.index (place_of (get_rank ranks kind b)) b.index)
              (get_rank-rank_for (ranks a.index) (a.ranks kind))
          ∙ ap
              (λ q.
                lex (place_of (rank_for (ranks a.index) (a.ranks kind))) a.index (place_of q)
                  b.index)
              (get_rank-rank_for (ranks b.index) (b.ranks kind)))
        i

module _ {R : Type 0} where
  module _ (eq lt : R → R → Bool) (law : IsRanking R eq lt) where
    -- Whatever the sort of the C library does with equal elements, the filters of a kind are those
    -- modules that have one, in the order of their ranks for it, a module of a smaller index first
    -- where two ranks are equal; an insertion sort gives the same list. The rank of a module is the one
    -- that the configuration gives it, else its own. Every module has its own index, and no rank is
    -- NAN.
    pub filters_post-sorted :
        (qsort : (Module R → Module R → Ordering) → List (Module R) → List (Module R))
        (r : Registry R) (ranks : Ranks R) (kind : Kind)
        → IsQsort R qsort
        → IsFixed r
        → filters_post eq lt qsort r ranks kind
          ≡ sorted (by_rank law.place_of (ranks kind) kind) (having kind (all_modules r))
    unfolding filters_post
    filters_post-sorted qsort r ranks kind q f =
        let cmp = filter_cmp eq lt (ranks kind) kind in
        let order = filter_cmp-IsOrder eq lt law (ranks kind) kind in
        let l = having kind (all_modules r) in
        ap (qsort cmp) (add_modules-having kind _ (λ k. []) ∙ ap (having kind) (listed r f))
        ∙ eq_of_perm (not_after cmp) order (qsort cmp l) (sorted (not_after cmp) l)
            (λ a b ha hb before_b before_a.
              let one_module = Module-set law.is_set a b in
              let member = λ (x : Module R). (Perm.mem_iff {a = x} (q.permutes cmp l)).0 in
              ∥∥₁_elim (member a ha) one_module (λ da. ∥∥₁_elim (member b hb) one_module (λ db.
                same_index r a b f (having-Mem kind _ a da) (having-Mem kind _ b db)
                  (before-index eq lt law (ranks kind) kind a b before_b before_a))))
            (q.sorts cmp l order) (sorted-InOrder (not_after cmp) order l)
            (Perm.trans (q.permutes cmp l) (Perm.symm (sorted-perm (not_after cmp) l)))
        ∙ ap (λ t. sorted t l) (not_after-by_rank eq lt law (ranks kind) kind)
