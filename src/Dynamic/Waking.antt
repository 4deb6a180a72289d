-- ===== src/Dynamic/Waking.antt =====
-- phl_dynamic_delete(): the requests that wait for a holder.
use phorklift.Prelude.{
  ℕ, ◌≡◌, ◌≢◌, refl, Bool, true, false, Option, none, some, List, [], ◌∷◌, length, Text, ◌==◌,
  if◌then◌else◌, arith, ap, ◌∙◌, sym, subst,
}
use phorklift.Dynamic.{Sub, Father, edit, lookup, popped, failed, pop_run, wake, delete}

-- A sub of the dictionary has failed, and these requests wait for it.
abbrev pub HasWaiting : ℕ → List ℕ → List Sub → Type 0
HasWaiting id waiting ss =
    (s : Sub) × (lookup id ss ≡ some s) × (s.waiting ≡ waiting) × (s.error_ret ≢ 0)

found_id : (id : ℕ) (ss : List Sub) (s : Sub) → lookup id ss ≡ some s → (s.id == id) ≡ true
unfolding lookup
found_id id [] s e = cc
found_id id (s' ∷ ss) s e = go (s'.id == id) refl e (found_id id ss s)
  where
    go :
        (b : Bool)
        → (s'.id == id) ≡ b
        → (if b then some s' else lookup id ss) ≡ some s
        → (lookup id ss ≡ some s → (s.id == id) ≡ true)
        → (s.id == id) ≡ true
    go true t k rest = let same : s' ≡ s = cc in subst (λ x. (x.id == id) ≡ true) same t
    go false t k rest = rest k

lookup-edit :
    (id : ℕ) (f : Sub → Sub) (ss : List Sub) (s : Sub)
    → ((s' : Sub) → (f s').id ≡ s'.id)
    → lookup id ss ≡ some s
    → lookup id (edit id f ss) ≡ some (f s)
unfolding lookup edit
lookup-edit id f [] s same e = cc
lookup-edit id f (s' ∷ ss) s same e = go (s'.id == id) refl e (lookup-edit id f ss s same)
  where
    go :
        (b : Bool)
        → (s'.id == id) ≡ b
        → (if b then some s' else lookup id ss) ≡ some s
        → (lookup id ss ≡ some s → lookup id (edit id f ss) ≡ some (f s))
        → lookup id (if b then f s' ∷ ss else s' ∷ edit id f ss) ≡ some (f s)
    go true t k rest =
        let eq : s' ≡ s = cc in
        let kept : ((f s').id == id) ≡ true = ground (arith, same s', t) in
        ap (λ b. if b then some (f s') else lookup id ss) kept ∙ ap (λ x. some (f x)) eq
    go false t k rest = ap (λ b. if b then some s' else lookup id (edit id f ss)) t ∙ rest k

popped-cons :
    (o : Option Sub) (s : Sub) (r : ℕ) (rest : List ℕ)
    → o ≡ some s
    → s.waiting ≡ r ∷ rest
    → popped o ≡ some (r, rest)
unfolding popped
popped-cons o s r rest e w = ap popped e ∙ ap (λ l. elim l [ [] ↦ none | x ∷ xs ↦ some (x, xs) ]) w

module _ (run : ℕ → List Sub → List Sub) (dict_get : Text → List Sub → Option Sub) (father : Father)
    (runs : (r id : ℕ) (waiting : List ℕ) (ss : List Sub)
      → HasWaiting id waiting ss
      → HasWaiting id waiting (run r ss)) where
  wake_lem :
      (id : ℕ) (waiting : List ℕ) (ss : List Sub)
      → HasWaiting id waiting ss
      → ((wake run dict_get father (length waiting) id ss).0 ≡ waiting)
        × HasWaiting id [] (wake run dict_get father (length waiting) id ss).1
  unfolding wake pop_run
  wake_lem id [] ss h = (refl, h)
  wake_lem id (r ∷ rest) ss (s, l, w, failing) =
      let popping = edit id (λ s'. record s' { waiting = rest }) ss in
      let next : HasWaiting id rest (run r popping) =
        runs r id rest popping
          (record s { waiting = rest }, lookup-edit id _ ss s (λ s'. refl) l, refl, failing) in
      let (woken, after) = wake_lem id rest (run r popping) next in
      subst
        (λ o.
          ((pop_run run dict_get father (wake run dict_get father (length rest) id) id o ss).0
            ≡ r ∷ rest)
          × HasWaiting id []
              (pop_run run dict_get father (wake run dict_get father (length rest) id) id o ss).1)
        (sym (popped-cons (lookup id ss) s r rest l w)) (ap (λ t. r ∷ t) woken, after)

  -- When a holder is deleted, after get_conf() or when its timer fires, every request that waits
  -- for it is run, once, in the order in which they came: provided that while they are run,
  -- no request comes to wait for a holder that has failed, or leaves it.
  pub delete_wakes :
      (now : ℕ) (sub : Sub) (ss : List Sub)
      → lookup sub.id ss ≡ some sub
      → sub.is_just_holder ≡ true
      → (delete run dict_get father now sub ss).0 ≡ sub.waiting
  unfolding delete failed
  delete_wakes now sub ss l h =
      let marked : HasWaiting sub.id sub.waiting (edit sub.id failed ss) =
        (failed sub, lookup-edit sub.id failed ss sub (λ s. refl) l, refl, ground arith) in
      ap
        (λ b.
          (if b
            then wake run dict_get father (length sub.waiting) sub.id (edit sub.id failed ss)
            else ([], ss)).0)
        h
      ∙ (wake_lem sub.id sub.waiting (edit sub.id failed ss) marked).0
