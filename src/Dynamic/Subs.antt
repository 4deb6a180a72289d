-- ===== src/Dynamic/Subs.antt =====
-- phl_dynamic.c: the subs of a dictionary in order, and how its changes keep them so.
use phorklift.Prelude.{
  ℕ, ◌≡◌, refl, Bool, true, false, Option, none, some, List, [], ◌∷◌, ◌==◌, if◌then◌else◌, if_intro,
  All, subst, ap, ◌∙◌,
}
use phorklift.Dynamic.{Sub, edit, remove, lookup, popped}

-- A sub with a configuration has no requests that wait for it, and one without has the tag 0.
pub record IsSub (s : Sub) : Type 0 where
  pub quiet : s.is_just_holder ≡ false → s.waiting ≡ []
  pub bare : s.is_just_holder ≡ true → s.tag ≡ 0

abbrev pub AreSubs : List Sub → Type 0
AreSubs ss = All IsSub ss

pub edit-AreSubs :
    (id : ℕ) (f : Sub → Sub) (ss : List Sub)
    → ((s : Sub) → lookup id ss ≡ some s → IsSub s → IsSub (f s))
    → AreSubs ss
    → AreSubs (edit id f ss)
unfolding edit lookup
edit-AreSubs id f [] h a = tt
edit-AreSubs id f (s ∷ ss) h a = go (s.id == id) h (λ k. edit-AreSubs id f ss k a.1)
  where
    go :
        (b : Bool)
        → ((s' : Sub) → (if b then some s else lookup id ss) ≡ some s' → IsSub s' → IsSub (f s'))
        → (((s' : Sub) → lookup id ss ≡ some s' → IsSub s' → IsSub (f s')) → AreSubs (edit id f ss))
        → AreSubs (if b then f s ∷ ss else s ∷ edit id f ss)
    go true k rest = (k s refl a.0, a.1)
    go false k rest = (a.0, rest k)

pub remove-AreSubs : (id : ℕ) (ss : List Sub) → AreSubs ss → AreSubs (remove id ss)
unfolding remove
remove-AreSubs id [] a = tt
remove-AreSubs id (s ∷ ss) a =
    if_intro AreSubs (s.id == id) _ _ (λ e. a.1) (λ e. (a.0, remove-AreSubs id ss a.1))

pub lookup-IsSub : (id : ℕ) (ss : List Sub) (s : Sub) → lookup id ss ≡ some s → AreSubs ss → IsSub s
unfolding lookup
lookup-IsSub id [] s e a = cc
lookup-IsSub id (s' ∷ ss) s e a = go (s'.id == id) e (λ k. lookup-IsSub id ss s k a.1)
  where
    go :
        (b : Bool)
        → (if b then some s' else lookup id ss) ≡ some s
        → (lookup id ss ≡ some s → IsSub s)
        → IsSub s
    go true k rest = let same : s' ≡ s = cc in subst IsSub same a.0
    go false k rest = rest k

pub popped-IsSub :
    (o : Option Sub) (s : Sub) (r : ℕ) (rs : List ℕ)
    → o ≡ some s
    → popped o ≡ some (r, rs)
    → IsSub s
    → IsSub (record s { waiting = rs })
unfolding popped
popped-IsSub none s r rs e p h = cc
popped-IsSub (some s') s r rs e p h = record {
  quiet = λ f. let no : ⊥ = clash s'.waiting (ap_waiting ∙ h.quiet f) p in elim no [ ];
  bare = h.bare;
}
  where
    ap_waiting : s'.waiting ≡ s.waiting
    ap_waiting = let same : s' ≡ s = cc in ap (λ t. t.waiting) same

    clash :
        (l : List ℕ)
        → l ≡ []
        → elim l as (λ _. Option (ℕ × List ℕ)) [ [] ↦ none | x ∷ xs ↦ some (x, xs) ] ≡ some (r, rs)
        → ⊥
    clash [] e' p' = cc
    clash (x ∷ xs) e' p' = cc
