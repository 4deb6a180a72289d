-- ===== src/Request/Filters/Resume.antt =====
-- phl_module_filter_run(): the order of the filters, and where a suspended phase resumes.
use phorklift.Prelude.{
  ℕ, zero, suc, ◌+◌, ◌≡◌, refl, ◌≢◌, List, [], ◌∷◌, ◌++◌, drop, length, arith, All, ap, sym, ◌∙◌,
  subst,
}
use phorklift.Request.State.{Ret, ok, error, again, brk, status, Request}
use phorklift.Request.Filters.{
  Phase, process_headers, process_body, response_headers, index, bump, Filter, run_from, filter_run,
  continue_with,
}

bumped_index : (ph : Phase) (r : Request) → index ph (bump ph r) ≡ suc (index ph r)
bumped_index process_headers r = refl
bumped_index process_body r = refl
bumped_index response_headers r = refl

zero_add : (k : ℕ) → zero + k ≡ k
zero_add k = omega arith

suc_add : (i k : ℕ) → suc i + k ≡ suc (i + k)
suc_add i k = omega arith

drop_nil {ℓ} : {A : Type ℓ} (k : ℕ) → drop {A = A} k [] ≡ []
drop_nil zero = refl
drop_nil (suc k) = refl

drop-drop {ℓ} : {A : Type ℓ} (i k : ℕ) (xs : List A) → drop k (drop i xs) ≡ drop (i + k) xs
drop-drop zero k xs = rw (zero_add k)
drop-drop (suc i) k [] = rw (suc_add i k) (drop_nil k)
drop-drop (suc i) k (x ∷ xs) = rw (suc_add i k) (drop-drop i k xs)

drop_before {ℓ} : {A : Type ℓ} (xs ys : List A) → drop (length xs) (xs ++ ys) ≡ ys
drop_before [] ys = refl
drop_before (x ∷ xs) ys = drop_before xs ys

index_of_indexs :
    (ph : Phase) (r s : Request) → r.filter_indexs ≡ s.filter_indexs → index ph r ≡ index ph s
index_of_indexs process_headers r s e = ap (λ i. i.process_headers) e
index_of_indexs process_body r s e = ap (λ i. i.process_body) e
index_of_indexs response_headers r s e = ap (λ i. i.response_headers) e

module _ (ph : Phase) where
  -- The filters `fs` are called one after the other from `r`, each with success, up to `r'`.
  pub data Passed : List Filter → Request → Request → Type 0 where
    none_left : (r : Request) → Passed [] r r
    passed :
        (m : Filter) (ms : List Filter) (r s r' : Request)
        → m.call r ≡ (ok, s)
        → Passed ms (bump ph s) r'
        → Passed (m ∷ ms) r r'

  -- Where the loop stands when it returns: every filter passed, or one returned something else,
  -- which is the result; then the index has moved past the filters before it.
  pub data Stopped (ms : List Filter) (r : Request) : Ret × Request → Type 0 where
    all_passed : {r' : Request} → Passed ms r r' → Stopped ms r (ok, r')
    stopped_at :
        (before : List Filter) (m : Filter) (rest : List Filter) {r' : Request}
        {out : Ret × Request}
        → ms ≡ before ++ m ∷ rest
        → Passed before r r'
        → (m.call r').0 ≢ ok
        → out.0 ≡ (m.call r').0
        → out.1.filter_indexs ≡ (m.call r').1.filter_indexs
        → Stopped ms r out

  at_head :
      (m : Filter) (ms : List Filter) (r : Request) (out : Ret × Request)
      → (m.call r).0 ≢ ok
      → out.0 ≡ (m.call r).0
      → out.1.filter_indexs ≡ (m.call r).1.filter_indexs
      → Stopped (m ∷ ms) r out
  at_head m ms r out ne e i = stopped_at [] m ms refl (none_left r) ne e i

  after_head :
      (m : Filter) (ms : List Filter) (r s : Request) (out : Ret × Request)
      → m.call r ≡ (ok, s)
      → Stopped ms (bump ph s) out
      → Stopped (m ∷ ms) r out
  after_head m ms r s out e (all_passed p) = all_passed (passed m ms r s _ e p)
  after_head m ms r s out e (stopped_at before x rest split p ne f i) =
      stopped_at (m ∷ before) x rest (ap (◌∷◌ m) split) (passed m before r s _ e p) ne f i

  step-Stopped :
      (m : Filter) (ms : List Filter) (r : Request) (c : Ret × Request)
      → m.call r ≡ c
      → ((s : Request) → Stopped ms (bump ph s) (run_from ph ms (bump ph s)))
      → Stopped (m ∷ ms) r (continue_with m.id c (λ s. run_from ph ms (bump ph s)))
  step-Stopped m ms r (ok, s) e ih = after_head m ms r s _ e (ih s)
  step-Stopped m ms r (error, s) e ih = at_head m ms r _ (λ o. ground arith) (rw e) (rw e)
  step-Stopped m ms r (again, s) e ih = at_head m ms r _ (λ o. ground arith) (rw e) (rw e)
  step-Stopped m ms r (brk, s) e ih = at_head m ms r _ (λ o. ground arith) (rw e) (rw e)
  step-Stopped m ms r (status c, s) e ih = at_head m ms r _ (λ o. ground arith) (rw e) (rw e)

  run_from-Stopped : (ms : List Filter) (r : Request) → Stopped ms r (run_from ph ms r)
  unfolding run_from
  run_from-Stopped [] r = all_passed (none_left r)
  run_from-Stopped (m ∷ ms) r =
      step-Stopped m ms r (m.call r) refl (λ s. run_from-Stopped ms (bump ph s))

  -- The filters of a phase are called in order from the current index on, each once, as long as
  -- they return PHL_OK. The result is PHL_OK when all have passed; otherwise it is what the first
  -- other filter returned.
  pub filter_run-Stopped :
      (ms : List Filter) (r : Request) → Stopped (drop (index ph r) ms) r (filter_run ph ms r)
  unfolding filter_run
  filter_run-Stopped ms r = run_from-Stopped (drop (index ph r) ms) r

  -- A callback that keeps the index, except where it redirects.
  abbrev pub Steady : Filter → Type 0
  Steady m = (r : Request) → (m.call r).0 ≢ brk → index ph (m.call r).1 ≡ index ph r

  index-bump : (r : Request) → index ph (bump ph r) ≡ suc (index ph r)
  index-bump r = bumped_index ph r

  Passed-index :
      {ms : List Filter} {r r' : Request}
      → Passed ms r r'
      → All Steady ms
      → index ph r' ≡ index ph r + length ms
  Passed-index (none_left r) st = omega arith
  Passed-index (passed m ms r s r' e p) st = omega (
    arith,
    Passed-index p st.1,
    index-bump s,
    ap (λ c. index ph c.1) e,
    st.0 r (λ b. ground (arith, e)),
  )

  All-prefix : (before rest : List Filter) → All Steady (before ++ rest) → All Steady before
  All-prefix [] rest st = tt
  All-prefix (m ∷ before) rest st = (st.0, All-prefix before rest st.1)

  All-drop : (i : ℕ) (ms : List Filter) → All Steady ms → All Steady (drop i ms)
  All-drop zero ms st = st
  All-drop (suc i) [] st = tt
  All-drop (suc i) (m ∷ ms) st = All-drop i ms st.1

  All-at :
      (before : List Filter) (m : Filter) (rest : List Filter)
      → All Steady (before ++ m ∷ rest)
      → Steady m
  All-at [] m rest st = st.0
  All-at (x ∷ before) m rest st = All-at before m rest st.1

  -- Where a phase resumes after `out`, given the modules `ds` that it began with at index `i`.
  Resumes : List Filter → Ret × Request → Type 0
  Resumes ms out =
      (m : Filter) × (rest : List Filter) × (s : Request) × (drop (index ph out.1) ms ≡ m ∷ rest)
      × ((m.call s).0 ≡ again)

  Stopped-Resumes :
      (ms ds : List Filter) (r : Request) (out : Ret × Request)
      → drop (index ph r) ms ≡ ds
      → All Steady ds
      → out.0 ≡ again
      → Stopped ds r out
      → Resumes ms out
  unfolding Resumes
  Stopped-Resumes ms ds r out d st e (all_passed p) = absurd (ground arith)
  Stopped-Resumes ms ds r out d st e (stopped_at before m rest {r' = s} split p ne f i) =
      (m, rest, s, at_filter, sym f ∙ e)
    where
      moved : index ph out.1 ≡ index ph r + length before
      moved = omega (
        arith,
        index_of_indexs ph out.1 (m.call s).1 i,
        All-at before m rest (subst (All Steady) split st) s (λ b. ground (arith, f)),
        Passed-index p (All-prefix before (m ∷ rest) (subst (All Steady) split st)),
      )

      at_filter : drop (index ph out.1) ms ≡ m ∷ rest
      at_filter = rw moved (
          sym (drop-drop (index ph r) (length before) ms)
          ∙ ap (drop (length before)) (d ∙ split)
          ∙ drop_before before (m ∷ rest))

  -- A phase that a filter suspends by PHL_AGAIN is resumed at that very filter: the filters before
  -- it, which have passed, are not called again. Callbacks leave the index alone unless they
  -- redirect.
  pub filter_run-resume :
      (ms : List Filter) (r r' : Request)
      → All Steady ms
      → filter_run ph ms r ≡ (again, r')
      → (m : Filter) × (rest : List Filter) × (s : Request) × (drop (index ph r') ms ≡ m ∷ rest)
        × ((m.call s).0 ≡ again)
  unfolding Resumes
  filter_run-resume ms r r' st e = subst (Resumes ms) e (
      Stopped-Resumes ms (drop (index ph r) ms) r (filter_run ph ms r) refl
        (All-drop (index ph r) ms st) (ap (λ o. o.0) e) (filter_run-Stopped ms r))
