-- ===== src/Request/Run/Termination.antt =====
-- phl_request_run(): its measure, and the contract of the steps that makes it smaller.
use phorklift.Prelude.{
  ℕ, zero, suc, ◌+◌, ◌-◌, ◌*◌, ◌≤◌, ◌<◌, ◌≡◌, refl, ◌⊎◌, inl, inr, Bool, true, false, Option, none,
  some, if◌then◌else◌, arith, subst, ap, ◌∙◌,
}
use phorklift.Request.State.{
  Ret, ok, error, again, brk, status, State, receive_headers, response_headers_1, rank, next,
  is_done, Request,
}
use phorklift.Request.Run.{Stop, Next, go, stop, after, through, logged, round, then_run, run}

-- Only a request that is past its processing is broken.
abbrev pub IsSound : Request → Type 0
IsSound r = r.is_broken ≡ true → rank response_headers_1 ≤ rank r.state

-- What a step that returns `ret` may have done to the request. A break is a redirect, of which a
-- request has eleven at most. A broken request is not broken again: its steps return no status
-- code, and no error where one would be made into a status code.
abbrev pub Allowed : Ret → Request → Request → Type 0
Allowed brk r r' =
    (r.redirects < r'.redirects)
    × (r'.redirects ≤ 11)
    × (r'.state ≡ receive_headers)
    × (r'.is_broken ≡ false)
Allowed again r r' = Unit {0}
Allowed ok r r' = (r'.state ≡ r.state) × (r.redirects ≤ r'.redirects) × (r'.is_broken ≡ r.is_broken)
Allowed error r r' =
    (r'.state ≡ r.state)
    × (r.redirects ≤ r'.redirects)
    × (r'.is_broken ≡ r.is_broken)
    × ((r'.is_broken ≡ false) ⊎ ((r'.status_code ≡ 0) × (rank response_headers_1 < rank r'.state)))
Allowed (status code) r r' =
    (r'.state ≡ r.state) × (r.redirects ≤ r'.redirects) × (r.is_broken ≡ false)

-- The contract of one step, and of the table of steps.
abbrev pub Obeys : (Request → Ret × Request) → Request → Type 0
Obeys f r = Allowed (f r).0 r (f r).1

abbrev pub Keeps : (State → Request → Ret × Request) → Type 0
Keeps steps =
    (r : Request) (p : ℕ)
    → r.conf_path ≡ some p
    → IsSound r
    → is_done r.state ≡ false
    → Obeys (steps r.state) r

abbrev freshness : Bool → ℕ
freshness true = 0
freshness false = 12

-- What is left to do.
measure : Request → ℕ
measure r = (11 - r.redirects) * 24 + freshness r.is_broken + (10 - rank r.state)

abbrev IsSmall : Next → ℕ → Type 0
IsSmall (go r') m = IsSound r' × (measure r' < m)
IsSmall (stop s) m = Unit {0}

rank_le : (s : State) → is_done s ≡ false → (rank s ≤ 9) × (rank (next s) ≡ suc (rank s))
rank_le s h = ground arith

after-IsSmall :
    (ret : Ret) (r r' : Request)
    → IsSound r
    → is_done r.state ≡ false
    → Allowed ret r r'
    → IsSmall (after ret r') (measure r)
unfolding after measure
after-IsSmall ok r r' sound o a = ground (arith, rank_le r.state)
after-IsSmall brk r r' sound o a = ground (arith, rank_le r.state)
after-IsSmall again r r' sound o a = tt
after-IsSmall error r r' sound o a = ground (arith, rank_le r.state)
after-IsSmall (status code) r r' sound o a = ground (arith, rank_le r.state)

if_IsSmall :
    (b : Bool) (x y : Next) (m : ℕ)
    → IsSmall x m
    → (b ≡ false → IsSmall y m)
    → IsSmall (if b then x else y) m
if_IsSmall true x y m h k = h
if_IsSmall false x y m h k = k refl

through-IsSmall :
    (p : Option ℕ) (r : Request) (n : Next) (m : ℕ)
    → ((i : ℕ) → p ≡ some i → IsSmall n m)
    → IsSmall (through p r n) m
unfolding through
through-IsSmall none r n m h = tt
through-IsSmall (some p) r n m h = h p refl

logged-IsSmall :
    (r : Request) (n : Next) (m : ℕ)
    → ((i : ℕ) → r.conf_path ≡ some i → IsSmall n m)
    → IsSmall (logged r n) m
unfolding logged
logged-IsSmall r n m h = through-IsSmall r.conf_path r n m h

round-IsSmall :
    (steps : State → Request → Ret × Request) (r : Request)
    → Keeps steps
    → IsSound r
    → IsSmall (round steps r) (measure r)
unfolding round
round-IsSmall steps r keeps sound = if_IsSmall r.closed _ _ _ tt λ _. logged-IsSmall r _ _ λ p e.
    if_IsSmall (is_done r.state) _ _ _ tt λ o.
      logged-IsSmall (steps r.state r).1 _ _
        λ _ _. after-IsSmall (steps r.state r).0 r (steps r.state r).1 sound o (keeps r p e sound o)

pub Next-cases : (n : Next) → ((r : Request) × (n ≡ go r)) ⊎ ((s : Stop) × (n ≡ stop s))
Next-cases (go r) = inl (r, refl)
Next-cases (stop s) = inr (s, refl)

run_ends :
    (steps : State → Request → Ret × Request) (fuel : ℕ) (r : Request)
    → Keeps steps
    → IsSound r
    → measure r < fuel
    → (s : Stop) × (run steps fuel r ≡ some s)
unfolding run then_run
run_ends steps zero r keeps sound h = absurd (omega arith)
run_ends steps (suc fuel) r keeps sound h = elim (Next-cases (round steps r)) [
  | inr (s, e) ↦ (s, ap (then_run (run steps fuel)) e)
  | inl (r', e) ↦
      let small = subst (λ n. IsSmall n (measure r)) e (round-IsSmall steps r keeps sound) in
      let (s, rest) = run_ends steps fuel r' keeps small.0 (omega (arith, small)) in
      (s, ap (then_run (run steps fuel)) e ∙ rest)
]

measure_le : (r : Request) → measure r ≤ 286
unfolding measure
measure_le r = ground arith

-- With steps that keep their contract, phl_request_run() ends within 287 calls of itself, from
-- any state of a request that is broken only if it is past its processing.
pub run-total :
    (steps : State → Request → Ret × Request) (r : Request)
    → Keeps steps
    → IsSound r
    → (s : Stop) × (run steps 287 r ≡ some s)
run-total steps r keeps sound = run_ends steps 287 r keeps sound (omega (arith, measure_le r))
