-- ===== src/Request/Run/Livelock.antt =====
-- What phl_request_run() does when the response headers cannot be written.
use phorklift.Prelude.{
  ℕ, zero, suc, ◌≡◌, refl, ◌≢◌, true, false, none, some, [], ◌≤◌, ◌<◌, arith, drop, sym, subst,
}
use phorklift.Request.State.{
  Ret, ok, error, State, response_headers_1, response_headers_2, response_headers_3, Request, rank,
}
use phorklift.Request.Filters.{Phase, Filter, filter_run, run_from, index}
use phorklift.Request.Run.{Next, go, stop, after, break_with, logged, through, round, then_run, run}
use phorklift.Request.Steps.{
  Env, at_path, steps, response_headers_1_step, response_headers_2_step, response_headers_3_step,
}

module _ (env : Env) (p : ℕ) where
  -- A main request with a status code that is about to write its response headers, or that has been
  -- broken and is on its way there again.
  pub record IsStuck (r : Request) : Type 0 where
    pub open_request : r.closed ≡ false
    pub broken : rank r.state < 8 → r.is_broken ≡ true
    pub main : r.is_subrequest ≡ false
    pub has_path : r.conf_path ≡ some p
    pub coded : r.status_code ≢ 0
    pub at_headers : (6 ≤ rank r.state) × (rank r.state ≤ 8)

  Goes : Next → Type 0
  Goes (go r) = IsStuck r
  Goes (stop s) = ⊥

  -- A result of a step that keeps the request stuck.
  abbrev Stays : Ret × Request → Type 0
  Stays o = (o.1.conf_path ≡ some p) × Goes (after o.0 o.1)

  round-after :
      (f : State → Request → Ret × Request) (r : Request)
      → IsStuck r
      → (f r.state r).1.conf_path ≡ some p
      → round f r ≡ after (f r.state r).0 (f r.state r).1
  unfolding round logged through
  round-after f r s e = ground arith

  Stays-Goes :
      (f : State → Request → Ret × Request) (r : Request)
      → IsStuck r
      → Stays (f r.state r)
      → Goes (round f r)
  Stays-Goes f r s k = subst Goes (sym (round-after f r s k.0)) k.1

  headers_1-Stays :
      (r : Request)
      → IsStuck r
      → r.state ≡ response_headers_1
      → Stays (response_headers_1_step env r)
  unfolding response_headers_1_step Goes after
  headers_1-Stays r s e = ground arith

  drop_nil {ℓ} : {A : Type ℓ} (k : ℕ) → drop {A = A} k [] ≡ []
  drop_nil zero = refl
  drop_nil (suc k) = refl

  filter_run-nil : (r : Request) → filter_run Phase.response_headers [] r ≡ (ok, r)
  unfolding filter_run run_from
  filter_run-nil r = rw (drop_nil {A = Filter} (index Phase.response_headers r)) refl

  module _ (no_filters : (env.path p).filters Phase.response_headers ≡ [])
      (write_fails : (r : Request) → env.write_headers r ≡ (error, r)) where
    headers_2_eq : (r : Request) → IsStuck r → response_headers_2_step env r ≡ (ok, r)
    unfolding response_headers_2_step
    headers_2_eq r s =
        subst
          (λ c.
            at_path env c r
              (λ q. filter_run Phase.response_headers (q.filters Phase.response_headers) r)
            ≡ (ok, r))
          (sym s.has_path)
          (subst (λ fs. filter_run Phase.response_headers fs r ≡ (ok, r)) (sym no_filters)
            (filter_run-nil r))

    headers_2-Stays : (r : Request) → IsStuck r → r.state ≡ response_headers_2 → Stays (ok, r)
    unfolding Goes after
    headers_2-Stays r s e = ground arith

    headers_3_eq : (r : Request) → IsStuck r → response_headers_3_step env r ≡ (error, r)
    unfolding response_headers_3_step
    headers_3_eq r s = ground (arith, write_fails r)

    headers_3-Stays : (r : Request) → IsStuck r → r.state ≡ response_headers_3 → Stays (error, r)
    unfolding Goes after break_with
    headers_3-Stays r s e = ground arith

    stays :
        (st : State) (r : Request)
        → r.state ≡ st
        → (6 ≤ rank st) × (rank st ≤ 8)
        → IsStuck r
        → Stays (steps env st r)
    unfolding steps
    stays response_headers_1 r e h s = headers_1-Stays r s e
    stays response_headers_2 r e h s = subst Stays (sym (headers_2_eq r s)) (headers_2-Stays r s e)
    stays response_headers_3 r e h s = subst Stays (sym (headers_3_eq r s)) (headers_3-Stays r s e)
    stays _ r e h s = absurd (omega arith)

    round-Goes : (r : Request) → IsStuck r → Goes (round (steps env) r)
    round-Goes r s = Stays-Goes (steps env) r s (stays r.state r refl s.at_headers s)

    run_on :
        (fuel : ℕ) (n : Next)
        → Goes n
        → ((r : Request) → IsStuck r → run (steps env) fuel r ≡ none)
        → then_run (run (steps env) fuel) n ≡ none
    unfolding Goes then_run
    run_on fuel (go r) s h = h r s
    run_on fuel (stop o) s h = absurd s

    -- When the response headers can never be written, as with headers that are larger than the send
    -- buffer, and no filter is set on them, phl_request_run() does not return: whatever the fuel, a
    -- main request that has its status code and is about to write its headers, or that is broken
    -- and on its way there, runs out of it. The error is made into the status code, the request
    -- starts again from the first header step, and the write fails again.
    pub run-never : (fuel : ℕ) (r : Request) → IsStuck r → run (steps env) fuel r ≡ none
    unfolding run
    run-never zero r s = refl
    run-never (suc fuel) r s = run_on fuel (round (steps env) r) (round-Goes r s) (run-never fuel)
