-- ===== src/Request/Run/Endings.antt =====
-- phl_request_run(): what is true of a request when a run of it ends.
use phorklift.Prelude.{
  ℕ, zero, suc, ◌<◌, ◌≡◌, refl, sym, ◌∙◌, ◌⊎◌, inl, inr, Bool, true, false, Option, none, some,
  if◌then◌else◌, if_intro, not, leb, ◌==◌, arith, subst, ap,
}
use phorklift.Request.State.{
  Ret, ok, error, again, brk, status, State, response_headers_1, rank, is_done, Request,
}
use phorklift.Request.Run.{
  Stop, ignored, closes, waits, crashes, Next, go, stop, after, through, logged, round, then_run,
  run,
}
use phorklift.Request.Run.Termination.{Next-cases}

abbrev some_or : Stop → Option Stop → Stop
some_or s none = s
some_or s (some t) = t

module _ (steps : State → Request → Ret × Request) where
  -- A request that is left alone was closed before; one that is closed is done, or a step past the
  -- first response headers has failed without a status code; one that waits has a step that returned
  -- PHL_AGAIN; and a null pointer is followed for a request without a path only.
  unfoldable pub Ends : Stop → Type 0
  Ends (ignored q) = q.closed ≡ true
  Ends (closes q) =
      (is_done q.state ≡ true)
      ⊎ ((r : Request) × (steps r.state r ≡ (error, q))
          × (q.status_code ≡ 0)
          × (rank response_headers_1 < rank q.state))
  Ends (waits q) = (r : Request) × (steps r.state r ≡ (again, q))
  Ends (crashes q) = q.conf_path ≡ none

  abbrev IsEnd : Next → Type 0
  IsEnd (go r) = Unit {0}
  IsEnd (stop s) = Ends s

  after-IsEnd :
      (r : Request) (ret : Ret) (q : Request) → steps r.state r ≡ (ret, q) → IsEnd (after ret q)
  unfolding after Ends
  after-IsEnd r ok q e = tt
  after-IsEnd r brk q e = tt
  after-IsEnd r again q e = (r, e)
  after-IsEnd r (status code) q e = tt
  after-IsEnd r error q e =
      if_intro IsEnd (not (q.status_code == 0)) _ _ (λ t. tt)
        (λ f.
          if_intro IsEnd (leb (rank q.state) (rank response_headers_1)) _ _ (λ t. tt)
            (λ l. inr (r, e, ground arith, ground arith)))

  if_IsEnd : (b : Bool) (x y : Next) → (b ≡ true → IsEnd x) → IsEnd y → IsEnd (if b then x else y)
  if_IsEnd true x y h k = h refl
  if_IsEnd false x y h k = k

  logged-IsEnd : (r : Request) (n : Next) → IsEnd n → IsEnd (logged r n)
  unfolding logged Ends
  logged-IsEnd r n h = pass r.conf_path refl
    where
      pass : (p : Option ℕ) → r.conf_path ≡ p → IsEnd (through p r n)
      pass none e = e
      pass (some p) e = h

  round-IsEnd : (r : Request) → IsEnd (round steps r)
  unfolding round Ends
  round-IsEnd r =
      if_IsEnd r.closed _ _ (λ c. c)
        (logged-IsEnd r _ (
          if_IsEnd (is_done r.state) _ _ (λ d. inl d)
            (logged-IsEnd (steps r.state r).1 _
              (after-IsEnd r (steps r.state r).0 (steps r.state r).1 refl))))

  pub run-Ends : (fuel : ℕ) (r : Request) (s : Stop) → run steps fuel r ≡ some s → Ends s
  unfolding run then_run
  run-Ends zero r s h = let no : ⊥ = cc in elim no [ ]
  run-Ends (suc fuel) r s h = elim (Next-cases (round steps r)) [
    | inr (t, e) ↦
        subst Ends (ap (some_or s) (sym (ap (then_run (run steps fuel)) e) ∙ h))
          (subst IsEnd e (round-IsEnd r))
    | inl (q, e) ↦ run-Ends fuel q s (sym (ap (then_run (run steps fuel)) e) ∙ h)
  ]
