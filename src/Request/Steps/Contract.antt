-- ===== src/Request/Steps/Contract.antt =====
-- The contract of the steps of phl_request.c, for what the modules and the writers do.
use phorklift.Prelude.{ℕ, ◌≡◌, ◌⊎◌, false, some, All}
use phorklift.Request.State.{
  Ret, error, again, State, process_headers, process_body, is_done, Request,
}
use phorklift.Request.Filters.{Phase}
use phorklift.Request.Run.Termination.{IsSound, Allowed, Obeys}
use phorklift.Request.Steps.{Callback, PathConf, fails, Env}

-- A callback that keeps the contract whenever it is called.
abbrev pub IsGood : Callback → Type 0
IsGood f = (r : Request) → IsSound r → is_done r.state ≡ false → Obeys f r

-- An answer `o` to the request `r` that the contract allows.
abbrev Answer : Request → Ret × Request → Type 0
Answer r o = Allowed o.0 r o.1

-- What the modules of a path keep.
pub record PathKeeps (p : PathConf) : Type 0 where
  pub process_headers : (f : Callback) → p.content_process_headers ≡ some f → IsGood f
  pub process_body : (f : Callback) → p.content_process_body ≡ some f → IsGood f
  pub response_headers : IsGood p.content_response_headers
  pub filters : (ph : Phase) → All (λ m. IsGood m.call) (p.filters ph)

pub record EnvKeeps (env : Env) : Type 0 where
  pub path : (i : ℕ) → PathKeeps (env.path i)
  pub http1_request_headers : IsGood env.http1_request_headers
  pub http1_request_body : IsGood env.http1_request_body
  pub write_headers : IsGood env.write_headers
  pub write_body : IsGood env.write_body
  pub dynamic :
      (i q : ℕ) (r : Request) (ret : Ret)
      → env.dynamic i r ≡ fails q ret
      → (ret ≡ error) ⊎ (ret ≡ again)
