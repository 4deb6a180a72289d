-- ===== src/Request/Run/Redirects.antt =====
-- What phl_request_run() does after phl_request_redirect().
use phorklift.Prelude.{ℕ, suc, ◌≡◌, false, some, arith, Text}
use phorklift.Request.State.{Ret, brk, State, Request, is_done}
use phorklift.Request.Run.{crashes, logged, through, round, then_run, run}
use phorklift.Request.Steps.{redirect}
use phorklift.Request.Steps.Redirect.{redirect-brk}

-- A step that redirects the request takes the server down, when the request is open, not done, has a
-- path, and the redirect is not refused: phl_request_redirect() sets `conf_path` to NULL, and the
-- message at the end of the same round of phl_request_run() is logged through
-- `r->conf_path->error_log`.
pub redirect-crashes :
    (steps : State → Request → Ret × Request) (set_uri : Text → Request → Request) (path : Text)
    (r s : Request) (p fuel : ℕ)
    → r.closed ≡ false
    → r.conf_path ≡ some p
    → is_done r.state ≡ false
    → steps r.state r ≡ redirect set_uri path s
    → (redirect set_uri path s).0 ≡ brk
    → run steps (suc fuel) r ≡ some (crashes (redirect set_uri path s).1)
unfolding run then_run round logged through
redirect-crashes steps set_uri path r s p fuel c e o same b =
    ground (arith, redirect-brk set_uri path s b)
