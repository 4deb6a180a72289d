-- ===== src/Request/Steps/Redirect.antt =====
-- phl_request_redirect() as a step.
use phorklift.Prelude.{suc, ◌≡◌, none, false, arith, Text}
use phorklift.Request.State.{brk, Request}
use phorklift.Request.Run.Termination.{Obeys}
use phorklift.Request.Steps.{redirect}

pub redirect-brk :
    (set_uri : Text → Request → Request) (path : Text) (r : Request)
    → (redirect set_uri path r).0 ≡ brk
    → (redirect set_uri path r).1.conf_path ≡ none
unfolding redirect
redirect-brk set_uri path r e = ground arith

-- A redirect keeps the contract of steps, on a request that is not broken: it counts itself, at
-- most eleven times, and restarts the request, or it reports an error and changes the count only.
pub redirect-Obeys :
    (set_uri : Text → Request → Request) (path : Text) (r : Request)
    → ((q : Request) → (set_uri path q).redirects ≡ q.redirects)
    → r.is_broken ≡ false
    → Obeys (redirect set_uri path) r
unfolding redirect
redirect-Obeys set_uri path r keeps b =
    ground (arith, keeps (record r { redirects = suc r.redirects }))
