-- ===== src/Request/Run.antt =====
-- phl_request_run(): the loop over the steps of a request, and its error handling.
pub mod Termination
pub mod Endings
pub mod Livelock
pub mod Redirects
mod Tests
use phorklift.Prelude.{
  ℕ, zero, suc, ◌≡◌, Bool, true, false, not, Option, none, some, ◌==◌, if◌then◌else◌, leb,
}
use phorklift.Request.State.{
  Ret, ok, error, again, brk, status, State, response_headers_1, rank, next, is_done, Request,
}

-- How a call of phl_request_run() ends: the request was closed before; it is closed now; a step
-- waits, and the subrequests get their turn; or phl_request_log() reads `r->conf_path->error_log`
-- through a null pointer.
pub data Stop : Type 0 where
  ignored closes waits crashes : Request → Stop

pub data Next : Type 0 where
  go : Request → Next
  stop : Stop → Next

-- "returns status code and breaks the normal process"
pub break_with : ℕ → Request → Request
break_with code r = record r { is_broken = true; status_code = code; state = response_headers_1 }

-- What is done with the return value of a step.
pub after : Ret → Request → Next
unfolding break_with
after ok r = go (record r { state = next r.state })
after brk r = go (record r { state = next r.state })
after again r = stop (waits r)
after (status code) r = go (break_with code r)
after error r =
    if not (r.status_code == 0)
    then go (break_with r.status_code r)
    else if leb (rank r.state) (rank response_headers_1)
    then go (break_with 500 r)
    else stop (closes r)

-- phl_request_log(), which goes through `conf_path` whatever the level of the message.
through : Option ℕ → Request → Next → Next
through none r n = stop (crashes r)
through (some p) r n = n

pub logged : Request → Next → Next
unfolding through
logged r n = through r.conf_path r n

-- "return phl_request_run(r, …)"
pub then_run : (Request → Option Stop) → Next → Option Stop
then_run f (go r) = f r
then_run f (stop s) = some s

module _ (steps : State → Request → Ret × Request) where
  -- One call of phl_request_run(), up to its recursive call.
  pub round : Request → Next
  unfolding logged
  round r =
      if r.closed
      then stop (ignored r)
      else logged r (
          if is_done r.state
          then stop (closes r)
          else logged (steps r.state r).1 (after (steps r.state r).0 (steps r.state r).1))

  -- phl_request_run(), with fuel for the calls of itself; `none` is a run out of fuel.
  pub run : ℕ → Request → Option Stop
  run zero r = none
  run (suc fuel) r = then_run (run fuel) (round r)
