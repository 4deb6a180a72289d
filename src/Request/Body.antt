-- ===== src/Request/Body.antt =====
-- phl_request_append_body() and phl_request_set_host() of phl_request.c: what a request takes in.
pub mod Feeding
pub mod Hosts
mod Tests
use phorklift.Prelude.{
  ℕ, ◌+◌, Bool, true, false, not, ◌&&◌, Option, none, some, List, [], ◌∷◌, ◌++◌, ◌==◌,
  if◌then◌else◌, ltb, leb, length, map, Text, starts_with, to_lower,
}
use phorklift.Request.State.{Ret, ok, error, again, brk, status, Request}

-- The two branches of phl_request_append_body(), with a content length and without one.
pub append_sized : ℕ → Request → List ℕ → Ret × Request
append_sized n r buf =
    if ltb n (length r.body + length buf)
    then (status 400, r)
    else (ok, record r { body = r.body ++ buf; body_finished = leb n (length (r.body ++ buf)) })

pub append_unsized : ℕ → Request → List ℕ → Ret × Request
append_unsized max r buf =
    if not (max == 0) && ltb max (length r.body + length buf)
    then (status 413, r)
    else (ok, record r { body = r.body ++ buf })

-- phl_request_append_body(); `max` is `conf_path->req_body_max`.
pub append_body : ℕ → Request → List ℕ → Ret × Request
append_body max r [] = (ok, r)
append_body max r (c ∷ buf) = elim r.content_length [
  | none ↦ append_unsized max r (c ∷ buf)
  | some n ↦ append_sized n r (c ∷ buf)
]

-- The pieces of a body, as they arrive; the first one that is refused ends the request.
abbrev pub then_feed : Ret × Request → (Request → Ret × Request) → Ret × Request
then_feed (ok, r) k = k r
then_feed (ret, r) k = (ret, r)

pub feed : ℕ → Request → List (List ℕ) → Ret × Request
feed max r [] = (ok, r)
feed max r (b ∷ bs) = then_feed (append_body max r b) (λ s. feed max s bs)

-- phl_request_set_host(): `strncasecmp` looks at as many bytes as the new name has.
pub set_host : Request → Text → Bool × Request
set_host r name = elim r.host [
  | some h ↦ (starts_with (map to_lower name) (map to_lower h), r)
  | none ↦ (true, record r { host = some (map to_lower name) })
]
