-- ===== src/Request/Body/Hosts.antt =====
-- The host name of a request (phl_request_set_host()).
use phorklift.Prelude.{
  ◌≡◌, true, none, some, ◌++◌, map, Text, starts_with, to_lower, starts_with-append, arith, ap, ◌∙◌,
}
use mathlib.Core.List.{map-append}
use phorklift.Request.State.{Request}
use phorklift.Request.Body.{set_host}

-- A name of which only the front is given again is taken for the same host: of two hosts that a
-- request names, the second is compared over its own length only. So `Host: exam` after
-- `Host: example` is accepted, and the request keeps the first.
pub set_host-front :
    (r : Request) (front rest : Text) → r.host ≡ some (front ++ rest) → set_host r front ≡ (true, r)
unfolding set_host
set_host-front r front rest e = ground (
  arith,
  e,
  ap (starts_with (map to_lower front)) (map-append to_lower front rest)
      ∙ starts_with-append (map to_lower front) (map to_lower rest),
)

-- The host of a request is set once, in lower case, and no later name changes it.
pub set_host-once :
    (r : Request) (name other : Text)
    → r.host ≡ none
    → (set_host (set_host r name).1 other).1.host ≡ some (map to_lower name)
unfolding set_host
set_host-once r name other e = ground arith
