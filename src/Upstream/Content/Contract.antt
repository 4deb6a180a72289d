-- ===== src/Upstream/Content/Contract.antt =====
-- phl_upstream_content.c: what its code relies on, and what a call may leave behind.
use phorklift.Prelude.{ℕ, ◌-◌, ◌<◌, ◌≤◌, ◌≡◌, ◌≢◌, ◌⊎◌, Bool, false, Option, none, some, List}
use phorklift.Request.State.{ok, again, Request}
use phorklift.Upstream.Stream.Room.{Small, IsBounded}
use phorklift.Upstream.Content.{
  Upc, Got, no_connection, not_ready, connected, Pointer, null, got, Upstream, Ctx, returns,
  crashes, unfinished, status_code_retry, Result,
}

-- A connection that is not ready may come from phl_upstream_get_connection() at first, but not from
-- another attempt.
abbrev pub Usable : Got → Type 0
Usable (connected u) = Small u.stream
Usable no_connection = Unit
Usable not_ready = ⊥

abbrev pub Gettable : Got → Type 0
Gettable (connected u) = Small u.stream
Gettable _ = Unit

-- What the code relies on in the functions that the configuration and phl_upstream.c give.
pub record IsReliable (up : Upstream) : Type 0 where
  pub gets : (r : Request) (w : up.World) → Gettable (up.get_connection r w).0
  pub gets_again : (u : Upc) (w : up.World) → Usable (up.retry_connection u w).0
  pub reads : (n : ℕ) (w : up.World) → IsBounded (up.source n w)

-- A request has been sent on a connection only, and a connection is one.
abbrev pub Whole : Pointer → Bool → Type 0
Whole null has_sent = has_sent ≡ false
Whole (got (connected u)) has_sent = Small u.stream
Whole (got _) has_sent = ⊥

abbrev pub Ready : {D : Type 0} → Option (Ctx D) → Type 0
Ready none = Unit
Ready (some c) = Whole c.upc c.has_sent_request

abbrev pub Waits : {D : Type 0} → Option (Ctx D) → Type 0
Waits none = ⊥
Waits (some c) = Whole c.upc c.has_sent_request

-- The attempts that are left.
abbrev pub left : ℕ → Option ℕ → ℕ
left max none = 0
left max (some k) = max - k

abbrev pub budget : {D : Type 0} → ℕ → Option (Ctx D) → ℕ
budget max none = max
budget max (some c) = left max c.retries

abbrev pub Spent : ℕ → Option ℕ → Type 0
Spent max none = Unit
Spent max (some k) = max < k

-- A response whose status code asks for no other attempt, or the last one that there is.
abbrev pub Settles : {D : Type 0} → Option (List ℕ) → ℕ → Option (Ctx D) → ℕ → Type 0
Settles codes max none code = ⊥
Settles codes max (some c) code =
    ((status_code_retry codes code ≡ false) ⊎ (code ≡ 200)) ⊎ (Spent max c.retries × (code ≢ 0))

-- What a call of phl_upstream_content_generate_response_headers() may end with; a request that waits
-- has `n` attempts left at most.
abbrev pub Sound : (up : Upstream) → ℕ → Result up → Type 0
Sound up n (returns ok x) = Settles up.retry_status_codes up.max_retries x.ctx x.request.status_code
Sound up n (returns again x) = Waits x.ctx × (budget up.max_retries x.ctx ≤ n)
Sound up n (returns _ x) = Unit
Sound up n crashes = ⊥
Sound up n unfinished = ⊥
