-- ===== src/Upstream/Content/Failing.antt =====
-- phl_upstream_content.c: another attempt that gets no connection.
use phorklift.Prelude.{
  ℕ, suc, ◌<◌, ◌≡◌, refl, Bool, true, false, Option, none, some, leb, arith, sym, subst, if_intro,
}
use phorklift.Request.State.{status}
use phorklift.Upstream.Content.{
  Upc, Got, no_connection, not_ready, connected, got, Upstream, Ctx, returns, crashes, unfinished,
  Here, Result, retried, count_retry, content_fail, send_request, on_connection, with_connection,
  with_context, generate_response_headers, free_pointer,
}

abbrev pub is_connected : Got → Bool
is_connected (connected u) = true
is_connected _ = false

-- The context cannot be freed.
abbrev pub Unfreeable : (up : Upstream) → Option (Ctx up.Data) → Type 0
Unfreeable up none = ⊥
Unfreeable up (some c) = (is_clean : Bool) (w : up.World) → free_pointer up is_clean c.upc w ≡ none

-- The process does not survive the request: it crashes now, or when the context is freed.
abbrev pub Ruined : (up : Upstream) → Result up → Type 0
Ruined up (returns ret x) = (ret ≡ status 500) × Unfreeable up x.ctx
Ruined up crashes = Unit
Ruined up unfinished = ⊥

module _ (up : Upstream) (fuel : ℕ) where
  open up use {Data, World, max_retries, retry_connection}

  retried-Ruined :
      (c : Ctx Data) (g : Got) (w : World) (x : Here up)
      → is_connected g ≡ false
      → Ruined up (retried up (generate_response_headers up (suc fuel)) c (g, w) x)
  unfolding retried generate_response_headers with_context with_connection on_connection
      send_request free_pointer
  retried-Ruined c no_connection w x e = (refl, λ is_clean w'. refl)
  retried-Ruined c not_ready w x e = tt
  retried-Ruined c (connected u) w x e = cc

  count_retry-Ruined :
      (u : Upc) (k : ℕ) (c : Ctx Data) (x : Here up)
      → k < max_retries
      → is_connected (retry_connection u x.world).0 ≡ false
      → Ruined up (count_retry up (generate_response_headers up (suc fuel)) u (some k) c x)
  unfolding count_retry
  count_retry-Ruined u k c x h e =
      if_intro (Ruined up) (leb max_retries k) _ _ (λ t. let no : ⊥ = ground arith in elim no [ ])
        (λ t. retried-Ruined _ _ _ _ e)

  -- When an attempt fails, another one is left, and no connection is got for it, the process does
  -- not survive: after PHL_PTR_AGAIN, the next call writes to that pointer; after PHL_PTR_ERROR, the
  -- call returns 500, and phl_upstream_content_ctx_free() releases that pointer.
  pub content_fail-Ruined :
      (u : Upc) (k : ℕ) (c : Ctx Data) (x : Here up)
      → c.retries ≡ some k
      → k < max_retries
      → is_connected (retry_connection (record u { error = true }) x.world).0 ≡ false
      → Ruined up (content_fail up (generate_response_headers up (suc fuel)) u c x)
  unfolding content_fail
  content_fail-Ruined u k c x e h d =
      subst
        (λ o. Ruined up (
          count_retry up (generate_response_headers up (suc fuel)) (record u { error = true }) o
            (record c { upc = got (connected (record u { error = true })) }) x))
        (sym e) (count_retry-Ruined _ k _ x h d)
