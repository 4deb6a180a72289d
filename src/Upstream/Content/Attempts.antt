-- ===== src/Upstream/Content/Attempts.antt =====
-- phl_upstream_content.c: the attempts of a request come to an end, and what they end with.
use phorklift.Prelude.{
  ℕ, suc, zero, ◌≤◌, ◌<◌, ◌≡◌, ◌≢◌, inl, inr, refl, Bool, true, false, Option, none, some, List, [],
  ◌∷◌, drop, length, length-drop, leb, ◌==◌, if◌then◌else◌, arith, if_intro, subst, sym,
}
use phorklift.Request.State.{Ret, ok, error, again, brk, status, Request}
use phorklift.Upstream.Stream.{UpStream, Read, bytes, none_yet, failed}
use phorklift.Upstream.Stream.Room.{
  Small, Fits, Keeps, connection_read-Fits, Fits-Small, read_notfinish-Keeps,
  connection_write-Small,
}
use phorklift.Upstream.Content.{
  Upc, Got, no_connection, not_ready, connected, Pointer, null, got, Parsed, Upstream, Ctx, returns,
  crashes, unfinished, status_code_retry, ret_of, Here, Result, with_ctx, no_retry, retried,
  count_retry, content_fail, headers_read, headers_parsed, received, read_headers, sent,
  send_request, on_connection, connection_got, with_connection, request_built, with_context,
  generate_response_headers, go_on, resumed,
}
use phorklift.Upstream.Content.Contract.{
  Usable, Gettable, IsReliable, Whole, Ready, Waits, left, budget, Spent, Sound,
}

left_le : (max : ℕ) (o : Option ℕ) → left max o ≤ max
left_le max none = omega arith
left_le max (some k) = omega arith

module _ (up : Upstream) (reliable : IsReliable up) where
  open up use {
    Data, World, max_retries, retry_status_codes, build_request, parse_response_headers,
    get_connection, retry_connection, source, sink, is_blocked, moved,
  }

  no_retry-Sound :
      (m : ℕ) (c : Ctx Data) (x : Here up)
      → Spent max_retries c.retries
      → Sound up m (no_retry up (with_ctx up c x))
  unfolding no_retry
  no_retry-Sound m c x h = go (x.request.status_code == 0) (λ e. ground arith)
    where
      go :
          (b : Bool)
          → (b ≡ false → x.request.status_code ≢ 0)
          → Sound up m (returns (if b then status 502 else ok) (with_ctx up c x))
      go true f = tt
      go false f = inr (h, f refl)

  -- The next attempt is sound, when fewer than `n` are left.
  module _ (m n : ℕ) (small : n ≤ m) (next : Here up → Result up)
      (sound : (x : Here up)
        → Ready x.ctx
        → budget max_retries x.ctx < n
        → Sound up m (next x)) where
    retried-Sound :
        (c : Ctx Data) (g : Got) (w : World) (x : Here up)
        → Usable g
        → left max_retries c.retries < n
        → Sound up m (retried up next c (g, w) x)
    unfolding retried
    retried-Sound c no_connection w x u h = tt
    retried-Sound c not_ready w x u h = elim u [ ]
    retried-Sound c (connected u') w x u h = sound _ u h

    count_retry-Sound :
        (u : Upc) (o : Option ℕ) (c : Ctx Data) (x : Here up)
        → c.retries ≡ o
        → left max_retries o ≤ n
        → Sound up m (count_retry up next u o c x)
    unfolding count_retry
    count_retry-Sound u none c x e h = no_retry-Sound m c x (subst (Spent max_retries) (sym e) tt)
    count_retry-Sound u (some k) c x e h =
        if_intro (Sound up m) (leb max_retries k) _ _
          (λ t. no_retry-Sound m (record c { retries = some (suc k) }) x (ground arith))
          (λ t.
            retried-Sound (record c { retries = some (suc k) }) _ _ _
              (reliable.gets_again u x.world) (ground arith))

    content_fail-Sound :
        (u : Upc) (c : Ctx Data) (x : Here up)
        → left max_retries c.retries ≤ n
        → Sound up m (content_fail up next u c x)
    unfolding content_fail
    content_fail-Sound u c x h = count_retry-Sound _ c.retries _ x refl h

    headers_read-Sound :
        (is_done : Bool) (u : Upc) (o : Option UpStream) (c : Ctx Data) (x : Here up)
        → Keeps o
        → left max_retries c.retries ≤ n
        → Sound up m (headers_read up next is_done u o c x)
    unfolding headers_read
    headers_read-Sound is_done u none c x k h = k
    headers_read-Sound false u (some s) c x k h = (k, omega arith)
    headers_read-Sound true u (some s) c x k h =
        if_intro (Sound up m) (status_code_retry retry_status_codes x.request.status_code) _ _
          (λ e. content_fail-Sound _ _ x h) (λ e. inl (inl e))

    headers_parsed-Sound :
        (u : Upc) (buffer : List ℕ) (is_done : Bool) (o : Option ℕ) (c : Ctx Data) (x : Here up)
        → length buffer ≤ 4096
        → u.stream.preread ≡ none
        → left max_retries c.retries ≤ n
        → Sound up m (headers_parsed up next u buffer is_done o c x)
    unfolding headers_parsed
    headers_parsed-Sound u buffer is_done none c x b e h = content_fail-Sound u c x h
    headers_parsed-Sound u buffer is_done (some k) c x b e h =
        headers_read-Sound is_done u _ c x
          (read_notfinish-Keeps (drop k buffer) u.stream e (omega (arith, length-drop k buffer))) h

    received-Sound :
        (parse : Request → Data → List ℕ → Parsed Data) (u : Upc) (ret : Read) (c : Ctx Data)
        (x : Here up)
        → Fits (ret, u.stream)
        → Whole c.upc c.has_sent_request
        → left max_retries c.retries ≤ n
        → Sound up m (received up next parse u ret c x)
    unfolding received
    received-Sound parse u none_yet c x f wh h = (wh, omega arith)
    received-Sound parse u failed c x f wh h = content_fail-Sound u c x h
    received-Sound parse u (bytes buffer) c x f wh h =
        headers_parsed-Sound u buffer _ _ _ _ f.0 f.1 h

    read_headers-Sound :
        (o : Option (Request → Data → List ℕ → Parsed Data)) (p : Pointer) (c : Ctx Data)
        (x : Here up)
        → Whole p true
        → left max_retries c.retries ≤ n
        → Sound up m (read_headers up next o p c x)
    unfolding read_headers
    read_headers-Sound none p c x wh h = inl (inr refl)
    read_headers-Sound (some parse) null c x wh h = cc
    read_headers-Sound (some parse) (got no_connection) c x wh h = wh
    read_headers-Sound (some parse) (got not_ready) c x wh h = wh
    read_headers-Sound (some parse) (got (connected u)) c x wh h =
        let f =
          connection_read-Fits (source u.id x.world) u.stream (reliable.reads u.id x.world) wh in
        received-Sound parse _ _ _ _ f (Fits-Small _ _ f) h

    sent-Sound :
        (ret : Ret) (u : Upc) (c : Ctx Data) (x : Here up)
        → Small u.stream
        → c.upc ≡ got (connected u)
        → left max_retries c.retries ≤ n
        → Sound up m (sent up next ret u c x)
    unfolding sent
    sent-Sound again u c x s e h = (subst (λ p. Whole p c.has_sent_request) (sym e) s, omega arith)
    sent-Sound error u c x s e h = content_fail-Sound u c x h
    sent-Sound ok u c x s e h =
        read_headers-Sound _ c.upc _ x (subst (λ p. Whole p true) (sym e) s) h
    sent-Sound brk u c x s e h =
        read_headers-Sound _ c.upc _ x (subst (λ p. Whole p true) (sym e) s) h
    sent-Sound (status k) u c x s e h =
        read_headers-Sound _ c.upc _ x (subst (λ p. Whole p true) (sym e) s) h

    send_request-Sound :
        (u : Upc) (c : Ctx Data) (x : Here up)
        → Small u.stream
        → left max_retries c.retries ≤ n
        → Sound up m (send_request up next (got (connected u)) c x)
    unfolding send_request
    send_request-Sound u c x s h =
        sent-Sound _ _ _ _ (connection_write-Small _ (is_blocked u.id x.world) c.req_buf u.stream s)
          refl h

    on_connection-Sound :
        (u : Upc) (c : Ctx Data) (x : Here up)
        → c.upc ≡ got (connected u)
        → Small u.stream
        → left max_retries c.retries ≤ n
        → Sound up m (on_connection up next c x)
    unfolding on_connection
    on_connection-Sound u c x e s h =
        if_intro (Sound up m) c.has_sent_request _ _
          (λ t. read_headers-Sound _ c.upc c x (subst (λ p. Whole p true) (sym e) s) h)
          (λ t.
            subst (λ p. Sound up m (send_request up next p c x)) (sym e)
              (send_request-Sound u c x s h))

    connection_got-Sound :
        (g : Got) (w : World) (c : Ctx Data) (x : Here up)
        → Gettable g
        → c.upc ≡ null
        → c.has_sent_request ≡ false
        → left max_retries c.retries ≤ n
        → Sound up m (connection_got up next (g, w) c x)
    unfolding connection_got ret_of
    connection_got-Sound (connected u) w c x g e f h = on_connection-Sound u _ _ refl g h
    connection_got-Sound no_connection w c x g e f h = tt
    connection_got-Sound not_ready w c x g e f h =
        (subst (λ p. Whole p c.has_sent_request) (sym e) f, omega arith)

    with_connection-Sound :
        (p : Pointer) (c : Ctx Data) (x : Here up)
        → c.upc ≡ p
        → Whole p c.has_sent_request
        → left max_retries c.retries ≤ n
        → Sound up m (with_connection up next p c x)
    unfolding with_connection
    with_connection-Sound null c x e wh h =
        connection_got-Sound _ _ c x (reliable.gets x.request x.world) e wh h
    with_connection-Sound (got no_connection) c x e wh h = elim wh [ ]
    with_connection-Sound (got not_ready) c x e wh h = elim wh [ ]
    with_connection-Sound (got (connected u)) c x e wh h = on_connection-Sound u c x e wh h

    request_built-Sound :
        (ret : Ret) (c : Ctx Data) (x : Here up)
        → Whole c.upc c.has_sent_request
        → left max_retries c.retries ≤ n
        → Sound up m (request_built up next ret c x)
    unfolding request_built
    request_built-Sound ok c x wh h = with_connection-Sound c.upc c x refl wh h
    request_built-Sound again c x wh h = (wh, omega arith)
    request_built-Sound error c x wh h = tt
    request_built-Sound brk c x wh h = tt
    request_built-Sound (status k) c x wh h = tt

    -- A request whose context is still NULL, with the retries that build_request gives.
    pub fresh-Sound :
        (x : Here up)
        → left max_retries (build_request x.request).retries ≤ n
        → Sound up m (with_context up next none x)
    unfolding with_context
    fresh-Sound x h = request_built-Sound _ _ x refl h

    pub with_context-Sound :
        (o : Option (Ctx Data)) (x : Here up)
        → Ready o
        → budget max_retries o ≤ n
        → Sound up m (with_context up next o x)
    unfolding with_context
    with_context-Sound none x r h =
        fresh-Sound x (omega (arith, left_le max_retries (build_request x.request).retries))
    with_context-Sound (some c) x r h = with_connection-Sound c.upc c x refl r h

  generate-Sound :
      (m fuel : ℕ) (x : Here up)
      → fuel ≤ suc m
      → Ready x.ctx
      → budget max_retries x.ctx < fuel
      → Sound up m (generate_response_headers up fuel x)
  unfolding generate_response_headers
  generate-Sound m zero x l r h = let no : ⊥ = omega arith in elim no [ ]
  generate-Sound m (suc fuel) x l r h =
      with_context-Sound m fuel (omega arith) (generate_response_headers up fuel)
        (λ x' r' h'. generate-Sound m fuel x' (omega arith) r' h') x.ctx x r (omega arith)

  pub Waits-Ready : (o : Option (Ctx Data)) → Waits o → Ready o
  Waits-Ready none h = tt
  Waits-Ready (some c) h = h

  budget_le : (o : Option (Ctx Data)) → budget max_retries o ≤ max_retries
  budget_le none = omega arith
  budget_le (some c) = left_le max_retries c.retries

  call-Sound :
      (x : Here up)
      → Ready x.ctx
      → Sound up max_retries (generate_response_headers up (suc max_retries) x)
  call-Sound x r =
      generate-Sound max_retries (suc max_retries) x (omega arith) r
        (omega (arith, budget_le x.ctx))

  pub go_on-Sound :
      (m : ℕ) (next : Here up → Result up) (move : World → World) (o : Result up)
      → Sound up m o
      → ((x : Here up) → Waits x.ctx → budget max_retries x.ctx ≤ m → Sound up m (next x))
      → Sound up m (go_on up next move o)
  unfolding go_on
  go_on-Sound m next move (returns ok x) s f = s
  go_on-Sound m next move (returns error x) s f = tt
  go_on-Sound m next move (returns brk x) s f = tt
  go_on-Sound m next move (returns (status k) x) s f = tt
  go_on-Sound m next move (returns again x) s f = f _ s.0 s.1
  go_on-Sound m next move crashes s f = s
  go_on-Sound m next move unfinished s f = s

  -- A request goes through as many calls as it takes, from a context that is NULL or that an earlier
  -- call left: each call returns after at most `max_retries` further attempts, and none of them
  -- reads through a pointer that is none or fails an assertion. PHL_OK stands for a response with
  -- a status code that asks for no other attempt (or that is 200), or for the response of the last
  -- attempt, which has a status code; after PHL_AGAIN the context is in order for the next call.
  -- Another attempt gets a connection or an error, never a wait; no more than 4096 bytes are left from
  -- an earlier read of a connection that is got; and no read gives more than it is asked for.
  pub resumed-Sound :
      (moves : List (World → World)) (x : Here up)
      → Ready x.ctx
      → Sound up max_retries (resumed up moves x)
  unfolding resumed
  resumed-Sound [] x r = call-Sound x r
  resumed-Sound (move ∷ moves) x r =
      go_on-Sound max_retries (resumed up moves) move _ (call-Sound x r)
        (λ x' w b. resumed-Sound moves x' (Waits-Ready x'.ctx w))
