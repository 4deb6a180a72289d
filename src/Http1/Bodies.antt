-- ===== src/Http1/Bodies.antt =====
-- phl_http1_request_body(): a body with a content length, as it arrives.
use phorklift.Prelude.{
  ℕ, ◌+◌, ◌≤◌, ◌≡◌, ◌∙◌, Bool, false, not, ◌&&◌, List, ◌++◌, length, leb, if◌then◌else◌, arith,
  if_intro, ap, length-append,
}
use phorklift.Request.State.{Ret, ok, error, again, brk, status, Request}
use phorklift.Request.Steps.{is_none}
use phorklift.Request.Body.{append_body}
use phorklift.Request.Body.Feeding.{IsSized, Took, append-Took}
use phorklift.Http1.{Decoded, plain, request_body}

module _ {D : Type 0} (decode : D → List ℕ → Decoded D) (is_finished : D → Bool)
    (body_max : ℕ) where
  abbrev Received : ℕ → List ℕ → Request → Ret × (D × Request) → Type 0
  Received n buf r o =
      (o.0 ≡ (if leb n (length r.body + length buf) then ok else again))
      × (o.1.1.body ≡ r.body ++ buf)

  plain-Received :
      (n : ℕ) (d : D) (buf : List ℕ) (r : Request) (o : Ret × Request)
      → Took n buf r o
      → Received n buf r (plain decode is_finished body_max d o)
  unfolding plain
  plain-Received n d buf r (ok, s) t = (
    ap (λ b. if b then ok else again)
        (t.sized.flagged
          ∙ ap (λ l. leb n (length l)) t.extended
          ∙ ap (leb n) (length-append r.body buf)),
    t.extended,
  )
  plain-Received n d buf r (error, s) t = let no : ⊥ = ground (arith, t.accepted) in elim no [ ]
  plain-Received n d buf r (again, s) t = let no : ⊥ = ground (arith, t.accepted) in elim no [ ]
  plain-Received n d buf r (brk, s) t = let no : ⊥ = ground (arith, t.accepted) in elim no [ ]
  plain-Received n d buf r (status c, s) t = let no : ⊥ = ground (arith, t.accepted) in elim no [ ]

  -- Bytes within the content length, which is above 0, are added to the body, and the call answers
  -- PHL_OK exactly when the body is complete with them, and PHL_AGAIN before. The request counted as
  -- finished before exactly when its body was complete.
  pub request_body-receives :
      (n : ℕ) (d : D) (buf : List ℕ) (r : Request)
      → IsSized n r
      → length r.body + length buf ≤ n
      → ((request_body decode is_finished body_max d buf r).0
          ≡ (if leb n (length r.body + length buf) then ok else again))
        × ((request_body decode is_finished body_max d buf r).1.1.body ≡ r.body ++ buf)
  unfolding request_body
  request_body-receives n d buf r sized le =
      let e : is_none r.content_length ≡ false = ap is_none sized.declared in
      let P : Ret × (D × Request) → Type 0 = Received n buf r in
      if_intro P (is_none r.content_length && not r.chunked) _ _
        (λ t. let no : ⊥ = ground (arith, t, e) in elim no [ ])
        λ f.
          if_intro P (is_none r.content_length) _ _
            (λ t. let no : ⊥ = ground (arith, t, e) in elim no [ ])
            (λ g.
              plain-Received n d buf r (append_body body_max r buf)
                (append-Took n body_max r buf sized le))
