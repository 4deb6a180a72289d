-- ===== src/Request/Body/Feeding.antt =====
-- A body that comes in pieces (phl_request_append_body()).
use mathlib.Core.List.{flatten, append_assoc, append-nil}
use native.Mathlib.Decide.{dec_lt}
use phorklift.Prelude.{
  ℕ, ◌+◌, ◌≤◌, ◌<◌, ◌≡◌, refl, some, List, [], ◌∷◌, ◌++◌, leb, length, length-append, arith, ap,
  sym, ◌∙◌, subst,
}
use phorklift.Request.State.{Ret, ok, error, again, brk, status, Request}
use phorklift.Request.Body.{append_sized, append_body, then_feed, feed}

abbrev pub total : List (List ℕ) → ℕ
total [] = 0
total (b ∷ bs) = length b + total bs

-- A request with a content length `n` above 0, whose flag tells whether all of the body is there. With
-- the content length 0 the flag is false and stays so: no bytes are ever taken in.
pub record IsSized (n : ℕ) (r : Request) : Type 0 where
  pub positive : 0 < n
  pub declared : r.content_length ≡ some n
  pub fits : length r.body ≤ n
  pub flagged : r.body_finished ≡ leb n (length r.body)

-- The state after the bytes `new` have been taken in.
pub record Took (n : ℕ) (new : List ℕ) (r : Request) (o : Ret × Request) : Type 0 where
  pub accepted : o.0 ≡ ok
  pub extended : o.1.body ≡ r.body ++ new
  pub sized : IsSized n o.1

appended : ℕ → Request → List ℕ → Request
appended n r b = record r { body = r.body ++ b; body_finished = leb n (length (r.body ++ b)) }

append_body-fits :
    (n max : ℕ) (r : Request) (c : ℕ) (b : List ℕ)
    → IsSized n r
    → length r.body + length (c ∷ b) ≤ n
    → append_body max r (c ∷ b) ≡ (ok, appended n r (c ∷ b))
unfolding append_body append_sized appended
append_body-fits n max r c b s h = ground (arith, s.declared)

pub append-Took :
    (n max : ℕ) (r : Request) (b : List ℕ)
    → IsSized n r
    → length r.body + length b ≤ n
    → Took n b r (append_body max r b)
unfolding append_body appended
append-Took n max r [] s h = record { accepted = refl; extended = sym (append-nil _); sized = s }
append-Took n max r (c ∷ b) s h =
    subst (Took n (c ∷ b) r) (sym (append_body-fits n max r c b s h)) (record {
      accepted = refl;
      extended = refl;
      sized = record {
        positive = s.positive;
        declared = s.declared;
        fits = omega (arith, length-append r.body (c ∷ b));
        flagged = refl;
      };
    })

append-refused :
    (n max : ℕ) (r : Request) (b : List ℕ)
    → IsSized n r
    → n < length r.body + length b
    → append_body max r b ≡ (status 400, r)
unfolding append_body append_sized
append-refused n max r [] s h = absurd (omega (arith, s.fits))
append-refused n max r (c ∷ b) s h = ground (arith, s.declared)

then_Took :
    (n : ℕ) (b : List ℕ) (bs : List (List ℕ)) (r : Request) (o : Ret × Request)
    (k : Request → Ret × Request)
    → Took n b r o
    → (IsSized n o.1 → Took n (flatten bs) o.1 (k o.1))
    → Took n (b ++ flatten bs) r (then_feed o k)
then_Took n b bs r (ok, s) k t h =
    let rest = h t.sized in
    record {
      accepted = rest.accepted;
      extended =
          rest.extended ∙ ap (λ x. x ++ flatten bs) t.extended ∙ append_assoc r.body b (flatten bs);
      sized = rest.sized;
    }
then_Took n b bs r (error, s) k t h = absurd (ground (arith, t.accepted))
then_Took n b bs r (again, s) k t h = absurd (ground (arith, t.accepted))
then_Took n b bs r (brk, s) k t h = absurd (ground (arith, t.accepted))
then_Took n b bs r (status c, s) k t h = absurd (ground (arith, t.accepted))

length_after :
    (n : ℕ) (b : List ℕ) (r : Request) (o : Ret × Request)
    → Took n b r o
    → length o.1.body ≡ length r.body + length b
length_after n b r o t = ap length t.extended ∙ length-append r.body b

-- Pieces that fit into the content length together, which is above 0, are all accepted, however the
-- body is cut into pieces: the body is their concatenation in order, it stays within the content
-- length, and the request counts as finished exactly when its length has reached it, if it did so
-- before.
pub feed-Took :
    (n max : ℕ) (r : Request) (bs : List (List ℕ))
    → IsSized n r
    → length r.body + total bs ≤ n
    → Took n (flatten bs) r (feed max r bs)
unfolding feed flatten
feed-Took n max r [] s h = record { accepted = refl; extended = sym (append-nil _); sized = s }
feed-Took n max r (b ∷ bs) s h =
    let t = append-Took n max r b s (omega arith) in
    then_Took n b bs r (append_body max r b) _ t λ s'.
      feed-Took n max (append_body max r b).1 bs s'
        (omega (arith, length_after n b r (append_body max r b) t))

then_refused :
    (n : ℕ) (b : List ℕ) (r : Request) (o : Ret × Request) (k : Request → Ret × Request)
    → Took n b r o
    → (k o.1).0 ≡ status 400
    → (then_feed o k).0 ≡ status 400
then_refused n b r (ok, s) k t h = h
then_refused n b r (error, s) k t h = absurd (ground (arith, t.accepted))
then_refused n b r (again, s) k t h = absurd (ground (arith, t.accepted))
then_refused n b r (brk, s) k t h = absurd (ground (arith, t.accepted))
then_refused n b r (status c, s) k t h = absurd (ground (arith, t.accepted))

-- Pieces that go past the content length together are answered by status 400, wherever the cut
-- between two of them falls.
pub feed-refused :
    (n max : ℕ) (r : Request) (bs : List (List ℕ))
    → IsSized n r
    → n < length r.body + total bs
    → (feed max r bs).0 ≡ status 400
unfolding feed flatten
feed-refused n max r [] s h = absurd (omega (arith, s.fits))
feed-refused n max r (b ∷ bs) s h = elim (dec_lt n (length r.body + length b)) [
  | yes over ↦ rw (append-refused n max r b s over) refl
  | no within ↦
      let t = append-Took n max r b s (omega arith) in
      then_refused n b r (append_body max r b) _ t (
        feed-refused n max (append_body max r b).1 bs t.sized
          (omega (arith, length_after n b r (append_body max r b) t)))
]
