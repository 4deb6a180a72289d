-- ===== src/Request/Closing/Counted.antt =====
-- phl_request_stats() in phl_request.c: what the counters of a path add up to.
use phorklift.Prelude.{
  ℕ, suc, ◌+◌, ◌≤◌, ◌≡◌, refl, true, false, Option, none, some, List, [], ◌∷◌, ◌==◌, if◌then◌else◌,
  arith, if_intro, Bool-cases, ==_iff, ◌⊎◌, inl, inr, ap, sym, ◌∙◌,
}
use phorklift.Request.State.{is_done, Request}
use phorklift.Request.Closing.{
  Seen, PathStats, is_known, add_times, count_status, counted_path, request_stats,
}

-- The sum of the counters of the status codes of a table.
unfoldable pub sum_of : (ℕ → ℕ) → List ℕ → ℕ
sum_of f [] = 0
sum_of f (c ∷ codes) = f c + sum_of f codes

-- No code stands twice in a table.
unfoldable pub Distinct : List ℕ → Type 0
Distinct [] = Unit
Distinct (c ∷ codes) = (is_known c codes ≡ false) × Distinct codes

-- Each request that is counted has one status code, and is done at most once.
pub record IsCounted (codes : List ℕ) (n : PathStats) : Type 0 where
  pub by_status : n.total ≡ sum_of n.statuses codes + n.status_others
  pub done_le : n.done ≤ n.total

abbrev bumped : ℕ → (ℕ → ℕ) → ℕ → ℕ
bumped code f c = if c == code then suc (f c) else f c

sum_of-unknown :
    (f : ℕ → ℕ) (code : ℕ) (codes : List ℕ)
    → is_known code codes ≡ false
    → sum_of (bumped code f) codes ≡ sum_of f codes
unfolding sum_of is_known
sum_of-unknown f code [] h = refl
sum_of-unknown f code (c ∷ codes) h = let rest = sum_of-unknown f code codes in ground (arith, rest)

known_later :
    (code c : ℕ) (codes : List ℕ)
    → (c == code) ≡ false
    → is_known code (c ∷ codes) ≡ true
    → is_known code codes ≡ true
unfolding is_known
known_later code c codes e h = ground arith

sum_of-known :
    (f : ℕ → ℕ) (code : ℕ) (codes : List ℕ)
    → Distinct codes
    → is_known code codes ≡ true
    → sum_of (bumped code f) codes ≡ suc (sum_of f codes)
unfolding sum_of is_known Distinct
sum_of-known f code [] d h = cc
sum_of-known f code (c ∷ codes) (n, d) h = go (Bool-cases (c == code)) (sum_of-known f code codes d)
  where
    go :
        ((c == code) ≡ true) ⊎ ((c == code) ≡ false)
        → (is_known code codes ≡ true → sum_of (bumped code f) codes ≡ suc (sum_of f codes))
        → bumped code f c + sum_of (bumped code f) codes ≡ suc (f c + sum_of f codes)
    go (inl t) later =
        let same = (==_iff c code).0 t in
        let rest = sum_of-unknown f code codes (ap (λ k. is_known k codes) (sym same) ∙ n) in
        ground (arith, rest)
    go (inr e) later = let rest = later (known_later code c codes e h) in ground (arith, rest)

count_status-IsCounted :
    (codes : List ℕ) (code : ℕ) (n : PathStats)
    → Distinct codes
    → n.total ≡ suc (sum_of n.statuses codes + n.status_others)
    → n.done ≤ n.total
    → IsCounted codes (count_status codes code n)
unfolding count_status
count_status-IsCounted codes code n d e l =
    if_intro (IsCounted codes) (is_known code codes) _ _
      (λ t. record {
        by_status = let s = sum_of-known n.statuses code codes d t in omega arith;
        done_le = l;
      })
      (λ f. record { by_status = omega arith; done_le = l })

-- The close of a request keeps the counters of a path in order: `total` is the sum of the counters of
-- the status codes and of `status_others`, and `done` is at most `total`. No status code stands twice
-- in the table.
pub request_stats-IsCounted :
    (codes : List ℕ) (t : Seen) (r : Request) (n : PathStats)
    → Distinct codes
    → IsCounted codes n
    → IsCounted codes (request_stats codes t r n)
unfolding request_stats
request_stats-IsCounted codes t r n d c = go r.conf_host r.conf_path
  where
    counted : IsCounted codes (counted_path codes t r n)
    counted =
        let s = c.by_status in
        let b = c.done_le in
        let more = record n { total = suc n.total } in
        if_intro (λ (m : PathStats). IsCounted codes (count_status codes r.status_code m))
          (is_done r.state) _ _
          (λ t'.
            count_status-IsCounted codes r.status_code (add_times t more) d (omega arith)
              (omega arith))
          (λ f. count_status-IsCounted codes r.status_code more d (omega arith) (omega arith))

    go :
        (h p : Option ℕ)
        → IsCounted codes (elim h [
          | none ↦ record n { fail_no_host = suc n.fail_no_host }
          | some i ↦ elim p [
            | none ↦ record n { fail_no_path = suc n.fail_no_path }
            | some j ↦ counted_path codes t r n
          ]
        ])
    go none p = record { by_status = c.by_status; done_le = c.done_le }
    go (some i) none = record { by_status = c.by_status; done_le = c.done_le }
    go (some i) (some j) = counted
