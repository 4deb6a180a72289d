-- ===== src/Acl/Decision.antt =====
-- phl_acl_process_headers(): which rule decides on an address.
use phorklift.Prelude.{
  ℕ, ◌≤◌, ◌<◌, arith, ◌≡◌, refl, Bool, true, false, not, some, List, [], ◌∷◌, ◌++◌, if◌then◌else◌,
  ◌⊎◌, inl, inr, All, if_intro, ap,
}
use phorklift.Request.State.{Ret, ok, status}
use phorklift.Acl.{Rule, matches, Answer, gives, by_default, decide, process_headers}

abbrev pub last_of : Rule → List Rule → Rule
last_of r [] = r
last_of r (s ∷ rules) = last_of s rules

-- The address is inside the range of the rule, its ends included; and it is outside.
abbrev pub Holds : ℕ → Rule → Type 0
Holds addr r = (r.start ≤ addr) × (addr ≤ r.end)

abbrev pub Misses : ℕ → Rule → Type 0
Misses addr r = (addr < r.start) ⊎ (r.end < addr)

hit : (addr : ℕ) (r : Rule) → matches r addr ≡ true → Holds addr r
unfolding matches
hit addr r e = ground arith

miss : (addr : ℕ) (r : Rule) → matches r addr ≡ false → Misses addr r
unfolding matches
miss addr r e = ground arith

-- The first rule with the address decides; without one, the opposite of the last rule does.
abbrev pub Decides : ℕ → Rule → List Rule → Ret → Type 0
Decides addr last rules ret =
    ((before : List Rule) × (r : Rule) × (after : List Rule) × (rules ≡ before ++ r ∷ after)
      × All (Misses addr) before
      × Holds addr r
      × (ret ≡ (if r.is_deny then status 403 else ok)))
    ⊎ (All (Misses addr) rules × (ret ≡ (if (last_of last rules).is_deny then ok else status 403)))

abbrev Decided : ℕ → Rule → List Rule → Answer → Type 0
Decided addr last rules a = (ret : Ret) × (a ≡ gives ret) × Decides addr last rules ret

later :
    (addr : ℕ) (last r : Rule) (rules : List Rule) (a : Answer)
    → Misses addr r
    → Decided addr r rules a
    → Decided addr last (r ∷ rules) a
later addr last r rules a out (ret, e, inl (before, q, after, s, n, m, h)) =
    (ret, e, inl (r ∷ before, q, after, ap (λ l. r ∷ l) s, (out, n), m, h))
later addr last r rules a out (ret, e, inr (n, h)) = (ret, e, inr ((out, n), h))

opposite : (b : Bool) → (if not b then status 403 else ok) ≡ (if b then ok else status 403)
opposite true = refl
opposite false = refl

by_default-Decided : (addr : ℕ) (last : Rule) → Decided addr last [] (by_default (some last))
unfolding by_default
by_default-Decided addr last = (_, refl, inr (tt, opposite last.is_deny))

decide-Decides :
    (addr : ℕ) (last : Rule) (rules : List Rule)
    → Decided addr last rules (decide addr (some last) rules)
unfolding decide
decide-Decides addr last [] = by_default-Decided addr last
decide-Decides addr last (r ∷ rules) =
    if_intro (Decided addr last (r ∷ rules)) (matches r addr) _ _
      (λ e. (_, refl, inl ([], r, rules, refl, tt, hit addr r e, refl)))
      (λ e. later addr last r rules _ (miss addr r e) (decide-Decides addr r rules))

-- With at least one rule, the first rule whose range holds the address decides: PHL_OK, or status
-- 403 when it is a deny rule. If no range holds it, the answer is the opposite of the last rule's. A
-- range holds the addresses from its start to its end, both included.
pub process_headers-Decides :
    (addr : ℕ) (r : Rule) (rules : List Rule)
    → (ret : Ret) × (process_headers (some (r ∷ rules)) addr ≡ gives ret)
      × Decides addr r (r ∷ rules) ret
unfolding process_headers decide
process_headers-Decides addr r rules =
    if_intro (Decided addr r (r ∷ rules)) (matches r addr) _ _
      (λ e. (_, refl, inl ([], r, rules, refl, tt, hit addr r e, refl)))
      (λ e. later addr r r rules _ (miss addr r e) (decide-Decides addr r rules))
