-- ===== src/Conf/Path/Shadowing.antt =====
-- phl_conf_host_check_path_overwrite(): what the check means for the choice of a Path.
use mathlib.Core.List.{tail}
use phorklift.Prelude.{
  ℕ, suc, ◌+◌, ◌≡◌, refl, ◌≢◌, ◌⊎◌, inl, inr, Bool, true, false, none, some, List, [], ◌∷◌, ◌++◌,
  Text, In, first, arith, take, length, subst, ap,
}
use phorklift.Conf.Path.{
  ConfPath, ConfHost, returns, any_match, locate_in, locate, strip, overwritten_by, overwritten_in,
  check_overwrite, check_names, check_from, check_path_overwrite,
}
use phorklift.Conf.Path.Matching.{AllOk, AnyMatches, any_match_decides, Matches, exact, named}

take_prefix {ℓ} :
    {A : Type ℓ} (before after : List A) → take (length before) (before ++ after) ≡ before
take_prefix [] after = refl
take_prefix (x ∷ before) after = ap (◌∷◌ x) (take_prefix before after)

module _ (find : Text → Text → Bool) where
  check_names-In :
      (paths : List ConfPath) (i : ℕ) (ns : List Text) (n : Text)
      → check_names find paths i ns ≡ returns none
      → In n ns
      → check_overwrite find paths i n ≡ returns false
  unfolding check_names
  check_names-In paths i [] n h m = absurd m
  check_names-In paths i (x ∷ ns) n h (inl e) = rw e (ground arith)
  check_names-In paths i (x ∷ ns) n h (inr m) = check_names-In paths i ns n (ground arith) m

  check_from_cons :
      (paths : List ConfPath) (i : ℕ) (p : ConfPath) (ps : List ConfPath)
      → check_from find paths i (p ∷ ps) ≡ returns none
      → (check_names find paths i p.pathnames ≡ returns none)
        × (check_from find paths (suc i) ps ≡ returns none)
  unfolding check_from
  check_from_cons paths i p ps h = ground arith

  check_from-at :
      (paths before : List ConfPath) (i j : ℕ) (p : ConfPath) (after : List ConfPath)
      → length before + i ≡ j
      → check_from find paths i (before ++ p ∷ after) ≡ returns none
      → check_names find paths j p.pathnames ≡ returns none
  check_from-at paths [] i j p after e h =
      let e' : i ≡ j = omega arith in rw (← e') (check_from_cons paths i p after h).0
  check_from-at paths (q ∷ before) i j p after e h =
      check_from-at paths before (suc i) j p after (omega arith)
        (check_from_cons paths i q (before ++ p ∷ after) h).1

  -- Over a pathname that is not a plain prefix, the overwrite test looks at every pattern.
  overwritten_by-any_match :
      (c : ℕ) (name : Text) (ns : List Text)
      → c ≢ b'/'
      → overwritten_by find c name ns ≡ returns false
      → any_match find ns name ≡ returns false
  unfolding overwritten_by any_match
  overwritten_by-any_match c name [] ne h = refl
  overwritten_by-any_match c name (n ∷ ns) ne h =
      ground (arith, overwritten_by-any_match c name ns ne)

  overwritten_in-locate_in :
      (c : ℕ) (name : Text) (ps : List ConfPath) (p : ConfPath) (after : List ConfPath)
      → c ≢ b'/'
      → overwritten_in find c name ps ≡ returns false
      → any_match find p.pathnames name ≡ returns true
      → locate_in find (ps ++ p ∷ after) name ≡ returns (some p)
  unfolding overwritten_in locate_in
  overwritten_in-locate_in c name [] p after ne h own = rw own
  overwritten_in-locate_in c name (q ∷ ps) p after ne h own = ground (
    arith,
    overwritten_by-any_match c name q.pathnames ne,
    overwritten_in-locate_in c name ps p after ne,
  )

  check_overwrite-false :
      (paths : List ConfPath) (stop : ℕ) (n : Text)
      → first n ≢ b'~'
      → check_overwrite find paths stop n ≡ returns false
      → overwritten_in find (first n) (strip n) (take stop paths) ≡ returns false
  unfolding check_overwrite
  check_overwrite-false paths stop n ne h = ground arith

  -- What the check says of one pathname: no earlier path answers to it.
  checked :
      (h : ConfHost) (before : List ConfPath) (p : ConfPath) (after : List ConfPath) (n : Text)
      → h.paths ≡ some (before ++ p ∷ after)
      → check_path_overwrite find h ≡ returns none
      → In n p.pathnames
      → first n ≢ b'~'
      → overwritten_in find (first n) (strip n) before ≡ returns false
  unfolding check_path_overwrite
  checked h before p after n e c m ne = rw (take_prefix before (p ∷ after)) at (
      check_overwrite-false (before ++ p ∷ after) (length before) n ne (
        check_names-In (before ++ p ∷ after) (length before) p.pathnames n
          (check_from-at (before ++ p ∷ after) before 0 (length before) p after (omega arith)
            (rw e at c))
          m))

  AnyMatches-In :
      (ns : List Text) (n req : Text) → In n ns → Matches find n req → AnyMatches find ns req
  AnyMatches-In [] n req i m = i
  AnyMatches-In (x ∷ ns) n req (inl e) m = inl (subst (λ d. Matches find d req) e m)
  AnyMatches-In (x ∷ ns) n req (inr i) m = inr (AnyMatches-In ns n req i m)

  any_match_own :
      (ns : List Text) (n req : Text)
      → AllOk ns
      → In n ns
      → Matches find n req
      → any_match find ns req ≡ returns true
  any_match_own ns n req ok i m = elim (any_match_decides find ns req ok) [
    | inl (e, _) ↦ e
    | inr (_, never) ↦ absurd (never (AnyMatches-In ns n req i m))
  ]

  own_match :
      (n : Text)
      → ((first n ≡ b'=') × (first (tail n) ≢ b'@')) ⊎ (first n ≡ b'@')
      → Matches find n (strip n)
  own_match [] (inl (e, ne)) = absurd (omega arith)
  own_match [] (inr e) = absurd (omega arith)
  own_match (c ∷ t) (inl (e, ne)) = rw e (exact t ne)
  own_match (c ∷ t) (inr e) = rw e (named (b'@' ∷ t) refl)

  -- In a host that passes the overwrite check, every exact pathname `=x` and every named pathname
  -- `@x` of a Path, all of whose pathnames are accepted, is reachable: a request for `x` (which
  -- does not itself begin with '@'), or for the name `@x`, is given that very Path.
  pub locate-unhidden :
      (h : ConfHost) (before : List ConfPath) (p : ConfPath) (after : List ConfPath) (n : Text)
      → h.paths ≡ some (before ++ p ∷ after)
      → AllOk p.pathnames
      → check_path_overwrite find h ≡ returns none
      → In n p.pathnames
      → ((first n ≡ b'=') × (first (tail n) ≢ b'@')) ⊎ (first n ≡ b'@')
      → locate find h (strip n) ≡ returns (some p)
  unfolding locate
  locate-unhidden h before p after n e ok c i kind = rw e (
      overwritten_in-locate_in (first n) (strip n) before p after (ground arith)
        (checked h before p after n e c i (ground arith))
        (any_match_own p.pathnames n (strip n) ok i (own_match n kind)))
