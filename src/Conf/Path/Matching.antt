-- ===== src/Conf/Path/Matching.antt =====
-- What a pathname matches, and which Path is chosen (phl_conf_path.c).
use phorklift.Prelude.{
  ℕ, ◌≡◌, refl, ◌≢◌, ◌⊎◌, inl, inr, Bool, true, false, Option, none, some, List, [], ◌∷◌, ◌++◌,
  Text, first, str_eq, starts_with, All, arith, eq_of_str_eq, str_eq_refl, starts_with-append,
  split_of_starts_with, subst, sym, ap, ◌∙◌,
}
use phorklift.Conf.Path.{
  ConfPath, ConfHost, Outcome, returns, aborts, name_match, any_match, locate_in, locate,
  pathname_ok, bad_pathname,
}

-- Every pathname of the list passes the check of phl_conf_path_post().
abbrev pub AllOk : List Text → Type 0
AllOk = All (λ n. pathname_ok n ≡ true)

pub bad_pathname-AllOk : (ns : List Text) → bad_pathname ns ≡ none → AllOk ns
unfolding bad_pathname
bad_pathname-AllOk [] h = tt
bad_pathname-AllOk (n ∷ ns) h = ground (arith, bad_pathname-AllOk ns)

abbrev pub AllPathsOk : List ConfPath → Type 0
AllPathsOk = All (λ p. AllOk p.pathnames)

module _ (find : Text → Text → Bool) where
  -- When a pathname of the configuration matches the name of a request.
  pub data Matches : Text → Text → Type 0 where
    named : (req : Text) → first req ≡ b'@' → Matches req req
    exact : (req : Text) → first req ≢ b'@' → Matches (b'=' ∷ req) req
    prefix :
        (p rest req : Text) → first req ≢ b'@' → req ≡ (b'/' ∷ p) ++ rest → Matches (b'/' ∷ p) req
    pattern : (p req : Text) → first req ≢ b'@' → find req p ≡ true → Matches (b'~' ∷ p) req

  -- The model of a pathname by its first byte.
  Matches-name_match : (def req : Text) → Matches def req → name_match find def req ≡ returns true
  unfolding name_match
  Matches-name_match def req (named r e) = ground (arith, str_eq_refl r)
  Matches-name_match def req (exact r e) = ground (arith, str_eq_refl r)
  Matches-name_match def req (prefix p rest r e s) =
      rw s (ground (arith, starts_with-append (b'/' ∷ p) rest, s))
  Matches-name_match def req (pattern p r e h) = ground arith

  name_match_cases :
      (c : ℕ) (p req : Text)
      → name_match find (c ∷ p) req ≡ returns true
      → ((first req ≡ b'@') × (str_eq (c ∷ p) req ≡ true))
        ⊎ ((first req ≢ b'@') × (c ≡ b'=') × (str_eq p req ≡ true))
        ⊎ ((first req ≢ b'@') × (c ≡ b'/') × (starts_with (c ∷ p) req ≡ true))
        ⊎ ((first req ≢ b'@') × (c ≡ b'~') × (find req p ≡ true))
  unfolding name_match
  name_match_cases c p req h = ground arith

  name_match_nil : (req : Text) → name_match find [] req ≢ returns true
  unfolding name_match
  name_match_nil [] h = ground arith
  name_match_nil (d ∷ req) h = ground (arith, eq_of_str_eq [] (d ∷ req))

  prefix_of :
      (c : ℕ) (p req : Text)
      → first req ≢ b'@'
      → c ≡ b'/'
      → starts_with (c ∷ p) req ≡ true
      → Matches (c ∷ p) req
  prefix_of c p req ne e s =
      let (rest, split) = split_of_starts_with (c ∷ p) req s in
      subst (λ d. Matches (d ∷ p) req) (sym e)
        (prefix p rest req ne (split ∙ ap (λ d. d ∷ (p ++ rest)) e))

  name_match-Matches : (def req : Text) → name_match find def req ≡ returns true → Matches def req
  name_match-Matches [] req h = absurd (name_match_nil req h)
  name_match-Matches (c ∷ p) req h = elim (name_match_cases c p req h) [
    | inl (e, s) ↦ subst (λ d. Matches d req) (sym (eq_of_str_eq (c ∷ p) req s)) (named req e)
    | inr (inl (ne, e, s)) ↦
        subst (λ d. Matches (d ∷ p) req) (sym e)
          (subst (λ q. Matches (b'=' ∷ q) req) (sym (eq_of_str_eq p req s)) (exact req ne))
    | inr (inr (inl (ne, e, s))) ↦ prefix_of c p req ne e s
    | inr (inr (inr (ne, e, s))) ↦ subst (λ d. Matches (d ∷ p) req) (sym e) (pattern p req ne s)
  ]

  name_match-ne-aborts :
      (def req : Text) → pathname_ok def ≡ true → name_match find def req ≢ aborts
  unfolding name_match pathname_ok
  name_match-ne-aborts def req ok h = ground arith

  Outcome_cases : (o : Outcome Bool) → o ≢ aborts → (o ≡ returns true) ⊎ (o ≡ returns false)
  Outcome_cases (returns true) h = inl refl
  Outcome_cases (returns false) h = inr refl
  Outcome_cases aborts h = absurd (h refl)

  -- On a pathname that the configuration accepts, the test answers yes when the pathname matches,
  -- and no otherwise: it does not abort.
  pub name_match_decides :
      (def req : Text)
      → pathname_ok def ≡ true
      → ((name_match find def req ≡ returns true) × Matches def req)
        ⊎ ((name_match find def req ≡ returns false) × ¬ (Matches def req))
  name_match_decides def req ok =
      elim (Outcome_cases (name_match find def req) (name_match-ne-aborts def req ok)) [
        | inl e ↦ inl (e, name_match-Matches def req e)
        | inr e ↦ inr (e, λ m. cc (Matches-name_match def req m))
      ]

  -- Some pathname of the list matches, or none does.
  abbrev pub AnyMatches : List Text → Text → Type 0
  AnyMatches [] req = ⊥
  AnyMatches (n ∷ ns) req = Matches n req ⊎ AnyMatches ns req

  pub any_match_decides :
      (ns : List Text) (req : Text)
      → AllOk ns
      → ((any_match find ns req ≡ returns true) × AnyMatches ns req)
        ⊎ ((any_match find ns req ≡ returns false) × ¬ (AnyMatches ns req))
  unfolding any_match
  any_match_decides [] req ok = inr (refl, λ m. m)
  any_match_decides (n ∷ ns) req ok = elim (name_match_decides n req ok.0) [
    | inl (e, m) ↦ inl (rw e, inl m)
    | inr (e, m) ↦ elim (any_match_decides ns req ok.1) [
      | inl (es, ms) ↦ inl (rw e es, inr ms)
      | inr (es, ms) ↦ inr (rw e es, λ k. elim k [ inl h ↦ m h | inr h ↦ ms h ])
    ]
  ]

  -- What phl_conf_path_locate() promises of its result, by the list of paths alone.
  pub data Located (req : Text) : List ConfPath → Outcome (Option ConfPath) → Type 0 where
    here :
        {p : ConfPath} {ps : List ConfPath}
        → AnyMatches p.pathnames req
        → Located req (p ∷ ps) (returns (some p))
    there :
        {p : ConfPath} {ps : List ConfPath} {o : Option ConfPath}
        → ¬ (AnyMatches p.pathnames req)
        → Located req ps (returns o)
        → Located req (p ∷ ps) (returns o)
    nowhere : Located req [] (returns none)

  locate_in-Located :
      (ps : List ConfPath) (req : Text)
      → AllPathsOk ps
      → (o : Option ConfPath) × (locate_in find ps req ≡ returns o) × Located req ps (returns o)
  unfolding locate_in
  locate_in-Located [] req ok = (none, refl, nowhere)
  locate_in-Located (p ∷ ps) req ok =
      let (o, e, l) = locate_in-Located ps req ok.1 in
      elim (any_match_decides p.pathnames req ok.0) [
        | inl (hit, m) ↦ (some p, rw hit, here m)
        | inr (miss, m) ↦ (o, rw miss e, there m l)
      ]

  -- With Path scopes whose pathnames the configuration accepts, the choice ends without an abort;
  -- its result is the first path in order that has a matching pathname, and NULL when no path has.
  pub locate-Located :
      (h : ConfHost) (ps : List ConfPath) (req : Text)
      → h.paths ≡ some ps
      → AllPathsOk ps
      → (o : Option ConfPath) × (locate find h req ≡ returns o) × Located req ps (returns o)
  unfolding locate
  locate-Located h ps req e ok = let (o, r, l) = locate_in-Located ps req ok in (o, rw e r, l)
