-- ===== src/Conf/Host/Wildcards.antt =====
-- The wildcard searches of phl_conf_host_locate().
use phorklift.Prelude.{
  ℕ, ◌<◌, ◌≡◌, refl, ◌≢◌, ◌⊎◌, inl, inr, true, false, Option, none, some, [], ◌∷◌, ◌++◌, reverse,
  Text, arith, length, Option-cases, Bool-cases, ◌==◌, if◌then◌else◌, sym, ap, subst, length-append,
}
use phorklift.Conf.Host.{
  Dict, ConfListen, Lookup, gives, out_of_bounds, prefix_search, subfix_search, skip_dot,
  locate_subfix, locate_prefix, locate_name, locate,
}

-- A search by the parts of a name that follow a dot; `probe` looks the key of a part up.
module _ {H : Type 0} (probe : Text → Option H) where
  -- The longest part that follows a dot and whose key is registered, if there is one.
  pub data LongestSuffix (n : Text) : Option H → Type 0 where
    hit :
        (a t : Text) {h : H}
        → n ≡ a ++ b'.' ∷ t
        → probe t ≡ some h
        → ((b u : Text) → n ≡ b ++ b'.' ∷ u → length t < length u → probe u ≡ none)
        → LongestSuffix n (some h)
    miss : ((b u : Text) → n ≡ b ++ b'.' ∷ u → probe u ≡ none) → LongestSuffix n none

  cons_split :
      (c : ℕ) (s b u : Text)
      → c ∷ s ≡ b ++ b'.' ∷ u
      → ((c ≡ b'.') × (s ≡ u)) ⊎ ((b' : Text) × (s ≡ b' ++ b'.' ∷ u))
  cons_split c s [] u e = inl (ground arith, ground arith)
  cons_split c s (x ∷ b) u e = inr (b, ground arith)

  nil_split : (b u : Text) → [] ≡ b ++ b'.' ∷ u → ⊥
  nil_split [] u e = cc
  nil_split (x ∷ b) u e = cc

  extend :
      (c : ℕ) (s : Text) (o : Option H)
      → (c ≡ b'.' → probe s ≡ none)
      → LongestSuffix s o
      → LongestSuffix (c ∷ s) o
  extend c s o first_none (miss none_below) = miss λ b u e. elim (cons_split c s b u e) [
    | inl (dot, same) ↦ subst (λ t. probe t ≡ none) same (first_none dot)
    | inr (b', e') ↦ none_below b' u e'
  ]
  extend c s o first_none (hit a t e found longest) =
      hit (c ∷ a) t (ap (◌∷◌ c) e) found λ b u e' longer. elim (cons_split c s b u e') [
        | inl (dot, same) ↦ subst (λ t. probe t ≡ none) same (first_none dot)
        | inr (b', e'') ↦ longest b' u e'' longer
      ]

  found_here :
      (c : ℕ) (s : Text) (h : H) → c ≡ b'.' → probe s ≡ some h → LongestSuffix (c ∷ s) (some h)
  found_here c s h dot e = hit [] s (ap (λ d. d ∷ s) dot) e λ b u split longer.
      elim (cons_split c s b u split) [
        | inl (_, same) ↦ absurd (omega (arith, ap length same))
        | inr (b', e') ↦ absurd (omega (arith, ap length e', length-append b' (b'.' ∷ u)))
      ]

  -- One round of either loop.
  abbrev round : ℕ → Text → Option H → Option H
  round c s rest = if c == b'.' then elim (probe s) [ none ↦ rest | some h ↦ some h ] else rest

  round-LongestSuffix :
      (c : ℕ) (s : Text) (o : Option H) → LongestSuffix s o → LongestSuffix (c ∷ s) (round c s o)
  round-LongestSuffix c s o l = elim (Bool-cases (c == b'.')) [
    | inr other ↦ rw other (extend c s o (λ e. absurd (ground arith)) l)
    | inl dot ↦ elim (Option-cases (probe s)) [
      | inl e ↦ rw (dot, e) (extend c s o (λ _. e) l)
      | inr (h, e) ↦ rw (dot, e) (found_here c s h (ground arith) e)
    ]
  ]

module _ {H : Type 0} (get : Text → Option H) where
  abbrev pub prefix_key : Text → Option H
  prefix_key t = get (b'*' ∷ b'.' ∷ t)

  abbrev pub subfix_key : Text → Option H
  subfix_key r = get (reverse r ++ b'.' ∷ b'*' ∷ [])

  prefix_search-LongestSuffix : (n : Text) → LongestSuffix prefix_key n (prefix_search get n)
  unfolding prefix_search
  prefix_search-LongestSuffix [] = miss (λ b u e. absurd (nil_split prefix_key b u e))
  prefix_search-LongestSuffix (c ∷ s) =
      round-LongestSuffix prefix_key c s (prefix_search get s) (prefix_search-LongestSuffix s)

  subfix_search-LongestSuffix : (r : Text) → LongestSuffix subfix_key r (subfix_search get r)
  unfolding subfix_search
  subfix_search-LongestSuffix [] = miss (λ b u e. absurd (nil_split subfix_key b u e))
  subfix_search-LongestSuffix (c ∷ r) =
      round-LongestSuffix subfix_key c r (subfix_search get r) (subfix_search-LongestSuffix r)

module _ {H : Type 0} (dict : Dict H) (l : ConfListen dict.D H) (d : dict.D) where
  -- The search from the left found `o`, or was not made.
  abbrev pub ByPrefix : Text → Option H → Type 0
  ByPrefix n o =
      ((l.any_prefix_hostname ≡ true) × LongestSuffix (prefix_key (dict.get d)) (skip_dot n) o)
      ⊎ ((l.any_prefix_hostname ≡ false) × (o ≡ none))

  abbrev pub BySubfix : Text → Option H → Type 0
  BySubfix n o =
      ((l.any_subfix_hostname ≡ true)
        × (n ≢ [])
        × LongestSuffix (subfix_key (dict.get d)) (skip_dot (reverse n)) o)
      ⊎ ((l.any_subfix_hostname ≡ false) × (o ≡ none))

  -- Which answer a name gets: the exact host, else the longest "*.t", else the longest "t.*",
  -- else the wildcard host.
  pub data Resolves (n : Text) : Lookup H → Type 0 where
    exact : {h : H} → dict.get d n ≡ some h → Resolves n (gives (some h))
    by_prefix : {h : H} → dict.get d n ≡ none → ByPrefix n (some h) → Resolves n (gives (some h))
    by_subfix :
        {h : H}
        → dict.get d n ≡ none
        → ByPrefix n none
        → BySubfix n (some h)
        → Resolves n (gives (some h))
    fallback :
        dict.get d n ≡ none → ByPrefix n none → BySubfix n none → Resolves n (gives l.host_wildcard)
    fault :
        dict.get d n ≡ none
        → ByPrefix n none
        → l.any_subfix_hostname ≡ true
        → n ≡ []
        → Resolves n out_of_bounds

  prefix_cases :
      (n : Text)
      → ((h : H) × ByPrefix n (some h) × (locate_prefix dict l d n ≡ gives (some h)))
        ⊎ (ByPrefix n none × (locate_prefix dict l d n ≡ locate_subfix dict l d n))
  unfolding locate_prefix
  prefix_cases n = elim (Bool-cases l.any_prefix_hostname) [
    | inr off ↦ inr (inr (off, refl), rw off)
    | inl on ↦
        let found = prefix_search-LongestSuffix (dict.get d) (skip_dot n) in
        elim (Option-cases (prefix_search (dict.get d) (skip_dot n))) [
          | inl e ↦ inr (inl (on, rw e at found), simp (on, e))
          | inr (h, e) ↦ inl (h, inl (on, rw e at found), rw (on, e))
        ]
  ]

  subfix_cases :
      (c : ℕ) (s : Text)
      → ((h : H) × BySubfix (c ∷ s) (some h) × (locate_subfix dict l d (c ∷ s) ≡ gives (some h)))
        ⊎ (BySubfix (c ∷ s) none × (locate_subfix dict l d (c ∷ s) ≡ gives l.host_wildcard))
  unfolding locate_subfix
  subfix_cases c s = elim (Bool-cases l.any_subfix_hostname) [
    | inr off ↦ inr (inr (off, refl), rw off)
    | inl on ↦
        let found = subfix_search-LongestSuffix (dict.get d) (skip_dot (reverse (c ∷ s))) in
        elim (Option-cases (subfix_search (dict.get d) (skip_dot (reverse (c ∷ s))))) [
          | inl e ↦ inr (inl (on, (λ h. cc), rw e at found), rw (on, e))
          | inr (h, e) ↦ inl (h, inl (on, (λ g. cc), rw e at found), rw (on, e))
        ]
  ]

  wild-Resolves :
      (n : Text) → dict.get d n ≡ none → ByPrefix n none → Resolves n (locate_subfix dict l d n)
  unfolding locate_subfix
  wild-Resolves [] e p = elim (Bool-cases l.any_subfix_hostname) [
    | inl on ↦ simp on (fault e p on refl)
    | inr off ↦ simp off (fallback e p (inr (off, refl)))
  ]
  wild-Resolves (c ∷ s) e p = elim (subfix_cases c s) [
    | inl (h, b, same) ↦ rw same (by_subfix e p b)
    | inr (b, same) ↦ rw same (fallback e p b)
  ]

  locate_name-Resolves : (n : Text) → Resolves n (locate_name dict l d n)
  unfolding locate_name
  locate_name-Resolves n = elim (Option-cases (dict.get d n)) [
    | inr (h, e) ↦ rw (e, locate_name) (exact e)
    | inl e ↦ elim (prefix_cases n) [
      | inl (h, b, same) ↦ rw (e, locate_name) (rw same (by_prefix e b))
      | inr (b, same) ↦ rw (e, locate_name) (rw same (wild-Resolves n e b))
    ]
  ]

module _ {H : Type 0} (dict : Dict H) where
  locate_registered :
      (l : ConfListen dict.D H) (d : dict.D) (n : Text)
      → l.host_dict ≡ some d
      → locate dict l (some n) ≡ locate_name dict l d n
  unfolding locate
  locate_registered l d n e = ground arith

  -- Once the hosts are registered, a request with a host name is given the host of that very name,
  -- else that of the longest registered "*.t" with `.t` at its end, else that of the longest "t.*"
  -- with `t.` at its front, else the wildcard host; a search that no hostname asked for is skipped.
  -- A dot at the front of the name is left out before the first of the two searches, and a dot at its
  -- end before the second, so that "*.b" is no match
  -- for ".b", nor "a.*" for "a.".
  -- The one other case is an empty name with no host of its own while some hostname ends in "*":
  -- then a byte before the buffer is read.
  pub locate-Resolves :
      (l : ConfListen dict.D H) (d : dict.D) (n : Text)
      → l.host_dict ≡ some d
      → Resolves dict l d n (locate dict l (some n))
  locate-Resolves l d n e =
      subst (Resolves dict l d n) (sym (locate_registered l d n e))
        (locate_name-Resolves dict l d n)

  -- A request whose host is the empty string makes the lookup read out of bounds, as soon as some
  -- hostname ends in a wildcard and no host is registered under the empty name.
  pub locate-empty :
      (l : ConfListen dict.D H) (d : dict.D)
      → l.host_dict ≡ some d
      → dict.get d [] ≡ none
      → l.any_subfix_hostname ≡ true
      → locate dict l (some []) ≡ out_of_bounds
  unfolding locate locate_name locate_prefix locate_subfix prefix_search
  locate-empty l d e missing on = ground (arith, missing)
