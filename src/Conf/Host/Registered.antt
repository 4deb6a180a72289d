-- ===== src/Conf/Host/Registered.antt =====
-- phl_conf_host_register(), and the exact step of phl_conf_host_locate().
use phorklift.Prelude.{
  ◌≡◌, refl, ◌⊎◌, inl, inr, true, false, none, some, List, [], ◌∷◌, Text, In, first, str_eq, arith,
  Bool-cases, ◌==◌, ◌∙◌, ap,
}
use phorklift.Conf.Host.{
  Dict, ConfListen, Registration, accepted, refused, ◌>>=◌, gives, normal_name, check_wild,
  add_dict, add_wildcard, add_name, add_names, add_hosts, register, locate_name, locate,
}

>>=-eq-accepted {ℓ κ} :
    {A : Type ℓ} {B : Type κ} (m : Registration A) (f : A → Registration B) {b : B}
    → (m >>= f) ≡ accepted b
    → (a : A) × (m ≡ accepted a) × (f a ≡ accepted b)
>>=-eq-accepted (accepted a) f h = (a, refl, h)
>>=-eq-accepted (refused e n) f h = cc

module _ {H : Type 0} (dict : Dict H) where
  open dict use {D, new, get, add, get-add_self, get-add_ne}

  -- A table that still answers all that another answered.
  abbrev Keeps : D → D → Type 0
  Keeps d d' = (k : Text) (h : H) → get d k ≡ some h → get d' k ≡ some h

  add-Keeps : (d : D) (name : Text) (host : H) → get d name ≡ none → Keeps d (add d name host)
  add-Keeps d name host e k h f = get-add_ne d name k host (λ same. cc (ap (get d) same)) ∙ f

  -- What one addition gives: the old answers stay, and `name` is answered by `host`.
  abbrev Adds : H → Text → D → D → Type 0
  Adds host name d d' = Keeps d d' × (get d' name ≡ some host)

  add_dict_cases :
      (l : ConfListen D H) (d : D) (host : H) (name : Text) (s : ConfListen D H × D)
      → add_dict dict l d host name ≡ accepted s
      → (get d name ≡ none) × (s.1 ≡ add d name host)
  unfolding add_dict
  add_dict_cases l d host name s h = ground arith

  add_dict-Adds :
      (l : ConfListen D H) (d : D) (host : H) (name : Text) (s : ConfListen D H × D)
      → add_dict dict l d host name ≡ accepted s
      → Adds host name d s.1
  add_dict-Adds l d host name s h =
      let (e, same) = add_dict_cases l d host name s h in
      rw same (add-Keeps d name host e, get-add_self d name host e)

  add_wildcard_cases :
      (l : ConfListen D H) (d : D) (host : H) (name : Text) (s : ConfListen D H × D)
      → add_wildcard dict l d host name ≡ accepted s
      → s.1 ≡ d
  unfolding add_wildcard
  add_wildcard_cases l d host name s h = ground arith

  add_name_cases :
      (l : ConfListen D H) (d : D) (host : H) (name : Text) (s : ConfListen D H × D)
      → add_name dict l d host name ≡ accepted s
      → ((str_eq name (b'*' ∷ []) ≡ true) × (s.1 ≡ d))
        ⊎ ((str_eq name (b'*' ∷ []) ≡ false) × Adds host (normal_name name) d s.1)
  unfolding add_name
  add_name_cases l d host name s h = elim (Bool-cases (first name == 0)) [
    | inl e ↦ absurd (ground arith)
    | inr e ↦ elim (Bool-cases (str_eq name (b'*' ∷ []))) [
      | inl w ↦ inl (w, add_wildcard_cases l d host name s (rw (e, w, add_name) at h))
      | inr w ↦
          let (l', _, a) =
            >>=-eq-accepted (check_wild l (normal_name name)) _ (rw (e, w, add_name) at h) in
          inr (w, add_dict-Adds l' d host (normal_name name) s a)
    ]
  ]

  add_name-Keeps :
      (l : ConfListen D H) (d : D) (host : H) (name : Text) (s : ConfListen D H × D)
      → add_name dict l d host name ≡ accepted s
      → Keeps d s.1
  add_name-Keeps l d host name s h = elim (add_name_cases l d host name s h) [
    | inl (_, e) ↦ rw e (λ k v f. f)
    | inr (_, a) ↦ a.0
  ]

  -- Every name of the list but "*" is answered by `host`.
  abbrev Answers : D → H → List Text → Type 0
  Answers d host [] = Unit {0}
  Answers d host (n ∷ ns) =
      (str_eq n (b'*' ∷ []) ≡ false → get d (normal_name n) ≡ some host) × Answers d host ns

  Answers-Keeps :
      (d d' : D) (host : H) (ns : List Text) → Keeps d d' → Answers d host ns → Answers d' host ns
  Answers-Keeps d d' host [] k a = tt
  Answers-Keeps d d' host (n ∷ ns) k a =
      ((λ e. k (normal_name n) host (a.0 e)), Answers-Keeps d d' host ns k a.1)

  add_names-Answers :
      (l : ConfListen D H) (d : D) (host : H) (ns : List Text) (s : ConfListen D H × D)
      → add_names dict l d host ns ≡ accepted s
      → Keeps d s.1 × Answers s.1 host ns
  unfolding add_names
  add_names-Answers l d host [] s h = let e : s.1 ≡ d = ground arith in rw e ((λ j v g. g), tt)
  add_names-Answers l d host (n ∷ ns) s h =
      let (s', e, f) = >>=-eq-accepted (add_name dict l d host n) _ h in
      let (k, a) = add_names-Answers s'.0 s'.1 host ns s f in
      (
        (λ j v g. k j v (add_name-Keeps l d host n s' e j v g)),
        (
          (λ plain. elim (add_name_cases l d host n s' e) [
            | inl (w, _) ↦ cc
            | inr (_, b) ↦ k (normal_name n) host b.1
          ]),
          a,
        ),
      )

  abbrev AllAnswers : D → List (H × List Text) → Type 0
  AllAnswers d [] = Unit {0}
  AllAnswers d ((host, ns) ∷ hs) = Answers d host ns × AllAnswers d hs

  add_hosts-AllAnswers :
      (l : ConfListen D H) (d : D) (hs : List (H × List Text)) (s : ConfListen D H × D)
      → add_hosts dict l d hs ≡ accepted s
      → Keeps d s.1 × AllAnswers s.1 hs
  unfolding add_hosts
  add_hosts-AllAnswers l d [] s h = let e : s.1 ≡ d = ground arith in rw e ((λ j v g. g), tt)
  add_hosts-AllAnswers l d ((host, ns) ∷ hs) s h =
      let (s', e, f) = >>=-eq-accepted (add_names dict l d host ns) _ h in
      let (k, a) = add_hosts-AllAnswers s'.0 s'.1 hs s f in
      let (k', a') = add_names-Answers l d host ns s' e in
      ((λ j v g. k j v (k' j v g)), (Answers-Keeps s'.1 s.1 host ns k a', a))

  -- `n` is a hostname of `host` in the configuration.
  abbrev pub Listed : H → Text → List (H × List Text) → Type 0
  Listed host n [] = ⊥
  Listed host n ((h, ns) ∷ hs) = ((h ≡ host) × In n ns) ⊎ Listed host n hs

  Answers-In :
      (d : D) (host : H) (n : Text) (ns : List Text)
      → Answers d host ns
      → In n ns
      → str_eq n (b'*' ∷ []) ≡ false
      → get d (normal_name n) ≡ some host
  Answers-In d host n [] a m plain = absurd m
  Answers-In d host n (x ∷ ns) a (inl e) plain = rw e (a.0 (rw e at plain))
  Answers-In d host n (x ∷ ns) a (inr m) plain = Answers-In d host n ns a.1 m plain

  AllAnswers-Listed :
      (d : D) (host : H) (n : Text) (hs : List (H × List Text))
      → AllAnswers d hs
      → Listed host n hs
      → str_eq n (b'*' ∷ []) ≡ false
      → get d (normal_name n) ≡ some host
  AllAnswers-Listed d host n [] a m plain = absurd m
  AllAnswers-Listed d host n ((h, ns) ∷ hs) a (inl (e, m)) plain =
      rw (← e) (Answers-In d h n ns a.0 m plain)
  AllAnswers-Listed d host n ((h, ns) ∷ hs) a (inr m) plain =
      AllAnswers-Listed d host n hs a.1 m plain

  register_cases :
      (l l' : ConfListen D H)
      → register dict l ≡ accepted l'
      → (d : D) × AllAnswers d l.hosts × (l'.host_dict ≡ some d)
  unfolding register
  register_cases l l' h =
      let (s, e, f) = >>=-eq-accepted (add_hosts dict l new l.hosts) _ h in
      (s.1, (add_hosts-AllAnswers l new l.hosts s e).1, ground arith)

  -- After a registration that succeeds, each hostname of the configuration other than "*", in
  -- lower case and without a dot at its end, is given the host that it was written for.
  pub locate-register :
      (l l' : ConfListen D H) (host : H) (n : Text)
      → register dict l ≡ accepted l'
      → Listed host n l.hosts
      → str_eq n (b'*' ∷ []) ≡ false
      → locate dict l' (some (normal_name n)) ≡ gives (some host)
  unfolding locate locate_name
  locate-register l l' host n h m plain =
      let (d, a, e) = register_cases l l' h in
      rw (e, locate) (rw (AllAnswers-Listed d host n l.hosts a m plain, locate_name))
