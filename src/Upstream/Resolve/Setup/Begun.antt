-- ===== src/Upstream/Resolve/Setup/Begun.antt =====
-- phl_upstream_conf_resolve_init() in phl_upstream_resolve.c: what the rounds of resolving start from.
use phorklift.Prelude.{
  ℕ, ◌+◌, ◌≤◌, ◌<◌, ◌≡◌, refl, Bool, true, false, Option, none, some, List, [], ◌∷◌, ◌++◌, Text,
  length, take, ltb, ◌==◌, ap, sym, ◌∙◌, arith, if_intro, length-append, All, subst, ◌⊎◌, inl, inr,
}
use phorklift.Upstream.Resolve.{Sock, Hostname, Upstream, Making, has, address_add}
use phorklift.Upstream.Resolve.Replies.{Sound, Sound-fresh, write-same, write-other, ne_of_lt}
use phorklift.Upstream.Resolve.Ending.{has-append}
use phorklift.Upstream.Resolve.Setup.{
  Result, fault, fine, Given, parse_weight, parse_port, add_all, with_addresses, resolved,
  with_host, host_of, with_port_of, with_weight, init_hostname, init_hostnames, any_needed, checked,
  resolve_init,
}

-- Memory is only added to.
record Grows (u v : Upstream) : Type 0 where
  pub more : u.fresh ≤ v.fresh
  pub kept : (i : ℕ) → i < u.fresh → v.store i ≡ u.store i

Grows-trans : (u v w : Upstream) → Grows u v → Grows v w → Grows u w
Grows-trans u v w a b =
    let x = a.more in
    let y = b.more in
    record { more = omega arith; kept = λ i l. b.kept i (omega arith) ∙ a.kept i l }

Sound-Grows : (u v : Upstream) (ids : List ℕ) → Grows u v → Sound u ids → Sound v ids
Sound-Grows u v [] g s = tt
Sound-Grows u v (i ∷ ids) g (b, d, n, s) =
    let x = g.more in
    (omega arith, ap (λ a. a.resolve_deleted) (g.kept i b) ∙ d, n, Sound-Grows u v ids g s)

Sound-last :
    (u : Upstream) (f : ℕ) (ids : List ℕ)
    → Sound u ids
    → has f ids ≡ false
    → f < u.fresh
    → (u.store f).resolve_deleted ≡ false
    → Sound u (ids ++ f ∷ [])
unfolding has
Sound-last u f [] s n l d = (l, d, refl, tt)
Sound-last u f (i ∷ ids) (b, e, o, s) n l d =
    let a = has-append i ids (f ∷ []) in
    (b, e, ground arith, Sound-last u f ids s (ground arith) l d)

-- Every list of a hostname is sound for the merge of an answer, and `address_num` is the number of
-- the addresses.
pub record IsBegun (u : Upstream) : Type 0 where
  pub lists : All (λ h. Sound u (h.address_head)) u.hostnames
  pub number : u.address_num ≡ length u.address_head

lists-Grows :
    (u v : Upstream) (hs : List Hostname)
    → Grows u v
    → All (λ h. Sound u (h.address_head)) hs
    → All (λ h. Sound v (h.address_head)) hs
lists-Grows u v [] g a = tt
lists-Grows u v (h ∷ hs) g (s, a) = (Sound-Grows u v (h.address_head) g s, lists-Grows u v hs g a)

All-last :
    (v : Upstream) (hs : List Hostname) (h : Hostname)
    → All (λ h. Sound v (h.address_head)) hs
    → Sound v (h.address_head)
    → All (λ h. Sound v (h.address_head)) (hs ++ h ∷ [])
All-last v [] h a s = (s, tt)
All-last v (x ∷ hs) h (b, a) s = (b, All-last v hs h a s)

module _ (m : Making) (g : Given) where
  -- The upstream after one address more.
  abbrev one_more : Hostname → Sock → Upstream → Upstream
  one_more h s u = record (address_add m h s none u) { address_num = u.address_num + 1 }

  one_more-Grows : (h : Hostname) (s : Sock) (u : Upstream) → Grows u (one_more h s u)
  unfolding address_add
  one_more-Grows h s u = record {
    more = omega arith;
    kept = λ i l. write-other u.store u.fresh _ i (ne_of_lt i u.fresh l);
  }

  one_more-last :
      (h : Hostname) (s : Sock) (u : Upstream)
      → Sound u (h.address_head)
      → Sound (one_more h s u) (h.address_head ++ u.fresh ∷ [])
  unfolding address_add
  one_more-last h s u sound =
      Sound-last (one_more h s u) u.fresh (h.address_head)
        (Sound-Grows u (one_more h s u) (h.address_head) (one_more-Grows h s u) sound)
        (Sound-fresh u (h.address_head) sound) (omega arith)
        (ap (λ a. a.resolve_deleted) (write-same u.store u.fresh _))

  record Adds (u : Upstream) (r : List ℕ × Upstream) : Type 0 where
    pub grows : Grows u (r.1)
    pub sound : Sound (r.1) (r.0)
    pub hosts : (r.1).hostnames ≡ u.hostnames
    pub number :
        u.address_num ≡ length u.address_head → (r.1).address_num ≡ length ((r.1).address_head)

  add_all-Adds :
      (h : Hostname) (answer : List Sock) (u : Upstream)
      → Sound u (h.address_head)
      → Adds u (add_all m g h answer u)
  unfolding add_all address_add
  add_all-Adds h [] u s = record {
    grows = record { more = omega arith; kept = λ i l. refl };
    sound = s;
    hosts = refl;
    number = λ e. e;
  }
  add_all-Adds h (x ∷ answer) u s =
      let w = one_more h x u in
      let r =
        add_all-Adds (record h { address_head = h.address_head ++ u.fresh ∷ [] }) answer w
          (one_more-last h x u s) in
      record {
        grows = Grows-trans u w _ (one_more-Grows h x u) r.grows;
        sound = r.sound;
        hosts = r.hosts;
        number = λ e. r.number (let l = length-append u.address_head (u.fresh ∷ []) in omega arith);
      }

  with_addresses-IsBegun :
      (h : Hostname) (answer : List Sock) (u : Upstream)
      → h.address_head ≡ []
      → IsBegun u
      → IsBegun (with_addresses m g h answer u)
  unfolding with_addresses
  with_addresses-IsBegun h answer u e b =
      let r = add_all-Adds h answer u (subst (Sound u) (sym e) tt) in
      let v = (add_all m g h answer u).1 in
      record {
        lists =
            All-last v (v.hostnames) _
              (subst (All (λ x. Sound v (x.address_head))) (sym r.hosts)
                (lists-Grows u v u.hostnames r.grows b.lists))
              r.sound;
        number = r.number b.number;
      }

  abbrev Begins : Result Upstream → Type 0
  Begins (fault e) = Unit
  Begins (fine v) = IsBegun v

  with_host-Begins :
      (h : Hostname) (u : Upstream) → h.address_head ≡ [] → IsBegun u → Begins (with_host m g h u)
  with_host-Begins h u e b =
      if_intro Begins g.in_worker _ _ (λ t. with_addresses-IsBegun h [] u e b)
        (λ f. go (g.resolver (take h.host_len h.name)))
    where
      go : (o : Option (List Sock)) → Begins (resolved m g h u o)
      go none = tt
      go (some answer) = with_addresses-IsBegun h answer u e b

  with_port_of-Begins :
      (name : Text) (weight : ℕ) (u : Upstream) (r : Result (ℕ × ℕ))
      → IsBegun u
      → Begins (with_port_of m g name weight u r)
  with_port_of-Begins name weight u (fault e) b = tt
  with_port_of-Begins name weight u (fine (n, port)) b =
      with_host-Begins (host_of name n true port weight) u refl b

  with_weight-Begins :
      (name : Text) (u : Upstream) (r : Result (ℕ × ℕ))
      → IsBegun u
      → Begins (with_weight m g name u r)
  with_weight-Begins name u (fault e) b = tt
  with_weight-Begins name u (fine (n, weight)) b = go (g.loads name g.default_port)
    where
      go :
          (o : Option Sock)
          → Begins (elim o [
            | some s ↦ fine (with_addresses m g (host_of name n false 0 weight) (s ∷ []) u)
            | none ↦ with_port_of m g name weight u (parse_port g name n)
          ])
      go (some s) = with_addresses-IsBegun (host_of name n false 0 weight) (s ∷ []) u refl b
      go none = with_port_of-Begins name weight u (parse_port g name n) b

  init_hostname-Begins :
      (name : Text) (u : Upstream) → IsBegun u → Begins (init_hostname m g name u)
  unfolding init_hostname
  init_hostname-Begins name u b =
      if_intro Begins (ltb 4096 (length name)) _ _ (λ t. tt)
        (λ f. with_weight-Begins name u (parse_weight g name) b)

  abbrev go_on : List Text → Result Upstream → Result Upstream
  go_on names r = elim r [ fault e ↦ fault e | fine v ↦ init_hostnames m g names v ]

  init_hostnames-Begins :
      (names : List Text) (u : Upstream) → IsBegun u → Begins (init_hostnames m g names u)
  unfolding init_hostnames
  init_hostnames-Begins [] u b = b
  init_hostnames-Begins (name ∷ names) u b =
      go (init_hostname m g name u) (init_hostname-Begins name u b) (init_hostnames-Begins names)
    where
      go :
          (r : Result Upstream)
          → Begins r
          → ((v : Upstream) → IsBegun v → Begins (init_hostnames m g names v))
          → Begins (go_on names r)
      go (fault e) x later = tt
      go (fine v) x later = later v x

  -- What the checks leave: the upstream as it was, with some address unless it is in a worker that
  -- still has to resolve its hostnames, for which the timer is started at once.
  abbrev Checked : Upstream → Result (Upstream × Option Bool) → Type 0
  Checked u (fault e) = Unit
  Checked u (fine (v, timer)) = (v ≡ u) × ((0 < u.address_num) ⊎ (timer ≡ some true))

  checked-Checked : (u : Upstream) → Checked u (checked m g u)
  unfolding checked
  checked-Checked u =
      if_intro (Checked u) g.in_worker _ _
        (λ t.
          if_intro (Checked u) (any_needed u.hostnames) _ _
            (λ t.
              if_intro (Checked u) (g.resolve_interval == 0) _ _ (λ t. tt) (λ f. (refl, inr refl)))
            (λ f.
              if_intro (Checked u) (u.address_num == 0) _ _ (λ t. tt)
                (λ f. (refl, inl (ground arith)))))
        (λ f.
          if_intro (Checked u) (u.address_num == 0) _ _ (λ t. tt)
            (λ f.
              let l : 0 < u.address_num = ground arith in
              if_intro (Checked u) (any_needed u.hostnames) _ _
                (λ t.
                  if_intro (Checked u) (ltb 0 g.resolve_interval) _ _ (λ t. (refl, inl l))
                    (λ f. (refl, inl l)))
                (λ f. (refl, inl l))))

  -- When the configuration of an upstream is taken, whatever its hostnames are and whatever they
  -- resolve to, each list of a hostname is one that an answer can be merged into, and `address_num`
  -- counts the addresses; there is one, unless the timer is started at once to find some.
  pub resolve_init-IsBegun :
      (names : List Text) (u v : Upstream) (timer : Option Bool)
      → IsBegun u
      → resolve_init m g names u ≡ fine (v, timer)
      → IsBegun v × ((0 < v.address_num) ⊎ (timer ≡ some true))
  unfolding resolve_init
  resolve_init-IsBegun names u v timer b =
      go (init_hostnames m g names u) (init_hostnames-Begins names u b)
    where
      go :
          (r : Result Upstream)
          → Begins r
          → (elim r [ fault e ↦ fault e | fine w ↦ checked m g w ]) ≡ fine (v, timer)
          → IsBegun v × ((0 < v.address_num) ⊎ (timer ≡ some true))
      go (fault e) x h = let no : ⊥ = cc in elim no [ ]
      go (fine w) x h =
          let c : Checked w (fine (v, timer)) = subst (Checked w) h (checked-Checked w) in
          (
            subst IsBegun (sym (c.0)) x,
            subst (λ k. (0 < k.address_num) ⊎ (timer ≡ some true)) (sym (c.0)) (c.1),
          )
