-- ===== src/Upstream/Resolve/Asking.antt =====
-- phl_upstream_resolve_hostname() and phl_upstream_resolve_on_read() in phl_upstream_resolve.c: which
-- hostnames a round asks for, and how it ends.
use phorklift.Prelude.{
  ℕ, zero, suc, ◌+◌, ◌-◌, ◌≤◌, ◌<◌, ◌≡◌, refl, Bool, true, false, Option, none, some, List, [], ◌∷◌,
  ◌++◌, length, drop, get_elem?, ◌==◌, if◌then◌else◌, ap, sym, ◌∙◌, arith, inl, inr, if_intro,
  subst,
}
use phorklift.Upstream.Resolve.{Sock, Hostname, Upstream, Making, address_add}
use phorklift.Upstream.Resolve.Diff.{Merged, with_node, mark, mark_all, added, against, diff}
use phorklift.Upstream.Resolve.Rounds.{
  resolve_hostname, set_hostname, Reply, error, addresses, merged, on_read, defer_free, free_loop,
  free_address, timer_handler,
}
use phorklift.Upstream.Resolve.Steps.{needs, needed, left, Stepped, resolve_hostname-Stepped}
use Prim.Native.Nat.{Ordering}

-- What the merge of an answer leaves alone.
record Same (u v : Upstream) : Type 0 where
  pub hostnames : v.hostnames ≡ u.hostnames
  pub resolve_index : v.resolve_index ≡ u.resolve_index
  pub asked : v.asked ≡ u.asked

abbrev same : (u : Upstream) → Same u u
same u = record { hostnames = refl; resolve_index = refl; asked = refl }

mark_all-Same : (ids : List ℕ) (u : Upstream) → Same u ((mark_all ids u).1)
unfolding mark_all mark
mark_all-Same [] u = same u
mark_all-Same (i ∷ ids) u =
    let s = mark_all-Same ids (mark i u) in
    record { hostnames = s.hostnames; resolve_index = s.resolve_index; asked = s.asked }

module _ (cmp : Sock → Sock → Ordering) (m : Making) where
  abbrev Keeps : (List ℕ → Upstream → Merged) → Type 0
  Keeps f = (ids : List ℕ) (u : Upstream) → Same u ((f ids u).1)

  against-Same :
      (h : Hostname) (s : Sock) (rest : List ℕ → Upstream → Merged)
      → Keeps rest
      → Keeps (against cmp m h s rest)
  unfolding against added address_add mark
  against-Same h s rest f [] u =
      let t = f [] (added cmp m h s none u) in
      record { hostnames = t.hostnames; resolve_index = t.resolve_index; asked = t.asked }
  against-Same h s rest f (i ∷ ids) u =
      let t = f (i ∷ ids) (added cmp m h s (some i) u) in
      let k = against-Same h s rest f ids (mark i u) in
      elim (cmp s ((u.store i).sockaddr))
        as (λ o.
          let r : Merged = elim o [
            | Ordering.eq ↦ with_node i (rest ids u)
            | Ordering.lt ↦ with_node u.fresh (rest (i ∷ ids) (added cmp m h s (some i) u))
            | Ordering.gt ↦ with_node i (against cmp m h s rest ids (mark i u))
          ] in
          Same u (r.1)) [
            | Ordering.eq ↦ f ids u
            | Ordering.lt ↦ record {
              hostnames = t.hostnames;
              resolve_index = t.resolve_index;
              asked = t.asked;
            }
            | Ordering.gt ↦ record {
              hostnames = k.hostnames;
              resolve_index = k.resolve_index;
              asked = k.asked;
            }
          ]

  diff-Same : (h : Hostname) (answer : List Sock) → Keeps (diff cmp m h answer)
  unfolding diff
  diff-Same h [] = mark_all-Same
  diff-Same h (s ∷ answer) = against-Same h s (diff cmp m h answer) (diff-Same h answer)

  abbrev need_of : Option Hostname → Bool
  need_of none = false
  need_of (some h) = h.need_resolved

  needs-set :
      (i : ℕ) (h k : Hostname) (hs : List Hostname)
      → get_elem? hs i ≡ some h
      → k.need_resolved ≡ h.need_resolved
      → needs (set_hostname i k hs) ≡ needs hs
  unfolding set_hostname
  needs-set i h k [] e n = refl
  needs-set zero h k (x ∷ hs) e n = ap (λ b. b ∷ needs hs) (n ∙ ap need_of (sym e))
  needs-set (suc i) h k (x ∷ hs) e n = ap (λ l. x.need_resolved ∷ l) (needs-set i h k hs e n)

  -- What an answer leaves for the rest of the round.
  record Merging (u v : Upstream) : Type 0 where
    pub flags : needs v.hostnames ≡ needs u.hostnames
    pub resolve_index : v.resolve_index ≡ u.resolve_index
    pub asked : v.asked ≡ u.asked

  merged-Merging : (reply : Reply) (u : Upstream) → Merging u (merged cmp m reply u)
  unfolding merged
  merged-Merging error u = record { flags = refl; resolve_index = refl; asked = refl }
  merged-Merging (addresses answer) u = go (get_elem? u.hostnames (u.resolve_index - 1)) refl
    where
      go :
          (o : Option Hostname)
          → get_elem? u.hostnames (u.resolve_index - 1) ≡ o
          → Merging u (elim o [
            | none ↦ u
            | some h ↦
                let r = diff cmp m h answer h.address_head u in
                record (r.1) {
                  hostnames =
                      set_hostname
                        (u.resolve_index - 1)
                        (record h { address_head = r.0 })
                        u.hostnames;
                }
          ])
      go none e = record { flags = refl; resolve_index = refl; asked = refl }
      go (some h) e =
          let t = diff-Same h answer h.address_head u in
          record {
            flags = needs-set (u.resolve_index - 1) h _ u.hostnames e refl;
            resolve_index = t.resolve_index;
            asked = t.asked;
          }

  -- A round that is under way: the resolver answers, `n` times at most.
  pub run_round : (ℕ → Reply) → ℕ → Upstream → Upstream
  run_round replies zero u = u
  run_round replies (suc n) u =
      let next = run_round replies n (on_read cmp m (replies (u.resolve_index - 1)) u) in
      if u.resolve_index == 0 then u else next

  -- An answer steps the round on.
  on_read-Stepped : (reply : Reply) (u : Upstream) → Stepped u (on_read cmp m reply u)
  unfolding on_read
  on_read-Stepped reply u = go (resolve_hostname-Stepped (merged cmp m reply u))
    where
      x : Merging u (merged cmp m reply u)
      x = merged-Merging reply u

      same_left : left (merged cmp m reply u) ≡ left u
      same_left =
          ap (λ k. needed k (drop k (needs ((merged cmp m reply u).hostnames)))) (x.resolve_index)
          ∙ ap (λ bs. needed u.resolve_index (drop u.resolve_index bs)) (x.flags)

      go :
          Stepped (merged cmp m reply u) (resolve_hostname (merged cmp m reply u))
          → Stepped u (resolve_hostname (merged cmp m reply u))
      go (inl (z, e)) = inl (
        z,
        e ∙ ap (λ l. l ++ left (merged cmp m reply u)) (x.asked) ∙ ap (λ l. u.asked ++ l) same_left,
      )
      go (inr (l, b, f, e)) =
          let r = x.resolve_index in
          inr (
            omega arith,
            b,
            f ∙ x.flags,
            e
                ∙ ap (λ l. l ++ left (merged cmp m reply u)) (x.asked)
                ∙ ap (λ l. u.asked ++ l) same_left,
          )

  stays :
      (replies : ℕ → Reply) (n : ℕ) (u : Upstream) → u.resolve_index ≡ 0 → run_round replies n u ≡ u
  unfolding run_round
  stays replies zero u e = refl
  stays replies (suc n) u e = rw e

  record Rounded (u v : Upstream) : Type 0 where
    pub ready : v.resolve_index ≡ 0
    pub asks : v.asked ≡ u.asked ++ left u

  -- A round under way with this many answers to come is long enough.
  abbrev Enough : ℕ → Upstream → Type 0
  Enough n u =
      (0 < u.resolve_index)
      × (u.resolve_index ≤ length (needs u.hostnames))
      × (length (needs u.hostnames) < n + u.resolve_index)

  length-needs : (hs : List Hostname) → length (needs hs) ≡ length hs
  length-needs [] = refl
  length-needs (h ∷ hs) = ap suc (length-needs hs)

  then_round :
      (replies : ℕ → Reply) (n : ℕ) (u v : Upstream)
      → Stepped u v
      → length (needs u.hostnames) < suc n + u.resolve_index
      → (Enough n v → Rounded v (run_round replies n v))
      → Rounded u (run_round replies n v)
  then_round replies n u v (inl (z, e)) b next =
      let same : run_round replies n v ≡ v = stays replies n v z in
      record { ready = ap (λ w. w.resolve_index) same ∙ z; asks = ap (λ w. w.asked) same ∙ e }
  then_round replies n u v (inr (l, b', f, e)) b next =
      let count = length-needs v.hostnames in
      let same = ap (λ (bs : List Bool). length bs) f in
      let x = next (omega arith, omega arith, omega arith) in
      record { ready = x.ready; asks = x.asks ∙ e }

  run_round-Rounded :
      (replies : ℕ → Reply) (n : ℕ) (u : Upstream) → Enough n u → Rounded u (run_round replies n u)
  unfolding run_round
  run_round-Rounded replies zero u (l, m', e) = let no : ⊥ = omega arith in elim no [ ]
  run_round-Rounded replies (suc n) u (l, m', e) =
      let v = on_read cmp m (replies (u.resolve_index - 1)) u in
      let z : (u.resolve_index == 0) ≡ false = ground arith in
      subst (λ b. Rounded u (if b then u else run_round replies n v)) (sym z)
        (then_round replies n u v (on_read-Stepped _ u) e (run_round-Rounded replies n v))

  -- What the release of addresses leaves alone.
  defer_free-Same : (ids : List ℕ) (u : Upstream) → Same u (free_loop ids u)
  unfolding free_loop free_address
  defer_free-Same [] u = same u
  defer_free-Same (i ∷ ids) u =
      if_intro (λ (v : Upstream). Same u (free_loop ids v)) ((u.store i).connected) _ _
        (λ c. defer_free-Same ids u)
        (λ c.
          let s = defer_free-Same ids (free_address i u) in
          record { hostnames = s.hostnames; resolve_index = s.resolve_index; asked = s.asked })

  -- When the timer starts a round and the resolver answers each query, whether with addresses or with
  -- an error, then after as many answers as there are hostnames, the round has ended: every hostname
  -- that needs it was asked for once, in order, no other was, and the next timer starts a new round.
  pub timer_handler-asks :
      (replies : ℕ → Reply) (u : Upstream)
      → u.resolve_index ≡ 0
      → let v = run_round replies (length u.hostnames) (timer_handler u) in
        (v.resolve_index ≡ 0) × (v.asked ≡ u.asked ++ needed 0 (needs u.hostnames))
  unfolding timer_handler defer_free
  timer_handler-asks replies u z =
      let w = defer_free u in
      let s = defer_free-Same u.deleted_address_defer u in
      let n = length u.hostnames in
      let count = length-needs u.hostnames in
      let flags = ap (λ hs. length (needs hs)) (s.hostnames) in
      let x =
        then_round replies n w (resolve_hostname w) (resolve_hostname-Stepped w) (omega arith)
          (run_round-Rounded replies n (resolve_hostname w)) in
      let idle : (u.resolve_index == 0) ≡ true = ground arith in
      let starts : timer_handler u ≡ resolve_hostname w =
        ap (λ b. if b then resolve_hostname w else u) idle in
      let all : left w ≡ needed 0 (needs u.hostnames) =
        ap (λ hs. needed w.resolve_index (drop w.resolve_index (needs hs))) (s.hostnames)
        ∙ ap (λ k. needed k (drop k (needs u.hostnames))) (s.resolve_index ∙ z) in
      (
        ap (λ v. (run_round replies n v).resolve_index) starts ∙ x.ready,
        ap (λ v. (run_round replies n v).asked) starts
            ∙ x.asks
            ∙ ap (λ l. l ++ left w) (s.asked)
            ∙ ap (λ l. u.asked ++ l) all,
      )
