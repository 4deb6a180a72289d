-- ===== src/Limit/Repeat.antt =====
-- phl_limit_req_process_headers(): two requests with one key.
use phorklift.Prelude.{
  ℕ, suc, ◌≤◌, ◌≡◌, ◌≢◌, refl, sym, ◌∙◌, Bool, true, false, Option, none, some, List, [], ◌∷◌, Text,
  if◌then◌else◌, arith, if_intro, subst, ap, str_eq, str_eq_refl, ==_refl,
}
use native.Mathlib.Decide.{ℕ_discrete}
use phorklift.Request.State.{ok, status}
use phorklift.Limit.{
  Meter, Layout, has_room, Node, Shared, c_str, set_node, retire, expire_list, evict, take_node,
  alloc_node, search_bucket, add_node, checked, found, bucket_of, with_key,
}
use phorklift.Limit.Counts.{count, count_nil, count-cons, count-delete}

set_node_self {ℓ} : {A : Type ℓ} (n : ℕ) (x : A) (f : ℕ → A) → set_node n x f n ≡ x
set_node_self n x f = ap (λ b. if b then x else f n) (==_refl n)

set_node-ne {ℓ} : {A : Type ℓ} (n m : ℕ) (x : A) (f : ℕ → A) → m ≢ n → set_node n x f m ≡ f m
set_node-ne n m x f h = ground arith

-- No node of the list has the key.
abbrev Absent : {M : Type 0} → (ℕ → Node M) → Text → List ℕ → Type 0
Absent node key l = (m : ℕ) → 1 ≤ count m l → str_eq (node m).key (c_str key) ≡ false

module _ (meter : Meter) (lay : Layout) (insert : ℕ → List ℕ → List ℕ) (hash : Text → ℕ)
    (hash_buckets : ℕ)
    (inserts : (n m : ℕ) (l : List ℕ) → count m (insert n l) ≡ count m (n ∷ l)) where
  open meter use {M, init, is_expired, check}

  search-Absent :
      (node : ℕ → Node M) (key : Text) (l : List ℕ)
      → search_bucket meter lay insert hash hash_buckets node key l ≡ none
      → Absent node key l
  unfolding search_bucket
  search-Absent node key [] e m h = ground (arith, count_nil m)
  search-Absent node key (n ∷ l) e m h =
      ground (
        arith,
        search-Absent node key l,
        search-Absent node key l (ground arith) m,
        count-cons m n l,
      )

  -- The search finds the one node that has the key.
  search_only :
      (node : ℕ → Node M) (key : Text) (n : ℕ) (l : List ℕ)
      → str_eq (node n).key (c_str key) ≡ true
      → ((m : ℕ) → 1 ≤ count m l → m ≢ n → str_eq (node m).key (c_str key) ≡ false)
      → 1 ≤ count n l
      → search_bucket meter lay insert hash hash_buckets node key l ≡ some n
  unfolding search_bucket
  search_only node key n [] hit miss h = ground (arith, count_nil n)
  search_only node key n (k ∷ l) hit miss h =
      let c = count-cons n k l in
      if_intro (λ o. o ≡ some n) (str_eq (node k).key (c_str key)) (some k) _
        (λ e. elim (ℕ_discrete k n) [
          | yes same ↦ ap some same
          | no other ↦ cc (miss k (ground (arith, count-cons k k l)) other)
        ])
        (λ e.
          search_only node key n l hit (λ m h' ne. miss m (ground (arith, count-cons m k l)) ne)
            (elim (ℕ_discrete k n) [
              | yes same ↦
                  let no : ⊥ =
                    ground (arith, hit, e, same, ap (λ j. str_eq (node j).key (c_str key)) same) in
                  elim no [ ]
              | no other ↦ ground (arith, c)
            ]))

  -- Nodes leave buckets, and keep what they hold.
  abbrev Shrinks : Shared M → Shared M → Type 0
  Shrinks s s' = (s'.node ≡ s.node) × ((m b : ℕ) → count m (s'.buckets b) ≤ count m (s.buckets b))

  expire_list-Shrinks :
      (now : ℕ) (ns : List ℕ) (s : Shared M)
      → Shrinks s (expire_list meter lay insert hash hash_buckets now ns s)
  unfolding expire_list retire
  expire_list-Shrinks now [] s = (refl, λ m b. omega arith)
  expire_list-Shrinks now (n ∷ ns) s =
      if_intro (Shrinks s) (is_expired now (s.node n).meter) _ _
        (λ e.
          let h = expire_list-Shrinks now ns (retire meter lay insert hash hash_buckets n s) in
          (h.0, λ m b. ground (arith, h.1 m b, count-delete m n (s.buckets b))))
        (λ e. (refl, λ m b. omega arith))

  abbrev Allocates : Shared M → Option (ℕ × Shared M) → Type 0
  Allocates s none = Unit
  Allocates s (some (n, s')) = Shrinks s s'

  evict-Allocates :
      (l : List ℕ) (s : Shared M) → Allocates s (evict meter lay insert hash hash_buckets l s)
  unfolding evict
  evict-Allocates [] s = tt
  evict-Allocates (n ∷ l) s = (refl, λ m b. ground (arith, count-delete m n (s.buckets b)))

  take_node-Allocates :
      (l : List ℕ) (s : Shared M) → Allocates s (take_node meter lay insert hash hash_buckets l s)
  unfolding take_node
  take_node-Allocates (n ∷ l) s = (refl, λ m b. omega arith)
  take_node-Allocates [] s =
      if_intro (Allocates s) (has_room lay s.used) _ _ (λ e. (refl, λ m b. omega arith))
        (λ e. evict-Allocates s.lru s)

  -- Over two steps.
  Allocates-trans :
      (s t : Shared M) (o : Option (ℕ × Shared M)) → Shrinks s t → Allocates t o → Allocates s o
  Allocates-trans s t none h k = tt
  Allocates-trans s t (some (n, s')) h k = (k.0 ∙ h.0, λ m b. omega (arith, h.1 m b, k.1 m b))

  alloc_node-Allocates :
      (now : ℕ) (s : Shared M) → Allocates s (alloc_node meter lay insert hash hash_buckets now s)
  unfolding alloc_node
  alloc_node-Allocates now s =
      Allocates-trans s (expire_list meter lay insert hash hash_buckets now s.lru s) _
        (expire_list-Shrinks now s.lru s) (take_node-Allocates _ _)

  answered :
      (n : ℕ) (o : Bool × M) (s : Shared M)
      → (t : Shared M) × (checked meter lay insert hash hash_buckets n o s
          ≡ some (if o.0 then ok else status 503, t))
  unfolding checked
  answered n (true, m) s = (_, refl)
  answered n (false, m) s = (_, refl)

  added : ℕ → ℕ → Text → ℕ → Shared M → Shared M
  added now bucket key n s = record s {
    node = set_node n (record { key = c_str key; meter = init now }) s.node;
    buckets = set_node bucket (insert n (s.buckets bucket)) s.buckets;
    lru = insert n s.lru;
  }

  -- The new node is what a search in its bucket finds.
  search-added :
      (now bucket : ℕ) (key : Text) (n : ℕ) (s : Shared M)
      → Absent s.node key (s.buckets bucket)
      → search_bucket meter lay insert hash hash_buckets
          (added now bucket key n s).node
          key
          ((added now bucket key n s).buckets bucket)
        ≡ some n
  unfolding added
  search-added now bucket key n s absent =
      let new : Node M = record { key = c_str key; meter = init now } in
      subst
        (λ l.
          search_bucket meter lay insert hash hash_buckets (set_node n new s.node) key l ≡ some n)
        (sym (set_node_self bucket (insert n (s.buckets bucket)) s.buckets))
        (search_only (set_node n new s.node) key n (insert n (s.buckets bucket))
          (ap (λ x. str_eq x.key (c_str key)) (set_node_self n new s.node)
            ∙ str_eq_refl (c_str key))
          (λ m h ne.
            ap (λ x. str_eq x.key (c_str key)) (set_node-ne n m new s.node ne)
            ∙ absent m
                (ground (arith, inserts n m (s.buckets bucket), count-cons m n (s.buckets bucket))))
          (ground (arith, inserts n n (s.buckets bucket), count-cons n n (s.buckets bucket))))

  -- A request whose key has no meter yet gets one, and is let pass. The next request with that key, at
  -- whatever time, is decided by that very meter: it is let pass if the meter allows it, and answered
  -- by status 503 if not.
  pub with_key-repeat :
      (now later : ℕ) (key : Text) (s s' : Shared M) (n : ℕ)
      → search_bucket meter lay insert hash hash_buckets s.node key
          (s.buckets (bucket_of meter lay insert hash hash_buckets key))
        ≡ none
      → alloc_node meter lay insert hash hash_buckets now (record s { total = suc s.total })
        ≡ some (n, s')
      → (t t' : Shared M) × (with_key meter lay insert hash hash_buckets now key s ≡ some (ok, t))
        × (with_key meter lay insert hash hash_buckets later key t
            ≡ some (if (check later (init now)).0 then ok else status 503, t'))
  unfolding with_key found add_node added
  with_key-repeat now later key s s' n absent lent =
      let b = bucket_of meter lay insert hash hash_buckets key in
      let k : Allocates (record s { total = suc s.total }) (some (n, s')) =
        subst (Allocates (record s { total = suc s.total })) lent
          (alloc_node-Allocates now (record s { total = suc s.total })) in
      let gone : Absent s'.node key (s'.buckets b) = λ m h.
        ap (λ f. str_eq (f m).key (c_str key)) k.0
        ∙ search-Absent s.node key (s.buckets b) absent m (omega (arith, k.1 m b)) in
      let t = added now b key n s' in
      let u : Shared M = record t { total = suc t.total } in
      let (t', e) = answered n (check later (t.node n).meter) u in
      (
        t,
        t',
        ap
              (λ o.
                found meter lay insert hash hash_buckets now b key o
                  (record s { total = suc s.total }))
              absent
            ∙ ap (add_node meter lay insert hash hash_buckets now b key) lent,
        ap (λ o. found meter lay insert hash hash_buckets later b key o u)
              (search-added now b key n s' gone)
            ∙ e
            ∙ ap (λ x. some (if (check later x.meter).0 then ok else status 503, t'))
                (set_node_self n (record { key = c_str key; meter = init now }) s'.node),
      )
