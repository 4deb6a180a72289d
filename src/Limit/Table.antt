-- ===== src/Limit/Table.antt =====
-- phl_limit_req.c: which list each node of the shared table is in, through every request, in a memory
-- whose nodes stand behind the buckets.
use phorklift.Prelude.{
  ℕ, suc, ◌+◌, ◌*◌, ◌≤◌, ◌≡◌, refl, Bool, true, false, Option, none, some, List, [], ◌∷◌, Text, ltb,
  leb, ◌==◌, if◌then◌else◌, arith, if_intro, ap, length,
}
use phorklift.Request.State.{Ret, ok}
use phorklift.Limit.{
  Meter, Layout, has_room, Node, Shared, set_node, retire, expire_list, evict, take_node,
  alloc_node, add_node, checked, found, with_key, limit_headers, serve, checked_len,
}
use phorklift.Limit.Counts.{count, count_nil, count-cons, count-append, count-delete}

-- The nodes that no list has, because they are being moved.
abbrev pub nobody : ℕ → ℕ
nobody n = 0

abbrev pub only : ℕ → ℕ → ℕ
only m n = if m == n then 1 else 0

-- Every node that has been cut off is in one of the two lists, once, unless it is lent; a node of
-- the LRU list is in exactly one bucket, once, and no other node is in any; and all nodes lie inside
-- the shared memory.
pub record IsTable {M : Type 0} (lay : Layout) (lent : ℕ → ℕ) (s : Shared M) : Type 0 where
  pub home : ℕ → ℕ
  pub owned : (n : ℕ) → count n s.lru + count n s.free + lent n ≡ (if ltb n s.used then 1 else 0)
  pub linked : (n b : ℕ) → count n (s.buckets b) ≡ (if home n == b then count n s.lru else 0)
  pub inside : lay.start + s.used * lay.stride ≤ lay.size

module _ (meter : Meter) (lay : Layout) (insert : ℕ → List ℕ → List ℕ) (hash : Text → ℕ)
    (hash_buckets : ℕ) (inserts : (n m : ℕ) (l : List ℕ) → count m (insert n l) ≡ count m (n ∷ l))
    (starts : has_room lay 0 ≡ true) where
  open meter use {M, init, is_expired, check}

  retire-IsTable :
      (n : ℕ) (s : Shared M)
      → IsTable lay nobody s
      → count n s.lru ≡ 1
      → IsTable lay nobody (retire meter lay insert hash hash_buckets n s)
  unfolding retire
  retire-IsTable n s t h = record {
    home = t.home;
    owned = λ m. ground (
      arith,
      t.owned m,
      count-delete m n s.lru,
      count-append m s.free (n ∷ []),
      count-cons m n [],
      count_nil m,
    );
    linked =
        λ m b. ground (arith, t.linked m b, count-delete m n (s.buckets b), count-delete m n s.lru);
    inside = t.inside;
  }

  retired :
      (n m : ℕ) (s : Shared M)
      → count m (retire meter lay insert hash hash_buckets n s).lru
        ≡ (if n == m then 0 else count m s.lru)
  unfolding retire
  retired n m s = count-delete m n s.lru

  expire_list-IsTable :
      (now : ℕ) (ns : List ℕ) (s : Shared M)
      → IsTable lay nobody s
      → ((m : ℕ) → count m ns ≤ count m s.lru)
      → IsTable lay nobody (expire_list meter lay insert hash hash_buckets now ns s)
  unfolding expire_list
  expire_list-IsTable now [] s t h = t
  expire_list-IsTable now (n ∷ ns) s t h =
      let c = count-cons n n ns in
      let one : count n s.lru ≡ 1 = ground (arith, h n, t.owned n, c) in
      if_intro (IsTable lay nobody) (is_expired now (s.node n).meter) _ _
        (λ e.
          expire_list-IsTable now ns (retire meter lay insert hash hash_buckets n s)
            (retire-IsTable n s t one)
            λ m. ground (arith, h m, h n, c, one, count-cons m n ns, retired n m s))
        (λ e. t)

  has_room_lem : (n : ℕ) → has_room lay n ≡ true → lay.start + suc n * lay.stride ≤ lay.size
  unfolding has_room
  has_room_lem n h = grind arith

  -- A node is lent, and the rest is in order.
  abbrev Lends : Option (ℕ × Shared M) → Type 0
  Lends none = ⊥
  Lends (some (n, s)) = IsTable lay (only n) s

  evict-Lends :
      (l : List ℕ) (s : Shared M)
      → IsTable lay nobody s
      → s.lru ≡ l
      → s.free ≡ []
      → has_room lay s.used ≡ false
      → Lends (evict meter lay insert hash hash_buckets l s)
  unfolding evict
  evict-Lends [] s t e f full =
      let none_used : s.used ≡ 0 =
        ground (arith, t.owned 0, ap (count 0) e, ap (count 0) f, count_nil 0) in
      let no : ⊥ = ground (arith, starts, full, ap (has_room lay) none_used) in elim no [ ]
  evict-Lends (n ∷ rest) s t e f full = record {
    home = t.home;
    owned = λ m.
        ground (
          arith,
          t.owned m,
          t.owned n,
          count-delete m n s.lru,
          ap (count n) e,
          count-cons n n rest,
        );
    linked =
        λ m b. ground (arith, t.linked m b, count-delete m n (s.buckets b), count-delete m n s.lru);
    inside = t.inside;
  }

  take_node-Lends :
      (l : List ℕ) (s : Shared M)
      → IsTable lay nobody s
      → s.free ≡ l
      → Lends (take_node meter lay insert hash hash_buckets l s)
  unfolding take_node
  take_node-Lends (n ∷ rest) s t e = record {
    home = t.home;
    owned = λ m. ground (arith, t.owned m, ap (count m) e, count-cons m n rest);
    linked = t.linked;
    inside = t.inside;
  }
  take_node-Lends [] s t e =
      if_intro Lends (has_room lay s.used) _ _
        (λ room. record {
          home = t.home;
          owned = λ m. ground (arith, t.owned m);
          linked = t.linked;
          inside = has_room_lem s.used room;
        })
        (λ full. evict-Lends s.lru s t refl e full)

  alloc_node-Lends :
      (now : ℕ) (s : Shared M)
      → IsTable lay nobody s
      → Lends (alloc_node meter lay insert hash hash_buckets now s)
  unfolding alloc_node
  alloc_node-Lends now s t =
      take_node-Lends _ _ (expire_list-IsTable now s.lru s t (λ m. omega arith)) refl

  -- The table is in order after a request.
  abbrev Answers : Option (Ret × Shared M) → Type 0
  Answers none = ⊥
  Answers (some (ret, s)) = IsTable lay nobody s

  add_node-Answers :
      (now bucket : ℕ) (key : Text) (o : Option (ℕ × Shared M))
      → Lends o
      → Answers (add_node meter lay insert hash hash_buckets now bucket key o)
  unfolding add_node
  add_node-Answers now bucket key none t = t
  add_node-Answers now bucket key (some (n, s)) t = record {
    home = set_node n bucket t.home;
    owned = λ m. ground (arith, t.owned m, inserts n m s.lru, count-cons m n s.lru);
    linked = λ m b. ground (
      arith,
      t.owned n,
      t.linked m b,
      t.linked n b,
      inserts n m s.lru,
      inserts n m (s.buckets b),
      inserts n m (s.buckets bucket),
      count-cons m n s.lru,
      count-cons m n (s.buckets bucket),
    );
    inside = t.inside;
  }

  checked-Answers :
      (n : ℕ) (o : Bool × M) (s : Shared M)
      → IsTable lay nobody s
      → Answers (checked meter lay insert hash hash_buckets n o s)
  unfolding checked
  checked-Answers n (is_ok, m) s t =
      if_intro Answers is_ok _ _
        (λ e. record { home = t.home; owned = t.owned; linked = t.linked; inside = t.inside })
        (λ e. record { home = t.home; owned = t.owned; linked = t.linked; inside = t.inside })

  found-Answers :
      (now bucket : ℕ) (key : Text) (o : Option ℕ) (s : Shared M)
      → IsTable lay nobody s
      → Answers (found meter lay insert hash hash_buckets now bucket key o s)
  unfolding found
  found-Answers now bucket key none s t =
      add_node-Answers now bucket key _ (alloc_node-Lends now s t)
  found-Answers now bucket key (some n) s t = checked-Answers n _ s t

  limit_headers-Answers :
      (now key_max_len : ℕ) (key : Option Text) (s : Shared M)
      → IsTable lay nobody s
      → Answers (limit_headers meter lay insert hash hash_buckets now key_max_len key s)
  unfolding limit_headers checked_len with_key
  limit_headers-Answers now key_max_len none s t = t
  limit_headers-Answers now key_max_len (some key) s t =
      if_intro Answers (leb key_max_len (length key)) _ _ (λ e. t)
        (λ e.
          found-Answers now _ key _ (record s { total = suc s.total })
            (record { home = t.home; owned = t.owned; linked = t.linked; inside = t.inside }))

  serve-Answers :
      (key_max_len : ℕ) (qs : List (ℕ × Option Text)) (o : Option (Ret × Shared M))
      → Answers o
      → Answers (serve meter lay insert hash hash_buckets key_max_len qs o)
  unfolding serve
  serve-Answers key_max_len [] o t = t
  serve-Answers key_max_len (q ∷ qs) none t = t
  serve-Answers key_max_len ((now, key) ∷ qs) (some (ret, s)) t =
      serve-Answers key_max_len qs _ (limit_headers-Answers now key_max_len key s t)

  reads_answer :
      (o : Option (Ret × Shared M))
      → Answers o
      → (ret : Ret) × (s : Shared M) × (o ≡ some (ret, s)) × IsTable lay nobody s
  reads_answer none t = elim t [ ]
  reads_answer (some (ret, s)) t = (ret, s, refl, t)

  -- From a table in order, such as the empty one, every sequence of requests is answered, and no null
  -- pointer is met: each node that was ever cut off is in one of the LRU list and the free list, once,
  -- those of the LRU list are in one bucket each, and all nodes lie inside the shared memory. The
  -- memory has room for one node, which phl_limit_req_conf_post() checks.
  pub serve-IsTable :
      (key_max_len : ℕ) (qs : List (ℕ × Option Text)) (s : Shared M)
      → IsTable lay nobody s
      → (ret : Ret) × (s' : Shared M) × (serve meter lay insert hash hash_buckets key_max_len qs
            (some (ok, s))
          ≡ some (ret, s'))
        × IsTable lay nobody s'
  serve-IsTable key_max_len qs s t = reads_answer _ (serve-Answers key_max_len qs (some (ok, s)) t)

  -- The table after phl_limit_req_conf_post().
  pub empty-IsTable :
      (node : ℕ → Node M)
      → IsTable lay nobody (record {
        lru = [];
        free = [];
        used = 0;
        buckets = λ b. [];
        node = node;
        total = 0;
        limited = 0;
      })
  unfolding has_room
  empty-IsTable node = record {
    home = λ n. 0;
    owned = λ n. ground (arith, count_nil n);
    linked = λ n b. ground (arith, count_nil n);
    inside = grind (arith, starts);
  }
