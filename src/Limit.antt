-- ===== src/Limit.antt =====
-- The request rate limit, modules/phl_limit_req.c: the shared table of meters by key.
pub mod Counts
pub mod Table
pub mod Repeat
pub mod Setup
mod Tests
use phorklift.Prelude.{
  ℕ, suc, zero, ◌+◌, ◌-◌, ◌*◌, ◌%◌, Bool, true, false, not, Option, none, some, List, [], ◌∷◌, ◌++◌,
  length, Text, str_eq, ltb, leb, ◌==◌, if◌then◌else◌,
}
use phorklift.Request.State.{Ret, ok, error, status}

-- The meter of libwuya: `wuy_meter_init`, `wuy_meter_is_expired` and `wuy_meter_check`, each at the
-- time of the call. The check updates the meter.
pub record Meter : Type 1 where
  pub M : Type 0
  pub init : ℕ → M
  pub is_expired : ℕ → M → Bool
  pub check : ℕ → M → Bool × M

-- The sizes of the shared memory, in bytes: where the first node stands, the size of a node with its
-- key, and the size of all.
pub record Layout : Type 0 where
  pub start : ℕ
  pub stride : ℕ
  pub size : ℕ

-- "shared->used_pos < shared->nodes_end", after `used` nodes.
pub has_room : Layout → ℕ → Bool
has_room lay used = ltb (lay.start + used * lay.stride) (lay.size - lay.stride)

-- `struct phl_limit_req_node`, without its links.
pub record Node (M : Type 0) : Type 0 where
  pub key : Text
  pub meter : M

-- `struct phl_limit_req_shared`: lists hold the numbers of nodes, in the order of their places in
-- the memory, of which `used` have been cut off. `node` is what stands at a place. The buckets are kept
-- apart from the nodes, as the code means them to be: see Limit/Setup for where it places the first
-- node.
pub record Shared (M : Type 0) : Type 0 where
  pub lru : List ℕ
  pub free : List ℕ
  pub used : ℕ
  pub buckets : ℕ → List ℕ
  pub node : ℕ → Node M
  pub total : ℕ
  pub limited : ℕ

-- `strcmp` and `strcpy` read a key up to its first 0 only.
pub c_str : Text → Text
c_str [] = []
c_str (c ∷ s) = let rest = c_str s in if c == 0 then [] else c ∷ rest

-- The deletion of a node from a list that it may be in.
pub delete : ℕ → List ℕ → List ℕ
delete n [] = []
delete n (m ∷ ms) = let rest = delete n ms in if m == n then rest else m ∷ rest

abbrev pub set_node {ℓ} : {A : Type ℓ} → ℕ → A → (ℕ → A) → ℕ → A
set_node n x f m = if m == n then x else f m

-- `insert` is `wuy_nop_hlist_insert` and `wuy_nop_list_insert` of libwuya, and `hash` is
-- `wuy_vhash64`.
module _ (meter : Meter) (lay : Layout) (insert : ℕ → List ℕ → List ℕ) (hash : Text → ℕ)
    (hash_buckets : ℕ) where
  open meter use {M, init, is_expired, check}

  -- The body of the loop of phl_limit_req_expire().
  pub retire : ℕ → Shared M → Shared M
  retire n s = record s {
    buckets = λ b. delete n (s.buckets b);
    lru = delete n s.lru;
    free = s.free ++ n ∷ [];
  }

  -- phl_limit_req_expire(), over the LRU list as it is at the start.
  pub expire_list : ℕ → List ℕ → Shared M → Shared M
  expire_list now [] s = s
  expire_list now (n ∷ ns) s =
      let rest = expire_list now ns (retire n s) in
      if is_expired now (s.node n).meter then rest else s

  -- "LRU list": its first node is used again. Without one, a null pointer is followed.
  pub evict : List ℕ → Shared M → Option (ℕ × Shared M)
  evict [] s = none
  evict (n ∷ rest) s =
      some (n, record s { lru = delete n s.lru; buckets = λ b. delete n (s.buckets b) })

  -- "reuse freed node", else "allocate new node"
  pub take_node : List ℕ → Shared M → Option (ℕ × Shared M)
  take_node (n ∷ rest) s = some (n, record s { free = rest })
  take_node [] s =
      if has_room lay s.used then some (s.used, record s { used = suc s.used }) else evict s.lru s

  -- phl_limit_req_alloc_node()
  pub alloc_node : ℕ → Shared M → Option (ℕ × Shared M)
  alloc_node now s = let s' = expire_list now s.lru s in take_node s'.free s'

  -- The search in a bucket.
  pub search_bucket : (ℕ → Node M) → Text → List ℕ → Option ℕ
  search_bucket node key [] = none
  search_bucket node key (n ∷ ns) =
      let rest = search_bucket node key ns in
      if str_eq (node n).key (c_str key) then some n else rest

  -- "not found, create new meter"
  pub add_node : ℕ → ℕ → Text → Option (ℕ × Shared M) → Option (Ret × Shared M)
  add_node now bucket key none = none
  add_node now bucket key (some (n, s)) = some (
    ok,
    record s {
      node = set_node n (record { key = c_str key; meter = init now }) s.node;
      buckets = set_node bucket (insert n (s.buckets bucket)) s.buckets;
      lru = insert n s.lru;
    },
  )

  -- "found and limited", or found and not.
  pub checked : ℕ → Bool × M → Shared M → Option (Ret × Shared M)
  checked n (is_ok, m) s =
      let s' = record s { node = set_node n (record (s.node n) { meter = m }) s.node } in
      if is_ok then some (ok, s') else some (status 503, record s' { limited = suc s'.limited })

  pub found : ℕ → ℕ → Text → Option ℕ → Shared M → Option (Ret × Shared M)
  found now bucket key none s = add_node now bucket key (alloc_node now s)
  found now bucket key (some n) s = checked n (check now (s.node n).meter) s

  abbrev pub bucket_of : Text → ℕ
  bucket_of key = hash key % hash_buckets

  -- The part of phl_limit_req_process_headers() under the lock.
  pub with_key : ℕ → Text → Shared M → Option (Ret × Shared M)
  with_key now key s =
      found now (bucket_of key) key (search_bucket s.node key (s.buckets (bucket_of key)))
        (record s { total = suc s.total })

  -- phl_limit_req_process_headers(): `shared` may be NULL, and `key` is what the function of the
  -- configuration returns, or the address of the client. The outer `none` is a null pointer.
  pub checked_len : ℕ → ℕ → Text → Shared M → Option (Ret × Shared M)
  checked_len now key_max_len key s =
      if leb key_max_len (length key) then some (error, s) else with_key now key s

  pub limit_headers : ℕ → ℕ → Option Text → Shared M → Option (Ret × Shared M)
  limit_headers now key_max_len none s = some (error, s)
  limit_headers now key_max_len (some key) s = checked_len now key_max_len key s

  -- One request after the other, each with the time and the key that it comes with.
  pub serve : ℕ → List (ℕ × Option Text) → Option (Ret × Shared M) → Option (Ret × Shared M)
  serve key_max_len [] o = o
  serve key_max_len (q ∷ qs) none = none
  serve key_max_len ((now, key) ∷ qs) (some (ret, s)) =
      serve key_max_len qs (limit_headers now key_max_len key s)
