-- ===== src/Limit/Setup.antt =====
-- phl_limit_req_conf_post(): the shared memory when the configuration is loaded.
mod Tests
use phorklift.Prelude.{ℕ, ◌+◌, ◌*◌, ltb, ◌==◌, if◌then◌else◌}
use phorklift.Limit.{Layout, has_room}

-- `sizeof(struct phl_limit_req_shared)`, `sizeof(wuy_nop_hlist_t)` and
-- `sizeof(struct phl_limit_req_node)`
pub record Sizes : Type 0 where
  pub shared : ℕ
  pub bucket : ℕ
  pub node : ℕ

-- What becomes of a scope: no limit, an error, or a burst and a layout.
pub data Posted : Type 0 where
  no_limit small_burst small_size : Posted
  posted : ℕ → Layout → Posted

-- The positions in the shared memory. The difference of pointers is signed: here a size below that
-- of a node makes `nodes_end` 0, which is not above the first node either.
pub lay_out : Sizes → ℕ → ℕ → ℕ → Layout
lay_out z size hash_buckets key_max_len = record {
  start = z.bucket * hash_buckets;
  stride = z.node + key_max_len;
  size = size;
}

-- phl_limit_req_conf_post(), where the shared memory is new.
pub conf_post : Sizes → ℕ → ℕ → ℕ → ℕ → ℕ → Posted
conf_post z rate burst size hash_buckets key_max_len =
    let lay = lay_out z size hash_buckets key_max_len in
    let laid = λ (b : ℕ). if has_room lay 0 then posted b lay else small_size in
    if rate == 0
    then no_limit
    else if burst == 0
    then laid rate
    else if ltb burst rate
    then small_burst
    else laid burst
