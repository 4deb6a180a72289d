-- ===== src/Limit/Tests.antt =====
-- The request rate limit (modules/phl_limit_req.c) at concrete inputs.
use phorklift.Prelude.{ℕ, suc, ◌≡◌, refl, true, false, none, some, List, [], ◌∷◌, Text, ltb, str_eq}
use mathlib.Core.Option
use phorklift.Request.State.{ok, status}
use phorklift.Limit.{
  Meter, Layout, has_room, Node, Shared, c_str, expire_list, take_node, alloc_node, search_bucket,
  add_node, checked, found, with_key, checked_len, limit_headers, serve,
}
use phorklift.Limit.Counts.{count}

-- A meter that lets two requests pass, the first of which creates it.
abbrev twice : Meter
twice = record {
  M = ℕ;
  init = λ now. 1;
  is_expired = λ now m. false;
  check = λ now m. (ltb m 2, suc m);
}

-- Room for two nodes of ten bytes.
abbrev small : Layout
small = record { start = 100; stride = 10; size = 125 }

abbrev in_front : ℕ → List ℕ → List ℕ
in_front n l = n ∷ l

abbrev by_length : Text → ℕ
by_length [] = 0
by_length (c ∷ s) = suc (by_length s)

abbrev no_node : ℕ → Node ℕ
no_node n = record { key = []; meter = 0 }

abbrev empty : Shared ℕ
empty = record {
  lru = [];
  free = [];
  used = 0;
  buckets = λ b. [];
  node = no_node;
  total = 0;
  limited = 0;
}

abbrev key : Text
key = b'k' ∷ []

-- The third request with a key is answered by status 503.
limits :
    Option.map
      (λ o. o.0)
      (serve twice small in_front by_length 64 40
        ((0, some key) ∷ (0, some key) ∷ (0, some key) ∷ [])
        (some (ok, empty)))
    ≡ some (status 503)
unfolding serve limit_headers checked_len with_key found checked add_node alloc_node take_node
    expire_list search_bucket has_room c_str str_eq
limits = refl

has_room-small : has_room small 0 ≡ true
unfolding has_room
has_room-small = refl

in_front_inserts : (n m : ℕ) (l : List ℕ) → count m (in_front n l) ≡ count m (n ∷ l)
in_front_inserts n m l = refl

first_node :
    alloc_node twice small in_front by_length 64 0 (record empty { total = 1 })
    ≡ some (0, record empty { total = 1; used = 1 })
unfolding alloc_node take_node expire_list has_room
first_node = refl

no_key : search_bucket twice small in_front by_length 64 no_node key [] ≡ none
unfolding search_bucket
no_key = refl
