-- ===== src/Upstream/Pool/Reachable.antt =====
-- phl_upstream.c: the idle connections through every sequence of operations on an address.
use phorklift.Prelude.{
  ℕ, suc, ◌+◌, ◌-◌, ◌≤◌, ◌<◌, ◌≡◌, refl, sym, Bool, true, false, not, ◌||◌, Option, none, some,
  List, [], ◌∷◌, ltb, length, arith, if_intro, inl, subst, ap,
}
use phorklift.Upstream.Pool.{
  Conn, Address, is_idle, close_connection, reuse, connect, or_connect, get_connection,
  close_oldest, make_room, put_idle, release_connection,
}
use phorklift.Upstream.Pool.Counted.{
  count, IsCounted, Has, Gives, connect-Gives, reuse-Gives, close-IsCounted,
  close_connection-IsCounted, put_idle-IsCounted, count-delete_le, count-Has, count_nil, Has-All,
}

-- The pool of an address: in order, and of the size that the code allows.
pub record IsPool (idle_max : ℕ) (a : Address) : Type 0 where
  pub counted : IsCounted a
  pub bound : a.idle_num ≤ suc idle_max

-- A new socket has a number that no connection has.
abbrev pub IsNew : Option ℕ → Address → Type 0
IsNew socket a = (n : ℕ) → socket ≡ some n → count n a.idle + count n a.active ≡ 0

-- What happens to the connections of an address. The error flag of one that is released may have
-- been set while it was in use (phl_upstream_content.c); an idle one that becomes readable or times out is
-- closed by phl_upstream_on_active().
pub data Step (idle_max : ℕ) : Address → Address → Type 0 where
  got :
      (r : ℕ) (socket : Option ℕ) (a : Address) (c : Conn) (a' : Address)
      → IsNew socket a
      → get_connection r socket a ≡ some (c, a')
      → Step idle_max a a'
  released :
      (is_clean is_closed error : Bool) (c : Conn) (a : Address)
      → Has c a.active
      → Step idle_max a
          (release_connection idle_max is_clean is_closed (record c { error = error }) a)
  dropped : (c : Conn) (a : Address) → Has c a.idle → Step idle_max a (close_connection c a)

abbrev pub empty : Address
empty = record { idle_num = 0; idle = []; active = [] }

pub data Reachable (idle_max : ℕ) : Address → Type 0 where
  start : Reachable idle_max empty
  next : (a a' : Address) → Reachable idle_max a → Step idle_max a a' → Reachable idle_max a'

or_connect-Gives :
    (r : ℕ) (socket : Option ℕ) (a : Address) (o : Option (Conn × Address))
    → IsCounted a
    → IsNew socket a
    → Gives o
    → Gives (or_connect r socket a o)
unfolding or_connect
or_connect-Gives r socket a none good new h = connect-Gives r socket a good new
or_connect-Gives r socket a (some p) good new h = h

get_connection-Gives :
    (r : ℕ) (socket : Option ℕ) (a : Address)
    → IsCounted a
    → IsNew socket a
    → Gives (get_connection r socket a)
unfolding get_connection
get_connection-Gives r socket a good new =
    or_connect-Gives r socket a (reuse r a.idle a) good new (reuse-Gives r a.idle a good refl)

-- There is room for one more idle connection.
abbrev Roomy : ℕ → Address → Address → Type 0
Roomy idle_max a a' =
    IsCounted a' × (a'.idle_num ≤ idle_max) × ((n : ℕ) → count n a'.idle ≤ count n a.idle)

close_oldest-Roomy :
    (idle_max : ℕ) (a : Address) (cs : List Conn)
    → IsPool idle_max a
    → a.idle ≡ cs
    → idle_max < a.idle_num
    → Roomy idle_max a (close_oldest cs a)
unfolding close_oldest close_connection
close_oldest-Roomy idle_max a [] good e lt =
    let no : ⊥ = ground (arith, good.counted.num, ap (λ l. length l) e) in elim no [ ]
close_oldest-Roomy idle_max a (c ∷ rest) good e lt =
    let h : Has c a.idle = subst (Has c) (sym e) (inl refl) in
    let i = Has-All true c a.idle h good.counted.idle in
    (
      close-IsCounted c a good.counted (inl h),
      ground (arith, i, good.bound),
      λ n. count-delete_le n c.id a.idle,
    )

make_room-Roomy :
    (idle_max : ℕ) (a : Address) → IsPool idle_max a → Roomy idle_max a (make_room idle_max a)
unfolding make_room
make_room-Roomy idle_max a good =
    if_intro (Roomy idle_max a) (ltb idle_max a.idle_num) (close_oldest a.idle a) a
      (λ e. close_oldest-Roomy idle_max a a.idle good refl (ground arith))
      (λ e. (good.counted, ground arith, λ n. omega arith))

put_idle_bound : (c : Conn) (a : Address) → (put_idle c a).idle_num ≡ suc a.idle_num
unfolding put_idle
put_idle_bound c a = refl

close_bound : (c : Conn) (a : Address) → (close_connection c a).idle_num ≤ a.idle_num
unfolding close_connection
close_bound c a =
    if_intro (λ n. n ≤ a.idle_num) (is_idle c.request) (a.idle_num - 1) a.idle_num
      (λ e. omega arith) (λ e. omega arith)

not_idle : (c : Conn) (a : Address) → IsCounted a → Has c a.active → count c.id a.idle ≡ 0
not_idle c a good h = ground (arith, good.once c.id, count-Has c a.active h)

release-IsPool :
    (idle_max : ℕ) (is_clean is_closed error : Bool) (c : Conn) (a : Address)
    → IsPool idle_max a
    → Has c a.active
    → IsPool idle_max
        (release_connection idle_max is_clean is_closed (record c { error = error }) a)
unfolding release_connection
release-IsPool idle_max is_clean is_closed error c a good h =
    let f = record c { error = error } in
    if_intro (IsPool idle_max) (error || not is_clean || is_closed) (close_connection f a)
      (put_idle f (make_room idle_max a))
      (λ e. record {
        counted = close_connection-IsCounted f a good.counted (
            ground
              (arith, not_idle c a good.counted h, Has-All false c a.active h good.counted.active));
        bound = ground (arith, close_bound f a, good.bound);
      })
      λ e.
        let (counted, room, fewer) = make_room-Roomy idle_max a good in
        record {
          counted =
              put_idle-IsCounted f (make_room idle_max a) counted
                (ground (arith, fewer c.id, not_idle c a good.counted h));
          bound = ground (arith, put_idle_bound f (make_room idle_max a));
        }

abbrev Smaller : Address → Option (Conn × Address) → Type 0
Smaller a none = Unit
Smaller a (some (c, a')) = a'.idle_num ≤ a.idle_num

reuse-Smaller : (r : ℕ) (cs : List Conn) (a : Address) → Smaller a (reuse r cs a)
unfolding reuse
reuse-Smaller r [] a = tt
reuse-Smaller r (c ∷ rest) a = omega arith

or_connect-Smaller :
    (r : ℕ) (socket : Option ℕ) (a : Address) (o : Option (Conn × Address))
    → Smaller a o
    → Smaller a (or_connect r socket a o)
unfolding or_connect connect
or_connect-Smaller r none a none h = tt
or_connect-Smaller r (some n) a none h = omega arith
or_connect-Smaller r socket a (some p) h = h

get_connection-Smaller :
    (r : ℕ) (socket : Option ℕ) (a : Address) → Smaller a (get_connection r socket a)
unfolding get_connection
get_connection-Smaller r socket a = or_connect-Smaller r socket a _ (reuse-Smaller r a.idle a)

Step-IsPool :
    (idle_max : ℕ) (a a' : Address) → Step idle_max a a' → IsPool idle_max a → IsPool idle_max a'
Step-IsPool idle_max _ _ (got r socket a c a' new e) good = record {
  counted = (subst Gives e (get_connection-Gives r socket a good.counted new)).0;
  bound = ground (arith, subst (Smaller a) e (get_connection-Smaller r socket a), good.bound);
}
Step-IsPool idle_max _ _ (released clean closed error c a h) good =
    release-IsPool idle_max clean closed error c a good h
Step-IsPool idle_max _ _ (dropped c a h) good = record {
  counted = close-IsCounted c a good.counted (inl h);
  bound = ground (arith, close_bound c a, good.bound);
}

-- Through every sequence of operations on an address, `idle_num` is the number of idle connections,
-- which serve no request while all others serve one, no connection is in two lists or twice in one,
-- and at most `idle_max + 1` are idle.
pub reachable-IsPool : (idle_max : ℕ) (a : Address) → Reachable idle_max a → IsPool idle_max a
reachable-IsPool idle_max a start = record {
  counted = record {
    num = omega arith;
    idle = tt;
    active = tt;
    once = λ n. omega (arith, count_nil n);
  };
  bound = omega arith;
}
reachable-IsPool idle_max a (next b c r s) =
    Step-IsPool idle_max b c s (reachable-IsPool idle_max b r)

-- The limit is passed by one: an active connection that is released clean, open and without an error,
-- while `idle_max` others of a pool in order are idle, makes the count of the idle ones one more.
pub release-overfull :
    (idle_max : ℕ) (c : Conn) (a : Address)
    → IsPool idle_max a
    → Has c a.active
    → c.error ≡ false
    → a.idle_num ≡ idle_max
    → (release_connection idle_max true false c a).idle_num ≡ suc idle_max
unfolding release_connection make_room put_idle
release-overfull idle_max c a good h e n = ground arith
