-- ===== src/Upstream/Pool/Counted.antt =====
-- phl_upstream.c: the count of idle connections, and the lists that a connection is in.
use native.Mathlib.Decide.{ℕ_discrete}
use phorklift.Prelude.{
  ℕ, suc, ◌+◌, ◌≤◌, ◌≡◌, refl, ◌∙◌, Bool, true, false, Option, none, some, List, [], ◌∷◌, ◌++◌,
  ◌==◌, if◌then◌else◌, length, length-append, All, arith, if_intro, ◌⊎◌, inl, inr, subst, ap,
}
use phorklift.Upstream.Pool.{
  Conn, Address, delete, is_idle, close_connection, reuse, connect, put_idle,
}

-- How often an id stands in a list.
pub count : ℕ → List Conn → ℕ
count n [] = 0
count n (c ∷ cs) = let rest = count n cs in if c.id == n then suc rest else rest

abbrev pub HasRequest : Bool → Conn → Type 0
HasRequest idle c = is_idle c.request ≡ idle

-- The count is that of the idle list, whose connections serve no request, while those of the other
-- list serve one; and no connection stands twice.
pub record IsCounted (a : Address) : Type 0 where
  pub num : a.idle_num ≡ length a.idle
  pub idle : All (HasRequest true) a.idle
  pub active : All (HasRequest false) a.active
  pub once : (n : ℕ) → count n a.idle + count n a.active ≤ 1

pub count_nil : (n : ℕ) → count n [] ≡ 0
unfolding count
count_nil n = refl

count-append : (n : ℕ) (cs ds : List Conn) → count n (cs ++ ds) ≡ count n cs + count n ds
unfolding count
count-append n [] ds = omega arith
count-append n (c ∷ cs) ds = let h = count-append n cs ds in ground (arith, h)

count-delete_self : (n : ℕ) (cs : List Conn) → count n (delete n cs) ≡ 0
unfolding count delete
count-delete_self n [] = refl
count-delete_self n (c ∷ cs) =
    if_intro (λ l. count n l ≡ 0) (c.id == n) _ _ (λ e. count-delete_self n cs)
      (λ e. ground (arith, count-delete_self n cs))

pub count-delete_le : (n m : ℕ) (cs : List Conn) → count n (delete m cs) ≤ count n cs
unfolding count delete
count-delete_le n m [] = omega arith
count-delete_le n m (c ∷ cs) =
    if_intro (λ l. count n l ≤ count n (c ∷ cs)) (c.id == m) _ _
      (λ e. ground (arith, count-delete_le n m cs)) (λ e. ground (arith, count-delete_le n m cs))

length-delete : (n : ℕ) (cs : List Conn) → length (delete n cs) + count n cs ≡ length cs
unfolding count delete
length-delete n [] = omega arith
length-delete n (c ∷ cs) =
    let h = length-delete n cs in
    elim (ℕ_discrete c.id n) [ yes e ↦ ground (arith, h) | no e ↦ ground (arith, h) ]

delete-All :
    (b : Bool) (n : ℕ) (cs : List Conn) → All (HasRequest b) cs → All (HasRequest b) (delete n cs)
unfolding delete
delete-All b n [] h = h
delete-All b n (c ∷ cs) (h, hs) =
    if_intro (All (HasRequest b)) (c.id == n) _ _ (λ e. delete-All b n cs hs)
      (λ e. (h, delete-All b n cs hs))

All-append :
    (b : Bool) (cs ds : List Conn)
    → All (HasRequest b) cs
    → All (HasRequest b) ds
    → All (HasRequest b) (cs ++ ds)
All-append b [] ds h k = k
All-append b (c ∷ cs) ds (h, hs) k = (h, All-append b cs ds hs k)

pub close_connection-IsCounted :
    (c : Conn) (a : Address)
    → IsCounted a
    → count c.id a.idle ≡ (if is_idle c.request then 1 else 0)
    → IsCounted (close_connection c a)
unfolding close_connection
close_connection-IsCounted c a good k = record {
  num = ground (arith, length-delete c.id a.idle, good.num);
  idle = delete-All true c.id a.idle good.idle;
  active = delete-All false c.id a.active good.active;
  once = λ n.
      ground (arith, count-delete_le n c.id a.idle, count-delete_le n c.id a.active, good.once n);
}

-- The connection stands in the list.
abbrev pub Has : Conn → List Conn → Type 0
Has c [] = ⊥
Has c (d ∷ ds) = (c ≡ d) ⊎ Has c ds

Has-last : (c : Conn) (cs : List Conn) → Has c (cs ++ c ∷ [])
Has-last c [] = inl refl
Has-last c (d ∷ ds) = inr (Has-last c ds)

-- A connection that is got is in use, and the lists are in order.
abbrev pub Gives : Option (Conn × Address) → Type 0
Gives none = Unit
Gives (some (c, a)) = IsCounted a × Has c a.active

pub connect-Gives :
    (r : ℕ) (socket : Option ℕ) (a : Address)
    → IsCounted a
    → ((n : ℕ) → socket ≡ some n → count n a.idle + count n a.active ≡ 0)
    → Gives (connect r socket a)
unfolding connect count
connect-Gives r none a good new = tt
connect-Gives r (some socket) a good new = (
  record {
    num = good.num;
    idle = good.idle;
    active = All-append false a.active _ good.active (refl, tt);
    once = λ n.
        let e =
          count-append n a.active (record { id = socket; request = some r; error = false } ∷ []) in
        ground (arith, e, good.once n, new socket refl);
  },
  Has-last _ a.active,
)

pub reuse-Gives :
    (r : ℕ) (cs : List Conn) (a : Address) → IsCounted a → a.idle ≡ cs → Gives (reuse r cs a)
unfolding reuse count
reuse-Gives r [] a good e = tt
reuse-Gives r (c ∷ rest) a good e = (
  record {
    num = ground (arith, good.num, ap (λ l. length l) e);
    idle = (subst (All (HasRequest true)) e good.idle).1;
    active = All-append false a.active _ good.active (refl, tt);
    once = λ n.
        let h = count-append n a.active (record c { request = some r } ∷ []) in
        let o = subst (λ l. count n l + count n a.active ≤ 1) e (good.once n) in
        ground (arith, h, o);
  },
  Has-last _ a.active,
)

pub put_idle-IsCounted :
    (c : Conn) (a : Address) → IsCounted a → count c.id a.idle ≡ 0 → IsCounted (put_idle c a)
unfolding put_idle count
put_idle-IsCounted c a good k = record {
  num = ground (
    arith,
    length-append (delete c.id a.idle) (record c { request = none } ∷ []),
    length-delete c.id a.idle,
    good.num,
  );
  idle = All-append true (delete c.id a.idle) _ (delete-All true c.id a.idle good.idle) (refl, tt);
  active = delete-All false c.id a.active good.active;
  once = λ n.
      let h = count-append n (delete c.id a.idle) (record c { request = none } ∷ []) in
      elim (ℕ_discrete c.id n) [
        | yes e ↦ ground (arith, h, count-delete_self c.id a.idle, count-delete_self c.id a.active)
        | no e ↦
            ground (
              arith,
              h,
              count-delete_le n c.id a.idle,
              count-delete_le n c.id a.active,
              good.once n,
            )
      ];
}

pub count-Has : (c : Conn) (cs : List Conn) → Has c cs → 1 ≤ count c.id cs
unfolding count
count-Has c [] h = elim h [ ]
count-Has c (d ∷ ds) (inl e) = ground (arith, ap (λ x. x.id) e)
count-Has c (d ∷ ds) (inr h) = ground (arith, count-Has c ds h)

pub Has-All :
    (b : Bool) (c : Conn) (cs : List Conn)
    → Has c cs
    → All (HasRequest b) cs
    → is_idle c.request ≡ b
Has-All b c [] h k = elim h [ ]
Has-All b c (d ∷ ds) (inl e) k = ap (λ x. is_idle x.request) e ∙ k.0
Has-All b c (d ∷ ds) (inr h) k = Has-All b c ds h k.1

pub close-IsCounted :
    (c : Conn) (a : Address)
    → IsCounted a
    → Has c a.idle ⊎ Has c a.active
    → IsCounted (close_connection c a)
close-IsCounted c a good (inl h) =
    close_connection-IsCounted c a good
      (ground (arith, good.once c.id, count-Has c a.idle h, Has-All true c a.idle h good.idle))
close-IsCounted c a good (inr h) =
    close_connection-IsCounted c a good (
      ground
        (arith, good.once c.id, count-Has c a.active h, Has-All false c a.active h good.active))
