-- ===== src/Upstream/Resolve/Clearing.antt =====
-- phl_upstream_resolve_hostname() in phl_upstream_resolve.c: what the end of a round leaves on the
-- lists.
use phorklift.Prelude.{
  ℕ, ◌+◌, ◌≡◌, refl, Bool, true, false, not, ◌&&◌, ◌||◌, List, [], ◌∷◌, ◌⊎◌, ◌++◌, length, map,
  ◌==◌, if◌then◌else◌, ap, sym, ◌∙◌, arith, Bool-cases, if_intro, ==_refl, ==_iff, inl, inr,
}
use mathlib.Core.List.{append-nil, append_assoc}
use phorklift.Upstream.Resolve.{Hostname, Upstream, has, without}
use phorklift.Upstream.Resolve.Rounds.{off_list, address_delete, clear}

-- The members of a list that pass a test.
unfoldable pub filter : (ℕ → Bool) → List ℕ → List ℕ
filter f [] = []
filter f (i ∷ ids) = let rest = filter f ids in if f i then i ∷ rest else rest

-- The marked ones.
abbrev pub is_deleted : Upstream → ℕ → Bool
is_deleted u i = (u.store i).resolve_deleted

-- What a loop over `ids` takes off the lists.
unfoldable pub goes : Upstream → List ℕ → ℕ → Bool
goes u ids i = has i ids && is_deleted u i

pub has-here : (i : ℕ) (ids : List ℕ) → has i (i ∷ ids) ≡ true
unfolding has
has-here i ids = rw (==_refl i)

pub has-there : (j i : ℕ) (ids : List ℕ) → has j ids ≡ true → has j (i ∷ ids) ≡ true
unfolding has
has-there j i ids h = ground arith

pub filter-all : (f : ℕ → Bool) (ids : List ℕ) → ((i : ℕ) → f i ≡ true) → filter f ids ≡ ids
unfolding filter
filter-all f [] e = refl
filter-all f (i ∷ ids) e = let a = e i in let b = filter-all f ids e in ground arith

pub filter-eq :
    (f g : ℕ → Bool) (ids : List ℕ)
    → ((i : ℕ) → has i ids ≡ true → f i ≡ g i)
    → filter f ids ≡ filter g ids
unfolding filter has
filter-eq f g [] e = refl
filter-eq f g (i ∷ ids) e =
    let a = e i (has-here i ids) in
    let b = filter-eq f g ids (λ j h. e j (has-there j i ids h)) in ground arith

filter-keep : (f : ℕ → Bool) (i : ℕ) (l : List ℕ) → f i ≡ true → filter f (i ∷ l) ≡ i ∷ filter f l
unfolding filter
filter-keep f i l e = rw e

filter-drop : (f : ℕ → Bool) (i : ℕ) (l : List ℕ) → f i ≡ false → filter f (i ∷ l) ≡ filter f l
unfolding filter
filter-drop f i l e = rw e

without-here : (a i : ℕ) (l : List ℕ) → (i == a) ≡ true → without a (i ∷ l) ≡ without a l
unfolding without
without-here a i l e = rw e

without-there : (a i : ℕ) (l : List ℕ) → (i == a) ≡ false → without a (i ∷ l) ≡ i ∷ without a l
unfolding without
without-there a i l e = rw e

filter-next :
    (f g : ℕ → Bool) (i : ℕ) (l k : List ℕ)
    → f i ≡ g i
    → filter f l ≡ filter g k
    → filter f (i ∷ l) ≡ filter g (i ∷ k)
unfolding filter
filter-next f g i l k e rest = rw (e, rest)

goes-past :
    (u : Upstream) (a : ℕ) (ids : List ℕ) (i : ℕ)
    → ((i == a) ≡ false) ⊎ (is_deleted u a ≡ false)
    → goes u (a ∷ ids) i ≡ goes u ids i
unfolding goes has
goes-past u a ids i (inl e) = rw e
goes-past u a ids i (inr d) = go (Bool-cases (i == a))
  where
    go :
        ((i == a) ≡ true) ⊎ ((i == a) ≡ false)
        → (((i == a) || has i ids) && is_deleted u i) ≡ (has i ids && is_deleted u i)
    go (inl t) = let e = ap (is_deleted u) ((==_iff i a).0 t) ∙ d in ground arith
    go (inr t) = rw t

goes-here :
    (u : Upstream) (a : ℕ) (ids : List ℕ) (i : ℕ)
    → (i == a) ≡ true
    → is_deleted u a ≡ true
    → goes u (a ∷ ids) i ≡ true
unfolding goes has
goes-here u a ids i t d = let e = ap (is_deleted u) ((==_iff i a).0 t) ∙ d in ground arith

filter-past :
    (u : Upstream) (a : ℕ) (ids l : List ℕ)
    → is_deleted u a ≡ false
    → filter (λ i. not (goes u ids i)) l ≡ filter (λ i. not (goes u (a ∷ ids) i)) l
filter-past u a ids l d = filter-eq _ _ l (λ i h. ap not (sym (goes-past u a ids i (inr d))))

filter-without :
    (u : Upstream) (a : ℕ) (ids l : List ℕ)
    → is_deleted u a ≡ true
    → filter (λ i. not (goes u ids i)) (without a l) ≡ filter (λ i. not (goes u (a ∷ ids) i)) l
unfolding filter without
filter-without u a ids [] d = refl
filter-without u a ids (i ∷ l) d = go (Bool-cases (i == a)) (filter-without u a ids l d)
  where
    go :
        ((i == a) ≡ true) ⊎ ((i == a) ≡ false)
        → filter (λ i. not (goes u ids i)) (without a l) ≡ filter (λ i. not (goes u (a ∷ ids) i)) l
        → filter (λ i. not (goes u ids i)) (without a (i ∷ l))
          ≡ filter (λ i. not (goes u (a ∷ ids) i)) (i ∷ l)
    go (inl t) rest =
        ap (filter (λ i. not (goes u ids i))) (without-here a i l t)
        ∙ rest
        ∙ sym (filter-drop (λ i. not (goes u (a ∷ ids) i)) i l (ap not (goes-here u a ids i t d)))
    go (inr t) rest =
        ap (filter (λ i. not (goes u ids i))) (without-there a i l t)
        ∙ filter-next _ (λ i. not (goes u (a ∷ ids) i)) i (without a l) l
            (ap not (sym (goes-past u a ids i (inl t)))) rest

-- The nodes of a hostname that a test leaves.
unfoldable pub strip : (ℕ → Bool) → Hostname → Hostname
strip f h = record h { address_head = filter f h.address_head }

map-eq :
    (f g : Hostname → Hostname) (k : Hostname → Hostname) (hs : List Hostname)
    → ((h : Hostname) → f (k h) ≡ g h)
    → map f (map k hs) ≡ map g hs
map-eq f g k [] e = refl
map-eq f g k (h ∷ hs) e =
    ap (λ x. x ∷ map f (map k hs)) (e h) ∙ ap (λ l. g h ∷ l) (map-eq f g k hs e)

map-all :
    (f g : Hostname → Hostname) (hs : List Hostname)
    → ((h : Hostname) → f h ≡ g h)
    → map f hs ≡ map g hs
map-all f g [] e = refl
map-all f g (h ∷ hs) e = ap (λ x. x ∷ map f hs) (e h) ∙ ap (λ l. g h ∷ l) (map-all f g hs e)

map_same : (hs : List Hostname) → map (λ h. h) hs ≡ hs
map_same [] = refl
map_same (h ∷ hs) = ap (λ l. h ∷ l) (map_same hs)

strip-all : (h : Hostname) → strip (λ i. true) h ≡ h
unfolding strip
strip-all h = ap (λ l. record h { address_head = l }) (filter-all _ (h.address_head) (λ i. refl))

strip-eq :
    (f g : ℕ → Bool) (h k : Hostname)
    → filter f (h.address_head) ≡ filter g (k.address_head)
    → record h { address_head = [] } ≡ record k { address_head = [] }
    → strip f h ≡ strip g k
unfolding strip
strip-eq f g h k e t =
    ap (λ l. record h { address_head = l }) e
    ∙ ap (λ (x : Hostname). record x { address_head = filter g (k.address_head) }) t

-- What a loop over the nodes leaves, against the lists and the counter before.
pub record Cleared (ids : List ℕ) (u v : Upstream) : Type 0 where
  pub store : v.store ≡ u.store
  pub heads : v.address_head ≡ filter (λ i. not (goes u ids i)) u.address_head
  pub hosts : v.hostnames ≡ map (strip (λ i. not (goes u ids i))) u.hostnames
  pub number : v.address_num ≡ u.address_num + length (filter (λ i. not (is_deleted u i)) ids)
  pub later : v.deleted_address_defer ≡ u.deleted_address_defer ++ filter (is_deleted u) ids
  pub same : (v.balancer ≡ u.balancer) × (v.resolve_updated ≡ u.resolve_updated)

step-deleted :
    (a : ℕ) (ids : List ℕ) (u v : Upstream)
    → is_deleted u a ≡ true
    → Cleared ids (address_delete a u) v
    → Cleared (a ∷ ids) u v
unfolding address_delete off_list goes without filter
step-deleted a ids u v d c = record {
  store = c.store;
  heads = c.heads ∙ filter-without u a ids u.address_head d;
  hosts =
      c.hosts
      ∙ map-eq _ _ (off_list a) u.hostnames
          (λ h. strip-eq _ _ (off_list a h) h (filter-without u a ids (h.address_head) d) refl);
  number =
      c.number
      ∙ ap (λ l. u.address_num + length l)
          (sym (filter-drop (λ i. not (is_deleted u i)) a ids (ap not d)));
  later =
      c.later
      ∙ append_assoc u.deleted_address_defer (a ∷ []) (filter (is_deleted u) ids)
      ∙ ap (λ l. u.deleted_address_defer ++ l) (sym (filter-keep (is_deleted u) a ids d));
  same = c.same;
}

step-kept :
    (a : ℕ) (ids : List ℕ) (u v : Upstream)
    → is_deleted u a ≡ false
    → Cleared ids (record u { address_num = u.address_num + 1 }) v
    → Cleared (a ∷ ids) u v
unfolding goes filter strip
step-kept a ids u v d c = record {
  store = c.store;
  heads = c.heads ∙ filter-past u a ids u.address_head d;
  hosts =
      c.hosts
      ∙ map-all _ _ u.hostnames
          (λ h. strip-eq _ _ h h (filter-past u a ids (h.address_head) d) refl);
  number =
      let l = ap length (filter-keep (λ i. not (is_deleted u i)) a ids (ap not d)) in
      let n = c.number in omega arith;
  later =
      c.later ∙ ap (λ l. u.deleted_address_defer ++ l) (sym (filter-drop (is_deleted u) a ids d));
  same = c.same;
}

pub clear-Cleared : (ids : List ℕ) (u : Upstream) → Cleared ids u (clear ids u)
unfolding clear filter goes has strip
clear-Cleared [] u = record {
  store = refl;
  heads = sym (filter-all _ u.address_head (λ i. refl));
  hosts =
      sym (
        map-all (strip (λ i. true)) (λ h. h) u.hostnames (λ h. strip-all h) ∙ map_same u.hostnames);
  number = omega arith;
  later = sym (append-nil u.deleted_address_defer);
  same = (refl, refl);
}
clear-Cleared (a ∷ ids) u =
    if_intro (λ (v : Upstream). Cleared (a ∷ ids) u (clear ids v)) ((u.store a).resolve_deleted) _ _
      (λ d. step-deleted a ids u _ d (clear-Cleared ids (address_delete a u)))
      (λ d.
        step-kept a ids u _ d (clear-Cleared ids (record u { address_num = u.address_num + 1 })))
