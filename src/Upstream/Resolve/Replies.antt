-- ===== src/Upstream/Resolve/Replies.antt =====
-- phl_upstream_resolve_on_read() in phl_upstream_resolve.c: what the addresses of a hostname are after
-- an answer.
use phorklift.Prelude.{
  ℕ, ◌<◌, ◌≤◌, ◌≡◌, refl, true, false, Option, none, some, List, [], ◌∷◌, map, ◌==◌, if◌then◌else◌,
  ap, sym, ◌∙◌, arith, ==_refl,
}
use phorklift.Upstream.Resolve.{
  Sock, Address, Hostname, Upstream, Making, write, has, with_port, address_add,
}
use phorklift.Upstream.Resolve.Diff.{Merged, with_node, mark, mark_all, added, against, diff}
use Prim.Native.Nat.{Ordering, compare}

-- What the merge relies on: the comparison orders socket addresses by some number, which a change of
-- the port leaves as it is.
pub record IsAddrCmp (cmp : Sock → Sock → Ordering) : Type 0 where
  pub rank : Sock → ℕ
  pub compares : (a b : Sock) → cmp a b ≡ compare (rank a) (rank b)
  pub port_free : (port : ℕ) (a : Sock) → rank (with_port port a) ≡ rank a

-- A list of nodes as the merge finds it: in the store, no one marked, no one twice.
abbrev pub Sound : Upstream → List ℕ → Type 0
Sound u [] = Unit
Sound u (i ∷ ids) =
    (i < u.fresh) × ((u.store i).resolve_deleted ≡ false) × (has i ids ≡ false) × Sound u ids

-- The memory of the addresses that are not on the list is as before.
abbrev pub Frame : List ℕ → Upstream → Upstream → Type 0
Frame ids u v = (i : ℕ) → i < u.fresh → has i ids ≡ false → v.store i ≡ u.store i

pub has-cons :
    (i j : ℕ) (ids : List ℕ) → has i (j ∷ ids) ≡ false → ((j == i) ≡ false) × (has i ids ≡ false)
unfolding has
has-cons i j ids e = ground arith

cons-has : (i j : ℕ) (ids : List ℕ) → (j == i) ≡ false → has i ids ≡ false → has i (j ∷ ids) ≡ false
unfolding has
cons-has i j ids e n = ground arith

pub write-same : (st : ℕ → Address) (i : ℕ) (x : Address) → write st i x i ≡ x
unfolding write
write-same st i x = rw (==_refl i)

pub write-other :
    (st : ℕ → Address) (i : ℕ) (x : Address) (j : ℕ) → (j == i) ≡ false → write st i x j ≡ st j
unfolding write
write-other st i x j e = rw e

eq_sym : (i j : ℕ) → (i == j) ≡ false → (j == i) ≡ false
eq_sym i j e = ground arith

pub eq_of_compare : (a b : ℕ) → compare a b ≡ Ordering.eq → b ≡ a
eq_of_compare a b e = ground arith

pub ne_of_lt : (i j : ℕ) → i < j → (i == j) ≡ false
ne_of_lt i j h = ground arith

pub Sound-fresh : (u : Upstream) (ids : List ℕ) → Sound u ids → has u.fresh ids ≡ false
unfolding has
Sound-fresh u [] s = refl
Sound-fresh u (j ∷ ids) (b, d, n, s) = let h = Sound-fresh u ids s in ground arith

pub Sound-frame :
    (u v : Upstream) (i : ℕ) (ids : List ℕ)
    → Sound u ids
    → has i ids ≡ false
    → u.fresh ≤ v.fresh
    → ((j : ℕ) → (j == i) ≡ false → v.store j ≡ u.store j)
    → Sound v ids
Sound-frame u v i [] s e l f = tt
Sound-frame u v i (j ∷ ids) (b, d, n, s) e l f =
    let h = has-cons i j ids e in
    (omega arith, ap (λ x. x.resolve_deleted) (f j (h.0)) ∙ d, n, Sound-frame u v i ids s (h.1) l f)

pub Sound-mark :
    (u : Upstream) (i : ℕ) (ids : List ℕ) → Sound u ids → has i ids ≡ false → Sound (mark i u) ids
unfolding mark
Sound-mark u i ids s n =
    Sound-frame u (mark i u) i ids s n (omega arith) (λ j e. write-other u.store i _ j e)

module _ (cmp : Sock → Sock → Ordering) (law : IsAddrCmp cmp) where
  open law use {rank}

  -- The addresses of a list that are not marked, in order, by their numbers in the comparison.
  unfoldable pub live : Upstream → List ℕ → List ℕ
  live u [] = []
  live u (i ∷ ids) =
      let rest = live u ids in
      if (u.store i).resolve_deleted then rest else rank ((u.store i).sockaddr) ∷ rest

  live-dead :
      (v : Upstream) (i : ℕ) (ids : List ℕ)
      → (v.store i).resolve_deleted ≡ true
      → live v (i ∷ ids) ≡ live v ids
  unfolding live
  live-dead v i ids e = rw e

  live-alive :
      (v : Upstream) (i : ℕ) (ids : List ℕ)
      → (v.store i).resolve_deleted ≡ false
      → live v (i ∷ ids) ≡ rank ((v.store i).sockaddr) ∷ live v ids
  unfolding live
  live-alive v i ids e = rw e

  pub record Took (answer : List Sock) (ids : List ℕ) (u : Upstream) (r : Merged) : Type 0 where
    pub lists : live (r.1) (r.0) ≡ map rank answer
    pub frame : Frame ids u (r.1)

  dead-node :
      (answer : List Sock) (i : ℕ) (ids : List ℕ) (u : Upstream) (r : Merged)
      → has i ids ≡ false
      → i < u.fresh
      → Took answer ids (mark i u) r
      → Took answer (i ∷ ids) u (with_node i r)
  unfolding mark
  dead-node answer i ids u r n b t =
      let same : (r.1).store i ≡ record (u.store i) { resolve_deleted = true } =
        t.frame i b n ∙ write-same u.store i _ in
      record {
        lists = live-dead (r.1) i (r.0) (ap (λ x. x.resolve_deleted) same) ∙ t.lists;
        frame = λ j l e.
            let h = has-cons j i ids e in
            t.frame j l (h.1) ∙ write-other u.store i _ j (eq_sym i j (h.0));
      }

  mark_all-Took : (ids : List ℕ) (u : Upstream) → Sound u ids → Took [] ids u (mark_all ids u)
  unfolding mark_all live
  mark_all-Took [] u s = record { lists = refl; frame = λ i l e. refl }
  mark_all-Took (i ∷ ids) u (b, d, n, s) =
      dead-node [] i ids u _ n b (mark_all-Took ids (mark i u) (Sound-mark u i ids s n))

  module _ (m : Making) (h : Hostname) where
    -- An answer that the comparison finds on the list.
    same-node :
        (s : Sock) (answer : List Sock) (i : ℕ) (ids : List ℕ) (u : Upstream) (r : Merged)
        → i < u.fresh
        → has i ids ≡ false
        → (u.store i).resolve_deleted ≡ false
        → rank ((u.store i).sockaddr) ≡ rank s
        → Took answer ids u r
        → Took (s ∷ answer) (i ∷ ids) u (with_node i r)
    same-node s answer i ids u r b n d e t =
        let same = t.frame i b n in
        record {
          lists =
              live-alive (r.1) i (r.0) (ap (λ x. x.resolve_deleted) same ∙ d)
              ∙ ap (λ x. rank (x.sockaddr) ∷ live (r.1) (r.0)) same
              ∙ ap (λ k. k ∷ live (r.1) (r.0)) e
              ∙ ap (λ l. rank s ∷ l) t.lists;
          frame = λ j l e'. t.frame j l ((has-cons j i ids e').1);
        }

    new-node :
        (s : Sock) (before : Option ℕ) (answer : List Sock) (ids : List ℕ) (u : Upstream)
        (r : Merged)
        → has u.fresh ids ≡ false
        → Took answer ids (added cmp m h s before u) r
        → Took (s ∷ answer) ids u (with_node u.fresh r)
    unfolding added address_add
    new-node s before answer ids u r n t =
        let same = t.frame u.fresh (omega arith) n ∙ write-same u.store u.fresh _ in
        record {
          lists =
              live-alive (r.1) u.fresh (r.0) (ap (λ x. x.resolve_deleted) same)
              ∙ ap (λ x. rank (x.sockaddr) ∷ live (r.1) (r.0)) same
              ∙ ap (λ k. k ∷ live (r.1) (r.0)) (law.port_free h.port s)
              ∙ ap (λ l. rank s ∷ l) t.lists;
          frame = λ j l e.
              t.frame j (omega arith) e ∙ write-other u.store u.fresh _ j (ne_of_lt j u.fresh l);
        }

    pub Sound-added :
        (s : Sock) (before : Option ℕ) (ids : List ℕ) (u : Upstream)
        → Sound u ids
        → Sound (added cmp m h s before u) ids
    unfolding added address_add
    Sound-added s before ids u sound =
        Sound-frame u (added cmp m h s before u) u.fresh ids sound (Sound-fresh u ids sound)
          (omega arith) (λ j e. write-other u.store u.fresh _ j e)

    -- One address of the answer, if the rest of the answer is taken.
    abbrev pub Rest : List Sock → (List ℕ → Upstream → Merged) → Type 0
    Rest answer rest = (ids : List ℕ) (u : Upstream) → Sound u ids → Took answer ids u (rest ids u)

    pub against-Took :
        (s : Sock) (answer : List Sock) (rest : List ℕ → Upstream → Merged)
        → Rest answer rest
        → Rest (s ∷ answer) (against cmp m h s rest)
    unfolding against has
    against-Took s answer rest f [] u sound = new-node s none answer [] u _ refl (f [] _ tt)
    against-Took s answer rest f (i ∷ ids) u (b, d, n, sound) =
        go (cmp s ((u.store i).sockaddr)) refl
          (against-Took s answer rest f ids (mark i u) (Sound-mark u i ids sound n))
      where
        go :
            (o : Ordering)
            → cmp s ((u.store i).sockaddr) ≡ o
            → Took (s ∷ answer) ids (mark i u) (against cmp m h s rest ids (mark i u))
            → Took (s ∷ answer) (i ∷ ids) u (elim o [
              | Ordering.eq ↦ with_node i (rest ids u)
              | Ordering.lt ↦ with_node u.fresh (rest (i ∷ ids) (added cmp m h s (some i) u))
              | Ordering.gt ↦ with_node i (against cmp m h s rest ids (mark i u))
            ])
        go Ordering.eq e tail =
            same-node s answer i ids u _ b n d
              (eq_of_compare _ _ (sym (law.compares s ((u.store i).sockaddr)) ∙ e)) (f ids u sound)
        go Ordering.lt e tail =
            new-node s (some i) answer (i ∷ ids) u _ (Sound-fresh u (i ∷ ids) (b, d, n, sound))
              (f (i ∷ ids) _ (Sound-added s (some i) (i ∷ ids) u (b, d, n, sound)))
        go Ordering.gt e tail = dead-node (s ∷ answer) i ids u _ n b tail

    pub diff-Took : (answer : List Sock) → Rest answer (diff cmp m h answer)
    unfolding diff
    diff-Took [] = mark_all-Took
    diff-Took (s ∷ answer) = against-Took s answer (diff cmp m h answer) (diff-Took answer)

    -- Whatever the order of an answer, the addresses of a hostname that are not marked as deleted after
    -- it was merged are, in order, those of the answer, as the comparison tells them apart. The list
    -- before has no marked address and no address twice, and all of them are in the store.
    pub diff-live :
        (answer : List Sock) (ids : List ℕ) (u : Upstream)
        → Sound u ids
        → let r = diff cmp m h answer ids u in live (r.1) (r.0) ≡ map rank answer
    diff-live answer ids u sound = (diff-Took answer ids u sound).lists
