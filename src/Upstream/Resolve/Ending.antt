-- ===== src/Upstream/Resolve/Ending.antt =====
-- phl_upstream_resolve_hostname() and phl_upstream_address_defer_free() in phl_upstream_resolve.c: the
-- end of a round, and the release of what it took off.
use phorklift.Prelude.{
  ℕ, ◌≡◌, refl, true, false, not, ◌&&◌, ◌||◌, ◌⊎◌, List, [], ◌∷◌, ◌++◌, length, map, ◌==◌,
  if◌then◌else◌, ap, sym, ◌∙◌, arith, inl, inr, if_intro, subst,
}
use phorklift.Upstream.Resolve.{Upstream, has}
use phorklift.Upstream.Resolve.Rounds.{clear, updated, finish, free_address, free_loop}
use phorklift.Upstream.Resolve.Clearing.{
  filter, filter-eq, strip, is_deleted, goes, Cleared, clear-Cleared, has-here,
}

-- What the end of a round makes of the lists: the marked addresses go, the counter is right, and the
-- load balancer has the new list, unless that is empty.
pub record Ended (u v : Upstream) : Type 0 where
  pub store : v.store ≡ u.store
  pub heads : v.address_head ≡ filter (λ i. not (is_deleted u i)) u.address_head
  pub hosts :
      v.hostnames ≡ map (strip (λ i. not (has i u.address_head && is_deleted u i))) u.hostnames
  pub later :
      v.deleted_address_defer ≡ u.deleted_address_defer ++ filter (is_deleted u) u.address_head
  pub number : v.address_num ≡ length v.address_head
  pub served :
      ((v.address_num ≡ 0) × (v.balancer ≡ u.balancer) × (v.resolve_updated ≡ true))
      ⊎ (((v.address_num == 0) ≡ false)
          × (v.balancer ≡ v.address_head)
          × (v.resolve_updated ≡ false)
          × (v.wait_head ≡ []))

goes-all :
    (u : Upstream)
    → filter (λ i. not (goes u u.address_head i)) u.address_head
      ≡ filter (λ i. not (is_deleted u i)) u.address_head
unfolding goes
goes-all u = filter-eq _ _ u.address_head (λ i h. ap (λ b. not (b && is_deleted u i)) h)

updated-Ended :
    (u w : Upstream)
    → u.resolve_updated ≡ true
    → Cleared u.address_head (record u { resolve_index = 0; address_num = 0 }) w
    → Ended u (updated w)
unfolding updated goes
updated-Ended u w e c =
    if_intro (Ended u) (w.address_num == 0) _ _
      (λ z. record {
        store = c.store;
        heads = c.heads ∙ goes-all u;
        hosts = c.hosts;
        later = c.later;
        number = count;
        served = inl (ground arith, c.same.0, c.same.1 ∙ e);
      })
      (λ z. record {
        store = c.store;
        heads = c.heads ∙ goes-all u;
        hosts = c.hosts;
        later = c.later;
        number = count;
        served = inr (z, refl, refl, refl);
      })
  where
    count : w.address_num ≡ length w.address_head
    count = let l = ap length (c.heads ∙ goes-all u) in let n = c.number in omega arith

-- At the end of a round in which something has changed, the marked addresses, and no others, are off
-- the list of the upstream and off the lists of the hostnames, and wait to be freed; `address_num` is
-- the number that is left. If that is 0, the load balancer keeps its old list and the round counts
-- as unfinished; else the load balancer has the new list, and no request waits.
pub finish-Ended : (u : Upstream) → u.resolve_updated ≡ true → Ended u (finish u)
unfolding finish
finish-Ended u e =
    subst
      (λ b. Ended u (
        if b
        then updated (clear u.address_head (record u { resolve_index = 0; address_num = 0 }))
        else record u { resolve_index = 0 }))
      (sym e) (updated-Ended u _ e (clear-Cleared u.address_head _))

pub has-append : (i : ℕ) (k l : List ℕ) → has i (k ++ l) ≡ has i k || has i l
unfolding has
has-append i [] l = refl
has-append i (x ∷ k) l = let rest = has-append i k l in ground arith

free_loop-keeps :
    (i : ℕ) (ids : List ℕ) (u : Upstream)
    → has i u.freed ≡ true
    → has i (free_loop ids u).freed ≡ true
unfolding free_loop free_address
free_loop-keeps i [] u h = h
free_loop-keeps i (j ∷ ids) u h =
    if_intro (λ (v : Upstream). has i (free_loop ids v).freed ≡ true) ((u.store j).connected) _ _
      (λ c. free_loop-keeps i ids u h)
      (λ c.
        free_loop-keeps i ids (free_address j u)
          (let a = has-append i u.freed (j ∷ []) in ground arith))

has-split : (i j : ℕ) (ids : List ℕ) → has i (j ∷ ids) ≡ true → (i ≡ j) ⊎ (has i ids ≡ true)
unfolding has
has-split i j ids h = ground arith

has-last : (i : ℕ) (l : List ℕ) → has i (l ++ i ∷ []) ≡ true
has-last i l = let a = has-append i l (i ∷ []) in let b = has-here i [] in ground arith

free_loop-frees :
    (i : ℕ) (ids : List ℕ) (u : Upstream)
    → has i ids ≡ true
    → (u.store i).connected ≡ false
    → has i (free_loop ids u).freed ≡ true
unfolding free_loop free_address has
free_loop-frees i [] u h c = cc
free_loop-frees i (j ∷ ids) u h c =
    if_intro (λ (v : Upstream). has i (free_loop ids v).freed ≡ true) ((u.store j).connected) _ _
      (λ t. elim (has-split i j ids h) [
        | inl e ↦ let no : ⊥ = let d = ap (λ k. (u.store k).connected) e in cc in elim no [ ]
        | inr r ↦ free_loop-frees i ids u r c
      ])
      (λ t. elim (has-split i j ids h) [
        | inl e ↦
            free_loop-keeps i ids (free_address j u)
              (subst (λ k. has i (u.freed ++ k ∷ []) ≡ true) e (has-last i u.freed))
        | inr r ↦ free_loop-frees i ids (free_address j u) r c
      ])
