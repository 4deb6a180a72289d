-- ===== src/Upstream/Resolve/Rounds.antt =====
-- phl_upstream_resolve_hostname(), phl_upstream_address_delete(), phl_upstream_address_defer_free() and
-- the handlers in phl_upstream_resolve.c: a round asks for one hostname after the other, then drops
-- the addresses that are gone and updates the load balancer.
use phorklift.Prelude.{
  ℕ, zero, suc, ◌+◌, ◌-◌, false, Option, none, some, List, [], ◌∷◌, ◌++◌, map, drop, get_elem?,
  ◌==◌, if◌then◌else◌,
}
use phorklift.Upstream.Resolve.{Sock, Hostname, Upstream, Making, without}
use phorklift.Upstream.Resolve.Stats.{Slot, Counters, slot, fake, own, at}
use phorklift.Upstream.Resolve.Diff.{diff}
use Prim.Native.Nat.{Ordering}

unfoldable pub off_list : ℕ → Hostname → Hostname
off_list i h = record h { address_head = without i h.address_head }

-- phl_upstream_address_delete()
unfoldable pub address_delete : ℕ → Upstream → Upstream
address_delete i u = record u {
  hostnames = map (off_list i) u.hostnames;
  address_head = without i u.address_head;
  deleted_address_defer = u.deleted_address_defer ++ i ∷ [];
}

abbrev pub dropped_ref : Counters → List Slot → List Slot
dropped_ref (slot i) slots = at i (λ s. record s { refs = s.refs - 1 }) slots
dropped_ref fake slots = slots
dropped_ref (own t) slots = slots

unfoldable pub free_address : ℕ → Upstream → Upstream
free_address i u = record u {
  slots = dropped_ref ((u.store i).stats) u.slots;
  deleted_address_defer = without i u.deleted_address_defer;
  freed = u.freed ++ i ∷ [];
}

unfoldable pub free_loop : List ℕ → Upstream → Upstream
free_loop [] u = u
free_loop (i ∷ ids) u = free_loop ids (if (u.store i).connected then u else free_address i u)

-- phl_upstream_address_defer_free()
unfoldable pub defer_free : Upstream → Upstream
defer_free u = free_loop u.deleted_address_defer u

-- "clear deleted addresses, just before loadbalance->update()"
unfoldable pub clear : List ℕ → Upstream → Upstream
clear [] u = u
clear (i ∷ ids) u = clear ids (
    if (u.store i).resolve_deleted
    then address_delete i u
    else record u { address_num = u.address_num + 1 })

-- The update of the load balancer, and the requests that wait for it.
unfoldable pub updated : Upstream → Upstream
updated u = if u.address_num == 0 then u else record u {
  balancer = u.address_head;
  resolve_updated = false;
  wait_head = [];
  woken = u.woken ++ u.wait_head;
}

-- "no picked. finish resolve all hostnames"
unfoldable pub finish : Upstream → Upstream
finish u =
    if u.resolve_updated
    then updated (clear u.address_head (record u { resolve_index = 0; address_num = 0 }))
    else record u { resolve_index = 0 }

-- The index after that of the next hostname that is to be resolved.
unfoldable pub next_hostname : ℕ → List Hostname → Option ℕ
next_hostname i [] = none
next_hostname i (h ∷ rest) =
    let later = next_hostname (suc i) rest in if h.need_resolved then some (suc i) else later

-- phl_upstream_resolve_hostname()
unfoldable pub resolve_hostname : Upstream → Upstream
resolve_hostname u = elim (next_hostname u.resolve_index (drop u.resolve_index u.hostnames)) [
  | some i ↦ record u { resolve_index = i; asked = u.asked ++ (i - 1) ∷ [] }
  | none ↦ finish u
]

unfoldable pub set_hostname : ℕ → Hostname → List Hostname → List Hostname
set_hostname i h [] = []
set_hostname zero h (x ∷ rest) = h ∷ rest
set_hostname (suc i) h (x ∷ rest) = x ∷ set_hostname i h rest

-- The resolver's answer: "ERROR" or the addresses.
pub data Reply : Type 0 where
  error : Reply
  addresses : List Sock → Reply

module _ (cmp : Sock → Sock → Ordering) (m : Making) where
  -- The answer is for `hostnames[resolve_index - 1]`, which there always is.
  unfoldable pub merged : Reply → Upstream → Upstream
  merged error u = u
  merged (addresses answer) u = elim (get_elem? u.hostnames (u.resolve_index - 1)) [
    | none ↦ u
    | some h ↦
        let r = diff cmp m h answer h.address_head u in
        record (r.1) {
          hostnames =
              set_hostname (u.resolve_index - 1) (record h { address_head = r.0 }) u.hostnames;
        }
  ]

  -- phl_upstream_resolve_on_read()
  unfoldable pub on_read : Reply → Upstream → Upstream
  on_read reply u = resolve_hostname (merged reply u)

-- phl_upstream_resolve_timer_handler(); "in processing already" leaves the round alone.
unfoldable pub timer_handler : Upstream → Upstream
timer_handler u = if u.resolve_index == 0 then resolve_hostname (defer_free u) else u
