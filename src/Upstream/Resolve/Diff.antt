-- ===== src/Upstream/Resolve/Diff.antt =====
-- phl_upstream_resolve_on_read() in phl_upstream_resolve.c: the merge of an answer into the list of
-- a hostname. The result is the list from the node on, and the upstream.
use phorklift.Prelude.{ℕ, true, Option, none, some, List, [], ◌∷◌}
use phorklift.Upstream.Resolve.{Sock, Hostname, Upstream, Making, write, address_add}
use Prim.Native.Nat.{Ordering}

abbrev pub Merged : Type 0
Merged = List ℕ × Upstream

abbrev pub with_node : ℕ → Merged → Merged
with_node i r = (i ∷ r.0, r.1)

-- `address->resolve_deleted = true; upstream->resolve_updated = true`
unfoldable pub mark : ℕ → Upstream → Upstream
mark i u = record u {
  store = write u.store i (record (u.store i) { resolve_deleted = true });
  resolve_updated = true;
}

-- "delete address", for the nodes that are left
unfoldable pub mark_all : List ℕ → Upstream → Merged
mark_all [] u = ([], u)
mark_all (i ∷ ids) u = with_node i (mark_all ids (mark i u))

-- `cmp` is wuy_sockaddr_addrcmp().
module _ (cmp : Sock → Sock → Ordering) (m : Making) (h : Hostname) where
  unfoldable pub added : Sock → Option ℕ → Upstream → Upstream
  added s before u = record (address_add m h s before u) { resolve_updated = true }

  -- One address of the answer against the nodes; `rest` goes on with the next one.
  unfoldable pub against : Sock → (List ℕ → Upstream → Merged) → List ℕ → Upstream → Merged
  against s rest [] u = with_node u.fresh (rest [] (added s none u))
  against s rest (i ∷ ids) u = elim (cmp s ((u.store i).sockaddr)) [
    | Ordering.eq ↦ with_node i (rest ids u)
    | Ordering.lt ↦ with_node u.fresh (rest (i ∷ ids) (added s (some i) u))
    | Ordering.gt ↦ with_node i (against s rest ids (mark i u))
  ]

  unfoldable pub diff : List Sock → List ℕ → Upstream → Merged
  diff [] = mark_all
  diff (s ∷ answer) = against s (diff answer)
