-- ===== src/Upstream/Retry.antt =====
-- phl_upstream_retry_connection() of phl_upstream.c: another connection instead of one that failed.
mod Tests
use phorklift.Prelude.{
  ℕ, ◌≡◌, ◌≢◌, refl, Bool, true, false, Option, List, [], ◌∷◌, ◌==◌, if◌then◌else◌, arith, if_intro,
  ◌||◌, not, ap, ◌∙◌,
}
use phorklift.Upstream.Failure.{Failure, FailureConf, is_pickable}
use phorklift.Upstream.Pool.{Conn, Address, release_connection, close_connection}

-- "mark this down temporarily to avoid picked again", on the time of the active check.
pub mark : ℕ → ℕ
mark down_time = if down_time == 0 then 1 else down_time

-- "recover"
pub unmark : ℕ → ℕ
unmark down_time = if down_time == 1 then 0 else down_time

-- phl_upstream_retry_connection(): the old connection is released as one that is not clean, and
-- `get` is phl_upstream_get_connection(), which sees the marked time and the other connections of
-- the address. The time is that of the address afterwards.
pub retry_connection {ℓ} : {A : Type ℓ} → ℕ → (ℕ → Address → A) → Conn → Address → ℕ → A × ℕ
retry_connection idle_max get old a down_time =
    (get (mark down_time) (release_connection idle_max false false old a), unmark (mark down_time))

mark_down :
    (conf : FailureConf) (f : Failure) (now : ℕ) (active : Bool) (filter : Option Bool)
    (down_time : ℕ)
    → is_pickable conf f (mark down_time) now active filter ≡ false
unfolding mark is_pickable
mark_down conf f now active filter down_time = ground arith

unmark-mark : (down_time : ℕ) → down_time ≢ 1 → unmark (mark down_time) ≡ down_time
unfolding mark unmark
unmark-mark down_time h = ground arith

always : (b : Bool) (x y : Address) → (if b || true || false then x else y) ≡ x
always true x y = refl
always false x y = refl

release-closes :
    (idle_max : ℕ) (old : Conn) (a : Address)
    → release_connection idle_max false false old a ≡ close_connection old a
unfolding release_connection
release-closes idle_max old a = always old.error _ _

-- While the new connection is got, the old one is closed, whatever its error flag, and its address
-- does not count as pickable. Afterwards the time of the active check is what it was, unless
-- it was 1.
pub retry-avoids :
    (idle_max : ℕ) (conf : FailureConf) (f : Failure) (now : ℕ) (active : Bool)
    (filter : Option Bool) (old : Conn) (a : Address) (down_time : ℕ)
    → down_time ≢ 1
    → retry_connection {A = Bool × Address} idle_max
        (λ t a'. (is_pickable conf f t now active filter, a'))
        old
        a
        down_time
      ≡ ((false, close_connection old a), down_time)
unfolding retry_connection
retry-avoids idle_max conf f now active filter old a down_time h =
    ap (λ b. ((b, release_connection idle_max false false old a), unmark (mark down_time)))
      (mark_down conf f now active filter down_time)
    ∙ ap (λ c. ((false, c), unmark (mark down_time))) (release-closes idle_max old a)
    ∙ ap (λ t. ((false, close_connection old a), t)) (unmark-mark down_time h)
