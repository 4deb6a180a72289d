-- ===== src/Dynamic/Serving.antt =====
-- phl_dynamic.c: what phl_dynamic_get() serves, and the subs it leaves behind.
use phorklift.Prelude.{
  ℕ, suc, zero, ◌≡◌, ◌≢◌, refl, Bool, true, false, not, Option, none, some, List, [], ◌∷◌, ◌++◌,
  length, Text, ltb, leb, ◌==◌, if◌then◌else◌, arith, if_intro, ap,
}
use phorklift.Dynamic.{
  Settings, Sub, Father, Value, a_string, a_table, something, Ran, lua_error, lua_again, answered,
  Call, Answer, container, fails, lookup, popped, need_get_conf, failed, pop_run, wake, drop_sub,
  delete, holder, new_sub, stale, parsed_sub, tagged, with_value, with_status, get_conf, refresh,
  hit, search_cache, named, get,
}
use phorklift.Dynamic.Subs.{
  IsSub, AreSubs, edit-AreSubs, remove-AreSubs, lookup-IsSub, popped-IsSub,
}

-- What is served has a configuration.
abbrev pub Served : Answer → Type 0
Served (container s) = s.is_just_holder ≡ false
Served _ = Unit

-- What is served, and a dictionary in order.
pub record IsServing (o : Answer × List Sub) : Type 0 where
  pub served : Served o.0
  pub subs : AreSubs o.1

-- The hash of a string is not 0.
abbrev pub IsHashed : Ran → Type 0
IsHashed (answered code (a_string h)) = h ≢ 0
IsHashed _ = Unit

module _ (run : ℕ → List Sub → List Sub) (dict_get : Text → List Sub → Option Sub) (father : Father)
    (runs : (r : ℕ) (ss : List Sub) → AreSubs ss → AreSubs (run r ss))
    (gets : (name : Text) (ss : List Sub) (s : Sub)
      → dict_get name ss ≡ some s
      → lookup s.id ss ≡ some s) where
  abbrev Serves : Answer × List Sub → Type 0
  Serves (a, ss) = Served a × AreSubs ss

  pop_run-AreSubs :
      (again : List Sub → List ℕ × List Sub) (id : ℕ) (o : Option (ℕ × List ℕ)) (ss : List Sub)
      → popped (lookup id ss) ≡ o
      → ((ss' : List Sub) → AreSubs ss' → AreSubs (again ss').1)
      → AreSubs ss
      → AreSubs (pop_run run dict_get father again id o ss).1
  unfolding pop_run
  pop_run-AreSubs again id none ss e k a = a
  pop_run-AreSubs again id (some (r, rest)) ss e k a =
      k _ (runs r _ (edit-AreSubs id _ ss (λ s l h. popped-IsSub (lookup id ss) s r rest l e h) a))

  wake-AreSubs :
      (fuel id : ℕ) (ss : List Sub) → AreSubs ss → AreSubs (wake run dict_get father fuel id ss).1
  unfolding wake
  wake-AreSubs zero id ss a = a
  wake-AreSubs (suc fuel) id ss a =
      pop_run-AreSubs (wake run dict_get father fuel id) id _ ss refl (wake-AreSubs fuel id) a

  drop_sub-AreSubs :
      (now id : ℕ) (o : Option Sub) (ss : List Sub)
      → AreSubs ss
      → AreSubs (drop_sub run dict_get father now id o ss)
  unfolding drop_sub
  drop_sub-AreSubs now id none ss a = a
  drop_sub-AreSubs now id (some s) ss a =
      if_intro AreSubs (s.sub_num == 0) _ _ (λ e. remove-AreSubs id ss a)
        (λ e. edit-AreSubs id _ ss (λ s' l h. record { quiet = h.quiet; bare = h.bare }) a)

  delete-AreSubs :
      (now : ℕ) (s : Sub) (ss : List Sub)
      → AreSubs ss
      → AreSubs (delete run dict_get father now s ss).1
  unfolding delete failed
  delete-AreSubs now s ss a = drop_sub-AreSubs now s.id _ _ (
      if_intro (λ (o : List ℕ × List Sub). AreSubs o.1) s.is_just_holder _ _
        (λ e.
          wake-AreSubs (length s.waiting) s.id _
            (edit-AreSubs s.id _ ss (λ s' l h. record { quiet = h.quiet; bare = h.bare }) a))
        (λ e. a))

  stale-Serves : (s : Sub) (ss : List Sub) → AreSubs ss → Serves (stale run dict_get father s ss)
  unfolding stale
  stale-Serves s ss a = (go s.is_just_holder refl, a)
    where
      go : (b : Bool) → s.is_just_holder ≡ b → Served (if b then fails none else container s)
      go true e = tt
      go false e = e

  parsed_sub-Serves :
      (c : Call) (s : Sub) (tag : ℕ) (o : Option Settings) (ss : List Sub)
      → AreSubs ss
      → Serves (parsed_sub run dict_get father c s tag o ss)
  unfolding parsed_sub new_sub
  parsed_sub-Serves c s tag none ss a = stale-Serves s ss a
  parsed_sub-Serves c s tag (some settings) ss a =
      (refl, delete-AreSubs c.now s _ (record { quiet = λ e. refl; bare = λ e. cc }, a))

  tagged-Serves :
      (c : Call) (s : Sub) (v : Value) (ss : List Sub)
      → IsSub s
      → IsHashed (answered none v)
      → AreSubs ss
      → Serves (tagged run dict_get father c s v ss)
  unfolding tagged
  tagged-Serves c s a_table ss k h a = (tt, a)
  tagged-Serves c s something ss k h a = (tt, a)
  tagged-Serves c s (a_string hash) ss k h a =
      if_intro Serves (hash == s.tag) _ _ (λ e. (go s.is_just_holder refl e, a))
        (λ e. parsed_sub-Serves c s hash c.parsed ss a)
    where
      go : (b : Bool) → s.is_just_holder ≡ b → (hash == s.tag) ≡ true → s.is_just_holder ≡ false
      go false e t = e
      go true e t = let no : ⊥ = ground (arith, h, k.bare e) in elim no [ ]

  with_value-Serves :
      (c : Call) (s : Sub) (v : Value) (ss : List Sub)
      → IsSub s
      → IsHashed (answered none v)
      → AreSubs ss
      → Serves (with_value run dict_get father c s v ss)
  unfolding with_value
  with_value-Serves c s v ss k h a =
      if_intro Serves (father.settings.check_interval == 0) _ _
        (λ e. parsed_sub-Serves c s 0 c.parsed ss a) (λ e. tagged-Serves c s v ss k h a)

  with_status-Serves :
      (c : Call) (s : Sub) (o : Option ℕ) (v : Value) (ss : List Sub)
      → IsSub s
      → IsHashed (answered none v)
      → AreSubs ss
      → Serves (with_status run dict_get father c s o v ss)
  unfolding with_status
  with_status-Serves c s none v ss k h a = with_value-Serves c s v ss k h a
  with_status-Serves c s (some code) v ss k h a =
      if_intro Serves (code == 200) _ _ (λ e. with_value-Serves c s v ss k h a)
        (λ e.
          if_intro Serves (code == 304) _ _ (λ e'. held s.is_just_holder refl)
            (λ e'.
              if_intro Serves (code == 404) _ _
                (λ e''. (
                  tt,
                  edit-AreSubs s.id _ ss (λ s' l h'. record { quiet = h'.quiet; bare = h'.bare }) a,
                ))
                (λ e''. stale-Serves s ss a)))
    where
      held : (b : Bool) → s.is_just_holder ≡ b → Serves (if b then fails none else container s, ss)
      held true e = (tt, a)
      held false e = (e, a)

  get_conf-Serves :
      (c : Call) (s : Sub) (ran : Ran) (ss : List Sub)
      → IsSub s
      → IsHashed ran
      → AreSubs ss
      → Serves (get_conf run dict_get father c s ran ss)
  unfolding get_conf
  get_conf-Serves c s lua_error ss k h a = (tt, a)
  get_conf-Serves c s lua_again ss k h a = (tt, a)
  get_conf-Serves c s (answered code (a_string n)) ss k h a = with_status-Serves c s code _ ss k h a
  get_conf-Serves c s (answered code a_table) ss k h a = with_status-Serves c s code _ ss k h a
  get_conf-Serves c s (answered code something) ss k h a = with_status-Serves c s code _ ss k h a

  refresh-Serves :
      (c : Call) (s : Sub) (ss : List Sub)
      → IsSub s
      → s.is_just_holder ≡ false
      → IsHashed c.ran
      → AreSubs ss
      → Serves (refresh run dict_get father c s ss)
  unfolding refresh
  refresh-Serves c s ss k e h a =
      if_intro Serves (need_get_conf c s) _ _
        (λ t.
          get_conf-Serves c _ c.ran _ (record { quiet = k.quiet; bare = k.bare }) h
            (edit-AreSubs s.id _ ss (λ s' l h'. record { quiet = h'.quiet; bare = h'.bare }) a))
        (λ t.
          (e, edit-AreSubs s.id _ ss (λ s' l h'. record { quiet = h'.quiet; bare = h'.bare }) a))

  hit-Serves :
      (c : Call) (s : Sub) (ss : List Sub)
      → lookup s.id ss ≡ some s
      → IsHashed c.ran
      → AreSubs ss
      → Serves (hit run dict_get father c s ss)
  unfolding hit
  hit-Serves c s ss l h a =
      let k = lookup-IsSub s.id ss s l a in
      if_intro Serves c.in_running _ _ (λ e. get_conf-Serves c s c.ran ss k h a)
        (λ e.
          if_intro Serves (not (s.error_ret == 0)) _ _ (λ e'. (tt, a))
            (λ e'.
              if_intro Serves s.is_just_holder _ _
                (λ e''. (
                  tt,
                  edit-AreSubs s.id _ ss
                      (λ s' l' h'. record { quiet = λ f. joins s' l' f e''; bare = h'.bare }) a,
                ))
                (λ e''. refresh-Serves c s ss k e'' h a)))
    where
      joins :
          (s' : Sub)
          → lookup s.id ss ≡ some s'
          → s'.is_just_holder ≡ false
          → s.is_just_holder ≡ true
          → s'.waiting ++ c.request ∷ [] ≡ []
      joins s' l' f e = let no : ⊥ = clash in elim no [ ]
        where
          clash : ⊥
          clash = let same : s ≡ s' = cc in let held = ap (λ t. t.is_just_holder) same in cc

  search_cache-Serves :
      (c : Call) (name : Text) (o : Option Sub) (ss : List Sub)
      → dict_get name ss ≡ o
      → IsHashed c.ran
      → AreSubs ss
      → Serves (search_cache run dict_get father c name o ss)
  unfolding search_cache holder
  search_cache-Serves c name (some s) ss e h a = hit-Serves c s ss (gets name ss s e) h a
  search_cache-Serves c name none ss e h a =
      let held : IsSub (holder run dict_get father c name) = record {
        quiet = λ e'. refl;
        bare = λ e'. refl;
      } in
      if_intro Serves (leb father.sub_max (length ss)) _ _ (λ e'. (tt, a))
        (λ e'. get_conf-Serves c _ c.ran _ held h (held, a))

  named-Serves :
      (c : Call) (o : Option Text) (ss : List Sub)
      → IsHashed c.ran
      → AreSubs ss
      → Serves (named run dict_get father c o ss)
  unfolding named
  named-Serves c none ss h a = (tt, a)
  named-Serves c (some name) ss h a =
      if_intro Serves (ltb 100 (length name)) _ _ (λ e. (tt, a))
        (λ e. search_cache-Serves c name _ ss refl h a)

  -- Of a dictionary in which requests wait for holders only, and holders have the tag 0,
  -- phl_dynamic_get() never hands out the container of a holder, which has none, and leaves such a
  -- dictionary: with every result of the Lua functions and of the parser, if no string has the hash 0,
  -- the dictionary gives one of its nodes, and the requests that are run from it leave such a
  -- dictionary as well.
  pub get-IsServing :
      (c : Call) (ss : List Sub)
      → IsHashed c.ran
      → AreSubs ss
      → IsServing (get run dict_get father c ss)
  unfolding get
  get-IsServing c ss h a =
      let (served, subs) = named-Serves c c.got_name ss h a in
      record { served = served; subs = subs }
