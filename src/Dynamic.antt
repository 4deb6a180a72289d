-- ===== src/Dynamic.antt =====
-- Dynamic configurations, phl_dynamic.c: subs by name, made and refreshed by Lua functions, and the
-- requests that wait for them.
pub mod Subs
pub mod Serving
pub mod Waking
mod Tests
use phorklift.Prelude.{
  ℕ, suc, zero, ◌+◌, ◌-◌, ◌*◌, Bool, true, false, ◌&&◌, ◌||◌, not, Option, none, some, List, [],
  ◌∷◌, ◌++◌, length, Text, ltb, leb, ◌==◌, if◌then◌else◌,
}

-- The configured intervals, in seconds.
pub record Settings : Type 0 where
  pub check_interval : ℕ
  pub idle_timeout : ℕ
  pub error_timeout : ℕ

-- `struct phl_dynamic_conf` of a sub, with its number. The time at which its timer fires is
-- `expires`; `sub_num` is the count of its own `sub_dict`; a request is its number.
pub record Sub : Type 0 where
  pub id : ℕ
  pub name : Text
  pub is_just_holder : Bool
  pub error_ret : ℕ
  pub waiting : List ℕ
  pub tag : ℕ
  pub check_time : ℕ
  pub expires : ℕ
  pub sub_num : ℕ
  pub settings : Settings

-- The configuration of the father.
pub record Father : Type 0 where
  pub sub_max : ℕ
  pub settings : Settings

-- The value that get_conf() gives: a string, by its hash, a table, or something else.
pub data Value : Type 0 where
  a_string : ℕ → Value
  a_table something : Value

-- phl_lua_thread_run(): PHL_PTR_ERROR, PHL_PTR_AGAIN, or the optional status code and the value.
pub data Ran : Type 0 where
  lua_error lua_again : Ran
  answered : Option ℕ → Value → Ran

-- What the Lua functions and the parser of the configuration give in one call: get_name(), whether
-- get_conf() of the request runs already, what it gives, check_filter() of the sub if it is set, and the
-- settings that its value has, if it can be parsed. `new_id` is the number of a sub that is made.
pub record Call : Type 0 where
  pub now : ℕ
  pub request : ℕ
  pub got_name : Option Text
  pub in_running : Bool
  pub ran : Ran
  pub check_filter : Option Bool
  pub parsed : Option Settings
  pub new_id : ℕ

-- The container of a sub, PHL_PTR_ERROR with the status code that is set for the response, or
-- PHL_PTR_AGAIN.
pub data Answer : Type 0 where
  container : Sub → Answer
  fails : Option ℕ → Answer
  waits : Answer

pub edit : ℕ → (Sub → Sub) → List Sub → List Sub
edit id f [] = []
edit id f (s ∷ ss) = let rest = edit id f ss in if s.id == id then f s ∷ ss else s ∷ rest

pub remove : ℕ → List Sub → List Sub
remove id [] = []
remove id (s ∷ ss) = let rest = remove id ss in if s.id == id then ss else s ∷ rest

pub lookup : ℕ → List Sub → Option Sub
lookup id [] = none
lookup id (s ∷ ss) = let rest = lookup id ss in if s.id == id then some s else rest

-- "pop" from `holder_wait_head`
pub popped : Option Sub → Option (ℕ × List ℕ)
popped none = none
popped (some s) = elim (s.waiting) [ [] ↦ none | r ∷ rs ↦ some (r, rs) ]

-- phl_dynamic_need_get_conf()
pub need_get_conf : Call → Sub → Bool
need_get_conf c s =
    if s.settings.check_interval == 0
    then false
    else if ltb (c.now - s.check_time) s.settings.check_interval
    then false
    else elim (c.check_filter) [ none ↦ true | some b ↦ b ]

-- "if (sub_dyn->error_ret == 0)"
pub failed : Sub → Sub
failed s = record s { error_ret = if s.error_ret == 0 then 500 else s.error_ret }

-- `run` is phl_request_run() of a request that has waited; it may call phl_dynamic_get() itself.
-- `dict_get` is wuy_dict_get() of libwuya.
module _ (run : ℕ → List Sub → List Sub) (dict_get : Text → List Sub → Option Sub)
    (father : Father) where
  -- A round of the loop in phl_dynamic_delete(); `again` is the rest of it.
  pub pop_run :
      (List Sub → List ℕ × List Sub) → ℕ → Option (ℕ × List ℕ) → List Sub → List ℕ × List Sub
  pop_run again id none ss = ([], ss)
  pop_run again id (some (r, rest)) ss =
      let (woken, after) = again (run r (edit id (λ s. record s { waiting = rest }) ss)) in
      (r ∷ woken, after)

  -- The loop, with fuel for its rounds: the requests that are run, in order, and the subs.
  pub wake : ℕ → ℕ → List Sub → List ℕ × List Sub
  wake zero id ss = ([], ss)
  wake (suc fuel) id ss = pop_run (wake fuel id) id (popped (lookup id ss)) ss

  -- "holds subs, so wait a minute"
  pub drop_sub : ℕ → ℕ → Option Sub → List Sub → List Sub
  drop_sub now id none ss = ss
  drop_sub now id (some s) ss =
      if s.sub_num == 0 then remove id ss else edit id (λ s'. record s' { expires = now + 60 }) ss

  -- phl_dynamic_delete()
  pub delete : ℕ → Sub → List Sub → List ℕ × List Sub
  delete now sub ss =
      let (woken, after) =
        if sub.is_just_holder
        then wake (length sub.waiting) sub.id (edit sub.id failed ss)
        else ([], ss) in
      (woken, drop_sub now sub.id (lookup sub.id after) after)

  -- phl_dynamic_new_holder(). Of the memory that is not set, the tag is taken to be 0.
  pub holder : Call → Text → Sub
  holder c name = record {
    id = c.new_id;
    name = name;
    is_just_holder = true;
    error_ret = 0;
    waiting = [];
    tag = 0;
    check_time = 0;
    expires = c.now + 60;
    sub_num = 0;
    settings = father.settings;
  }

  -- The new sub of phl_dynamic_parse_sub_dyn(), with its tag.
  pub new_sub : Call → Text → ℕ → Settings → Sub
  new_sub c name tag settings = record {
    id = suc c.new_id;
    name = name;
    is_just_holder = false;
    error_ret = 0;
    waiting = [];
    tag = tag;
    check_time = c.now;
    expires = c.now + settings.idle_timeout;
    sub_num = 0;
    settings = settings;
  }

  abbrev pub Result : Type 0
  Result = Answer × List Sub

  -- "fail: use stale"
  pub stale : Sub → List Sub → Result
  stale s ss = (if s.is_just_holder then fails none else container s, ss)

  pub parsed_sub : Call → Sub → ℕ → Option Settings → List Sub → Result
  parsed_sub c s tag none ss = stale s ss
  parsed_sub c s tag (some settings) ss =
      let new = new_sub c s.name tag settings in (container new, (delete c.now s (new ∷ ss)).1)

  -- The tag, when there is a `check_interval`.
  pub tagged : Call → Sub → Value → List Sub → Result
  tagged c s (a_string h) ss =
      if h == s.tag then (container s, ss) else parsed_sub c s h c.parsed ss
  tagged c s _ ss = (fails none, ss)

  pub with_value : Call → Sub → Value → List Sub → Result
  with_value c s v ss =
      if father.settings.check_interval == 0 then parsed_sub c s 0 c.parsed ss else tagged c s v ss

  pub with_status : Call → Sub → Option ℕ → Value → List Sub → Result
  with_status c s none v ss = with_value c s v ss
  with_status c s (some code) v ss =
      if code == 200
      then with_value c s v ss
      else if code == 304
      then (if s.is_just_holder then fails none else container s, ss)
      else if code == 404
      then (
        fails (some 404),
        edit s.id (λ s'. record s' { error_ret = 404; expires = c.now + s.settings.error_timeout })
            ss,
      )
      else stale s ss

  -- From the label `get_conf` on.
  pub get_conf : Call → Sub → Ran → List Sub → Result
  get_conf c s lua_error ss = (fails none, ss)
  get_conf c s lua_again ss = (waits, ss)
  get_conf c s (answered code v) ss = with_status c s code v ss

  -- The time of the check, which is written when the answer is yes, is in `edit`.
  pub refresh : Call → Sub → List Sub → Result
  refresh c s ss =
      if need_get_conf c s
      then get_conf c (record s { check_time = c.now; expires = c.now + s.settings.idle_timeout })
          c.ran
          (edit s.id
            (λ s'. record s' { check_time = c.now; expires = c.now + s.settings.idle_timeout }) ss)
      else (
        container s,
        edit s.id (λ s'. record s' { expires = c.now + s.settings.idle_timeout }) ss,
      )

  -- "cache hit"
  pub hit : Call → Sub → List Sub → Result
  hit c s ss =
      if c.in_running
      then get_conf c s c.ran ss
      else if not (s.error_ret == 0)
      then (fails (some s.error_ret), ss)
      else if s.is_just_holder
      then (waits, edit s.id (λ s'. record s' { waiting = s'.waiting ++ c.request ∷ [] }) ss)
      else refresh c s ss

  pub search_cache : Call → Text → Option Sub → List Sub → Result
  search_cache c name (some s) ss = hit c s ss
  search_cache c name none ss =
      if leb father.sub_max (length ss)
      then (fails none, ss)
      else get_conf c (holder c name) c.ran (holder c name ∷ ss)

  pub named : Call → Option Text → List Sub → Result
  named c none ss = (fails none, ss)
  named c (some name) ss =
      if ltb 100 (length name) then (fails none, ss) else search_cache c name (dict_get name ss) ss

  -- phl_dynamic_get()
  pub get : Call → List Sub → Result
  get c ss = named c c.got_name ss
