-- ===== src/Dynamic/Tests.antt =====
-- Dynamic configurations (phl_dynamic.c) at concrete inputs.
use phorklift.Prelude.{
  ℕ, ◌≡◌, refl, Bool, true, false, Option, none, some, List, [], ◌∷◌, Text, str_eq, ◌==◌,
  if◌then◌else◌, arith, ap, ◌∙◌,
}
use phorklift.Dynamic.{
  Settings, Sub, Father, a_string, lua_again, answered, Ran, Call, waits, edit, lookup, delete,
  holder, get_conf, hit, search_cache, named, get,
}
use phorklift.Dynamic.Serving.{IsServing, get-IsServing}
use phorklift.Dynamic.Waking.{delete_wakes}

abbrev hour : Settings
hour = record { check_interval = 60; idle_timeout = 3600; error_timeout = 1 }

abbrev father : Father
father = record { sub_max = 10; settings = hour }

-- A dictionary that looks at its newest node only.
abbrev newest : Text → List Sub → Option Sub
newest name [] = none
newest name (s ∷ ss) = if str_eq s.name name then some s else none

newest-lookup :
    (name : Text) (ss : List Sub) (s : Sub) → newest name ss ≡ some s → lookup s.id ss ≡ some s
unfolding lookup
newest-lookup name [] s e = cc
newest-lookup name (s' ∷ ss) s e = go (str_eq s'.name name) e
  where
    go :
        (b : Bool)
        → (if b then some s' else none) ≡ some s
        → (if s'.id == s.id then some s' else lookup s.id ss) ≡ some s
    go false k = cc
    go true k =
        let same : s' ≡ s = cc in
        let own : (s'.id == s.id) ≡ true = ground (arith, ap (λ t. t.id) same) in
        ap (λ b. if b then some s' else lookup s.id ss) own ∙ k

abbrev idle : ℕ → List Sub → List Sub
idle r ss = ss

abbrev asks : ℕ → Ran → Call
asks r ran = record {
  now = 100;
  request = r;
  got_name = some (b'a' ∷ []);
  in_running = false;
  ran = ran;
  check_filter = none;
  parsed = some hour;
  new_id = 5;
}

-- The first request makes a holder and waits for get_conf(); the second one waits for the holder.
abbrev waited_for : Sub
waited_for = record {
  id = 5;
  name = b'a' ∷ [];
  is_just_holder = true;
  error_ret = 0;
  waiting = 2 ∷ [];
  tag = 0;
  check_time = 0;
  expires = 160;
  sub_num = 0;
  settings = hour;
}

abbrev held : List Sub
held = waited_for ∷ []

second_waits :
    get idle newest father (asks 2 lua_again) (get idle newest father (asks 1 lua_again) []).1
    ≡ (waits, held)
unfolding get named search_cache hit get_conf holder edit str_eq
second_waits = refl

get-IsServing_example :
    IsServing (get idle newest father (asks 1 (answered none (a_string 7))) held)
get-IsServing_example =
    get-IsServing idle newest father (λ r ss a. a) newest-lookup
      (asks 1 (answered none (a_string 7))) held (omega arith)
      (record { quiet = λ e. cc; bare = λ e. refl }, tt)

delete_wakes_example : (delete idle newest father 160 waited_for held).0 ≡ 2 ∷ []
unfolding lookup
delete_wakes_example =
    delete_wakes idle newest father (λ r id w ss h. h) 160 waited_for held refl refl
