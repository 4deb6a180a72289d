-- ===== src/Conf/Host/Tests.antt =====
-- The host lookup at concrete inputs, with an association list for the dictionary of libwuya.
use phorklift.Prelude.{
  ℕ, ◌≡◌, refl, ◌≢◌, inl, inr, true, false, Option, none, some, List, [], ◌∷◌, Text, str_eq,
  if◌then◌else◌, eq_of_str_eq, str_eq_refl, Bool-cases,
}
use phorklift.Conf.Host.{
  Dict, ConfListen, accepted, gives, normal_name, register, locate, add_hosts, add_names, add_name,
  add_wildcard, add_dict, check_wild, index_of, char_at, trim_tail,
}
use phorklift.Conf.Host.Registered.{locate-register}
use phorklift.Conf.Host.Wildcards.{Resolves, locate-Resolves}

abbrev Table : Type 0
Table = List (Text × ℕ)

get : Table → Text → Option ℕ
get [] k = none
get ((j, v) ∷ t) k = if str_eq j k then some v else get t k

get_self : (d : Table) (k : Text) (v : ℕ) → get ((k, v) ∷ d) k ≡ some v
unfolding get
get_self d k v = rw (str_eq_refl k)

get_ne : (d : Table) (k j : Text) (v : ℕ) → k ≢ j → get ((k, v) ∷ d) j ≡ get d j
unfolding get
get_ne d k j v ne = elim (Bool-cases (str_eq k j)) [
  | inl e ↦ absurd (ne (eq_of_str_eq k j e))
  | inr e ↦ rw e
]

get_new : (k : Text) → get [] k ≡ none
unfolding get
get_new k = refl

abbrev assoc : Dict ℕ
assoc = record {
  D = Table;
  new = [];
  get = get;
  add = λ d k v. (k, v) ∷ d;
  get-new = get_new;
  get-add_self = λ d k v _. get_self d k v;
  get-add_ne = get_ne;
}

-- "A.b." and "c.*"
abbrev plain_host : Text
plain_host = b'A' ∷ b'.' ∷ b'b' ∷ b'.' ∷ []

abbrev tail_host : Text
tail_host = b'c' ∷ b'.' ∷ b'*' ∷ []

abbrev listen : ConfListen Table ℕ
listen = record {
  default_host = 0;
  hosts = (1, plain_host ∷ []) ∷ (2, tail_host ∷ []) ∷ [];
  host_wildcard = none;
  host_dict = none;
  any_prefix_hostname = false;
  any_subfix_hostname = false;
}

abbrev table : Table
table = (tail_host, 2) ∷ (b'a' ∷ b'.' ∷ b'b' ∷ [], 1) ∷ []

abbrev registered : ConfListen Table ℕ
registered = record listen { host_dict = some table; any_subfix_hostname = true }

register_runs : register assoc listen ≡ accepted registered
unfolding register add_hosts add_names add_name add_wildcard add_dict check_wild index_of char_at
    trim_tail normal_name str_eq get
register_runs = refl

locate-register_example : locate assoc registered (some (normal_name plain_host)) ≡ gives (some 1)
unfolding str_eq
locate-register_example =
    locate-register assoc listen registered 1 plain_host register_runs (inl (refl, inl refl)) refl

locate-Resolves_example :
    Resolves assoc registered table
      (b'c' ∷ b'.' ∷ b'd' ∷ [])
      (locate assoc registered (some (b'c' ∷ b'.' ∷ b'd' ∷ [])))
locate-Resolves_example = locate-Resolves assoc registered table (b'c' ∷ b'.' ∷ b'd' ∷ []) refl
