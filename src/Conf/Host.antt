-- ===== src/Conf/Host.antt =====
-- phl_conf_host.c: the table of hostnames of a listen address, how it is filled when the
-- configuration is loaded, and how the host of a request is found in it.
pub mod Wildcards
pub mod Registered
mod Tests
use mathlib.Core.List.{tail}
use phorklift.Prelude.{
  ℕ, zero, suc, ◌+◌, ◌-◌, ◌≡◌, ◌≢◌, Bool, true, false, not, Option, none, some, List, [], ◌∷◌, ◌++◌,
  map, reverse, ◌==◌, if◌then◌else◌, Text, first, str_eq, to_lower, length,
}

-- `wuy_dict` of libwuya with string keys. A key is added at most once.
pub record Dict (V : Type 0) : Type 1 where
  pub D : Type 0
  pub new : D
  pub get : D → Text → Option V
  pub add : D → Text → V → D
  pub get-new : (k : Text) → get new k ≡ none
  pub get-add_self : (d : D) (k : Text) (v : V) → get d k ≡ none → get (add d k v) k ≡ some v
  pub get-add_ne : (d : D) (k j : Text) (v : V) → k ≢ j → get (add d k v) j ≡ get d j

-- The fields of `struct phl_conf_listen` that these functions use. `host_dict` is NULL before
-- phl_conf_host_register(). `hosts` pairs a host with its hostnames.
pub record ConfListen (D H : Type 0) : Type 0 where
  pub default_host : H
  pub hosts : List (H × List Text)
  pub host_wildcard : Option H
  pub host_dict : Option D
  pub any_prefix_hostname : Bool
  pub any_subfix_hostname : Bool

-- The messages of phl_conf_host_add_name().
pub data AddError : Type 0 where
  empty_name duplicate_wildcard leading_wildcard many_wildcards : AddError
  tail_wildcard middle_wildcard duplicate_hostname : AddError

-- WUY_CFLUA_OK, or what is wrong with which name.
pub data Registration {ℓ} (A : Type ℓ) : Type ℓ where
  refused : AddError → Text → Registration A
  accepted : A → Registration A

infixl 5 ◌>>=◌
abbrev pub ◌>>=◌ {ℓ κ} :
    {A : Type ℓ} {B : Type κ} → Registration A → (A → Registration B) → Registration B
refused why name >>= k = refused why name
accepted a >>= k = k a

-- The result of a lookup, which may read outside of its buffer.
pub data Lookup (H : Type 0) : Type 0 where
  gives : Option H → Lookup H
  out_of_bounds : Lookup H

-- `strchr(s, c)`, as an index
pub index_of : ℕ → Text → Option ℕ
index_of c [] = none
index_of c (d ∷ s) =
    let rest = index_of c s in
    if d == c then some 0 else elim rest [ none ↦ none | some i ↦ some (suc i) ]

-- `s[i]`, 0 at the terminator
pub char_at : Text → ℕ → ℕ
char_at [] i = 0
char_at (c ∷ s) zero = c
char_at (c ∷ s) (suc i) = char_at s i

-- "omit the tail dot"
pub trim_tail : Text → Text
trim_tail [] = []
trim_tail (c ∷ []) = if c == b'.' then [] else c ∷ []
trim_tail (c ∷ d ∷ s) = c ∷ trim_tail (d ∷ s)

-- The name as it is stored: lower case, without a dot at the end.
pub normal_name : Text → Text
normal_name name = trim_tail (map to_lower name)

abbrev pub is_some {ℓ} : {A : Type ℓ} → Option A → Bool
is_some none = false
is_some (some a) = true

module _ {D H : Type 0} where
  -- The block `if (wild != NULL)` of phl_conf_host_add_name().
  pub check_wild : ConfListen D H → Text → Registration (ConfListen D H)
  check_wild l name = elim (index_of b'*' name) [
    | none ↦ accepted l
    | some i ↦
        if i == 0
        then (if not (first (tail name) == b'.')
            then refused leading_wildcard name
            else if is_some (index_of b'*' (tail name))
            then refused many_wildcards name
            else accepted (record l { any_prefix_hostname = true }))
        else if i + 1 == length name
        then (if not (char_at name (length name - 2) == b'.')
            then refused tail_wildcard name
            else accepted (record l { any_subfix_hostname = true }))
        else refused middle_wildcard name
  ]

module _ {H : Type 0} (dict : Dict H) where
  open dict use {D, new, get, add}

  pub add_dict : ConfListen D H → D → H → Text → Registration (ConfListen D H × D)
  add_dict l d host name =
      if is_some (get d name)
      then refused duplicate_hostname name
      else accepted (l, add d name host)

  pub add_wildcard : ConfListen D H → D → H → Text → Registration (ConfListen D H × D)
  add_wildcard l d host name =
      if is_some l.host_wildcard
      then refused duplicate_wildcard name
      else accepted (record l { host_wildcard = some host }, d)

  -- phl_conf_host_add_name()
  pub add_name : ConfListen D H → D → H → Text → Registration (ConfListen D H × D)
  add_name l d host name =
      if first name == 0
      then refused empty_name name
      else if str_eq name (b'*' ∷ [])
      then add_wildcard l d host name
      else (check_wild l (normal_name name) >>= λ l'. add_dict l' d host (normal_name name))

  -- The loops of phl_conf_host_register().
  pub add_names : ConfListen D H → D → H → List Text → Registration (ConfListen D H × D)
  add_names l d host [] = accepted (l, d)
  add_names l d host (n ∷ ns) = add_name l d host n >>= λ s. add_names s.0 s.1 host ns

  pub add_hosts : ConfListen D H → D → List (H × List Text) → Registration (ConfListen D H × D)
  add_hosts l d [] = accepted (l, d)
  add_hosts l d ((host, names) ∷ hs) = add_names l d host names >>= λ s. add_hosts s.0 s.1 hs

  -- phl_conf_host_register()
  pub register : ConfListen D H → Registration (ConfListen D H)
  register l = add_hosts l new l.hosts >>= λ s. accepted (record s.0 { host_dict = some s.1 })

-- `if (p[0] == '.') p++`; on a reversed name, the same for a dot at the end.
abbrev pub skip_dot : Text → Text
skip_dot s = if first s == b'.' then tail s else s

module _ {H : Type 0} (get : Text → Option H) where
  -- The loop over the dots from the left: at each one the key is "*." and what follows it.
  pub prefix_search : Text → Option H
  prefix_search [] = none
  prefix_search (c ∷ s) =
      let rest = prefix_search s in
      if c == b'.' then elim (get (b'*' ∷ b'.' ∷ s)) [ none ↦ rest | some h ↦ some h ] else rest

  -- The loop over the dots from the right, on the reversed name: at each one the key is what
  -- stands before it, and ".*"; the name is then cut there.
  pub subfix_search : Text → Option H
  subfix_search [] = none
  subfix_search (c ∷ r) =
      let rest = subfix_search r in
      if c == b'.'
      then elim (get (reverse r ++ b'.' ∷ b'*' ∷ [])) [ none ↦ rest | some h ↦ some h ]
      else rest

module _ {H : Type 0} (dict : Dict H) where
  open dict use {D, get}

  -- The search by `any_subfix_hostname`; it reads `sub_name[name_len - 1]`.
  pub locate_subfix : ConfListen D H → D → Text → Lookup H
  locate_subfix l d [] = if l.any_subfix_hostname then out_of_bounds else gives l.host_wildcard
  locate_subfix l d (c ∷ s) =
      if l.any_subfix_hostname
      then elim (subfix_search (get d) (skip_dot (reverse (c ∷ s)))) [
        | none ↦ gives l.host_wildcard
        | some h ↦ gives (some h)
      ]
      else gives l.host_wildcard

  -- The search by `any_prefix_hostname`.
  pub locate_prefix : ConfListen D H → D → Text → Lookup H
  locate_prefix l d name =
      if l.any_prefix_hostname
      then elim (prefix_search (get d) (skip_dot name)) [
        | none ↦ locate_subfix l d name
        | some h ↦ gives (some h)
      ]
      else locate_subfix l d name

  pub locate_name : ConfListen D H → D → Text → Lookup H
  locate_name l d name = elim (get d name) [
    | none ↦ locate_prefix l d name
    | some h ↦ gives (some h)
  ]

  -- phl_conf_host_locate(); a request without a host has the name NULL.
  pub locate : ConfListen D H → Option Text → Lookup H
  locate l name = elim l.host_dict [
    | none ↦ gives (some l.default_host)
    | some d ↦ elim name [ none ↦ gives l.host_wildcard | some n ↦ locate_name l d n ]
  ]
