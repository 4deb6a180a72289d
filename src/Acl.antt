-- ===== src/Acl.antt =====
-- The access control list, modules/phl_acl.c: how its rules are read, and the decision on an address.
pub mod Decision
pub mod Networks
mod Tests
use phorklift.Prelude.{
  ℕ, suc, zero, ◌+◌, ◌-◌, ◌*◌, ◌%◌, ◌^◌, Bool, true, false, not, ◌&&◌, ◌||◌, Option, none, some,
  List, [], ◌∷◌, Text, first, ltb, leb, ◌==◌, if◌then◌else◌,
}
use phorklift.Request.State.{Ret, ok, status}

-- `struct phl_acl_rule`; addresses are numbers below 2 ^ 32.
pub record Rule : Type 0 where
  pub start : ℕ
  pub end : ℕ
  pub is_deny : Bool

-- "addr >= rule->start && addr <= rule->end"
pub matches : Rule → ℕ → Bool
matches rule addr = leb rule.start addr && leb addr rule.end

-- PHL_OK or WUY_HTTP_403; or a read before the first rule, of a list with none.
pub data Answer : Type 0 where
  gives : Ret → Answer
  out_of_bounds : Answer

-- `conf->rules[conf->num-1]`, and the default policy.
pub by_default : Option Rule → Answer
by_default none = out_of_bounds
by_default (some last) = gives (if not last.is_deny then status 403 else ok)

-- The loop of phl_acl_process_headers(); `last` is the rule before.
pub decide : ℕ → Option Rule → List Rule → Answer
decide addr last [] = by_default last
decide addr last (rule ∷ rules) =
    let rest = decide addr (some rule) rules in
    if matches rule addr then gives (if rule.is_deny then status 403 else ok) else rest

-- phl_acl_process_headers(); `conf->strs` may be NULL.
pub process_headers : Option (List Rule) → ℕ → Answer
process_headers none addr = gives ok
process_headers (some rules) addr = decide addr none rules

-- What phl_acl_conf_post() makes of one string. A shift of 32 bits by 32 is not defined.
pub data Parsed : Type 0 where
  rule : Rule → Parsed
  invalid_mask invalid_ip : Text → Parsed
  undefined_shift : Parsed

-- `strchr(str, '/')`: what is before it, and what is behind it.
pub cut : Text → Text × Option Text
cut [] = ([], none)
cut (c ∷ s) = let rest = cut s in if c == b'/' then ([], some s) else (c ∷ rest.0, rest.1)

-- `rule->start & (UINT32_MAX << (32-mask))`: the bits below 32 - mask are cleared.
pub end_of : ℕ → ℕ → ℕ
end_of start mask = start - start % 2 ^ (32 - mask)

-- `inet_pton` of the C library gives the address in the order of the host, and `strtol` the sign and
-- the size of a number, when it takes the whole string.
module _ (inet_pton : Text → Option ℕ) (strtol : Text → Option (Bool × ℕ)) where
  pub with_ip : Text → Bool → (ℕ → Parsed) → Option ℕ → Parsed
  with_ip str is_deny finish none = invalid_ip str
  with_ip str is_deny finish (some start) = finish start

  pub with_mask : Text → Bool → Option (Bool × ℕ) → Parsed
  with_mask str is_deny none = invalid_mask str
  with_mask str is_deny (some (is_negative, mask)) =
      if (is_negative && not (mask == 0)) || ltb 32 mask
      then invalid_mask str
      else with_ip str is_deny
          (λ start.
            if mask == 0
            then undefined_shift
            else rule (record { start = start; end = end_of start mask; is_deny = is_deny }))
          (inet_pton str)

  pub parse_address : Bool → Text × Option Text → Parsed
  parse_address is_deny (str, none) =
      with_ip str is_deny (λ start. rule (record { start = start; end = start; is_deny = is_deny }))
        (inet_pton str)
  parse_address is_deny (str, some mask) = with_mask str is_deny (strtol mask)

  -- One round of the loop in phl_acl_conf_post().
  pub parse_rule : Text → Parsed
  parse_rule [] = parse_address false (cut [])
  parse_rule (c ∷ s) =
      if c == b'!' then parse_address true (cut s) else parse_address false (cut (c ∷ s))
