-- ===== src/Acl/Networks.antt =====
-- phl_acl_conf_post(): the range of a rule that is written as a network.
use native.Mathlib.Nat.{mod-le}
use phorklift.Prelude.{
  ℕ, ◌-◌, ◌%◌, ◌^◌, ◌≤◌, ◌≡◌, refl, sym, ◌↔◌, Bool, true, not, ◌&&◌, ◌||◌, Option, none, some, Text,
  ltb, leb, ◌==◌, if◌then◌else◌, arith, if_intro, subst,
}
use phorklift.Acl.{
  Rule, matches, Parsed, rule, undefined_shift, end_of, with_ip, with_mask, parse_address,
}

only_start : (s k a : ℕ) → k ≤ s → (leb s a && leb a (s - k) ≡ true) ↔ ((a ≡ s) × (k ≡ 0))
only_start s k a h = ground arith

matches_end :
    (r : Rule) (mask addr : ℕ)
    → r.end ≡ end_of r.start mask
    → (matches r addr ≡ true) ↔ ((addr ≡ r.start) × (r.start % 2 ^ (32 - mask) ≡ 0))
unfolding matches end_of
matches_end r mask addr e =
    subst
      (λ z.
        (leb r.start addr && leb addr z ≡ true)
        ↔ ((addr ≡ r.start) × (r.start % 2 ^ (32 - mask) ≡ 0)))
      (sym e)
      (only_start r.start (r.start % 2 ^ (32 - mask)) addr (mod-le r.start (2 ^ (32 - mask))))

module _ (inet_pton : Text → Option ℕ) (strtol : Text → Option (Bool × ℕ)) where
  abbrev Narrow : ℕ → Parsed → Type 0
  Narrow mask (rule r) = r.end ≡ end_of r.start mask
  Narrow mask p = Unit

  with_ip-Narrow :
      (str : Text) (is_deny : Bool) (mask : ℕ) (o : Option ℕ)
      → Narrow mask (
          with_ip inet_pton strtol str is_deny
            (λ start.
              if mask == 0
              then undefined_shift
              else rule (record { start = start; end = end_of start mask; is_deny = is_deny }))
            o)
  unfolding with_ip
  with_ip-Narrow str is_deny mask none = tt
  with_ip-Narrow str is_deny mask (some start) =
      if_intro (Narrow mask) (mask == 0) _ _ (λ e. tt) (λ e. refl)

  with_mask-Narrow :
      (str : Text) (is_deny is_negative : Bool) (mask : ℕ)
      → Narrow mask (with_mask inet_pton strtol str is_deny (some (is_negative, mask)))
  unfolding with_mask
  with_mask-Narrow str is_deny is_negative mask =
      if_intro (Narrow mask) ((is_negative && not (mask == 0)) || ltb 32 mask) _ _ (λ e. tt)
        (λ e. with_ip-Narrow str is_deny mask (inet_pton str))

  -- A rule that is written as a network, `address/mask`, has no range of addresses: it matches its
  -- own address only, and not even that unless the bits behind the mask are 0.
  pub network_matches :
      (is_deny is_negative : Bool) (str digits : Text) (mask addr : ℕ) (r : Rule)
      → strtol digits ≡ some (is_negative, mask)
      → parse_address inet_pton strtol is_deny (str, some digits) ≡ rule r
      → (matches r addr ≡ true) ↔ ((addr ≡ r.start) × (r.start % 2 ^ (32 - mask) ≡ 0))
  unfolding parse_address
  network_matches is_deny is_negative str digits mask addr r e p =
      let n = with_mask-Narrow str is_deny is_negative mask in
      matches_end r mask addr (
        subst (Narrow mask) p
          (subst (λ o. Narrow mask (with_mask inet_pton strtol str is_deny o)) (sym e) n))
