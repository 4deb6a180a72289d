-- ===== src/Acl/Tests.antt =====
-- The access control list (modules/phl_acl.c) at concrete inputs.
use phorklift.Prelude.{ℕ, ◌≡◌, refl, Bool, true, false, Option, some, [], ◌∷◌, Text}
use phorklift.Request.State.{Ret, status}
use phorklift.Acl.{
  Rule, matches, gives, decide, by_default, process_headers, rule, parse_rule, parse_address,
  with_mask, with_ip, cut, end_of,
}
use phorklift.Acl.Decision.{Decides, process_headers-Decides}

-- The addresses 10 to 20 without 12.
abbrev not_twelve : Rule
not_twelve = record { start = 12; end = 12; is_deny = true }

abbrev teens : Rule
teens = record { start = 10; end = 20; is_deny = false }

denies : process_headers (some (not_twelve ∷ teens ∷ [])) 12 ≡ gives (status 403)
unfolding process_headers decide matches
denies = refl

denies_others : process_headers (some (not_twelve ∷ teens ∷ [])) 30 ≡ gives (status 403)
unfolding process_headers decide matches by_default
denies_others = refl

process_headers-Decides_example :
    (ret : Ret) × (process_headers (some (not_twelve ∷ teens ∷ [])) 30 ≡ gives ret)
    × Decides 30 not_twelve (not_twelve ∷ teens ∷ []) ret
process_headers-Decides_example = process_headers-Decides 30 not_twelve (teens ∷ [])

-- Every address reads as 0.0.5.0, and every mask as 24.
abbrev reads_ip : Text → Option ℕ
reads_ip s = some 1280

abbrev reads_mask : Text → Option (Bool × ℕ)
reads_mask s = some (false, 24)

abbrev network : Rule
network = record { start = 1280; end = 1280; is_deny = true }

parse_runs : parse_rule reads_ip reads_mask (b'!' ∷ b'5' ∷ b'/' ∷ b'2' ∷ b'4' ∷ []) ≡ rule network
unfolding parse_rule parse_address with_mask with_ip cut end_of
parse_runs = refl

network_runs :
    parse_address reads_ip reads_mask true (b'5' ∷ [], some (b'2' ∷ b'4' ∷ [])) ≡ rule network
unfolding parse_address with_mask with_ip end_of
network_runs = refl
