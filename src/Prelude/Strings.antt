-- ===== src/Prelude/Strings.antt =====
-- C strings: a list of bytes, none of them 0; the terminator is not in the list.
use Prim.Native.Nat.{ℕ, ◌+◌}
use mathlib.Core.Path.{◌≡◌, refl}
use mathlib.Core.Logic.{◌⊎◌}
use mathlib.Core.Bool.{Bool, true, false, ◌&&◌}
use mathlib.Core.List.{List, [], ◌∷◌, ◌++◌}
use native.Mathlib.Omega.{arith}
use phorklift.Prelude.Tests.{◌==◌, leb, if◌then◌else◌}

abbrev pub Text : Type 0
Text = List ℕ

-- `s[0]`: the terminator, 0, for the empty string.
abbrev pub first : Text → ℕ
first [] = 0
first (c ∷ s) = c

-- `strcmp(a, b) == 0`
unfoldable pub str_eq : Text → Text → Bool
str_eq [] [] = true
str_eq [] (d ∷ b) = false
str_eq (c ∷ a) [] = false
str_eq (c ∷ a) (d ∷ b) = (c == d) && str_eq a b

-- `memcmp(p, s, strlen(p)) == 0`; the terminator of a shorter `s` differs from every byte of `p`.
unfoldable pub starts_with : Text → Text → Bool
starts_with [] s = true
starts_with (c ∷ p) [] = false
starts_with (c ∷ p) (d ∷ s) = (c == d) && starts_with p s

-- `tolower` in the C locale
abbrev pub to_lower : ℕ → ℕ
to_lower c = if leb b'A' c && leb c b'Z' then c + 32 else c

pub str_eq_refl : (a : Text) → str_eq a a ≡ true
unfolding str_eq
str_eq_refl [] = refl
str_eq_refl (c ∷ a) = ground (arith, str_eq_refl a)

pub starts_with_refl : (a : Text) → starts_with a a ≡ true
unfolding starts_with
starts_with_refl [] = refl
starts_with_refl (c ∷ a) = ground (arith, starts_with_refl a)

pub eq_of_str_eq : (a b : Text) → str_eq a b ≡ true → a ≡ b
unfolding str_eq
eq_of_str_eq [] [] h = refl
eq_of_str_eq [] (d ∷ b) h = cc
eq_of_str_eq (c ∷ a) [] h = cc
eq_of_str_eq (c ∷ a) (d ∷ b) h = ground (arith, eq_of_str_eq a b)

pub starts_with-append : (p s : Text) → starts_with p (p ++ s) ≡ true
unfolding starts_with
starts_with-append [] s = refl
starts_with-append (c ∷ p) s = ground (arith, starts_with-append p s)

pub split_of_starts_with : (p s : Text) → starts_with p s ≡ true → (rest : Text) × (s ≡ p ++ rest)
unfolding starts_with
split_of_starts_with [] s h = (s, refl)
split_of_starts_with (c ∷ p) [] h = cc
split_of_starts_with (c ∷ p) (d ∷ s) h =
    let (rest, e) = split_of_starts_with p s (ground arith) in (rest, ground arith)

abbrev pub In : Text → List Text → Type 0
In n [] = ⊥
In n (x ∷ xs) = (n ≡ x) ⊎ In n xs
