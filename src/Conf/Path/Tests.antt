-- ===== src/Conf/Path/Tests.antt =====
-- The path lookup at concrete inputs.
use phorklift.Prelude.{
  ◌≡◌, refl, inl, inr, Bool, ◌||◌, Option, some, [], ◌∷◌, Text, starts_with, str_eq,
}
use phorklift.Conf.Path.{
  ConfPath, ConfHost, returns, name_match, any_match, locate_in, locate, overwritten_by,
  overwritten_in, check_overwrite, check_names, check_from, check_path_overwrite, pathname_ok,
}
use phorklift.Conf.Path.Matching.{Located, locate-Located}
use phorklift.Conf.Path.Shadowing.{locate-unhidden}

-- A search for a piece of text, in place of the Lua patterns.
contains : Text → Text → Bool
contains [] p = starts_with p []
contains (c ∷ s) p = starts_with p (c ∷ s) || contains s p

-- "=/a", "/ab", "/a" and "@n"
abbrev exact_path : ConfPath
exact_path = record { id = 1; pathnames = (b'=' ∷ b'/' ∷ b'a' ∷ []) ∷ [] }

abbrev prefix_path : ConfPath
prefix_path = record { id = 2; pathnames = (b'/' ∷ b'a' ∷ b'b' ∷ []) ∷ (b'@' ∷ b'n' ∷ []) ∷ [] }

abbrev site : ConfHost
site = record { paths = some (exact_path ∷ prefix_path ∷ []); default_path = exact_path }

request_is_routed :
    locate contains site (b'/' ∷ b'a' ∷ b'b' ∷ b'c' ∷ []) ≡ returns (some prefix_path)
unfolding locate locate_in any_match name_match str_eq starts_with contains
request_is_routed = refl

locate-Located_example :
    (o : Option ConfPath) × (locate contains site (b'@' ∷ b'n' ∷ []) ≡ returns o)
    × Located contains (b'@' ∷ b'n' ∷ []) (exact_path ∷ prefix_path ∷ []) (returns o)
unfolding pathname_ok
locate-Located_example =
    locate-Located contains site (exact_path ∷ prefix_path ∷ []) (b'@' ∷ b'n' ∷ []) refl
      ((refl, tt), ((refl, (refl, tt)), tt))

locate-unhidden_example : locate contains site (b'@' ∷ b'n' ∷ []) ≡ returns (some prefix_path)
unfolding pathname_ok check_path_overwrite check_from check_names check_overwrite overwritten_in
    overwritten_by name_match str_eq starts_with contains
locate-unhidden_example =
    locate-unhidden contains site (exact_path ∷ []) prefix_path [] (b'@' ∷ b'n' ∷ []) refl
      (refl, (refl, tt)) refl (inr (inl refl)) (inr refl)
