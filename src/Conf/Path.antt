-- ===== src/Conf/Path.antt =====
-- phl_conf_path.c, and the overwrite check of phl_conf_host.c: the choice of a Path by the name
-- of a request, and the checks made on pathnames when the configuration is loaded.
-- `find text pattern` stands for `wuy_luastr_find2` of libwuya.
pub mod Matching
pub mod Shadowing
mod Tests
use phorklift.Prelude.{
  ℕ, suc, ◌≡◌, Bool, true, false, ◌&&◌, ◌||◌, not, Option, none, some, List, [], ◌∷◌, ◌==◌,
  if◌then◌else◌, Text, first, str_eq, starts_with, take,
}
use mathlib.Core.List.{tail}

-- `struct phl_conf_path`: an identity, and the fields read here.
pub record ConfPath : Type 0 where
  pub id : ℕ
  pub pathnames : List Text

-- `struct phl_conf_host`: `paths` is NULL for a host without Path scopes.
pub record ConfHost : Type 0 where
  pub paths : Option (List ConfPath)
  pub default_path : ConfPath

-- The result of a function that may call `abort()`.
pub data Outcome {ℓ} (A : Type ℓ) : Type ℓ where
  returns : A → Outcome A
  aborts : Outcome A

infixl 5 ◌>>=◌
abbrev pub ◌>>=◌ {ℓ κ} : {A : Type ℓ} {B : Type κ} → Outcome A → (A → Outcome B) → Outcome B
returns a >>= f = f a
aborts >>= f = aborts

-- The pathname without a leading '=', as phl_conf_path_check_overwrite() takes it.
abbrev pub strip : Text → Text
strip pathname = if first pathname == b'=' then tail pathname else pathname

module _ (find : Text → Text → Bool) where
  -- phl_conf_path_name_match()
  pub name_match : Text → Text → Outcome Bool
  name_match def req =
      if first req == b'@'
      then returns (str_eq def req)
      else if first def == b'='
      then returns (str_eq (tail def) req)
      else if first def == b'/'
      then returns (starts_with def req)
      else if first def == b'~'
      then returns (find req (tail def))
      else if first def == b'@'
      then returns false
      else aborts

  -- The loop over `conf_path->pathnames` in phl_conf_path_locate().
  pub any_match : List Text → Text → Outcome Bool
  any_match [] req = returns false
  any_match (def ∷ defs) req = do
    hit ← name_match def req
    if hit then returns true else any_match defs req

  -- The loop over `conf_host->paths`.
  pub locate_in : List ConfPath → Text → Outcome (Option ConfPath)
  locate_in [] req = returns none
  locate_in (p ∷ ps) req = do
    hit ← any_match p.pathnames req
    if hit then returns (some p) else locate_in ps req

  -- phl_conf_path_locate(); `none` is NULL.
  pub locate : ConfHost → Text → Outcome (Option ConfPath)
  locate h req = elim h.paths [ none ↦ returns (some h.default_path) | some ps ↦ locate_in ps req ]

  -- phl_conf_path_check_overwrite(): the inner loop. `c` is the first byte of the new pathname, and
  -- `name` is that pathname without a leading '='.
  pub overwritten_by : ℕ → Text → List Text → Outcome Bool
  overwritten_by c name [] = returns false
  overwritten_by c name (pattern ∷ rest) =
      let more = overwritten_by c name rest in
      if (first pattern == b'=') && (c == b'/')
      then more
      else name_match pattern name >>= λ hit. if hit then returns true else more

  pub overwritten_in : ℕ → Text → List ConfPath → Outcome Bool
  overwritten_in c name [] = returns false
  overwritten_in c name (p ∷ ps) = do
    hit ← overwritten_by c name p.pathnames
    if hit then returns true else overwritten_in c name ps

  -- phl_conf_path_check_overwrite(): the paths with an index below `stop` are looked at.
  pub check_overwrite : List ConfPath → ℕ → Text → Outcome Bool
  check_overwrite paths stop pathname =
      if first pathname == b'~'
      then returns false
      else overwritten_in (first pathname) (strip pathname) (take stop paths)

  -- phl_conf_host_check_path_overwrite(): the loop over the pathnames of path `i`.
  pub check_names : List ConfPath → ℕ → List Text → Outcome (Option Text)
  check_names paths i [] = returns none
  check_names paths i (n ∷ ns) = do
    hit ← check_overwrite paths i n
    if hit then returns (some n) else check_names paths i ns

  pub check_from : List ConfPath → ℕ → List ConfPath → Outcome (Option Text)
  check_from paths i [] = returns none
  check_from paths i (p ∷ ps) = check_names paths i p.pathnames >>= λ bad. elim bad [
    | none ↦ check_from paths (suc i) ps
    | some n ↦ returns (some n)
  ]

  -- phl_conf_host_check_path_overwrite(): the first pathname that an earlier path hides.
  pub check_path_overwrite : ConfHost → Outcome (Option Text)
  check_path_overwrite h = elim h.paths [ none ↦ returns none | some ps ↦ check_from ps 0 ps ]

-- The check on the first byte of each pathname in phl_conf_path_post().
unfoldable pub pathname_ok : Text → Bool
pathname_ok name =
    first name == b'=' || first name == b'~' || first name == b'/' || first name == b'@'

-- phl_conf_path_post(): the first pathname refused with "pathname must start with …".
pub bad_pathname : List Text → Option Text
bad_pathname [] = none
bad_pathname (n ∷ ns) = if not (pathname_ok n) then some n else bad_pathname ns
