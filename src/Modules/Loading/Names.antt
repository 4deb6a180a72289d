-- ===== src/Modules/Loading/Names.antt =====
-- phl_module_dynamic_load() in phl_module.c: which names of files it takes.
use phorklift.Prelude.{
  ◌+◌, ◌-◌, ◌≤◌, ◌≡◌, refl, Bool, true, false, ◌&&◌, Option, none, some, [], ◌∷◌, ◌++◌, Text,
  length, take, drop, starts_with, str_eq, ◌==◌, if◌then◌else◌, ap, ◌∙◌, arith, length-append,
  length-take, length-drop, eq_of_str_eq, if_intro,
}
use phorklift.Modules.Loading.{
  after_slash, base_name, prefix, extension, suffix, mod_name_of, mod_name,
}

right : (a b : Bool) → (a && b) ≡ true → b ≡ true
right true b h = h
right false b h = cc

abbrev or_empty : Option Text → Text
or_empty none = []
or_empty (some s) = s

-- A name with no '/' in it.
unfoldable pub has_slash : Text → Bool
has_slash [] = false
has_slash (c ∷ s) = if c == b'/' then true else has_slash s

after_slash-none : (s : Text) → has_slash s ≡ false → after_slash s ≡ none
unfolding has_slash after_slash
after_slash-none [] h = refl
after_slash-none (c ∷ s) h =
    let rest = after_slash-none s (ground arith) in
    let e : (c == b'/') ≡ false = ground arith in rw (rest, e)

after_slash-dir : (dir s : Text) → has_slash s ≡ false → after_slash (dir ++ b'/' ∷ s) ≡ some s
unfolding has_slash after_slash
after_slash-dir [] s h = rw (after_slash-none s h)
after_slash-dir (c ∷ dir) s h = rw (after_slash-dir dir s h)

take-front : (k t : Text) → take (length (k ++ t) - length t) (k ++ t) ≡ k
take-front k t = ap (λ n. take n (k ++ t)) (count k t) ∙ exact k t
  where
    count : (k t : Text) → length (k ++ t) - length t ≡ length k
    count k t = let n = length-append k t in omega arith

    exact : (k t : Text) → take (length k) (k ++ t) ≡ k
    exact [] t = refl
    exact (c ∷ k) t = ap (λ l. c ∷ l) (exact k t)

drop-front : (k t : Text) → drop (length (k ++ t) - length t) (k ++ t) ≡ t
drop-front k t = ap (λ n. drop n (k ++ t)) (let n = length-append k t in omega arith) ∙ exact k t
  where
    exact : (k t : Text) → drop (length k) (k ++ t) ≡ t
    exact [] t = refl
    exact (c ∷ k) t = exact k t

has_slash-append :
    (x y : Text) → has_slash x ≡ false → has_slash y ≡ false → has_slash (x ++ y) ≡ false
unfolding has_slash
has_slash-append [] y h k = k
has_slash-append (c ∷ x) y h k = let rest = has_slash-append x y in ground (arith, rest)

mod_name_of-file :
    (x : Text) → mod_name_of (prefix ++ x ++ extension) ≡ some (prefix ++ x ++ suffix)
unfolding mod_name_of starts_with str_eq
mod_name_of-file x =
    let k = prefix ++ x in
    ap
      (λ t.
        if str_eq t extension
        then some (take (length (k ++ extension) - 3) (k ++ extension) ++ suffix)
        else none)
      (drop-front k extension)
    ∙ ap (λ l. some (l ++ suffix)) (take-front k extension)

-- A file phl_x.so, in any directory, is a module, and its symbol is phl_x_module; x has no '/'.
pub mod_name-file :
    (dir x : Text)
    → has_slash x ≡ false
    → mod_name (dir ++ b'/' ∷ (prefix ++ x ++ extension)) ≡ some (prefix ++ x ++ suffix)
unfolding mod_name base_name has_slash
mod_name-file dir x h =
    ap (λ o. mod_name_of (elim o [ none ↦ dir ++ b'/' ∷ (prefix ++ x ++ extension) | some p ↦ p ]))
      (after_slash-dir dir (prefix ++ x ++ extension) (has_slash-append x extension h refl))
    ∙ mod_name_of-file x

-- The name of a symbol, with the 0 that ends it, has just the size of the buffer that it is written
-- to.
pub mod_name-fits :
    (filename name : Text)
    → mod_name filename ≡ some name
    → (3 ≤ length (base_name filename))
      × (length name + 1 ≡ length (base_name filename) + (length suffix + 1) - 3)
unfolding mod_name mod_name_of
mod_name-fits filename name =
    let p = base_name filename in
    if_intro
      (λ o. o ≡ some name → (3 ≤ length p) × (length name + 1 ≡ length p + (length suffix + 1) - 3))
      (starts_with prefix p && str_eq (drop (length p - 3) p) extension) _ _
      (λ t e.
        let q = take (length p - 3) p in
        let d =
          ap (λ (l : Text). length l)
            (eq_of_str_eq (drop (length p - 3) p) extension
              (right (starts_with prefix p) (str_eq (drop (length p - 3) p) extension) t)) in
        let n = ap (λ o. length (or_empty o)) e in
        let a = length-append q suffix in
        let b = length-take (length p - 3) p in
        let c = length-drop (length p - 3) p in (omega arith, omega arith))
      (λ f e. cc)
