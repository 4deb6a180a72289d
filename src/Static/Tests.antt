-- ===== src/Static/Tests.antt =====
-- A run of the response headers of a file.
use phorklift.Prelude.{
  ℕ, ◌≤◌, ◌<◌, ◌≡◌, refl, true, false, Option, none, some, [], ◌∷◌, arith, ltb, if◌then◌else◌,
  if_intro, ap, subst,
}
use phorklift.Static.{
  regular, Ranges, bad_range, ranges, Serving, static_headers, use_file, range_headers,
}
use phorklift.Static.Held.{IsParser, Outcome, static_headers-Outcome}

abbrev few : ℕ → Ranges
few size = if ltb 9 size then ranges ((3, 9) ∷ []) else bad_range

abbrev first_of : Ranges → ℕ
first_of (ranges ((a, b) ∷ [])) = a
first_of _ = 0

abbrev last_of : Ranges → ℕ
last_of (ranges ((a, b) ∷ [])) = b
last_of _ = 0

few-IsParser : IsParser few
unfolding IsParser
few-IsParser size first last =
    if_intro (λ r. r ≡ ranges ((first, last) ∷ []) → (first ≤ last) × (last < size)) (ltb 9 size) _
      _ (λ t e. let a = ap first_of e in let b = ap last_of e in (omega arith, ground arith))
      (λ f e. cc)

abbrev serving : Serving
serving = record {
  open_path = λ path. some 7;
  open_index = λ fd name. none;
  stat_of = λ fd. record { file_type = regular; size = 100; mtime = 5 };
  list_dir = false;
  index = none;
  is_get = true;
  if_modified_since = some 4;
  range = some few;
  if_range = none;
}

abbrev or_few : Option (ℕ → Ranges) → ℕ → Ranges
or_few none = few
or_few (some parse) = parse

serving-law : (parse : ℕ → Ranges) → some few ≡ some parse → IsParser parse
serving-law parse e = subst IsParser (ap or_few e) few-IsParser

static_headers-Outcome_example :
    Outcome serving serving-law (b'f' ∷ []) (static_headers serving (b'f' ∷ []))
static_headers-Outcome_example = static_headers-Outcome serving serving-law (b'f' ∷ [])

-- Seven bytes from the third on.
seven : (static_headers serving (b'f' ∷ [])).1.content_length ≡ some 7
unfolding static_headers use_file range_headers
seven = refl
