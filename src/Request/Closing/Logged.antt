-- ===== src/Request/Closing/Logged.antt =====
-- phl_request_access_log() in phl_request.c: what becomes of the format of the configuration.
use phorklift.Prelude.{
  ◌≡◌, refl, Bool, false, ◌&&◌, not, ◌⊎◌, inl, inr, Option, none, some, List, [], ◌∷◌, ◌++◌, Text,
  if◌then◌else◌, ap, sym, ◌∙◌, if_intro,
}
use phorklift.Request.State.{Request}
use phorklift.Request.Closing.{
  Seen, AccessLog, Entry, custom, dash, format_entries, line, passes_filter, access_log,
}

format_entries-ignored :
    (log : AccessLog) (r : Request) → log.replace_format ≡ false → format_entries log r ≡ []
unfolding format_entries
format_entries-ignored log r e = go log.format
  where
    inner :
        (o : Option Text)
        → (elim o [ none ↦ [] | some s ↦ if log.replace_format then custom s ∷ [] else [] ]) ≡ []
    inner none = refl
    inner (some s) = rw e

    go :
        (o : Option (Request → Option Text))
        → (elim o [
          | none ↦ []
          | some f ↦ elim (f r) [
            | none ↦ []
            | some s ↦ if log.replace_format then custom s ∷ [] else []
          ]
        ])
          ≡ []
    go none = refl
    go (some f) = inner (f r)

-- The guards of the function, before anything is written.
written : Bool → AccessLog → Request → List Entry → List Entry
written sampled log r entries =
    if log.rate_is_zero
    then []
    else if not log.enable_subrequest && r.is_subrequest
    then []
    else if not (passes_filter log r)
    then []
    else if not log.rate_is_one && not sampled
    then []
    else entries

abbrev Ends : Entry → List Entry → Type 0
Ends e l = (l ≡ []) ⊎ ((k : List Entry) × (l ≡ k ++ e ∷ []))

written-cases :
    (sampled : Bool) (log : AccessLog) (r : Request) (front : List Entry) (e : Entry)
    → Ends e (written sampled log r (front ++ e ∷ []))
unfolding written
written-cases sampled log r front e =
    if_intro (Ends e) log.rate_is_zero _ _ (λ t. inl refl)
      (λ f.
        if_intro (Ends e) (not log.enable_subrequest && r.is_subrequest) _ _ (λ t. inl refl)
          (λ f.
            if_intro (Ends e) (not (passes_filter log r)) _ _ (λ t. inl refl)
              (λ f.
                if_intro (Ends e) (not log.rate_is_one && not sampled) _ _ (λ t. inl refl)
                  (λ f. inr (front, refl)))))

-- A format of the configuration is never appended to the default fields: without `replace_format`,
-- what is logged is the same whatever the format is, also if there is none. With `replace_format`,
-- the default fields are logged all the same: what is logged is nothing, or it ends in them, with "-"
-- for the format.
pub access_log-format :
    (sampled : Bool) (log : AccessLog) (t : Seen) (r : Request) (f : Option (Request → Option Text))
    → (log.replace_format ≡ false
        → access_log sampled (record log { format = f }) t r ≡ access_log sampled log t r)
      × ((access_log sampled log t r ≡ [])
          ⊎ ((front : List Entry) × (access_log sampled log t r ≡ front ++ line t r dash ∷ [])))
unfolding access_log written
access_log-format sampled log t r f = (
  λ e.
      ap (λ l. written sampled log r (l ++ line t r dash ∷ []))
        (format_entries-ignored (record log { format = f }) r e
          ∙ sym (format_entries-ignored log r e)),
  written-cases sampled log r (format_entries log r) (line t r dash),
)
