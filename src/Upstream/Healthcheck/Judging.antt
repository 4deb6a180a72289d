-- ===== src/Upstream/Healthcheck/Judging.antt =====
-- phl_upstream_healthcheck.c: which responses pass.
use phorklift.Prelude.{
  ℕ, suc, ◌<◌, ◌≤◌, ◌≡◌, ◌≢◌, refl, Bool, true, false, Option, none, some, [], ◌∷◌, ◌++◌, length,
  Text, length-append, starts_with, starts_with-append, split_of_starts_with, ltb, ◌==◌,
  if◌then◌else◌, arith, ap, sym, ◌∙◌, if_intro,
}
use mathlib.Core.List.{append-nil}
use phorklift.Upstream.Healthcheck.{
  Verdict, waits, judged, crashes, judge_front, judge_exact, c_string, judge_by, judge,
}

-- A verdict against a set of responses: it waits for as many bytes as there are at least, it passes
-- those of the set, and it fails no other.
pub record Decides (fewest : ℕ) (passing : Text → Type 0) (got_data : Text) (v : Verdict)
    : Type 0 where
  pub some_verdict : v ≢ crashes
  pub early : v ≡ waits → length got_data < fewest
  pub enough : fewest ≤ length got_data → v ≢ waits
  pub sound : v ≡ judged true → passing got_data
  pub complete : passing got_data → v ≡ judged true

abbrev pub Begins : Text → Text → Type 0
Begins resp got_data = (rest : Text) × (got_data ≡ resp ++ rest)

Begins-length : (resp got_data : Text) → Begins resp got_data → length resp ≤ length got_data
Begins-length resp got_data (rest, e) = omega (arith, length-append resp rest, ap length e)

Begins-starts_with :
    (resp got_data : Text) → Begins resp got_data → starts_with resp got_data ≡ true
Begins-starts_with resp got_data (rest, e) = ap (starts_with resp) e ∙ starts_with-append resp rest

judge_front-Decides :
    (resp got_data : Text)
    → Decides (length resp) (Begins resp) got_data (judge_front resp got_data)
unfolding judge_front
judge_front-Decides resp got_data =
    if_intro (Decides (length resp) (Begins resp) got_data) (ltb (length got_data) (length resp)) _
      _
      (λ t. record {
        some_verdict = λ e. cc;
        early = λ e. ground arith;
        enough = λ l. let no : ⊥ = ground arith in elim no [ ];
        sound = λ e. cc;
        complete = λ b.
            let long = Begins-length resp got_data b in
            let no : ⊥ = ground (arith, long) in elim no [ ];
      })
      (λ t. record {
        some_verdict = λ e. cc;
        early = λ e. cc;
        enough = λ l e. cc;
        sound = λ e.
            let begins : starts_with resp got_data ≡ true = cc in
            split_of_starts_with resp got_data begins;
        complete = λ b. ap judged (Begins-starts_with resp got_data b);
      })

Begins-equal :
    (resp got_data : Text) → Begins resp got_data → length got_data ≤ length resp → got_data ≡ resp
Begins-equal resp got_data ([], e) l = e ∙ append-nil resp
Begins-equal resp got_data (c ∷ rest, e) l =
    let no : ⊥ = omega (arith, length-append resp (c ∷ rest), ap length e) in elim no [ ]

judge_exact-Decides :
    (resp got_data : Text)
    → Decides (length resp) (λ t. t ≡ resp) got_data (judge_exact resp got_data)
unfolding judge_exact
judge_exact-Decides resp got_data =
    if_intro (Decides (length resp) (λ t. t ≡ resp) got_data) (ltb (length got_data) (length resp))
      _ _
      (λ t. record {
        some_verdict = λ e. cc;
        early = λ e. ground arith;
        enough = λ l. let no : ⊥ = ground arith in elim no [ ];
        sound = λ e. cc;
        complete = λ b. let same = ap length b in let no : ⊥ = ground (arith, same) in elim no [ ];
      })
      (λ t.
        if_intro (Decides (length resp) (λ t. t ≡ resp) got_data)
          (ltb (length resp) (length got_data)) _ _
          (λ t'. record {
            some_verdict = λ e. cc;
            early = λ e. cc;
            enough = λ l e. cc;
            sound = λ e. cc;
            complete =
                λ b. let same = ap length b in let no : ⊥ = ground (arith, same) in elim no [ ];
          })
          (λ t'. record {
            some_verdict = λ e. cc;
            early = λ e. cc;
            enough = λ l e. cc;
            sound = λ e.
                let begins : starts_with resp got_data ≡ true = cc in
                Begins-equal resp got_data (split_of_starts_with resp got_data begins)
                  (ground arith);
            complete =
                λ b. ap judged (Begins-starts_with resp got_data ([], b ∙ sym (append-nil resp)));
          }))

-- The bytes that the configured response needs before it can be judged.
abbrev pub fewest : Text → ℕ
fewest [] = 0
fewest (c ∷ resp) =
    if c == b'*'
    then 0
    else if c == b'='
    then length resp
    else if c == b'~'
    then 0
    else suc (length resp)

module _ (find : Text → Text → Bool) (beyond : Text) where
  -- The responses that the configured string describes, by its first character: any response for a
  -- leading `*`, whatever follows it; for a leading `=` the rest of the string exactly; for a leading
  -- `~` those in which the rest is found as a pattern, up to the first 0; otherwise those that begin
  -- with the string.
  abbrev pub Described : Text → Text → Type 0
  Described [] got_data = Begins [] got_data
  Described (c ∷ resp) got_data =
      if c == b'*'
      then Unit
      else if c == b'='
      then got_data ≡ resp
      else if c == b'~'
      then find (c_string (got_data ++ beyond)) resp ≡ true
      else Begins (c ∷ resp) got_data

  anything : (got_data : Text) → Decides 0 (λ t. Unit) got_data (judged true)
  anything got_data = record {
    some_verdict = λ e. cc;
    early = λ e. cc;
    enough = λ l e. cc;
    sound = λ e. tt;
    complete = λ e. refl;
  }

  kinds :
      (any exact regex : Bool) (c : ℕ) (resp got_data : Text)
      → Decides
          (if any then 0 else if exact then length resp else if regex then 0 else suc (length resp))
          (λ t.
            if any
            then Unit
            else if exact
            then t ≡ resp
            else if regex
            then find (c_string (t ++ beyond)) resp ≡ true
            else Begins (c ∷ resp) t)
          got_data
          (if any
            then judged true
            else if exact
            then judge_exact resp got_data
            else if regex
            then judged (find (c_string (got_data ++ beyond)) resp)
            else judge_front (c ∷ resp) got_data)
  kinds true exact regex c resp got_data = anything got_data
  kinds false true regex c resp got_data = judge_exact-Decides resp got_data
  kinds false false true c resp got_data = record {
    some_verdict = λ e. cc;
    early = λ e. cc;
    enough = λ l e. cc;
    sound = λ e. cc;
    complete = λ e. ap judged e;
  }
  kinds false false false c resp got_data = judge_front-Decides (c ∷ resp) got_data

  judge_by-Decides :
      (resp got_data : Text)
      → Decides (fewest resp) (Described resp) got_data (judge_by find beyond resp got_data)
  unfolding judge_by
  judge_by-Decides [] got_data = judge_front-Decides [] got_data
  judge_by-Decides (c ∷ resp) got_data = kinds (c == b'*') (c == b'=') (c == b'~') c resp got_data

  abbrev pub Judges : Option Text → Text → Verdict → Type 0
  Judges none got_data v = v ≡ crashes
  Judges (some resp) got_data v = Decides (fewest resp) (Described resp) got_data v

  -- A response passes when it is one that the configured string describes by its first character,
  -- where `*` may be followed by anything, and fails only otherwise; and it is judged as soon as it
  -- has as many bytes as such a response has at least. A pattern is searched for in the data and the
  -- bytes behind them, up to the first 0. Without a configured string, a null pointer is read.
  pub judge-Decides :
      (resp : Option Text) (got_data : Text)
      → Judges resp got_data (judge find beyond resp got_data)
  unfolding judge
  judge-Decides none got_data = refl
  judge-Decides (some resp) got_data = judge_by-Decides resp got_data
