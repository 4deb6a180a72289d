-- ===== src/Request/Response/Endless.antt =====
-- phl_request_response_body(): a file that has become shorter than the length that was announced.
use phorklift.Prelude.{
  ℕ, suc, zero, ◌+◌, ◌<◌, ◌≡◌, ◌≢◌, refl, false, not, Option, none, some, List, [], length, ◌==◌,
  arith, if_intro, ap, sym, subst, ◌∙◌,
}
use phorklift.Connection.{Space, space, later, failed}
use phorklift.Request.Response.{
  Body, given, Filtered, Sources, Response, Outcome, returns, unfinished, is_complete,
  is_last_piece, Here, Result, at, from_file, generate, packed, filtered, generated, with_len,
  in_window, with_space, begun, response_body,
}
use phorklift.Request.Response.Sending.{IsPlain}

abbrev pub IsSpace : Space → Type 0
IsSpace (space n) = Unit
IsSpace _ = ⊥

-- A response from a file, of which fewer bytes were generated than announced.
pub record IsFile {W : Type 0} (x : Response W) : Type 0 where
  pub no_string : x.easy_string ≡ []
  pub is_file : x.easy_fd ≢ 0
  pub announced : ℕ
  pub whole : x.content_original_length ≡ some announced
  pub missing : x.content_generated_length < announced

abbrev Unfinished : {W : Type 0} → Outcome W → Type 0
Unfinished unfinished = Unit
Unfinished (returns ret x) = ⊥

module _ (src : Sources) (plain : IsPlain src)
    (rooms : (w : src.World) → IsSpace (src.make_space w).0)
    (ends : (n : ℕ) (w : src.World) → (src.read n w).0 ≡ some []) where
  open src use {World, make_space, packfix, window, read}

  packed-Unfinished :
      (next : Here src → Result src) (f : Filtered) (x : Here src)
      → f ≡ record { body = given []; is_last = false }
      → IsFile x
      → ((x' : Here src) → IsFile x' → Unfinished (next x'))
      → Unfinished (packed src next f x)
  unfolding packed
  packed-Unfinished next f x e h k =
      subst (λ f'. Unfinished (packed src next f' x)) (sym e)
        (k _ (record {
          no_string = h.no_string;
          is_file = h.is_file;
          announced = h.announced;
          whole = h.whole;
          missing = h.missing;
        }))

  -- A piece of no bytes.
  empty-Unfinished :
      (next : Here src → Result src) (buf_len : ℕ) (o : Body × World) (x : Here src)
      → o.0 ≡ given []
      → IsFile x
      → ((x' : Here src) → IsFile x' → Unfinished (next x'))
      → Unfinished (generated src next o.0 buf_len (at src o.1 x))
  unfolding generated filtered is_last_piece
  empty-Unfinished next buf_len o x e h k =
      subst (λ b. Unfinished (generated src next b buf_len (at src o.1 x))) (sym e)
        (packed-Unfinished next _ _
          (plain.unfiltered [] buf_len
              (is_last_piece (x.content_generated_length + 0) x.content_original_length 0) o.1
            ∙ ap (λ l. record { body = given []; is_last = l }) not_last)
          (record {
            no_string = h.no_string;
            is_file = h.is_file;
            announced = h.announced;
            whole = h.whole;
            missing = omega (arith, h.missing);
          })
          k)
    where
      not_last : is_last_piece (x.content_generated_length + 0) x.content_original_length 0 ≡ false
      not_last =
          ap (λ w. is_last_piece (x.content_generated_length + 0) w 0) h.whole
          ∙ ground (arith, h.missing)

  from_file_end : (n : ℕ) (w : World) → (from_file (read n w)).0 ≡ given []
  unfolding from_file
  from_file_end n w = go (read n w) (ends n w)
    where
      go : (o : Option (List ℕ) × World) → o.0 ≡ some [] → (from_file o).0 ≡ given []
      go (none, w') e = cc
      go (some b, w') e = cc

  with_len-Unfinished :
      (next : Here src → Result src) (buf_len : ℕ) (x : Here src)
      → IsFile x
      → ((x' : Here src) → IsFile x' → Unfinished (next x'))
      → Unfinished (with_len src next buf_len x)
  unfolding with_len generate is_complete
  with_len-Unfinished next buf_len x h k =
      if_intro Unfinished (is_complete x.content_generated_length x.content_original_length) _ _
        (λ e.
          let more : is_complete x.content_generated_length x.content_original_length ≡ false =
            ap (λ w. is_complete x.content_generated_length w) h.whole
            ∙ ground (arith, h.missing) in
          let no : ⊥ = cc in elim no [ ])
        (λ e. empty-Unfinished next buf_len (generate src buf_len x) x from_end h k)
    where
      from_end : (generate src buf_len x).0 ≡ given []
      from_end =
          if_intro (λ (o : Body × World). o.0 ≡ given []) (not (length x.easy_string == 0)) _ _
            (λ e. let no : ⊥ = ground (arith, ap length h.no_string) in elim no [ ])
            (λ e.
              if_intro (λ (o : Body × World). o.0 ≡ given []) (not (x.easy_fd == 0)) _ _
                (λ e'. from_file_end _ x.world)
                (λ e'. let no : ⊥ = ground (arith, h.is_file) in elim no [ ]))

  with_space-Unfinished :
      (next : Here src → Result src) (o : Space) (x : Here src)
      → IsSpace o
      → IsFile x
      → ((x' : Here src) → IsFile x' → Unfinished (next x'))
      → Unfinished (with_space src next o x)
  unfolding with_space in_window
  with_space-Unfinished next failed x r h k = elim r [ ]
  with_space-Unfinished next later x r h k = elim r [ ]
  with_space-Unfinished next (space n) x r h k =
      subst (λ o. Unfinished (in_window src next o (packfix n) x)) (sym plain.unlimited)
        (with_len-Unfinished next (packfix n) x h k)

  goes_on : (fuel : ℕ) (x : Here src) → IsFile x → Unfinished (response_body src fuel x)
  unfolding response_body begun
  goes_on zero x h = tt
  goes_on (suc fuel) x h =
      with_space-Unfinished (response_body src fuel) _ _ (rooms x.world)
        (record {
          no_string = h.no_string;
          is_file = h.is_file;
          announced = h.announced;
          whole = h.whole;
          missing = h.missing;
        })
        (goes_on fuel)

  -- A file that ends before the announced length keeps the step running: whatever the fuel, the call
  -- has not returned, when `read` gives no more bytes and there is room in the send buffer.
  pub response_body-Unfinished :
      (fuel : ℕ) (x : Here src) → IsFile x → response_body src fuel x ≡ unfinished
  response_body-Unfinished fuel x h = is_unfinished _ (goes_on fuel x h)
    where
      is_unfinished : (o : Result src) → Unfinished o → o ≡ unfinished
      is_unfinished unfinished u = refl
      is_unfinished (returns ret x') u = elim u [ ]
