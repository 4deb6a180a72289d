-- ===== src/FileCache/Storing.antt =====
-- phl_file_cache.c: a response that is stored.
use phorklift.Prelude.{
  ℕ, ◌+◌, ◌≡◌, refl, Bool, true, false, Option, none, some, List, [], ◌∷◌, length, Text, arith, ap,
  ◌∙◌,
}
use phorklift.FileCache.{
  Files, Ctx, CacheConf, Here, write_fd, write_total, finish, body_written, store_body, with_ctx,
  response_body, bodies,
}

abbrev pub total : List (List ℕ) → List ℕ → ℕ
total [] final = length final
total (piece ∷ rest) final = length piece + total rest final

module _ (os : Files) (conf : CacheConf) where
  open os use {State, write_body, write_length}

  -- The files after the pieces have been written, in order.
  abbrev pub writes : ℕ → List (List ℕ) → List ℕ → State → State
  writes fd [] final s = (write_body fd final s).1
  writes fd (piece ∷ rest) final s = writes fd rest final (write_body fd piece s).1

  -- A response that is being stored, with the bytes of its body so far.
  abbrev pub storing_in : ℕ → Option Text → ℕ → Ctx
  storing_in fd name n = record { fd = some fd; new_filename = name; new_length = n }

  module _ (succeeds : (fd : ℕ) (b : List ℕ) (s : State) → (write_body fd b s).0 ≡ true) where
    written_lem :
        (b : List ℕ) (is_last : Bool) (c : Ctx) (o : Bool × State) (x : Here os conf)
        → o.0 ≡ true
        → (let c' =
              finish os conf is_last (record c { new_length = c.new_length + length b }) o.1 in
            body_written os conf b is_last c o x ≡ record x { ctx = some c'.0; files = c'.1 })
    unfolding body_written
    written_lem b is_last c (true, s) x e = refl
    written_lem b is_last c (false, s) x e = cc

    piece_lem :
        (b : List ℕ) (fd n : ℕ) (name : Text) (x : Here os conf)
        → x.ctx ≡ some (storing_in fd (some name) n)
        → response_body os conf b false x ≡ record x {
          ctx = some (storing_in fd (some name) (n + length b));
          files = (write_body fd b x.files).1;
        }
    unfolding response_body with_ctx store_body write_fd finish
    piece_lem b fd n name x e =
        ap (λ o. with_ctx os conf b false o x) e ∙ written_lem b false _ _ x (succeeds fd b x.files)

    last_lem :
        (b : List ℕ) (fd n : ℕ) (name : Text) (x : Here os conf)
        → x.ctx ≡ some (storing_in fd (some name) n)
        → response_body os conf b true x ≡ record x {
          ctx = some (storing_in fd none (n + length b));
          files = (write_length fd (n + length b) (write_body fd b x.files).1).1;
        }
    unfolding response_body with_ctx store_body write_fd finish write_total
    last_lem b fd n name x e =
        ap (λ o. with_ctx os conf b true o x) e ∙ written_lem b true _ _ x (succeeds fd b x.files)

    -- The pieces of a response that is being stored, with every write successful, are written in their
    -- order behind what the file has, whatever their sizes; then the sum of all lengths is written in
    -- front, and the name is forgotten, so that the file stays when the request ends. Nothing else of
    -- the response changes.
    pub bodies_lem :
        (rest : List (List ℕ)) (final : List ℕ) (fd n : ℕ) (name : Text) (x : Here os conf)
        → x.ctx ≡ some (storing_in fd (some name) n)
        → bodies os conf rest final x ≡ record x {
          ctx = some (storing_in fd none (n + total rest final));
          files = (write_length fd (n + total rest final) (writes fd rest final x.files)).1;
        }
    unfolding bodies
    bodies_lem [] final fd n name x e = last_lem final fd n name x e
    bodies_lem (piece ∷ rest) final fd n name x e =
        let sum : (n + length piece) + total rest final ≡ n + (length piece + total rest final) =
          omega arith in
        ap (bodies os conf rest final) (piece_lem piece fd n name x e)
        ∙ bodies_lem rest final fd (n + length piece) name _ refl
        ∙ ap
            (λ m. record x {
              ctx = some (storing_in fd none m);
              files = (write_length fd m (writes fd rest final (write_body fd piece x.files).1)).1;
            })
            sum
