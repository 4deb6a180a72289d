-- ===== src/FileCache/Removing.antt =====
-- phl_file_cache.c: what the filter of the response headers leaves, and which file it removes.
use phorklift.Prelude.{
  ℕ, ◌+◌, ◌≡◌, ◌⊎◌, inl, inr, refl, Bool, true, false, not, Option, none, some, Text, ◌==◌,
  if_intro, subst, sym,
}
use phorklift.Request.State.{Ret, ok}
use phorklift.FileCache.{
  Header, Files, Ctx, CacheConf, Expiry, Seconds, minus_one, seconds, Here, create_file, unlink_new,
  ctx_free, abort, item_written, created, with_seconds, with_expiry, storing, storing_ctx,
  response_headers,
}

module _ (os : Files) (conf : CacheConf) where
  open os use {State, create, unlink, close, write_item}

  -- The file of that name has been made for this request, and its header and the response headers are
  -- written to it.
  pub record Stored (name : Text) (x y : Here os conf) : Type 0 where
    pub fd : ℕ
    pub new_length : ℕ
    pub expire_at : ℕ
    pub at_creation : State
    pub is_made : create_file os conf name x.files ≡ (some fd, at_creation)
    pub is_written :
        write_item fd
          (record { content_length = none; expire_at = expire_at; status_code = x.status_code })
          x.headers
          at_creation
        ≡ (true, y.files)
    pub is_kept :
        y.ctx ≡ some (record { fd = some fd; new_filename = some name; new_length = new_length })

  -- The request goes on with PHL_OK and the same response; and either its response is being stored in a
  -- file that this request has made, or the context is given up and the file of that name is
  -- removed.
  pub record Settled (name : Text) (x : Here os conf) (o : Ret × Here os conf) : Type 0 where
    pub goes_on : o.0 ≡ ok
    pub same_status : o.1.status_code ≡ x.status_code
    pub same_headers : o.1.headers ≡ x.headers
    pub outcome : Stored name x o.1 ⊎ ((o.1.ctx ≡ none) × (s : State) × (o.1.files ≡ unlink name s))

  -- The context of a miss.
  abbrev pub missed : Option ℕ → Text → ℕ → Ctx
  missed fd name n = record { fd = fd; new_filename = some name; new_length = n }

  abort-Settled :
      (fd : Option ℕ) (name : Text) (n : ℕ) (s : State) (x : Here os conf)
      → Settled name x (ok, abort os conf (missed fd name n) (record x { files = s }))
  unfolding abort ctx_free unlink_new
  abort-Settled fd name n s x = record {
    goes_on = refl;
    same_status = refl;
    same_headers = refl;
    outcome = inr (refl, _, refl);
  }

  created-Settled :
      (expire_at : ℕ) (fd : Option ℕ) (name : Text) (n : ℕ) (o : Option ℕ × State)
      (x : Here os conf)
      → create_file os conf name x.files ≡ o
      → Settled name x (created os conf expire_at (missed fd name n) o x)
  unfolding created item_written
  created-Settled expire_at fd name n (none, s) x c = abort-Settled none name n s x
  created-Settled expire_at fd name n (some new, s) x c = go _ refl
    where
      go :
          (o : Bool × State)
          → write_item new
              (record { content_length = none; expire_at = expire_at; status_code = x.status_code })
              x.headers
              s
            ≡ o
          → Settled name x (item_written os conf (missed (some new) name n) o x)
      go (true, s') w = record {
        goes_on = refl;
        same_status = refl;
        same_headers = refl;
        outcome = inl (record {
          fd = new;
          new_length = n;
          expire_at = expire_at;
          at_creation = s;
          is_made = c;
          is_written = w;
          is_kept = refl;
        });
      }
      go (false, s') w = abort-Settled (some new) name n s' x

  with_seconds-Settled :
      (now : ℕ) (fd : Option ℕ) (name : Text) (n k : ℕ) (x : Here os conf)
      → Settled name x (with_seconds os conf now (missed fd name n) name k x)
  unfolding with_seconds
  with_seconds-Settled now fd name n k x =
      if_intro (Settled name x) (k == 0) _ _ (λ e. abort-Settled fd name n x.files x)
        (λ e. created-Settled (k + now) fd name n _ x refl)

  with_expiry-Settled :
      (now : ℕ) (fd : Option ℕ) (name : Text) (n : ℕ) (o : Option Seconds) (x : Here os conf)
      → Settled name x (with_expiry os conf now (missed fd name n) name o x)
  unfolding with_expiry
  with_expiry-Settled now fd name n none x = abort-Settled fd name n x.files x
  with_expiry-Settled now fd name n (some minus_one) x = with_seconds-Settled now fd name n _ x
  with_expiry-Settled now fd name n (some (seconds k)) x = with_seconds-Settled now fd name n k x

  -- After a miss, the filter of the response headers never stops the request or changes its response:
  -- either the file of that name could be made, its header and the response headers are written to
  -- it, and the context keeps its descriptor to store the body; or the context is gone and the file of
  -- that name is removed. So the file is removed whenever it could not be made, as when another
  -- request has made it.
  pub response_headers-Settled :
      (expiry : Header → Expiry) (now : ℕ) (fd : Option ℕ) (name : Text) (n : ℕ) (x : Here os conf)
      → x.ctx ≡ some (missed fd name n)
      → Settled name x (response_headers os conf expiry now x)
  unfolding response_headers storing_ctx storing
  response_headers-Settled expiry now fd name n x e =
      subst (λ o. Settled name x (storing_ctx os conf expiry now o x)) (sym e)
        (if_intro (Settled name x) (not (x.status_code == 200)) _ _
          (λ t. abort-Settled fd name n x.files x) (λ t. with_expiry-Settled now fd name n _ x))
