-- ===== src/FileCache.antt =====
-- The file cache, modules/phl_file_cache.c: looking a response up, storing one, and giving up.
pub mod Storing
pub mod Removing
mod Tests
mod Types
pub use Types.*
use phorklift.Prelude.{
  ℕ, suc, zero, ◌+◌, ◌-◌, Bool, true, false, not, ◌||◌, Option, none, some, List, [], ◌∷◌, ◌++◌,
  length, Text, ltb, leb, ◌==◌, if◌then◌else◌,
}
use phorklift.Request.State.{Ret, ok, error, status}

-- "ctx->fd > 0"
pub is_open : Option ℕ → Option ℕ
is_open none = none
is_open (some zero) = none
is_open (some (suc n)) = some (suc n)

-- `expire_after`: -1, which stands for nothing, or a number of seconds, 0 for all other negative ones.
pub data Seconds : Type 0 where
  minus_one : Seconds
  seconds : ℕ → Seconds

-- What a response header says of expiry: a "Cache-Control" without "max-age=" is not stored.
pub data Expiry : Type 0 where
  says_nothing not_stored : Expiry
  says : Seconds → Expiry

-- The loop over the response headers; `none` is a response that is not stored. `expiry` reads
-- "Cache-Control" and "Expires".
pub expire_after : (Header → Expiry) → List Header → Seconds → Option Seconds
expire_after expiry [] found = some found
expire_after expiry (h ∷ hs) found = elim (expiry h) [
  | not_stored ↦ none
  | says_nothing ↦ expire_after expiry hs found
  | says n ↦ expire_after expiry hs n
]

module _ (os : Files) (conf : CacheConf) where
  open os use {
    State, open_file, create, rename, unlink, close, read_item, read_headers, write_item,
    write_body, write_length, prepare_prefix,
  }

  abbrev pub Here : Type 0
  Here = Exchange State

  -- phl_file_cache_rename_file(); its result is not looked at.
  pub rename_file : Text → State → State
  rename_file name s = let o = rename name s in again o.0 o.1
    where
      again : Made Bool → State → State
      again no_entry s' = (rename name (prepare_prefix name s')).1
      again _ s' = s'

  -- phl_file_cache_create_file()
  pub fd_of : Made ℕ × State → Option ℕ × State
  fd_of (made fd, s) = (some fd, s)
  fd_of (_, s) = (none, s)

  pub create_again : Text → Made ℕ × State → Option ℕ × State
  create_again name (no_entry, s) = fd_of (create name (prepare_prefix name s))
  create_again name o = fd_of o

  pub create_file : Text → State → Option ℕ × State
  create_file name s = create_again name (create name s)

  pub close_fd : Option ℕ → State → State
  close_fd none s = s
  close_fd (some fd) s = close fd s

  pub unlink_new : Option Text → State → State
  unlink_new none s = s
  unlink_new (some name) s = unlink name s

  -- phl_file_cache_ctx_free()
  pub ctx_free : Ctx → State → State
  ctx_free c s = unlink_new c.new_filename (close_fd (is_open c.fd) s)

  -- phl_file_cache_abort()
  pub abort : Ctx → Here → Here
  abort c x = record x { ctx = none; files = ctx_free c x.files }

  -- "read and set response headers"
  pub load : Ctx → Item → Option (List Header) × State → Here → Ret × Here
  load c item (none, s) x = (error, record x { files = s })
  load c item (some hs, s) x = (
    status item.status_code,
    record x {
      headers = x.headers ++ hs;
      content_length = item.content_length;
      easy_fd = c.fd;
      files = s;
    },
  )

  pub checked : ℕ → Text → ℕ → Ctx → Item → Here → Ret × Here
  checked now name fd c item x =
      if ltb item.expire_at now
      then (
        ok,
        record x {
          ctx = some (record c { fd = none; new_filename = some name });
          files = unlink name (close fd x.files);
        },
      )
      else load c item (read_headers fd x.files) x

  pub item_read : ℕ → Text → ℕ → Ctx → ReadItem → Here → Ret × Here
  item_read now name fd c read_fails x = (error, x)
  item_read now name fd c too_short x = (ok, abort c x)
  item_read now name fd c (an_item item) x = elim (item.content_length) [
    | none ↦ (ok, abort c x)
    | some n ↦ checked now name fd c item x
  ]

  -- "cache hit!"
  pub hit : ℕ → Text → ℕ → Here → Ret × Here
  hit now name fd x =
      let c : Ctx = record { fd = some fd; new_filename = none; new_length = 0 } in
      let o = read_item fd x.files in
      item_read now name fd c o.0 (record x { ctx = some c; files = o.1 })

  -- "save the filename and store response into it in filters later"
  pub miss : Text → Option ℕ → Here → Ret × Here
  miss name fd x =
      (ok, record x { ctx = some (record { fd = fd; new_filename = some name; new_length = 0 }) })

  pub try_last : ℕ → Text → Option ℕ × State → Here → Ret × Here
  try_last now name (none, s) x = miss name none (record x { files = s })
  try_last now name (some fd, s) x = hit now name fd (record x { files = rename_file name s })

  pub try_current : ℕ → Text → Option ℕ → Here → Ret × Here
  try_current now name (some (suc n)) x = hit now name (suc n) x
  try_current now name fd x =
      if conf.has_last then try_last now name (open_file last name x.files) x else miss name fd x

  -- phl_file_cache_filter_process_headers(), for a GET or a HEAD with a key, whose hash gives the
  -- name of the file.
  pub process_headers : ℕ → Text → Here → Ret × Here
  process_headers now name x =
      let o = open_file current name x.files in try_current now name o.0 (record x { files = o.1 })

  pub item_written : Ctx → Bool × State → Here → Ret × Here
  item_written c (true, s) x = (ok, record x { ctx = some c; files = s })
  item_written c (false, s) x = (ok, abort c (record x { files = s }))

  -- "create item"
  pub created : ℕ → Ctx → Option ℕ × State → Here → Ret × Here
  created expire_at c (none, s) x = (ok, abort (record c { fd = none }) (record x { files = s }))
  created expire_at c (some fd, s) x =
      item_written (record c { fd = some fd })
        (write_item fd
          (record { content_length = none; expire_at = expire_at; status_code = x.status_code })
          x.headers s)
        x

  pub with_seconds : ℕ → Ctx → Text → ℕ → Here → Ret × Here
  with_seconds now c name n x =
      if n == 0 then (ok, abort c x) else created (n + now) c (create_file name x.files) x

  pub with_expiry : ℕ → Ctx → Text → Option Seconds → Here → Ret × Here
  with_expiry now c name none x = (ok, abort c x)
  with_expiry now c name (some minus_one) x = with_seconds now c name conf.default_expire x
  with_expiry now c name (some (seconds n)) x = with_seconds now c name n x

  pub storing : (Header → Expiry) → ℕ → Ctx → Option Text → Here → Ret × Here
  storing expiry now c none x = (ok, x)
  storing expiry now c (some name) x =
      if not (x.status_code == 200)
      then (ok, abort c x)
      else with_expiry now c name (expire_after expiry x.headers minus_one) x

  pub storing_ctx : (Header → Expiry) → ℕ → Option Ctx → Here → Ret × Here
  storing_ctx expiry now none x = (ok, x)
  storing_ctx expiry now (some c) x = storing expiry now c c.new_filename x

  -- phl_file_cache_filter_response_headers()
  pub response_headers : (Header → Expiry) → ℕ → Here → Ret × Here
  response_headers expiry now x = storing_ctx expiry now x.ctx x

  -- `write` to a file descriptor that may be -1.
  pub write_fd : Option ℕ → List ℕ → State → Bool × State
  write_fd none data_bytes s = (false, s)
  write_fd (some fd) data_bytes s = write_body fd data_bytes s

  pub write_total : Option ℕ → ℕ → State → State
  write_total none n s = s
  write_total (some fd) n s = (write_length fd n s).1

  -- "mark finished", on the context, which lives on after it has been given up.
  pub finish : Bool → Ctx → State → Ctx × State
  finish false c s = (c, s)
  finish true c s = (record c { new_filename = none }, write_total c.fd c.new_length s)

  pub body_written : List ℕ → Bool → Ctx → Bool × State → Here → Here
  body_written data_bytes is_last c (is_ok, s) x =
      let x' = if is_ok then record x { files = s } else abort c (record x { files = s }) in
      let o =
        finish is_last (record c { new_length = c.new_length + length data_bytes }) x'.files in
      record x' { ctx = if is_ok then some o.0 else none; files = o.1 }

  pub store_body : List ℕ → Bool → Ctx → Option Text → Here → Here
  store_body data_bytes is_last c none x = x
  store_body data_bytes is_last c (some name) x =
      body_written data_bytes is_last c (write_fd c.fd data_bytes x.files) x

  pub with_ctx : List ℕ → Bool → Option Ctx → Here → Here
  with_ctx data_bytes is_last none x = x
  with_ctx data_bytes is_last (some c) x = store_body data_bytes is_last c c.new_filename x

  -- phl_file_cache_filter_response_body(), which returns `data_len` always.
  pub response_body : List ℕ → Bool → Here → Here
  response_body data_bytes is_last x = with_ctx data_bytes is_last x.ctx x

  -- The pieces of one response, of which the last is the last of the list.
  pub bodies : List (List ℕ) → List ℕ → Here → Here
  bodies [] final x = response_body final true x
  bodies (piece ∷ rest) final x = bodies rest final (response_body piece false x)
