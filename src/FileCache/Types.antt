-- ===== src/FileCache/Types.antt =====
-- modules/phl_file_cache.c: its data, and the system calls that it makes.
use phorklift.Prelude.{ℕ, Bool, Option, List, Text}

-- `struct phl_header`: name and value.
abbrev pub Header : Type 0
Header = Text × Text

-- `struct phl_file_cache_item`, without the lengths of the headers behind it. A `content_length` of
-- PHL_CONTENT_LENGTH_INIT is `none`.
pub record Item : Type 0 where
  pub content_length : Option ℕ
  pub expire_at : ℕ
  pub status_code : ℕ

-- What `read` of an item gives: an error, too few bytes, or an item.
pub data ReadItem : Type 0 where
  read_fails too_short : ReadItem
  an_item : Item → ReadItem

-- `openat` that creates, and `renameat`: ENOENT is told from other errors.
pub data Made (A : Type 0) : Type 0 where
  made : A → Made A
  no_entry other_error : Made A

pub data Dir : Type 0 where
  current last : Dir

-- The system calls, and the dump and load of headers. A file descriptor is a number, and `none` is a
-- negative result.
pub record Files : Type 1 where
  pub State : Type 0
  pub open_file : Dir → Text → State → Option ℕ × State
  pub create : Text → State → Made ℕ × State
  pub rename : Text → State → Made Bool × State
  pub unlink : Text → State → State
  pub close : ℕ → State → State
  pub read_item : ℕ → State → ReadItem × State
  pub read_headers : ℕ → State → Option (List Header) × State
  pub write_item : ℕ → Item → List Header → State → Bool × State
  pub write_body : ℕ → List ℕ → State → Bool × State
  pub write_length : ℕ → ℕ → State → Bool × State
  pub prepare_prefix : Text → State → State

-- `struct phl_file_cache_ctx`
pub record Ctx : Type 0 where
  pub fd : Option ℕ
  pub new_filename : Option Text
  pub new_length : ℕ

-- `struct phl_file_cache_conf`: whether `last_dirfd` is there, and `default_expire`.
pub record CacheConf : Type 0 where
  pub has_last : Bool
  pub default_expire : ℕ

-- The context in the module, the part of the response that the filters read and write, and the files.
pub record Exchange (S : Type 0) : Type 0 where
  pub ctx : Option Ctx
  pub status_code : ℕ
  pub headers : List Header
  pub content_length : Option ℕ
  pub easy_fd : Option ℕ
  pub files : S
