-- ===== src/Static.antt =====
-- The response headers of modules/phl_static.c: a file, a part of it, or an error.
pub mod Held
mod Tests
use phorklift.Prelude.{
  ℕ, ◌+◌, ◌-◌, Bool, true, false, Option, none, some, List, [], ◌∷◌, ◌++◌, Text, ◌==◌,
  if◌then◌else◌,
}
use phorklift.Request.State.{Ret, ok, status}

-- The type of a file, by `st_mode & S_IFMT`.
pub data FileType : Type 0 where
  directory regular link other : FileType

pub record Stat : Type 0 where
  pub file_type : FileType
  pub size : ℕ
  pub mtime : ℕ

-- What wuy_http_range_parse() gives: an error, or the ranges, each with its first and last byte.
pub data Ranges : Type 0 where
  bad_range : Ranges
  ranges : List (ℕ × ℕ) → Ranges

-- What the function reads: the files, the configuration, and the headers of the request, parsed.
pub record Serving : Type 0 where
  pub open_path : Text → Option ℕ
  pub open_index : ℕ → Text → Option ℕ
  pub stat_of : ℕ → Stat
  pub list_dir : Bool
  pub index : Option Text
  pub is_get : Bool
  pub if_modified_since : Option ℕ
  pub range : Option (ℕ → Ranges)
  pub if_range : Option ℕ

-- What it leaves: the response, the descriptors that open() has given, in order, those that have been
-- closed, and the context of the request, which holds a descriptor as a pointer: 0 is NULL.
pub record Reply : Type 0 where
  pub status_code : ℕ
  pub content_length : Option ℕ
  pub content_range : Option (ℕ × (ℕ × ℕ))
  pub content_type : Option Text
  pub last_modified : Option ℕ
  pub easy_fd : Option ℕ
  pub offset : ℕ
  pub opened : List ℕ
  pub closed : List ℕ
  pub ctx : ℕ

abbrev pub no_reply : Reply
no_reply = record {
  status_code = 0;
  content_length = none;
  content_range = none;
  content_type = none;
  last_modified = none;
  easy_fd = none;
  offset = 0;
  opened = [];
  closed = [];
  ctx = 0;
}

-- openat() and close(), for the lists of descriptors.
abbrev pub opens : ℕ → Reply → Reply
opens fd p = record p { opened = p.opened ++ fd ∷ [] }

abbrev pub closes : ℕ → Reply → Reply
closes fd p = record p { closed = p.closed ++ fd ∷ [] }

-- phl_static_ctx_free(), which runs when the request is closed.
unfoldable pub ctx_free : Reply → Reply
ctx_free p = if p.ctx == 0 then p else closes p.ctx p

-- phl_static_mime_type(), which is to be written.
abbrev pub mime_type : Text → Text
mime_type filename = b'T' ∷ b'O' ∷ b'D' ∷ b'O' ∷ []

abbrev pub root_name : Text → Text
root_name [] = b'.' ∷ []
root_name (c ∷ s) = c ∷ s

module _ (g : Serving) where
  abbrev partial : ℕ → ℕ → ℕ → Reply → Ret × Reply
  partial first last size p = (
    ok,
    record p {
      status_code = 206;
      content_length = some (last - first + 1);
      content_range = some (first, (last, size));
      offset = first;
    },
  )

  abbrev pub whole_file : Stat → Reply → Ret × Reply
  whole_file st p = (ok, record p { status_code = 200; content_length = some st.size })

  -- "check If-Range"
  abbrev with_range : ℕ → ℕ → Stat → Reply → Ret × Reply
  with_range first last st p = elim g.if_range [
    | none ↦ partial first last st.size p
    | some t ↦ if t == st.mtime then partial first last st.size p else whole_file st p
  ]

  -- phl_static_range_headers(), and the whole file where that gives 200; "multiple ranges are not
  -- suppored".
  unfoldable pub range_headers : Ranges → Stat → Reply → Ret × Reply
  range_headers bad_range st p = (status 416, p)
  range_headers (ranges []) st p = whole_file st p
  range_headers (ranges ((first, last) ∷ [])) st p = with_range first last st p
  range_headers (ranges (r ∷ s ∷ rs)) st p = whole_file st p

  abbrev check_range : Stat → Reply → Ret × Reply
  check_range st p =
      if g.is_get
      then elim g.range [ none ↦ whole_file st p | some parse ↦ range_headers (parse st.size) st p ]
      else whole_file st p

  -- "OK, response the file"
  abbrev respond_file : Text → ℕ → Stat → Reply → Ret × Reply
  respond_file filename fd st p = check_range st (record p {
    easy_fd = some fd;
    last_modified = some st.mtime;
    content_type = some (mime_type filename);
  })

  -- "check If-Modified-Since"
  abbrev check_modified : Text → ℕ → Stat → Reply → Ret × Reply
  check_modified filename fd st p = elim g.if_modified_since [
    | none ↦ respond_file filename fd st p
    | some t ↦ if t == st.mtime then (status 304, p) else respond_file filename fd st p
  ]

  -- The descriptor becomes the context of the request.
  unfoldable pub use_file : Text → ℕ → FileType → Stat → Reply → Ret × Reply
  use_file filename fd regular st p = check_modified filename fd st (record p { ctx = fd })
  use_file filename fd link st p = check_modified filename fd st (record p { ctx = fd })
  use_file filename fd directory st p = (status 404, record p { ctx = fd })
  use_file filename fd other st p = (status 404, record p { ctx = fd })

  -- The index of a directory is opened, and the directory is closed then in any case.
  abbrev use_index : Text → ℕ → Option ℕ → Reply → Ret × Reply
  use_index filename dir none p = (status 404, closes dir p)
  use_index filename dir (some fd) p =
      use_file filename fd ((g.stat_of fd).file_type) (g.stat_of fd) (closes dir (opens fd p))

  -- "if directory"; phl_static_dir_headers() ends with closedir(), and its response is left out.
  abbrev use_directory : Text → ℕ → Reply → Ret × Reply
  use_directory filename fd p = if g.list_dir then (ok, closes fd p) else elim g.index [
    | none ↦ (status 404, p)
    | some name ↦ use_index filename fd (g.open_index fd name) p
  ]

  abbrev use_opened : Text → ℕ → FileType → Reply → Ret × Reply
  use_opened filename fd directory p = use_directory filename fd p
  use_opened filename fd regular p = use_file filename fd regular (g.stat_of fd) p
  use_opened filename fd link p = use_file filename fd link (g.stat_of fd) p
  use_opened filename fd other p = use_file filename fd other (g.stat_of fd) p

  -- phl_static_generate_response_headers(), for the path after its first '/'.
  unfoldable pub static_headers : Text → Ret × Reply
  static_headers path = elim (g.open_path (root_name path)) [
    | none ↦ (status 404, no_reply)
    | some fd ↦ use_opened (root_name path) fd ((g.stat_of fd).file_type) (opens fd no_reply)
  ]
