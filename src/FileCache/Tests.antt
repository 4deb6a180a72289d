-- ===== src/FileCache/Tests.antt =====
-- The file cache (modules/phl_file_cache.c) at concrete inputs.
use phorklift.Prelude.{
  ℕ, ◌≡◌, refl, Bool, true, false, Option, none, some, List, [], ◌∷◌, ◌++◌, Text, if◌then◌else◌,
}
use phorklift.Request.State.{status}
use phorklift.FileCache.{
  Header, Item, ReadItem, too_short, an_item, Made, made, no_entry, other_error, Files, CacheConf,
  Exchange, Expiry, says_nothing, is_open, expire_after, fd_of, create_again, create_file, close_fd,
  unlink_new, ctx_free, abort, load, checked, item_read, hit, miss, try_current, process_headers,
  item_written, created, with_seconds, with_expiry, storing, storing_ctx, response_headers,
  write_fd, write_total, finish, body_written, store_body, with_ctx, response_body, bodies,
}
use phorklift.FileCache.Storing.{storing_in, bodies_lem}
use phorklift.FileCache.Removing.{Settled, missed, response_headers-Settled}

-- One file at most: its item, its headers and its body.
pub record OneFile : Type 0 where
  pub is_there : Bool
  pub item : Option Item
  pub file_headers : List Header
  pub file_body : List ℕ

abbrev make : OneFile → Made ℕ × OneFile
make f = if f.is_there then (other_error, f) else (made 5, record f { is_there = true })

abbrev set_length : ℕ → Option Item → Option Item
set_length n none = none
set_length n (some i) = some (record i { content_length = some n })

abbrev read_one : Option Item → ReadItem
read_one none = too_short
read_one (some i) = an_item i

abbrev disk : Files
disk = record {
  State = OneFile;
  open_file = λ d name f. (if f.is_there then some 4 else none, f);
  create = λ name f. make f;
  rename = λ name f. (no_entry, f);
  unlink = λ name f. record f { is_there = false };
  close = λ fd f. f;
  read_item = λ fd f. (read_one f.item, f);
  read_headers = λ fd f. (some f.file_headers, f);
  write_item = λ fd i hs f. (true, record f { item = some i; file_headers = hs });
  write_body = λ fd b f. (true, record f { file_body = f.file_body ++ b });
  write_length = λ fd n f. (true, record f { item = set_length n f.item });
  prepare_prefix = λ name f. f;
}

abbrev daily : CacheConf
daily = record { has_last = false; default_expire = 60 }

abbrev no_file : OneFile
no_file = record { is_there = false; item = none; file_headers = []; file_body = [] }

abbrev fresh : OneFile → Exchange OneFile
fresh f = record {
  ctx = none;
  status_code = 200;
  headers = (b'A' ∷ [], b'1' ∷ []) ∷ [];
  content_length = none;
  easy_fd = none;
  files = f;
}

abbrev silent : Header → Expiry
silent h = says_nothing

abbrev name : Text
name = b'f' ∷ []

abbrev stored : OneFile
stored = record {
  is_there = true;
  item = some (record { content_length = some 3; expire_at = 160; status_code = 200 });
  file_headers = (b'A' ∷ [], b'1' ∷ []) ∷ [];
  file_body = 7 ∷ 8 ∷ 9 ∷ [];
}

-- A miss, the response headers and two pieces of the body make a whole file.
stores :
    (bodies disk daily
      ((7 ∷ 8 ∷ []) ∷ [])
      (9 ∷ [])
      (response_headers disk daily silent 100
        (process_headers disk daily 100 name (fresh no_file)).1).1).files
    ≡ stored
unfolding process_headers try_current miss response_headers storing_ctx storing with_expiry
    expire_after with_seconds create_file create_again fd_of created item_written bodies
    response_body with_ctx store_body write_fd body_written finish write_total
stores = refl

-- Another request then has the response: its length, and its headers behind those that are there.
serves : (process_headers disk daily 120 name (fresh stored)).0 ≡ status 200
unfolding process_headers try_current hit item_read checked load
serves = refl

bodies_lem_example :
    bodies disk daily
      ((7 ∷ 8 ∷ []) ∷ [])
      (9 ∷ [])
      (record (fresh no_file) { ctx = some (storing_in disk daily 5 (some name) 0) })
    ≡ record (fresh no_file) {
      ctx = some (storing_in disk daily 5 none 3);
      files = record no_file { file_body = 7 ∷ 8 ∷ 9 ∷ [] };
    }
bodies_lem_example =
    bodies_lem disk daily (λ fd b s. refl) ((7 ∷ 8 ∷ []) ∷ []) (9 ∷ []) 5 0 name
      (record (fresh no_file) { ctx = some (storing_in disk daily 5 (some name) 0) }) refl

-- A request that missed, while another one has stored the file: the file is removed.
removed :
    (response_headers disk daily silent 100
      (record (fresh stored) { ctx = some (missed disk daily none name 0) })).1.files.is_there
    ≡ false
unfolding response_headers storing_ctx storing with_expiry expire_after with_seconds create_file
    create_again fd_of created abort ctx_free is_open close_fd unlink_new
removed = refl

response_headers-Settled_example :
    Settled disk daily name
      (record (fresh stored) { ctx = some (missed disk daily none name 0) })
      (response_headers disk daily silent 100
        (record (fresh stored) { ctx = some (missed disk daily none name 0) }))
response_headers-Settled_example =
    response_headers-Settled disk daily silent 100 none name 0
      (record (fresh stored) { ctx = some (missed disk daily none name 0) }) refl
