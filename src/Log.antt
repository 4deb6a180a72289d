-- ===== src/Log.antt =====
-- phl_log.c: the files that are logged to, each with a buffer that its writers share.
pub mod Writing
mod Tests
use phorklift.Prelude.{
  ℕ, zero, suc, ◌+◌, ◌-◌, Bool, true, false, Option, none, some, List, [], ◌∷◌, ◌++◌, Text, length,
  take, ltb, leb, ◌==◌, if◌then◌else◌, str_eq,
}

-- `struct phl_log_file`: the bytes of the buffer up to `pos`, and those that the file has got.
pub record LogFile : Type 0 where
  pub name : Text
  pub refs : ℕ
  pub buf_size : ℕ
  pub buffer : List ℕ
  pub written : List ℕ

-- The search of phl_log_file_open(), which counts the new user of the file.
unfoldable pub search_file : Text → List LogFile → Option (List LogFile)
search_file name [] = none
search_file name (f ∷ files) =
    let rest = search_file name files in
    if str_eq f.name name
    then some (record f { refs = suc f.refs } ∷ files)
    else elim rest [ none ↦ none | some fs ↦ some (f ∷ fs) ]

abbrev new_file : Text → ℕ → LogFile
new_file name buf_size = record {
  name = name;
  refs = 1;
  buf_size = buf_size;
  buffer = [];
  written = [];
}

-- phl_log_file_open(); `opens` is whether open() succeeds.
unfoldable pub open_file : (Text → Bool) → Text → ℕ → List LogFile → Option (List LogFile)
open_file opens name buf_size files = elim (search_file name files) [
  | some fs ↦ some fs
  | none ↦ if opens name then some (files ++ new_file name buf_size ∷ []) else none
]

-- phl_log_file_close()
unfoldable pub close_file : Text → List LogFile → List LogFile
close_file name [] = []
close_file name (f ∷ files) =
    let rest = close_file name files in
    if str_eq f.name name
    then (if ltb 0 (f.refs - 1) then record f { refs = f.refs - 1 } ∷ files else files)
    else f ∷ rest

-- What write() returns for the buffer: how many of its bytes it has taken, or an error.
abbrev pub taken : Option ℕ → List ℕ → List ℕ
taken none buffer = []
taken (some n) buffer = take n buffer

-- phl_log_file_flush(); the buffer is given up, whatever write() has taken of it.
unfoldable pub flush_file : Option ℕ → LogFile → LogFile
flush_file wrote f = record f { written = f.written ++ taken wrote f.buffer; buffer = [] }

-- vsnprintf() into `n` bytes, one of them for the 0 that ends it, and what is below `pos` after it: a
-- text that does not fit is cut, and its 0 stays.
unfoldable pub printed_text : ℕ → Text → List ℕ
printed_text zero s = []
printed_text (suc n) s = if ltb (length s) (suc n) then s else take n s ++ 0 ∷ []

-- phl_log_file_vwrite(), for the time and the text of a line. It writes outside of the buffer if the
-- time and the space after it leave no byte for the end of the line.
unfoldable pub vwrite_at : Text → Text → LogFile → Option LogFile
vwrite_at stamp s f =
    if leb f.buf_size (length f.buffer + (length stamp + 1))
    then none
    else some (record f {
      buffer =
          f.buffer
          ++ (stamp
              ++ b' '
                ∷ (printed_text (f.buf_size - (length f.buffer + (length stamp + 1)) - 1) s
                    ++ b'\n' ∷ []));
    })

unfoldable pub vwrite : Option ℕ → ℕ → Text → Text → LogFile → Option LogFile
vwrite wrote max_line stamp s f =
    vwrite_at stamp s
      (if ltb (f.buf_size - length f.buffer) max_line then flush_file wrote f else f)

-- phl_log_routine(), which runs after the other work of the event loop.
unfoldable pub routine : (LogFile → Option ℕ) → List LogFile → List LogFile
routine wrote [] = []
routine wrote (f ∷ files) =
    (if ltb 0 (length f.buffer) then flush_file (wrote f) f else f) ∷ routine wrote files
