-- ===== src/Log/Tests.antt =====
-- Runs of the writes to a log file.
use phorklift.Prelude.{◌≡◌, refl, some, length, [], ◌∷◌, Text, arith}
use phorklift.Log.{LogFile, vwrite, vwrite_at, printed_text}
use phorklift.Log.Writing.{Line, used_after, vwrite-Line}

abbrev stamp : Text
stamp = b'9' ∷ b'h' ∷ []

-- Six bytes of a buffer of twelve are used.
abbrev file : LogFile
file = record {
  name = b'a' ∷ [];
  refs = 1;
  buf_size = 12;
  buffer = 1 ∷ 2 ∷ 3 ∷ 4 ∷ 5 ∷ 6 ∷ [];
  written = [];
}

vwrite-Line_example :
    (g : LogFile) × (vwrite (some (length file.buffer)) 8 stamp (b'x' ∷ []) file ≡ some g)
    × Line 8 0 stamp (b'x' ∷ []) file g
unfolding used_after
vwrite-Line_example = vwrite-Line 8 stamp (b'x' ∷ []) file (omega arith) (omega arith) (omega arith)

-- A text that fills the buffer to the end of the line loses its last byte to a 0.
cut_line :
    vwrite (some 6) 6 stamp (b'x' ∷ b'y' ∷ []) file
    ≡ some (record file {
      buffer = 1 ∷ 2 ∷ 3 ∷ 4 ∷ 5 ∷ 6 ∷ b'9' ∷ b'h' ∷ b' ' ∷ b'x' ∷ 0 ∷ b'\n' ∷ [];
    })
unfolding vwrite vwrite_at printed_text
cut_line = refl
