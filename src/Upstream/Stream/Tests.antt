-- ===== src/Upstream/Stream/Tests.antt =====
-- Reads and writes of an upstream connection (phl_upstream.c) at concrete inputs.
use phorklift.Prelude.{
  ℕ, ◌≤◌, ◌≡◌, refl, none, some, List, [], ◌∷◌, length, take, arith, length-take, ap,
}
use phorklift.Upstream.Stream.{
  UpStream, bytes, Source, answer, read_more, read_preread, read_from, connection_read,
  read_notfinish, keep,
}
use phorklift.Upstream.Stream.Reading.{kept, InOrder, connection_read-InOrder}

abbrev fresh : UpStream
fresh = record { preread = none; prewrite_len = 0; sent = [] }

abbrev kept_two : UpStream
kept_two = record { preread = some (1 ∷ 2 ∷ []); prewrite_len = 0; sent = [] }

-- A stream with three bytes to read.
abbrev three : Source
three k = some (take k (3 ∷ 4 ∷ 5 ∷ []))

keeps : read_notfinish (1 ∷ 2 ∷ []) fresh ≡ some kept_two
unfolding read_notfinish keep
keeps = refl

reads : connection_read three 4 kept_two ≡ (bytes (1 ∷ 2 ∷ 3 ∷ 4 ∷ []), fresh)
unfolding connection_read read_from read_preread read_more answer
reads = refl

take_fits : (k : ℕ) (b more : List ℕ) → some (take k b) ≡ some more → length more ≤ k
take_fits k b more e = ground (arith, ap (λ o. length (kept o)) e, length-take k b)

connection_read-InOrder_example : InOrder three 4 kept_two (connection_read three 4 kept_two)
connection_read-InOrder_example =
    connection_read-InOrder three (λ k more e. take_fits k (3 ∷ 4 ∷ 5 ∷ []) more e) 4 kept_two
