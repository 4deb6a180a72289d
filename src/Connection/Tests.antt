-- ===== src/Connection/Tests.antt =====
-- The send buffer at concrete inputs.
use phorklift.Prelude.{refl, true, false, some, [], ◌∷◌, arith}
use phorklift.Request.State.{ok}
use phorklift.Connection.{Connection, Stream, make_space, writing, set}
use phorklift.Connection.Sending.{Grants, make_space-Grants}

-- A client that takes two bytes at a time.
abbrev slow : Stream
slow b = some 2

abbrev no_subrequest : Connection → phorklift.Request.State.Ret × Connection
no_subrequest c = (ok, c)

abbrev busy : Connection
busy = record {
  state = writing;
  is_http2 = false;
  has_stream = true;
  send_buffer = some (1 ∷ 2 ∷ 3 ∷ []);
  written = 0 ∷ [];
  is_deferred = false;
  buf_size = 4;
  recv_timer = set;
  send_timer = set;
}

make_space-Grants_example :
    Grants slow no_subrequest 9 busy 2 (make_space slow no_subrequest 9 true 2 busy)
make_space-Grants_example = make_space-Grants slow no_subrequest 9 true 2 busy refl (omega arith)
