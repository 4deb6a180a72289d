-- ===== src/Connection.antt =====
-- phl_connection.c: the send buffer of a client connection, and the state of the connection.
pub mod Sending
mod Tests
use phorklift.Prelude.{
  ℕ, ◌+◌, ◌-◌, Bool, true, false, not, ◌&&◌, Option, none, some, List, [], ◌∷◌, ◌++◌, ◌==◌,
  if◌then◌else◌, ltb, leb, length, drop, take,
}
use phorklift.Request.State.{Ret, ok, error, again, brk, status}

pub data State : Type 0 where
  reading writing idle closed : State

-- Which of the two timers of a connection were touched last, and how.
pub data Timer : Type 0 where
  set suspended deleted : Timer

-- `struct phl_connection`. `send_buffer` is NULL or the `send_buf_len` bytes that wait in it.
-- `written` is what the stream has taken so far. `buf_size` is `network.send_buffer_size`.
pub record Connection : Type 0 where
  pub state : State
  pub is_http2 : Bool
  pub has_stream : Bool
  pub send_buffer : Option (List ℕ)
  pub written : List ℕ
  pub is_deferred : Bool
  pub buf_size : ℕ
  pub recv_timer : Timer
  pub send_timer : Timer

abbrev pub is_closed : State → Bool
is_closed closed = true
is_closed _ = false

-- The bytes that wait in the buffer.
abbrev pub pending : Option (List ℕ) → List ℕ
pending none = []
pending (some b) = b

-- phl_connection_put_defer(): a node that is linked stays where it is.
abbrev pub put_defer : Connection → Connection
put_defer c = record c { is_deferred = true }

-- `loop_stream_write` of libloop: how many bytes of the buffer the stream takes now, or a failure.
abbrev pub Stream : Type 0
Stream = List ℕ → Option ℕ

-- The result of phl_connection_make_space().
pub data Space : Type 0 where
  space : ℕ → Space
  failed later : Space

-- What the stream takes of an offered buffer.
abbrev pub taken : Option ℕ → List ℕ → List ℕ
taken none b = []
taken (some n) b = take n b

-- phl_connection_flush() after a write that took `sent` and left `rest`.
pub left_over : List ℕ → List ℕ → Connection → Ret × Connection
left_over [] sent c =
    (ok, record c { written = c.written ++ sent; send_buffer = some []; send_timer = suspended })
left_over (x ∷ rest) sent c = (
  again,
  record c { written = c.written ++ sent; send_buffer = some (x ∷ rest); send_timer = set },
)

-- The size of the buffer; `frame_header` is HTTP2_FRAME_HEADER_SIZE of libhttp2.
abbrev pub capacity : ℕ → Connection → ℕ
capacity frame_header c = if c.is_http2 then c.buf_size + frame_header else c.buf_size

module _ (stream : Stream) (subr_flush : Connection → Ret × Connection) where
  -- phl_connection_close(), without the close of the request: what waits is offered to the stream
  -- once more.
  pub close : Connection → Connection
  close c = if is_closed c.state then c else record c {
    state = closed;
    written = c.written ++ taken (stream (pending c.send_buffer)) (pending c.send_buffer);
    send_buffer = none;
    recv_timer = deleted;
    send_timer = deleted;
    is_deferred = true;
  }

  pub flush_write : Option ℕ → List ℕ → Connection → Ret × Connection
  flush_write none b c = (error, close c)
  flush_write (some n) b c = left_over (drop n b) (take n b) c

  -- The part of phl_connection_flush() behind its checks of the buffer.
  pub flush_buffer : List ℕ → Connection → Ret × Connection
  flush_buffer [] c = (ok, c)
  flush_buffer (x ∷ b) c =
      if c.has_stream then flush_write (stream (x ∷ b)) (x ∷ b) c else subr_flush c

  -- phl_connection_flush()
  pub flush : Connection → Ret × Connection
  flush c = if is_closed c.state then (error, c) else flush_buffer (pending c.send_buffer) c

  module _ (frame_header : ℕ) where
    -- "available >= size ? available : PHL_AGAIN", after a flush
    abbrev pub room_after : ℕ → Ret × Connection → Space × Connection
    room_after size (error, c) = (failed, c)
    room_after size (ret, c) =
        let available = capacity frame_header c - length (pending c.send_buffer) in
        (if leb size available then space available else later, c)

    -- "use exist buffer"
    pub use_buffer : List ℕ → ℕ → Connection → Space × Connection
    use_buffer b size c =
        let available = capacity frame_header c - length b in
        if leb size available then (space available, c) else room_after size (flush c)

    -- "allocate buffer"; `malloc` may fail.
    pub allocate : Bool → Connection → Space × Connection
    allocate true c = (space (capacity frame_header c), record c { send_buffer = some [] })
    allocate false c = (failed, c)

    pub with_buffer : Option (List ℕ) → Bool → ℕ → Connection → Space × Connection
    with_buffer none malloc size c = allocate malloc c
    with_buffer (some b) malloc size c = use_buffer b size c

    -- phl_connection_make_space()
    pub make_space : Bool → ℕ → Connection → Space × Connection
    make_space malloc size c =
        if is_closed c.state
        then (failed, c)
        else if ltb (capacity frame_header c) size
        then (failed, c)
        else with_buffer c.send_buffer malloc size (put_defer c)

  -- phl_connection_defer_routine(), for one connection of the list that is still open: the buffer
  -- is freed once all of it is written.
  abbrev pub after_flush : Ret × Connection → Connection
  after_flush (ok, c) = record c { send_buffer = none }
  after_flush (ret, c) = c

  pub defer_routine : Connection → Connection
  defer_routine c = after_flush (flush (record c { is_deferred = false }))

-- A caller of phl_connection_make_space() puts bytes behind those that wait.
pub append : List ℕ → Connection → Connection
append bytes c = record c { send_buffer = some (pending c.send_buffer ++ bytes) }

abbrev pub rank : State → ℕ
rank reading = 0
rank writing = 1
rank idle = 2
rank closed = 3

-- The `switch` of phl_connection_set_state().
abbrev pub timers : State → Connection → Connection
timers reading c = record c { recv_timer = set }
timers writing c = record c { send_timer = suspended }
timers idle c = record c { recv_timer = set }
timers closed c = c

-- phl_connection_set_state()
pub set_state : State → Connection → Connection
set_state s c =
    if is_closed c.state
    then c
    else if rank c.state == rank s
    then c
    else timers s (record c { state = s })
