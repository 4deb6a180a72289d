-- ===== src/Connection/Sending.antt =====
-- phl_connection.c: the bytes of the send buffer through flushes and requests for room.
use mathlib.Core.List.{append_assoc}
use phorklift.Prelude.{
  ℕ, ◌+◌, ◌-◌, ◌≤◌, ◌≡◌, refl, ◌≢◌, Bool, true, false, Option, none, some, List, [], ◌∷◌, ◌++◌, leb,
  ltb, length, length-append, take, drop, take-append-drop, arith, ap, sym, ◌∙◌, if◌then◌else◌,
  if_intro,
}
use phorklift.Request.State.{Ret, ok, error, again, brk, status}
use phorklift.Connection.{
  Connection, is_closed, pending, Stream, Space, space, failed, later, left_over, close,
  flush_write, flush_buffer, flush, capacity, room_after, use_buffer, allocate, with_buffer,
  make_space, append, put_defer,
}

-- All that was put into the connection and not dropped: written, or waiting.
abbrev pub output : Connection → List ℕ
output c = c.written ++ pending c.send_buffer

-- What a flush with the result `o` keeps of `c`, unless it fails.
pub record Kept (c : Connection) (o : Ret × Connection) : Type 0 where
  pub same : o.0 ≢ error → output o.1 ≡ output c
  pub shorter : length (pending o.1.send_buffer) ≤ length (pending c.send_buffer)
  pub same_kind : o.1.is_http2 ≡ c.is_http2
  pub same_size : o.1.buf_size ≡ c.buf_size

left_over-Kept :
    (rest sent : List ℕ) (c : Connection)
    → sent ++ rest ≡ pending c.send_buffer
    → Kept c (left_over rest sent c)
unfolding left_over
left_over-Kept [] sent c e = record {
  same = λ _. append_assoc c.written sent [] ∙ ap (◌++◌ c.written) e;
  shorter = omega arith;
  same_kind = refl;
  same_size = refl;
}
left_over-Kept (x ∷ rest) sent c e = record {
  same = λ _. append_assoc c.written sent (x ∷ rest) ∙ ap (◌++◌ c.written) e;
  shorter = omega (arith, ap length e, length-append sent (x ∷ rest));
  same_kind = refl;
  same_size = refl;
}

module _ (stream : Stream) (subr_flush : Connection → Ret × Connection) where
  same-Kept : (ret : Ret) (c : Connection) → Kept c (ret, c)
  same-Kept ret c = record {
    same = λ _. refl;
    shorter = omega arith;
    same_kind = refl;
    same_size = refl;
  }

  closed-Kept : (c : Connection) → Kept c (error, close stream subr_flush c)
  unfolding close
  closed-Kept c =
      if_intro (λ d. Kept c (error, d)) (is_closed c.state) _ _ (λ _. same-Kept error c)
        λ _. record {
          same = λ ne. absurd (ne refl);
          shorter = omega arith;
          same_kind = refl;
          same_size = refl;
        }

  flush_write-Kept :
      (o : Option ℕ) (b : List ℕ) (c : Connection)
      → b ≡ pending c.send_buffer
      → Kept c (flush_write stream subr_flush o b c)
  unfolding flush_write
  flush_write-Kept none b c e = closed-Kept c
  flush_write-Kept (some n) b c e =
      left_over-Kept (drop n b) (take n b) c (take-append-drop n b ∙ e)

  flush_buffer-Kept :
      (b : List ℕ) (c : Connection)
      → c.has_stream ≡ true
      → b ≡ pending c.send_buffer
      → Kept c (flush_buffer stream subr_flush b c)
  unfolding flush_buffer
  flush_buffer-Kept [] c h e = same-Kept ok c
  flush_buffer-Kept (x ∷ b) c h e =
      if_intro (Kept c) c.has_stream _ _ (λ _. flush_write-Kept (stream (x ∷ b)) (x ∷ b) c e)
        λ k. absurd (ground arith)

  -- A flush of a connection to a client, whatever the stream takes, loses and repeats nothing: what
  -- was written together with what still waits is the same before and after, unless the flush
  -- fails; and the buffer does not get longer.
  pub flush-Kept : (c : Connection) → c.has_stream ≡ true → Kept c (flush stream subr_flush c)
  unfolding flush
  flush-Kept c h =
      if_intro (Kept c) (is_closed c.state) _ _ (λ _. same-Kept error c)
        λ _. flush_buffer-Kept (pending c.send_buffer) c h refl

  module _ (frame_header : ℕ) where
    -- The waiting bytes fit into the buffer.
    abbrev pub Fits : Connection → Type 0
    Fits c = length (pending c.send_buffer) ≤ capacity frame_header c

    -- What phl_connection_make_space() grants.
    pub record Grants (c : Connection) (size : ℕ) (o : Space × Connection) : Type 0 where
      pub still_fits : Fits o.1
      pub unchanged : o.0 ≢ failed → output o.1 ≡ output c
      pub enough :
          (n : ℕ)
          → o.0 ≡ space n
          → (size ≤ n) × (length (pending o.1.send_buffer) + n ≡ capacity frame_header o.1)

    fails-Grants : (c : Connection) (size : ℕ) → Fits c → Grants c size (failed, c)
    fails-Grants c size f = record {
      still_fits = f;
      unchanged = λ ne. refl;
      enough = λ n e. absurd (ground arith);
    }

    available-Grants :
        (c d : Connection) (size : ℕ)
        → Fits d
        → output d ≡ output c
        → Grants c size (
            let available = capacity frame_header d - length (pending d.send_buffer) in
            (if leb size available then space available else later, d))
    available-Grants c d size f e = record {
      still_fits = f;
      unchanged = λ _. e;
      enough = λ n s. ground (arith, s, f);
    }

    Kept-Fits : (c : Connection) (o : Ret × Connection) → Kept c o → Fits c → Fits o.1
    Kept-Fits c o k f = ground (arith, k, f)

    room_after-Grants :
        (c : Connection) (size : ℕ) (o : Ret × Connection)
        → Fits c
        → Kept c o
        → Grants c size (room_after stream subr_flush frame_header size o)
    room_after-Grants c size (error, d) f k = record {
      still_fits = Kept-Fits c (error, d) k f;
      unchanged = λ ne. absurd (ne refl);
      enough = λ n e. absurd (ground arith);
    }
    room_after-Grants c size (ok, d) f k =
        available-Grants c d size (Kept-Fits c (ok, d) k f) (k.same (λ e. ground arith))
    room_after-Grants c size (again, d) f k =
        available-Grants c d size (Kept-Fits c (again, d) k f) (k.same (λ e. ground arith))
    room_after-Grants c size (brk, d) f k =
        available-Grants c d size (Kept-Fits c (brk, d) k f) (k.same (λ e. ground arith))
    room_after-Grants c size (status i, d) f k =
        available-Grants c d size (Kept-Fits c (status i, d) k f) (k.same (λ e. ground arith))

    use_buffer-Grants :
        (b : List ℕ) (size : ℕ) (c : Connection)
        → c.has_stream ≡ true
        → c.send_buffer ≡ some b
        → Fits c
        → Grants c size (use_buffer stream subr_flush frame_header b size c)
    unfolding use_buffer
    use_buffer-Grants b size c h e f =
        if_intro (Grants c size) (leb size (capacity frame_header c - length b)) _ _
          (λ enough_room. record {
            still_fits = f;
            unchanged = λ _. refl;
            enough = λ n s. ground (arith, s, f, e);
          })
          λ _. room_after-Grants c size (flush stream subr_flush c) f (flush-Kept c h)

    allocate-Grants :
        (malloc : Bool) (size : ℕ) (c : Connection)
        → c.send_buffer ≡ none
        → size ≤ capacity frame_header c
        → Grants c size (allocate stream subr_flush frame_header malloc c)
    unfolding allocate
    allocate-Grants true size c e h = record {
      still_fits = omega arith;
      unchanged = λ _. ap (λ b. c.written ++ pending b) (sym e);
      enough = λ n s. ground (arith, s);
    }
    allocate-Grants false size c e h =
        fails-Grants c size (rw (ap (λ b. length (pending b)) e) (omega arith))

    with_buffer-Grants :
        (o : Option (List ℕ)) (malloc : Bool) (size : ℕ) (c : Connection)
        → o ≡ c.send_buffer
        → c.has_stream ≡ true
        → size ≤ capacity frame_header c
        → Fits c
        → Grants c size (with_buffer stream subr_flush frame_header o malloc size c)
    unfolding with_buffer
    with_buffer-Grants none malloc size c e h s f = allocate-Grants malloc size c (sym e) s
    with_buffer-Grants (some b) malloc size c e h s f = use_buffer-Grants b size c h (sym e) f

    -- Room that is granted is there: at least as much as was asked for, and exactly what the
    -- buffer has left, so that appending no more than that never passes its end. Getting it loses
    -- and repeats no byte, unless the connection fails. For a connection to a client
    -- whose waiting bytes fit into its buffer.
    pub make_space-Grants :
        (malloc : Bool) (size : ℕ) (c : Connection)
        → c.has_stream ≡ true
        → Fits c
        → Grants c size (make_space stream subr_flush frame_header malloc size c)
    unfolding make_space
    make_space-Grants malloc size c h f =
        if_intro (Grants c size) (is_closed c.state) _ _ (λ _. fails-Grants c size f)
          λ _.
            if_intro (Grants c size) (ltb (capacity frame_header c) size) _ _
              (λ _. fails-Grants c size f)
              λ small.
                as_deferred (
                  with_buffer-Grants c.send_buffer malloc size (put_defer c) refl h (ground arith)
                    f)
      where
        as_deferred : {o : Space × Connection} → Grants (put_defer c) size o → Grants c size o
        as_deferred g = record {
          still_fits = g.still_fits;
          unchanged = g.unchanged;
          enough = g.enough;
        }

    -- Bytes that are no more than the room are put behind those that wait, inside the buffer.
    pub append-Fits :
        (c : Connection) (n : ℕ) (bytes : List ℕ)
        → length (pending c.send_buffer) + n ≡ capacity frame_header c
        → length bytes ≤ n
        → Fits (append bytes c) × (output (append bytes c) ≡ output c ++ bytes)
    unfolding append
    append-Fits c n bytes e h = (
      ground (arith, length-append (pending c.send_buffer) bytes),
      sym (append_assoc c.written (pending c.send_buffer) bytes),
    )
