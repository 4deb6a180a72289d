-- ===== src/Request/State.antt =====
-- phl_request.h: `struct phl_request`, as far as the steps of phl_request.c read and write it, and
-- the return values of phl_main.h.
use phorklift.Prelude.{ℕ, Bool, true, false, Option, List, Text}

-- PHL_OK, PHL_ERROR, PHL_AGAIN, PHL_BREAK, or a positive HTTP status code.
pub data Ret : Type 0 where
  ok error again brk : Ret
  status : ℕ → Ret

pub data State : Type 0 where
  receive_headers locate_conf_host locate_conf_path receive_body_sync : State
  process_headers process_body : State
  response_headers_1 response_headers_2 response_headers_3 response_body : State
  done : State

-- The number of a state in the enumeration.
abbrev pub rank : State → ℕ
rank receive_headers = 0
rank locate_conf_host = 1
rank locate_conf_path = 2
rank receive_body_sync = 3
rank process_headers = 4
rank process_body = 5
rank response_headers_1 = 6
rank response_headers_2 = 7
rank response_headers_3 = 8
rank response_body = 9
rank done = 10

-- `r->state++`; the loop never does it at the last state.
abbrev pub next : State → State
next receive_headers = locate_conf_host
next locate_conf_host = locate_conf_path
next locate_conf_path = receive_body_sync
next receive_body_sync = process_headers
next process_headers = process_body
next process_body = response_headers_1
next response_headers_1 = response_headers_2
next response_headers_2 = response_headers_3
next response_headers_3 = response_body
next response_body = done
next done = done

abbrev pub is_done : State → Bool
is_done done = true
is_done _ = false

-- `filter_indexs[3]`
pub record Indexes : Type 0 where
  pub process_headers : ℕ
  pub process_body : ℕ
  pub response_headers : ℕ

-- A length of PHL_CONTENT_LENGTH_INIT is `none`. The body that has been received is `body`, so
-- `body_len` is its length.
pub record Request : Type 0 where
  pub state : State
  pub closed : Bool
  pub is_broken : Bool
  pub redirects : ℕ
  pub filter_indexs : Indexes
  pub filter_terminal : Option ℕ
  pub named_path : Option Text
  pub conf_host : Option ℕ
  pub conf_path : Option ℕ
  pub is_http2 : Bool
  pub is_subrequest : Bool
  -- req
  pub host : Option Text
  pub uri_path : Option Text
  pub content_length : Option ℕ
  pub chunked : Bool
  pub body : List ℕ
  pub body_finished : Bool
  -- resp
  pub status_code : ℕ
  pub resp_content_length : Option ℕ
  pub resp_headers : List (Text × Text)
  pub easy_str_len : ℕ
  pub easy_fd : ℕ
  pub content_original_length : Option ℕ
  pub content_generated_length : ℕ
  pub sent_length : ℕ
