-- ===== src/Upstream/Content/Types.antt =====
-- phl_upstream_content.c: the data that its functions read and write.
use phorklift.Prelude.{ℕ, Bool, Option, List}
use phorklift.Request.State.{Ret, Request}
use phorklift.Upstream.Stream.{UpStream, Read, Source}

-- `struct phl_upstream_connection`, as far as its user sees it.
pub record Upc : Type 0 where
  pub id : ℕ
  pub error : Bool
  pub stream : UpStream

-- The result of phl_upstream_get_connection() and phl_upstream_retry_connection(): PHL_PTR_ERROR,
-- PHL_PTR_AGAIN, or a connection.
pub data Got : Type 0 where
  no_connection not_ready : Got
  connected : Upc → Got

-- A `struct phl_upstream_connection *`, with NULL.
pub data Pointer : Type 0 where
  null : Pointer
  got : Got → Pointer

-- What parse_response_headers gives: the bytes it took, of those it got, or `none` for a negative
-- number; whether the headers are done; and the request.
pub record Parsed (D : Type 0) : Type 0 where
  pub proc_len : Option ℕ
  pub is_done : Bool
  pub data_after : D
  pub request_after : Request

-- What build_request gives: its result, the new `retries`, the bytes to send, and `ctx->data`.
pub record Built (D : Type 0) : Type 0 where
  pub ret : Ret
  pub retries : Option ℕ
  pub req_buf : List ℕ
  pub data_after : D

-- `struct phl_upstream_conf` with its `struct phl_upstream_ops`, and the functions of phl_upstream.c
-- that get a connection. `World` is what changes outside: the sockets and the pool of connections.
-- The list of status codes stands without its final 0.
pub record Upstream : Type 1 where
  pub Data : Type 0
  pub World : Type 0
  pub max_retries : ℕ
  pub retry_status_codes : Option (List ℕ)
  pub build_request : Request → Built Data
  pub parse_response_headers : Option (Request → Data → List ℕ → Parsed Data)
  pub is_response_body_done : Option (Request → Data → Bool)
  pub build_response_body : Option (Request → Data → List ℕ → Read × Data)
  pub get_connection : Request → World → Got × World
  pub retry_connection : Upc → World → Got × World
  pub release_connection : Upc → Bool → World → World
  pub source : ℕ → World → Source
  pub sink : ℕ → World → List ℕ → Option ℕ
  pub is_blocked : ℕ → World → Bool
  pub moved : ℕ → World → World

-- `struct phl_upstream_content_ctx`. A negative `retries` is `none`; the length of `req_buf` is
-- `req_len`.
pub record Ctx (D : Type 0) : Type 0 where
  pub has_sent_request : Bool
  pub retries : Option ℕ
  pub req_buf : List ℕ
  pub upc : Pointer
  pub module_data : D

-- The request and its context in the module, which may be NULL.
pub record Exchange (D W : Type 0) : Type 0 where
  pub request : Request
  pub ctx : Option (Ctx D)
  pub world : W

-- A call returns, reads through a pointer that is none (or fails an assertion), or is still running
-- when the fuel is gone.
pub data Outcome (D W : Type 0) : Type 0 where
  returns : Ret → Exchange D W → Outcome D W
  crashes unfinished : Outcome D W
