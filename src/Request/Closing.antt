-- ===== src/Request/Closing.antt =====
-- phl_request_stats() and phl_request_access_log() of phl_request.c: what the close of a request
-- counts and logs.
pub mod Counted
pub mod Logged
mod Tests
use phorklift.Prelude.{
  ℕ, suc, ◌+◌, ◌-◌, Bool, true, false, ◌&&◌, not, Option, none, some, List, [], ◌∷◌, ◌++◌, Text,
  ◌==◌, if◌then◌else◌,
}
use phorklift.Request.State.{State, is_done, Request}

-- `req.uri.raw`, `create_time`, `req_end_time` and `resp_begin_time`, and the time of the close. The
-- counters add the C differences of the times; here they are those of natural numbers, for times
-- that do not go back.
pub record Seen : Type 0 where
  pub raw : Text
  pub create_time : ℕ
  pub req_end_time : ℕ
  pub resp_begin_time : ℕ
  pub close_time : ℕ

-- `struct phl_conf_path_stats`, and the counters of failures of a listen and of a host.
pub record PathStats : Type 0 where
  pub fail_no_host : ℕ
  pub fail_no_path : ℕ
  pub total : ℕ
  pub done : ℕ
  pub req_acc_ms : ℕ
  pub react_acc_ms : ℕ
  pub resp_acc_ms : ℕ
  pub total_acc_ms : ℕ
  pub statuses : ℕ → ℕ
  pub status_others : ℕ

unfoldable pub is_known : ℕ → List ℕ → Bool
is_known code [] = false
is_known code (c ∷ codes) = let rest = is_known code codes in if c == code then true else rest

abbrev pub add_times : Seen → PathStats → PathStats
add_times t n = record n {
  done = suc n.done;
  req_acc_ms = n.req_acc_ms + (t.req_end_time - t.create_time);
  react_acc_ms = n.react_acc_ms + (t.resp_begin_time - t.req_end_time);
  resp_acc_ms = n.resp_acc_ms + (t.close_time - t.resp_begin_time);
  total_acc_ms = n.total_acc_ms + (t.close_time - t.create_time);
}

-- The `switch` over WUY_HTTP_STATUS_CODE_TABLE.
unfoldable pub count_status : List ℕ → ℕ → PathStats → PathStats
count_status codes code n =
    if is_known code codes
    then record n { statuses = λ c. if c == code then suc (n.statuses c) else n.statuses c }
    else record n { status_others = suc n.status_others }

abbrev pub counted_path : List ℕ → Seen → Request → PathStats → PathStats
counted_path codes t r n =
    let more = record n { total = suc n.total } in
    count_status codes r.status_code (if is_done r.state then add_times t more else more)

-- phl_request_stats()
unfoldable pub request_stats : List ℕ → Seen → Request → PathStats → PathStats
request_stats codes t r n = elim r.conf_host [
  | none ↦ record n { fail_no_host = suc n.fail_no_host }
  | some h ↦ elim r.conf_path [
    | none ↦ record n { fail_no_path = suc n.fail_no_path }
    | some p ↦ counted_path codes t r n
  ]
]

-- `struct phl_conf_access_log`. The functions of the configuration see the request; a format may
-- fail, and give NULL.
pub record AccessLog : Type 0 where
  pub rate_is_zero : Bool
  pub rate_is_one : Bool
  pub replace_format : Bool
  pub enable_subrequest : Bool
  pub format : Option (Request → Option Text)
  pub filter : Option (Request → Bool)

-- PHL_DIFF and PHL_DIFF2: -1, or the difference of two times.
pub data Span : Type 0 where
  minus_one : Span
  difference : ℕ → ℕ → Span

abbrev pub diff_of : ℕ → ℕ → Span
diff_of a b = if a == 0 then minus_one else difference a b

abbrev pub diff2_of : ℕ → ℕ → Span
diff2_of a b = if b == 0 then minus_one else difference a b

-- What is written to the file: a text of the configuration, or the default fields and the last one.
pub record Fields : Type 0 where
  pub host : Text
  pub uri : Text
  pub status_code : ℕ
  pub sent_length : ℕ
  pub state : State
  pub received : Span
  pub reacted : Span
  pub responded : Span
  pub took : Span
  pub format : Text

pub data Entry : Type 0 where
  custom : Text → Entry
  fields : Fields → Entry

abbrev pub dash : Text
dash = b'-' ∷ []

abbrev pub or_dash : Option Text → Text
or_dash none = dash
or_dash (some s) = s

-- The block that calls `log->format`. Its `format` is a variable of its own, so that the one of the
-- function is "-" after it.
unfoldable pub format_entries : AccessLog → Request → List Entry
format_entries log r = elim log.format [
  | none ↦ []
  | some f ↦ elim (f r) [ none ↦ [] | some s ↦ if log.replace_format then custom s ∷ [] else [] ]
]

abbrev pub line : Seen → Request → Text → Entry
line t r format = fields (record {
  host = or_dash r.host;
  uri = t.raw;
  status_code = r.status_code;
  sent_length = r.sent_length;
  state = r.state;
  received = diff_of t.req_end_time t.create_time;
  reacted = diff_of t.resp_begin_time t.req_end_time;
  responded = diff2_of t.close_time t.resp_begin_time;
  took = difference t.close_time t.create_time;
  format = format;
})

abbrev pub passes_filter : AccessLog → Request → Bool
passes_filter log r = elim log.filter [ none ↦ true | some f ↦ f r ]

-- phl_request_access_log(); `sampled` is what wuy_rand_sample() gives.
unfoldable pub access_log : Bool → AccessLog → Seen → Request → List Entry
access_log sampled log t r =
    if log.rate_is_zero
    then []
    else if not log.enable_subrequest && r.is_subrequest
    then []
    else if not (passes_filter log r)
    then []
    else if not log.rate_is_one && not sampled
    then []
    else format_entries log r ++ line t r dash ∷ []
