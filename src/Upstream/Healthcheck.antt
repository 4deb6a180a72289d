-- ===== src/Upstream/Healthcheck.antt =====
-- The active health check, phl_upstream_healthcheck.c: a probe of an address, how its response is
-- judged, and the counters.
pub mod Judging
mod Tests
use phorklift.Prelude.{
  ℕ, suc, zero, ◌+◌, Bool, true, false, not, ◌&&◌, Option, none, some, List, [], ◌∷◌, ◌++◌, length,
  drop, Text, starts_with, ltb, ◌==◌, if◌then◌else◌,
}

-- `healthcheck` of `struct phl_upstream_address`.
pub record Probe : Type 0 where
  pub has_stream : Bool
  pub down_time : ℕ
  pub fails : ℕ
  pub passes : ℕ

-- `healthcheck` of `struct phl_upstream_conf`.
pub record ProbeConf : Type 0 where
  pub fails : ℕ
  pub passes : ℕ
  pub req_str : Option Text
  pub resp_str : Option Text

-- More data is needed, the probe is judged, or the string is read through a null pointer.
pub data Verdict : Type 0 where
  waits crashes : Verdict
  judged : Bool → Verdict

-- phl_upstream_healthcheck_done()
pub done : ProbeConf → ℕ → Bool → Probe → Probe
done conf now true p =
    let passed = record p { has_stream = false; fails = 0; passes = suc p.passes } in
    if not (p.down_time == 0) && (suc p.passes == conf.passes)
    then record passed { down_time = 0 }
    else passed
done conf now false p =
    let failed = record p { has_stream = false; passes = 0; fails = suc p.fails } in
    if (p.down_time == 0) && (suc p.fails == conf.fails)
    then record failed { down_time = now }
    else failed

-- The `switch` of phl_upstream_healthcheck_on_read(). Where the data is as long as the response,
-- `memcmp` tells whether the one begins with the other.
pub judge_exact : Text → Text → Verdict
judge_exact resp got_data =
    if ltb (length got_data) (length resp)
    then waits
    else if ltb (length resp) (length got_data)
    then judged false
    else judged (starts_with resp got_data)

pub judge_front : Text → Text → Verdict
judge_front resp got_data =
    if ltb (length got_data) (length resp) then waits else judged (starts_with resp got_data)

-- A string of C ends before its first 0.
pub c_string : Text → Text
c_string [] = []
c_string (c ∷ s) = let rest = c_string s in if c == 0 then [] else c ∷ rest

-- `find` is `wuy_luastr_find2` of libwuya, for two strings of C: it is not given the length of the
-- data, and reads on into the bytes `beyond` that stand behind them.
pub judge_by : (Text → Text → Bool) → Text → Text → Text → Verdict
judge_by find beyond [] got_data = judge_front [] got_data
judge_by find beyond (c ∷ resp) got_data =
    if c == b'*'
    then judged true
    else if c == b'='
    then judge_exact resp got_data
    else if c == b'~'
    then judged (find (c_string (got_data ++ beyond)) resp)
    else judge_front (c ∷ resp) got_data

-- `resp_str[0]`; the string is NULL when it is not configured.
pub judge : (Text → Text → Bool) → Text → Option Text → Text → Verdict
judge find beyond none got_data = crashes
judge find beyond (some resp) got_data = judge_by find beyond resp got_data

pub after_verdict : ProbeConf → ℕ → Verdict → Probe → Option Probe
after_verdict conf now waits p = some p
after_verdict conf now crashes p = none
after_verdict conf now (judged pass) p = some (done conf now pass p)

-- phl_upstream_healthcheck_on_read(): data that is too short is given again, with more behind it.
-- `none` is a read through a null pointer.
pub on_read : (Text → Text → Bool) → Text → ProbeConf → ℕ → Text → Probe → Option Probe
on_read find beyond conf now got_data p =
    after_verdict conf now (judge find beyond conf.resp_str got_data) p

-- `none` is a negative result of `loop_stream_write`.
pub request_written : ProbeConf → ℕ → ℕ → Option ℕ → Probe → Probe
request_written conf now len none p = done conf now false p
request_written conf now len (some n) p =
    if n == 0 then p else if n == len then p else done conf now false p

pub send_request : ProbeConf → ℕ → (Text → Option ℕ) → Option Text → Probe → Probe
send_request conf now write none p = done conf now true p
send_request conf now write (some req) p = request_written conf now (length req) (write req) p

-- phl_upstream_healthcheck_on_writable()
pub on_writable : ProbeConf → ℕ → (Text → Option ℕ) → Probe → Probe
on_writable conf now write p = send_request conf now write conf.req_str p

-- phl_upstream_healthcheck_on_close()
pub on_close : ProbeConf → ℕ → Probe → Probe
on_close conf now p = done conf now false p

-- phl_upstream_healthcheck_address_handler(): `connects` tells whether a stream can be made.
pub address_handler : ProbeConf → ℕ → Bool → (Text → Option ℕ) → Probe → Probe
address_handler conf now connects write p =
    if p.has_stream
    then p
    else if not connects
    then done conf now false p
    else on_writable conf now write (record p { has_stream = true })
