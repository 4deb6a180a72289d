-- ===== src/Upstream/Healthcheck/Tests.antt =====
-- The active health check (phl_upstream_healthcheck.c) at concrete inputs.
use phorklift.Prelude.{◌≡◌, refl, Bool, true, false, none, some, [], ◌∷◌, Text}
use phorklift.Upstream.Healthcheck.{
  Probe, ProbeConf, done, judge, judge_by, judge_exact, after_verdict, on_read, request_written,
  send_request, on_writable, address_handler,
}
use phorklift.Upstream.Healthcheck.Judging.{Decides, fewest, Described, judge-Decides}

abbrev nothing : Text → Text → Bool
nothing s pattern = false

-- "=OK"
abbrev exactly_ok : Text
exactly_ok = b'=' ∷ b'O' ∷ b'K' ∷ []

abbrev conf : ProbeConf
conf = record { fails = 1; passes = 3; req_str = some (b'G' ∷ []); resp_str = some exactly_ok }

abbrev idle : Probe
idle = record { has_stream = false; down_time = 0; fails = 0; passes = 0 }

-- The request is sent, the response comes in two reads, and it is one byte too long.
goes_down :
    elim (on_read nothing [] conf 1000
      (b'O' ∷ [])
      (address_handler conf 1000 true (λ req. some 1) idle)) [
        | none ↦ none
        | some p ↦ on_read nothing [] conf 1000 (b'O' ∷ b'K' ∷ b'!' ∷ []) p
      ]
    ≡ some (record idle { down_time = 1000; fails = 1 })
unfolding on_read after_verdict judge judge_by judge_exact done address_handler on_writable
    send_request request_written
goes_down = refl

judge-Decides_example :
    Decides
      (fewest exactly_ok)
      (Described nothing [] exactly_ok)
      (b'O' ∷ [])
      (judge nothing [] (some exactly_ok) (b'O' ∷ []))
judge-Decides_example = judge-Decides nothing [] (some exactly_ok) (b'O' ∷ [])
