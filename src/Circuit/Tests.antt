-- ===== src/Circuit/Tests.antt =====
-- The theorems on the class `SinkCircuit` of app/worker.py at concrete circuits.
use feathr_events.Prelude.{
  ℕ, ◌*◌, ◌≡◌, ◌≤◌, ◌<◌, ◌⊎◌, refl, true, false, List, [], ◌∷◌, none, some, arith, min,
}
use feathr_events.Circuit.{
  Circuit, default_params, init, allowance, record_success, record_failure, delay_for,
}
use feathr_events.Circuit.Evidence.{Report, asks, succeeds, fails, run, few_events_never_open}
use feathr_events.Circuit.Probe.{
  allowance_single_flight, delay_for-doubles, record_success_recovers,
}

-- Paused until 100, after failures of three events.
abbrev paused : Circuit
paused = record { failures = 1 ∷ 2 ∷ 3 ∷ []; open_until = some 100; pauses = 1; probing = false }

abbrev probed : Circuit
probed = record paused { probing = true }

-- One event that fails three times, with a success of another in between.
abbrev poison : List Report
poison = fails 0 0 7 ∷ fails 1 1 7 ∷ succeeds ∷ fails 2 2 7 ∷ asks 3 10 ∷ []

few_events_never_open_example : (run default_params poison init).open_until ≡ none
few_events_never_open_example =
    few_events_never_open default_params (7 ∷ []) poison (omega arith) (refl, (refl, (refl, tt)))

allowance_single_flight_example :
    (((150 < 100) ⊎ (paused.probing ≡ true)) × (allowance 150 10 paused ≡ (paused, 0)))
    ⊎ ((100 ≤ 150)
        × (paused.probing ≡ false)
        × ((allowance 150 10 paused).1 ≡ 1)
        × ((later batch : ℕ) → (allowance later batch (allowance 150 10 paused).0).1 ≡ 0))
allowance_single_flight_example = allowance_single_flight 150 10 100 paused refl

delay_for-doubles_example :
    (delay_for default_params 1 ≡ min default_params.pause default_params.max_pause)
    × (delay_for default_params 3 ≡ min (2 * delay_for default_params 2) default_params.max_pause)
    × (delay_for default_params 2 ≤ delay_for default_params 3)
delay_for-doubles_example = delay_for-doubles default_params 1

record_success_recovers_example :
    ((allowance 200 10 (record_success probed)).1 ≡ 10)
    × ((record_failure default_params 201 202 9 (record_success probed)).open_until ≡ none)
record_success_recovers_example =
    record_success_recovers default_params probed 200 10 201 202 9 (omega arith)
