-- ===== src/Circuit.antt =====
-- app/worker.py, the class `SinkCircuit`: how much work a consumer may pull while the stores fail.
mod Tests
pub mod Evidence
pub mod Probe
use feathr_events.Prelude.{
  ℕ, zero, suc, ◌+◌, ◌-◌, ◌*◌, ◌^◌, min, List, [], ◌∷◌, ◌++◌, Option, none, some, Bool, true, false,
  ◌||◌, not, leb, ltb, contains, nat_eq, if◌then◌else◌, length, is_none,
}
use feathr_events.Queue.{ticks}

-- The parameters of `__init__`.
pub record Params : Type 0 where
  pub threshold : ℕ
  pub pause : ℕ
  pub max_pause : ℕ

-- `SINK_FAILURE_THRESHOLD`, `SINK_PAUSE_SECONDS`, `SINK_MAX_PAUSE_SECONDS`
abbrev pub default_params : Params
default_params = record { threshold = 3; pause = ticks 5; max_pause = ticks 30 }

pub record Circuit : Type 0 where
  pub failures : List ℕ
  pub open_until : Option ℕ
  pub pauses : ℕ
  pub probing : Bool

unfoldable pub init : Circuit
init = record { failures = []; open_until = none; pauses = 0; probing = false }

unfoldable pub is_open : Circuit → Bool
is_open s = not (is_none s.open_until)

unfoldable pub seconds_remaining : (now : ℕ) → Circuit → ℕ
seconds_remaining now s = elim s.open_until [ none ↦ 0 | some t ↦ t - now ]

-- The circuit afterwards, and the number of messages.
unfoldable pub allowance : (now batch_size : ℕ) → Circuit → Circuit × ℕ
allowance now batch_size s = elim s.open_until [
  | none ↦ (s, batch_size)
  | some t ↦ if ltb now t || s.probing then (s, 0) else (record s { probing = true }, 1)
]

unfoldable pub abandon_probe : Circuit → Circuit
abandon_probe s = record s { probing = false }

unfoldable pub record_success : Circuit → Circuit
record_success s = record s { failures = []; open_until = none; probing = false; pauses = 0 }

-- `set.add`
abbrev pub add : ℕ → List ℕ → List ℕ
add a xs = if contains a xs then xs else xs ++ a ∷ []

unfoldable pub delay_for : Params → (pauses : ℕ) → ℕ
delay_for p pauses = min (p.pause * 2 ^ (pauses - 1)) p.max_pause

-- `self._open_until is not None and self._clock() < self._open_until`
abbrev pub paused_at : ℕ → Option ℕ → Bool
paused_at now none = false
paused_at now (some t) = ltb now t

-- `seen` and `now` are the two readings of the clock.
unfoldable pub record_failure : Params → (seen now event_id : ℕ) → Circuit → Circuit
unfolding delay_for
record_failure p seen now event_id s =
    let s' : Circuit = record s { probing = false; failures = add event_id s.failures } in
    if paused_at seen s.open_until
    then s'
    else if ltb (length s'.failures) p.threshold
    then s'
    else record s' { pauses = s.pauses + 1; open_until = some (now + delay_for p (s.pauses + 1)) }
