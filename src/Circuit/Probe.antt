-- ===== src/Circuit/Probe.antt =====
-- The open circuit: one probe at a time, pauses that double up to a cap, and recovery.
use feathr_events.Prelude.{
  ℕ, ◌+◌, ◌*◌, min, ◌≤◌, ◌<◌, ◌≡◌, ◌⊎◌, inl, inr, List, [], ◌∷◌, none, some, true, false, ◌||◌, ltb,
  length, length-append, arith, Bool-cases,
}
use feathr_events.Queue.Backoff.{next_power}
use feathr_events.Circuit.{
  Params, Circuit, allowance, record_success, record_failure, delay_for, add,
}

length-add : (a : ℕ) (xs : List ℕ) → length xs ≤ length (add a xs)
length-add a xs = ground (arith, length-append xs (a ∷ []))

-- A circuit that is open until `t` lets nothing through before `t` or while a probe is out, and is
-- then unchanged; else it lets one message through, and none more until the probe is answered.
pub allowance_single_flight :
    (now batch_size t : ℕ) (s : Circuit)
    → s.open_until ≡ some t
    → (((now < t) ⊎ (s.probing ≡ true)) × (allowance now batch_size s ≡ (s, 0)))
      ⊎ ((t ≤ now)
          × (s.probing ≡ false)
          × ((allowance now batch_size s).1 ≡ 1)
          × ((later batch : ℕ) → (allowance later batch (allowance now batch_size s).0).1 ≡ 0))
unfolding allowance
allowance_single_flight now batch_size t s h = elim (Bool-cases (ltb now t || s.probing)) [
  | inl shut ↦ inl (ground arith, ground arith)
  | inr free ↦ inr (ground arith, ground arith, ground arith, λ later batch. ground arith)
]

-- A failure while the circuit is paused is no new evidence: it does not move the end of the pause or
-- the count of pauses. A failure after the pause, with the threshold of different events reached,
-- opens the circuit for the next delay, counted from the second reading of the clock. Either way
-- the probe is released.
pub record_failure_pauses :
    (p : Params) (seen now event_id : ℕ) (s : Circuit)
    → let s' = record_failure p seen now event_id s in
      (s'.probing ≡ false)
      × ((t : ℕ)
          → s.open_until ≡ some t
          → seen < t
          → (s'.open_until ≡ some t) × (s'.pauses ≡ s.pauses))
      × ((t : ℕ)
          → s.open_until ≡ some t
          → t ≤ seen
          → p.threshold ≤ length s.failures
          → (s'.open_until ≡ some (now + delay_for p (s.pauses + 1))) × (s'.pauses ≡ s.pauses + 1))
unfolding record_failure
record_failure_pauses p seen now event_id s =
    (ground arith, λ t h k. ground arith, λ t h k l. ground (arith, length-add event_id s.failures))

-- The first pause is the configured one, each further one is twice as long as the one before it, up
-- to the cap, and never shorter.
pub delay_for-doubles :
    (p : Params) (n : ℕ)
    → (delay_for p 1 ≡ min p.pause p.max_pause)
      × (delay_for p (n + 2) ≡ min (2 * delay_for p (n + 1)) p.max_pause)
      × (delay_for p (n + 1) ≤ delay_for p (n + 2))
unfolding delay_for
delay_for-doubles p n = let (e, e') = next_power n in rw (e, e') (omega arith)

-- After a success the circuit is closed and lets whole batches through, and with a threshold above 1
-- one more failure does not open it again.
pub record_success_recovers :
    (p : Params) (s : Circuit) (now batch_size seen later event_id : ℕ)
    → 1 < p.threshold
    → ((allowance now batch_size (record_success s)).1 ≡ batch_size)
      × ((record_failure p seen later event_id (record_success s)).open_until ≡ none)
unfolding allowance record_success record_failure
record_success_recovers p s now batch_size seen later event_id h = ground arith
