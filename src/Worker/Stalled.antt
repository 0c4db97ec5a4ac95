-- ===== src/Worker/Stalled.antt =====
-- A consumer of app/worker.py that is cancelled while its message is the probe of the circuit.
use feathr_events.Prelude.{ℕ, Bool, true, false, ◌≡◌}
use feathr_events.Queue.{Queue}
use feathr_events.Circuit.{Circuit}
use feathr_events.Stores.{Documents}
use feathr_events.Worker.{
  Settings, World, Pc, idle, handling, storing, indexing, ended, After, System,
}

-- A consumer that holds no message.
abbrev pub is_free : Pc → Bool
is_free idle = true
is_free ended = true
is_free (handling ms) = false
is_free (storing m ms) = false
is_free (indexing m ms) = false

-- The circuit while its probe is out.
abbrev pub probed : Circuit → Circuit
probed s = record s { probing = true }

module _ (mongo elastic : Documents) (c : Settings) where
  -- All consumers are free, the circuit is this one, and nothing was written or acknowledged since.
  abbrev pub Stalled : Circuit → World mongo elastic → System mongo elastic c → Type 0
  Stalled circuit w s =
      ((j : ℕ) → is_free (s.pc j) ≡ true)
      × (s.world.circuit ≡ circuit)
      × (s.world.store ≡ w.store)
      × (s.world.search ≡ w.search)
      × (s.world.acknowledged ≡ w.acknowledged)

  -- What one consumer may leave.
  abbrev Leaves : World mongo elastic → After mongo elastic c → Type 0
  Leaves w (w', p) =
      (is_free p ≡ true)
      × (w'.circuit ≡ w.circuit)
      × (w'.store ≡ w.store)
      × (w'.search ≡ w.search)
      × (w'.acknowledged ≡ w.acknowledged)
