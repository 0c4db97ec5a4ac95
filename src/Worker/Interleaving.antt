-- ===== src/Worker/Interleaving.antt =====
-- The worker as a whole: any number of consumers in any order, cancelled and restarted at any time,
-- with any answers of the drivers.
use feathr_events.Prelude.{
  ℕ, ◌≡◌, refl, List, [], ◌∷◌, true, Bool-cases, inl, inr, nat_beq, ok, err, Result,
}
use feathr_events.Queue.{Queue, QueueError, send}
use feathr_events.Stores.{Documents}
use feathr_events.Worker.{
  Settings, World, Pc, idle, handling, storing, indexing, ended, Turn, goes_on, cancelled, started,
  arrives, System, turn, turns, resume, restarted, enqueued,
}
use feathr_events.Worker.Safety.{in_store, Safe, PcFine, Same-Safe, Keeps}
use feathr_events.Worker.Segments.{go_on-Keeps, cancel-Keeps}

module _ (mongo elastic : Documents) where
  -- The state is safe, and each consumer that writes to the index has written to the store.
  pub record AllSafe (c : Settings) (s : System mongo elastic c) : Type 0 where
    pub safe : Safe mongo elastic s.world
    pub fine : (i : ℕ) → PcFine mongo elastic s.world (s.pc i)

  PcFine-mono :
      (w w' : World mongo elastic)
      → ((k : ℕ)
          → in_store mongo elastic k w.store ≡ true
          → in_store mongo elastic k w'.store ≡ true)
      → (p : Pc) → PcFine mongo elastic w p
      → PcFine mongo elastic w' p
  PcFine-mono w w' grows (indexing m rest) f = grows m.event.event_id f
  PcFine-mono w w' grows idle f = tt
  PcFine-mono w w' grows _ f = tt

  module _ (c : Settings) where
    resume-AllSafe :
        (s : System mongo elastic c) (i : ℕ) (w : World mongo elastic) (p : Pc)
        → AllSafe c s
        → Keeps mongo elastic s.world (w, p)
        → AllSafe c (resume mongo elastic c s i (w, p))
    resume-AllSafe s i w p v (safe, fine, grows) = record {
      safe = safe;
      fine = λ j. elim (Bool-cases (nat_beq i j)) [
        | inl mine ↦ rw mine fine
        | inr other ↦ rw other (PcFine-mono s.world w grows (s.pc j) (v.fine j))
      ];
    }

    restarted-fine :
        (w : World mongo elastic) (p : Pc)
        → PcFine mongo elastic w p
        → PcFine mongo elastic w (restarted mongo elastic c p)
    restarted-fine w ended f = tt
    restarted-fine w idle f = f
    restarted-fine w (handling ms) f = f
    restarted-fine w (storing m rest) f = f
    restarted-fine w (indexing m rest) f = f

    enqueued-AllSafe :
        (s : System mongo elastic c) (r : Result QueueError Queue)
        → AllSafe c s
        → AllSafe c (record s { world = enqueued mongo elastic c s.world r })
    enqueued-AllSafe s (ok q) v = record {
      safe =
          Same-Safe mongo elastic s.world (record (s.world) { queue = q }) (refl, refl, refl)
            v.safe;
      fine =
          λ i. PcFine-mono s.world (record (s.world) { queue = q }) (λ k h. h) (s.pc i) (v.fine i);
    }
    enqueued-AllSafe s (err e) v = record { safe = v.safe; fine = v.fine }

    turn-AllSafe :
        (t : Turn mongo elastic c) (s : System mongo elastic c)
        → AllSafe c s
        → AllSafe c (turn mongo elastic c t s)
    unfolding turn
    turn-AllSafe (goes_on i t₁ t₂ t₃ faulted prepared reply) s v = resume-AllSafe s i _ _ v (
        go_on-Keeps mongo elastic c t₁ t₂ t₃ faulted prepared reply s.world (s.pc i) v.safe
          (v.fine i))
    turn-AllSafe (cancelled i applied) s v =
        resume-AllSafe s i _ _ v
          (cancel-Keeps mongo elastic c applied s.world (s.pc i) v.safe (v.fine i))
    turn-AllSafe (started i) s v =
        resume-AllSafe s i s.world _ v
          (v.safe, restarted-fine s.world (s.pc i) (v.fine i), λ k h. h)
    turn-AllSafe (arrives e) s v = enqueued-AllSafe s (send c.uuid c.queue_config e s.world.queue) v

    -- Whatever the consumers do, in any interleaving of their segments, cancelled between them and
    -- started anew, and however the drivers answer, this stays true if it holds: no document is in
    -- the index that is not in the store, every event of which the message was deleted is in both,
    -- and a consumer that is to write to the index has its event in the store.
    pub turns-AllSafe :
        (ts : List (Turn mongo elastic c)) (s : System mongo elastic c)
        → AllSafe c s
        → AllSafe c (turns mongo elastic c ts s)
    unfolding turns
    turns-AllSafe [] s v = v
    turns-AllSafe (t ∷ ts) s v = turns-AllSafe ts (turn mongo elastic c t s) (turn-AllSafe t s v)
