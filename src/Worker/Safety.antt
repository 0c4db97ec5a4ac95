-- ===== src/Worker/Safety.antt =====
-- What the stores hold, however the consumers are interleaved, cancelled and restarted, and whatever
-- the drivers answer.
use feathr_events.Prelude.{ℕ, ◌≡◌, ap, sym, ◌∙◌, Bool, true, not, All, is_none}
use feathr_events.Stores.{Documents}
use feathr_events.Worker.{World, Pc, idle, indexing}

module _ (mongo elastic : Documents) where
  -- There is a document under the `_id`.
  abbrev pub in_store : ℕ → mongo.State → Bool
  in_store k s = not (is_none (mongo.find k s))

  abbrev pub in_search : ℕ → elastic.State → Bool
  in_search k s = not (is_none (elastic.find k s))

  pub record Safe (w : World mongo elastic) : Type 0 where
    pub no_phantom : (k : ℕ) → in_search k w.search ≡ true → in_store k w.store ≡ true
    pub acked_stored :
        All
          (λ e. (in_store e.event_id w.store ≡ true) × (in_search e.event_id w.search ≡ true))
          w.acknowledged

  -- A consumer that writes to the index has written to the store.
  abbrev pub PcFine : World mongo elastic → Pc → Type 0
  PcFine w idle = Unit
  PcFine w (indexing m rest) = in_store m.event.event_id w.store ≡ true
  PcFine w _ = Unit

  -- The parts of the shared state that the stores and the acknowledgements make up.
  abbrev pub Same : World mongo elastic → World mongo elastic → Type 0
  Same w w' = (w'.store ≡ w.store) × (w'.search ≡ w.search) × (w'.acknowledged ≡ w.acknowledged)

  pub Same-Safe : (w w' : World mongo elastic) → Same w w' → Safe w → Safe w'
  Same-Safe w w' (a, b, d) v = record {
    no_phantom = λ k h. ap (in_store k) a ∙ v.no_phantom k (ap (in_search k) (sym b) ∙ h);
    acked_stored = rw (a, b, d) v.acked_stored;
  }

  -- A segment keeps the state safe, leaves the consumer fine, and takes nothing out of the store.
  abbrev pub Keeps : World mongo elastic → World mongo elastic × Pc → Type 0
  Keeps w (w', p) =
      Safe w' × PcFine w' p × ((k : ℕ) → in_store k w.store ≡ true → in_store k w'.store ≡ true)

  -- A segment that leaves the stores alone, and does not go on to the index.
  abbrev pub Quiet : Pc → Type 0
  Quiet (indexing m rest) = ⊥
  Quiet _ = Unit

  pub Same-Keeps :
      (w w' : World mongo elastic) (p : Pc) → Same w w' → Quiet p → Safe w → Keeps w (w', p)
  Same-Keeps w w' p s quiet v = (Same-Safe w w' s v, fine p quiet, λ k h. ap (in_store k) s.0 ∙ h)
    where
      fine : (p : Pc) → Quiet p → PcFine w' p
      fine (indexing m rest) q = absurd q
      fine idle q = tt
      fine _ q = tt
