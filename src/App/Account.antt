-- ===== src/App/Account.antt =====
-- The account of a run of app/main.py: the API takes events in, and the consumers of the worker carry
-- them to the stores.
use feathr_events.Prelude.{ℕ, ◌+◌, ◌≡◌, List, [], true, Bool, arith, All}
use feathr_events.Models.{Event}
use feathr_events.Queue.{Queue, pending_events, init}
use feathr_events.Queue.Invariant.{init-Inv}
use feathr_events.Queue.Tally.{tally, buried}
use feathr_events.Queue.Conservation.{init-held}
use feathr_events.Queue.Claims.{init-AllOld}
use feathr_events.Stores.{Documents}
use feathr_events.Worker.{
  Settings, World, Pc, idle, handling, storing, indexing, ended, System, Turn, turns,
}
use feathr_events.Worker.Safety.{in_store, in_search, PcFine}
use feathr_events.Worker.Interleaving.{turns-AllSafe}
use feathr_events.Worker.Accounts.{messages}
use feathr_events.Worker.Ledger.{accepted_in, Tracked, ClaimedBy, turns-Settled}
use feathr_events.App.{opening}

module _ (mongo elastic : Documents) (c : Settings) where
  -- The process at its start: nothing is queued or acknowledged, and no consumer holds a message.
  abbrev pub launching :
      (ready : Bool) → mongo.State → elastic.State → (ℕ → Pc) → System mongo elastic c
  launching ready s t p = record { world = opening mongo elastic c ready s t; pc = p }

  -- Every acknowledged event is in both stores.
  abbrev pub AckedStored : World mongo elastic → Type 0
  AckedStored w =
      All
        (λ e.
          (in_store mongo elastic e.event_id w.store ≡ true)
          × (in_search mongo elastic e.event_id w.search ≡ true))
        w.acknowledged

  module _ (injective : (i j : ℕ) → c.uuid i ≡ c.uuid j → i ≡ j) where
    empty-ClaimedBy :
        (f : Event → Bool) (q : Queue) (p : Pc)
        → messages p ≡ []
        → ClaimedBy mongo elastic c injective f q p
    empty-ClaimedBy f q p none_held = rw none_held tt

    empty-PcFine : (w : World mongo elastic) (p : Pc) → messages p ≡ [] → PcFine mongo elastic w p
    empty-PcFine w idle h = tt
    empty-PcFine w ended h = tt
    empty-PcFine w (handling ms) h = tt
    empty-PcFine w (storing m rest) h = tt
    empty-PcFine w (indexing m rest) h = ground (arith, h)

    launching-Tracked :
        (f : Event → Bool) (ready : Bool) (s : mongo.State) (t : elastic.State) (p : ℕ → Pc)
        → ((i : ℕ) → messages (p i) ≡ [])
        → Tracked mongo elastic c injective f (launching ready s t p)
    unfolding opening
    launching-Tracked f ready s t p empty = record {
      valid = init-Inv c.uuid c.queue_config;
      old = init-AllOld c.uuid injective;
      claims = λ i. empty-ClaimedBy f init (p i) (empty i);
    }

    -- Of any events, as many are accepted by the API in a run as are acknowledged, buried with a line in
    -- the log and still in the queue, together, and every acknowledged event is in both stores. The run
    -- is any series of requests and of segments of the consumers, which may be cancelled and started
    -- anew, with any answers of the drivers, from a start at which the index has no document that the
    -- store has not, and no consumer holds a message. The identifiers drawn are distinct.
    pub accepted_accounted :
        (ready : Bool) (s : mongo.State) (t : elastic.State) (p : ℕ → Pc)
        → ((i : ℕ) → messages (p i) ≡ [])
        → ((k : ℕ) → in_search mongo elastic k t ≡ true → in_store mongo elastic k s ≡ true)
        → (ts : List (Turn mongo elastic c)) (f : Event → Bool)
        → let first = launching ready s t p in
          let last = (turns mongo elastic c ts first).world in
          (tally f (accepted_in mongo elastic c ts first)
            ≡ tally f last.acknowledged
              + tally f (buried last.queue.logged)
              + tally f (pending_events last.queue))
          × AckedStored last
    unfolding opening pending_events
    accepted_accounted ready s t p empty stored ts f =
        let first = launching ready s t p in
        let safe = turns-AllSafe mongo elastic c ts first (record {
          safe = record { no_phantom = stored; acked_stored = tt };
          fine = λ i. empty-PcFine first.world (p i) (empty i);
        }) in
        (
          omega (
            arith,
            turns-Settled mongo elastic c injective f ts first
                (launching-Tracked f ready s t p empty),
            init-held f,
          ),
          safe.safe.acked_stored,
        )
