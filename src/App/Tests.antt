-- ===== src/App/Tests.antt =====
-- The theorems on the run and the shutdown of app/main.py at concrete runs.
use feathr_events.Prelude.{
  List, [], ◌∷◌, none, some, true, false, ◌≡◌, ◌+◌, refl, contains, nat_eq, if◌then◌else◌,
}
use feathr_events.Faults.{guard}
use feathr_events.Queue.{Message, pending_events}
use feathr_events.Queue.Tally.{tally, buried}
use feathr_events.Queue.Invariant.{Inv}
use feathr_events.Samples.{table, event, settings}
use feathr_events.Stores.{refused, done}
use feathr_events.Worker.{idle, ended, indexing, go_on, Turn, turns, goes_on, arrives}
use feathr_events.Worker.Safety.{in_store, in_search}
use feathr_events.Worker.Lifecycle.{Worker, start}
use feathr_events.Worker.Ledger.{accepted_in}
use feathr_events.Startup.{refuse_multiple_processes, scan}
use feathr_events.App.{opening, startup, shutdown}
use feathr_events.App.Account.{AckedStored, launching, accepted_accounted}
use feathr_events.App.Demo.{demo_reset}
use feathr_events.App.Reset.{undisturbed, reset_leaves_phantom}
use feathr_events.App.Shutdown.{named, shutdown-named}

abbrev worker : Worker table table settings
worker = record {
  system = record {
    world = opening table table settings true (λ j. none) (λ j. none);
    pc = λ i. if contains i (0 ∷ []) then idle else ended;
  };
  stopping = false;
  tasks = 0 ∷ [];
}

-- An event arrives, is lent to the consumer 0, and is not stored before the process stops.
abbrev run : List (Turn table table settings)
run = arrives event ∷ goes_on 0 1 1 1 [] true refused ∷ []

shutdown-named_example :
    let served = record worker { system = turns table table settings run worker.system } in
    let r = shutdown table table settings [] (λ i. false) (λ k. false) served in
    (named r.1 ≡ pending_events r.0.system.world.queue)
    × Inv settings.uuid settings.queue_config r.0.system.world.queue
unfolding startup refuse_multiple_processes scan start opening
shutdown-named_example =
    shutdown-named table table settings (λ i j e. e) [] none true true 1 (λ j. none) (λ j. none)
      worker [] run [] (λ i. false) (λ k. false) refl

-- Two events arrive; the consumer 0 delivers the first and stores the second, of which the write to the
-- index is refused.
abbrev delivery : List (Turn table table settings)
delivery =
    arrives event
    ∷ arrives event
    ∷ goes_on 0 1 1 1 [] true done
    ∷ goes_on 0 2 2 2 [] true done
    ∷ goes_on 0 3 3 3 [] true done
    ∷ goes_on 0 4 4 4 [] true done
    ∷ goes_on 0 5 5 5 [] true done
    ∷ goes_on 0 6 6 6 [] true done
    ∷ goes_on 0 7 7 7 [] true refused
    ∷ []

accepted_accounted_example :
    let first = launching table table settings true (λ j. none) (λ j. none) (λ i. idle) in
    let last = (turns table table settings delivery first).world in
    (tally (λ e. true) (accepted_in table table settings delivery first)
      ≡ tally (λ e. true) last.acknowledged
        + tally (λ e. true) (buried last.queue.logged)
        + tally (λ e. true) (pending_events last.queue))
    × AckedStored table table settings last
accepted_accounted_example =
    accepted_accounted table table settings (λ i j e. e) true (λ j. none) (λ j. none) (λ i. idle)
      (λ i. refl) (λ k h. h) delivery (λ e. true)

-- The event as it is delivered.
abbrev message : Message
message = record { event = event; receipt_handle = 1; receive_count = 1 }

reset_leaves_phantom_example :
    let (w, answered) =
      demo_reset table table settings
        (λ s j. none)
        (λ s j. none)
        undisturbed
        (opening table table settings true (λ j. some event) (λ j. none)) in
    let w' = (go_on table table settings 1 1 1 [] true done w (indexing message [])).0 in
    (answered ≡ true)
    × (in_search table table 7 w'.search ≡ true)
    × (in_store table table 7 w'.store ≡ false)
    × (pending_events w'.queue ≡ [])
unfolding opening guard
reset_leaves_phantom_example =
    reset_leaves_phantom table table settings (λ s j. none) (λ s j. none) 1 1 1 [] true message []
      (opening table table settings true (λ j. some event) (λ j. none)) (λ k s. refl) refl refl
