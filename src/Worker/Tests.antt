-- ===== src/Worker/Tests.antt =====
-- The theorems on the class `EventWorker` of app/worker.py at concrete systems.
use feathr_events.Prelude.{
  ℕ, ◌+◌, ◌*◌, ◌++◌, take, length, ◌≡◌, refl, true, false, List, [], ◌∷◌, none, some, nat_eq,
}
use feathr_events.Samples.{table, event, settings}
use feathr_events.Queue.{init, Queue, Entry, Message}
use feathr_events.Queue.History.{sends, run, run-init-Inv}
use feathr_events.Queue.Order.{IsLine, handed, deliveries}
use feathr_events.Circuit.{Circuit, allowance}
use feathr_events.Stores.{done, unconfirmed}
use feathr_events.Worker.{
  World, idle, handling, System, Turn, goes_on, cancelled, started, arrives, turns,
}
use feathr_events.Worker.Interleaving.{AllSafe, turns-AllSafe}
use feathr_events.Worker.Delivery.{next}
use feathr_events.Worker.Stalled.{Stalled}
use feathr_events.Worker.Batch.{Readings, handle_all, Handled, batch_completes}

abbrev closed : Circuit
closed = record { failures = []; open_until = none; pauses = 0; probing = false }

-- The event is lent as message 0 under the handle 1.
abbrev entry : Entry
entry = record { event = event; receive_count = 1; handle = some 1; deadline = 30_000 }

abbrev queue : Queue
queue = record {
  entries = (0, entry) ∷ [];
  visible = [];
  inflight = (1, 0) ∷ [];
  dlq = [];
  logged = [];
  drawn = 2;
}

abbrev message : Message
message = record { event = event; receipt_handle = 1; receive_count = 1 }

abbrev world : World table table
world = record {
  queue = queue;
  circuit = closed;
  store = λ j. none;
  search = λ j. none;
  ready = false;
  processed = 0;
  failed = 0;
  acknowledged = [];
}

abbrev system : System table table settings
system = record { world = world; pc = λ i. handling (message ∷ []) }

system-AllSafe : AllSafe table table settings system
system-AllSafe = record {
  safe = record { no_phantom = λ k h. h; acked_stored = tt };
  fine = λ i. tt;
}

-- Two consumers on one message; the write of the first is lost, the second is cancelled.
abbrev schedule : List (Turn table table settings)
schedule =
    goes_on 0 5 5 5 [] true done
    ∷ goes_on 1 6 6 6 [] true done
    ∷ goes_on 0 7 7 7 [] true unconfirmed
    ∷ cancelled 1 true
    ∷ started 1
    ∷ arrives event
    ∷ []

turns-AllSafe_example : AllSafe table table settings (turns table table settings schedule system)
turns-AllSafe_example = turns-AllSafe table table settings schedule system system-AllSafe

-- The event waits in the queue.
abbrev waiting : World table table
waiting = record world { queue = run settings.uuid settings.queue_config (sends event ∷ []) init }

-- A segment each second.
abbrev readings : ℕ → Readings table table settings (λ i j e. e)
readings j = ((3_000 * j + 2_000, 0, 0), (0, 0, 0), (0, 0, 0))

batch_completes_example :
    (back : List ℕ) × (out : List Message) × IsLine settings.queue_config 1_000 waiting.queue back
    × (handed out
        ≡ deliveries waiting.queue.entries (
            take
              (allowance 999 settings.batch_size waiting.circuit).1
              (waiting.queue.visible ++ back)))
    × Handled table table settings
        (λ i j e. e)
        out
        waiting
        (handle_all table table settings
          (λ i j e. e)
          readings
          (length out)
          (next table table settings (999, 1_000, 1_001) (waiting, idle)))
unfolding allowance
batch_completes_example =
    batch_completes table table settings (λ i j e. e) waiting 999 1_000 1_001 readings
      (run-init-Inv settings.uuid (λ i j e. e) settings.queue_config (sends event ∷ [])) refl

-- The circuit is paused until 100, after failures of three events.
abbrev paused : Circuit
paused = record { failures = 1 ∷ 2 ∷ 3 ∷ []; open_until = some 100; pauses = 1; probing = false }

-- The event waits in the queue, lent to nobody.
abbrev lined : Queue
lined = record {
  entries = (0, record entry { receive_count = 0; handle = none; deadline = 0 }) ∷ [];
  visible = 0 ∷ [];
  inflight = [];
  dlq = [];
  logged = [];
  drawn = 1;
}

abbrev halted : System table table settings
halted = record { world = record world { queue = lined; circuit = paused }; pc = λ j. idle }

-- The worker is started again, further events arrive, and a consumer asks again and again.
abbrev onwards : List (Turn table table settings)
onwards =
    started 0
    ∷ started 1
    ∷ arrives event
    ∷ goes_on 0 200 201 202 [] true done
    ∷ goes_on 1 90_000 90_001 90_002 [] true done
    ∷ []
