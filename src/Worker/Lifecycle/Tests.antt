-- ===== src/Worker/Lifecycle/Tests.antt =====
-- The theorem on `stop` of app/worker.py at a concrete worker.
use feathr_events.Prelude.{List, [], ◌∷◌, none, true, false, ◌≡◌, All, arith}
use feathr_events.Samples.{table, event, settings}
use feathr_events.Queue.{init}
use feathr_events.Circuit
use feathr_events.Circuit.{default_params}
use feathr_events.Stores.{done}
use feathr_events.Worker.{World, handling, ended}
use feathr_events.Worker.Lifecycle.{Worker, Step, goes_on, stop, drain}
use feathr_events.Worker.Lifecycle.Draining.{stop-drains}

abbrev world : World table table
world = record {
  queue = init;
  circuit = Circuit.init;
  store = λ j. none;
  search = λ j. none;
  ready = false;
  processed = 0;
  failed = 0;
  acknowledged = [];
}

-- One consumer has a message in hand, whose loan is over.
abbrev worker : Worker table table settings
worker = record {
  system = record {
    world = world;
    pc = λ i. handling (record { event = event; receipt_handle = 1; receive_count = 1 } ∷ []);
  };
  stopping = false;
  tasks = 0 ∷ [];
}

abbrev go : Step table table settings
go = goes_on 0 1 1 1 [] true done

abbrev steps : List (Step table table settings)
steps = go ∷ go ∷ go ∷ go ∷ go ∷ []

stop-drains_example :
    ((stop table table settings steps (λ i. false) worker).system
      ≡ drain table table settings steps worker.system)
    × All (λ i. (drain table table settings steps worker.system).pc i ≡ ended) (0 ∷ [])
stop-drains_example =
    stop-drains table table settings steps (λ i. false) worker (λ e. ground (arith, e))
      (omega arith, tt)
