-- ===== src/App.antt =====
-- app/main.py, `lifespan`, and app/clients.py, `disconnect`: how the parts are put together at startup, and
-- what is said and closed at shutdown. Whether calls of drivers raise is an argument.
mod Tests
pub mod Shutdown
pub mod Account
pub mod Demo
pub mod Reset
use feathr_events.Prelude.{
  ℕ, List, [], ◌∷◌, ◌++◌, Option, none, some, Bool, true, false, not, ◌||◌, nat_beq, if◌then◌else◌,
  Result, ok, err, map,
}
use feathr_events.Models.{Text, Event}
use feathr_events.Startup.{refuse_multiple_processes}
use feathr_events.Queue.{Stats, stats, pending_events}
use feathr_events.Queue
use feathr_events.Circuit
use feathr_events.Stores.{Documents}
use feathr_events.Worker.{Settings, World, idle, ended}
use feathr_events.Worker.Lifecycle.{Worker, Step, LifecycleError, start, stop}

-- The lines of the log.
pub data Warning : Type 0 where
  mongodb_unprepared elasticsearch_unprepared : Warning
  losing : Stats → Warning
  lost_on_shutdown : Event → Warning

-- The three clients, in the order in which they are closed.
pub data Client : Type 0 where
  mongo_client redis_client elasticsearch_client : Client

-- What `lifespan` raises before the application serves.
pub data StartupError : Type 0 where
  several_processes worker_running : StartupError

-- `disconnect`: the clients that are closed, and those whose closing raised.
unfoldable pub disconnect : (raises : Client → Bool) → List Client → List Client × List Client
disconnect raises [] = ([], [])
disconnect raises (client ∷ further) =
    let (closed, failed) = disconnect raises further in
    if raises client then (closed, client ∷ failed) else (client ∷ closed, failed)

abbrev pub clients : List Client
clients = mongo_client ∷ redis_client ∷ elasticsearch_client ∷ []

abbrev pub unless : Bool → Warning → List Warning
unless b w = if b then [] else w ∷ []

-- `if pending["visible"] or pending["in_flight"]`
abbrev pub any_left : Stats → Bool
any_left s = not (nat_beq s.visible 0) || not (nat_beq s.in_flight 0)

module _ (mongo elastic : Documents) (c : Settings) where
  -- The state of a fresh process, over the data that the stores have.
  unfoldable pub opening : (ready : Bool) → mongo.State → elastic.State → World mongo elastic
  opening ready s t = record {
    queue = Queue.init;
    circuit = Circuit.init;
    store = s;
    search = t;
    ready = ready;
    processed = 0;
    failed = 0;
    acknowledged = [];
  }

  abbrev pub launched :
      List Warning
      → Result LifecycleError (Worker mongo elastic c)
      → Result StartupError (Worker mongo elastic c × List Warning)
  launched warnings (ok w) = ok (w, warnings)
  launched warnings (err e) = err worker_running

  -- `lifespan` up to its `yield`: the worker, with all that it shares, and what is logged.
  -- `mongodb_prepared` and `elasticsearch_prepared` say whether the two `ensure_schema` succeed.
  unfoldable pub startup :
      (argv : List Text) (environment : Option Text)
      (mongodb_prepared elasticsearch_prepared : Bool) (concurrency : ℕ)
      → mongo.State
      → elastic.State
      → Result StartupError (Worker mongo elastic c × List Warning)
  unfolding refuse_multiple_processes opening start
  startup argv environment mongodb_prepared elasticsearch_prepared concurrency s t =
      if refuse_multiple_processes argv environment
      then err several_processes
      else launched
          (unless mongodb_prepared mongodb_unprepared
            ++ unless elasticsearch_prepared elasticsearch_unprepared)
          (start mongo elastic c concurrency (record {
            system = record { world = opening elasticsearch_prepared s t; pc = λ i. ended };
            stopping = false;
            tasks = [];
          }))

  -- What is logged of the events that are left.
  unfoldable pub report_losses : Worker mongo elastic c → List Warning
  unfolding stats pending_events
  report_losses w =
      let pending = stats c.queue_config w.system.world.queue in
      if any_left pending
      then losing pending ∷ map lost_on_shutdown (pending_events w.system.world.queue)
      else []

  -- `lifespan` after its `yield`: the worker, what is logged, and which clients are closed.
  unfoldable pub shutdown :
      List (Step mongo elastic c)
      → (applied : ℕ → Bool) → (raises : Client → Bool) → Worker mongo elastic c
      → Worker mongo elastic c × List Warning × (List Client × List Client)
  unfolding stop report_losses disconnect
  shutdown steps applied raises w =
      let w' = stop mongo elastic c steps applied w in
      (w', report_losses w', disconnect raises clients)
