-- ===== src/Worker/Lifecycle.antt =====
-- app/worker.py, `start`, `stop`, `stats` and `reset_counters`: the worker as a whole. While it stops, a
-- consumer at the head of its loop returns, and the others finish their batches, until the time for
-- draining is over and the rest is cancelled.
mod Tests
pub mod Ahead
pub mod Draining
use feathr_events.Prelude.{
  ℕ, zero, suc, ◌+◌, List, [], ◌∷◌, ◌++◌, Bool, true, false, if◌then◌else◌, Result, ok, err, length,
  nat_beq, contains, nat_eq,
}
use feathr_events.Models.{Event}
use feathr_events.Faults.{Faulted}
use feathr_events.Queue.{send}
use feathr_events.Circuit.{is_open, seconds_remaining}
use feathr_events.Stores.{Documents, Reply}
use feathr_events.Worker.{
  Settings, World, Pc, idle, handling, storing, indexing, ended, go_on, cancel, System, resume,
  enqueued,
}

-- `RuntimeError`
pub data LifecycleError : Type 0 where
  already_running : LifecycleError

-- `worker.stats()`; `resumes_in` is not rounded.
pub record Stats : Type 0 where
  pub processed : ℕ
  pub paused : Bool
  pub resumes_in : ℕ
  pub failed_attempts : ℕ
  pub consumers : ℕ

-- The names of `n` tasks.
abbrev pub range : ℕ → List ℕ
range zero = []
range (suc n) = n ∷ range n

module _ (mongo elastic : Documents) (c : Settings) where
  -- The consumers, the flag `_stopping`, and the names of `_tasks`.
  pub record Worker : Type 0 where
    pub system : System mongo elastic c
    pub stopping : Bool
    pub tasks : List ℕ

  -- New tasks stand at the head of their loops.
  unfoldable pub start : (concurrency : ℕ) → Worker → Result LifecycleError Worker
  start concurrency w = elim w.tasks [
    | [] ↦ ok (record {
      system = record w.system {
        pc = λ i. if contains i (range concurrency) then idle else w.system.pc i;
      };
      stopping = false;
      tasks = range concurrency;
    })
    | ◌∷◌ i is ↦ err already_running
  ]

  -- What happens while the worker drains: a consumer goes on, or the API enqueues.
  pub data Step : Type 0 where
    goes_on : (i t₁ t₂ t₃ : ℕ) → Faulted → (prepared : Bool) → Reply → Step
    arrives : Event → Step

  -- The head of the loop reads `_stopping`.
  abbrev pub looked : Pc → Bool
  looked idle = true
  looked _ = false

  unfoldable pub step : Step → System mongo elastic c → System mongo elastic c
  unfolding go_on
  step (goes_on i t₁ t₂ t₃ faulted prepared reply) s =
      let next = go_on mongo elastic c t₁ t₂ t₃ faulted prepared reply s.world (s.pc i) in
      resume mongo elastic c s i (if looked (s.pc i) then (s.world, ended) else next)
  step (arrives e) s = record s {
    world = enqueued mongo elastic c s.world (send c.uuid c.queue_config e s.world.queue);
  }

  unfoldable pub drain : List Step → System mongo elastic c → System mongo elastic c
  unfolding step
  drain [] s = s
  drain (x ∷ xs) s = drain xs (step x s)

  abbrev pub is_ended : Pc → Bool
  is_ended ended = true
  is_ended _ = false

  -- `for task in pending: task.cancel()`
  unfoldable pub cancel_pending :
      (applied : ℕ → Bool) → List ℕ → System mongo elastic c → System mongo elastic c
  unfolding cancel
  cancel_pending applied [] s = s
  cancel_pending applied (i ∷ is) s =
      let cut = resume mongo elastic c s i (cancel mongo elastic c (applied i) s.world (s.pc i)) in
      cancel_pending applied is (if is_ended (s.pc i) then s else cut)

  -- `stop`, where the steps happen before the drain is over.
  unfoldable pub stop : List Step → (applied : ℕ → Bool) → Worker → Worker
  unfolding drain cancel_pending
  stop steps applied w = elim w.tasks [
    | [] ↦ w
    | ◌∷◌ i is ↦ record {
      system = cancel_pending applied (i ∷ is) (drain steps w.system);
      stopping = true;
      tasks = [];
    }
  ]

  unfoldable pub reset_counters : World mongo elastic → World mongo elastic
  reset_counters w = record w { processed = 0; failed = 0 }

  unfoldable pub stats : (now : ℕ) → Worker → Stats
  stats now w = record {
    processed = w.system.world.processed;
    paused = is_open w.system.world.circuit;
    resumes_in = seconds_remaining now w.system.world.circuit;
    failed_attempts = w.system.world.failed;
    consumers = length w.tasks;
  }
