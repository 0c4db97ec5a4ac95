-- ===== src/App/Demo.antt =====
-- app/main.py, the routes of the demo mode that reach the worker and the stores. The deletion of all
-- documents is a parameter of each database.
use feathr_events.Prelude.{
  ℕ, List, [], ◌∷◌, ◌++◌, Bool, true, false, not, nat_beq, if◌then◌else◌, Result, ok, err,
}
use feathr_events.Faults.{Dependency, Faulted, active}
use feathr_events.Queue.{clear}
use feathr_events.Health.{demo_fault}
use feathr_events.Stores.{Documents, Reply}
use feathr_events.Schema.{called}
use feathr_events.Worker.{Settings, World}
use feathr_events.Worker.Lifecycle.{Worker, LifecycleError, start, stop, stats, reset_counters}

-- `FaultTarget`
pub data FaultTarget : Type 0 where
  store : Dependency → FaultTarget
  worker : FaultTarget

-- How the calls of `demo_reset` end, in their order: `count_documents`, the two deletions, `flushdb`, and
-- the two `ensure_schema`.
pub record ResetCalls : Type 0 where
  pub counted : Bool
  pub dropped : Reply
  pub deleted : Reply
  pub flushed : Bool
  pub index_prepared : Bool
  pub store_prepared : Bool

module _ (mongo elastic : Documents) (c : Settings) where
  -- `[*faults.active(), *stopped]`
  unfoldable pub demo_faults_active :
      (now : ℕ) → Faulted → Worker mongo elastic c → List FaultTarget
  unfolding active stats
  demo_faults_active now faulted w =
      stores (active faulted)
      ++ (if nat_beq (stats mongo elastic c now w).consumers 0 then worker ∷ [] else [])
    where
      stores : List Dependency → List FaultTarget
      stores [] = []
      stores (d ∷ ds) = store d ∷ stores ds

  -- `demo_fault`: the faults and the worker afterwards; to start a worker that runs raises.
  unfoldable pub switch :
      (concurrency : ℕ) (applied : ℕ → Bool)
      → FaultTarget
      → (down : Bool) → Faulted
      → Worker mongo elastic c
      → Result LifecycleError (Faulted × Worker mongo elastic c)
  unfolding demo_fault start stop
  switch concurrency applied (store d) down faulted w = ok (demo_fault d down faulted, w)
  switch concurrency applied worker true faulted w = ok (faulted, stop mongo elastic c [] applied w)
  switch concurrency applied worker false faulted w = started (start mongo elastic c concurrency w)
    where
      started :
          Result LifecycleError (Worker mongo elastic c)
          → Result LifecycleError (Faulted × Worker mongo elastic c)
      started (ok w') = ok (faulted, w')
      started (err e) = err e

  -- `demo_reset`: what is shared afterwards, and whether the request is answered.
  unfoldable pub demo_reset :
      (drop : mongo.State → mongo.State) (delete : elastic.State → elastic.State)
      → ResetCalls
      → World mongo elastic
      → World mongo elastic × Bool
  unfolding clear reset_counters called
  demo_reset drop delete calls w =
      let cleared = reset_counters mongo elastic c (record w { queue = clear w.queue }) in
      let (s, drop_failed) = called drop calls.dropped w.store in
      let (t, delete_failed) = called delete calls.deleted w.search in
      let emptied = record cleared { store = s } in
      if not calls.counted then (w, false) else if drop_failed then (emptied, false) else (
        record emptied { search = t },
        if delete_failed
            then false
            else if calls.flushed
            then (if calls.index_prepared then calls.store_prepared else false)
            else false,
      )
