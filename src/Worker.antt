-- ===== src/Worker.antt =====
-- app/worker.py, the class `EventWorker`: the loop of a consumer, cut at its `await`s into the
-- segments that run without interruption.
mod Tests
pub mod Safety
pub mod Delivery
pub mod Writes
pub mod Segments
pub mod Lifecycle
pub mod Queueing
pub mod Batch
pub mod Accounts
pub mod Ledger
pub mod Interleaving
pub mod Stalled
use feathr_events.Prelude.{
  ℕ, zero, suc, ◌+◌, List, [], ◌∷◌, Option, none, some, Bool, true, false, nat_beq, if◌then◌else◌,
  ok, err, Result,
}
use feathr_events.Models.{Event}
use feathr_events.Queue.{
  Queue, Config, Message, QueueError, receipt_handle_is_invalid, queue_full, key_error, send,
  receive, delete, change_visibility, fail,
}
use feathr_events.Circuit.{
  Circuit, Params, allowance, abandon_probe, record_success, record_failure,
}
use feathr_events.Faults.{Faulted}
use feathr_events.Stores.{Documents, Reply, upsert, index}

-- Where a consumer stands: at the head of the loop; with messages of its batch to handle; waiting for
-- a store; or ended by an exception that nothing catches, or by cancellation.
pub data Pc : Type 0 where
  idle : Pc
  handling : List Message → Pc
  storing indexing : Message → List Message → Pc
  ended : Pc

-- The constructor's parameters, and the source of identifiers.
pub record Settings : Type 0 where
  pub uuid : ℕ → ℕ
  pub queue_config : Config
  pub params : Params
  pub batch_size : ℕ
  pub visibility : ℕ
  pub demo_mode : Bool

-- What all consumers share. `acknowledged` are the events of the messages that consumers deleted.
pub record World (mongo elastic : Documents) : Type 0 where
  pub queue : Queue
  pub circuit : Circuit
  pub store : mongo.State
  pub search : elastic.State
  pub ready : Bool
  pub processed : ℕ
  pub failed : ℕ
  pub acknowledged : List Event

module _ (mongo elastic : Documents) (c : Settings) where
  abbrev pub After : Type 0
  After = World mongo elastic × Pc

  -- The messages that `receive` returned.
  abbrev pub pulled : World mongo elastic → Result QueueError (Queue × List Message) → After
  pulled w (err e) = (record w { circuit = abandon_probe w.circuit }, idle)
  pulled w (ok (q, [])) = (record w { queue = q; circuit = abandon_probe w.circuit }, idle)
  pulled w (ok (q, m ∷ ms)) = (record w { queue = q }, handling (m ∷ ms))

  -- `_loop` up to the `for`: the readings of the clock are those of `allowance`, of `_sweep` and of
  -- `receive`.
  unfoldable pub poll : (asked swept now : ℕ) → World mongo elastic → After
  poll asked swept now w =
      let (circuit, granted) = allowance asked c.batch_size w.circuit in
      let w' = record w { circuit = circuit } in
      if nat_beq granted 0
      then (w', idle)
      else pulled w' (receive c.uuid c.queue_config swept now granted none w.queue)

  abbrev pub claimed :
      World mongo elastic → Message → List Message → Result QueueError Queue → After
  claimed w m rest (ok q) = (record w { queue = q }, storing m rest)
  claimed w m rest (err receipt_handle_is_invalid) = (w, handling rest)
  claimed w m rest (err _) = (w, ended)

  -- `_handle`, the heartbeat.
  unfoldable pub claim : (now : ℕ) → Message → List Message → World mongo elastic → After
  claim now m rest w =
      claimed w m rest (change_visibility now m.receipt_handle c.visibility w.queue)

  abbrev pub put_back : World mongo elastic → List Message → Result QueueError Queue → After
  put_back w rest (ok q) = (record w { queue = q }, handling rest)
  put_back w rest (err receipt_handle_is_invalid) = (w, handling rest)
  put_back w rest (err _) = (w, ended)

  -- `_handle`, the handler of a failed write.
  unfoldable pub fail_delivery :
      (seen now later : ℕ) → Message → List Message → World mongo elastic → After
  fail_delivery seen now later m rest w =
      put_back
        (record w {
          failed = w.failed + 1;
          circuit = record_failure c.params seen now m.event.event_id w.circuit;
        })
        rest (fail c.queue_config later m.receipt_handle w.queue)

  -- `_handle`, the end of `store.upsert`.
  unfoldable pub store_write :
      (seen now later : ℕ) → Faulted → Reply → Message → List Message → World mongo elastic → After
  unfolding fail_delivery
  store_write seen now later faulted reply m rest w =
      let (s, raised) = upsert mongo c.demo_mode faulted reply m.event w.store in
      let w' = record w { store = s } in
      if raised then fail_delivery seen now later m rest w' else (w', indexing m rest)

  abbrev pub deleted :
      World mongo elastic → Message → List Message → Result QueueError Queue → After
  deleted w m rest (ok q) = (
    record w { queue = q; processed = w.processed + 1; acknowledged = m.event ∷ w.acknowledged },
    handling rest,
  )
  deleted w m rest (err receipt_handle_is_invalid) = (w, handling rest)
  deleted w m rest (err _) = (w, ended)

  -- `_handle`, the end of `index.index`, and what follows.
  unfoldable pub index_write :
      (seen now later : ℕ)
      → Faulted
      → (prepared : Bool) → Reply
      → Message
      → List Message
      → World mongo elastic
      → After
  unfolding fail_delivery
  index_write seen now later faulted prepared reply m rest w =
      let (s, ready, raised) =
        index elastic c.demo_mode faulted prepared reply w.ready m.event w.search in
      let w' = record w { search = s; ready = ready } in
      if raised
      then fail_delivery seen now later m rest w'
      else deleted (record w' { circuit = record_success w.circuit }) m rest
          (delete m.receipt_handle w.queue)

  -- The next segment of one consumer. `faulted` is what `guard` reads.
  unfoldable pub go_on :
      (t₁ t₂ t₃ : ℕ) → Faulted → (prepared : Bool) → Reply → World mongo elastic → Pc → After
  unfolding poll claim store_write index_write
  go_on t₁ t₂ t₃ faulted prepared reply w idle = poll t₁ t₂ t₃ w
  go_on t₁ t₂ t₃ faulted prepared reply w (handling []) = (w, idle)
  go_on t₁ t₂ t₃ faulted prepared reply w (handling (m ∷ rest)) = claim t₁ m rest w
  go_on t₁ t₂ t₃ faulted prepared reply w (storing m rest) =
      store_write t₁ t₂ t₃ faulted reply m rest w
  go_on t₁ t₂ t₃ faulted prepared reply w (indexing m rest) =
      index_write t₁ t₂ t₃ faulted prepared reply m rest w
  go_on t₁ t₂ t₃ faulted prepared reply w ended = (w, ended)

  -- `task.cancel()`: nothing of the handler runs any more. `applied` says whether a write that was
  -- under way takes place all the same.
  unfoldable pub cancel : (applied : Bool) → World mongo elastic → Pc → After
  cancel applied w (storing m rest) = (
    if applied then record w { store = mongo.put m.event.event_id m.event w.store } else w,
    ended,
  )
  cancel applied w (indexing m rest) = (
    if applied then record w { search = elastic.put m.event.event_id m.event w.search } else w,
    ended,
  )
  cancel applied w _ = (w, ended)

  -- What happens next: a consumer goes on, is cancelled, or is started anew; the API enqueues.
  pub data Turn : Type 0 where
    goes_on : (i t₁ t₂ t₃ : ℕ) → Faulted → (prepared : Bool) → Reply → Turn
    cancelled : (i : ℕ) (applied : Bool) → Turn
    started : (i : ℕ) → Turn
    arrives : Event → Turn

  -- All consumers of the worker, and what they share.
  pub record System : Type 0 where
    pub world : World mongo elastic
    pub pc : ℕ → Pc

  abbrev pub update : (ℕ → Pc) → ℕ → Pc → ℕ → Pc
  update f i p j = if nat_beq i j then p else f j

  abbrev pub resume : System → ℕ → After → System
  resume s i (w, p) = record { world = w; pc = update s.pc i p }

  abbrev pub restarted : Pc → Pc
  restarted ended = idle
  restarted p = p

  abbrev pub enqueued : World mongo elastic → Result QueueError Queue → World mongo elastic
  enqueued w (ok q) = record w { queue = q }
  enqueued w (err e) = w

  unfoldable pub turn : Turn → System → System
  unfolding go_on cancel
  turn (goes_on i t₁ t₂ t₃ faulted prepared reply) s =
      resume s i (go_on t₁ t₂ t₃ faulted prepared reply s.world (s.pc i))
  turn (cancelled i applied) s = resume s i (cancel applied s.world (s.pc i))
  turn (started i) s = resume s i (s.world, restarted (s.pc i))
  turn (arrives e) s = record s {
    world = enqueued s.world (send c.uuid c.queue_config e s.world.queue);
  }

  unfoldable pub turns : List Turn → System → System
  turns [] s = s
  turns (t ∷ ts) s = turns ts (turn t s)
