-- ===== src/Worker/Queueing.antt =====
-- The consumers keep the queue valid.
use feathr_events.Prelude.{
  ℕ, ◌≡◌, List, [], ◌∷◌, Option, none, Bool, true, false, Bool-cases, inl, inr, ok, err, Result,
  nat_beq,
}
use feathr_events.Models.{Event}
use feathr_events.Queue.{
  Queue, QueueError, Message, receipt_handle_is_invalid, queue_full, key_error, send,
}
use feathr_events.Queue.Invariant.{Inv}
use feathr_events.Queue.History.{
  Call, sends, receives, deletes, changes, fails, perform, queue_of, refusal, Answers,
  perform-Answers,
}
use feathr_events.Faults.{Faulted}
use feathr_events.Stores.{Documents, Reply, upsert, index}
use feathr_events.Circuit.{allowance}
use feathr_events.Worker.{
  Settings, World, After, Pc, idle, handling, storing, indexing, ended, poll, claim, fail_delivery,
  store_write, index_write, go_on, cancel, pulled, claimed, put_back, deleted, System, enqueued,
  Turn, turn, turns, cancelled, started,
}
use feathr_events.Worker.Lifecycle.{
  Worker, Step, step, drain, cancel_pending, is_ended, looked, stop,
}

module _ (mongo elastic : Documents) (c : Settings)
    (injective : (i j : ℕ) → c.uuid i ≡ c.uuid j → i ≡ j) where
  abbrev pub IsValid : World mongo elastic → Type 0
  IsValid w = Inv c.uuid c.queue_config w.queue

  abbrev pub Kept : After mongo elastic c → Type 0
  Kept (w, p) = IsValid w

  abbrev Answered : Option QueueError → Result QueueError Queue → Type 0
  Answered = Answers c.uuid c.queue_config

  asked :
      (call : Call) (q : Queue)
      → Inv c.uuid c.queue_config q
      → Answered (refusal c.queue_config call q) (perform c.uuid c.queue_config call q)
  asked = perform-Answers c.uuid injective c.queue_config

  pulled-Kept :
      (w : World mongo elastic) (o : Option QueueError)
      (r : Result QueueError (Queue × List Message))
      → IsValid w
      → Answered o (queue_of r)
      → Kept (pulled mongo elastic c w r)
  pulled-Kept w o (err e) v a = v
  pulled-Kept w o (ok (q, [])) v a = a.1
  pulled-Kept w o (ok (q, m ∷ ms)) v a = a.1

  poll-Kept :
      (t₁ t₂ t₃ : ℕ) (w : World mongo elastic) → IsValid w → Kept (poll mongo elastic c t₁ t₂ t₃ w)
  unfolding poll perform
  poll-Kept t₁ t₂ t₃ w v =
      let granted = (allowance t₁ c.batch_size w.circuit).1 in
      elim (Bool-cases (nat_beq granted 0)) [
        | inl shut ↦ rw shut v
        | inr open' ↦ rw open' (
            pulled-Kept (record w { circuit = (allowance t₁ c.batch_size w.circuit).0 }) none _ v
              (asked (receives t₂ t₃ granted none) w.queue v))
      ]

  claimed-Kept :
      (w : World mongo elastic) (m : Message) (rest : List Message) (o : Option QueueError)
      (r : Result QueueError Queue)
      → IsValid w
      → Answered o r
      → Kept (claimed mongo elastic c w m rest r)
  claimed-Kept w m rest o (ok q) v a = a.1
  claimed-Kept w m rest o (err receipt_handle_is_invalid) v a = v
  claimed-Kept w m rest o (err queue_full) v a = v
  claimed-Kept w m rest o (err key_error) v a = v

  put_back-Kept :
      (w : World mongo elastic) (rest : List Message) (o : Option QueueError)
      (r : Result QueueError Queue)
      → IsValid w
      → Answered o r
      → Kept (put_back mongo elastic c w rest r)
  put_back-Kept w rest o (ok q) v a = a.1
  put_back-Kept w rest o (err receipt_handle_is_invalid) v a = v
  put_back-Kept w rest o (err queue_full) v a = v
  put_back-Kept w rest o (err key_error) v a = v

  deleted-Kept :
      (w : World mongo elastic) (m : Message) (rest : List Message) (o : Option QueueError)
      (r : Result QueueError Queue)
      → IsValid w
      → Answered o r
      → Kept (deleted mongo elastic c w m rest r)
  deleted-Kept w m rest o (ok q) v a = a.1
  deleted-Kept w m rest o (err receipt_handle_is_invalid) v a = v
  deleted-Kept w m rest o (err queue_full) v a = v
  deleted-Kept w m rest o (err key_error) v a = v

  fail_delivery-Kept :
      (t₁ t₂ t₃ : ℕ) (m : Message) (rest : List Message) (w : World mongo elastic)
      → IsValid w
      → Kept (fail_delivery mongo elastic c t₁ t₂ t₃ m rest w)
  unfolding fail_delivery perform
  fail_delivery-Kept t₁ t₂ t₃ m rest w v =
      put_back-Kept _ rest _ _ v (asked (fails t₃ m.receipt_handle) w.queue v)

  -- Each segment of a consumer keeps the queue valid.
  pub go_on-Kept :
      (t₁ t₂ t₃ : ℕ) (faulted : Faulted) (prepared : Bool) (reply : Reply) (w : World mongo elastic)
      (p : Pc)
      → IsValid w
      → Kept (go_on mongo elastic c t₁ t₂ t₃ faulted prepared reply w p)
  unfolding go_on claim store_write index_write perform
  go_on-Kept t₁ t₂ t₃ faulted prepared reply w idle v = poll-Kept t₁ t₂ t₃ w v
  go_on-Kept t₁ t₂ t₃ faulted prepared reply w ended v = v
  go_on-Kept t₁ t₂ t₃ faulted prepared reply w (handling []) v = v
  go_on-Kept t₁ t₂ t₃ faulted prepared reply w (handling (m ∷ rest)) v =
      claimed-Kept w m rest _ _ v (asked (changes t₁ m.receipt_handle c.visibility) w.queue v)
  go_on-Kept t₁ t₂ t₃ faulted prepared reply w (storing m rest) v =
      elim (Bool-cases (upsert mongo c.demo_mode faulted reply m.event w.store).1) [
        | inl raised ↦ rw raised (fail_delivery-Kept t₁ t₂ t₃ m rest _ v)
        | inr fine ↦ rw fine v
      ]
  go_on-Kept t₁ t₂ t₃ faulted prepared reply w (indexing m rest) v =
      elim (Bool-cases
        (index elastic c.demo_mode faulted prepared reply w.ready m.event w.search).2) [
          | inl raised ↦ rw raised (fail_delivery-Kept t₁ t₂ t₃ m rest _ v)
          | inr fine ↦
              rw fine (deleted-Kept _ m rest _ _ v (asked (deletes m.receipt_handle) w.queue v))
        ]

  sent-Kept :
      (e : Event) (w : World mongo elastic)
      → IsValid w
      → IsValid (enqueued mongo elastic c w (send c.uuid c.queue_config e w.queue))
  unfolding perform
  sent-Kept e w v = enqueued-Kept _ _ (asked (sends e) w.queue v)
    where
      enqueued-Kept :
          (o : Option QueueError) (r : Result QueueError Queue)
          → Answered o r
          → IsValid (enqueued mongo elastic c w r)
      enqueued-Kept o (ok q) a = a.1
      enqueued-Kept o (err e) a = v

  cancel-Kept :
      (applied : Bool) (w : World mongo elastic) (p : Pc)
      → IsValid w
      → Kept (cancel mongo elastic c applied w p)
  unfolding cancel
  cancel-Kept applied w idle v = v
  cancel-Kept applied w ended v = v
  cancel-Kept applied w (handling ms) v = v
  cancel-Kept true w (storing m rest) v = v
  cancel-Kept false w (storing m rest) v = v
  cancel-Kept true w (indexing m rest) v = v
  cancel-Kept false w (indexing m rest) v = v

  pub turn-IsValid :
      (t : Turn mongo elastic c) (s : System mongo elastic c)
      → IsValid s.world
      → IsValid (turn mongo elastic c t s).world
  unfolding turn
  turn-IsValid (Turn.goes_on i t₁ t₂ t₃ faulted prepared reply) s v =
      go_on-Kept t₁ t₂ t₃ faulted prepared reply s.world (s.pc i) v
  turn-IsValid (cancelled i applied) s v = cancel-Kept applied s.world (s.pc i) v
  turn-IsValid (started i) s v = v
  turn-IsValid (Turn.arrives e) s v = sent-Kept e s.world v

  -- Whatever the consumers, the stores, the clock and the API do, the queue stays valid.
  pub turns-IsValid :
      (ts : List (Turn mongo elastic c)) (s : System mongo elastic c)
      → IsValid s.world
      → IsValid (turns mongo elastic c ts s).world
  unfolding turns
  turns-IsValid [] s v = v
  turns-IsValid (t ∷ ts) s v = turns-IsValid ts (turn mongo elastic c t s) (turn-IsValid t s v)

  step-IsValid :
      (x : Step mongo elastic c) (s : System mongo elastic c)
      → IsValid s.world
      → IsValid (step mongo elastic c x s).world
  unfolding step
  step-IsValid (Step.arrives e) s v = sent-Kept e s.world v
  step-IsValid (Step.goes_on i t₁ t₂ t₃ faulted prepared reply) s v =
      elim (Bool-cases (looked mongo elastic c (s.pc i))) [
        | inl head ↦ rw head v
        | inr inside ↦ rw inside (go_on-Kept t₁ t₂ t₃ faulted prepared reply s.world (s.pc i) v)
      ]

  drain-IsValid :
      (xs : List (Step mongo elastic c)) (s : System mongo elastic c)
      → IsValid s.world
      → IsValid (drain mongo elastic c xs s).world
  unfolding drain
  drain-IsValid [] s v = v
  drain-IsValid (x ∷ xs) s v = drain-IsValid xs (step mongo elastic c x s) (step-IsValid x s v)

  cancel_pending-IsValid :
      (applied : ℕ → Bool) (is : List ℕ) (s : System mongo elastic c)
      → IsValid s.world
      → IsValid (cancel_pending mongo elastic c applied is s).world
  unfolding cancel_pending
  cancel_pending-IsValid applied [] s v = v
  cancel_pending-IsValid applied (i ∷ is) s v =
      cancel_pending-IsValid applied is _ (elim (Bool-cases (is_ended mongo elastic c (s.pc i))) [
        | inl over ↦ rw over v
        | inr live ↦ rw live (cancel-Kept (applied i) s.world (s.pc i) v)
      ])

  pub stop-IsValid :
      (steps : List (Step mongo elastic c)) (applied : ℕ → Bool) (w : Worker mongo elastic c)
      → IsValid w.system.world
      → IsValid (stop mongo elastic c steps applied w).system.world
  unfolding stop
  stop-IsValid steps applied w v = by_tasks w.tasks
    where
      by_tasks :
          (is : List ℕ)
          → IsValid (stop mongo elastic c steps applied (record w { tasks = is })).system.world
      by_tasks [] = v
      by_tasks (i ∷ is) =
          cancel_pending-IsValid applied (i ∷ is) (drain mongo elastic c steps w.system)
            (drain-IsValid steps w.system v)
