-- ===== src/Worker/Accounts.antt =====
-- Each segment of a consumer keeps the account of the events: what leaves the queue is acknowledged or
-- buried, and what the consumers hold is what their handles are for.
use feathr_events.Prelude.{
  ℕ, ◌+◌, ◌≡◌, refl, List, [], ◌∷◌, none, Bool, arith, Bool-cases, Option-cases, inl, inr, ok, err,
  Result, nat_beq, All, ap, nat_eq,
}
use feathr_events.Models.{Event}
use feathr_events.Dict
use feathr_events.Queue.{
  Queue, QueueError, Message, receipt_handle_is_invalid, queue_full, key_error, delete,
}
use feathr_events.Queue.Invariant.{Inv}
use feathr_events.Queue.Returning.{live_entry}
use feathr_events.Queue.Tally.{tally}
use feathr_events.Queue.Conservation.{held_in, perform-held}
use feathr_events.Queue.Handles.{Inherits, Inherits-refl, deleted-Inherits, Kept}
use feathr_events.Queue.Claims.{
  Claims, Claims-Inherits, AllOld, Received, receive-Received, change_visibility-Kept, fail-Kept,
}
use feathr_events.Queue.History.{receives, deletes, changes, fails, perform, after, queue_of}
use feathr_events.Faults.{Faulted}
use feathr_events.Stores.{Documents, Reply, upsert, index}
use feathr_events.Circuit.{allowance}
use feathr_events.Worker.{
  Settings, World, After, Pc, idle, handling, storing, indexing, ended, poll, claim, fail_delivery,
  store_write, index_write, go_on, pulled, claimed, put_back, deleted,
}

-- The messages that a consumer holds.
abbrev pub messages : Pc → List Message
messages idle = []
messages (handling ms) = ms
messages (storing m rest) = m ∷ rest
messages (indexing m rest) = m ∷ rest
messages ended = []

All-map {ℓ κ} :
    {A : Type ℓ} (P Q : A → Type κ) → ((a : A) → P a → Q a) → (xs : List A) → All P xs → All Q xs
All-map P Q f [] h = tt
All-map P Q f (x ∷ xs) h = (f x h.0, All-map P Q f xs h.1)

module _ (mongo elastic : Documents) (c : Settings)
    (injective : (i j : ℕ) → c.uuid i ≡ c.uuid j → i ≡ j) (f : Event → Bool) where
  abbrev pub IsClaimed : Queue → Message → Type 0
  IsClaimed = Claims c.uuid injective

  -- The events in the queue, buried, or acknowledged.
  abbrev pub total : World mongo elastic → ℕ
  total w = held_in f w.queue + tally f w.acknowledged

  -- What a segment keeps.
  abbrev pub Accounted : World mongo elastic → After mongo elastic c → Type 0
  Accounted w (w', p) =
      Inherits c.uuid w.queue w'.queue
      × All (IsClaimed w'.queue) (messages p)
      × (total w' ≡ total w)

  pub All-Claims :
      (q p : Queue) (ms : List Message)
      → Inherits c.uuid q p
      → All (IsClaimed q) ms
      → All (IsClaimed p) ms
  All-Claims q p ms a = All-map _ _ (λ m. Claims-Inherits c.uuid injective q p m a) ms

  -- A method of the queue that acknowledges nothing.
  abbrev Quiet : Queue → Result QueueError Queue → Type 0
  Quiet q r = Kept c.uuid q r × (held_in f (after q r) ≡ held_in f q)

  claimed-Accounted :
      (w : World mongo elastic) (m : Message) (rest : List Message) (r : Result QueueError Queue)
      → All (IsClaimed w.queue) (m ∷ rest)
      → Quiet w.queue r
      → Accounted w (claimed mongo elastic c w m rest r)
  claimed-Accounted w m rest (ok q) all (a, same) =
      (a, All-Claims w.queue q (m ∷ rest) a all, omega (arith, same))
  claimed-Accounted w m rest (err receipt_handle_is_invalid) all k =
      (Inherits-refl c.uuid w.queue, all.1, refl)
  claimed-Accounted w m rest (err queue_full) all k = (Inherits-refl c.uuid w.queue, tt, refl)
  claimed-Accounted w m rest (err key_error) all k = (Inherits-refl c.uuid w.queue, tt, refl)

  put_back-Accounted :
      (w : World mongo elastic) (rest : List Message) (r : Result QueueError Queue)
      → All (IsClaimed w.queue) rest
      → Quiet w.queue r
      → Accounted w (put_back mongo elastic c w rest r)
  put_back-Accounted w rest (ok q) all (a, same) =
      (a, All-Claims w.queue q rest a all, omega (arith, same))
  put_back-Accounted w rest (err receipt_handle_is_invalid) all k =
      (Inherits-refl c.uuid w.queue, all, refl)
  put_back-Accounted w rest (err queue_full) all k = (Inherits-refl c.uuid w.queue, tt, refl)
  put_back-Accounted w rest (err key_error) all k = (Inherits-refl c.uuid w.queue, tt, refl)

  -- A `delete` that succeeds takes out the event of the message.
  abbrev Acked : Queue → Message → Result QueueError Queue → Type 0
  Acked q m (ok p) = Inherits c.uuid q p × (held_in f p + tally f (m.event ∷ []) ≡ held_in f q)
  Acked q m (err e) = Unit

  deleted-Accounted :
      (w : World mongo elastic) (m : Message) (rest : List Message) (r : Result QueueError Queue)
      → All (IsClaimed w.queue) rest
      → Acked w.queue m r
      → Accounted w (deleted mongo elastic c w m rest r)
  deleted-Accounted w m rest (ok q) all (a, same) =
      (a, All-Claims w.queue q rest a all, omega (arith, same))
  deleted-Accounted w m rest (err receipt_handle_is_invalid) all k =
      (Inherits-refl c.uuid w.queue, all, refl)
  deleted-Accounted w m rest (err queue_full) all k = (Inherits-refl c.uuid w.queue, tt, refl)
  deleted-Accounted w m rest (err key_error) all k = (Inherits-refl c.uuid w.queue, tt, refl)

  pulled-Accounted :
      (w : World mongo elastic) (r : Result QueueError (Queue × List Message))
      → Received c.uuid injective w.queue r
      → held_in f (after w.queue (queue_of r)) ≡ held_in f w.queue
      → Accounted w (pulled mongo elastic c w r)
  pulled-Accounted w (err e) k same = (Inherits-refl c.uuid w.queue, tt, refl)
  pulled-Accounted w (ok (q, [])) k same = (k.0, tt, omega (arith, same))
  pulled-Accounted w (ok (q, m ∷ ms)) k same = (k.0, k.1, omega (arith, same))

  poll-Accounted :
      (t₁ t₂ t₃ : ℕ) (w : World mongo elastic)
      → Inv c.uuid c.queue_config w.queue
      → AllOld c.uuid injective w.queue
      → Accounted w (poll mongo elastic c t₁ t₂ t₃ w)
  unfolding poll perform
  poll-Accounted t₁ t₂ t₃ w v old =
      let granted = (allowance t₁ c.batch_size w.circuit).1 in
      let w' = record w { circuit = (allowance t₁ c.batch_size w.circuit).0 } in
      elim (Bool-cases (nat_beq granted 0)) [
        | inl shut ↦ rw shut (Inherits-refl c.uuid w.queue, tt, refl)
        | inr open' ↦ rw open' (
            pulled-Accounted w' _
              (receive-Received c.uuid injective c.queue_config t₂ t₃ granted none w.queue old)
              (omega (
                arith,
                perform-held f c.uuid c.queue_config (receives t₂ t₃ granted none) w.queue v,
              )))
      ]

  delete-Acked :
      (q : Queue) (m : Message)
      → Inv c.uuid c.queue_config q
      → IsClaimed q m
      → Acked q m (delete m.receipt_handle q)
  unfolding perform delete
  delete-Acked q m v k =
      let b = perform-held f c.uuid c.queue_config (deletes m.receipt_handle) q v in
      elim (Option-cases (Dict.get m.receipt_handle q.inflight)) [
        | inl gone ↦ rw gone tt
        | inr (id, lent) ↦
            let (e, found, under) = live_entry c.uuid c.queue_config q v m.receipt_handle id lent in
            let same = ap (λ x. tally f (x ∷ [])) (k.event id e found under) in
            rw lent
              (deleted-Inherits c.uuid id q _ refl refl, omega (arith, rw (lent, found) at b, same))
      ]

  fail_delivery-Accounted :
      (t₁ t₂ t₃ : ℕ) (m : Message) (rest : List Message) (w : World mongo elastic)
      → Inv c.uuid c.queue_config w.queue
      → All (IsClaimed w.queue) rest
      → Accounted w (fail_delivery mongo elastic c t₁ t₂ t₃ m rest w)
  unfolding fail_delivery perform
  fail_delivery-Accounted t₁ t₂ t₃ m rest w v all = put_back-Accounted _ rest _ all (
    fail-Kept c.uuid injective c.queue_config t₃ m.receipt_handle w.queue,
    omega (arith, perform-held f c.uuid c.queue_config (fails t₃ m.receipt_handle) w.queue v),
  )

  -- Each segment of a consumer keeps the account.
  pub go_on-Accounted :
      (t₁ t₂ t₃ : ℕ) (faulted : Faulted) (prepared : Bool) (reply : Reply) (w : World mongo elastic)
      (p : Pc)
      → Inv c.uuid c.queue_config w.queue
      → AllOld c.uuid injective w.queue
      → All (IsClaimed w.queue) (messages p)
      → Accounted w (go_on mongo elastic c t₁ t₂ t₃ faulted prepared reply w p)
  unfolding go_on claim store_write index_write perform
  go_on-Accounted t₁ t₂ t₃ faulted prepared reply w idle v old all = poll-Accounted t₁ t₂ t₃ w v old
  go_on-Accounted t₁ t₂ t₃ faulted prepared reply w ended v old all =
      (Inherits-refl c.uuid w.queue, tt, refl)
  go_on-Accounted t₁ t₂ t₃ faulted prepared reply w (handling []) v old all =
      (Inherits-refl c.uuid w.queue, tt, refl)
  go_on-Accounted t₁ t₂ t₃ faulted prepared reply w (handling (m ∷ rest)) v old all =
      claimed-Accounted w m rest _ all (
        change_visibility-Kept c.uuid injective t₁ m.receipt_handle c.visibility w.queue,
        omega (
          arith,
          perform-held f c.uuid c.queue_config (changes t₁ m.receipt_handle c.visibility) w.queue v,
        ),
      )
  go_on-Accounted t₁ t₂ t₃ faulted prepared reply w (storing m rest) v old all =
      elim (Bool-cases (upsert mongo c.demo_mode faulted reply m.event w.store).1) [
        | inl raised ↦ rw raised (fail_delivery-Accounted t₁ t₂ t₃ m rest _ v all.1)
        | inr fine ↦ rw fine (Inherits-refl c.uuid w.queue, all, refl)
      ]
  go_on-Accounted t₁ t₂ t₃ faulted prepared reply w (indexing m rest) v old all =
      elim (Bool-cases
        (index elastic c.demo_mode faulted prepared reply w.ready m.event w.search).2) [
          | inl raised ↦ rw raised (fail_delivery-Accounted t₁ t₂ t₃ m rest _ v all.1)
          | inr fine ↦ rw fine (deleted-Accounted _ m rest _ all.1 (delete-Acked w.queue m v all.0))
        ]
