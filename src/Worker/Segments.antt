-- ===== src/Worker/Segments.antt =====
-- Each segment of a consumer keeps the stores in order.
use feathr_events.Prelude.{
  ℕ, ◌≡◌, refl, List, [], ◌∷◌, Bool, true, false, arith, Bool-cases, inl, inr, none, nat_beq, ok,
  err, Result,
}
use feathr_events.Queue.{
  Queue, QueueError, Message, receive, change_visibility, delete, receipt_handle_is_invalid,
  queue_full, key_error,
}
use feathr_events.Faults.{Faulted}
use feathr_events.Stores.{Documents, Reply, upsert, index}
use feathr_events.Circuit.{allowance}
use feathr_events.Worker.{
  Settings, World, Pc, idle, handling, storing, indexing, ended, poll, claim, fail_delivery,
  store_write, index_write, go_on, cancel, pulled, claimed, put_back, deleted,
}
use feathr_events.Worker.Safety.{in_store, in_search, Safe, PcFine, Same-Safe, Same-Keeps, Keeps}
use feathr_events.Worker.Writes.{upsert_facts, index_facts, stored-Safe, searched-Safe}

module _ (mongo elastic : Documents) (c : Settings) where
  poll-Keeps :
      (t₁ t₂ t₃ : ℕ) (w : World mongo elastic)
      → Safe mongo elastic w
      → Keeps mongo elastic w (poll mongo elastic c t₁ t₂ t₃ w)
  unfolding poll
  poll-Keeps t₁ t₂ t₃ w v = elim (Bool-cases (nat_beq (allowance t₁ c.batch_size w.circuit).1 0)) [
    | inl shut ↦ rw shut (
        Same-Keeps mongo elastic w (record w { circuit = (allowance t₁ c.batch_size w.circuit).0 })
          idle (refl, refl, refl) tt v)
    | inr open' ↦ rw open' (
        go (
          receive c.uuid c.queue_config t₂ t₃ (allowance t₁ c.batch_size w.circuit).1 none w.queue))
  ]
    where
      w' : World mongo elastic
      w' = record w { circuit = (allowance t₁ c.batch_size w.circuit).0 }

      go :
          (r : Result QueueError (Queue × List Message))
          → Keeps mongo elastic w (pulled mongo elastic c w' r)
      go (err e) = Same-Keeps mongo elastic w _ idle (refl, refl, refl) tt v
      go (ok (q, [])) = Same-Keeps mongo elastic w _ idle (refl, refl, refl) tt v
      go (ok (q, m ∷ ms)) = Same-Keeps mongo elastic w _ (handling (m ∷ ms)) (refl, refl, refl) tt v

  claim-Keeps :
      (now : ℕ) (m : Message) (rest : List Message) (w : World mongo elastic)
      → Safe mongo elastic w
      → Keeps mongo elastic w (claim mongo elastic c now m rest w)
  unfolding claim
  claim-Keeps now m rest w v = go (change_visibility now m.receipt_handle c.visibility w.queue)
    where
      go :
          (r : Result QueueError Queue) → Keeps mongo elastic w (claimed mongo elastic c w m rest r)
      go (ok q) = Same-Keeps mongo elastic w _ (storing m rest) (refl, refl, refl) tt v
      go (err receipt_handle_is_invalid) =
          Same-Keeps mongo elastic w _ (handling rest) (refl, refl, refl) tt v
      go (err queue_full) = Same-Keeps mongo elastic w _ ended (refl, refl, refl) tt v
      go (err key_error) = Same-Keeps mongo elastic w _ ended (refl, refl, refl) tt v

  put_back-Keeps :
      (w : World mongo elastic) (rest : List Message) (r : Result QueueError Queue)
      → Safe mongo elastic w
      → Keeps mongo elastic w (put_back mongo elastic c w rest r)
  put_back-Keeps w rest (ok q) v =
      Same-Keeps mongo elastic w _ (handling rest) (refl, refl, refl) tt v
  put_back-Keeps w rest (err receipt_handle_is_invalid) v =
      Same-Keeps mongo elastic w _ (handling rest) (refl, refl, refl) tt v
  put_back-Keeps w rest (err queue_full) v =
      Same-Keeps mongo elastic w _ ended (refl, refl, refl) tt v
  put_back-Keeps w rest (err key_error) v =
      Same-Keeps mongo elastic w _ ended (refl, refl, refl) tt v

  fail_delivery-Keeps :
      (t₁ t₂ t₃ : ℕ) (m : Message) (rest : List Message) (w : World mongo elastic)
      → Safe mongo elastic w
      → Keeps mongo elastic w (fail_delivery mongo elastic c t₁ t₂ t₃ m rest w)
  unfolding fail_delivery
  fail_delivery-Keeps t₁ t₂ t₃ m rest w v =
      put_back-Keeps _ rest _ (Same-Safe mongo elastic w _ (refl, refl, refl) v)

  store_write-Keeps :
      (t₁ t₂ t₃ : ℕ) (faulted : Faulted) (reply : Reply) (m : Message) (rest : List Message)
      (w : World mongo elastic)
      → Safe mongo elastic w
      → Keeps mongo elastic w (store_write mongo elastic c t₁ t₂ t₃ faulted reply m rest w)
  unfolding store_write
  store_write-Keeps t₁ t₂ t₃ faulted reply m rest w v =
      let s = (upsert mongo c.demo_mode faulted reply m.event w.store).0 in
      let facts = upsert_facts mongo elastic c faulted reply m.event w.store in
      let grows : (k : ℕ)
          → in_store mongo elastic k w.store ≡ true
          → in_store mongo elastic k s ≡ true =
        λ k. (facts k).0 in
      let w' : World mongo elastic = record w { store = s } in
      let v' : Safe mongo elastic w' = stored-Safe mongo elastic c w s grows v in
      elim (Bool-cases (upsert mongo c.demo_mode faulted reply m.event w.store).1) [
        | inl raised ↦ rw raised (
            let (a, b, d) = fail_delivery-Keeps t₁ t₂ t₃ m rest w' v' in
            (a, b, λ k h. d k (grows k h)))
        | inr fine ↦ rw fine (v', (facts m.event.event_id).1 fine, grows)
      ]

  deleted-Keeps :
      (w : World mongo elastic) (m : Message) (rest : List Message) (r : Result QueueError Queue)
      → Safe mongo elastic w
      → in_store mongo elastic m.event.event_id w.store ≡ true
      → in_search mongo elastic m.event.event_id w.search ≡ true
      → Keeps mongo elastic w (deleted mongo elastic c w m rest r)
  deleted-Keeps w m rest (ok q) v a b =
      (record { no_phantom = v.no_phantom; acked_stored = ((a, b), v.acked_stored) }, tt, λ k h. h)
  deleted-Keeps w m rest (err receipt_handle_is_invalid) v a b =
      Same-Keeps mongo elastic w _ (handling rest) (refl, refl, refl) tt v
  deleted-Keeps w m rest (err queue_full) v a b =
      Same-Keeps mongo elastic w _ ended (refl, refl, refl) tt v
  deleted-Keeps w m rest (err key_error) v a b =
      Same-Keeps mongo elastic w _ ended (refl, refl, refl) tt v

  index_write-Keeps :
      (t₁ t₂ t₃ : ℕ) (faulted : Faulted) (prepared : Bool) (reply : Reply) (m : Message)
      (rest : List Message) (w : World mongo elastic)
      → Safe mongo elastic w
      → in_store mongo elastic m.event.event_id w.store ≡ true
      → Keeps mongo elastic w (index_write mongo elastic c t₁ t₂ t₃ faulted prepared reply m rest w)
  unfolding index_write
  index_write-Keeps t₁ t₂ t₃ faulted prepared reply m rest w v mine =
      let r = index elastic c.demo_mode faulted prepared reply w.ready m.event w.search in
      let facts = index_facts mongo elastic c faulted prepared reply w.ready m.event w.search in
      let w' : World mongo elastic = record w { search = r.0; ready = r.1 } in
      let v' : Safe mongo elastic w' =
        Same-Safe mongo elastic (record w { search = r.0 }) w' (refl, refl, refl)
          (searched-Safe mongo elastic c w r.0 m.event.event_id (λ k. (facts k).0)
            (λ k. (facts k).1) mine v) in
      elim (Bool-cases r.2) [
        | inl raised ↦ rw raised (fail_delivery-Keeps t₁ t₂ t₃ m rest w' v')
        | inr fine ↦ rw fine (
            deleted-Keeps _ m rest (delete m.receipt_handle w.queue)
              (Same-Safe mongo elastic w' _ (refl, refl, refl) v') mine
              ((facts m.event.event_id).2 fine))
      ]

  pub go_on-Keeps :
      (t₁ t₂ t₃ : ℕ) (faulted : Faulted) (prepared : Bool) (reply : Reply) (w : World mongo elastic)
      (p : Pc)
      → Safe mongo elastic w
      → PcFine mongo elastic w p
      → Keeps mongo elastic w (go_on mongo elastic c t₁ t₂ t₃ faulted prepared reply w p)
  unfolding go_on
  go_on-Keeps t₁ t₂ t₃ faulted prepared reply w idle v f = poll-Keeps t₁ t₂ t₃ w v
  go_on-Keeps t₁ t₂ t₃ faulted prepared reply w (handling []) v f =
      Same-Keeps mongo elastic w w idle (refl, refl, refl) tt v
  go_on-Keeps t₁ t₂ t₃ faulted prepared reply w (handling (m ∷ rest)) v f =
      claim-Keeps t₁ m rest w v
  go_on-Keeps t₁ t₂ t₃ faulted prepared reply w (storing m rest) v f =
      store_write-Keeps t₁ t₂ t₃ faulted reply m rest w v
  go_on-Keeps t₁ t₂ t₃ faulted prepared reply w (indexing m rest) v f =
      index_write-Keeps t₁ t₂ t₃ faulted prepared reply m rest w v f
  go_on-Keeps t₁ t₂ t₃ faulted prepared reply w ended v f =
      Same-Keeps mongo elastic w w ended (refl, refl, refl) tt v

  pub cancel-Keeps :
      (applied : Bool) (w : World mongo elastic) (p : Pc)
      → Safe mongo elastic w
      → PcFine mongo elastic w p
      → Keeps mongo elastic w (cancel mongo elastic c applied w p)
  unfolding cancel
  cancel-Keeps true w (storing m rest) v f =
      let grows : (k : ℕ)
          → in_store mongo elastic k w.store ≡ true
          → in_store mongo elastic k (mongo.put m.event.event_id m.event w.store) ≡ true =
        λ k h. ground (arith, mongo.find-put m.event.event_id k m.event w.store) in
      (stored-Safe mongo elastic c w _ grows v, tt, grows)
  cancel-Keeps true w (indexing m rest) v f = (
    searched-Safe mongo elastic c w _ m.event.event_id
        (λ k h. ground (arith, elastic.find-put m.event.event_id k m.event w.search))
        (λ k h o. ground (arith, elastic.find-put m.event.event_id k m.event w.search)) f v,
    tt,
    λ k h. h,
  )
  cancel-Keeps false w (storing m rest) v f =
      Same-Keeps mongo elastic w w ended (refl, refl, refl) tt v
  cancel-Keeps false w (indexing m rest) v f =
      Same-Keeps mongo elastic w w ended (refl, refl, refl) tt v
  cancel-Keeps _ w idle v f = Same-Keeps mongo elastic w w ended (refl, refl, refl) tt v
  cancel-Keeps _ w (handling ms) v f = Same-Keeps mongo elastic w w ended (refl, refl, refl) tt v
  cancel-Keeps _ w ended v f = Same-Keeps mongo elastic w w ended (refl, refl, refl) tt v
