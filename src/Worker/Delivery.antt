-- ===== src/Worker/Delivery.antt =====
-- One delivery from the claim to its end: what a consumer leaves behind when both writes succeed, and
-- when the write to the store fails.
use feathr_events.Prelude.{
  ℕ, ◌+◌, ◌≡◌, refl, ap, ◌∙◌, List, [], ◌∷◌, true, false, arith, none, some, nat_beq_iff, nat_eq,
  ok,
}
use feathr_events.Models.{Event}
use feathr_events.Dict
use feathr_events.Dict.Laws.{get-delete}
use feathr_events.Queue.{Entry, Message, change_visibility, delete, stamp}
use feathr_events.Circuit.{record_success}
use feathr_events.Faults.{Dependency, mongodb, elasticsearch, guard, is_faulted}
use feathr_events.Stores.{Documents, done, upsert, index, write, to_document}
use feathr_events.Worker.{
  Settings, World, Pc, handling, storing, indexing, go_on, claim, store_write, index_write, deleted,
}

pub find-put_self :
    (db : Documents) (e : Event) (s : db.State)
    → db.find e.event_id (db.put e.event_id e s) ≡ some e
find-put_self db e s =
    ground (arith, db.find-put e.event_id e.event_id e s, nat_beq_iff e.event_id e.event_id)

pub get-delete_self {ℓ} :
    {V : Type ℓ} (k : ℕ) (d : List (ℕ × V)) → Dict.get k (Dict.delete k d) ≡ none
get-delete_self k d = ground (arith, get-delete k k d, nat_beq_iff k k)

module _ (mongo elastic : Documents) (c : Settings) where
  -- A segment in which no fault is injected and the driver succeeds.
  abbrev pub next : (t : ℕ × ℕ × ℕ) → World mongo elastic × Pc → World mongo elastic × Pc
  next (t₁, t₂, t₃) (w, p) = go_on mongo elastic c t₁ t₂ t₃ [] true done w p

  guard_off : (d : Dependency) → guard c.demo_mode d [] ≡ false
  unfolding guard is_faulted
  guard_off d = ground arith

  module _ (w : World mongo elastic) (m : Message) (rest : List Message) where
    store_write_done :
        (t₁ t₂ t₃ : ℕ)
        → store_write mongo elastic c t₁ t₂ t₃ [] done m rest w
          ≡ (record w { store = mongo.put m.event.event_id m.event w.store }, indexing m rest)
    unfolding store_write upsert write to_document
    store_write_done t₁ t₂ t₃ = rw (guard_off mongodb) refl

    index_write_done :
        (t₁ t₂ t₃ : ℕ)
        → index_write mongo elastic c t₁ t₂ t₃ [] true done m rest w
          ≡ deleted mongo elastic c
              (record w {
                search = elastic.put m.event.event_id m.event w.search;
                ready = true;
                circuit = record_success w.circuit;
              })
              m
              rest
              (delete m.receipt_handle w.queue)
    unfolding index_write index write
    index_write_done t₁ t₂ t₃ = ground (arith, guard_off elasticsearch)

  module _ (w : World mongo elastic) (m : Message) (rest : List Message) (k : ℕ) (e : Entry)
      (live : Dict.get m.receipt_handle w.queue.inflight ≡ some k)
      (found : Dict.get k w.queue.entries ≡ some e) where
    claim-storing :
        (now : ℕ)
        → claim mongo elastic c now m rest w
          ≡ (record w { queue = stamp k (now + c.visibility) e w.queue }, storing m rest)
    unfolding claim change_visibility
    claim-storing now = rw (live, found) refl

    delete-stamp :
        (deadline : ℕ)
        → delete m.receipt_handle (stamp k deadline e w.queue)
          ≡ ok (record (stamp k deadline e w.queue) {
            inflight = Dict.delete m.receipt_handle w.queue.inflight;
            entries = Dict.delete k (stamp k deadline e w.queue).entries;
          })
    unfolding delete stamp
    delete-stamp deadline = rw live refl

    unfoldable pub final : (now : ℕ) → World mongo elastic
    final now = record w {
      queue = record (stamp k (now + c.visibility) e w.queue) {
        inflight = Dict.delete m.receipt_handle w.queue.inflight;
        entries = Dict.delete k (stamp k (now + c.visibility) e w.queue).entries;
      };
      store = mongo.put m.event.event_id m.event w.store;
      search = elastic.put m.event.event_id m.event w.search;
      ready = true;
      circuit = record_success w.circuit;
      processed = w.processed + 1;
      acknowledged = m.event ∷ w.acknowledged;
    }

    pub three_segments :
        (a b d : ℕ × ℕ × ℕ)
        → next d (next b (next a (w, handling (m ∷ rest)))) ≡ (final a.0, handling rest)
    unfolding go_on final stamp
    three_segments a b d =
        ap (λ x. next d (next b x)) (claim-storing a.0)
        ∙ ap (next d) (store_write_done lent m rest b.0 b.1 b.2)
        ∙ index_write_done (record lent { store = mongo.put m.event.event_id m.event w.store }) m
            rest d.0 d.1 d.2
        ∙ ap
            (deleted mongo elastic c
              (record (final a.0) {
                queue = lent.queue;
                processed = w.processed;
                acknowledged = w.acknowledged;
              })
              m rest)
            (delete-stamp (a.0 + c.visibility))
      where
        lent : World mongo elastic
        lent = record w { queue = stamp k (a.0 + c.visibility) e w.queue }

    -- Two undisturbed writes: after three segments of the consumer both databases hold the event
    -- under its id, the message is gone from the queue, and one more event counts as processed.
    pub delivery_completes :
        (a b d : ℕ × ℕ × ℕ)
        → let r = next d (next b (next a (w, handling (m ∷ rest)))) in
          (r.1 ≡ handling rest)
          × (mongo.find m.event.event_id r.0.store ≡ some m.event)
          × (elastic.find m.event.event_id r.0.search ≡ some m.event)
          × (Dict.get k r.0.queue.entries ≡ none)
          × (Dict.get m.receipt_handle r.0.queue.inflight ≡ none)
          × (r.0.processed ≡ w.processed + 1)
    unfolding final
    delivery_completes a b d = rw (three_segments a b d) (
      refl,
      find-put_self mongo m.event w.store,
      find-put_self elastic m.event w.search,
      get-delete_self k (stamp k (a.0 + c.visibility) e w.queue).entries,
      get-delete_self m.receipt_handle w.queue.inflight,
      refl,
    )
