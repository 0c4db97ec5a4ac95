-- ===== src/App/Reset.antt =====
-- `POST /demo/reset` of app/main.py while a consumer of app/worker.py is between its two writes.
use feathr_events.Prelude.{ℕ, List, [], none, some, Bool, true, false, ◌≡◌, refl, nat_beq_iff, ◌∙◌}
use feathr_events.Models.{Event}
use feathr_events.Dict
use feathr_events.Faults.{Faulted, elasticsearch, guard}
use feathr_events.Queue.{Message, delete, clear, pending_events}
use feathr_events.Stores.{Documents, done, index, write}
use feathr_events.Schema.{called}
use feathr_events.Worker.{Settings, World, indexing, go_on, index_write}
use feathr_events.Worker.Safety.{in_store, in_search}
use feathr_events.App.Demo.{ResetCalls, demo_reset}

-- Every call of the reset is done.
abbrev pub undisturbed : ResetCalls
undisturbed = record {
  counted = true;
  dropped = done;
  deleted = done;
  flushed = true;
  index_prepared = true;
  store_prepared = true;
}

index-done :
    (elastic : Documents) (demo_mode : Bool) (faulted : Faulted) (prepared ready : Bool) (e : Event)
    (s : elastic.State)
    → guard demo_mode elasticsearch faulted ≡ false
    → ready ≡ true
    → index elastic demo_mode faulted prepared done ready e s
      ≡ (elastic.put e.event_id e s, true, false)
unfolding index write
index-done elastic demo_mode faulted prepared ready e s fine known = rw (fine, known) refl

found-put :
    (elastic : Documents) (e : Event) (s : elastic.State)
    → elastic.find e.event_id (elastic.put e.event_id e s) ≡ some e
found-put elastic e s =
    elastic.find-put e.event_id e.event_id e s
    ∙ rw ((nat_beq_iff e.event_id e.event_id).1 refl) refl

-- A reset that succeeds while a consumer waits to write to the index, of which the mapping is known to be
-- in place, leaves the event of that consumer in the index and not in the store, once that write is done;
-- and nothing is left in the queue that would write it to the store.
pub reset_leaves_phantom :
    (mongo elastic : Documents) (c : Settings) (drop : mongo.State → mongo.State)
    (delete_all : elastic.State → elastic.State) (t₁ t₂ t₃ : ℕ) (faulted : Faulted)
    (prepared : Bool) (m : Message) (rest : List Message) (w : World mongo elastic)
    → ((k : ℕ) (s : mongo.State) → mongo.find k (drop s) ≡ none)
    → guard c.demo_mode elasticsearch faulted ≡ false
    → w.ready ≡ true
    → let (w', answered) = demo_reset mongo elastic c drop delete_all undisturbed w in
      let w'' = (go_on mongo elastic c t₁ t₂ t₃ faulted prepared done w' (indexing m rest)).0 in
      (answered ≡ true)
      × (in_search mongo elastic m.event.event_id w''.search ≡ true)
      × (in_store mongo elastic m.event.event_id w''.store ≡ false)
      × (pending_events w''.queue ≡ [])
unfolding demo_reset go_on index_write called clear delete Dict.get pending_events
reset_leaves_phantom mongo elastic c drop delete_all t₁ t₂ t₃ faulted prepared m rest w emptied fine
      ready =
    let e =
      index-done elastic c.demo_mode faulted prepared w.ready m.event (delete_all w.search) fine
        ready in
    rw (e, found-put elastic m.event (delete_all w.search), emptied m.event.event_id w.store)
      (refl, refl, refl, refl)
