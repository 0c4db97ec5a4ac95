-- ===== src/Stores.antt =====
-- app/stores.py: the two write adapters, over drivers that are parameters.
use feathr_events.Prelude.{ℕ, Option, some, Bool, true, false, if◌then◌else◌, ◌≡◌, nat_beq}
use feathr_events.Models.{Event}
use feathr_events.Faults.{Faulted, mongodb, elasticsearch, guard}

-- A database of documents by `_id`, as far as the adapters use it: to put a document replaces the one
-- with its `_id` or inserts it, and touches no other.
pub record Documents : Type 1 where
  pub State : Type 0
  pub find : ℕ → State → Option Event
  pub put : ℕ → Event → State → State
  pub find-put :
      (i j : ℕ) (e : Event) (s : State)
      → find j (put i e s) ≡ (if nat_beq i j then some e else find j s)

-- How a call of a driver ends: it is done; it raises and nothing was written; or it raises although
-- the write took place (the answer was lost).
pub data Reply : Type 0 where
  done refused unconfirmed : Reply

-- `Event.to_document`: the `_id`, and the fields.
unfoldable pub to_document : Event → ℕ × Event
to_document e = (e.event_id, e)

module _ (db : Documents) where
  open db use {State, put}

  unfoldable pub write : ℕ → Event → Reply → State → State × Bool
  write i e done s = (put i e s, false)
  write i e refused s = (s, true)
  write i e unconfirmed s = (put i e s, true)

  -- `MongoEventStore.upsert`: the store afterwards, and whether an exception was raised.
  unfoldable pub upsert : (demo_mode : Bool) → Faulted → Reply → Event → State → State × Bool
  unfolding to_document write
  upsert demo_mode faulted reply e s =
      let (id, doc) = to_document e in
      if guard demo_mode mongodb faulted then (s, true) else write id doc reply s

  -- `ElasticEventIndex.index`: the index, the flag `_ready`, and whether an exception was raised.
  -- `prepared` says whether `ensure_schema` succeeds where it is called.
  unfoldable pub index :
      (demo_mode : Bool)
      → Faulted
      → (prepared : Bool) → Reply
      → (ready : Bool) → Event
      → State
      → State × Bool × Bool
  unfolding write
  index demo_mode faulted prepared reply ready e s =
      let (s', raised) = write e.event_id e reply s in
      if guard demo_mode elasticsearch faulted
      then (s, ready, true)
      else if ready
      then (s', true, raised)
      else if prepared
      then (s', true, raised)
      else (s, false, true)
