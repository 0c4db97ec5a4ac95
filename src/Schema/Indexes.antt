-- ===== src/Schema/Indexes.antt =====
-- app/stores.py, `MongoEventStore.ensure_schema`: the indexes of the collection.
use feathr_events.Prelude.{List, [], ◌∷◌, Bool, true, false, Eq, ◌≡◌, ◌↔◌, arith}
use feathr_events.Dict
use feathr_events.Stores.{Reply, done, refused, unconfirmed}

-- ("event_type", 1), ("user_id", 1) and ("timestamp", -1)
pub data Key : Type 0 where
  event_type_up user_id_up timestamp_down : Key

pub data IndexName : Type 0 where
  type_time user_time time_desc : IndexName

abbrev pub index_name_beq : IndexName → IndexName → Bool
index_name_beq type_time type_time = true
index_name_beq user_time user_time = true
index_name_beq time_desc time_desc = true
index_name_beq _ _ = false

pub index_name_beq_iff : (a b : IndexName) → (index_name_beq a b ≡ true) ↔ (a ≡ b)
index_name_beq_iff type_time b = ground arith
index_name_beq_iff user_time b = ground arith
index_name_beq_iff time_desc b = ground arith

instance abbrev pub index_name_eq : Eq IndexName
index_name_eq = record { beq = index_name_beq; beq_iff = index_name_beq_iff }

abbrev pub Indexes : Type 0
Indexes = List (IndexName × List Key)

-- `create_index`: the indexes, and whether it raised. Where the call is done, the index is there.
unfoldable pub create_index : IndexName → List Key → Reply → Indexes → Indexes × Bool
create_index name keys done s = (Dict.set name keys s, false)
create_index name keys refused s = (s, true)
create_index name keys unconfirmed s = (Dict.set name keys s, true)

-- What follows a call if it did not raise.
abbrev pub and_then : Indexes × Bool → (Indexes → Indexes × Bool) → Indexes × Bool
and_then (s, true) f = (s, true)
and_then (s, false) f = f s

-- `ensure_schema`, of the ends of its three calls
unfoldable pub ensure_indexes : (by_type by_user by_time : Reply) → Indexes → Indexes × Bool
unfolding create_index
ensure_indexes by_type by_user by_time s =
    and_then (create_index type_time (event_type_up ∷ timestamp_down ∷ []) by_type s) (λ s1.
      and_then (create_index user_time (user_id_up ∷ timestamp_down ∷ []) by_user s1)
        (λ s2. create_index time_desc (timestamp_down ∷ []) by_time s2))
