-- ===== src/Queries/Indexed.antt =====
-- The reads of app/queries.py and the indexes that app/stores.py creates for them.
use feathr_events.Prelude.{
  ◌≤◌, ◌≡◌, List, [], ◌∷◌, some, Bool, true, false, All, arith, ltb, nat_beq, nat_beq_iff,
  if◌then◌else◌, ◌∙◌,
}
use feathr_events.Models.{Event}
use feathr_events.Texts.{text_beq, text_beq_iff, text_leb}
use feathr_events.Dict
use feathr_events.Dict.Laws.{get-set}
use feathr_events.Stores.{Reply, done, refused, unconfirmed}
use feathr_events.Schema.Indexes.{
  Key, event_type_up, user_id_up, timestamp_down, IndexName, type_time, user_time, time_desc,
  index_name_eq, Indexes, create_index, ensure_indexes,
}
use feathr_events.Queries.{Condition, event_type_is, user_id_is, source_url_is, timestamp_in}
use feathr_events.Queries.Own.{Meets}

-- The order in which an index has its documents: `true` if the first comes no later.
abbrev pub precedes : List Key → Event → Event → Bool
precedes [] d e = true
precedes (event_type_up ∷ keys) d e =
    let further = precedes keys d e in
    if text_beq d.event_type e.event_type then further else text_leb d.event_type e.event_type
precedes (user_id_up ∷ keys) d e =
    let further = precedes keys d e in
    if text_beq d.user_id e.user_id then further else text_leb d.user_id e.user_id
precedes (timestamp_down ∷ keys) d e =
    let further = precedes keys d e in
    if nat_beq d.timestamp e.timestamp then further else ltb e.timestamp d.timestamp

-- The keys of the indexes.
abbrev pub keys_of : IndexName → List Key
keys_of type_time = event_type_up ∷ timestamp_down ∷ []
keys_of user_time = user_id_up ∷ timestamp_down ∷ []
keys_of time_desc = timestamp_down ∷ []

-- The index for a filter: by the first condition that fixes a type or a user, else by time.
abbrev pub index_for : List Condition → IndexName
index_for [] = time_desc
index_for (event_type_is t ∷ query) = type_time
index_for (user_id_is u ∷ query) = user_time
index_for (source_url_is u ∷ query) = index_for query
index_for (timestamp_in gte lte ∷ query) = index_for query

later-le : (d e : Event) → precedes (timestamp_down ∷ []) d e ≡ true → e.timestamp ≤ d.timestamp
later-le d e h = ground (arith, nat_beq_iff d.timestamp e.timestamp, h)

index_for-sorts :
    (query : List Condition) (d e : Event)
    → All (Meets d) query
    → All (Meets e) query
    → precedes (keys_of (index_for query)) d e ≡ true
    → e.timestamp ≤ d.timestamp
index_for-sorts [] d e h k p = later-le d e p
index_for-sorts (event_type_is t ∷ query) d e h k p =
    later-le d e (ground (arith, p, text_beq_iff d.event_type e.event_type, h.0, k.0))
index_for-sorts (user_id_is u ∷ query) d e h k p =
    later-le d e (ground (arith, p, text_beq_iff d.user_id e.user_id, h.0, k.0))
index_for-sorts (source_url_is u ∷ query) d e h k p = index_for-sorts query d e h.1 k.1 p
index_for-sorts (timestamp_in gte lte ∷ query) d e h k p = index_for-sorts query d e h.1 k.1 p

ensured :
    (by_type by_user by_time : Reply) (s : Indexes) (n : IndexName)
    → (ensure_indexes by_type by_user by_time s).1 ≡ false
    → Dict.get n (ensure_indexes by_type by_user by_time s).0 ≡ some (keys_of n)
unfolding ensure_indexes create_index
ensured refused by_user by_time s n h = ground (arith, h)
ensured unconfirmed by_user by_time s n h = ground (arith, h)
ensured done refused by_time s n h = ground (arith, h)
ensured done unconfirmed by_time s n h = ground (arith, h)
ensured done done refused s n h = ground (arith, h)
ensured done done unconfirmed s n h = ground (arith, h)
ensured done done done s n h = all_there n
  where
    typed : Indexes
    typed = Dict.set type_time (keys_of type_time) s

    both : Indexes
    both = Dict.set user_time (keys_of user_time) typed

    all_there :
        (n : IndexName)
        → Dict.get n (Dict.set time_desc (keys_of time_desc) both) ≡ some (keys_of n)
    all_there time_desc = get-set time_desc time_desc (keys_of time_desc) both
    all_there user_time =
        get-set time_desc user_time (keys_of time_desc) both
        ∙ get-set user_time user_time (keys_of user_time) typed
    all_there type_time =
        get-set time_desc type_time (keys_of time_desc) both
        ∙ get-set user_time type_time (keys_of user_time) typed
        ∙ get-set type_time type_time (keys_of type_time) s

-- Where ensure_schema of the store did not raise, there is the index for a filter, which begins with the type
-- or the user where the filter fixes one; and of two documents that meet the filter, the one that comes
-- first in that index is not the earlier one, as the listing wants it.
pub listing_is_indexed :
    (by_type by_user by_time : Reply) (s : Indexes) (query : List Condition) (d e : Event)
    → (ensure_indexes by_type by_user by_time s).1 ≡ false
    → All (Meets d) query
    → All (Meets e) query
    → precedes (keys_of (index_for query)) d e ≡ true
    → (Dict.get (index_for query) (ensure_indexes by_type by_user by_time s).0
        ≡ some (keys_of (index_for query)))
      × (e.timestamp ≤ d.timestamp)
listing_is_indexed by_type by_user by_time s query d e created h k first = (
  ensured by_type by_user by_time s (index_for query) created,
  index_for-sorts query d e h k first,
)
