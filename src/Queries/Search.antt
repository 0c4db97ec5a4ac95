-- ===== src/Queries/Search.antt =====
-- app/queries.py, `search`, and the document that `ElasticEventIndex.index` of app/stores.py writes. The
-- cluster is an argument.
use feathr_events.Prelude.{ℕ, List, [], ◌∷◌, Bool, true, false, min, map, Eq, ◌≡◌, ◌↔◌, arith}
use feathr_events.Models.{Text, Fields, Event}
use feathr_events.Dict
use feathr_events.Ingest.{Datetime, aware}
use feathr_events.Queries.{max_limit}

-- The keys of what is stored and returned.
pub data Name : Type 0 where
  event_id score event_type user_id source_url timestamp received_at metadata : Name

abbrev pub name_beq : Name → Name → Bool
name_beq event_id event_id = true
name_beq score score = true
name_beq event_type event_type = true
name_beq user_id user_id = true
name_beq source_url source_url = true
name_beq timestamp timestamp = true
name_beq received_at received_at = true
name_beq metadata metadata = true
name_beq _ _ = false

pub name_beq_iff : (a b : Name) → (name_beq a b ≡ true) ↔ (a ≡ b)
name_beq_iff event_id b = ground arith
name_beq_iff score b = ground arith
name_beq_iff event_type b = ground arith
name_beq_iff user_id b = ground arith
name_beq_iff source_url b = ground arith
name_beq_iff timestamp b = ground arith
name_beq_iff received_at b = ground arith
name_beq_iff metadata b = ground arith

instance abbrev pub name_eq : Eq Name
name_eq = record { beq = name_beq; beq_iff = name_beq_iff }

pub data Value : Type 0 where
  number : ℕ → Value
  text : Text → Value
  time : Datetime → Value
  object : Fields → Value

abbrev pub Object : Type 0
Object = List (Name × Value)

-- `event.model_dump(mode="json")`: the times keep their offset.
abbrev pub model_dump : Event → Object
model_dump e =
    (event_id, number e.event_id)
    ∷ (event_type, text e.event_type)
    ∷ (user_id, text e.user_id)
    ∷ (source_url, text e.source_url)
    ∷ (timestamp, time (aware e.timestamp))
    ∷ (received_at, time (aware e.received_at))
    ∷ (metadata, object e.metadata)
    ∷ []

-- The `document` of `ElasticEventIndex.index`, which is written under the identifier.
unfoldable pub document_of : Event → Object
unfolding Dict.delete
document_of e = Dict.delete event_id (model_dump e)

-- The fields that are looked at, and how.
pub data Field : Type 0 where
  in_event_type in_user_id in_metadata in_source_url_text : Field

pub data Clause : Type 0 where
  exactly : Field → Text → (boost : ℕ) → Clause
  fuzzily : Field → Text → Clause

-- The clauses under `should`, of which at least one has to match.
unfoldable pub clauses_of : Text → List Clause
clauses_of q =
    exactly in_event_type q 5
    ∷ exactly in_user_id q 4
    ∷ exactly in_metadata q 3
    ∷ exactly in_source_url_text q 2
    ∷ fuzzily in_event_type q
    ∷ fuzzily in_metadata q
    ∷ fuzzily in_source_url_text q
    ∷ []

pub record Hit : Type 0 where
  pub id : ℕ
  pub score : ℕ
  pub source : Object

-- `{**d, **further}`
unfoldable pub update : Object → Object → Object
unfolding Dict.set
update d [] = d
update d ((k, v) ∷ further) = update (Dict.set k v d) further

-- `{"event_id": h["_id"], "score": h["_score"], **h["_source"]}`
unfoldable pub item_of : Hit → Object
unfolding update
item_of h = update ((event_id, number h.id) ∷ (Name.score, number h.score) ∷ []) h.source

pub record Results : Type 0 where
  pub query : Text
  pub total : ℕ
  pub items : List Object

-- `search`: the cluster answers with the number of all hits and the best of them.
unfoldable pub search :
    (cluster : List Clause → (size : ℕ) → ℕ × List Hit) (q : Text) (limit : ℕ) → Results
unfolding clauses_of item_of
search cluster q limit =
    let (total, hits) = cluster (clauses_of q) (min limit max_limit) in
    record { query = q; total = total; items = map item_of hits }
