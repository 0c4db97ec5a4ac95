-- ===== src/Queries/Agreement.antt =====
-- The two ways to read an event, `GET /events` from the store and `GET /events/search` from the index,
-- and whether they say the same of it.
use feathr_events.Prelude.{
  ℕ, ◌*◌, ◌/◌, ◌%◌, Option, none, some, ◌≡◌, ◌↔◌, refl, arith, ap, ◌∙◌, sym, subst,
}
use feathr_events.Models.{Text, Fields, Event}
use feathr_events.Dict
use feathr_events.Ingest.{Datetime, naive, aware, EventIn, Valid, from_input, now}
use feathr_events.Queries.{Found, to_output}
use feathr_events.Queries.Search.{
  event_id, event_type, user_id, source_url, timestamp, received_at, metadata, Value, number, text,
  time, object, Object, Hit, document_of, item_of, name_eq, update,
}

-- A BSON time has no offset, and a resolution of a millisecond.
abbrev pub bson : ℕ → Option Datetime
bson t = some (naive (t / 1_000 * 1_000))

-- What pymongo yields of the document that `upsert` has put for an event.
abbrev pub yielded : Event → Found
yielded e = record {
  id = e.event_id;
  event_type = e.event_type;
  user_id = e.user_id;
  source_url = e.source_url;
  timestamp = bson e.timestamp;
  received_at = bson e.received_at;
  metadata = e.metadata;
}

-- What the cluster yields of the document that `index` has put for it.
abbrev pub hit_of : (score : ℕ) → Event → Hit
hit_of score e = record { id = e.event_id; score = score; source = document_of e }

abbrev as_number : Option Value → Option ℕ
as_number (some (number n)) = some n
as_number _ = none

abbrev as_text : Option Value → Option Text
as_text (some (text t)) = some t
as_text _ = none

abbrev as_time : Option Value → Option Datetime
as_time (some (time t)) = some t
as_time _ = none

abbrev as_object : Option Value → Option Fields
as_object (some (object fs)) = some fs
as_object _ = none

-- An item says the same of an event as a document that is returned.
pub record SaysSame (item : Object) (d : Found) : Type 0 where
  pub id : as_number (Dict.get event_id item) ≡ some d.id
  pub type : as_text (Dict.get event_type item) ≡ some d.event_type
  pub user : as_text (Dict.get user_id item) ≡ some d.user_id
  pub url : as_text (Dict.get source_url item) ≡ some d.source_url
  pub happened : as_time (Dict.get timestamp item) ≡ d.timestamp
  pub accepted : as_time (Dict.get received_at item) ≡ d.received_at
  pub rest : as_object (Dict.get metadata item) ≡ some d.metadata

-- A time in whole milliseconds.
abbrev IsRounded : ℕ → Type 0
IsRounded t = t % 1_000 ≡ 0

SaysSame-IsRounded :
    (score : ℕ) (e : Event)
    → IsRounded e.received_at
    → SaysSame (item_of (hit_of score e)) (to_output (yielded e)) ↔ IsRounded e.timestamp
unfolding item_of document_of update to_output Dict.get Dict.set Dict.delete
SaysSame-IsRounded score e stamped = (
  λ same. ground (arith, same.happened),
  λ rounded. record {
    id = refl;
    type = refl;
    user = refl;
    url = refl;
    happened = ap (λ t. some (aware t)) (whole e.timestamp rounded);
    accepted = ap (λ t. some (aware t)) (whole e.received_at stamped);
    rest = refl;
  },
)
  where
    whole : (t : ℕ) → IsRounded t → t ≡ t / 1_000 * 1_000
    whole t h = omega (arith, h)

now-IsRounded : (clock : ℕ) → IsRounded (now clock)
unfolding now
now-IsRounded clock = omega arith

-- What the client says of the time is in whole milliseconds, or it says nothing.
abbrev pub IsMillis : Option ℕ → Type 0
IsMillis none = Unit
IsMillis (some t) = IsRounded t

accepted-SaysSame :
    (lower : Text → Text) (clock id score : ℕ) (p : EventIn) (v : Valid lower)
    → let e = from_input lower clock id p v in
      SaysSame (item_of (hit_of score e)) (to_output (yielded e)) ↔ IsMillis v.timestamp
unfolding from_input
accepted-SaysSame lower clock id score p v = by_time v.timestamp
  where
    by_time :
        (given : Option ℕ)
        → let e = from_input lower clock id p (record v { timestamp = given }) in
          SaysSame (item_of (hit_of score e)) (to_output (yielded e)) ↔ IsMillis given
    by_time none =
        let e = from_input lower clock id p (record v { timestamp = none }) in
        let (to, back) = SaysSame-IsRounded score e (now-IsRounded clock) in
        (λ same. tt, λ h. back (now-IsRounded clock))
    by_time (some t) =
        SaysSame-IsRounded score (from_input lower clock id p (record v { timestamp = some t }))
          (now-IsRounded clock)

-- The two reads say the same of an accepted event, its identifier, its fields and both of its times, if
-- and only if the client sent no time of its own, or one in whole milliseconds. The store returns what
-- BSON keeps of the event, and the cluster the document that it was given, under its identifier.
pub reads_agree_iff :
    (lower : Text → Text) (clock id : ℕ) (p : EventIn) (v : Valid lower) (e : Event) (d : Found)
    (h : Hit)
    → e ≡ from_input lower clock id p v
    → d ≡ yielded e
    → h.id ≡ e.event_id
    → h.source ≡ document_of e
    → SaysSame (item_of h) (to_output d) ↔ IsMillis v.timestamp
reads_agree_iff lower clock id p v e d h stamped kept under whole =
    let E = from_input lower clock id p v in
    let same = accepted-SaysSame lower clock id h.score p v in
    let at_id =
      subst
        (λ i.
          SaysSame (item_of (record (hit_of h.score E) { id = i })) (to_output (yielded E))
          ↔ IsMillis v.timestamp)
        (sym (under ∙ ap (λ x. x.event_id) stamped)) same in
    let with_source =
      subst
        (λ s.
          SaysSame (item_of (record h { source = s })) (to_output (yielded E))
          ↔ IsMillis v.timestamp)
        (sym (whole ∙ ap document_of stamped)) at_id in
    subst (λ x. SaysSame (item_of h) (to_output x) ↔ IsMillis v.timestamp)
      (sym (kept ∙ ap yielded stamped)) with_source
