-- ===== src/Ingest.antt =====
-- app/models.py, the class `EventIn` and `Event.from_input`, and app/main.py, `POST /events`: how an
-- event is checked, stamped and enqueued.
--
-- Instants are microseconds since the epoch. Ingest/Body reads the body that this part starts from.
pub mod Promise
pub mod Body
use feathr_events.Prelude.{
  ℕ, zero, suc, ◌+◌, ◌*◌, ◌/◌, ◌%◌, ◌≤◌, ◌≡◌, refl, List, [], ◌∷◌, ◌++◌, Option, none, some, Bool,
  true, false, ◌||◌, length, ltb, leb, nat_beq, if◌then◌else◌, Result, ok, err, ◌>>=◌, arith,
  nat_eq,
}
use feathr_events.Models.{
  Text, Json, null, bool, num, str, arr, obj, Items, nil, cons, Fields, end, field, Event,
}
use feathr_events.Texts.{strip}
use feathr_events.Dict
use feathr_events.Queue.{Queue, Config, Entry, QueueError, queue_full, send}

-- What a client sends as `timestamp`: a clock reading without an offset, or with one (then it is an
-- instant).
pub data Datetime : Type 0 where
  naive : ℕ → Datetime
  aware : ℕ → Datetime

pub record EventIn : Type 0 where
  pub event_type : Text
  pub user_id : Text
  pub source_url : Text
  pub timestamp : Option Datetime
  pub metadata : Fields

pub data ValueError : Type 0 where
  timestamp_in_the_future metadata_too_large event_type_is_empty : ValueError

-- `_now`, of a reading of the clock
unfoldable pub now : ℕ → ℕ
now t = t / 1_000_000 * 1_000_000 + t % 1_000_000 / 1_000 * 1_000

abbrev pub future_skew : ℕ
future_skew = 5 * 60 * 1_000_000

abbrev pub max_metadata_bytes : ℕ
max_metadata_bytes = 32_768

abbrev pub instant : Datetime → ℕ
instant (naive t) = t
instant (aware t) = t

unfoldable pub bound_the_future : (clock : ℕ) → Option Datetime → Result ValueError (Option ℕ)
bound_the_future clock none = ok none
bound_the_future clock (some v) =
    if ltb (now clock + future_skew) (instant v)
    then err timestamp_in_the_future
    else ok (some (instant v))

-- The length of what `json.dumps` writes for a character: everything outside the printable ASCII
-- characters is escaped, and what does not fit into four digits takes two escapes.
abbrev char_size : ℕ → ℕ
char_size a =
    if nat_beq a 34
      || nat_beq a 92
      || nat_beq a 8
      || nat_beq a 9
      || nat_beq a 10
      || nat_beq a 12
      || nat_beq a 13
    then 2
    else if ltb a 32
    then 6
    else if ltb a 127
    then 1
    else if ltb a 65_536
    then 6
    else 12

abbrev pub text_size : Text → ℕ
text_size [] = 2
text_size (a ∷ s) = char_size a + text_size s

-- The length of `json.dumps(v)`.
unfoldable mutual
  pub json_size : Json → ℕ
  json_size null = 4
  json_size (bool true) = 4
  json_size (bool false) = 5
  json_size (num s) = length s
  json_size (str s) = text_size s
  json_size (arr nil) = 2
  json_size (arr (cons j js)) = 2 + json_size j + items_size js
  json_size (obj fs) = fields_size fs

  pub items_size : Items → ℕ
  items_size nil = 0
  items_size (cons j js) = 2 + json_size j + items_size js

  pub fields_size : Fields → ℕ
  fields_size end = 2
  fields_size (field k j fs) = 2 + text_size k + 2 + json_size j + further_size fs

  pub further_size : Fields → ℕ
  further_size end = 0
  further_size (field k j fs) = 2 + text_size k + 2 + json_size j + further_size fs

unfoldable pub bound_the_metadata : Fields → Result ValueError Fields
bound_the_metadata v =
    if ltb max_metadata_bytes (fields_size v) then err metadata_too_large else ok v

-- `str.lower` needs the tables of Unicode: it is an argument.
module _ (lower : Text → Text) where
  abbrev pub nonempty : Text → Result ValueError Text
  nonempty [] = err event_type_is_empty
  nonempty (a ∷ s) = ok (a ∷ s)

  unfoldable pub normalise_type : Text → Result ValueError Text
  normalise_type v = nonempty (lower (strip v))

  -- The model after its validators, which run in the order of the fields.
  pub record Valid : Type 0 where
    pub event_type : Text
    pub timestamp : Option ℕ
    pub metadata : Fields

  unfoldable pub validate : (clock : ℕ) → EventIn → Result ValueError Valid
  unfolding bound_the_future bound_the_metadata normalise_type
  validate clock p = do
    event_type ← normalise_type p.event_type
    timestamp ← bound_the_future clock p.timestamp
    metadata ← bound_the_metadata p.metadata
    ok (record { event_type = event_type; timestamp = timestamp; metadata = metadata })

  abbrev pub or_now : Option ℕ → ℕ → ℕ
  or_now none t = t
  or_now (some v) t = v

  -- `Event.from_input`: `id` is `uuid4().hex`.
  unfoldable pub from_input : (clock id : ℕ) → EventIn → Valid → Event
  from_input clock id p v = record {
    event_id = id;
    event_type = v.event_type;
    user_id = p.user_id;
    source_url = p.source_url;
    timestamp = or_now v.timestamp (now clock);
    received_at = now clock;
    metadata = v.metadata;
  }

  -- What the endpoint answers: 202, 429 with its `Retry-After`, or 422.
  pub data Answer : Type 0 where
    accepted : (event_id : ℕ) → Answer
    too_many_requests : (retry_after : ℕ) → Answer
    unprocessable : ValueError → Answer

  abbrev pub answered : (id : ℕ) → Queue → Result QueueError Queue → Queue × Answer
  answered id q (ok p) = (p, accepted id)
  answered id q (err e) = (q, too_many_requests 1)

  -- What follows the validators.
  abbrev pub decide_on :
      (uuid : ℕ → ℕ)
      → Config
      → (stamped id : ℕ) → EventIn
      → Queue
      → Result ValueError Valid
      → Queue × Answer
  decide_on uuid c stamped id p q (err e) = (q, unprocessable e)
  decide_on uuid c stamped id p q (ok v) = answered id q (send uuid c (from_input stamped id p v) q)

  -- `ingest`: `checked` and `stamped` are the readings of the clock of the validator and of
  -- `from_input`.
  unfoldable pub ingest :
      (uuid : ℕ → ℕ) → Config → (checked stamped id : ℕ) → EventIn → Queue → Queue × Answer
  unfolding validate
  ingest uuid c checked stamped id p q = decide_on uuid c stamped id p q (validate checked p)
