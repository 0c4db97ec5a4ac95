-- ===== src/Queries.antt =====
-- app/queries.py: the filter of the reads of MongoDB, and what `list_events`, `stats` and `_to_output`
-- make of its answers. The database, `str.lower` and the validation of a URL are arguments.
mod Tests
pub mod Own
pub mod Posted
pub mod Indexed
pub mod Terms
pub mod Search
pub mod Agreement
pub mod Pattern
pub mod Offered
use feathr_events.Prelude.{
  ℕ, ◌+◌, ◌≤◌, List, [], ◌∷◌, ◌++◌, Option, none, some, Bool, true, false, ◌&&◌, leb, min,
  if◌then◌else◌, map, length,
}
use feathr_events.Models.{Text, Fields, Event}
use feathr_events.Texts.{text_beq, strip}
use feathr_events.Live.{sum}
use feathr_events.Ingest.{Datetime, naive, aware, instant}

-- A condition of the filter, in the order in which the filter has them.
pub data Condition : Type 0 where
  event_type_is user_id_is source_url_is : Text → Condition
  timestamp_in : (gte lte : Option ℕ) → Condition

abbrev pub max_limit : ℕ
max_limit = 500

-- What a reader asks for: the arguments of `_filter`.
pub record Asked : Type 0 where
  pub event_type : Option Text
  pub user_id : Option Text
  pub source_url : Option Text
  pub since : Option ℕ
  pub until : Option ℕ

-- `if x:`, of a text or `None`
abbrev pub if_given : (Text → Condition) → Option Text → List Condition
if_given f none = []
if_given f (some []) = []
if_given f (some (a ∷ s)) = f (a ∷ s) ∷ []

abbrev pub window : (since until : Option ℕ) → List Condition
window none none = []
window (some a) none = timestamp_in (some a) none ∷ []
window none (some b) = timestamp_in none (some b) ∷ []
window (some a) (some b) = timestamp_in (some a) (some b) ∷ []

module _ (lower : Text → Text) (validate_url : Text → Option Text) where
  -- `_normalise_url`
  unfoldable pub normalise_url : Text → Text
  normalise_url raw = elim (validate_url raw) [ none ↦ raw | some url ↦ url ]

  -- `_filter`
  unfoldable pub filter_of : Asked → List Condition
  unfolding normalise_url
  filter_of a =
      if_given (λ t. event_type_is (lower (strip t))) a.event_type
      ++ (if_given user_id_is a.user_id
          ++ (if_given (λ u. source_url_is (normalise_url u)) a.source_url
              ++ window a.since a.until))

-- A document as pymongo yields it: its times have no offset. And as it is returned.
pub record Found : Type 0 where
  pub id : ℕ
  pub event_type : Text
  pub user_id : Text
  pub source_url : Text
  pub timestamp : Option Datetime
  pub received_at : Option Datetime
  pub metadata : Fields

-- `value.replace(tzinfo=UTC)` of a time without an offset. A naive time of the database is in UTC.
abbrev pub with_offset : Option Datetime → Option Datetime
with_offset none = none
with_offset (some (naive t)) = some (aware t)
with_offset (some (aware t)) = some (aware t)

-- `_to_output`
unfoldable pub to_output : Found → Found
to_output d = record d {
  timestamp = with_offset d.timestamp;
  received_at = with_offset d.received_at;
}

pub record Page : Type 0 where
  pub items : List Found
  pub count : ℕ
  pub limit : ℕ
  pub offset : ℕ

-- `list_events`: `find` is `find(query).sort("timestamp", -1).skip(offset).limit(limit)`.
unfoldable pub list_events :
    (find : List Condition → (offset limit : ℕ) → List Found) (query : List Condition)
    (limit offset : ℕ)
    → Page
unfolding to_output
list_events find query limit offset =
    let docs = map to_output (find query offset (min limit max_limit)) in
    record { items = docs; count = length docs; limit = min limit max_limit; offset = offset }

-- `stats`: the rows of the aggregation with their counts, and the total.
unfoldable pub stats {ℓ} : {A : Type ℓ} → List (A × ℕ) → ℕ × List (A × ℕ)
stats rows = (sum (map (λ r. r.1) rows), rows)
