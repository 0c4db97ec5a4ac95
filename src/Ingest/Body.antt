-- ===== src/Ingest/Body.antt =====
-- app/models.py, the declared fields of `EventIn`, and `POST /events` of app/main.py from the body on. The
-- parser of URLs is an argument; it returns what `str` makes of the URL.
use feathr_events.Prelude.{
  ℕ, List, [], ◌∷◌, Option, none, some, Bool, true, false, ◌&&◌, leb, length, if◌then◌else◌,
}
use feathr_events.Models.{Text, Fields}
use feathr_events.Queue.{Queue, Config}
use feathr_events.Ingest.{Datetime, EventIn, Answer, ingest}

-- The body as JSON has it: its fields, and the names of those that are not declared.
pub record Body : Type 0 where
  pub event_type : Text
  pub user_id : Text
  pub source_url : Text
  pub timestamp : Option Datetime
  pub metadata : Fields
  pub unexpected : List Text

-- `Field(min_length=1, max_length=n)`
abbrev pub has_length : (n : ℕ) → Text → Bool
has_length n s = leb 1 (length s) && leb (length s) n

-- `extra="forbid"`
abbrev pub is_expected : List Text → Bool
is_expected [] = true
is_expected (name ∷ names) = false

-- The fields that go on, with the URL that was parsed.
abbrev pub taken : Body → Text → EventIn
taken b url = record {
  event_type = b.event_type;
  user_id = b.user_id;
  source_url = url;
  timestamp = b.timestamp;
  metadata = b.metadata;
}

module _ (lower : Text → Text) (validate_url : Text → Option Text) where
  -- The declared bounds, where the URL has been parsed.
  abbrev pub declared : Body → Option Text → Option EventIn
  declared b none = none
  declared b (some url) =
      if has_length 64 b.event_type && has_length 128 b.user_id && is_expected b.unexpected
      then some (taken b url)
      else none

  unfoldable pub read_body : Body → Option EventIn
  read_body b = declared b (validate_url b.source_url)

  -- What a body gets: 422 for what is declared, or the answer of the endpoint.
  pub data Response : Type 0 where
    malformed : Response
    handled : Answer lower → Response

  abbrev pub handle_read :
      (uuid : ℕ → ℕ) → Config → (checked stamped id : ℕ) → Queue → Option EventIn → Queue × Response
  handle_read uuid c checked stamped id q none = (q, malformed)
  handle_read uuid c checked stamped id q (some p) =
      let (r, answer) = ingest lower uuid c checked stamped id p q in (r, handled answer)

  unfoldable pub post :
      (uuid : ℕ → ℕ) → Config → (checked stamped id : ℕ) → Body → Queue → Queue × Response
  unfolding read_body
  post uuid c checked stamped id b q = handle_read uuid c checked stamped id q (read_body b)
