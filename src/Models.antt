-- ===== src/Models.antt =====
-- app/models.py: the event as it travels through the queue and into the stores.
use feathr_events.Prelude.{ℕ, List, Bool}

-- A text is the list of its code points.
abbrev pub Text : Type 0
Text = List ℕ

-- What `dict[str, Any]` holds after JSON decoding. A number is the text
-- that `json.dumps` writes for it.
mutual
  pub data Json : Type 0 where
    null : Json
    bool : Bool → Json
    num : Text → Json
    str : Text → Json
    arr : Items → Json
    obj : Fields → Json

  pub data Items : Type 0 where
    nil : Items
    cons : Json → Items → Items

  pub data Fields : Type 0 where
    end : Fields
    field : Text → Json → Fields → Fields

-- The class `Event`. `event_id` is `uuid4().hex`, used only through equality; instants are
-- microseconds.
pub record Event : Type 0 where
  pub event_id : ℕ
  pub event_type : Text
  pub user_id : Text
  pub source_url : Text
  pub timestamp : ℕ
  pub received_at : ℕ
  pub metadata : Fields
