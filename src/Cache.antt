-- ===== src/Cache.antt =====
-- app/cache.py, `StatsCache.get` and `set` with `_encode`, and app/main.py, `stats_realtime`. Redis, the JSON
-- decoder and `isoformat` are parameters; the key is an argument, from Cache/Key.
pub mod Key
pub mod Shapes
mod Tests
use feathr_events.Prelude.{[], ◌∷◌, List, Option, none, some, Bool, true, false, if◌then◌else◌, ◌≡◌}
use feathr_events.Models.{Text, Json, null, bool, num, str, arr, obj, Fields, end, field}
use feathr_events.Ingest.{Datetime}
use feathr_events.Faults.{Faulted, redis, guard}
use feathr_events.Stores.{Reply, done, refused, unconfirmed}

-- Redis as far as the cache uses it: a text by key. A text that is put is found under its key.
pub record Texts : Type 1 where
  pub State : Type 0
  pub find : Text → State → Option Text
  pub put : Text → Text → State → State
  pub find-put : (k v : Text) (s : State) → find k (put k v s) ≡ some v

-- `json.dumps` of a dictionary of JSON and `json.loads`; `none` if `loads` raises.
pub record Codec : Type 0 where
  pub dumps : Fields → Text
  pub loads : Text → Option Json

-- What an answer holds: JSON, a datetime, or another object, with what `str` makes of it.
pub data Value : Type 0 where
  plain : Json → Value
  datetime : Datetime → Value
  other : (shown : Text) → Value

abbrev pub Answer : Type 0
Answer = List (Text × Value)

module _ (isoformat : Datetime → Text) where
  -- `_encode`
  unfoldable pub encode : Value → Json
  encode (plain v) = v
  encode (datetime t) = str (isoformat t)
  encode (other s) = str s

  -- What `json.dumps(value, default=_encode)` writes of an answer, before it is text.
  unfoldable pub encoded : Answer → Fields
  unfolding encode
  encoded [] = end
  encoded ((k, v) ∷ answer) = field k (encode v) (encoded answer)

  module _ (db : Texts) (codec : Codec) (demo_mode : Bool) where
    -- An empty text counts as none, and so does `None`.
    abbrev pub decoded : Option Text → Option Json
    decoded none = none
    decoded (some []) = none
    decoded (some (a ∷ s)) = codec.loads (a ∷ s)

    -- `get`: `answered` says whether Redis answers. Every exception is a miss.
    unfoldable pub get : Faulted → (answered : Bool) → Text → db.State → Option Json
    get faulted answered key s =
        if guard demo_mode redis faulted
        then none
        else if answered
        then decoded (db.find key s)
        else none

    abbrev pub written : Reply → Text → Answer → db.State → db.State
    written done key v s = db.put key (codec.dumps (encoded v)) s
    written refused key v s = s
    written unconfirmed key v s = db.put key (codec.dumps (encoded v)) s

    -- `set`: no exception gets out.
    unfoldable pub set : Faulted → Reply → Text → Answer → db.State → db.State
    unfolding encoded
    set faulted reply key v s = if guard demo_mode redis faulted then s else written reply key v s

    -- What `stats_realtime` returns besides the lifetime of an entry: the members of a hit, or of a fresh
    -- answer, or an exception, since `{**hit}` wants a dictionary.
    pub data Response : Type 0 where
      cached : Fields → Response
      fresh : Answer → Response
      raised : Response

    abbrev pub served :
        Faulted → Reply → Text → (summary : Answer) → Option Json → db.State → db.State × Response
    served faulted reply key summary none s = (set faulted reply key summary s, fresh summary)
    served faulted reply key summary (some null) s =
        (set faulted reply key summary s, fresh summary)
    served faulted reply key summary (some (obj d)) s = (s, cached d)
    served faulted reply key summary (some (bool b)) s = (s, raised)
    served faulted reply key summary (some (num n)) s = (s, raised)
    served faulted reply key summary (some (str t)) s = (s, raised)
    served faulted reply key summary (some (arr js)) s = (s, raised)

    -- `stats_realtime`: `summary` is what `live_summary` answers.
    unfoldable pub stats_realtime :
        (before after : Faulted) (answered : Bool)
        → Reply
        → Text
        → (summary : Answer) → db.State
        → db.State × Response
    unfolding get set
    stats_realtime before after answered reply key summary s =
        served after reply key summary (get before answered key s) s
