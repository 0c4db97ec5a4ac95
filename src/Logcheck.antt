-- ===== src/Logcheck.antt =====
-- scripts/logcheck.py: one stream out of the four formats of logs of the stack. The outputs of docker,
-- the decoder of JSON, the matches of the regular expressions, `strptime` and `upper` are arguments.
-- What a record takes from a member of a JSON object is the text that `str` makes of it.
mod Tests
pub mod Formats
pub mod Collect
pub mod Lines
pub mod Report
use feathr_events.Prelude.{ℕ, List, [], ◌∷◌, Option}
use feathr_events.Models.{Text}

pub data Service : Type 0 where
  mongo elasticsearch redis api : Service

-- The members of `LEVELS`.
pub data Level : Type 0 where
  debug info unknown warn error fatal : Level

-- `RANK`
abbrev pub rank : Level → ℕ
rank debug = 0
rank info = 1
rank unknown = 2
rank warn = 3
rank error = 4
rank fatal = 5

abbrev pub levels : List Level
levels = debug ∷ info ∷ unknown ∷ warn ∷ error ∷ fatal ∷ []

-- What is in a record before `collect` adds the service and the line. `ts` is `""` where there is no
-- time.
pub record Parsed : Type 0 where
  pub ts : Text
  pub level : Level
  pub msg : Text
  pub src : Text

pub record Record : Type 0 where
  pub parsed : Parsed
  pub service : Service
  pub raw : Text

-- A member of a JSON object: a text, an object, or another value. With each, what `str` makes of it.
pub data Member : Type 0 where
  text : Text → Member
  fields : (shown : Text) → List (Text × Text) → Member
  other : (shown : Text) → Member

abbrev pub shown : Member → Text
shown (text s) = s
shown (fields s d) = s
shown (other s) = s

-- What `json.loads` makes of a line: it raises, or there is a value that is no object, or an object.
pub data Decoded : Type 0 where
  malformed scalar : Decoded
  object : List (Text × Member) → Decoded

-- `AttributeError`: a value that is no object has no `get`.
pub data Raised : Type 0 where
  no_get : Raised

-- `LEVELS`
abbrev pub level_names : List (Text × Level)
level_names =
    (68 ∷ 69 ∷ 66 ∷ 85 ∷ 71 ∷ [], debug)
    ∷ (73 ∷ 78 ∷ 70 ∷ 79 ∷ [], info)
    ∷ (85 ∷ 78 ∷ 75 ∷ 78 ∷ 79 ∷ 87 ∷ 78 ∷ [], unknown)
    ∷ (87 ∷ 65 ∷ 82 ∷ 78 ∷ [], warn)
    ∷ (69 ∷ 82 ∷ 82 ∷ 79 ∷ 82 ∷ [], error)
    ∷ (70 ∷ 65 ∷ 84 ∷ 65 ∷ 76 ∷ [], fatal)
    ∷ []

-- `SERVICES`
abbrev pub service_names : List (Text × Service)
service_names =
    (109 ∷ 111 ∷ 110 ∷ 103 ∷ 111 ∷ [], mongo)
    ∷ (101 ∷ 108 ∷ 97 ∷ 115 ∷ 116 ∷ 105 ∷ 99 ∷ 115 ∷ 101 ∷ 97 ∷ 114 ∷ 99 ∷ 104 ∷ [], elasticsearch)
    ∷ (114 ∷ 101 ∷ 100 ∷ 105 ∷ 115 ∷ [], redis)
    ∷ (97 ∷ 112 ∷ 105 ∷ [], api)
    ∷ []

abbrev pub name_of : Service → Text
name_of mongo = 109 ∷ 111 ∷ 110 ∷ 103 ∷ 111 ∷ []
name_of elasticsearch = 101 ∷ 108 ∷ 97 ∷ 115 ∷ 116 ∷ 105 ∷ 99 ∷ 115 ∷ 101 ∷ 97 ∷ 114 ∷ 99 ∷ 104 ∷ []
name_of redis = 114 ∷ 101 ∷ 100 ∷ 105 ∷ 115 ∷ []
name_of api = 97 ∷ 112 ∷ 105 ∷ []

-- What the code calls of Python's library: `str.upper`, `json.loads`, the three regular expressions
-- with the groups that they match, and `strptime` by each of two formats, with the instant as ISO.
pub record Library : Type 0 where
  pub upper : Text → Text
  pub loads : Text → Decoded
  pub match_redis : Text → Option (Text × Text × Text)
  pub match_logging : Text → Option (Text × Text × Text × Text)
  pub match_uvicorn : Text → Option (Text × Text)
  pub strptime_redis : Text → Option Text
  pub strptime_logging : Text → Option Text
