-- ===== src/Logcheck/Formats.antt =====
-- scripts/logcheck.py: the parsers of the four formats of lines.
use feathr_events.Prelude.{List, [], ◌∷◌, Option, none, some, Result, ok, err, ◌>>=◌}
use feathr_events.Models.{Text}
use feathr_events.Texts.{text_eq, strip}
use feathr_events.Dict
use feathr_events.Logcheck.{
  Service, Level, Parsed, Raised, Library, level_names, mongo, elasticsearch, redis, api, debug,
  info, unknown, warn, error, fatal, malformed, scalar, object, no_get, Member, text, fields, other,
  shown,
}

abbrev get_or : Text → Text → List (Text × Text) → Text
get_or default k d = elim (Dict.get k d) [ none ↦ default | some v ↦ v ]

-- `str(d.get(k, ""))`
abbrev shown_or_empty : Option Member → Text
shown_or_empty none = []
shown_or_empty (some v) = shown v

-- `d.get("t", {}).get("$date", "")`, from the member `t`
abbrev pub date_of : Option Member → Result Raised Text
date_of none = ok []
date_of (some (text s)) = err no_get
date_of (some (other s)) = err no_get
date_of (some (fields s d)) = ok (get_or [] (36 ∷ 100 ∷ 97 ∷ 116 ∷ 101 ∷ []) d)

abbrev level_or_unknown : Option Level → Level
level_or_unknown none = unknown
level_or_unknown (some l) = l

-- `MONGO_SEVERITY`
abbrev mongo_severity : List (Text × Level)
mongo_severity =
    (70 ∷ [], fatal) ∷ (69 ∷ [], error) ∷ (87 ∷ [], warn) ∷ (73 ∷ [], info) ∷ (68 ∷ [], debug) ∷ []

-- `REDIS_SEVERITY`
abbrev redis_severity : List (Text × Level)
redis_severity = (35 ∷ [], warn) ∷ (42 ∷ [], info) ∷ (45 ∷ [], debug) ∷ (46 ∷ [], debug) ∷ []

-- `NORMALIZE`
abbrev normalize : List (Text × Text)
normalize =
    (87 ∷ 65 ∷ 82 ∷ 78 ∷ 73 ∷ 78 ∷ 71 ∷ [], 87 ∷ 65 ∷ 82 ∷ 78 ∷ [])
    ∷ (67 ∷ 82 ∷ 73 ∷ 84 ∷ 73 ∷ 67 ∷ 65 ∷ 76 ∷ [], 70 ∷ 65 ∷ 84 ∷ 65 ∷ 76 ∷ [])
    ∷ (84 ∷ 82 ∷ 65 ∷ 67 ∷ 69 ∷ [], 68 ∷ 69 ∷ 66 ∷ 85 ∷ 71 ∷ [])
    ∷ (83 ∷ 69 ∷ 86 ∷ 69 ∷ 82 ∷ 69 ∷ [], 69 ∷ 82 ∷ 82 ∷ 79 ∷ 82 ∷ [])
    ∷ []

module _ (lib : Library) where
  open lib use {
    upper, loads, match_redis, match_logging, match_uvicorn, strptime_redis, strptime_logging,
  }

  unfoldable pub norm_level : Text → Level
  unfolding Dict.get
  norm_level raw =
      let name = upper (strip raw) in
      level_or_unknown (Dict.get (get_or name name normalize) level_names)

  unfoldable pub iso : Text → Text
  iso ts = elim (strptime_redis ts) [
    | none ↦ elim (strptime_logging ts) [ none ↦ ts | some instant ↦ instant ]
    | some instant ↦ instant
  ]

  unfoldable pub parse_mongo : Text → Result Raised (Option Parsed)
  unfolding Dict.get
  parse_mongo line = elim (loads line) [
    | malformed ↦ ok none
    | scalar ↦ err no_get
    | object d ↦ date_of (Dict.get (116 ∷ []) d) >>= (λ ts. ok (
        some (record {
          ts = ts;
          level =
              level_or_unknown
                (Dict.get (strip (shown_or_empty (Dict.get (115 ∷ []) d))) mongo_severity);
          msg = shown_or_empty (Dict.get (109 ∷ 115 ∷ 103 ∷ []) d);
          src = shown_or_empty (Dict.get (99 ∷ []) d);
        })))
  ]

  unfoldable pub parse_elasticsearch : Text → Result Raised (Option Parsed)
  unfolding norm_level Dict.get
  parse_elasticsearch line = elim (loads line) [
    | malformed ↦ ok none
    | scalar ↦ err no_get
    | object d ↦ ok (
        some (record {
          ts =
              shown_or_empty
                (Dict.get (64 ∷ 116 ∷ 105 ∷ 109 ∷ 101 ∷ 115 ∷ 116 ∷ 97 ∷ 109 ∷ 112 ∷ []) d);
          level = norm_level (
              shown_or_empty
                (Dict.get (108 ∷ 111 ∷ 103 ∷ 46 ∷ 108 ∷ 101 ∷ 118 ∷ 101 ∷ 108 ∷ []) d));
          msg = shown_or_empty (Dict.get (109 ∷ 101 ∷ 115 ∷ 115 ∷ 97 ∷ 103 ∷ 101 ∷ []) d);
          src = shown_or_empty (
              Dict.get (115 ∷ 101 ∷ 114 ∷ 118 ∷ 105 ∷ 99 ∷ 101 ∷ 46 ∷ 110 ∷ 97 ∷ 109 ∷ 101 ∷ []) d);
        }))
  ]

  unfoldable pub parse_redis : Text → Option Parsed
  unfolding iso Dict.get
  parse_redis line = elim (match_redis line) [
    | none ↦ none
    | some (ts, lvl, msg) ↦ some (record {
      ts = iso ts;
      level = level_or_unknown (Dict.get lvl redis_severity);
      msg = msg;
      src = 114 ∷ 101 ∷ 100 ∷ 105 ∷ 115 ∷ [];
    })
  ]

  unfoldable pub parse_api : Text → Option Parsed
  unfolding iso norm_level
  parse_api line = elim (match_logging line) [
    | some (ts, lvl, src, msg) ↦
        some (record { ts = iso ts; level = norm_level lvl; msg = msg; src = src })
    | none ↦ elim (match_uvicorn line) [
      | some (lvl, msg) ↦ some (record {
        ts = [];
        level = norm_level lvl;
        msg = msg;
        src = 117 ∷ 118 ∷ 105 ∷ 99 ∷ 111 ∷ 114 ∷ 110 ∷ [];
      })
      | none ↦ none
    ]
  ]

  -- `PARSERS`
  abbrev pub parse : Service → Text → Result Raised (Option Parsed)
  parse mongo line = parse_mongo line
  parse elasticsearch line = parse_elasticsearch line
  parse redis line = ok (parse_redis line)
  parse api line = ok (parse_api line)
