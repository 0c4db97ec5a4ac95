-- ===== src/Logcheck/Tests.antt =====
-- The theorems on scripts/logcheck.py at concrete lines.
use feathr_events.Prelude.{List, [], ◌∷◌, none, false, ◌≡◌, if◌then◌else◌, arith, ◌&&◌}
use feathr_events.Dict
use feathr_events.Models.{Text}
use feathr_events.Texts.{text_beq, text_eq}
use feathr_events.Sorting.{filter, any, IsSorted}
use feathr_events.Logcheck.{
  Library, Record, malformed, object, text, mongo, api, unknown, warn, error, info,
}
use feathr_events.Logcheck.Collect.{
  record_of, collect, printed, hits_of, exit_code, before, at_least, of_level,
}
use feathr_events.Logcheck.Lines.{Collects, collect_complete}
use feathr_events.Logcheck.Report.{hits_of-IsSorted, same_key, unparsed_is_hidden}

-- Only the line "ok" is an object, with the severity "E".
abbrev library : Library
library = record {
  upper = λ s. s;
  loads = λ s.
      if text_beq s (111 ∷ 107 ∷ []) then object (((115 ∷ []), text (69 ∷ [])) ∷ []) else malformed;
  match_redis = λ s. none;
  match_logging = λ s. none;
  match_uvicorn = λ s. none;
  strptime_redis = λ s. none;
  strptime_logging = λ s. none;
}

abbrev output : List Text
output = (111 ∷ 107 ∷ []) ∷ (32 ∷ []) ∷ (84 ∷ 114 ∷ 97 ∷ 99 ∷ 101 ∷ 98 ∷ 97 ∷ 99 ∷ 107 ∷ []) ∷ []

collect_complete_example :
    Collects library mongo output false (collect library mongo (printed output))
unfolding Dict.get
collect_complete_example = collect_complete library mongo output

abbrev complaint : Record
complaint = record {
  parsed = record { ts = 50 ∷ []; level = error; msg = []; src = [] };
  service = mongo;
  raw = (111 ∷ 107 ∷ []);
}

abbrev traceback : Record
traceback = record_of api (84 ∷ 114 ∷ 97 ∷ 99 ∷ 101 ∷ 98 ∷ 97 ∷ 99 ∷ 107 ∷ []) none

abbrev collected : List Record
collected = complaint ∷ traceback ∷ []

hits_of-IsSorted_example :
    IsSorted before (hits_of info collected)
    × ((k : Record)
        → filter (same_key k) (hits_of info collected)
          ≡ filter (same_key k) (filter (at_least info) collected))
    × (exit_code (hits_of info collected)
        ≡ (if any (λ r. at_least info r && at_least error r) collected then 1 else 0))
hits_of-IsSorted_example = hits_of-IsSorted info collected

unparsed_is_hidden_example : any (of_level unknown) (hits_of warn collected) ≡ false
unparsed_is_hidden_example = unparsed_is_hidden warn collected (omega arith)
