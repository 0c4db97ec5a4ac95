-- ===== src/Tests.antt =====
-- The theorems on app/main.py, app/queries.py and
-- app/observability.py at concrete requests.
use feathr_events.Prelude.{List, All, ◌*◌, ◌/◌, arith, ◌≡◌, refl, true, false, [], ◌∷◌, none, some}
use feathr_events.Models.{Text, end}
use feathr_events.Queue.{default_config, init}
use feathr_events.Faults.{dependency_eq}
use feathr_events.Ingest.{EventIn, naive, ingest}
use feathr_events.Ingest.Promise.{Promise, ingest-Promise}
use feathr_events.Dict
use feathr_events.Sinks.{Tidy, log_all, log_all-Tidy}
use feathr_events.Live.{Row, live_summary, group, add_row}
use feathr_events.Live.Totals.{counted, IsComplete, live_summary-exact}
use feathr_events.Startup.{joined, before_equals, refuse_multiple_processes, spellings_agree}

abbrev same_text : Text → Text
same_text s = s

abbrev posted : EventIn
posted = record {
  event_type = 32 ∷ 99 ∷ [];
  user_id = 117 ∷ [];
  source_url = [];
  timestamp = some (naive 1_000_000);
  metadata = end;
}

ingest-Promise_example :
    let r = ingest same_text (λ n. n) default_config 2_000_500 2_000_900 7 posted init in
    Promise same_text (λ n. n) default_config 2_000_500 2_000_900 init r.0 r.1
ingest-Promise_example =
    ingest-Promise same_text (λ n. n) default_config 2_000_500 2_000_900 7 posted init

-- -w 2 and -w=2
spellings_agree_example :
    refuse_multiple_processes ((97 ∷ []) ∷ (45 ∷ 119 ∷ []) ∷ (50 ∷ []) ∷ []) none
    ≡ refuse_multiple_processes ((97 ∷ []) ∷ joined (45 ∷ 119 ∷ []) (50 ∷ []) ∷ []) none
unfolding before_equals
spellings_agree_example =
    spellings_agree (45 ∷ 119 ∷ []) 50 [] ((97 ∷ []) ∷ []) [] none refl refl refl

-- The generated identifier req-1, then the task 7.
log_all-Tidy_example :
    Tidy (log_all ((true, 114 ∷ 101 ∷ 113 ∷ 45 ∷ 49 ∷ []) ∷ (false, 55 ∷ []) ∷ []) [])
unfolding Dict.get
log_all-Tidy_example =
    log_all-Tidy ((true, 114 ∷ 101 ∷ 113 ∷ 45 ∷ 49 ∷ []) ∷ (false, 55 ∷ []) ∷ []) []
      (record { dict = tt; bounded = omega arith; shared = λ k h. refl })

-- Two bins of two seconds, and three rows, one of them too late.
abbrev rows : List Row
rows =
    record { bin = 996; event_type = 97 ∷ []; count = 3 }
    ∷ record { bin = 998; event_type = 98 ∷ []; count = 4 }
    ∷ record { bin = 1_000; event_type = 97 ∷ []; count = 5 }
    ∷ []

live_summary-exact_example :
    ((live_summary 4 2 1_001 rows).total
      ≡ counted (live_summary 4 2 1_001 rows).since (4 / 2 * 2) rows)
    × All (IsComplete (4 / 2)) (live_summary 4 2 1_001 rows).series
live_summary-exact_example = live_summary-exact 4 2 1_001 rows (omega arith)

live_summary_total : (live_summary 4 2 1_001 rows).total ≡ 7
unfolding live_summary group add_row Dict.get Dict.set
live_summary_total = refl
