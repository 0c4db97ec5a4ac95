-- ===== src/Serving/Tests.antt =====
-- The theorem on the layers of app/main.py at a concrete request.
use feathr_events.Prelude.{ℕ, some, ◌+◌, [], ◌∷◌, none, refl}
use feathr_events.Models.{Text}
use feathr_events.Texts.{number}
use feathr_events.Config.{defaults}
use feathr_events.RateLimit.{write}
use feathr_events.Requests.{App, http, start, returned, opened, unwritable}
use feathr_events.Serving.{Incoming, Process, Circumstances, serve}
use feathr_events.Serving.Layers.{Composed, serve-Composed}

abbrev same_text : Text → Text
same_text s = s

-- Routes that count their requests and answer 202.
abbrev routes : App ℕ
routes n l = (n + 1, l, start 202 ∷ [], returned)

-- `POST /events` with a cookie, from a client without an address.
abbrev incoming : Incoming
incoming = record {
  kind = http;
  method = some (80 ∷ 79 ∷ 83 ∷ 84 ∷ []);
  path = 47 ∷ 101 ∷ 118 ∷ 101 ∷ 110 ∷ 116 ∷ 115 ∷ [];
  headers = some (((99 ∷ 111 ∷ 111 ∷ 107 ∷ 105 ∷ 101 ∷ []), 115 ∷ []) ∷ []);
  query = some (record { decoded = []; parsed = [] });
  client = none;
}

-- "unknown" has spent all its writes.
abbrev process : Process ℕ
process = record {
  buckets =
      (
        (number (117 ∷ 110 ∷ 107 ∷ 110 ∷ 111 ∷ 119 ∷ 110 ∷ []), write),
        record { tokens = 0; updated = 40; suppressed = 0; logged_at = 0 },
      )
      ∷ [];
  logs = record { task_id = []; sinks = []; written = [] };
  inner = 0;
}

abbrev circumstances : Circumstances
circumstances = record {
  now = 41;
  later = 42;
  around = record {
    generated = 114 ∷ [];
    first = opened;
    last = opened;
    after = unwritable;
    duration = 3;
    shown = λ end. ([], [], []);
  };
}

-- One that is not counted, so that it reaches the routes.
abbrev exempt : Incoming
exempt = record incoming { path = 47 ∷ 104 ∷ 101 ∷ 97 ∷ 108 ∷ 116 ∷ 104 ∷ [] }

serve-Composed_example :
    Composed same_text routes defaults circumstances exempt process
      (serve same_text routes defaults circumstances exempt process)
serve-Composed_example =
    serve-Composed same_text routes defaults circumstances exempt process (λ a b. refl)
      (λ a clean. clean) tt
