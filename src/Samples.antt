-- ===== src/Samples.antt =====
-- A database, an event and settings for the tests.
use feathr_events.Prelude.{true, ℕ, Option, some, [], ◌∷◌, if◌then◌else◌, nat_beq, refl}
use feathr_events.Models.{Event, end}
use feathr_events.Stores.{Documents}
use feathr_events.Queue.{default_config, ticks}
use feathr_events.Circuit.{default_params}
use feathr_events.Worker.{Settings}

-- A database as a function from identifiers.
abbrev pub table : Documents
table = record {
  State = ℕ → Option Event;
  find = λ j s. s j;
  put = λ i e s j. if nat_beq i j then some e else s j;
  find-put = λ i j e s. refl;
}

abbrev pub event : Event
event = record {
  event_id = 7;
  event_type = 99 ∷ [];
  user_id = 117 ∷ [];
  source_url = [];
  timestamp = 0;
  received_at = 0;
  metadata = end;
}

abbrev pub settings : Settings
settings = record {
  uuid = λ n. n;
  queue_config = default_config;
  params = default_params;
  batch_size = 10;
  visibility = ticks 30;
  demo_mode = true;
}
