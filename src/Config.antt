-- ===== src/Config.antt =====
-- app/config.py, the class `Settings`, and what app/main.py makes of it. Addresses, names and the level of
-- the log are left out; times are in ticks.
use feathr_events.Prelude.{ℕ, Bool, true, false}
use feathr_events.Queue.{ticks}
use feathr_events.Queue
use feathr_events.Circuit.{default_params}
use feathr_events.RateLimit.{Limits}
use feathr_events.Worker

pub record Settings : Type 0 where
  pub worker_concurrency : ℕ
  pub worker_batch_size : ℕ
  pub visibility_timeout : ℕ
  pub max_receives : ℕ
  pub queue_maxsize : ℕ
  pub rate_limit_enabled : Bool
  pub rate_limit_window_seconds : ℕ
  pub rate_limit_writes : ℕ
  pub rate_limit_reads : ℕ
  pub rate_limit_trust_forwarded_for : Bool
  pub demo_mode : Bool

abbrev pub defaults : Settings
defaults = record {
  worker_concurrency = 8;
  worker_batch_size = 10;
  visibility_timeout = ticks 30;
  max_receives = 5;
  queue_maxsize = 10_000;
  rate_limit_enabled = true;
  rate_limit_window_seconds = ticks 10;
  rate_limit_writes = 2_000;
  rate_limit_reads = 3_000;
  rate_limit_trust_forwarded_for = false;
  demo_mode = false;
}

-- `InMemoryEventQueue(...)` of `lifespan`
abbrev pub queue_config : Settings → Queue.Config
queue_config s = record {
  visibility_timeout = s.visibility_timeout;
  max_receives = s.max_receives;
  maxsize = s.queue_maxsize;
}

-- `EventWorker(...)` of `lifespan`; `uuid` draws the identifiers.
abbrev pub worker_settings : (uuid : ℕ → ℕ) → Settings → Worker.Settings
worker_settings uuid s = record {
  uuid = uuid;
  queue_config = queue_config s;
  params = default_params;
  batch_size = s.worker_batch_size;
  visibility = s.visibility_timeout;
  demo_mode = s.demo_mode;
}

-- `RateLimiter(...)`
abbrev pub limits : Settings → Limits
limits s = record {
  writes = s.rate_limit_writes;
  reads = s.rate_limit_reads;
  window = s.rate_limit_window_seconds;
}
