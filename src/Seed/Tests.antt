-- ===== src/Seed/Tests.antt =====
-- The theorem on scripts/seed.py at a concrete run.
use feathr_events.Prelude.{
  ℕ, pos, Option, zero, suc, ◌+◌, ◌≡◌, ◌↔◌, refl, List, [], ◌∷◌, some, true, false, map, arith,
}
use feathr_events.Models.{Text}
use feathr_events.Queue.{default_config, init}
use feathr_events.Ingest.{now}
use feathr_events.Seed.{Tally, Depth, main, exit_code, healthy, reported}
use feathr_events.Seed.Events.{Draws}
use feathr_events.Seed.Run.{
  Attempt, lost, elsewhere, limited, arrived, reply_of, count, is_accepted, is_failed, Stops,
  seed_reports,
}

abbrev draws : Draws
draws = record {
  roll = 96_500_000;
  age = pos 60_000_000;
  browser = 4;
  device = 0;
  country = 1;
  campaign = some 2;
  amount = 57 ∷ 46 ∷ 53 ∷ [];
  plan = 0;
  referred = false;
  code = 0;
  retryable = true;
  quantity = 2;
  heavy = true;
  heavy_user = 3;
  light_user = 10;
  path = 0;
  product = 240;
}

-- One request is lost, one is answered by a proxy, one refused by the limiter, and the signup of the user u-3 finds an empty queue.
abbrev tries : List Attempt
tries =
    lost
    ∷ elsewhere 502
    ∷ limited
    ∷ arrived (record {
      clock = 100_000_000;
      checked = 99_000_000;
      stamped = 99_000_500;
      id = 7;
      draws = draws;
      queue = init;
    })
    ∷ []

-- The queue is busy at the first request only.
abbrev polls : ℕ → Depth
polls zero = record { visible = 1; in_flight = 0; dlq = 0 }
polls (suc k) = record { visible = 0; in_flight = 0; dlq = 2 }

-- Every text is a URL.
abbrev accepts : Text → Option Text
accepts s = some s

abbrev same : Text → Text
same s = s

seed_reports_example :
    let end =
      main
        (pos 25)
        healthy
        (map (reply_of same accepts (λ n. n) default_config) tries)
        (λ i. some (polls i)) in
    (t : Tally) × (m : ℕ) × (end ≡ reported t (polls m).dlq)
    × (t.sent
        ≡ count same accepts
            (λ n. n)
            default_config
            (is_accepted same accepts (λ n. n) default_config)
            tries)
    × (t.failed
        ≡ count same accepts
            (λ n. n)
            default_config
            (is_failed same accepts (λ n. n) default_config)
            tries)
    × (t.sent + t.refused + t.failed ≡ 4)
    × ((exit_code end ≡ some 0) ↔ (
        count same accepts
          (λ n. n)
          default_config
          (is_failed same accepts (λ n. n) default_config)
          tries
        ≡ 0))
    × Stops polls 600 0 m
unfolding now
seed_reports_example =
    seed_reports same accepts (λ n. n) default_config 24 tries polls (λ s h. refl)
      (tt, (tt, (tt, ((omega arith, omega arith, (_, refl)), tt))))
