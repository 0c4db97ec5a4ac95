-- ===== src/RateLimit/Tests.antt =====
-- The theorems on app/ratelimit.py at concrete tables and requests.
use feathr_events.Prelude.{
  ◌+◌, ◌*◌, ◌≡◌, ◌≤◌, refl, true, [], ◌∷◌, some, length, arith, if◌then◌else◌,
}
use feathr_events.Models.{Text}
use feathr_events.Dict
use feathr_events.Queue.{ticks}
use feathr_events.RateLimit.{
  read, write, key_eq, key_beq, Limits, limit, Bucket, Buckets, take, check, should_log, bucket_for,
  evict_if_needed, max_clients,
}
use feathr_events.RateLimit.Tokens.{serve, IsMonotone, last_of}
use feathr_events.RateLimit.Bursts.{bursts, bursts_are_best}
use feathr_events.RateLimit.Eviction.{asked, check_remembers, check_isolated}
use feathr_events.RateLimit.Middleware.{
  Scope, passed_on, too_many, client_of, classify, retry_after, rationed, respond,
}
use feathr_events.RateLimit.Refusal.{retry_is_admitted}

-- One write in two seconds, two reads.
abbrev limits : Limits
limits = record { writes = 1; reads = 2; window = 2_000 }

abbrev full : Bucket
full = record { tokens = 2_000; updated = 0; suppressed = 0; logged_at = 0 }

-- Two requests in ten seconds, none spent.
abbrev fresh : Bucket
fresh = record { tokens = 20_000; updated = 0; suppressed = 0; logged_at = 0 }

abbrev empty : Bucket
empty = record { tokens = 0; updated = 0; suppressed = 3; logged_at = 5 }

bursts_are_best_example :
    ((serve 2 10_000 (0 ∷ 1 ∷ 2_500 ∷ []) fresh).1 ≤ (4 + 1) * 2)
    × ((serve 2 10_000 (bursts 2 10_000 4 0) fresh).1 ≡ (4 + 1) * 2)
    × IsMonotone 0 (bursts 2 10_000 4 0)
    × (last_of 0 (bursts 2 10_000 4 0) ≤ 0 + 4 * 10_000)
bursts_are_best_example =
    bursts_are_best 2 10_000 4 fresh (0 ∷ 1 ∷ 2_500 ∷ []) (omega arith) refl
      (omega arith, (omega arith, (omega arith, tt))) (omega arith)

check_remembers_example :
    (length (check limits 9 5 write []).0 ≤ max_clients)
    × (Dict.get (5, write) (check limits 9 5 write []).0 ≡ some (asked limits 9 5 write []))
unfolding limit
check_remembers_example = check_remembers limits 9 5 write [] (omega arith) (omega arith)

abbrev one_client : Buckets
one_client = ((6, read), full) ∷ []

check_isolated_example : Dict.get (6, read) (check limits 9 5 write one_client).0 ≡ (
    if key_beq (5, write) (6, read)
    then some (asked limits 9 5 write one_client)
    else Dict.get (6, read) one_client)
unfolding Dict.get
check_isolated_example =
    check_isolated limits 9 5 write one_client (6, read) (refl, tt) (omega arith)

abbrev same_text : Text → Text
same_text s = s

-- GET /e, from the client 1, forwarded for "7, 8"
abbrev request : Scope
request = record {
  is_http = true;
  method = 71 ∷ 69 ∷ 84 ∷ [];
  path = 47 ∷ 101 ∷ [];
  headers =
      (
        120 ∷ 45 ∷ 102 ∷ 111 ∷ 114 ∷ 119 ∷ 97 ∷ 114 ∷ 100 ∷ 101 ∷ 100 ∷ 45 ∷ 102 ∷ 111 ∷ 114 ∷ [],
        55 ∷ 44 ∷ 32 ∷ 56 ∷ [],
      )
      ∷ [];
  client = some (49 ∷ []);
}

-- The table after two reads, which spend all that there is.
abbrev spent : Buckets
spent =
    (respond same_text limits true 0 0 request (respond same_text limits true 0 0 request []).0).0

refused : (respond same_text limits true 100 101 request spent).1 ≡ too_many read 1 2
unfolding respond rationed classify client_of check take should_log bucket_for evict_if_needed
    retry_after limit Dict.get Dict.set Dict.move_to_end
refused = refl

retry_is_admitted_example :
    (respond same_text limits true
      (100 + ticks 1)
      1_200
      request
      (respond same_text limits true 100 101 request spent).0).1
    ≡ passed_on
unfolding limit classify
retry_is_admitted_example =
    retry_is_admitted same_text limits true 100 101 1_200 request read 1 2 spent (omega arith)
      (omega arith) refl refl refused
