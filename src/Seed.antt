-- ===== src/Seed.antt =====
-- scripts/seed.py: a run that sends random events to the endpoint and waits until the worker has drained the
-- queue. What each request gets is an argument, in the order in which the answers come.
pub mod Words
pub mod Events
pub mod Valid
pub mod Run
mod Tests
use feathr_events.Prelude.{
  ℕ, ℤ, pos, negsuc, zero, suc, ◌+◌, List, [], ◌∷◌, Option, none, some, Bool, true, false, ◌&&◌,
  nat_beq, if◌then◌else◌,
}

-- What a request to post gets: `httpx.HTTPError`, or an answer with a status.
pub data Reply : Type 0 where
  http_error : Reply
  status : ℕ → Reply

pub record Tally : Type 0 where
  pub sent : ℕ
  pub refused : ℕ
  pub failed : ℕ

-- `one`, of the reply to its request
unfoldable pub one : Reply → Tally → Tally
one http_error t = record t { failed = t.failed + 1 }
one (status n) t =
    if nat_beq n 202
    then record t { sent = t.sent + 1 }
    else if nat_beq n 429
    then record t { refused = t.refused + 1 }
    else record t { failed = t.failed + 1 }

unfoldable pub gather : List Reply → Tally → Tally
unfolding one
gather [] t = t
gather (r ∷ rs) t = gather rs (one r t)

-- What `GET /health` says of the queue.
pub record Depth : Type 0 where
  pub visible : ℕ
  pub in_flight : ℕ
  pub dlq : ℕ

abbrev pub is_idle : Depth → Bool
is_idle d = nat_beq d.visible 0 && nat_beq d.in_flight 0

-- The loop that waits, from the request with the number `k` on: how many requests have been made when it
-- ends, or `none` if one of them raised, which nothing catches.
unfoldable pub wait_for_drain : (polls : ℕ → Option Depth) → (rounds k : ℕ) → Option ℕ
wait_for_drain polls zero k = some k
wait_for_drain polls (suc n) k =
    let further = wait_for_drain polls n (k + 1) in
    elim (polls k) [ none ↦ none | some d ↦ if is_idle d then some (k + 1) else further ]

-- How a run ends: with an exception, without the API, or with its report, of the tally and of the
-- messages in the dead-letter queue. Or it does not end, and waits for a semaphore without permits.
pub data Ended : Type 0 where
  died : Ended
  cannot_reach : Ended
  reported : Tally → (dlq : ℕ) → Ended
  stuck : Ended

abbrev report : Tally → Option Depth → Ended
report t none = died
report t (some d) = reported t d.dlq

abbrev waited : (polls : ℕ → Option Depth) → Tally → Option ℕ → Ended
waited polls t none = died
waited polls t (some k) = report t (polls k)

-- What the first request of `/health` gets: `httpx.HTTPError`, an answer that cannot be read, or its
-- report.
pub data First : Type 0 where
  no_api : First
  unreadable : First
  healthy : First

-- `main` after its first request.
unfoldable pub seed : List Reply → (polls : ℕ → Option Depth) → Ended
unfolding gather wait_for_drain
seed replies polls =
    waited polls (gather replies (record { sent = 0; refused = 0; failed = 0 }))
      (wait_for_drain polls 600 0)

-- Without permits no request is sent; none are needed where there is nothing to send.
abbrev pub seed_without_permits : List Reply → (polls : ℕ → Option Depth) → Ended
seed_without_permits [] polls = seed [] polls
seed_without_permits (r ∷ rs) polls = stuck

abbrev pub after_health : First → (healthy : Ended) → Ended
after_health no_api end = cannot_reach
after_health unreadable end = died
after_health healthy end = end

-- `main`: `--concurrency`, which the semaphore refuses below 0, the first request, the replies to the
-- events, and the answers of `/health` after them.
unfoldable pub main : (concurrency : ℤ) → First → List Reply → (polls : ℕ → Option Depth) → Ended
unfolding seed
main (negsuc n) first replies polls = died
main (pos zero) first replies polls = after_health first (seed_without_permits replies polls)
main (pos (suc n)) first replies polls = after_health first (seed replies polls)

-- `none` where the run does not end.
unfoldable pub exit_code : Ended → Option ℕ
exit_code died = some 1
exit_code cannot_reach = some 2
exit_code (reported t dlq) = some (if nat_beq t.failed 0 then 0 else 1)
exit_code stuck = none
