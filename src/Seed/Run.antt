-- ===== src/Seed/Run.antt =====
-- A run of scripts/seed.py against `POST /events` of app/main.py.
use feathr_events.Prelude.{
  ℕ, pos, ◌||◌, zero, suc, ◌+◌, ◌≤◌, ◌≡◌, refl, List, [], ◌∷◌, some, Option, Bool, true, false,
  length, ltb, leb, All, arith, inl, inr, Bool-cases, nat_beq, if◌then◌else◌, map, ap, not, ◌⊎◌,
  ◌<◌, subst, sym, nat_beq_iff, ◌↔◌,
}
use feathr_events.Models.{Text, Event}
use feathr_events.Queue.{Queue, Config, send}
use feathr_events.Ingest.{
  now, future_skew, accepted, too_many_requests, unprocessable, ingest, answered,
}
use feathr_events.Ingest.Body.{Response, malformed, handled, post, read_body}
use feathr_events.Seed.{
  Reply, http_error, status, Tally, one, gather, Depth, is_idle, wait_for_drain, reported, healthy,
  main, seed, exit_code,
}
use feathr_events.Seed.Events.{Draws, make_event, dated}
use feathr_events.Seed.Valid.{IsPrice, KeepsPlain, make_event-valid, make_event-declared}

-- A request of the script that the endpoint handles: the clock of the script, the readings of the
-- endpoint's, the identifier that it draws, and the queue that it finds.
pub record Arrival : Type 0 where
  pub clock : ℕ
  pub checked : ℕ
  pub stamped : ℕ
  pub id : ℕ
  pub draws : Draws
  pub queue : Queue

-- What becomes of a request: it is lost on the way, refused by the rate limiter, handled, or answered
-- by something else, with a status.
pub data Attempt : Type 0 where
  lost : Attempt
  limited : Attempt
  arrived : Arrival → Attempt
  elsewhere : (n : ℕ) → Attempt

module _ (lower : Text → Text) (validate_url : Text → Option Text) (uuid : ℕ → ℕ) (c : Config) where
  abbrev pub status_of : Response lower validate_url → ℕ
  status_of malformed = 422
  status_of (handled (accepted i)) = 202
  status_of (handled (too_many_requests s)) = 429
  status_of (handled (unprocessable e)) = 422

  -- The time of the event is no further ahead than what the API allows, and its URL is one.
  abbrev pub Fair : Attempt → Type 0
  Fair lost = Unit
  Fair limited = Unit
  Fair (elsewhere n) = Unit
  Fair (arrived a) =
      (dated a.clock a.draws.age ≤ now a.checked + future_skew)
      × IsPrice a.draws.amount
      × ((url : Text) × (validate_url (make_event a.clock a.draws).source_url ≡ some url))

  abbrev pub reply_of : Attempt → Reply
  reply_of lost = http_error
  reply_of limited = status 429
  reply_of (elsewhere n) = status n
  reply_of (arrived a) = status (
      status_of
        (post lower validate_url uuid c a.checked a.stamped a.id (make_event a.clock a.draws)
          a.queue).1)

  abbrev bit : Bool → ℕ
  bit b = if b then 1 else 0

  -- Whether an attempt is accepted: it finds room in the queue, or something else says so.
  abbrev pub is_accepted : Attempt → Bool
  is_accepted lost = false
  is_accepted limited = false
  is_accepted (elsewhere n) = nat_beq n 202
  is_accepted (arrived a) = ltb (length a.queue.entries) c.maxsize

  -- Whether it gets no answer, or one that neither accepts nor refuses for now.
  abbrev pub is_failed : Attempt → Bool
  is_failed lost = true
  is_failed limited = false
  is_failed (elsewhere n) = not (nat_beq n 202 || nat_beq n 429)
  is_failed (arrived a) = false

  abbrev pub count : (Attempt → Bool) → List Attempt → ℕ
  count p [] = 0
  count p (a ∷ rest) = bit (p a) + count p rest

  answered-status :
      (i : ℕ) (e : Event) (q : Queue)
      → status_of (handled (answered lower i q (send uuid c e q)).1)
        ≡ (if ltb (length q.entries) c.maxsize then 202 else 429)
  unfolding send
  answered-status i e q = elim (Bool-cases (leb c.maxsize (length q.entries))) [
    | inl full ↦ rw (full, flip full) refl
    | inr room ↦ rw (room, flip room) refl
  ]
    where
      flip :
          {b : Bool}
          → leb c.maxsize (length q.entries) ≡ b
          → ltb (length q.entries) c.maxsize ≡ not b
      flip h = ground (arith, h)

  -- What the script makes is never refused as invalid.
  arrived-status :
      (a : Arrival)
      → KeepsPlain lower
      → Fair (arrived a)
      → reply_of (arrived a) ≡ status (if ltb (length a.queue.entries) c.maxsize then 202 else 429)
  unfolding post read_body ingest
  arrived-status a keeps (near, price, (url, parsed)) =
      rw
        (
          parsed,
          make_event-declared lower validate_url a.clock a.draws url,
          make_event-valid lower a.clock a.checked a.draws url keeps price near,
        )
        (ap status (answered-status a.id _ a.queue))

  -- What a reply changes in the tally.
  abbrev Counts : (accepts unanswered : Bool) → Tally → Reply → Type 0
  Counts accepts unanswered t r =
      let t' = one r t in
      (t'.sent ≡ t.sent + bit accepts)
      × (t'.failed ≡ t.failed + bit unanswered)
      × (t'.sent + t'.refused + t'.failed ≡ t.sent + t.refused + t.failed + 1)

  status-Counts :
      (room : Bool) (t : Tally) → Counts room false t (status (if room then 202 else 429))
  unfolding one
  status-Counts true t = (omega arith, omega arith, omega arith)
  status-Counts false t = (omega arith, omega arith, omega arith)

  other-Counts :
      (n : ℕ) (t : Tally)
      → Counts (nat_beq n 202) (not (nat_beq n 202 || nat_beq n 429)) t (status n)
  unfolding one
  other-Counts n t = elim (Bool-cases (nat_beq n 202)) [
    | inl accepts ↦ rw accepts (omega arith, omega arith, omega arith)
    | inr declines ↦ elim (Bool-cases (nat_beq n 429)) [
      | inl later ↦ rw (declines, later) (omega arith, omega arith, omega arith)
      | inr fails ↦ rw (declines, fails) (omega arith, omega arith, omega arith)
    ]
  ]

  one-Counts :
      (a : Attempt) (t : Tally)
      → KeepsPlain lower
      → Fair a
      → Counts (is_accepted a) (is_failed a) t (reply_of a)
  unfolding one
  one-Counts lost t keeps h = (omega arith, omega arith, omega arith)
  one-Counts limited t keeps h = (omega arith, omega arith, omega arith)
  one-Counts (elsewhere n) t keeps h = other-Counts n t
  one-Counts (arrived a) t keeps h =
      subst (Counts (is_accepted (arrived a)) false t) (sym (arrived-status a keeps h))
        (status-Counts (is_accepted (arrived a)) t)

  gather-counts :
      (tries : List Attempt) (t : Tally)
      → KeepsPlain lower
      → All Fair tries
      → let t' = gather (map reply_of tries) t in
        (t'.sent ≡ t.sent + count is_accepted tries)
        × (t'.failed ≡ t.failed + count is_failed tries)
        × (t'.sent + t'.refused + t'.failed ≡ t.sent + t.refused + t.failed + length tries)
  unfolding gather
  gather-counts [] t keeps h = (omega arith, omega arith, omega arith)
  gather-counts (a ∷ tries) t keeps h =
      let (sent, failed, sum) = one-Counts a t keeps h.0 in
      let (sent', failed', sum') = gather-counts tries (one (reply_of a) t) keeps h.1 in
      (omega (arith, sent, sent'), omega (arith, failed, failed'), omega (arith, sum, sum'))

-- Where a loop over requests that are answered, from the request with the number `k` on, has made `m` of them
-- when it ends.
abbrev pub Stops : (polls : ℕ → Depth) (n k m : ℕ) → Type 0
Stops polls n k m =
    (m ≤ k + n)
    × ((m ≡ k + n) ⊎ ((i : ℕ) × (m ≡ suc i) × (is_idle (polls i) ≡ true)))
    × ((i : ℕ) → k ≤ i → suc i < m → is_idle (polls i) ≡ false)

wait_for_drain-Stops :
    (polls : ℕ → Depth) (n k : ℕ)
    → (m : ℕ) × (wait_for_drain (λ i. some (polls i)) n k ≡ some m) × Stops polls n k m
unfolding wait_for_drain
wait_for_drain-Stops polls zero k =
    (k, refl, (omega arith, inl (omega arith), λ i h h'. ground (arith, h, h')))
wait_for_drain-Stops polls (suc n) k = elim (Bool-cases (is_idle (polls k))) [
  | inl idle ↦
      rw idle
        (k + 1, refl, (omega arith, inr (k, omega arith, idle), λ i h h'. ground (arith, h, h')))
  | inr busy ↦
      let (m, ends, (most, why, before)) = wait_for_drain-Stops polls n (k + 1) in
      rw busy (
        m,
        ends,
        (
          omega (arith, most),
          elim why [ inl end ↦ inl (omega (arith, end)) | inr found ↦ inr found ],
          λ i h h'. elim (Bool-cases (nat_beq i k)) [
            | inl same ↦
                subst (λ x. is_idle (polls x) ≡ false) (ground (arith, nat_beq_iff i k, same)) busy
            | inr other ↦ before i (ground (arith, nat_beq_iff i k, other, h)) h'
          ],
        ),
      )
]

exit_code-zero :
    (t : Tally) (dlq n : ℕ) → t.failed ≡ n → (exit_code (reported t dlq) ≡ some 0) ↔ (n ≡ 0)
unfolding exit_code
exit_code-zero t dlq n h = ground (arith, h)

module _ (lower : Text → Text) (validate_url : Text → Option Text) (uuid : ℕ → ℕ) (c : Config) where
  -- With at least one permit, and where the events are dated at most five minutes ahead of the API's clock,
  -- their URLs are URLs, their amounts are written with at most six characters, str.lower leaves small
  -- letters and underscores as they are, and /health is answered: a run ends with a report. It counts as
  -- sent the requests that found room in the queue, or that something else answered with 202, as failed
  -- those that got no answer or one of something else that is neither 202 nor 429, and every request
  -- once, so that none is refused as invalid; it exits with 0 if and only if none failed; and it has
  -- waited until the queue was idle for the first time, or for 600 rounds.
  pub seed_reports :
      (permits : ℕ) (tries : List Attempt) (polls : ℕ → Depth)
      → KeepsPlain lower
      → All (Fair lower validate_url uuid c) tries
      → let end =
          main
            (pos (suc permits))
            healthy
            (map (reply_of lower validate_url uuid c) tries)
            (λ i. some (polls i)) in
        (t : Tally) × (m : ℕ) × (end ≡ reported t (polls m).dlq)
        × (t.sent ≡ count lower validate_url uuid c (is_accepted lower validate_url uuid c) tries)
        × (t.failed ≡ count lower validate_url uuid c (is_failed lower validate_url uuid c) tries)
        × (t.sent + t.refused + t.failed ≡ length tries)
        × ((exit_code end ≡ some 0)
            ↔ (count lower validate_url uuid c (is_failed lower validate_url uuid c) tries ≡ 0))
        × Stops polls 600 0 m
  unfolding main seed
  seed_reports permits tries polls keeps fair =
      let start : Tally = record { sent = 0; refused = 0; failed = 0 } in
      let (sent, failed, sum) = gather-counts lower validate_url uuid c tries start keeps fair in
      let (m, ends, stops) = wait_for_drain-Stops polls 600 0 in
      rw ends (
        gather (map (reply_of lower validate_url uuid c) tries) start,
        m,
        refl,
        omega (arith, sent),
        omega (arith, failed),
        omega (arith, sum),
        exit_code-zero _ _ _ (omega (arith, failed)),
        stops,
      )
