-- ===== src/Queue/History.antt =====
-- Histories of calls of the queue's methods, each with its readings of the clock.
use feathr_events.Prelude.{
  ℕ, ◌+◌, ◌≡◌, refl, Option, none, some, length, arith, ◌∷◌, [], List, ok, err, Option-cases,
  Bool-cases, inl, inr, ◌>>=◌, leb, if◌then◌else◌, Result, nat_eq,
}
use feathr_events.Models.{Event}
use feathr_events.Dict
use feathr_events.Queue.{
  Queue, QueueError, queue_full, receipt_handle_is_invalid, Config, Message, init, send, receive,
  delete, change_visibility, fail, clear, stats,
}
use feathr_events.Queue.Invariant.{Inv, init-Inv}
use feathr_events.Queue.Sending.{sent-Inv}
use feathr_events.Queue.Lending.{hand_out-Inv}
use feathr_events.Queue.Sweeping.{sweep-Inv}
use feathr_events.Queue.Returning.{live_entry, stamp-Inv, deleted-Inv}

pub data Call : Type 0 where
  sends : Event → Call
  receives : (swept now max_n : ℕ) (visibility_timeout : Option ℕ) → Call
  deletes : (handle : ℕ) → Call
  changes : (now handle seconds : ℕ) → Call
  fails : (now handle : ℕ) → Call
  clears : Call

abbrev pub queue_of : Result QueueError (Queue × List Message) → Result QueueError Queue
queue_of r = do (q, out) ← r; ok q

unfoldable pub perform : (ℕ → ℕ) → Config → Call → Queue → Result QueueError Queue
perform uuid c (sends e) q = send uuid c e q
perform uuid c (receives swept now max_n timeout) q =
    queue_of (receive uuid c swept now max_n timeout q)
perform uuid c (deletes h) q = delete h q
perform uuid c (changes now h seconds) q = change_visibility now h seconds q
perform uuid c (fails now h) q = fail c now h q
perform uuid c clears q = ok (clear q)

-- A method that raises has changed nothing.
abbrev pub after : Queue → Result QueueError Queue → Queue
after q (ok p) = p
after q (err e) = q

unfoldable pub run : (ℕ → ℕ) → Config → List Call → Queue → Queue
run uuid c [] q = q
run uuid c (call ∷ calls) q = run uuid c calls (after q (perform uuid c call q))

-- What each call may answer: a full queue refuses a new event, a handle that is not live is refused.
abbrev pub handle_refusal : Option ℕ → Option QueueError
handle_refusal none = some receipt_handle_is_invalid
handle_refusal (some m) = none

abbrev pub refusal : Config → Call → Queue → Option QueueError
refusal c (sends e) q =
    if leb (stats c q).capacity ((stats c q).visible + (stats c q).in_flight)
    then some queue_full
    else none
refusal c (receives _ _ _ _) q = none
refusal c (deletes h) q = handle_refusal (Dict.get h q.inflight)
refusal c (changes _ h _) q = handle_refusal (Dict.get h q.inflight)
refusal c (fails _ h) q = handle_refusal (Dict.get h q.inflight)
refusal c clears q = none

-- The call answers as `refused` says, and a call that succeeds keeps the invariant.
abbrev pub Answers : (ℕ → ℕ) → Config → Option QueueError → Result QueueError Queue → Type 0
Answers uuid c refused (ok p) = (refused ≡ none) × Inv uuid c p
Answers uuid c refused (err e) = refused ≡ some e

module _ (uuid : ℕ → ℕ) (injective : (i j : ℕ) → uuid i ≡ uuid j → i ≡ j) (c : Config) where
  send-Answers :
      (e : Event) (q : Queue)
      → Inv uuid c q
      → Answers uuid c (refusal c (sends e) q) (send uuid c e q)
  unfolding send stats
  send-Answers e q v = elim (Bool-cases (leb c.maxsize (length q.entries))) [
    | inl full ↦ rw full (ground (arith, v.counted))
    | inr room ↦ rw room (ground (arith, v.counted), sent-Inv uuid injective c q v e (ground arith))
  ]

  receive-Answers :
      (swept now max_n : ℕ) (timeout : Option ℕ) (q : Queue)
      → Inv uuid c q
      → Answers uuid c none (queue_of (receive uuid c swept now max_n timeout q))
  unfolding receive
  receive-Answers swept now max_n timeout q v =
      let (p, run, w, _, _) = sweep-Inv uuid c swept q v in
      rw run (refl, hand_out-Inv uuid injective c _ now max_n p.visible p w)

  clear-Answers : (q : Queue) → Inv uuid c q → Answers uuid c none (ok (clear q))
  unfolding clear Dict.get
  clear-Answers q v = (
    refl,
    record {
      entries_dict = tt;
      inflight_dict = tt;
      visible_nodup = tt;
      waiting = λ m. refl;
      lent = λ h m e. ground arith;
      held = λ h m e. ground arith;
      counted = refl;
      bounded = omega arith;
      dlq_bounded = omega arith;
      within = λ m. tt;
      fresh_entries = λ n h. refl;
      fresh_inflight = λ n h. refl;
    },
  )

  delete-Answers :
      (h : ℕ) (q : Queue) → Inv uuid c q → Answers uuid c (refusal c (deletes h) q) (delete h q)
  unfolding delete
  delete-Answers h q v = elim (Option-cases (Dict.get h q.inflight)) [
    | inl dead ↦ rw dead refl
    | inr (m, live) ↦
        let (e, found, _) = live_entry uuid c q v h m live in
        rw live (refl, deleted-Inv uuid c q v h m e live found)
  ]

  change_visibility-Answers :
      (now h seconds : ℕ) (q : Queue)
      → Inv uuid c q
      → Answers uuid c (refusal c (deletes h) q) (change_visibility now h seconds q)
  unfolding change_visibility
  change_visibility-Answers now h seconds q v = elim (Option-cases (Dict.get h q.inflight)) [
    | inl dead ↦ rw dead refl
    | inr (m, live) ↦
        let (e, found, _) = live_entry uuid c q v h m live in
        rw (live, found) (refl, stamp-Inv uuid c q v h m e live found (now + seconds))
  ]

  fail-Answers :
      (now h : ℕ) (q : Queue)
      → Inv uuid c q
      → Answers uuid c (refusal c (deletes h) q) (fail c now h q)
  unfolding fail
  fail-Answers now h q v = elim (Option-cases (Dict.get h q.inflight)) [
    | inl dead ↦ rw dead refl
    | inr (m, live) ↦
        let (e, found, _) = live_entry uuid c q v h m live in
        rw (live, found) (refl, stamp-Inv uuid c q v h m e live found _)
  ]

  -- On a valid queue every call answers exactly as `refusal` says: `send` raises `QueueFull` if and
  -- only if the visible and the lent messages reach the capacity, a handle that is not live is
  -- refused, nothing else raises (a `KeyError` included), and a call that returns keeps the
  -- invariant.
  pub perform-Answers :
      (call : Call) (q : Queue)
      → Inv uuid c q
      → Answers uuid c (refusal c call q) (perform uuid c call q)
  unfolding perform
  perform-Answers (sends e) q v = send-Answers e q v
  perform-Answers (receives swept now max_n timeout) q v =
      receive-Answers swept now max_n timeout q v
  perform-Answers (deletes h) q v = delete-Answers h q v
  perform-Answers (changes now h seconds) q v = change_visibility-Answers now h seconds q v
  perform-Answers (fails now h) q v = fail-Answers now h q v
  perform-Answers clears q v = clear-Answers q v

  pub Answers-Inv :
      (refused : Option QueueError) (q : Queue) (r : Result QueueError Queue)
      → Inv uuid c q
      → Answers uuid c refused r
      → Inv uuid c (after q r)
  Answers-Inv refused q (ok p) v a = a.1
  Answers-Inv refused q (err e) v a = v

  run-keeps : (calls : List Call) (q : Queue) → Inv uuid c q → Inv uuid c (run uuid c calls q)
  unfolding run
  run-keeps [] q v = v
  run-keeps (call ∷ calls) q v =
      run-keeps calls (after q (perform uuid c call q))
        (Answers-Inv _ q _ v (perform-Answers call q v))

  -- After any history of calls from the empty queue the invariant holds, if identifiers are never
  -- drawn twice: the three structures agree, a message is visible or lent but not both, a live
  -- handle and its message point to each other, the queue holds at most `maxsize` messages and the
  -- dead letters their bound, and no message was delivered more than `max_receives` times (or once,
  -- if that is 0).
  pub run-init-Inv : (calls : List Call) → Inv uuid c (run uuid c calls init)
  run-init-Inv calls = run-keeps calls init (init-Inv uuid c)
