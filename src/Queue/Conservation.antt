-- ===== src/Queue/Conservation.antt =====
-- Nothing is lost: every accepted event is acknowledged, dead-lettered with a line in the log, dropped
-- by `clear`, or still in the queue.
use feathr_events.Prelude.{
  ℕ, zero, suc, ◌+◌, ◌≡◌, refl, Option, none, some, Bool, length, arith, ◌∷◌, [], ◌++◌, List, ok,
  err, Option-cases, Bool-cases, inl, inr, leb, Result, nat_eq, ap, ◌∙◌,
}
use feathr_events.Models.{Event}
use feathr_events.Dict
use feathr_events.Dict.{IsDict, values}
use feathr_events.Queue.{
  Queue, QueueError, Config, Entry, dead_lettering, init, send, receive, delete, fail, stamp,
  change_visibility, lend, hand_out, bury, lapse, discard_lines, clear, pending_events,
}
use feathr_events.Queue.Invariant.{Inv, init-Inv}
use feathr_events.Queue.Sweeping.{sweep-keeps, KeptBySettling}
use feathr_events.Queue.Returning.{live_entry}
use feathr_events.Queue.Tally.{
  tally, tally_entries, buried, tally-append, buried-append, tally-set_old, tally-set_new,
  tally-delete,
}
use feathr_events.Queue.History.{
  Call, sends, receives, deletes, changes, fails, clears, perform, after, queue_of, perform-Answers,
  Answers-Inv,
}

-- A queue with the events that it accepted, those acknowledged by `delete`, and those that `clear`
-- dropped.
pub record Ledger : Type 0 where
  pub queue : Queue
  pub accepted : List Event
  pub acknowledged : List Event
  pub dropped : List Event

abbrev pub opening : Ledger
opening = record { queue = init; accepted = []; acknowledged = []; dropped = [] }

abbrev pub event_of : Option Entry → List Event
event_of none = []
event_of (some e) = e.event ∷ []

abbrev pub event_behind : Option ℕ → List (ℕ × Entry) → List Event
event_behind none d = []
event_behind (some m) d = event_of (Dict.get m d)

abbrev pub if_ok : Result QueueError Queue → List Event → List Event
if_ok (ok q) es = es
if_ok (err e) es = []

abbrev pub taken_in : (ℕ → ℕ) → Config → Call → Queue → List Event
taken_in uuid c (sends e) q = if_ok (perform uuid c (sends e) q) (e ∷ [])
taken_in uuid c _ q = []

abbrev pub acked : Call → Queue → List Event
acked (deletes h) q = event_behind (Dict.get h q.inflight) q.entries
acked _ q = []

abbrev pub dropped_by : Call → Queue → List Event
dropped_by clears q = pending_events q
dropped_by _ q = []

unfoldable pub book : (ℕ → ℕ) → Config → Call → Ledger → Ledger
book uuid c call l = record {
  queue = after l.queue (perform uuid c call l.queue);
  accepted = taken_in uuid c call l.queue ++ l.accepted;
  acknowledged = acked call l.queue ++ l.acknowledged;
  dropped = dropped_by call l.queue ++ l.dropped;
}

unfoldable pub books : (ℕ → ℕ) → Config → List Call → Ledger → Ledger
books uuid c [] l = l
books uuid c (call ∷ calls) l = books uuid c calls (book uuid c call l)

module _ (f : Event → Bool) where
  -- Events in the queue, and events buried.
  abbrev pub held_in : Queue → ℕ
  held_in q = tally_entries f q.entries + tally f (buried q.logged)

  pub init-held : held_in init ≡ 0
  unfolding init
  init-held = refl

  discard_lines-buried : (dlq : List Event) (e : Event) → tally f (buried (discard_lines dlq e)) ≡ 0
  unfolding discard_lines
  discard_lines-buried [] e = refl
  discard_lines-buried (x ∷ dlq) e = ground arith

  module _ (uuid : ℕ → ℕ) (c : Config) where
    settled-held : (k : ℕ) → KeptBySettling uuid c (λ q. held_in q ≡ k)
    unfolding bury lapse
    settled-held k q v h m entry on found same =
        elim (Bool-cases (leb c.max_receives entry.receive_count)) [
          | inl spent ↦ rw spent (
              omega (
                arith,
                same,
                tally-delete f m entry q.entries v.entries_dict found,
                buried-append f q.logged (
                    discard_lines q.dlq entry.event
                    ++ dead_lettering entry.event entry.receive_count ∷ []),
                buried-append f (discard_lines q.dlq entry.event)
                    (dead_lettering entry.event entry.receive_count ∷ []),
                discard_lines-buried q.dlq entry.event,
              ))
          | inr left ↦ rw left (
              omega (
                arith,
                same,
                tally-set_old f m entry (record entry { handle = none }) q.entries found refl,
              ))
        ]

    hand_out-held :
        (base now room : ℕ) (visible : List ℕ) (q : Queue)
        → held_in (hand_out uuid base now room visible q).0 ≡ held_in q
    unfolding hand_out lend
    hand_out-held base now zero visible q = refl
    hand_out-held base now (suc room) [] q = refl
    hand_out-held base now (suc room) (m ∷ visible) q = elim (Option-cases (Dict.get m q.entries)) [
      | inl missing ↦ rw (missing, hand_out) (hand_out-held base now (suc room) visible q)
      | inr (e, found) ↦
          rw (found, hand_out)
            (hand_out-held base now room visible (lend uuid base now m e q)
              ∙ ap (λ t. t + tally f (buried q.logged))
                  (tally-set_old f m e
                    (record e {
                      receive_count = e.receive_count + 1;
                      deadline = now + base;
                      handle = some (uuid q.drawn);
                    })
                    q.entries found refl))
    ]

    receive-held :
        (swept now max_n : ℕ) (timeout : Option ℕ) (q : Queue)
        → Inv uuid c q
        → held_in (after q (queue_of (receive uuid c swept now max_n timeout q))) ≡ held_in q
    unfolding receive
    receive-held swept now max_n timeout q v =
        let (r, run, w, same, _) =
          sweep-keeps uuid c (λ p. held_in p ≡ held_in q) (settled-held (held_in q)) swept q v
            refl in
        rw run (hand_out-held _ now max_n r.visible r ∙ same)

    stamp-held :
        (m deadline : ℕ) (e : Entry) (q : Queue)
        → Dict.get m q.entries ≡ some e
        → held_in (stamp m deadline e q) ≡ held_in q
    unfolding stamp
    stamp-held m deadline e q found =
        omega (arith, tally-set_old f m e (record e { deadline = deadline }) q.entries found refl)

    change_visibility-held :
        (now h seconds : ℕ) (q : Queue)
        → Inv uuid c q
        → held_in (after q (change_visibility now h seconds q)) ≡ held_in q
    unfolding change_visibility
    change_visibility-held now h seconds q v = elim (Option-cases (Dict.get h q.inflight)) [
      | inl dead ↦ rw dead refl
      | inr (m, live) ↦
          let (e, found, _) = live_entry uuid c q v h m live in
          rw (live, found) (stamp-held m (now + seconds) e q found)
    ]

    fail-held :
        (now h : ℕ) (q : Queue) → Inv uuid c q → held_in (after q (fail c now h q)) ≡ held_in q
    unfolding fail
    fail-held now h q v = elim (Option-cases (Dict.get h q.inflight)) [
      | inl dead ↦ rw dead refl
      | inr (m, live) ↦
          let (e, found, _) = live_entry uuid c q v h m live in
          rw (live, found) (stamp-held m _ e q found)
    ]

    delete-held :
        (h : ℕ) (q : Queue)
        → Inv uuid c q
        → tally f (event_behind (Dict.get h q.inflight) q.entries) + held_in (after q (delete h q))
          ≡ held_in q
    unfolding delete
    delete-held h q v = elim (Option-cases (Dict.get h q.inflight)) [
      | inl dead ↦ rw dead (omega arith)
      | inr (m, live) ↦
          let (e, found, _) = live_entry uuid c q v h m live in
          rw (live, found) (omega (arith, tally-delete f m e q.entries v.entries_dict found))
    ]

    send-held :
        (e : Event) (q : Queue)
        → Inv uuid c q
        → held_in (after q (send uuid c e q))
          ≡ tally f (if_ok (send uuid c e q) (e ∷ [])) + held_in q
    unfolding send
    send-held e q v = elim (Bool-cases (leb c.maxsize (length q.entries))) [
      | inl full ↦ rw full (omega arith)
      | inr room ↦ rw room (
          omega (
            arith,
            tally-set_new f (uuid q.drawn)
                (record { event = e; receive_count = 0; handle = none; deadline = 0 }) q.entries
                (v.fresh_entries q.drawn (omega arith)),
          ))
    ]

    -- One call, in the numbers of events it takes in, acknowledges and drops.
    pub perform-held :
        (call : Call) (q : Queue)
        → Inv uuid c q
        → held_in q + tally f (taken_in uuid c call q)
          ≡ held_in (after q (perform uuid c call q))
            + tally f (acked call q)
            + tally f (dropped_by call q)
    unfolding perform clear pending_events
    perform-held (sends e) q v = omega (arith, send-held e q v)
    perform-held (receives swept now max_n timeout) q v =
        omega (arith, receive-held swept now max_n timeout q v)
    perform-held (deletes h) q v = omega (arith, delete-held h q v)
    perform-held (changes now h seconds) q v =
        omega (arith, change_visibility-held now h seconds q v)
    perform-held (fails now h) q v = omega (arith, fail-held now h q v)
    perform-held clears q v = omega arith

  abbrev Balanced : Ledger → Type 0
  Balanced l = tally f l.accepted ≡ tally f l.acknowledged + tally f l.dropped + held_in l.queue

  module _ (uuid : ℕ → ℕ) (injective : (i j : ℕ) → uuid i ≡ uuid j → i ≡ j) (c : Config) where
    book-Balanced :
        (call : Call) (l : Ledger) → Inv uuid c l.queue → Balanced l → Balanced (book uuid c call l)
    unfolding book
    book-Balanced call l v b = omega (
      arith,
      b,
      perform-held uuid c call l.queue v,
      tally-append f (taken_in uuid c call l.queue) l.accepted,
      tally-append f (acked call l.queue) l.acknowledged,
      tally-append f (dropped_by call l.queue) l.dropped,
    )

    books-Balanced :
        (calls : List Call) (l : Ledger)
        → Inv uuid c l.queue
        → Balanced l
        → Balanced (books uuid c calls l)
    unfolding books book
    books-Balanced [] l v b = b
    books-Balanced (call ∷ calls) l v b =
        books-Balanced calls (book uuid c call l)
          (Answers-Inv uuid injective c _ l.queue _ v
            (perform-Answers uuid injective c call l.queue v))
          (book-Balanced call l v b)

-- After any history of calls, whatever kind of event one counts: as many were accepted as were
-- acknowledged by `delete`, dropped by `clear`, named in the log as dead-lettered, or are pending.
pub events_conserved :
    (uuid : ℕ → ℕ)
    → ((i j : ℕ) → uuid i ≡ uuid j → i ≡ j)
    → (c : Config) (calls : List Call) (f : Event → Bool)
    → tally f (books uuid c calls opening).accepted
      ≡ tally f (books uuid c calls opening).acknowledged
        + tally f (books uuid c calls opening).dropped
        + tally f (pending_events (books uuid c calls opening).queue)
        + tally f (buried (books uuid c calls opening).queue.logged)
unfolding pending_events init
events_conserved uuid injective c calls f =
    omega (arith, books-Balanced f uuid injective c calls opening (init-Inv uuid c) refl)
