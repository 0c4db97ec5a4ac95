-- ===== src/Queue/Lifecycle/Moves.antt =====
-- Every call of app/queue.py moves every message along its state machine.
use feathr_events.Prelude.{
  ℕ, ◌+◌, ◌≡◌, Option, some, length, arith, Option-cases, Bool-cases, inl, inr, leb, nat_eq,
  nat_beq, nat_beq_iff, ap,
}
use feathr_events.Models.{Event}
use feathr_events.Dict
use feathr_events.Dict.Laws.{get-set, get-delete}
use feathr_events.Queue.{
  Queue, Config, Entry, send, receive, delete, fail, change_visibility, stamp, clear,
}
use feathr_events.Queue.Invariant.{Inv}
use feathr_events.Queue.Sweeping.{sweep-Inv}
use feathr_events.Queue.Returning.{live_entry}
use feathr_events.Queue.Loans.{receive_runs}
use feathr_events.Queue.History.{
  Call, sends, receives, deletes, changes, fails, clears, perform, after, queue_of,
}
use feathr_events.Queue.Lifecycle.{
  receive-Move, Place, absent, visible, invisible, place, stay, arrive, ack, extend, back_off, drop,
  hand_out-Lent, Move_eq, Move,
}

module _ (uuid : ℕ → ℕ) (c : Config) (q : Queue) (v : Inv uuid c q) (j : ℕ) where
  abbrev before : Place
  before = place (Dict.get j q.entries)

  abbrev placed : Queue → Place
  placed p = place (Dict.get j p.entries)

  receives-Move :
      (swept now max_n : ℕ) (timeout : Option ℕ)
      → Move c
          (receives swept now max_n timeout)
          before
          (placed (after q (queue_of (receive uuid c swept now max_n timeout q))))
  receives-Move swept now max_n timeout =
      let (r, run, w, _, spec) = sweep-Inv uuid c swept q v in
      rw (receive_runs uuid c q v swept now max_n timeout r run) (
        receive-Move c swept now max_n timeout (Dict.get j q.entries) (Dict.get j r.entries) _
          (spec j)
          (hand_out-Lent uuid _ now max_n r.visible r w.visible_nodup
            (λ m h. ground (arith, w.waiting m)) j))

  sends-Move : (e : Event) → Move c (sends e) before (placed (after q (send uuid c e q)))
  unfolding send
  sends-Move e = elim (Bool-cases (leb c.maxsize (length q.entries))) [
    | inl full ↦ rw full stay
    | inr room ↦
        rw (room, get-set)
          (elim (Bool-cases (nat_beq (uuid q.drawn) j)) [
            | inl here ↦
                let same : uuid q.drawn ≡ j = (nat_beq_iff (uuid q.drawn) j).0 here in
                Move_eq c _ _ absent (visible 0)
                  (ground (arith, ap (λ k. Dict.get k q.entries) same, v.fresh_entries q.drawn))
                  (ground arith) arrive
            | inr other ↦ rw other stay
          ])
  ]

  deletes-Move : (h : ℕ) → Move c (deletes h) before (placed (after q (delete h q)))
  unfolding delete
  deletes-Move h = elim (Option-cases (Dict.get h q.inflight)) [
    | inl dead ↦ rw dead stay
    | inr (m, live) ↦
        let (e, found, on) = live_entry uuid c q v h m live in
        rw (live, get-delete)
          (elim (Bool-cases (nat_beq m j)) [
            | inl here ↦
                let same : m ≡ j = (nat_beq_iff m j).0 here in
                Move_eq c _ _ (invisible h e.receive_count e.deadline) absent
                  (ground (arith, ap (λ k. Dict.get k q.entries) same)) (ground arith) ack
            | inr other ↦ rw other stay
          ])
  ]

  -- `change_visibility` and `fail`: only the deadline of the message behind the handle changes.
  stamped-Move :
      (call : Call) (m h deadline : ℕ) (e : Entry)
      → Dict.get m q.entries ≡ some e
      → e.handle ≡ some h
      → Move c call (invisible h e.receive_count e.deadline) (invisible h e.receive_count deadline)
      → Move c call before (placed (stamp m deadline e q))
  unfolding stamp
  stamped-Move call m h deadline e found on move = rw get-set (elim (Bool-cases (nat_beq m j)) [
    | inl here ↦
        let same : m ≡ j = (nat_beq_iff m j).0 here in
        Move_eq c _ _ (invisible h e.receive_count e.deadline)
          (invisible h e.receive_count deadline)
          (ground (arith, ap (λ k. Dict.get k q.entries) same)) (ground arith) move
    | inr other ↦ rw other stay
  ])

  changes-Move :
      (now h seconds : ℕ)
      → Move c (changes now h seconds) before (placed (after q (change_visibility now h seconds q)))
  unfolding change_visibility
  changes-Move now h seconds = elim (Option-cases (Dict.get h q.inflight)) [
    | inl dead ↦ rw dead stay
    | inr (m, live) ↦
        let (e, found, on) = live_entry uuid c q v h m live in
        rw (live, found) (stamped-Move _ m h (now + seconds) e found on extend)
  ]

  fails-Move : (now h : ℕ) → Move c (fails now h) before (placed (after q (fail c now h q)))
  unfolding fail
  fails-Move now h = elim (Option-cases (Dict.get h q.inflight)) [
    | inl dead ↦ rw dead stay
    | inr (m, live) ↦
        let (e, found, on) = live_entry uuid c q v h m live in
        rw (live, found) (stamped-Move _ m h _ e found on back_off)
  ]

  -- On a valid queue, every call leaves a message where it is or moves it along the state machine `Move`: from visible to
  -- invisible by a delivery, back when the deadline has come and deliveries are left, out of the
  -- queue when they are used up or the message is deleted; a handle moves its own message only.
  pub perform-Move : (call : Call) → Move c call before (placed (after q (perform uuid c call q)))
  unfolding perform clear Dict.get
  perform-Move (sends e) = sends-Move e
  perform-Move (receives swept now max_n timeout) = receives-Move swept now max_n timeout
  perform-Move (deletes h) = deletes-Move h
  perform-Move (changes now h seconds) = changes-Move now h seconds
  perform-Move (fails now h) = fails-Move now h
  perform-Move clears = drop
