-- ===== src/Queue/Loans.antt =====
-- Loans: while one stands nobody else is given the message, once it is over its handle is dead, and
-- `fail` makes it stand for the backoff.
use feathr_events.Prelude.{
  ℕ, zero, suc, ◌+◌, ◌∙◌, ap, ◌≤◌, ◌<◌, ◌≡◌, ◌≢◌, refl, Option, none, some, false, arith, ◌∷◌, [],
  List, contains, ok, err, Option-cases, inl, inr, leb, if◌then◌else◌, nat_eq, nat_beq_iff,
}
use feathr_events.Dict
use feathr_events.Dict.Laws.{get-set}
use feathr_events.Queue.{
  Queue, receipt_handle_is_invalid, Config, Entry, Message, sweep, receive, delete, fail, stamp,
  lend, hand_out, or_default, backoff_for,
}
use feathr_events.Queue.Invariant.{Inv}
use feathr_events.Queue.Sweeping.{sweep-Inv}
use feathr_events.Queue.Settling.{released}
use feathr_events.Queue.Returning.{stamp-Inv, get-stamp}

module _ (uuid : ℕ → ℕ) where
  -- Handing out messages changes the entries of the visible list only.
  hand_out-others :
      (base now room : ℕ) (visible : List ℕ) (q : Queue) (j : ℕ)
      → contains j visible ≡ false
      → Dict.get j (hand_out uuid base now room visible q).0.entries ≡ Dict.get j q.entries
  unfolding hand_out lend
  hand_out-others base now zero visible q j out = refl
  hand_out-others base now (suc room) [] q j out = refl
  hand_out-others base now (suc room) (m ∷ visible) q j out =
      elim (Option-cases (Dict.get m q.entries)) [
        | inl missing ↦
            rw (missing, hand_out) (hand_out-others base now (suc room) visible q j (ground arith))
        | inr (entry, found) ↦
            rw (found, hand_out)
              (ground (
                arith,
                hand_out-others base now room visible (lend uuid base now m entry q) j,
                get-set m j
                    (record entry {
                      receive_count = entry.receive_count + 1;
                      deadline = now + base;
                      handle = some (uuid q.drawn);
                    })
                    q.entries,
                nat_beq_iff j m,
                nat_beq_iff m j,
              ))
      ]

  -- Handing out messages adds loans under new handles only.
  hand_out-handles :
      (base now room : ℕ) (visible : List ℕ) (q : Queue) (h : ℕ)
      → ((n : ℕ) → q.drawn ≤ n → uuid n ≢ h)
      → Dict.get h (hand_out uuid base now room visible q).0.inflight ≡ Dict.get h q.inflight
  unfolding hand_out lend
  hand_out-handles base now zero visible q h old = refl
  hand_out-handles base now (suc room) [] q h old = refl
  hand_out-handles base now (suc room) (m ∷ visible) q h old =
      elim (Option-cases (Dict.get m q.entries)) [
        | inl missing ↦
            rw (missing, hand_out) (hand_out-handles base now (suc room) visible q h old)
        | inr (entry, found) ↦
            rw (found, hand_out)
              (hand_out-handles base now room visible (lend uuid base now m entry q) h
                  (λ n le. old n (omega arith))
                ∙ ground (
                  arith,
                  get-set (uuid q.drawn) h m q.inflight,
                  old q.drawn,
                  nat_beq_iff (uuid q.drawn) h,
                ))
      ]

  module _ (c : Config) (q : Queue) (v : Inv uuid c q) (swept now max_n : ℕ)
      (timeout : Option ℕ) where
    -- `receive` returns the sweep followed by the handing out.
    pub receive_runs :
        (r : Queue)
        → sweep c swept q ≡ ok r
        → receive uuid c swept now max_n timeout q
          ≡ ok (hand_out uuid (or_default timeout c.visibility_timeout) now max_n r.visible r)
    unfolding receive
    receive_runs r same = rw same

    module _ (h m : ℕ) (e : Entry) (live : Dict.get h q.inflight ≡ some m)
        (found : Dict.get m q.entries ≡ some e) where
      old_handle : (n : ℕ) → q.drawn ≤ n → uuid n ≢ h
      old_handle n le same =
          ground (arith, v.fresh_inflight n, ap (λ k. Dict.get k q.inflight) same)

      mine : e.handle ≡ some h
      mine = ground (arith, v.lent h m)

      -- On a valid queue `receive` returns. A loan of which the deadline is not reached when the
      -- queue is swept is left alone: the message keeps its entry (count, deadline and handle), and
      -- its handle stays live.
      pub receive_respects_loan :
          swept < e.deadline
          → (p : Queue) × (out : List Message) × (receive uuid c swept now max_n timeout q
              ≡ ok (p, out))
            × (Dict.get m p.entries ≡ some e)
            × (Dict.get h p.inflight ≡ some m)
      receive_respects_loan early =
          let (r, swept_to, w, (same, _, _), spec) = sweep-Inv uuid c swept q v in
          let stays : Dict.get m r.entries ≡ some e = ground (arith, spec m, mine) in
          let hidden : contains m r.visible ≡ false = ground (arith, w.waiting m, mine) in
          let base = or_default timeout c.visibility_timeout in
          (
            _,
            _,
            receive_runs r swept_to,
            hand_out-others base now max_n r.visible r m hidden ∙ stays,
            hand_out-handles base now max_n r.visible r h (λ n le. old_handle n (omega arith))
                ∙ w.held h m (ground (arith, mine)),
          )

      -- On a valid queue, once the deadline is reached when the queue is swept, `receive` returns and
      -- the old handle is dead: `delete` with it raises `ReceiptHandleIsInvalid`.
      pub receive_kills_handle :
          e.deadline ≤ swept
          → (p : Queue) × (out : List Message) × (receive uuid c swept now max_n timeout q
              ≡ ok (p, out))
            × (delete h p ≡ err receipt_handle_is_invalid)
      unfolding delete
      receive_kills_handle late =
          let (r, swept_to, w, (same, _, _), spec) = sweep-Inv uuid c swept q v in
          let lent =
            hand_out-handles (or_default timeout c.visibility_timeout) now max_n r.visible r h
              (λ n le. old_handle n (omega arith)) in
          let gone : Dict.get h r.inflight ≡ none = elim (Option-cases (Dict.get h r.inflight)) [
            | inl dead ↦ dead
            | inr (j, on) ↦ elim (Option-cases (Dict.get j q.entries)) [
              | inl missing ↦ absurd (ground (arith, w.lent h j, spec j))
              | inr (x, there) ↦ ground (arith, w.lent h j, spec j, spec m, v.held h j, mine)
            ]
          ] in
          (_, _, receive_runs r swept_to, rw (lent ∙ gone) refl)

  -- On a valid queue `fail` with a live handle succeeds, and then any sweep succeeds: before the
  -- backoff of the delivery has passed it leaves the message with its consumer, and from then on it
  -- ends the loan (the message is visible again, or gone if its deliveries are used up).
  pub fail_holds_backoff :
      (c : Config) (q : Queue) (now h swept m : ℕ) (e : Entry)
      → Inv uuid c q
      → Dict.get h q.inflight ≡ some m
      → Dict.get m q.entries ≡ some e
      → (p r : Queue) × (fail c now h q ≡ ok p)
        × (sweep c swept p ≡ ok r)
        × (Dict.get m r.entries ≡ (
            if leb (now + backoff_for c e.receive_count) swept
            then released c (record e { deadline = now + backoff_for c e.receive_count })
            else some (record e { deadline = now + backoff_for c e.receive_count })))
  unfolding fail
  fail_holds_backoff c q now h swept m e v live found =
      let p : Queue = stamp m (now + backoff_for c e.receive_count) e q in
      let held = record e { deadline = now + backoff_for c e.receive_count } in
      let (r, swept_to, w, _, spec) =
        sweep-Inv uuid c swept p (stamp-Inv uuid c q v h m e live found _) in
      (
        p,
        r,
        rw (live, found),
        swept_to,
        ground (arith, spec m, v.lent h m, get-stamp m (now + backoff_for c e.receive_count) e q),
      )
