-- ===== src/Queue/Lifecycle.antt =====
-- The state machine of one message, as the head of app/queue.py draws it, with the deliveries counted
-- and the deadlines; and that every call moves every message along it.
pub mod Moves
use feathr_events.Prelude.{
  ℕ, zero, suc, ◌+◌, ◌≤◌, ◌<◌, ◌≡◌, refl, Option, none, some, true, length, arith, ◌∷◌, [], List,
  contains, IsNodup, Option-cases, Bool-cases, inl, inr, leb, nat_eq, nat_beq, nat_beq_iff, ap, ◌⊎◌,
  ◌∙◌,
}
use feathr_events.Models.{Event}
use feathr_events.Dict
use feathr_events.Dict.Laws.{get-set, get-delete}
use feathr_events.Queue.{
  Queue, Config, Entry, send, receive, delete, fail, change_visibility, stamp, clear, lend,
  hand_out, or_default, backoff_for,
}
use feathr_events.Queue.Invariant.{Inv, waits}
use feathr_events.Queue.Sweeping.{sweep-Inv, after_loan}
use feathr_events.Queue.Settling.{released}
use feathr_events.Queue.Returning.{live_entry}
use feathr_events.Queue.Loans.{receive_runs}
use feathr_events.Queue.History.{
  Call, sends, receives, deletes, changes, fails, clears, perform, after, queue_of,
}

-- Where a message is: not in the queue; visible after `n` deliveries; or lent under a handle, on its
-- `n`-th delivery, until a deadline.
pub data Place : Type 0 where
  absent : Place
  visible : (n : ℕ) → Place
  invisible : (handle n deadline : ℕ) → Place

abbrev pub place_of_entry : ℕ → ℕ → Option ℕ → Place
place_of_entry n d none = visible n
place_of_entry n d (some h) = invisible h n d

abbrev pub place : Option Entry → Place
place none = absent
place (some e) = place_of_entry e.receive_count e.deadline e.handle

-- The moves of one message at one call.
pub data Move (c : Config) : Call → Place → Place → Type 0 where
  stay : {call : Call} {p : Place} → Move c call p p
  arrive : {e : Event} → Move c (sends e) absent (visible 0)
  lapse :
      {swept now max_n h n d : ℕ} {timeout : Option ℕ}
      → d ≤ swept
      → n < c.max_receives
      → Move c (receives swept now max_n timeout) (invisible h n d) (visible n)
  bury :
      {swept now max_n h n d : ℕ} {timeout : Option ℕ}
      → d ≤ swept
      → c.max_receives ≤ n
      → Move c (receives swept now max_n timeout) (invisible h n d) absent
  deliver :
      {swept now max_n h n : ℕ} {timeout : Option ℕ}
      → Move c
          (receives swept now max_n timeout)
          (visible n)
          (invisible h (n + 1) (now + or_default timeout c.visibility_timeout))
  deliver_again :
      {swept now max_n h n d h' : ℕ} {timeout : Option ℕ}
      → d ≤ swept
      → n < c.max_receives
      → Move c
          (receives swept now max_n timeout)
          (invisible h n d)
          (invisible h' (n + 1) (now + or_default timeout c.visibility_timeout))
  ack : {h n d : ℕ} → Move c (deletes h) (invisible h n d) absent
  extend :
      {now h seconds n d : ℕ}
      → Move c (changes now h seconds) (invisible h n d) (invisible h n (now + seconds))
  back_off :
      {now h n d : ℕ}
      → Move c (fails now h) (invisible h n d) (invisible h n (now + backoff_for c n))
  drop : {p : Place} → Move c clears p absent

-- What handing out does to one entry.
abbrev Lent : (base now : ℕ) → Option Entry → Option Entry → Type 0
Lent base now o o' =
    (o' ≡ o)
    ⊎ ((e : Entry) × (h : ℕ) × (o ≡ some e)
        × (e.handle ≡ none)
        × (o'
            ≡ some (record e {
              receive_count = e.receive_count + 1;
              deadline = now + base;
              handle = some h;
            })))

module _ (uuid : ℕ → ℕ) where
  hand_out-Lent :
      (base now room : ℕ) (line : List ℕ) (q : Queue)
      → IsNodup line
      → ((m : ℕ) → contains m line ≡ true → waits (Dict.get m q.entries) ≡ true)
      → (j : ℕ)
      → Lent base now
          (Dict.get j q.entries)
          (Dict.get j (hand_out uuid base now room line q).0.entries)
  unfolding hand_out lend
  hand_out-Lent base now zero line q d known j = inl refl
  hand_out-Lent base now (suc room) [] q d known j = inl refl
  hand_out-Lent base now (suc room) (m ∷ line) q d known j =
      elim (Option-cases (Dict.get m q.entries)) [
        | inl missing ↦ absurd (ground (arith, known m, nat_beq_iff m m))
        | inr (e, found) ↦
            let x : Entry = record e {
              receive_count = e.receive_count + 1;
              deadline = now + base;
              handle = some (uuid q.drawn);
            } in
            let p : Queue = lend uuid base now m e q in
            let rest =
              hand_out-Lent base now room line p d.1
                (λ i h. ground (arith, get-set m i x q.entries, known i)) j in
            rw (found, hand_out)
              (elim (Bool-cases (nat_beq m j)) [
                | inl here ↦
                    let same : m ≡ j = (nat_beq_iff m j).0 here in
                    let there : Dict.get j q.entries ≡ some e = rw (← same) found in
                    let after : Dict.get j p.entries ≡ some x =
                      ground (arith, get-set m j x q.entries) in
                    elim rest [
                      | inl kept ↦ inr (
                        e,
                        uuid q.drawn,
                        there,
                        ground (arith, known m, nat_beq_iff m m),
                        kept ∙ after,
                      )
                      | inr (e', h, was, idle, now') ↦ absurd (ground arith)
                    ]
                | inr other ↦ rw (rw other at (get-set m j x q.entries)) at rest
              ])
      ]

module _ (c : Config) where
  Move_eq : {call : Call} (p p' x y : Place) → p ≡ x → p' ≡ y → Move c call x y → Move c call p p'
  Move_eq p p' x y e e' move = rw (e, e') move

  module _ (swept now max_n : ℕ) (timeout : Option ℕ) where
    abbrev receiving : Call
    receiving = receives swept now max_n timeout

    abbrev until : ℕ
    until = now + or_default timeout c.visibility_timeout

    -- An entry whose loan is over, and what a handing out then does to it.
    ended-Move :
        (e : Entry) (h : ℕ) (o o' : Option Entry)
        → e.handle ≡ some h
        → e.deadline ≤ swept
        → o ≡ released c e
        → Lent (or_default timeout c.visibility_timeout) now o o'
        → Move c receiving (place (some e)) (place o')
    ended-Move e h o o' on late rel lent = elim (Bool-cases (leb c.max_receives e.receive_count)) [
      | inl spent ↦ elim lent [
        | inl same ↦
            Move_eq _ _ (invisible h e.receive_count e.deadline) absent (ground arith)
              (ground arith) (bury late (ground arith))
        | inr (e', h', was, idle, is) ↦ absurd (ground arith)
      ]
      | inr left ↦ elim lent [
        | inl same ↦
            Move_eq _ _ (invisible h e.receive_count e.deadline) (visible e.receive_count)
              (ground arith) (ground arith) (lapse late (ground arith))
        | inr (e', h', was, idle, is) ↦
            Move_eq _ _ (invisible h e.receive_count e.deadline)
              (invisible h' (e.receive_count + 1) until) (ground arith) (ground arith)
              (deliver_again late (ground arith))
      ]
    ]

    -- A sweep and then a handing out, seen from one entry.
    receive-Move :
        (o o' o'' : Option Entry)
        → o' ≡ after_loan c (λ e h. leb e.deadline swept) o
        → Lent (or_default timeout c.visibility_timeout) now o' o''
        → Move c receiving (place o) (place o'')
    receive-Move none o' o'' sw lent = elim lent [
      | inl same ↦ Move_eq _ _ absent absent refl (ground arith) stay
      | inr (e', h', was, idle, is) ↦ absurd (ground arith)
    ]
    receive-Move (some e) o' o'' sw lent = elim (Option-cases e.handle) [
      | inl free ↦ elim lent [
        | inl same ↦
            Move_eq _ _ (visible e.receive_count) (visible e.receive_count) (ground arith)
              (ground arith) stay
        | inr (e', h', was, idle, is) ↦
            Move_eq _ _ (visible e.receive_count) (invisible h' (e.receive_count + 1) until)
              (ground arith) (ground arith) deliver
      ]
      | inr (h, on) ↦ elim (Bool-cases (leb e.deadline swept)) [
        | inl late ↦ ended-Move e h o' o'' on (ground arith) (ground arith) lent
        | inr early ↦ elim lent [
          | inl same ↦ Move_eq _ _ (place (some e)) (place (some e)) refl (ground arith) stay
          | inr (e', h', was, idle, is) ↦ absurd (ground arith)
        ]
      ]
    ]
