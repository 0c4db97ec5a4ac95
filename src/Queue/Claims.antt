-- ===== src/Queue/Claims.antt =====
-- What a received message says of its event stays true of the entry that its handle is for.
use feathr_events.Prelude.{
  ℕ, zero, suc, ◌+◌, List, [], ◌∷◌, Option, some, ◌≡◌, refl, arith, All, inl, inr, Bool-cases,
  Option-cases, ok, err, Result, ◌>>=◌, nat_beq, nat_eq, if◌then◌else◌, sym, ◌∙◌, ap, leb, length,
}
use mathlib.Core.Option.{some_inj}
use feathr_events.Models.{Event}
use feathr_events.Dict
use feathr_events.Dict.Laws.{get-set}
use feathr_events.Queue.{
  Queue, QueueError, Config, Entry, Message, init, send, receive, delete, fail, change_visibility,
  lend, hand_out, sweep, or_default, message_of,
}
use feathr_events.Queue.Handles.{
  IsOld, Inherits, same-Inherits, Inherits-trans, deleted-Inherits, set-Inherits, stamp-Inherits,
  lend-Inherits, Kept, sweep-Kept,
}

module _ (uuid : ℕ → ℕ) (injective : (i j : ℕ) → uuid i ≡ uuid j → i ≡ j) where
  -- The handle of a message was drawn, and an entry that is lent under it has the event of the message.
  pub record Claims (q : Queue) (msg : Message) : Type 0 where
    pub old : IsOld uuid q.drawn msg.receipt_handle
    pub event :
        (id : ℕ) (e : Entry)
        → Dict.get id q.entries ≡ some e
        → e.handle ≡ some msg.receipt_handle
        → e.event ≡ msg.event

  -- Every entry is lent under a handle that was drawn.
  abbrev pub AllOld : Queue → Type 0
  AllOld q =
      (id h : ℕ) (e : Entry)
      → Dict.get id q.entries ≡ some e
      → e.handle ≡ some h
      → IsOld uuid q.drawn h

  pub init-AllOld : AllOld init
  unfolding init Dict.get
  init-AllOld id h e found lent = ground (arith, found)

  pub AllOld-Inherits : (q p : Queue) → Inherits uuid q p → AllOld q → AllOld p
  AllOld-Inherits q p a old id h e found lent = elim (a.heir id h e found lent) [
    | inr (n, low, high, new) ↦ (n, high, new)
    | inl (id', e', found', lent', same) ↦
        let (n, below, it) = old id' h e' found' lent' in (n, omega (arith, below, a.later), it)
  ]

  pub Claims-Inherits :
      (q p : Queue) (msg : Message) → Inherits uuid q p → Claims q msg → Claims p msg
  Claims-Inherits q p msg a m =
      let (k, below, it) = m.old in
      record {
        old = (k, omega (arith, below, a.later), it);
        event = λ id e found lent. elim (a.heir id msg.receipt_handle e found lent) [
          | inl (id', e', found', lent', same) ↦ sym same ∙ m.event id' e' found' lent'
          | inr (n, low, high, new) ↦
              absurd (omega (arith, below, low, injective k n (sym it ∙ new)))
        ];
      }

  lend-Claims :
      (base now m : ℕ) (e : Entry) (q : Queue)
      → AllOld q
      → Claims (lend uuid base now m e q) (message_of uuid e q)
  unfolding lend
  lend-Claims base now m e q old =
      let lent_entry : Entry = record e {
        receive_count = e.receive_count + 1;
        deadline = now + base;
        handle = some (uuid q.drawn);
      } in
      let at = λ (id : ℕ). get-set m id lent_entry q.entries in
      record {
        old = (q.drawn, omega arith, refl);
        event = λ id x found lent. elim (Bool-cases (nat_beq m id)) [
          | inl here ↦ sym (
              ap (λ y. y.event)
                (some_inj.0 (
                  ap (λ b. if b then some lent_entry else Dict.get id q.entries) (sym here)
                  ∙ sym (at id)
                  ∙ found)))
          | inr there ↦
              let (n, below, it) =
                old id (uuid q.drawn) x
                  (ap (λ b. if b then some lent_entry else Dict.get id q.entries) (sym there)
                    ∙ sym (at id)
                    ∙ found)
                  lent in
              absurd (omega (arith, below, injective q.drawn n it))
        ];
      }

  -- What `receive` hands out.
  hand_out-Claims :
      (base now room : ℕ) (visible : List ℕ) (q : Queue)
      → AllOld q
      → let r = hand_out uuid base now room visible q in Inherits uuid q r.0 × All (Claims r.0) r.1
  unfolding hand_out
  hand_out-Claims base now zero visible q old = (same-Inherits uuid q _ refl refl, tt)
  hand_out-Claims base now (suc room) [] q old = (same-Inherits uuid q _ refl refl, tt)
  hand_out-Claims base now (suc room) (m ∷ visible) q old =
      elim (Option-cases (Dict.get m q.entries)) [
        | inl missing ↦ rw (hand_out, missing) (hand_out-Claims base now (suc room) visible q old)
        | inr (e, found) ↦
            let p = lend uuid base now m e q in
            let a = lend-Inherits uuid base now m e q in
            let (b, all) = hand_out-Claims base now room visible p (AllOld-Inherits q p a old) in
            rw (hand_out, found)
              (
                Inherits-trans uuid q p _ a b,
                (Claims-Inherits p _ _ b (lend-Claims base now m e q old), all),
              )
      ]

  pub send-Kept : (c : Config) (e : Event) (q : Queue) → Kept uuid q (send uuid c e q)
  unfolding send
  send-Kept c e q = elim (Bool-cases (leb c.maxsize (length q.entries))) [
    | inl full ↦ rw full tt
    | inr room ↦ rw room (
        set-Inherits uuid (uuid q.drawn) _ q _ refl (omega arith)
          (λ h none_there. ground (arith, none_there)))
  ]

  pub delete-Kept : (h : ℕ) (q : Queue) → Kept uuid q (delete h q)
  unfolding delete
  delete-Kept h q = elim (Option-cases (Dict.get h q.inflight)) [
    | inl gone ↦ rw gone tt
    | inr (m, lent) ↦ rw lent (deleted-Inherits uuid m q _ refl refl)
  ]

  pub change_visibility-Kept :
      (now h seconds : ℕ) (q : Queue) → Kept uuid q (change_visibility now h seconds q)
  unfolding change_visibility
  change_visibility-Kept now h seconds q = elim (Option-cases (Dict.get h q.inflight)) [
    | inl gone ↦ rw gone tt
    | inr (m, lent) ↦ elim (Option-cases (Dict.get m q.entries)) [
      | inl missing ↦ rw (lent, missing) tt
      | inr (e, found) ↦ rw (lent, found) (stamp-Inherits uuid m _ e q found)
    ]
  ]

  pub fail-Kept : (c : Config) (now h : ℕ) (q : Queue) → Kept uuid q (fail c now h q)
  unfolding fail
  fail-Kept c now h q = elim (Option-cases (Dict.get h q.inflight)) [
    | inl gone ↦ rw gone tt
    | inr (m, lent) ↦ elim (Option-cases (Dict.get m q.entries)) [
      | inl missing ↦ rw (lent, missing) tt
      | inr (e, found) ↦ rw (lent, found) (stamp-Inherits uuid m _ e q found)
    ]
  ]

  -- What `receive` returns, if it does not raise.
  abbrev pub Received : Queue → Result QueueError (Queue × List Message) → Type 0
  Received q (ok (p, out)) = Inherits uuid q p × All (Claims p) out
  Received q (err e) = Unit

  pub receive-Received :
      (c : Config) (swept now max_n : ℕ) (timeout : Option ℕ) (q : Queue)
      → AllOld q
      → Received q (receive uuid c swept now max_n timeout q)
  unfolding receive
  receive-Received c swept now max_n timeout q old =
      go (sweep c swept q) (sweep-Kept uuid c swept q)
    where
      go :
          (r : Result QueueError Queue)
          → Kept uuid q r
          → Received q (
              r >>= (λ p.
                ok (hand_out uuid (or_default timeout c.visibility_timeout) now max_n p.visible p)))
      go (err e) k = tt
      go (ok p) k =
          let (a, all) = hand_out-Claims _ now max_n p.visible p (AllOld-Inherits q p k old) in
          (Inherits-trans uuid q p _ k a, all)
