-- ===== src/Queue/Handed.antt =====
-- The handles that `receive` of app/queue.py hands out are live and all different.
use feathr_events.Prelude.{
  ℕ, zero, suc, ◌+◌, ◌≤◌, List, [], ◌∷◌, Option, none, false, ◌≡◌, ◌≢◌, refl, arith, All,
  Option-cases, inl, inr, nat_eq, nat_beq_iff, map, contains, IsNodup, ok, Result, err, subst, sym,
}
use feathr_events.Dict
use feathr_events.Dict.Laws.{get-set}
use feathr_events.Queue.{
  Queue, QueueError, Config, Entry, Message, lend, hand_out, receive, or_default,
}
use feathr_events.Queue.Invariant.{Inv}
use feathr_events.Queue.Sweeping.{sweep-Inv}
use feathr_events.Queue.Loans.{receive_runs}

abbrev pub IsLive : Queue → ℕ → Type 0
IsLive q h = Dict.get h q.inflight ≢ none

abbrev pub handles : List Message → List ℕ
handles = map λ msg. msg.receipt_handle

module _ (uuid : ℕ → ℕ) (injective : (i j : ℕ) → uuid i ≡ uuid j → i ≡ j) where
  -- Drawn at a number or later.
  abbrev DrawnFrom : ℕ → ℕ → Type 0
  DrawnFrom n h = (k : ℕ) × (n ≤ k) × (h ≡ uuid k)

  not_drawn_later :
      (n : ℕ) (hs : List ℕ) → All (DrawnFrom (n + 1)) hs → contains (uuid n) hs ≡ false
  not_drawn_later n [] all = refl
  not_drawn_later n (h ∷ hs) ((k, later, it), all) = ground (
    arith,
    nat_beq_iff (uuid n) h,
    nat_beq_iff h (uuid n),
    injective n k,
    not_drawn_later n hs all,
  )

  All-DrawnFrom : (n : ℕ) (hs : List ℕ) → All (DrawnFrom (n + 1)) hs → All (DrawnFrom n) hs
  All-DrawnFrom n [] all = tt
  All-DrawnFrom n (h ∷ hs) ((k, later, it), all) =
      ((k, omega (arith, later), it), All-DrawnFrom n hs all)

  module _ (base now m : ℕ) (e : Entry) (q : Queue) where
    lend-IsLive : (h : ℕ) → IsLive q h → IsLive (lend uuid base now m e q) h
    unfolding lend
    lend-IsLive h live = ground (arith, get-set (uuid q.drawn) h m q.inflight)

    lend_new : IsLive (lend uuid base now m e q) (uuid q.drawn)
    unfolding lend
    lend_new = ground (
      arith,
      get-set (uuid q.drawn) (uuid q.drawn) m q.inflight,
      nat_beq_iff (uuid q.drawn) (uuid q.drawn),
    )

    lend_drawn :
        (hs : List ℕ)
        → All (DrawnFrom (lend uuid base now m e q).drawn) hs
        → All (DrawnFrom (q.drawn + 1)) hs
    unfolding lend
    lend_drawn hs all = all

  hand_out-IsLive :
      (base now room : ℕ) (visible : List ℕ) (q : Queue)
      → let (p, out) = hand_out uuid base now room visible q in
        ((h : ℕ) → IsLive q h → IsLive p h)
        × All (IsLive p) (handles out)
        × All (DrawnFrom q.drawn) (handles out)
        × IsNodup (handles out)
  unfolding hand_out
  hand_out-IsLive base now zero visible q = (λ h live. live, tt, tt, tt)
  hand_out-IsLive base now (suc room) [] q = (λ h live. live, tt, tt, tt)
  hand_out-IsLive base now (suc room) (m ∷ visible) q = elim (Option-cases (Dict.get m q.entries)) [
    | inl missing ↦ rw (hand_out, missing) (hand_out-IsLive base now (suc room) visible q)
    | inr (e, found) ↦
        let p = lend uuid base now m e q in
        let (grows, live, drawn, nodup) = hand_out-IsLive base now room visible p in
        rw (hand_out, found)
          (
            λ h old. grows h (lend-IsLive base now m e q h old),
            (grows (uuid q.drawn) (lend_new base now m e q), live),
            (
              (q.drawn, omega arith, refl),
              All-DrawnFrom q.drawn _ (lend_drawn base now m e q _ drawn),
            ),
            (not_drawn_later q.drawn _ (lend_drawn base now m e q _ drawn), nodup),
          )
  ]

  -- What `receive` hands out.
  abbrev pub AllLive : Result QueueError (Queue × List Message) → Type 0
  AllLive (ok (p, out)) = All (IsLive p) (handles out) × IsNodup (handles out)
  AllLive (err e) = Unit

  pub receive-AllLive :
      (c : Config) (swept now max_n : ℕ) (timeout : Option ℕ) (q : Queue)
      → Inv uuid c q
      → AllLive (receive uuid c swept now max_n timeout q)
  receive-AllLive c swept now max_n timeout q v =
      let (r, run, w, line, spec) = sweep-Inv uuid c swept q v in
      let (grows, live, drawn, nodup) =
        hand_out-IsLive (or_default timeout c.visibility_timeout) now max_n r.visible r in
      subst AllLive (sym (receive_runs uuid c q v swept now max_n timeout r run)) (live, nodup)
