-- ===== src/Worker/Batch.antt =====
-- A whole batch: a consumer whose writes succeed takes the messages that are in front, stores and indexes
-- every one of them, and takes them out of the queue.
use feathr_events.Prelude.{
  ℕ, zero, suc, ◌+◌, ◌≡◌, refl, ap, sym, subst, List, [], ◌∷◌, ◌++◌, none, some, true, false, arith,
  All, nat_beq, nat_beq_iff, nat_eq, ok, contains, IsNodup, length, take, Option-cases, inl, inr,
  is_none, not,
}
use feathr_events.Dict
use feathr_events.Dict.Laws.{get-delete}
use feathr_events.Queue.{Queue, Entry, Message}
use feathr_events.Queue.Returning.{live_entry}
use feathr_events.Queue.Handed.{IsLive, handles, AllLive, receive-AllLive}
use feathr_events.Queue.Order.{receive_in_order, handed, deliveries, IsLine}
use feathr_events.Circuit.{allowance}
use feathr_events.Stores.{Documents, done}
use feathr_events.Worker.{Settings, World, Pc, idle, handling, go_on, poll, pulled}
use feathr_events.Worker.Safety.{in_store, in_search}
use feathr_events.Worker.Queueing.{IsValid, go_on-Kept}
use feathr_events.Worker.Delivery.{next, final, three_segments, find-put_self, get-delete_self}

AllLive-delete :
    (h : ℕ) (hs : List ℕ) (q p : Queue)
    → p.inflight ≡ Dict.delete h q.inflight
    → contains h hs ≡ false
    → All (IsLive q) hs
    → All (IsLive p) hs
AllLive-delete h [] q p same apart live = tt
AllLive-delete h (j ∷ hs) q p same apart (first, live) = (
  λ gone. first (
      ground
        (arith, ap (Dict.get j) same, get-delete h j q.inflight, nat_beq_iff h j, gone, apart)),
  AllLive-delete h hs q p same (ground (arith, apart)) live,
)

module _ (mongo elastic : Documents) (c : Settings)
    (injective : (i j : ℕ) → c.uuid i ≡ c.uuid j → i ≡ j) where
  -- The readings of the clock in the three segments that handle one message.
  abbrev pub Readings : Type 0
  Readings = (ℕ × ℕ × ℕ) × (ℕ × ℕ × ℕ) × (ℕ × ℕ × ℕ)

  -- So many messages are handled, each in three segments.
  abbrev pub handle_all : (ℕ → Readings) → ℕ → World mongo elastic × Pc → World mongo elastic × Pc
  handle_all ts zero x = x
  handle_all ts (suc n) x =
      handle_all (λ j. ts (suc j)) n
        (next mongo elastic c (ts 0).2
          (next mongo elastic c (ts 0).1 (next mongo elastic c (ts 0).0 x)))

  -- The event of a message is in both stores, and its handle is no longer live.
  abbrev pub Delivered : World mongo elastic → Message → Type 0
  Delivered w m =
      (in_store mongo elastic m.event.event_id w.store ≡ true)
      × (in_search mongo elastic m.event.event_id w.search ≡ true)
      × (Dict.get m.receipt_handle w.queue.inflight ≡ none)

  -- What is in a store stays there, and a handle that is not live stays dead.
  abbrev Grown : World mongo elastic → World mongo elastic → Type 0
  Grown w w' =
      ((k : ℕ) → in_store mongo elastic k w.store ≡ true → in_store mongo elastic k w'.store ≡ true)
      × ((k : ℕ)
          → in_search mongo elastic k w.search ≡ true
          → in_search mongo elastic k w'.search ≡ true)
      × ((h : ℕ) → Dict.get h w.queue.inflight ≡ none → Dict.get h w'.queue.inflight ≡ none)

  -- How a consumer ends that has handled a batch.
  abbrev Ended : List Message → World mongo elastic → World mongo elastic × Pc → Type 0
  Ended ms w (w', p) =
      (p ≡ handling [])
      × All (Delivered w') ms
      × (w'.processed ≡ w.processed + length ms)
      × Grown w w'

  next-IsValid :
      (t : ℕ × ℕ × ℕ) (x : World mongo elastic × Pc)
      → IsValid mongo elastic c injective x.0
      → IsValid mongo elastic c injective (next mongo elastic c t x).0
  next-IsValid t x v = go_on-Kept mongo elastic c injective t.0 t.1 t.2 [] true done x.0 x.1 v

  module _ (w : World mongo elastic) (m : Message) (rest : List Message) (k : ℕ) (e : Entry)
      (live : Dict.get m.receipt_handle w.queue.inflight ≡ some k)
      (found : Dict.get k w.queue.entries ≡ some e) (now : ℕ) where
    abbrev done_with : World mongo elastic
    done_with = final mongo elastic c w m rest k e live found now

    final-Delivered : Delivered done_with m
    unfolding final
    final-Delivered = (
      ap (λ o. not (is_none o)) (find-put_self mongo m.event w.store),
      ap (λ o. not (is_none o)) (find-put_self elastic m.event w.search),
      get-delete_self m.receipt_handle w.queue.inflight,
    )

    final-Grown : Grown w done_with
    unfolding final
    final-Grown = (
      (λ j h. ground (arith, mongo.find-put m.event.event_id j m.event w.store, h)),
      (λ j h. ground (arith, elastic.find-put m.event.event_id j m.event w.search, h)),
      (λ h gone. ground (arith, get-delete m.receipt_handle h w.queue.inflight, gone)),
    )

    final-inflight : done_with.queue.inflight ≡ Dict.delete m.receipt_handle w.queue.inflight
    unfolding final
    final-inflight = refl

    final-processed : done_with.processed ≡ w.processed + 1
    unfolding final
    final-processed = refl

  Delivered-Grown :
      (w w' : World mongo elastic) (m : Message) → Grown w w' → Delivered w m → Delivered w' m
  Delivered-Grown w w' m (a, b, d) (x, y, z) =
      (a m.event.event_id x, b m.event.event_id y, d m.receipt_handle z)

  Grown-trans : (w w' w'' : World mongo elastic) → Grown w w' → Grown w' w'' → Grown w w''
  Grown-trans w w' w'' (a, b, d) (a', b', d') =
      ((λ k h. a' k (a k h)), (λ k h. b' k (b k h)), (λ k h. d' k (d k h)))

  handle_all-Ended :
      (ts : ℕ → Readings) (ms : List Message) (w : World mongo elastic)
      → IsValid mongo elastic c injective w
      → All (IsLive w.queue) (handles ms)
      → IsNodup (handles ms)
      → Ended ms w (handle_all ts (length ms) (w, handling ms))
  handle_all-Ended ts [] w v live nodup =
      (refl, tt, omega arith, ((λ k h. h), (λ k h. h), (λ k h. h)))
  handle_all-Ended ts (m ∷ rest) w v (first, live) (apart, nodup) =
      elim (Option-cases (Dict.get m.receipt_handle w.queue.inflight)) [
        | inl gone ↦ absurd (first gone)
        | inr (k, here) ↦
            let (e, found, under) =
              live_entry c.uuid c.queue_config w.queue v m.receipt_handle k here in
            let (a, b, d) = ts 0 in
            let path = three_segments mongo elastic c w m rest k e here found a b d in
            let w1 = done_with w m rest k e here found a.0 in
            let valid : IsValid mongo elastic c injective w1 =
              subst (λ x. IsValid mongo elastic c injective x.0) path
                (next-IsValid d _ (next-IsValid b _ (next-IsValid a (w, handling (m ∷ rest)) v))) in
            let (ended, all, count, grown) =
              handle_all-Ended (λ j. ts (suc j)) rest w1 valid
                (AllLive-delete m.receipt_handle (handles rest) w.queue w1.queue
                  (final-inflight w m rest k e here found a.0) apart live)
                nodup in
            let w2 = (handle_all (λ j. ts (suc j)) (length rest) (w1, handling rest)).0 in
            subst (λ x. Ended (m ∷ rest) w (handle_all (λ j. ts (suc j)) (length rest) x))
              (sym path)
              (
                ended,
                (Delivered-Grown w1 w2 m grown (final-Delivered w m rest k e here found a.0), all),
                omega (arith, count, final-processed w m rest k e here found a.0),
                Grown-trans w w1 w2 (final-Grown w m rest k e here found a.0) grown,
              )
      ]

  -- Where a consumer stands that has handled what it got.
  abbrev pub resting : List Message → Pc
  resting [] = idle
  resting (m ∷ ms) = handling []

  -- What a batch leaves behind.
  abbrev pub Handled : List Message → World mongo elastic → World mongo elastic × Pc → Type 0
  Handled ms w (w', p) =
      (p ≡ resting ms) × All (Delivered w') ms × (w'.processed ≡ w.processed + length ms)

  pulled-Handled :
      (ts : ℕ → Readings) (w : World mongo elastic) (q : Queue) (out : List Message)
      → IsValid mongo elastic c injective (pulled mongo elastic c w (ok (q, out))).0
      → AllLive c.uuid injective (ok (q, out))
      → Handled out w (handle_all ts (length out) (pulled mongo elastic c w (ok (q, out))))
  pulled-Handled ts w q [] v alive = (refl, tt, omega arith)
  pulled-Handled ts w q (m ∷ ms) v (live, nodup) =
      let (ended, all, count, grown) =
        handle_all-Ended ts (m ∷ ms) (record w { queue = q }) v live nodup in
      (ended, all, count)

  -- On a valid queue, with a circuit that lets something through: a consumer at the head of its loop, of
  -- which the writes succeed, takes as many messages as it may of the line, in which those that were
  -- visible come first and then those whose loan has ended and that may be delivered again; and after three segments for each of them it
  -- has handled them all: the event of each is in both stores, none of their handles is live, and as many
  -- more events count as processed. Identifiers must never be drawn twice.
  pub batch_completes :
      (w : World mongo elastic) (asked swept now : ℕ) (ts : ℕ → Readings)
      → IsValid mongo elastic c injective w
      → nat_beq (allowance asked c.batch_size w.circuit).1 0 ≡ false
      → (back : List ℕ) × (out : List Message) × IsLine c.queue_config swept w.queue back
        × (handed out
            ≡ deliveries w.queue.entries
                (take (allowance asked c.batch_size w.circuit).1 (w.queue.visible ++ back)))
        × Handled out w
            (handle_all ts (length out) (next mongo elastic c (asked, swept, now) (w, idle)))
  unfolding go_on poll
  batch_completes w asked swept now ts v open' =
      let (circuit, granted) = allowance asked c.batch_size w.circuit in
      let w1 = record w { circuit = circuit } in
      let (back, q, out, line, run, first, left) =
        receive_in_order c.uuid c.queue_config w.queue v swept now granted none in
      let path : next mongo elastic c (asked, swept, now) (w, idle)
          ≡ pulled mongo elastic c w1 (ok (q, out)) =
        rw (open', run) refl in
      let valid : IsValid mongo elastic c injective (pulled mongo elastic c w1 (ok (q, out))).0 =
        subst (λ x. IsValid mongo elastic c injective x.0) path
          (next-IsValid (asked, swept, now) (w, idle) v) in
      let alive =
        subst (AllLive c.uuid injective) run
          (receive-AllLive c.uuid injective c.queue_config swept now granted none w.queue v) in
      (
        back,
        out,
        line,
        first,
        subst (λ x. Handled out w (handle_all ts (length out) x)) (sym path)
            (pulled-Handled ts w1 q out valid alive),
      )
