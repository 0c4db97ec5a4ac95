-- ===== src/Worker/Ledger.antt =====
-- The account of a whole run: every event that the API took in is stored and acknowledged, buried with a
-- line in the log, or still in the queue.
use feathr_events.Prelude.{
  ℕ, ◌+◌, ◌≡◌, refl, List, [], ◌∷◌, ◌++◌, Bool, true, false, arith, Bool-cases, inl, inr, ok, err,
  Result, nat_beq, All,
}
use feathr_events.Models.{Event}
use feathr_events.Queue.{Queue, QueueError, send}
use feathr_events.Queue.Invariant.{Inv}
use feathr_events.Queue.Tally.{tally, tally-append}
use feathr_events.Queue.Conservation.{held_in, perform-held, if_ok}
use feathr_events.Queue.Handles.{Inherits, Inherits-refl, Kept}
use feathr_events.Queue.Claims.{AllOld, AllOld-Inherits, send-Kept}
use feathr_events.Queue.History.{sends, perform, after}
use feathr_events.Stores.{Documents}
use feathr_events.Worker.{
  Settings, World, Pc, idle, handling, storing, indexing, ended, go_on, cancel, System, Turn, turn,
  turns, resume, enqueued, goes_on, cancelled, started, arrives, restarted,
}
use feathr_events.Worker.Queueing.{turn-IsValid}
use feathr_events.Worker.Accounts.{messages, IsClaimed, All-Claims, total, go_on-Accounted}

module _ (mongo elastic : Documents) (c : Settings) where
  -- The events that the API accepted in a turn, and in a run.
  abbrev pub accepted_by : Turn mongo elastic c → System mongo elastic c → List Event
  accepted_by (arrives e) s = if_ok (send c.uuid c.queue_config e s.world.queue) (e ∷ [])
  accepted_by _ s = []

  abbrev pub accepted_in : List (Turn mongo elastic c) → System mongo elastic c → List Event
  accepted_in [] s = []
  accepted_in (t ∷ ts) s = accepted_by t s ++ accepted_in ts (turn mongo elastic c t s)

  module _ (injective : (i j : ℕ) → c.uuid i ≡ c.uuid j → i ≡ j) (f : Event → Bool) where
    abbrev pub ClaimedBy : Queue → Pc → Type 0
    ClaimedBy q p = All (IsClaimed mongo elastic c injective f q) (messages p)

    -- The queue is valid, and what each consumer holds is what its handles are for.
    pub record Tracked (s : System mongo elastic c) : Type 0 where
      pub valid : Inv c.uuid c.queue_config s.world.queue
      pub old : AllOld c.uuid injective s.world.queue
      pub claims : (i : ℕ) → ClaimedBy s.world.queue (s.pc i)

    abbrev pub sum : World mongo elastic → ℕ
    sum = total mongo elastic c injective f

    -- What a turn of one consumer has to keep for the system to stay tracked.
    resume-Tracked :
        (i : ℕ) (s : System mongo elastic c) (w : World mongo elastic) (p : Pc)
        → Tracked s
        → Inv c.uuid c.queue_config w.queue
        → Inherits c.uuid s.world.queue w.queue
        → ClaimedBy w.queue p
        → Tracked (resume mongo elastic c s i (w, p))
    resume-Tracked i s w p t v a all = record {
      valid = v;
      old = AllOld-Inherits c.uuid injective s.world.queue w.queue a t.old;
      claims = λ j. elim (Bool-cases (nat_beq i j)) [
        | inl here ↦ rw here all
        | inr there ↦ rw there (
            All-Claims mongo elastic c injective f s.world.queue w.queue (messages (s.pc j)) a
              (t.claims j))
      ];
    }

    cancel-Claimed :
        (applied : Bool) (w : World mongo elastic) (p : Pc)
        → let (w', p') = cancel mongo elastic c applied w p in
          Inherits c.uuid w.queue w'.queue × ClaimedBy w'.queue p' × (sum w' ≡ sum w)
    unfolding cancel
    cancel-Claimed applied w idle = (Inherits-refl c.uuid w.queue, tt, refl)
    cancel-Claimed applied w ended = (Inherits-refl c.uuid w.queue, tt, refl)
    cancel-Claimed applied w (handling ms) = (Inherits-refl c.uuid w.queue, tt, refl)
    cancel-Claimed true w (storing m rest) = (Inherits-refl c.uuid w.queue, tt, refl)
    cancel-Claimed false w (storing m rest) = (Inherits-refl c.uuid w.queue, tt, refl)
    cancel-Claimed true w (indexing m rest) = (Inherits-refl c.uuid w.queue, tt, refl)
    cancel-Claimed false w (indexing m rest) = (Inherits-refl c.uuid w.queue, tt, refl)

    restarted-Claimed :
        (q : Queue) (p : Pc) → ClaimedBy q p → ClaimedBy q (restarted mongo elastic c p)
    restarted-Claimed q idle all = all
    restarted-Claimed q ended all = tt
    restarted-Claimed q (handling ms) all = all
    restarted-Claimed q (storing m rest) all = all
    restarted-Claimed q (indexing m rest) all = all

    enqueued-Settled :
        (e : Event) (s : System mongo elastic c) (r : Result QueueError Queue)
        → Tracked s
        → Inv c.uuid c.queue_config (enqueued mongo elastic c s.world r).queue
        → Kept c.uuid s.world.queue r
        → (held_in f (after s.world.queue r) ≡ held_in f s.world.queue + tally f (if_ok r (e ∷ [])))
        → Tracked (record s { world = enqueued mongo elastic c s.world r })
          × (sum (enqueued mongo elastic c s.world r) ≡ sum s.world + tally f (if_ok r (e ∷ [])))
    enqueued-Settled e s (ok q) t v a grown = (
      record {
        valid = v;
        old = AllOld-Inherits c.uuid injective s.world.queue q a t.old;
        claims = λ j.
            All-Claims mongo elastic c injective f s.world.queue q (messages (s.pc j)) a
              (t.claims j);
      },
      omega (arith, grown),
    )
    enqueued-Settled e s (err x) t v a grown =
        (record { valid = v; old = t.old; claims = t.claims }, omega arith)

    sent_grows :
        (e : Event) (q : Queue)
        → Inv c.uuid c.queue_config q
        → held_in f (after q (send c.uuid c.queue_config e q))
          ≡ held_in f q + tally f (if_ok (send c.uuid c.queue_config e q) (e ∷ []))
    unfolding perform
    sent_grows e q v = omega (arith, perform-held f c.uuid c.queue_config (sends e) q v)

    -- A turn keeps the system tracked, and the account grows by what it accepts.
    abbrev Settled : Turn mongo elastic c → System mongo elastic c → Type 0
    Settled t s =
        Tracked (turn mongo elastic c t s)
        × (sum (turn mongo elastic c t s).world ≡ sum s.world + tally f (accepted_by t s))

    turn-Settled : (t : Turn mongo elastic c) (s : System mongo elastic c) → Tracked s → Settled t s
    unfolding turn
    turn-Settled (goes_on i t₁ t₂ t₃ faulted prepared reply) s k =
        let x = goes_on i t₁ t₂ t₃ faulted prepared reply in
        let next = go_on mongo elastic c t₁ t₂ t₃ faulted prepared reply s.world (s.pc i) in
        let (a, all, same) =
          go_on-Accounted mongo elastic c injective f t₁ t₂ t₃ faulted prepared reply s.world
            (s.pc i) k.valid k.old (k.claims i) in
        (
          resume-Tracked i s next.0 next.1 k (turn-IsValid mongo elastic c injective x s k.valid) a
              all,
          omega (arith, same),
        )
    turn-Settled (cancelled i applied) s k =
        let x : Turn mongo elastic c = cancelled i applied in
        let (a, all, same) = cancel-Claimed applied s.world (s.pc i) in
        (
          resume-Tracked i s _ _ k (turn-IsValid mongo elastic c injective x s k.valid) a all,
          omega (arith, same),
        )
    turn-Settled (started i) s k = (
      resume-Tracked i s s.world (restarted mongo elastic c (s.pc i)) k k.valid
          (Inherits-refl c.uuid s.world.queue)
          (restarted-Claimed s.world.queue (s.pc i) (k.claims i)),
      omega arith,
    )
    turn-Settled (arrives e) s k =
        let x : Turn mongo elastic c = arrives e in
        enqueued-Settled e s (send c.uuid c.queue_config e s.world.queue) k
          (turn-IsValid mongo elastic c injective x s k.valid)
          (send-Kept c.uuid injective c.queue_config e s.world.queue)
          (sent_grows e s.world.queue k.valid)

    pub turns-Settled :
        (ts : List (Turn mongo elastic c)) (s : System mongo elastic c)
        → Tracked s
        → sum (turns mongo elastic c ts s).world ≡ sum s.world + tally f (accepted_in ts s)
    unfolding turns
    turns-Settled [] s k = omega arith
    turns-Settled (t ∷ ts) s k =
        let (k', same) = turn-Settled t s k in
        omega (
          arith,
          turns-Settled ts (turn mongo elastic c t s) k',
          same,
          tally-append f (accepted_by t s) (accepted_in ts (turn mongo elastic c t s)),
        )
