-- ===== src/App/Shutdown.antt =====
-- What is said of the events that go with the process.
use feathr_events.Prelude.{
  ℕ, List, [], ◌∷◌, Option, Bool, ◌≡◌, refl, arith, Bool-cases, inl, inr, ok, err, length, map, ap,
  sym, subst, Result,
}
use feathr_events.Models.{Text, Event}
use feathr_events.Queue.{Queue, Entry, stats, pending_events}
use feathr_events.Queue
use feathr_events.Dict.{values}
use feathr_events.Queue.Invariant.{Inv, init-Inv}
use feathr_events.Stores.{Documents}
use feathr_events.Startup.{refuse_multiple_processes}
use feathr_events.Worker.{Settings, Turn, turns}
use feathr_events.Worker.Lifecycle.{Worker, Step, start, stop}
use feathr_events.Worker.Queueing.{turns-IsValid, stop-IsValid}
use feathr_events.App.{
  Warning, losing, lost_on_shutdown, mongodb_unprepared, elasticsearch_unprepared, Client,
  StartupError, opening, startup, report_losses, shutdown, any_left,
}

-- The events that lines of the log name as lost.
abbrev pub named : List Warning → List Event
named [] = []
named (lost_on_shutdown e ∷ ws) = e ∷ named ws
named (losing s ∷ ws) = named ws
named (mongodb_unprepared ∷ ws) = named ws
named (elasticsearch_unprepared ∷ ws) = named ws

named-map : (es : List Event) → named (map lost_on_shutdown es) ≡ es
named-map [] = refl
named-map (e ∷ es) = ap (◌∷◌ e) (named-map es)

no_entries : (d : List (ℕ × Entry)) → length d ≡ 0 → map (λ e. e.event) (values d) ≡ []
no_entries [] h = refl
no_entries (p ∷ d) h = ground (arith, h)

module _ (mongo elastic : Documents) (c : Settings)
    (injective : (i j : ℕ) → c.uuid i ≡ c.uuid j → i ≡ j) where
  -- Of a valid queue the report names exactly what is left.
  report_losses-named :
      (w : Worker mongo elastic c)
      → Inv c.uuid c.queue_config w.system.world.queue
      → named (report_losses mongo elastic c w) ≡ pending_events w.system.world.queue
  unfolding report_losses stats pending_events
  report_losses-named w v =
      let q = w.system.world.queue in
      elim (Bool-cases (any_left (stats c.queue_config q))) [
        | inl some_left ↦ rw some_left (named-map (map (λ e. e.event) (values q.entries)))
        | inr nothing ↦ rw nothing (sym (no_entries q.entries (ground (arith, nothing, v.counted))))
      ]

  abbrev queue_in : Result StartupError (Worker mongo elastic c × List Warning) → Queue
  queue_in (ok (w, ws)) = w.system.world.queue
  queue_in (err e) = Queue.init

  startup-Inv :
      (argv : List Text) (environment : Option Text) (m e : Bool) (concurrency : ℕ)
      (s : mongo.State) (t : elastic.State)
      → Inv c.uuid c.queue_config
          (queue_in (startup mongo elastic c argv environment m e concurrency s t))
  unfolding startup start opening
  startup-Inv argv environment m e concurrency s t =
      elim (Bool-cases (refuse_multiple_processes argv environment)) [
        | inl several ↦ rw several (init-Inv c.uuid c.queue_config)
        | inr one ↦ rw one (init-Inv c.uuid c.queue_config)
      ]

  -- Where identifiers are never drawn twice: after a startup that serves and any turns of the consumers,
  -- the stores and the API, a shutdown, however its drain goes, names in the log exactly the events that are
  -- still in the queue, and the queue is then valid.
  pub shutdown-named :
      (argv : List Text) (environment : Option Text) (m e : Bool) (concurrency : ℕ)
      (s : mongo.State) (t : elastic.State) (w : Worker mongo elastic c) (ws : List Warning)
      (ts : List (Turn mongo elastic c)) (steps : List (Step mongo elastic c)) (applied : ℕ → Bool)
      (raises : Client → Bool)
      → startup mongo elastic c argv environment m e concurrency s t ≡ ok (w, ws)
      → let served = record w { system = turns mongo elastic c ts w.system } in
        let r = shutdown mongo elastic c steps applied raises served in
        (named r.1 ≡ pending_events r.0.system.world.queue)
        × Inv c.uuid c.queue_config r.0.system.world.queue
  unfolding shutdown
  shutdown-named argv environment m e concurrency s t w ws ts steps applied raises h =
      let v0 : Inv c.uuid c.queue_config w.system.world.queue =
        subst (λ r. Inv c.uuid c.queue_config (queue_in r)) h
          (startup-Inv argv environment m e concurrency s t) in
      let v1 = turns-IsValid mongo elastic c injective ts w.system v0 in
      let v2 =
        stop-IsValid mongo elastic c injective steps applied
          (record w { system = turns mongo elastic c ts w.system }) v1 in
      (
        report_losses-named
            (stop mongo elastic c steps applied
              (record w { system = turns mongo elastic c ts w.system }))
            v2,
        v2,
      )
