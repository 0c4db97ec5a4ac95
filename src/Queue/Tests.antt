-- ===== src/Queue/Tests.antt =====
-- The theorems on app/queue.py at concrete queues.
use feathr_events.Prelude.{
  ℕ, ◌+◌, ◌≡◌, nat_eq, refl, true, List, [], ◌∷◌, none, some, ok, err, arith, take, drop, ◌++◌, leb,
  if◌then◌else◌,
}
use feathr_events.Models.{Event, end}
use feathr_events.Dict
use feathr_events.Queue.{
  Queue, Entry, Message, default_config, init, send, receive, delete, fail, lend, hand_out, sweep,
  sweep_each, expired_handles, backoff_for, pending_events, receipt_handle_is_invalid,
}
use feathr_events.Queue.Invariant.{Inv}
use feathr_events.Queue.History.{
  Call, sends, receives, deletes, perform, run, refusal, Answers, perform-Answers, run-init-Inv,
  after,
}
use feathr_events.Queue.Lifecycle.{Move, place}
use feathr_events.Queue.Lifecycle.Moves.{perform-Move}
use feathr_events.Queue.Loans.{receive_respects_loan, receive_kills_handle, fail_holds_backoff}
use feathr_events.Queue.Order.{IsLine, receive_in_order, handed, deliveries}
use feathr_events.Queue.Settling.{released}
use feathr_events.Queue.Conservation.{books, opening, events_conserved}
use feathr_events.Queue.Tally.{tally, buried}

abbrev event : ℕ → Event
event i = record {
  event_id = i;
  event_type = 99 ∷ [];
  user_id = 117 ∷ [];
  source_url = [];
  timestamp = 0;
  received_at = 0;
  metadata = end;
}

abbrev uuid : ℕ → ℕ
uuid n = n

injective : (i j : ℕ) → uuid i ≡ uuid j → i ≡ j
injective i j p = p

-- Two messages, 0 and 1, of which the first is lent under the handle 2.
abbrev one_lent : List Call
one_lent = sends (event 7) ∷ sends (event 8) ∷ receives 0 0 1 none ∷ []

abbrev queue : Queue
queue = run uuid default_config one_lent init

queue-Inv : Inv uuid default_config queue
queue-Inv = run-init-Inv uuid injective default_config one_lent

abbrev lent_entry : Entry
lent_entry = record { event = event 7; receive_count = 1; handle = some 2; deadline = 30_000 }

lent_under : Dict.get 2 queue.inflight ≡ some 0
unfolding run perform init send receive sweep sweep_each expired_handles hand_out lend Dict.get
    Dict.set
lent_under = refl

lent_as : Dict.get 0 queue.entries ≡ some lent_entry
unfolding run perform init send receive sweep sweep_each expired_handles hand_out lend Dict.get
    Dict.set
lent_as = refl

events_conserved_example :
    tally (λ e. true) (books uuid default_config one_lent opening).accepted
    ≡ tally (λ e. true) (books uuid default_config one_lent opening).acknowledged
      + tally (λ e. true) (books uuid default_config one_lent opening).dropped
      + tally (λ e. true) (pending_events (books uuid default_config one_lent opening).queue)
      + tally (λ e. true) (buried (books uuid default_config one_lent opening).queue.logged)
events_conserved_example = events_conserved uuid injective default_config one_lent (λ e. true)

run-init-Inv_example : Inv uuid default_config (run uuid default_config one_lent init)
run-init-Inv_example = run-init-Inv uuid injective default_config one_lent

perform-Answers_example :
    Answers uuid default_config
      (refusal default_config (deletes 2) queue)
      (perform uuid default_config (deletes 2) queue)
perform-Answers_example = perform-Answers uuid injective default_config (deletes 2) queue queue-Inv

perform-Move_example :
    Move default_config
      (deletes 2)
      (place (Dict.get 0 queue.entries))
      (place (Dict.get 0 (after queue (perform uuid default_config (deletes 2) queue)).entries))
perform-Move_example = perform-Move uuid default_config queue queue-Inv 0 (deletes 2)

receive_respects_loan_example :
    (p : Queue) × (out : List Message) × (receive uuid default_config 29_999 29_999 10 none queue
      ≡ ok (p, out))
    × (Dict.get 0 p.entries ≡ some lent_entry)
    × (Dict.get 2 p.inflight ≡ some 0)
receive_respects_loan_example =
    receive_respects_loan uuid default_config queue queue-Inv 29_999 29_999 10 none 2 0 lent_entry
      lent_under lent_as (omega arith)

receive_kills_handle_example :
    (p : Queue) × (out : List Message) × (receive uuid default_config 30_000 30_000 10 none queue
      ≡ ok (p, out))
    × (delete 2 p ≡ err receipt_handle_is_invalid)
receive_kills_handle_example =
    receive_kills_handle uuid default_config queue queue-Inv 30_000 30_000 10 none 2 0 lent_entry
      lent_under lent_as (omega arith)

fail_holds_backoff_example :
    (p r : Queue) × (fail default_config 5 2 queue ≡ ok p)
    × (sweep default_config 40_000 p ≡ ok r)
    × (Dict.get 0 r.entries ≡ (
        if leb (5 + backoff_for default_config 1) 40_000
        then released default_config
            (record lent_entry { deadline = 5 + backoff_for default_config 1 })
        else some (record lent_entry { deadline = 5 + backoff_for default_config 1 })))
fail_holds_backoff_example =
    fail_holds_backoff uuid default_config queue 5 2 40_000 0 lent_entry queue-Inv lent_under
      lent_as

receive_in_order_example :
    (back : List ℕ) × (p : Queue) × (out : List Message) × IsLine default_config 30_000 queue back
    × (receive uuid default_config 30_000 30_001 1 none queue ≡ ok (p, out))
    × (handed out ≡ deliveries queue.entries (take 1 (queue.visible ++ back)))
    × (p.visible ≡ drop 1 (queue.visible ++ back))
receive_in_order_example = receive_in_order uuid default_config queue queue-Inv 30_000 30_001 1 none
