-- ===== src/Queue/Sending.antt =====
-- `send` keeps the invariant.
use feathr_events.Prelude.{
  ℕ, ◌+◌, ◌<◌, ◌≡◌, none, length, nat_eq, arith, length-append, ◌++◌, ◌∷◌, [], contains-append,
  IsNodup-concat,
}
use feathr_events.Models.{Event}
use feathr_events.Dict
use feathr_events.Dict.{IsDict}
use feathr_events.Dict.Laws.{get-set, length-set_new, set-IsDict}
use feathr_events.Queue.{Queue, Config, Entry}
use feathr_events.Queue.Invariant.{Inv}

module _ (uuid : ℕ → ℕ) (injective : (i j : ℕ) → uuid i ≡ uuid j → i ≡ j) (c : Config) where
  module _ (q : Queue) (v : Inv uuid c q) (e : Event) where
    abbrev new_entry : Entry
    new_entry = record { event = e; receive_count = 0; handle = none; deadline = 0 }

    abbrev sent : Queue
    sent = record q {
      entries = Dict.set (uuid q.drawn) new_entry q.entries;
      visible = q.visible ++ uuid q.drawn ∷ [];
      drawn = q.drawn + 1;
    }

    absent : Dict.get (uuid q.drawn) q.entries ≡ none
    absent = v.fresh_entries q.drawn (omega arith)

    pub sent-Inv : length q.entries < c.maxsize → Inv uuid c sent
    sent-Inv room = record {
      entries_dict = set-IsDict (uuid q.drawn) new_entry q.entries v.entries_dict;
      inflight_dict = v.inflight_dict;
      visible_nodup =
          IsNodup-concat q.visible (uuid q.drawn) v.visible_nodup
            (ground (arith, v.waiting (uuid q.drawn), absent));
      waiting = λ m. ground (
        arith,
        v.waiting m,
        get-set (uuid q.drawn) m new_entry q.entries,
        contains-append m q.visible (uuid q.drawn ∷ []),
      );
      lent =
          λ h m p. ground (arith, v.lent h m, absent, get-set (uuid q.drawn) m new_entry q.entries);
      held = λ h m p. ground (arith, v.held h m, get-set (uuid q.drawn) m new_entry q.entries);
      counted = omega (
        arith,
        v.counted,
        length-set_new (uuid q.drawn) new_entry q.entries absent,
        length-append q.visible (uuid q.drawn ∷ []),
      );
      bounded = omega (arith, length-set_new (uuid q.drawn) new_entry q.entries absent);
      dlq_bounded = v.dlq_bounded;
      within = λ m. ground (arith, v.within m, get-set (uuid q.drawn) m new_entry q.entries);
      fresh_entries = λ n h. ground (
        arith,
        v.fresh_entries n,
        injective q.drawn n,
        get-set (uuid q.drawn) (uuid n) new_entry q.entries,
      );
      fresh_inflight = λ n h. v.fresh_inflight n (omega arith);
    }
