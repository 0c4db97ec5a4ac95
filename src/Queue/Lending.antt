-- ===== src/Queue/Lending.antt =====
-- `receive` hands out messages: the invariant is kept, and no visible message lacks its entry.
use feathr_events.Prelude.{
  ℕ, zero, suc, ◌+◌, ◌≡◌, ◌≢◌, none, some, nat_eq, arith, ◌∷◌, [], List, Option-cases, inl, inr,
}
use feathr_events.Dict
use feathr_events.Dict.Laws.{get-set, length-set_new, length-set_old, set-IsDict}
use feathr_events.Queue.{Queue, Config, Entry, lend, hand_out}
use feathr_events.Queue.Invariant.{Inv}

module _ (uuid : ℕ → ℕ) (injective : (i j : ℕ) → uuid i ≡ uuid j → i ≡ j) (c : Config) where
  module _ (base now m : ℕ) (visible : List ℕ) (entry : Entry) (q : Queue) where
    abbrev lent_entry : Entry
    lent_entry = record entry {
      receive_count = entry.receive_count + 1;
      deadline = now + base;
      handle = some (uuid q.drawn);
    }

    lend-Inv :
        Inv uuid c (record q { visible = m ∷ visible })
        → Dict.get m q.entries ≡ some entry
        → Inv uuid c (record (lend uuid base now m entry q) { visible = visible })
    unfolding lend
    lend-Inv v found = record {
      entries_dict = set-IsDict m lent_entry q.entries v.entries_dict;
      inflight_dict = set-IsDict (uuid q.drawn) m q.inflight v.inflight_dict;
      visible_nodup = v.visible_nodup.1;
      waiting =
          λ j. ground (arith, v.waiting j, v.visible_nodup.0, get-set m j lent_entry q.entries);
      lent = λ h j p. ground (
        arith,
        v.lent h j,
        v.waiting m,
        get-set m j lent_entry q.entries,
        get-set (uuid q.drawn) h m q.inflight,
      );
      held = λ h j p. ground (
        arith,
        v.held h j,
        v.fresh_inflight q.drawn,
        get-set m j lent_entry q.entries,
        get-set (uuid q.drawn) h m q.inflight,
      );
      counted = omega (
        arith,
        v.counted,
        length-set_old m lent_entry entry q.entries found,
        length-set_new (uuid q.drawn) m q.inflight (v.fresh_inflight q.drawn (omega arith)),
      );
      bounded = omega (arith, v.bounded, length-set_old m lent_entry entry q.entries found);
      dlq_bounded = v.dlq_bounded;
      within = λ j.
          ground (arith, v.within j, v.within m, v.waiting m, get-set m j lent_entry q.entries);
      fresh_entries =
          λ n h. ground (arith, v.fresh_entries n, get-set m (uuid n) lent_entry q.entries);
      fresh_inflight = λ n h. ground (
        arith,
        v.fresh_inflight n,
        injective q.drawn n,
        get-set (uuid q.drawn) (uuid n) m q.inflight,
      );
    }

  -- A visible message has its entry.
  pub visible_entry :
      (m : ℕ) (visible : List ℕ) (q : Queue)
      → Inv uuid c (record q { visible = m ∷ visible })
      → Dict.get m q.entries ≢ none
  visible_entry m visible q v h = ground (arith, v.waiting m)

  pub hand_out-Inv :
      (base now room : ℕ) (visible : List ℕ) (q : Queue)
      → Inv uuid c (record q { visible = visible })
      → Inv uuid c (hand_out uuid base now room visible q).0
  unfolding hand_out
  hand_out-Inv base now zero visible q v = v
  hand_out-Inv base now (suc room) [] q v = v
  hand_out-Inv base now (suc room) (m ∷ visible) q v = elim (Option-cases (Dict.get m q.entries)) [
    | inl missing ↦ absurd (visible_entry m visible q v missing)
    | inr (entry, found) ↦
        rw (found, hand_out)
          (hand_out-Inv base now room visible (lend uuid base now m entry q)
            (lend-Inv base now m visible entry q v found))
  ]
