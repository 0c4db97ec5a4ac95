-- ===== src/Queue/Returning.antt =====
-- `delete`, `change_visibility` and `fail`: each finds the entry of a live handle, refuses any other
-- handle, and keeps the invariant.
use feathr_events.Prelude.{
  ℕ, ◌≡◌, some, length, nat_eq, arith, nat_beq_iff, Option-cases, inl, inr, if◌then◌else◌, ◌==◌,
}
use feathr_events.Dict
use feathr_events.Dict.Laws.{
  get-set, get-delete, length-set_old, length-delete, set-IsDict, delete-IsDict,
}
use feathr_events.Queue.{Queue, Config, Entry, stamp}
use feathr_events.Queue.Invariant.{Inv}

pub get-stamp :
    (m deadline : ℕ) (e : Entry) (q : Queue)
    → Dict.get m (stamp m deadline e q).entries ≡ some (record e { deadline = deadline })
unfolding stamp
get-stamp m deadline e q =
    ground (arith, get-set m m (record e { deadline = deadline }) q.entries, nat_beq_iff m m)

module _ (uuid : ℕ → ℕ) (c : Config) (q : Queue) (v : Inv uuid c q) (h : ℕ) where
  -- The entry behind a live handle.
  pub live_entry :
      (m : ℕ)
      → Dict.get h q.inflight ≡ some m
      → (e : Entry) × (Dict.get m q.entries ≡ some e) × (e.handle ≡ some h)
  live_entry m live = elim (Option-cases (Dict.get m q.entries)) [
    | inl missing ↦ absurd (ground (arith, v.lent h m))
    | inr (e, found) ↦ (e, found, ground (arith, v.lent h m))
  ]

  module _ (m : ℕ) (entry : Entry) (live : Dict.get h q.inflight ≡ some m)
      (found : Dict.get m q.entries ≡ some entry) where
    pub stamp-Inv : (deadline : ℕ) → Inv uuid c (stamp m deadline entry q)
    unfolding stamp
    stamp-Inv deadline = record {
      entries_dict = set-IsDict m (record entry { deadline = deadline }) q.entries v.entries_dict;
      inflight_dict = v.inflight_dict;
      visible_nodup = v.visible_nodup;
      waiting = λ j. ground (arith, v.waiting j, same j);
      lent = λ i j p. ground (arith, v.lent i j, same j);
      held = λ i j p. ground (arith, v.held i j, same j);
      counted = omega (arith, v.counted, size);
      bounded = omega (arith, v.bounded, size);
      dlq_bounded = v.dlq_bounded;
      within = λ j. ground (arith, v.within j, same j);
      fresh_entries = λ n p. ground (arith, v.fresh_entries n, same (uuid n));
      fresh_inflight = v.fresh_inflight;
    }
      where
        stamped : Entry
        stamped = record entry { deadline = deadline }

        same :
            (j : ℕ)
            → Dict.get j (Dict.set m stamped q.entries)
              ≡ (if m == j then some stamped else Dict.get j q.entries)
        same j = get-set m j stamped q.entries

        size : length (Dict.set m stamped q.entries) ≡ length q.entries
        size = length-set_old m (record entry { deadline = deadline }) entry q.entries found

    pub deleted-Inv :
        Inv uuid c
          (record q { inflight = Dict.delete h q.inflight; entries = Dict.delete m q.entries })
    deleted-Inv = record {
      entries_dict = delete-IsDict m q.entries v.entries_dict;
      inflight_dict = delete-IsDict h q.inflight v.inflight_dict;
      visible_nodup = v.visible_nodup;
      waiting = λ j. ground (arith, v.waiting j, v.lent h m live, get-delete m j q.entries);
      lent = λ i j p. ground (
        arith,
        v.lent i j,
        v.lent i m,
        v.lent h m,
        get-delete m j q.entries,
        get-delete h i q.inflight,
      );
      held =
          λ i j p. ground (arith, v.held i j, get-delete m j q.entries, get-delete h i q.inflight);
      counted = omega (
        arith,
        v.counted,
        length-delete m entry q.entries v.entries_dict found,
        length-delete h m q.inflight v.inflight_dict live,
      );
      bounded = omega (arith, v.bounded, length-delete m entry q.entries v.entries_dict found);
      dlq_bounded = v.dlq_bounded;
      within = λ j. ground (arith, v.within j, get-delete m j q.entries);
      fresh_entries = λ n p. ground (arith, v.fresh_entries n, get-delete m (uuid n) q.entries);
      fresh_inflight = λ n p. ground (arith, v.fresh_inflight n, get-delete h (uuid n) q.inflight);
    }
