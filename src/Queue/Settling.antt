-- ===== src/Queue/Settling.antt =====
-- What the sweep of app/queue.py does with one loan that has ended.
use feathr_events.Prelude.{
  ℕ, ◌-◌, ◌<◌, ◌≡◌, Option, none, some, length, nat_eq, arith, ◌∷◌, [], ◌++◌, ok, inl, inr, leb,
  if◌then◌else◌, ◌==◌, IsNodup-concat, contains-append, length-append, length-drop, Bool-cases,
}
use feathr_events.Dict
use feathr_events.Dict.{IsDict}
use feathr_events.Dict.Laws.{
  get-set, get-delete, length-set_old, length-delete, set-IsDict, delete-IsDict,
}
use feathr_events.Queue.{Queue, Config, Entry, bury, lapse, sweep_one, dlq_maxlen}
use feathr_events.Queue.Invariant.{Inv}

-- What is left of an entry whose loan has ended.
abbrev pub released : Config → Entry → Option Entry
released c e =
    if leb c.max_receives e.receive_count then none else some (record e { handle = none })

module _ (uuid : ℕ → ℕ) (c : Config) where
  module _ (q : Queue) (v : Inv uuid c q) (h m : ℕ) (entry : Entry)
      (live : Dict.get h q.inflight ≡ some m) (found : Dict.get m q.entries ≡ some entry) where
    abbrev pub taken : Queue
    taken = record q { inflight = Dict.delete h q.inflight }

    lapse-Inv : entry.receive_count < c.max_receives → Inv uuid c (lapse m entry taken)
    unfolding lapse
    lapse-Inv left = record {
      entries_dict = set-IsDict m (record entry { handle = none }) q.entries v.entries_dict;
      inflight_dict = delete-IsDict h q.inflight v.inflight_dict;
      visible_nodup =
          IsNodup-concat q.visible m v.visible_nodup (ground (arith, v.waiting m, v.lent h m));
      waiting = λ j. ground (
        arith,
        v.waiting j,
        contains-append j q.visible (m ∷ []),
        get-set m j (record entry { handle = none }) q.entries,
      );
      lent = λ i j p. ground (
        arith,
        v.lent i j,
        v.lent i m,
        v.lent h m live,
        get-set m j (record entry { handle = none }) q.entries,
        get-delete h i q.inflight,
      );
      held = λ i j p. ground (
        arith,
        v.held i j,
        get-set m j (record entry { handle = none }) q.entries,
        get-delete h i q.inflight,
      );
      counted = omega (
        arith,
        v.counted,
        length-append q.visible (m ∷ []),
        length-set_old m (record entry { handle = none }) entry q.entries found,
        length-delete h m q.inflight v.inflight_dict live,
      );
      bounded = omega (
        arith,
        v.bounded,
        length-set_old m (record entry { handle = none }) entry q.entries found,
      );
      dlq_bounded = v.dlq_bounded;
      within =
          λ j. ground (arith, v.within j, get-set m j (record entry { handle = none }) q.entries);
      fresh_entries = λ n p.
          ground (
            arith,
            v.fresh_entries n,
            get-set m (uuid n) (record entry { handle = none }) q.entries,
          );
      fresh_inflight = λ n p. ground (arith, v.fresh_inflight n, get-delete h (uuid n) q.inflight);
    }

    bury-Inv : Inv uuid c (bury m entry taken)
    unfolding bury
    bury-Inv = record {
      entries_dict = delete-IsDict m q.entries v.entries_dict;
      inflight_dict = delete-IsDict h q.inflight v.inflight_dict;
      visible_nodup = v.visible_nodup;
      waiting = λ j. ground (arith, v.waiting j, v.lent h m live, get-delete m j q.entries);
      lent = λ i j p. ground (
        arith,
        v.lent i j,
        v.lent i m,
        v.lent h m live,
        get-delete m j q.entries,
        get-delete h i q.inflight,
      );
      held =
          λ i j p. ground (arith, v.held i j, get-delete m j q.entries, get-delete h i q.inflight);
      counted = omega (
        arith,
        v.counted,
        length-delete m entry q.entries v.entries_dict found,
        length-delete h m q.inflight v.inflight_dict live,
      );
      bounded = omega (arith, v.bounded, length-delete m entry q.entries v.entries_dict found);
      dlq_bounded = omega (
        arith,
        v.dlq_bounded,
        length-drop (length (q.dlq ++ entry.event ∷ []) - dlq_maxlen) (q.dlq ++ entry.event ∷ []),
        length-append q.dlq (entry.event ∷ []),
      );
      within = λ j. ground (arith, v.within j, get-delete m j q.entries);
      fresh_entries = λ n p. ground (arith, v.fresh_entries n, get-delete m (uuid n) q.entries);
      fresh_inflight = λ n p. ground (arith, v.fresh_inflight n, get-delete h (uuid n) q.inflight);
    }

    abbrev pub settled : Queue
    settled =
        if leb c.max_receives entry.receive_count then bury m entry taken else lapse m entry taken

    pub settled-Inv : Inv uuid c settled
    settled-Inv = elim (Bool-cases (leb c.max_receives entry.receive_count)) [
      | inl spent ↦ rw spent bury-Inv
      | inr left ↦ rw left (lapse-Inv (ground arith))
    ]

    pub sweep_one-settled : sweep_one c h q ≡ ok settled
    unfolding sweep_one
    sweep_one-settled = rw (live, found)

    pub get-settled :
        (j : ℕ)
        → Dict.get j settled.entries ≡ (if m == j then released c entry else Dict.get j q.entries)
    unfolding bury lapse
    get-settled j =
        ground
          (arith, get-delete m j q.entries, get-set m j (record entry { handle = none }) q.entries)

    pub inflight-settled : settled.inflight ≡ Dict.delete h q.inflight
    unfolding bury lapse
    inflight-settled = ground arith
