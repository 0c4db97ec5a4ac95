-- ===== src/Queue/Sweeping.antt =====
-- `_sweep`: what it leaves of each entry, that it raises nothing, and that it keeps the invariant.
use feathr_events.Prelude.{
  ℕ, ◌≡◌, ◌≢◌, refl, Option, none, some, Bool, true, false, contains, nat_eq, arith, ◌∷◌, [], ◌++◌,
  List, nat_beq_iff, ok, Option-cases, inl, inr, leb, if◌then◌else◌, IsNodup, Bool-cases,
  append_assoc, append-nil, sym,
}
use feathr_events.Dict
use feathr_events.Dict.{IsDict}
use feathr_events.Dict.Laws.{get-delete}
use feathr_events.Queue.{Queue, Config, Entry, expired_handles, bury, lapse, sweep_each, sweep}
use feathr_events.Queue.Invariant.{Inv}
use feathr_events.Queue.Returning.{live_entry}
use feathr_events.Queue.Settling.{
  released, settled, settled-Inv, sweep_one-settled, get-settled, inflight-settled,
}

-- What a sweep leaves of an entry, if `ended h` says that the loan with handle `h` is over.
abbrev pub after_loan : Config → (Entry → ℕ → Bool) → Option Entry → Option Entry
after_loan c ended none = none
after_loan c ended (some e) = elim e.handle [
  | none ↦ some e
  | some h ↦ if ended e h then released c e else some e
]

abbrev pub overdue : ℕ → Option Entry → Bool
overdue now none = false
overdue now (some e) = leb e.deadline now

abbrev loan_over : ℕ → List (ℕ × Entry) → Option ℕ → Bool
loan_over now entries none = false
loan_over now entries (some m) = overdue now (Dict.get m entries)

-- The comprehension finds the loans that are over, each once.
expired_handles-lists :
    (now : ℕ) (entries : List (ℕ × Entry)) (inflight : List (ℕ × ℕ))
    → IsDict inflight
    → ((h m : ℕ) → Dict.get h inflight ≡ some m → Dict.get m entries ≢ none)
    → (hs : List ℕ) × (expired_handles now entries inflight ≡ ok hs)
      × IsNodup hs
      × ((h : ℕ) → contains h hs ≡ loan_over now entries (Dict.get h inflight))
unfolding expired_handles Dict.get
expired_handles-lists now entries [] u known = ([], refl, tt, λ h. refl)
expired_handles-lists now entries ((k, m) ∷ inflight) u known =
    let (hs, same, nodup, spec) =
      expired_handles-lists now entries inflight u.1
        (λ h j p. known h j (ground (arith, nat_beq_iff k h))) in
    elim (Option-cases (Dict.get m entries)) [
      | inl missing ↦ absurd (known k m (ground arith) missing)
      | inr (e, found) ↦ (
        (if leb e.deadline now then k ∷ hs else hs),
        ground arith,
        ground (arith, spec k),
        λ h. ground (arith, spec h, nat_beq_iff k h),
      )
    ]

module _ (uuid : ℕ → ℕ) (c : Config) where
  -- A property of the queue that each ended loan keeps.
  abbrev pub KeptBySettling : (Queue → Type 0) → Type 0
  KeptBySettling P =
      (q : Queue) (v : Inv uuid c q) (h m : ℕ) (entry : Entry) (on : Dict.get h q.inflight ≡ some m)
      (found : Dict.get m q.entries ≡ some entry)
      → P q
      → P (settled uuid c q v h m entry on found)

  module _ (P : Queue → Type 0) (keep : KeptBySettling P) where
    -- The loop of `_sweep` over handles that are live and distinct.
    sweep_each-keeps :
        (hs : List ℕ) (q : Queue)
        → Inv uuid c q
        → IsNodup hs
        → ((h : ℕ) → contains h hs ≡ true → Dict.get h q.inflight ≢ none)
        → P q
        → (p : Queue) × (sweep_each c hs q ≡ ok p)
          × Inv uuid c p
          × P p
          × ((m : ℕ)
              → Dict.get m p.entries ≡ after_loan c (λ e h. contains h hs) (Dict.get m q.entries))
    unfolding sweep_each
    sweep_each-keeps [] q v d live k = (q, refl, v, k, λ m. ground arith)
    sweep_each-keeps (h ∷ hs) q v d live k = elim (Option-cases (Dict.get h q.inflight)) [
      | inl missing ↦ absurd (live h (ground (arith, nat_beq_iff h h)) missing)
      | inr (m, on) ↦
          let (entry, found, mine) = live_entry uuid c q v h m on in
          let p : Queue = settled uuid c q v h m entry on found in
          let (r, run, w, kept, spec) =
            sweep_each-keeps hs p (settled-Inv uuid c q v h m entry on found) d.1
              (λ i mem. ground (
                arith,
                live i,
                inflight-settled uuid c q v h m entry on found,
                get-delete h i q.inflight,
                d.0,
                nat_beq_iff h i,
              ))
              (keep q v h m entry on found k) in
          (
            r,
            rw (sweep_one-settled uuid c q v h m entry on found) run,
            w,
            kept,
            λ j. ground (
              arith,
              spec j,
              get-settled uuid c q v h m entry on found j,
              v.held h j,
              on,
              d.0,
              nat_beq_iff m j,
            ),
          )
    ]

    pub sweep-keeps :
        (now : ℕ) (q : Queue)
        → Inv uuid c q
        → P q
        → (p : Queue) × (sweep c now q ≡ ok p)
          × Inv uuid c p
          × P p
          × ((m : ℕ)
              → Dict.get m p.entries
                ≡ after_loan c (λ e h. leb e.deadline now) (Dict.get m q.entries))
    unfolding sweep
    sweep-keeps now q v k =
        let (hs, same, nodup, spec) =
          expired_handles-lists now q.entries q.inflight v.inflight_dict
            (λ h m p. ground (arith, v.lent h m)) in
        let (p, run, w, kept, left) =
          sweep_each-keeps hs q v nodup (λ h mem. ground (arith, spec h)) k in
        (
          p,
          rw same run,
          w,
          kept,
          λ m. elim (Option-cases (Dict.get m q.entries)) [
            | inl missing ↦ ground (arith, left m)
            | inr (e, found) ↦ elim (Option-cases e.handle) [
              | inl idle ↦ ground (arith, left m)
              | inr (h, on) ↦ ground (arith, left m, spec h, v.held h m)
            ]
          ],
        )

  -- Ended loans return to the end of the visible list, and no identifier is drawn.
  abbrev pub Extends : Queue → Queue → Type 0
  Extends q p = (p.drawn ≡ q.drawn) × (back : List ℕ) × (p.visible ≡ q.visible ++ back)

  settled-Extends : (q : Queue) → KeptBySettling (Extends q)
  unfolding bury lapse
  settled-Extends q r v h m entry on found (same, back, grown) =
      elim (Bool-cases (leb c.max_receives entry.receive_count)) [
        | inl spent ↦ rw spent (same, back, grown)
        | inr left ↦ rw left (same, back ++ m ∷ [], rw grown (append_assoc q.visible back (m ∷ [])))
      ]

  -- A sweep raises nothing, keeps the invariant, and ends exactly the loans whose deadline has come.
  pub sweep-Inv :
      (now : ℕ) (q : Queue)
      → Inv uuid c q
      → (p : Queue) × (sweep c now q ≡ ok p)
        × Inv uuid c p
        × Extends q p
        × ((m : ℕ)
            → Dict.get m p.entries
              ≡ after_loan c (λ e h. leb e.deadline now) (Dict.get m q.entries))
  sweep-Inv now q v =
      sweep-keeps (Extends q) (settled-Extends q) now q v (refl, [], sym (append-nil q.visible))
