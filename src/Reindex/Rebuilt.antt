-- ===== src/Reindex/Rebuilt.antt =====
-- What a run of scripts/reindex.py leaves in the index.
use feathr_events.Prelude.{
  ℕ, ◌+◌, ◌⊎◌, List, none, some, Bool, true, false, ◌≡◌, refl, arith, ◌&&◌, ◌∙◌, ap, Bool-cases,
  Option-cases, inl, inr, if◌then◌else◌, length, sym, All, nat_beq, nat_eq,
}
use mathlib.Core.Option.{some_inj}
use feathr_events.Stores.{Documents, Reply, done, refused, unconfirmed}
use feathr_events.Reindex.{Doc, Calls, Printed, Progress, delete_index, main}
use feathr_events.Reindex.Looped.{
  latest, Keeps, IsUndisturbed, looped, looped-counts, looped-finds, looped-undisturbed,
}

abbrev printed : Bool → (done errors : ℕ) → Printed
printed same n m = record { code = if same && nat_beq m 0 then 0 else 1; done = n; errors = m }

same_result :
    (same : Bool) (n n' m : ℕ)
    → m ≡ 0
    → n ≡ n'
    → printed same n m ≡ (record { code = if same then 0 else 1; done = n'; errors = 0 })
same_result true n n' m e d = rw (e, d) refl
same_result false n n' m e d = rw (e, d) refl

module _ (db : Documents) (drop : db.State → db.State) (count : db.State → ℕ)
    (demo_mode : Bool) where
  open db use {State, find}

  abbrev started : (recreate : Bool) → Reply → State → Progress db drop count
  started recreate reply s = record {
    indexed = (delete_index db drop count recreate reply s).0;
    done = 0;
    errors = 0;
  }

  abbrev result_of : ℕ → Progress db drop count → Printed
  result_of total p = printed (nat_beq (count p.indexed) total) p.done p.errors

  -- A run that prints its result went through the loop.
  main-cases :
      (recreate : Bool) (calls : Calls) (docs : List (Doc × Reply)) (s : State)
      → let r = main db drop count demo_mode recreate calls docs s in
        let p = looped db drop count demo_mode docs (started recreate calls.deleted s) in
        (r.1 ≡ none)
        ⊎ ((total : ℕ) × (calls.counted ≡ some total)
            × ((delete_index db drop count recreate calls.deleted s).1 ≡ false)
            × (r ≡ (p.indexed, some (result_of total p))))
  unfolding main
  main-cases recreate calls docs s = elim (Option-cases calls.counted) [
    | inl e ↦ rw e (inl refl)
    | inr (total, e) ↦ elim (Bool-cases (delete_index db drop count recreate calls.deleted s).1) [
      | inl raised ↦ rw (e, raised) (inl refl)
      | inr fine ↦ elim (Bool-cases calls.prepared) [
        | inr bad ↦ rw (e, fine, bad) (inl refl)
        | inl good ↦ elim (Bool-cases (calls.refreshed && calls.count_answers)) [
          | inr bad ↦ rw (e, fine, good, bad) (inl refl)
          | inl all ↦ rw (e, fine, good, all) (inr (total, refl, refl, refl))
        ]
      ]
    ]
  ]

  deleted-finds :
      (recreate : Bool) (reply : Reply) (s : State)
      → ((j : ℕ) (s : State) → find j (drop s) ≡ none)
      → (delete_index db drop count recreate reply s).1 ≡ false
      → (j : ℕ) → find j (started recreate reply s).indexed ≡ (if recreate then none else find j s)
  unfolding delete_index
  deleted-finds false reply s d h j = refl
  deleted-finds true done s d h j = d j s
  deleted-finds true refused s d h j = ground arith
  deleted-finds true unconfirmed s d h j = ground arith

  deleted-done :
      (recreate : Bool) (s : State) → (delete_index db drop count recreate done s).1 ≡ false
  unfolding delete_index
  deleted-done false s = refl
  deleted-done true s = refl

  -- Every call succeeds.
  abbrev pub smooth : ℕ → Calls
  smooth total = record {
    counted = some total;
    deleted = done;
    prepared = true;
    refreshed = true;
    count_answers = true;
  }

  -- The printed counters add up to the number of documents that the cursor yielded.
  pub main-accounts :
      (recreate : Bool) (calls : Calls) (docs : List (Doc × Reply)) (s : State) (r : Printed)
      → (main db drop count demo_mode recreate calls docs s).1 ≡ some r
      → r.done + r.errors ≡ length docs
  main-accounts recreate calls docs s r h = elim (main-cases recreate calls docs s) [
    | inl e ↦ ground (arith, e, h)
    | inr (total, _, _, e) ↦
        let same : result_of total _ ≡ r = some_inj.0 (sym (ap (λ x. x.1) e) ∙ h) in
        rw⁻¹ same (
          omega (
            arith,
            (looped-counts db drop count demo_mode docs (started recreate calls.deleted s)).0,
          ))
  ]

  -- Where a deletion leaves nothing to find: after a run that exits with 0 the index holds as many
  -- documents as were counted at the start, every document of the cursor is in it with its event, what
  -- else is in it was there before the run, and with `--recreate` there is nothing else.
  pub exit_zero-rebuilds :
      (recreate : Bool) (calls : Calls) (docs : List (Doc × Reply)) (s : State) (r : Printed)
      → All Keeps docs
      → ((j : ℕ) (s : State) → find j (drop s) ≡ none)
      → (main db drop count demo_mode recreate calls docs s).1 ≡ some r
      → r.code ≡ 0
      → let s' = (main db drop count demo_mode recreate calls docs s).0 in
        (calls.counted ≡ some (count s'))
        × ((j : ℕ) → find j s' ≡ latest j docs (if recreate then none else find j s))
  exit_zero-rebuilds recreate calls docs s r k d h zero = elim (main-cases recreate calls docs s) [
    | inl e ↦ ground (arith, e, h)
    | inr (total, counted, fine, e) ↦
        let p = looped db drop count demo_mode docs (started recreate calls.deleted s) in
        let same : result_of total p ≡ r = some_inj.0 (sym (ap (λ x. x.1) e) ∙ h) in
        let code : (result_of total p).code ≡ 0 = ap (λ x. x.code) same ∙ zero in
        rw e (
          counted ∙ ap some (ground (arith, code)),
          λ j.
              looped-finds db drop count demo_mode docs (started recreate calls.deleted s) k
                (ground (arith, code)) j
              ∙ ap (latest j docs) (deleted-finds recreate calls.deleted s d fine j),
        )
  ]

  -- Where the deletion, if there is one, leaves nothing to find, every call succeeds and every document
  -- is valid: the run ends, counts each document as done and none as an error, and leaves each in the
  -- index; it exits with 0 if and only if the index then holds as many documents as were counted.
  main-rebuilds :
      (recreate : Bool) (docs : List (Doc × Reply)) (total : ℕ) (s : State)
      → All Keeps docs
      → All (IsUndisturbed db drop count demo_mode) docs
      → ((j : ℕ) (s : State) → find j (drop s) ≡ none)
      → let r = main db drop count demo_mode recreate (smooth total) docs s in
        (r.1
          ≡ some (record {
            code = if nat_beq (count r.0) total then 0 else 1;
            done = length docs;
            errors = 0;
          }))
        × ((j : ℕ) → find j r.0 ≡ latest j docs (if recreate then none else find j s))
  unfolding main
  main-rebuilds recreate docs total s k u d =
      let p = started recreate done s in
      let fine = deleted-done recreate s in
      let errors = looped-undisturbed db drop count demo_mode docs p u in
      rw fine (
        ap some (
            same_result (nat_beq (count (looped db drop count demo_mode docs p).indexed) total) _ _
              _ errors (omega (arith, (looped-counts db drop count demo_mode docs p).0, errors))),
        λ j.
            looped-finds db drop count demo_mode docs p k errors j
            ∙ ap (latest j docs) (deleted-finds recreate done s d fine j),
      )
