-- ===== src/Schema/Calls.antt =====
-- What the calls of the adapter keep, however each of them ends.
use feathr_events.Prelude.{
  Bool, true, false, ◌≡◌, refl, arith, Option-cases, inl, inr, ◌⊎◌, Bool-cases, ◌∙◌,
}
use feathr_events.Faults.{Faulted, elasticsearch, guard}
use feathr_events.Stores.{Reply, done, refused, unconfirmed}
use feathr_events.Schema.{
  Cluster, Answers, called, checked, ensure_schema, index_event, Verdict, silent, warned, raised,
  warn_if_the_mapping_is_wrong,
}

-- What holds before a call and is kept by its effect holds after it, however it ends.
pub called-keeps {ℓ κ} :
    {S : Type ℓ} (P : S → Type κ) (f : S → S) (reply : Reply) (s : S)
    → P s
    → (P s → P (f s))
    → P (called f reply s).0
unfolding called
called-keeps P f done s h k = k h
called-keeps P f refused s h k = h
called-keeps P f unconfirmed s h k = k h

called-done {ℓ κ} :
    {S : Type ℓ} (P : S → Type κ) (f : S → S) (reply : Reply) (s : S)
    → ((s : S) → P (f s))
    → (called f reply s).1 ≡ false
    → P (called f reply s).0
unfolding called
called-done P f done s k h = k s
called-done P f refused s k h = ground arith
called-done P f unconfirmed s k h = k s

Verdict-cases : (v : Verdict) → (v ≡ silent) ⊎ (v ≡ warned) ⊎ (v ≡ raised)
Verdict-cases silent = inl refl
Verdict-cases warned = inr (inl refl)
Verdict-cases raised = inr (inr refl)

module _ (c : Cluster) where
  open c use {State, mapping, templated, put_template, write, drop}

  abbrev pub HasTemplate : State → Type 0
  HasTemplate s = templated s ≡ true

  -- What the effects of the calls keep is kept by a run of calls, however each of them ends.
  module _ {κ} (P : State → Type κ) where
    checked-keeps :
        (a : Answers) (s : State) → P s → ((s : State) → P s → P (c.create s)) → P (checked c a s).0
    unfolding checked
    checked-keeps a s h create = elim (Bool-cases a.exists) [
      | inr silence ↦ rw silence h
      | inl answers ↦ elim (Option-cases (mapping s)) [
        | inl new ↦ rw (answers, new) (called-keeps P c.create a.create s h (create s))
        | inr (b, old) ↦ elim (Verdict-cases (warn_if_the_mapping_is_wrong a.fetched)) [
          | inl e ↦ rw (answers, old, e) h
          | inr (inl e) ↦ rw (answers, old, e) h
          | inr (inr e) ↦ rw (answers, old, e) h
        ]
      ]
    ]

    pub ensure_schema-keeps :
        (a : Answers) (ready : Bool) (s : State)
        → P s
        → ((s : State) → P s → P (put_template s))
        → ((s : State) → P s → P (c.create s))
        → P (ensure_schema c a ready s).0
    unfolding ensure_schema
    ensure_schema-keeps a ready s h put create =
        let h1 = called-keeps P put_template a.template s h (put s) in
        let s1 = (called put_template a.template s).0 in
        let h2 = checked-keeps a s1 h1 create in
        elim (Bool-cases (called put_template a.template s).1) [
          | inl failed ↦ rw failed h1
          | inr fine ↦ elim (Bool-cases (checked c a s1).1) [
            | inl failed ↦ rw (fine, failed) h2
            | inr fine' ↦ rw (fine, fine') h2
          ]
        ]

  pub ensure_schema-HasTemplate :
      (a : Answers) (ready : Bool) (s : State)
      → HasTemplate s
      → HasTemplate (ensure_schema c a ready s).0
  ensure_schema-HasTemplate a ready s h =
      ensure_schema-keeps HasTemplate a ready s h (λ s e. c.templated-put_template s)
        (λ s e. c.templated-create s ∙ e)

  -- A run that did not raise has put the template.
  pub ensure_schema-fine :
      (a : Answers) (ready : Bool) (s : State)
      → (ensure_schema c a ready s).2 ≡ false
      → HasTemplate (ensure_schema c a ready s).0
  unfolding ensure_schema
  ensure_schema-fine a ready s h =
      let s1 = (called put_template a.template s).0 in
      elim (Bool-cases (called put_template a.template s).1) [
        | inl failed ↦ ground (arith, failed)
        | inr fine ↦
            let h1 =
              called-done HasTemplate put_template a.template s c.templated-put_template fine in
            let h2 = checked-keeps HasTemplate a s1 h1 (λ s e. c.templated-create s ∙ e) in
            elim (Bool-cases (checked c a s1).1) [
              | inl failed ↦ ground (arith, fine, failed)
              | inr fine' ↦ rw (fine, fine') h2
            ]
      ]

  pub ensure_schema-failed :
      (a : Answers) (s : State)
      → (ensure_schema c a false s).2 ≡ true
      → (ensure_schema c a false s).1 ≡ false
  unfolding ensure_schema
  ensure_schema-failed a s h = ground arith

  pub ensure_schema-ready :
      (a : Answers) (ready : Bool) (s : State)
      → (ready ≡ true → HasTemplate s)
      → (ensure_schema c a ready s).1 ≡ true
      → HasTemplate (ensure_schema c a ready s).0
  ensure_schema-ready a true s t h = ensure_schema-HasTemplate a true s (t refl)
  ensure_schema-ready a false s t h = elim (Bool-cases (ensure_schema c a false s).2) [
    | inr fine ↦ ensure_schema-fine a false s fine
    | inl failed ↦ ground (arith, ensure_schema-failed a s failed)
  ]

  pub index_event-keeps {κ} :
      (P : State → Type κ) (demo_mode : Bool) (faulted : Faulted) (a : Answers) (reply : Reply)
      (ready : Bool) (s : State)
      → P s
      → ((s : State) → P s → P (put_template s))
      → ((s : State) → P s → P (c.create s))
      → ((s : State) → P s → HasTemplate s → P (write s))
      → (ready ≡ true → HasTemplate s)
      → P (index_event c demo_mode faulted a reply ready s).0
  unfolding index_event
  index_event-keeps P demo_mode faulted a reply true s h put create written t =
      elim (Bool-cases (guard demo_mode elasticsearch faulted)) [
        | inl down ↦ rw down h
        | inr up ↦ rw up (called-keeps P write reply s h (λ h'. written s h' (t refl)))
      ]
  index_event-keeps P demo_mode faulted a reply false s h put create written t =
      elim (Bool-cases (guard demo_mode elasticsearch faulted)) [
        | inl down ↦ rw down h
        | inr up ↦ elim (Bool-cases (ensure_schema c a false s).2) [
          | inl failed ↦ rw (up, failed) (ensure_schema-keeps P a false s h put create)
          | inr fine ↦
              rw (up, fine)
                (called-keeps P write reply _ (ensure_schema-keeps P a false s h put create)
                  (λ h'. written _ h' (ensure_schema-fine a false s fine)))
        ]
      ]
