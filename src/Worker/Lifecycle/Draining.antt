-- ===== src/Worker/Lifecycle/Draining.antt =====
-- The drain of a worker comes to an end.
use feathr_events.Prelude.{
  ℕ, ◌≤◌, List, [], ◌∷◌, Bool, true, false, ◌≡◌, ◌≢◌, refl, arith, All, ◌⊎◌, inl, inr, Bool-cases,
  ap, subst, sym, ◌∙◌, nat_beq, nat_beq_iff, if◌then◌else◌, contains, nat_eq,
}
use feathr_events.Stores.{Documents}
use feathr_events.Worker.{
  Settings, World, Pc, idle, handling, storing, indexing, ended, cancel, System, resume,
}
use feathr_events.Worker.Lifecycle.{Worker, Step, drain, is_ended, cancel_pending, stop}
use feathr_events.Worker.Lifecycle.Ahead.{ahead, moves, drain-ahead}

module _ (mongo elastic : Documents) (c : Settings) where
  ahead-ended : (p : Pc) → ahead p ≡ 0 → p ≡ ended
  ahead-ended ended h = refl
  ahead-ended idle h = ground (arith, h)
  ahead-ended (handling ms) h = absurd (omega (arith, h))
  ahead-ended (storing m rest) h = absurd (omega (arith, h))
  ahead-ended (indexing m rest) h = absurd (omega (arith, h))

  cancelled-ended :
      (applied : Bool) (w : World mongo elastic) (p : Pc)
      → (cancel mongo elastic c applied w p).1 ≡ ended
  unfolding cancel
  cancelled-ended applied w idle = refl
  cancelled-ended applied w ended = refl
  cancelled-ended applied w (handling ms) = refl
  cancelled-ended applied w (storing m rest) = refl
  cancelled-ended applied w (indexing m rest) = refl

  is_ended-cases : (p : Pc) → (p ≡ ended) ⊎ (is_ended mongo elastic c p ≡ false)
  is_ended-cases ended = inl refl
  is_ended-cases idle = inr refl
  is_ended-cases (handling ms) = inr refl
  is_ended-cases (storing m rest) = inr refl
  is_ended-cases (indexing m rest) = inr refl

  -- One round of the cancellation.
  abbrev cut : (ℕ → Bool) → ℕ → System mongo elastic c → System mongo elastic c
  cut applied i s =
      if is_ended mongo elastic c (s.pc i)
      then s
      else resume mongo elastic c s i (cancel mongo elastic c (applied i) s.world (s.pc i))

  cut-ended :
      (applied : ℕ → Bool) (i j : ℕ) (s : System mongo elastic c)
      → (i ≡ j) ⊎ (s.pc j ≡ ended)
      → (cut applied i s).pc j ≡ ended
  cut-ended applied i j s h = elim (is_ended-cases (s.pc i)) [
    | inl e ↦ elim h [ inl same ↦ rw (e, ← same) e | inr there ↦ rw e there ]
    | inr live ↦ elim (Bool-cases (nat_beq i j)) [
      | inl same ↦ rw (live, same) (cancelled-ended (applied i) s.world (s.pc i))
      | inr other ↦ elim h [
        | inl same ↦ absurd (ground (arith, same, other, nat_beq_iff i j))
        | inr there ↦ rw (live, other) there
      ]
    ]
  ]

  cancel_pending-ended :
      (applied : ℕ → Bool) (j : ℕ) (is : List ℕ) (s : System mongo elastic c)
      → (contains j is ≡ true) ⊎ (s.pc j ≡ ended)
      → (cancel_pending mongo elastic c applied is s).pc j ≡ ended
  unfolding cancel_pending
  cancel_pending-ended applied j [] s (inl h) = ground (arith, h)
  cancel_pending-ended applied j [] s (inr h) = h
  cancel_pending-ended applied j (i ∷ is) s h =
      cancel_pending-ended applied j is (cut applied i s) (elim h [
        | inr there ↦ inr (cut-ended applied i j s (inr there))
        | inl listed ↦ elim (Bool-cases (nat_beq j i)) [
          | inl same ↦ inr (cut-ended applied i j s (inl (sym ((nat_beq_iff j i).0 same))))
          | inr other ↦ inl (ground (arith, listed, other))
        ]
      ])

  cancel_pending-none :
      (applied : ℕ → Bool) (is : List ℕ) (s : System mongo elastic c)
      → All (λ i. s.pc i ≡ ended) is
      → cancel_pending mongo elastic c applied is s ≡ s
  unfolding cancel_pending
  cancel_pending-none applied [] s h = refl
  cancel_pending-none applied (i ∷ is) s h = rw h.0 (cancel_pending-none applied is s h.1)

  drained :
      (steps : List (Step mongo elastic c)) (s : System mongo elastic c) (is : List ℕ)
      → All (λ i. ahead (s.pc i) ≤ moves mongo elastic c i steps) is
      → All (λ i. (drain mongo elastic c steps s).pc i ≡ ended) is
  drained steps s [] h = tt
  drained steps s (i ∷ is) h = (
    ahead-ended _ (omega (arith, drain-ahead mongo elastic c i steps s, h.0)),
    drained steps s is h.1,
  )

  tasks-cases : (is : List ℕ) → (is ≡ []) ⊎ ((i : ℕ) × (js : List ℕ) × (is ≡ i ∷ js))
  tasks-cases [] = inl refl
  tasks-cases (i ∷ js) = inr (i, js, refl)

  -- However the drain goes, and whatever the stores, the clock and the API do meanwhile: after `stop` no
  -- task is left, and every consumer that was one has ended.
  pub stop-ends :
      (steps : List (Step mongo elastic c)) (applied : ℕ → Bool) (w : Worker mongo elastic c)
      (j : ℕ)
      → contains j w.tasks ≡ true
      → ((stop mongo elastic c steps applied w).tasks ≡ [])
        × ((stop mongo elastic c steps applied w).system.pc j ≡ ended)
  unfolding stop
  stop-ends steps applied w j h = elim (tasks-cases w.tasks) [
    | inl e ↦ absurd (ground (arith, e, h))
    | inr (i, js, e) ↦ rw e (
      refl,
      cancel_pending-ended applied j (i ∷ js) (drain mongo elastic c steps w.system)
          (inl (ap (contains j) (sym e) ∙ h)),
    )
  ]

  -- If each consumer gets as many turns during the drain as it has segments ahead of it, three for each
  -- message of its batch and two more at most, then whatever the stores, the clock and the API do in
  -- between, `stop` cancels nobody: all consumers have ended by themselves.
  pub stop-drains :
      (steps : List (Step mongo elastic c)) (applied : ℕ → Bool) (w : Worker mongo elastic c)
      → w.tasks ≢ []
      → All (λ i. ahead (w.system.pc i) ≤ moves mongo elastic c i steps) w.tasks
      → ((stop mongo elastic c steps applied w).system ≡ drain mongo elastic c steps w.system)
        × All (λ i. (drain mongo elastic c steps w.system).pc i ≡ ended) w.tasks
  unfolding stop
  stop-drains steps applied w some_task enough = elim (tasks-cases w.tasks) [
    | inl e ↦ absurd (some_task e)
    | inr (i, js, e) ↦
        let all = drained steps w.system w.tasks enough in
        (
          rw e (
              cancel_pending-none applied (i ∷ js) _ (
                subst (λ is. All (λ k. (drain mongo elastic c steps w.system).pc k ≡ ended) is) e
                  all)),
          all,
        )
  ]
