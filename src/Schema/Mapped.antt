-- ===== src/Schema/Mapped.antt =====
-- The index never gets a dynamic mapping.
use feathr_events.Prelude.{
  ℕ, List, [], ◌∷◌, some, Bool, true, false, ◌≡◌, ◌≢◌, refl, arith, Option-cases, inl, inr,
  Bool-cases, ◌∙◌, if◌then◌else◌, nat_beq,
}
use feathr_events.Faults.{Faulted, elasticsearch, guard}
use feathr_events.Stores.{Reply}
use feathr_events.Schema.{
  Cluster, Answers, ensure_schema, index_event, World, Action, drops, prepares, indexes, act,
  act_all,
}
use feathr_events.Schema.Calls.{
  called-keeps, HasTemplate, ensure_schema-HasTemplate, ensure_schema-fine, ensure_schema-failed,
  ensure_schema-ready, index_event-keeps, ensure_schema-keeps,
}

module _ (c : Cluster) where
  open c use {State, mapping, put_template, write, drop}

  -- There is no index, or it has the right mapping.
  abbrev pub IsRight : State → Type 0
  IsRight s = mapping s ≢ some false

  IsRight-write : (s : State) → IsRight s → HasTemplate c s → IsRight (write s)
  IsRight-write s h t = elim (Option-cases (mapping s)) [
    | inl new ↦ rw (c.mapping-write s, new, t) (λ e. ground arith)
    | inr (b, old) ↦ rw (c.mapping-write s, old) (λ e. h (old ∙ e))
  ]

  IsRight-put_template : (s : State) → IsRight s → IsRight (put_template s)
  IsRight-put_template s h = rw (c.mapping-put_template s) h

  IsRight-create : (s : State) → IsRight s → IsRight (c.create s)
  IsRight-create s h = rw (c.mapping-create s) (λ e. ground arith)

  index_event-HasTemplate :
      (demo_mode : Bool) (faulted : Faulted) (a : Answers) (reply : Reply) (ready : Bool)
      (s : State)
      → HasTemplate c s
      → HasTemplate c (index_event c demo_mode faulted a reply ready s).0
  index_event-HasTemplate demo_mode faulted a reply ready s h =
      index_event-keeps c (HasTemplate c) demo_mode faulted a reply ready s h
        (λ s e. c.templated-put_template s) (λ s e. c.templated-create s ∙ e)
        (λ s e t. c.templated-write s ∙ e) (λ e. h)

  index_event-ready :
      (demo_mode : Bool) (faulted : Faulted) (a : Answers) (reply : Reply) (ready : Bool)
      (s : State)
      → (ready ≡ true → HasTemplate c s)
      → (index_event c demo_mode faulted a reply ready s).1 ≡ true
      → HasTemplate c (index_event c demo_mode faulted a reply ready s).0
  unfolding index_event
  index_event-ready demo_mode faulted a reply true s t h =
      index_event-HasTemplate demo_mode faulted a reply true s (t refl)
  index_event-ready demo_mode faulted a reply false s t h =
      elim (Bool-cases (guard demo_mode elasticsearch faulted)) [
        | inl down ↦ ground (arith, down)
        | inr up ↦ elim (Bool-cases (ensure_schema c a false s).2) [
          | inl failed ↦ ground (arith, up, failed, ensure_schema-failed c a s failed)
          | inr fine ↦
              rw (up, fine)
                (called-keeps (HasTemplate c) write reply _ (ensure_schema-fine c a false s fine)
                  (λ e. c.templated-write _ ∙ e))
        ]
      ]

  module _ {κ} (ready : ℕ → Bool) (i : ℕ) (b : Bool) (P : Type κ) where
    set_ready-known :
        (b ≡ true → P)
        → ((j : ℕ) → ready j ≡ true → P)
        → (j : ℕ) → (if nat_beq i j then b else ready j) ≡ true
        → P
    set_ready-known here there j h = elim (Bool-cases (nat_beq i j)) [
      | inl same ↦ here (ground (arith, same))
      | inr other ↦ there j (ground (arith, other))
    ]

  -- The index is right, and an object that takes it for prepared knows that the template is there.
  abbrev pub IsMapped : World c → Type 0
  IsMapped w = IsRight w.cluster × ((i : ℕ) → w.ready i ≡ true → HasTemplate c w.cluster)

  act-IsMapped : (x : Action c) (w : World c) → IsMapped w → IsMapped (act c x w)
  unfolding act
  act-IsMapped (drops reply) w h = (
    called-keeps IsRight drop reply w.cluster h.0
        (λ h'. rw (c.mapping-drop w.cluster) (λ e. ground arith)),
    λ i r.
        called-keeps (HasTemplate c) drop reply w.cluster (h.1 i r) (λ e. c.templated-drop _ ∙ e),
  )
  act-IsMapped (prepares i a) w h = (
    ensure_schema-keeps c IsRight a (w.ready i) w.cluster h.0 IsRight-put_template IsRight-create,
    set_ready-known w.ready i _ (HasTemplate c _)
        (ensure_schema-ready c a (w.ready i) w.cluster (h.1 i))
        (λ j r. ensure_schema-HasTemplate c a (w.ready i) w.cluster (h.1 j r)),
  )
  act-IsMapped (indexes i demo_mode faulted a reply) w h = (
    index_event-keeps c IsRight demo_mode faulted a reply (w.ready i) w.cluster h.0
        IsRight-put_template IsRight-create IsRight-write (h.1 i),
    set_ready-known w.ready i _ (HasTemplate c _)
        (index_event-ready demo_mode faulted a reply (w.ready i) w.cluster (h.1 i))
        (λ j r. index_event-HasTemplate demo_mode faulted a reply (w.ready i) w.cluster (h.1 j r)),
  )

  -- Whatever calls fail and whoever deletes the index: from a cluster where the index is missing or has the
  -- right mapping, and an application that has prepared nothing, no sequence of deletions, preparations
  -- and writes by any of the adapters leads to an index with a dynamic mapping, and an adapter that
  -- takes the index for prepared is right that the template is there.
  pub act_all-IsMapped :
      (xs : List (Action c)) (w : World c)
      → IsRight w.cluster
      → ((i : ℕ) → w.ready i ≡ false)
      → IsMapped (act_all c xs w)
  unfolding act_all
  act_all-IsMapped xs w h none_ready = all xs w (h, λ i r. ground (arith, none_ready i))
    where
      all : (xs : List (Action c)) (w : World c) → IsMapped w → IsMapped (act_all c xs w)
      all [] w h = h
      all (x ∷ xs) w h = all xs (act c x w) (act-IsMapped x w h)
