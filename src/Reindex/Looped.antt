-- ===== src/Reindex/Looped.antt =====
-- What the loop of scripts/reindex.py leaves in the index.
use feathr_events.Prelude.{
  ℕ, suc, ◌+◌, ◌⊎◌, List, [], ◌∷◌, Option, none, some, Bool, true, false, ◌≡◌, ◌≢◌, refl, arith,
  ◌∙◌, ap, Option-cases, ◌≤◌, inl, inr, if◌then◌else◌, length, sym, All, nat_beq, nat_eq,
}
use feathr_events.Models.{Event}
use feathr_events.Faults.{guard, is_faulted, elasticsearch}
use feathr_events.Stores.{Documents, Reply, done, refused, unconfirmed, index, write}
use feathr_events.Reindex.{Doc, Progress, index_doc, index_docs}

-- What an index that held `old` of an `_id` holds after the documents were written to it.
abbrev pub latest : ℕ → List (Doc × Reply) → Option Event → Option Event
latest j [] old = old
latest j ((doc, reply) ∷ docs) old = latest j docs (if nat_beq doc.id j then doc.event else old)

-- The event that `Event(**doc)` returns has the `_id` as its identifier.
abbrev pub Keeps : Doc × Reply → Type 0
Keeps (doc, reply) = (e : Event) → doc.event ≡ some e → e.event_id ≡ doc.id

guard-unfaulted : (demo_mode : Bool) → guard demo_mode elasticsearch [] ≡ false
unfolding guard is_faulted
guard-unfaulted false = refl
guard-unfaulted true = refl

Reply-cases : (r : Reply) → (r ≡ done) ⊎ (r ≡ refused) ⊎ (r ≡ unconfirmed)
Reply-cases done = inl refl
Reply-cases refused = inr (inl refl)
Reply-cases unconfirmed = inr (inr refl)

module _ (db : Documents) (drop : db.State → db.State) (count : db.State → ℕ)
    (demo_mode : Bool) where
  open db use {State, find, find-put}

  abbrev pub looped : List (Doc × Reply) → Progress db drop count → Progress db drop count
  looped = index_docs db drop count demo_mode

  -- A document is written and counted as done, or counted as an error.
  index_doc-cases :
      (doc : Doc) (reply : Reply) (p : Progress db drop count)
      → let q = index_doc db drop count demo_mode doc reply p in
        ((e : Event) × (doc.event ≡ some e)
          × (q.indexed ≡ db.put e.event_id e p.indexed)
          × (q.done ≡ suc p.done)
          × (q.errors ≡ p.errors))
        ⊎ ((q.done ≡ p.done) × (q.errors ≡ suc p.errors) × ((doc.event ≡ none) ⊎ (reply ≢ done)))
  unfolding index_doc index write
  index_doc-cases doc reply p = elim (Option-cases doc.event) [
    | inl bad ↦ rw bad (inr (refl, omega arith, inl refl))
    | inr (e, good) ↦ elim (Reply-cases reply) [
      | inl all ↦ rw (good, all, guard-unfaulted demo_mode) (inl (e, refl, refl, omega arith, refl))
      | inr (inl lost) ↦
          rw (good, lost, guard-unfaulted demo_mode)
            (inr (refl, omega arith, inr (λ e. ground (arith, e))))
      | inr (inr late) ↦
          rw (good, late, guard-unfaulted demo_mode)
            (inr (refl, omega arith, inr (λ e. ground (arith, e))))
    ]
  ]

  -- Every document is counted once, and the errors do not go down.
  pub looped-counts :
      (docs : List (Doc × Reply)) (p : Progress db drop count)
      → ((looped docs p).done + (looped docs p).errors ≡ p.done + p.errors + length docs)
        × (p.errors ≤ (looped docs p).errors)
  unfolding index_docs
  looped-counts [] p = (omega arith, omega arith)
  looped-counts ((doc, reply) ∷ docs) p =
      let q = index_doc db drop count demo_mode doc reply p in
      let (sum, grows) = looped-counts docs q in
      elim (index_doc-cases doc reply p) [
        | inl (e, _, _, more, same) ↦ (omega (arith, sum, more, same), omega (arith, grows, same))
        | inr (same, more, _) ↦ (omega (arith, sum, more, same), omega (arith, grows, more))
      ]

  -- A loop without errors wrote every document.
  pub looped-finds :
      (docs : List (Doc × Reply)) (p : Progress db drop count)
      → All Keeps docs
      → (looped docs p).errors ≡ p.errors
      → (j : ℕ) → find j (looped docs p).indexed ≡ latest j docs (find j p.indexed)
  unfolding index_docs
  looped-finds [] p k h j = refl
  looped-finds ((doc, reply) ∷ docs) p k h j =
      let q = index_doc db drop count demo_mode doc reply p in
      let grows = (looped-counts docs q).1 in
      elim (index_doc-cases doc reply p) [
        | inr (_, more, _) ↦ absurd (omega (arith, h, more, grows))
        | inl (e, good, put, _, same) ↦
            looped-finds docs q k.1 (h ∙ sym same) j
            ∙ ap (latest j docs) (
                ap (find j) put
                ∙ find-put e.event_id j e p.indexed
                ∙ ap (λ i. if nat_beq i j then some e else find j p.indexed) (k.0 e good)
                ∙ rw good refl)
      ]

  -- A loop whose documents are valid and whose writes succeed makes no errors.
  abbrev pub IsUndisturbed : Doc × Reply → Type 0
  IsUndisturbed (doc, reply) = (doc.event ≢ none) × (reply ≡ done)

  pub looped-undisturbed :
      (docs : List (Doc × Reply)) (p : Progress db drop count)
      → All IsUndisturbed docs
      → (looped docs p).errors ≡ p.errors
  unfolding index_docs
  looped-undisturbed [] p h = refl
  looped-undisturbed ((doc, reply) ∷ docs) p h = elim (index_doc-cases doc reply p) [
    | inl (e, _, _, _, same) ↦ looped-undisturbed docs _ h.1 ∙ same
    | inr (_, _, inl bad) ↦ absurd (h.0.0 bad)
    | inr (_, _, inr bad) ↦ absurd (bad h.0.1)
  ]
