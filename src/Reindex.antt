-- ===== src/Reindex.antt =====
-- scripts/reindex.py: the index built anew from the source of truth. How each call of a driver ends is an
-- argument, and so are the documents that the cursor yields. Nobody else writes the index meanwhile.
mod Tests
pub mod Looped
pub mod Rebuilt
use feathr_events.Prelude.{
  ℕ, ◌+◌, List, [], ◌∷◌, Option, none, some, Bool, true, false, ◌&&◌, if◌then◌else◌, ◌≡◌, nat_beq,
}
use feathr_events.Models.{Event}
use feathr_events.Stores.{Documents, Reply, done, refused, unconfirmed, index}

-- A document of the cursor: its `_id`, and what `Event(**doc)` returns, if it does not raise.
pub record Doc : Type 0 where
  pub id : ℕ
  pub event : Option Event

-- How the calls outside the loop end: whether `count_documents` answers and with what, the deletion of
-- the index, whether `ensure_schema` and `refresh` succeed, and whether `count` answers.
pub record Calls : Type 0 where
  pub counted : Option ℕ
  pub deleted : Reply
  pub prepared : Bool
  pub refreshed : Bool
  pub count_answers : Bool

-- What a run prints before it returns the exit code.
pub record Printed : Type 0 where
  pub code : ℕ
  pub done : ℕ
  pub errors : ℕ

module _ (db : Documents) (drop : db.State → db.State) (count : db.State → ℕ) where
  open db use {State}

  -- The index, and the counters `done` and `errors`.
  pub record Progress : Type 0 where
    pub indexed : State
    pub done : ℕ
    pub errors : ℕ

  -- One round of the loop. The script has faults of its own, which nobody switches on, and its adapter
  -- is ready after `ensure_schema`.
  unfoldable pub index_doc : (demo_mode : Bool) → Doc → Reply → Progress → Progress
  unfolding index
  index_doc demo_mode doc reply p = elim doc.event [
    | none ↦ record p { errors = p.errors + 1 }
    | some e ↦
        let (s, ready, raised) = index db demo_mode [] true reply true e p.indexed in
        if raised
        then record { indexed = s; done = p.done; errors = p.errors + 1 }
        else record { indexed = s; done = p.done + 1; errors = p.errors }
  ]

  unfoldable pub index_docs : (demo_mode : Bool) → List (Doc × Reply) → Progress → Progress
  unfolding index_doc
  index_docs demo_mode [] p = p
  index_docs demo_mode ((doc, reply) ∷ docs) p =
      index_docs demo_mode docs (index_doc demo_mode doc reply p)

  -- `indices.delete` with `ignore_status=404`: the index, and whether it raised.
  unfoldable pub delete_index : (recreate : Bool) → Reply → State → State × Bool
  delete_index false reply s = (s, false)
  delete_index true done s = (drop s, false)
  delete_index true refused s = (s, true)
  delete_index true unconfirmed s = (drop s, true)

  -- `main`: the index, and what is printed, or `none` if an exception left it.
  unfoldable pub main :
      (demo_mode recreate : Bool) → Calls → List (Doc × Reply) → State → State × Option Printed
  unfolding index_docs delete_index
  main demo_mode recreate calls docs s = elim calls.counted [
    | none ↦ (s, none)
    | some total ↦
        let (s1, raised) = delete_index recreate calls.deleted s in
        let p = index_docs demo_mode docs (record { indexed = s1; done = 0; errors = 0 }) in
        let code = if nat_beq (count p.indexed) total && nat_beq p.errors 0 then 0 else 1 in
        if raised
        then (s1, none)
        else if calls.prepared
        then (
          p.indexed,
          if calls.refreshed && calls.count_answers
              then some (record { code = code; done = p.done; errors = p.errors })
              else none,
        )
        else (s1, none)
  ]
