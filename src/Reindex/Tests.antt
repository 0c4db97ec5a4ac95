-- ===== src/Reindex/Tests.antt =====
-- The theorems on scripts/reindex.py on concrete documents.
use feathr_events.Prelude.{ℕ, List, [], ◌∷◌, Option, none, some, true, false, ◌≡◌, refl, sym, ap}
use mathlib.Core.Option.{some_inj}
use feathr_events.Models.{Event}
use feathr_events.Samples.{table, event}
use feathr_events.Stores.{Reply, done, index, write}
use feathr_events.Faults.{guard, is_faulted}
use feathr_events.Reindex.{Doc, main, index_docs, index_doc, delete_index}
use feathr_events.Reindex.Looped.{latest}
use feathr_events.Reindex.Rebuilt.{smooth, exit_zero-rebuilds}

abbrev docs : List (Doc × Reply)
docs = (record { id = 7; event = some event }, done) ∷ []

abbrev drop : table.State → table.State
drop s j = none

abbrev nothing : table.State
nothing j = none

-- How many of the identifiers 0 to 9 there are.
abbrev count_of : Option Event → ℕ
count_of none = 0
count_of (some e) = 1

abbrev count : table.State → ℕ
count s = count_of (s 7)

exit_zero-rebuilds_example :
    let r = main table drop count false true (smooth table drop count false 1) docs nothing in
    (some 1 ≡ some (count r.0)) × ((j : ℕ) → r.0 j ≡ latest j docs none)
unfolding main index_docs index_doc index write delete_index guard is_faulted
exit_zero-rebuilds_example =
    exit_zero-rebuilds table drop count false true (smooth table drop count false 1) docs nothing
      (record { code = 0; done = 1; errors = 0 })
      (λ e h. ap (λ x. x.event_id) (sym (some_inj.0 h)), tt) (λ j s. refl) refl refl
