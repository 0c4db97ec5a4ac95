-- ===== src/Schema/Tests.antt =====
-- The theorems on the mapping of app/stores.py on a concrete cluster.
use feathr_events.Prelude.{List, [], ◌∷◌, Option, none, some, Bool, true, false, refl, arith}
use feathr_events.Stores.{done, refused}
use feathr_events.Schema.{
  Cluster, Answers, event_type_as, World, Action, drops, prepares, indexes, act_all,
}
use feathr_events.Schema.Mapped.{IsMapped, act_all-IsMapped}

-- The mapping of the index, and whether there is a template.
abbrev cluster : Cluster
cluster = record {
  State = Option Bool × Bool;
  mapping = λ s. s.0;
  templated = λ s. s.1;
  put_template = λ s. (s.0, true);
  create = λ s. (some true, s.1);
  drop = λ s. (none, s.1);
  write = λ s. (elim s.0 [ none ↦ some s.1 | some b ↦ some b ], s.1);
  mapping-put_template = λ s. refl;
  templated-put_template = λ s. refl;
  mapping-create = λ s. refl;
  templated-create = λ s. refl;
  mapping-drop = λ s. refl;
  templated-drop = λ s. refl;
  mapping-write = λ s. refl;
  templated-write = λ s. refl;
}

abbrev answers : Answers
answers = record { template = done; exists = true; fetched = event_type_as none; create = done }

-- Elasticsearch is away at startup; then a write prepares the index, somebody deletes it, and a second
-- write creates it anew.
abbrev actions : List (Action cluster)
actions =
    prepares 0 (record answers { template = refused })
    ∷ indexes 0 false [] answers done
    ∷ drops done
    ∷ indexes 0 false [] answers done
    ∷ []

abbrev fresh : World cluster
fresh = record { cluster = (none, false); ready = λ i. false }

act_all-IsMapped_example : IsMapped cluster (act_all cluster actions fresh)
act_all-IsMapped_example =
    act_all-IsMapped cluster actions fresh (λ e. ground (arith, e)) (λ i. refl)
