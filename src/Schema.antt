-- ===== src/Schema.antt =====
-- app/stores.py, `ElasticEventIndex` once more: what it does to the mapping of the index. The cluster is
-- a parameter, and so is how each call of its driver ends.
mod Tests
pub mod Calls
pub mod Indexes
pub mod Mapped
use feathr_events.Prelude.{
  ℕ, List, [], ◌∷◌, Option, none, some, Bool, true, false, not, if◌then◌else◌, ◌≡◌, nat_beq,
}
use feathr_events.Models.{Text}
use feathr_events.Texts.{text_beq}
use feathr_events.Faults.{Faulted, elasticsearch, guard}
use feathr_events.Stores.{Reply, done, refused, unconfirmed}

-- A cluster, as far as the mapping of the index goes. `mapping` says whether there is an index and
-- whether its mapping is `INDEX_MAPPING`; `templated` whether the template with it is there. A write
-- without an index creates one: with the mapping of the template, or a dynamic one.
pub record Cluster : Type 1 where
  pub State : Type 0
  pub mapping : State → Option Bool
  pub templated : State → Bool
  pub put_template : State → State
  pub create : State → State
  pub drop : State → State
  pub write : State → State
  pub mapping-put_template : (s : State) → mapping (put_template s) ≡ mapping s
  pub templated-put_template : (s : State) → templated (put_template s) ≡ true
  pub mapping-create : (s : State) → mapping (create s) ≡ some true
  pub templated-create : (s : State) → templated (create s) ≡ templated s
  pub mapping-drop : (s : State) → mapping (drop s) ≡ none
  pub templated-drop : (s : State) → templated (drop s) ≡ templated s
  pub mapping-write :
      (s : State)
      → mapping (write s) ≡ (elim (mapping s) [ none ↦ some (templated s) | some b ↦ some b ])
  pub templated-write : (s : State) → templated (write s) ≡ templated s

-- What `get_mapping` leads to: an exception of the driver, a body without the mapping (`KeyError`,
-- `StopIteration`, `TypeError`), or the type of `event_type`, if it has one.
pub data Fetched : Type 0 where
  fetch_failed unreadable : Fetched
  event_type_as : Option Text → Fetched

pub data Verdict : Type 0 where
  silent warned raised : Verdict

-- "keyword"
abbrev keyword : Text
keyword = 107 ∷ 101 ∷ 121 ∷ 119 ∷ 111 ∷ 114 ∷ 100 ∷ []

abbrev is_keyword : Option Text → Bool
is_keyword none = false
is_keyword (some t) = text_beq t keyword

unfoldable pub warn_if_the_mapping_is_wrong : Fetched → Verdict
warn_if_the_mapping_is_wrong fetch_failed = raised
warn_if_the_mapping_is_wrong unreadable = silent
warn_if_the_mapping_is_wrong (event_type_as found) = if is_keyword found then silent else warned

-- How the calls of `ensure_schema` end. `exists` says whether that call answers at all.
pub record Answers : Type 0 where
  pub template : Reply
  pub exists : Bool
  pub fetched : Fetched
  pub create : Reply

-- The effect of a call on the cluster, and whether it raised.
unfoldable pub called {ℓ} : {S : Type ℓ} → (S → S) → Reply → S → S × Bool
called f done s = (f s, false)
called f refused s = (s, true)
called f unconfirmed s = (f s, true)

module _ (c : Cluster) where
  open c use {State, mapping, put_template, write, drop}

  -- The index that is there is looked at, and else one is created: the cluster, and whether the call
  -- raised.
  unfoldable pub checked : Answers → State → State × Bool
  unfolding warn_if_the_mapping_is_wrong called
  checked a s =
      let (s', failed) = called c.create a.create s in
      if not a.exists then (s, true) else elim (mapping s) [
        | none ↦ (s', failed)
        | some b ↦ elim (warn_if_the_mapping_is_wrong a.fetched) [
          | raised ↦ (s, true)
          | silent ↦ (s, false)
          | warned ↦ (s, false)
        ]
      ]

  -- `ensure_schema`: the cluster, the flag `_ready`, and whether an exception was raised.
  unfoldable pub ensure_schema : Answers → (ready : Bool) → State → State × Bool × Bool
  unfolding checked called
  ensure_schema a ready s =
      let (s1, failed) = called put_template a.template s in
      let (s2, failed') = checked a s1 in
      if failed then (s1, ready, true) else if failed' then (s2, ready, true) else (s2, true, false)

  -- `index`, of any event
  unfoldable pub index_event :
      (demo_mode : Bool) → Faulted → Answers → Reply → (ready : Bool) → State → State × Bool × Bool
  unfolding ensure_schema called
  index_event demo_mode faulted a reply ready s =
      let (s1, ready', failed) = if ready then (s, true, false) else ensure_schema a ready s in
      let (s2, failed') = called write reply s1 in
      if guard demo_mode elasticsearch faulted
      then (s, ready, true)
      else if failed
      then (s1, ready', true)
      else (s2, ready', failed')

  -- The cluster, and the flag `_ready` of each `ElasticEventIndex` there is: the one of the worker, those
  -- of `demo_reset`, and those of scripts/reindex.py.
  pub record World : Type 0 where
    pub cluster : State
    pub ready : ℕ → Bool

  abbrev set_ready : ℕ → Bool → (ℕ → Bool) → ℕ → Bool
  set_ready i b ready j = if nat_beq i j then b else ready j

  -- Somebody deletes the index, or one of the objects prepares it or writes.
  pub data Action : Type 0 where
    drops : Reply → Action
    prepares : ℕ → Answers → Action
    indexes : ℕ → Bool → Faulted → Answers → Reply → Action

  unfoldable pub act : Action → World → World
  unfolding ensure_schema index_event called
  act (drops reply) w = record w { cluster = (called drop reply w.cluster).0 }
  act (prepares i a) w =
      let (s, ready, failed) = ensure_schema a (w.ready i) w.cluster in
      record { cluster = s; ready = set_ready i ready w.ready }
  act (indexes i demo_mode faulted a reply) w =
      let (s, ready, failed) = index_event demo_mode faulted a reply (w.ready i) w.cluster in
      record { cluster = s; ready = set_ready i ready w.ready }

  unfoldable pub act_all : List Action → World → World
  unfolding act
  act_all [] w = w
  act_all (a ∷ further) w = act_all further (act a w)
