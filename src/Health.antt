-- ===== src/Health.antt =====
-- app/clients.py, `health`, and app/main.py, the dependencies in `GET /health` and the switch
-- `POST /demo/fault`.
use feathr_events.Prelude.{
  ap, ◌∙◌, List, [], ◌∷◌, Bool, true, false, ◌&&◌, ◌||◌, not, if◌then◌else◌, ◌≡◌, arith, contains,
}
use feathr_events.Faults.{
  Dependency, mongodb, elasticsearch, redis, dependency_eq, dependency_beq, dependency_beq_iff,
  Faulted, remove, enable, disable, guard, is_faulted,
}

pub data Status : Type 0 where
  up down : Status

-- Which dependencies answer a ping.
abbrev pub Pings : Type 0
Pings = Dependency → Bool

-- One of the three pings: `guard`, then the driver. `true` if nothing was raised.
unfoldable pub ping : (demo_mode : Bool) → Faulted → Pings → Dependency → Bool
ping demo_mode faulted answers d = if guard demo_mode d faulted then false else answers d

-- `health`: the dictionary, in its order
unfoldable pub health : (demo_mode : Bool) → Faulted → Pings → List (Dependency × Status)
health demo_mode faulted answers =
    let status : Dependency → Status = λ d. if ping demo_mode faulted answers d then up else down in
    (mongodb, status mongodb) ∷ (redis, status redis) ∷ (elasticsearch, status elasticsearch) ∷ []

-- `[name for name, value in deps.items() if value != "up"]`
unfoldable pub degraded_by : List (Dependency × Status) → List Dependency
degraded_by [] = []
degraded_by ((d, up) ∷ deps) = degraded_by deps
degraded_by ((d, down) ∷ deps) = d ∷ degraded_by deps

-- `demo_fault` of a dependency: `worker`, which is none, is not covered here.
unfoldable pub demo_fault : Dependency → (off : Bool) → Faulted → Faulted
demo_fault d off faulted = if off then enable d faulted else disable d faulted

module _ (d j : Dependency) (s : Faulted) where
  contains-enable : contains j (enable d s) ≡ (dependency_beq d j || contains j s)
  unfolding enable
  contains-enable = ground (arith, dependency_beq_iff d j, dependency_beq_iff j d)

contains-remove :
    (d j : Dependency) (s : Faulted)
    → contains j (remove d s) ≡ (not (dependency_beq d j) && contains j s)
contains-remove d j [] = ground arith
contains-remove d j (x ∷ s) = ground (
  arith,
  contains-remove d j s,
  dependency_beq_iff d j,
  dependency_beq_iff d x,
  dependency_beq_iff j x,
)

contains-degraded_by :
    (j d : Dependency) (b : Bool) (deps : List (Dependency × Status))
    → contains j (degraded_by ((d, if b then up else down) ∷ deps))
      ≡ (dependency_beq j d && not b || contains j (degraded_by deps))
unfolding degraded_by
contains-degraded_by j d true deps = ground arith
contains-degraded_by j d false deps = ground arith

ping-fault :
    (d : Dependency) (faulted : Faulted) (answers : Pings)
    → not (ping true faulted answers d) ≡ (contains d faulted || not (answers d))
unfolding ping guard is_faulted
ping-fault d faulted answers = ground arith

reported :
    (j : Dependency) (faulted : Faulted) (answers : Pings)
    → contains j (degraded_by (health true faulted answers))
      ≡ (contains j faulted || not (answers j))
unfolding health degraded_by
reported j faulted answers =
    contains-degraded_by j mongodb (p mongodb) _
    ∙ ap (λ b. dependency_beq j mongodb && not (p mongodb) || b)
        (contains-degraded_by j redis (p redis) _
          ∙ ap (λ b. dependency_beq j redis && not (p redis) || b)
              (contains-degraded_by j elasticsearch (p elasticsearch) []))
    ∙ only j (λ d. not (p d))
    ∙ ping-fault j faulted answers
  where
    p : Dependency → Bool
    p d = ping true faulted answers d

    only :
        (j : Dependency) (f : Dependency → Bool)
        → (dependency_beq j mongodb && f mongodb
            || (dependency_beq j redis && f redis
                || (dependency_beq j elasticsearch && f elasticsearch || false)))
          ≡ f j
    only mongodb f = ground arith
    only elasticsearch f = ground arith
    only redis f = ground arith

-- In demo mode a dependency that is switched off is reported as degrading, whatever it answers, until
-- it is switched on again; what is reported of the others does not change.
demo_fault_reported :
    (d j : Dependency) (off : Bool) (faulted : Faulted) (answers : Pings)
    → contains j (degraded_by (health true (demo_fault d off faulted) answers)) ≡ (
        if dependency_beq d j
        then off || not (answers j)
        else contains j (degraded_by (health true faulted answers)))
unfolding demo_fault disable
demo_fault_reported d j off faulted answers =
    rw (reported j (demo_fault d off faulted) answers, reported j faulted answers)
      (ground (arith, contains-enable d j faulted, contains-remove d j faulted))
