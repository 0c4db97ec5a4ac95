-- ===== src/Circuit/Evidence.antt =====
-- What opens the circuit: failures of sufficiently many different events, with no success between.
use feathr_events.Prelude.{
  ℕ, ◌+◌, ◌≤◌, ◌<◌, ◌≡◌, List, [], ◌∷◌, none, true, false, contains, contains-append, nat_eq,
  nat_beq, nat_beq_iff, if◌then◌else◌, length, IsNodup, IsNodup-concat, arith, refl, Bool-cases,
  inl, inr,
}
use feathr_events.Circuit.{
  Params, Circuit, init, allowance, abandon_probe, record_success, record_failure, add,
}

-- The calls that consumers make of one circuit.
pub data Report : Type 0 where
  asks : (now batch_size : ℕ) → Report
  abandons succeeds : Report
  fails : (seen now event_id : ℕ) → Report

unfoldable pub step : Params → Report → Circuit → Circuit
step p (asks now batch_size) s = (allowance now batch_size s).0
step p abandons s = abandon_probe s
step p succeeds s = record_success s
step p (fails seen now event_id) s = record_failure p seen now event_id s

unfoldable pub run : Params → List Report → Circuit → Circuit
run p [] s = s
run p (r ∷ rs) s = run p rs (step p r s)

-- Every failure reported is of an event of the list.
abbrev pub Among : List ℕ → List Report → Type 0
Among ids [] = Unit
Among ids (fails seen now event_id ∷ rs) = (contains event_id ids ≡ true) × Among ids rs
Among ids (_ ∷ rs) = Among ids rs

without : ℕ → List ℕ → List ℕ
without a [] = []
without a (x ∷ xs) = if nat_beq a x then without a xs else x ∷ without a xs

contains-without :
    (a b : ℕ) (xs : List ℕ)
    → nat_beq b a ≡ false
    → contains a xs ≡ true
    → contains a (without b xs) ≡ true
unfolding without
contains-without a b [] h m = ground arith
contains-without a b (x ∷ xs) h m = ground (arith, contains-without a b xs h)

length-without_le : (b : ℕ) (xs : List ℕ) → length (without b xs) ≤ length xs
unfolding without
length-without_le b [] = omega arith
length-without_le b (x ∷ xs) = ground (arith, length-without_le b xs)

length-without :
    (b : ℕ) (xs : List ℕ) → contains b xs ≡ true → length (without b xs) + 1 ≤ length xs
unfolding without
length-without b [] m = ground arith
length-without b (x ∷ xs) m = ground (arith, length-without b xs, length-without_le b xs)

-- Different elements of a list are no more than its length.
length-le_of_among :
    (xs ys : List ℕ)
    → IsNodup xs
    → ((a : ℕ) → contains a xs ≡ true → contains a ys ≡ true)
    → length xs ≤ length ys
length-le_of_among [] ys d sub = omega arith
length-le_of_among (x ∷ xs) ys d sub = omega (
  arith,
  length-without x ys (sub x (ground (arith, nat_beq_iff x x))),
  length-le_of_among xs (without x ys) d.1 (λ a m.
      contains-without a x ys (ground (arith, nat_beq_iff x a, d.0)) (sub a (ground arith))),
)

record IsQuiet (ids : List ℕ) (s : Circuit) : Type 0 where
  closed : s.open_until ≡ none
  distinct : IsNodup s.failures
  among : (a : ℕ) → contains a s.failures ≡ true → contains a ids ≡ true

add-IsNodup : (a : ℕ) (xs : List ℕ) → IsNodup xs → IsNodup (add a xs)
add-IsNodup a xs d = elim (Bool-cases (contains a xs)) [
  | inl old ↦ rw old d
  | inr new ↦ rw new (IsNodup-concat xs a d new)
]

fails-IsQuiet :
    (p : Params) (ids : List ℕ) (seen now event_id : ℕ) (s : Circuit)
    → length ids < p.threshold
    → contains event_id ids ≡ true
    → IsQuiet ids s
    → IsQuiet ids (record_failure p seen now event_id s)
unfolding record_failure
fails-IsQuiet p ids seen now event_id s few mem h =
    let sub : (a : ℕ) → contains a (add event_id s.failures) ≡ true → contains a ids ≡ true = λ a m.
      ground
        (arith, h.among a, contains-append a s.failures (event_id ∷ []), nat_beq_iff a event_id) in
    let d = add-IsNodup event_id s.failures h.distinct in
    let small = length-le_of_among (add event_id s.failures) ids d sub in
    let same : record_failure p seen now event_id s
        ≡ record s { probing = false; failures = add event_id s.failures } =
      ground (arith, h.closed) in
    rw same (record { closed = h.closed; distinct = d; among = sub })

step-IsQuiet :
    (p : Params) (ids : List ℕ) (r : Report) (rs : List Report) (s : Circuit)
    → length ids < p.threshold
    → Among ids (r ∷ rs)
    → IsQuiet ids s
    → IsQuiet ids (step p r s) × Among ids rs
unfolding step allowance abandon_probe record_success
step-IsQuiet p ids (asks now batch_size) rs s few m h =
    let same : (allowance now batch_size s).0 ≡ s = ground (arith, h.closed) in (rw same h, m)
step-IsQuiet p ids abandons rs s few m h =
    (record { closed = h.closed; distinct = h.distinct; among = h.among }, m)
step-IsQuiet p ids succeeds rs s few m h =
    (record { closed = refl; distinct = tt; among = λ a k. ground arith }, m)
step-IsQuiet p ids (fails seen now event_id) rs s few m h =
    (fails-IsQuiet p ids seen now event_id s few m.0 h, m.1)

run-IsQuiet :
    (p : Params) (ids : List ℕ) (rs : List Report) (s : Circuit)
    → length ids < p.threshold
    → Among ids rs
    → IsQuiet ids s
    → IsQuiet ids (run p rs s)
unfolding run
run-IsQuiet p ids [] s few m h = h
run-IsQuiet p ids (r ∷ rs) s few m h =
    let (h', m') = step-IsQuiet p ids r rs s few m h in run-IsQuiet p ids rs (step p r s) few m' h'

-- Poison messages do not pause consumption: if all failures reported are of fewer different events
-- than the threshold, the circuit is closed after any sequence of reports, however often they fail.
pub few_events_never_open :
    (p : Params) (ids : List ℕ) (rs : List Report)
    → length ids < p.threshold
    → Among ids rs
    → (run p rs init).open_until ≡ none
unfolding init
few_events_never_open p ids rs few m =
    (run-IsQuiet p ids rs init few m
      (record { closed = refl; distinct = tt; among = λ a k. ground arith })).closed
