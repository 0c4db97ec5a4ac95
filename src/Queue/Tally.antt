-- ===== src/Queue/Tally.antt =====
-- Counting events: in lists, in the entries of a queue, and among those that the log names as
-- dead-lettered.
use feathr_events.Prelude.{
  ℕ, ◌+◌, ◌≡◌, refl, none, some, Bool, arith, ◌∷◌, [], ◌++◌, List, map, if◌then◌else◌, nat_eq,
  nat_beq_iff, ap,
}
use feathr_events.Models.{Event}
use feathr_events.Dict
use feathr_events.Dict.{IsDict, values}
use feathr_events.Queue.{Entry, LogLine, discarding, dead_lettering}

-- How many events of a list pass a test.
abbrev pub tally : (Event → Bool) → List Event → ℕ
tally f [] = 0
tally f (e ∷ es) = (if f e then 1 else 0) + tally f es

abbrev pub tally_entries : (Event → Bool) → List (ℕ × Entry) → ℕ
tally_entries f d = tally f (map (λ e. e.event) (values d))

-- The events that the log names as dead-lettered.
abbrev pub buried : List LogLine → List Event
buried [] = []
buried (discarding lost admitted ∷ lines) = buried lines
buried (dead_lettering e n ∷ lines) = e ∷ buried lines

module _ (f : Event → Bool) where
  pub tally-append : (xs ys : List Event) → tally f (xs ++ ys) ≡ tally f xs + tally f ys
  tally-append [] ys = omega arith
  tally-append (x ∷ xs) ys = omega (arith, tally-append xs ys)

  pub buried-append :
      (xs ys : List LogLine)
      → tally f (buried (xs ++ ys)) ≡ tally f (buried xs) + tally f (buried ys)
  buried-append [] ys = omega arith
  buried-append (discarding a b ∷ xs) ys = buried-append xs ys
  buried-append (dead_lettering e n ∷ xs) ys = omega (arith, buried-append xs ys)

  pub tally-set_old :
      (m : ℕ) (e x : Entry) (d : List (ℕ × Entry))
      → Dict.get m d ≡ some e
      → x.event ≡ e.event
      → tally_entries f (Dict.set m x d) ≡ tally_entries f d
  unfolding Dict.get Dict.set
  tally-set_old m e x [] h same = ground arith
  tally-set_old m e x ((j, w) ∷ d) h same = ground (arith, tally-set_old m e x d, ap f same)

  pub tally-set_new :
      (m : ℕ) (x : Entry) (d : List (ℕ × Entry))
      → Dict.get m d ≡ none
      → tally_entries f (Dict.set m x d) ≡ tally f (x.event ∷ []) + tally_entries f d
  unfolding Dict.get Dict.set
  tally-set_new m x [] h = omega arith
  tally-set_new m x ((j, w) ∷ d) h = ground (arith, tally-set_new m x d)

  pub tally-delete_absent :
      (m : ℕ) (d : List (ℕ × Entry))
      → Dict.get m d ≡ none
      → tally_entries f (Dict.delete m d) ≡ tally_entries f d
  unfolding Dict.get Dict.delete
  tally-delete_absent m [] h = refl
  tally-delete_absent m ((j, w) ∷ d) h = ground (arith, tally-delete_absent m d)

  pub tally-delete :
      (m : ℕ) (e : Entry) (d : List (ℕ × Entry))
      → IsDict d
      → Dict.get m d ≡ some e
      → tally f (e.event ∷ []) + tally_entries f (Dict.delete m d) ≡ tally_entries f d
  unfolding Dict.get Dict.delete
  tally-delete m e [] u h = ground arith
  tally-delete m e ((j, w) ∷ d) u h =
      ground (arith, tally-delete m e d u.1, tally-delete_absent m d, nat_beq_iff j m)
