-- ===== src/Queries/Pattern.antt =====
-- The pattern of `search_terms` means the prefix and nothing else.
use feathr_events.Prelude.{
  ℕ, List, [], ◌∷◌, ◌++◌, Option, none, some, Bool, true, false, ◌≡◌, refl, arith, contains,
  nat_beq, nat_eq, nat_beq_iff, All, ap, if◌then◌else◌, Bool-cases, inl, inr,
}
use feathr_events.Models.{Text}
use feathr_events.Texts.{text_beq}
use feathr_events.Queries.Terms.{is_safe, clean, escape, include_of}

-- The characters with a meaning in Lucene's regular expressions: . ? + * | { } [ ] ( ) " \ # @ & < > ~
-- and, to be safe, ^ and $.
abbrev pub special : List ℕ
special =
    46 ∷ 63 ∷ 43 ∷ 42 ∷ 124 ∷ 123 ∷ 125 ∷ 91 ∷ 93 ∷ 40 ∷ 41 ∷ 34 ∷ 92 ∷ 35 ∷ 64 ∷ 38 ∷ 60 ∷ 62 ∷ 126
    ∷ 94 ∷ 36 ∷ []

abbrev cons? : ℕ → Option Text → Option Text
cons? a none = none
cons? a (some s) = some (a ∷ s)

-- The text that a pattern of characters and escaped characters, followed by `.*`, stands for; `none` if
-- the pattern is no such one. `escaped` says whether a backslash stands before.
abbrev pub prefix_of : (escaped : Bool) → Text → Option Text
prefix_of escaped [] = none
prefix_of true (a ∷ s) = cons? a (prefix_of false s)
prefix_of false (a ∷ s) =
    let after = prefix_of true s in
    let plain = cons? a (prefix_of false s) in
    if nat_beq a 92
    then after
    else if nat_beq a 46
    then (if text_beq s (42 ∷ []) then some [] else none)
    else if contains a special
    then none
    else plain

safe_plain : (a : ℕ) → is_safe a ≡ true → nat_beq a 46 ≡ false → contains a special ≡ false
safe_plain a h k = ground arith

safe_unescaped : (a : ℕ) → is_safe a ≡ true → nat_beq a 92 ≡ false
safe_unescaped a h = ground arith

escape-reads :
    (s : Text) → All (λ a. is_safe a ≡ true) s → prefix_of false (escape s ++ 46 ∷ 42 ∷ []) ≡ some s
escape-reads [] h = refl
escape-reads (a ∷ s) h = elim (Bool-cases (nat_beq a 46)) [
  | inl dot ↦
      rw (dot, escape-reads s h.1) (ap (λ b. some (b ∷ s)) (ground (arith, nat_beq_iff a 46, dot)))
  | inr other ↦
      rw (other, escape-reads s h.1, safe_plain a h.0 other, safe_unescaped a h.0, other) refl
]

clean-safe : (s : Text) → All (λ a. is_safe a ≡ true) (clean s)
unfolding clean
clean-safe [] = tt
clean-safe (a ∷ s) = elim (Bool-cases (is_safe a)) [
  | inl e ↦ rw e (e, clean-safe s)
  | inr e ↦ rw e (clean-safe s)
]

-- Whatever is typed, the pattern that reaches the cluster is read as: begins with exactly the characters
-- that survive the cleaning.
pub include_of-prefix : (s : Text) → prefix_of false (include_of (clean s)) ≡ some (clean s)
unfolding include_of
include_of-prefix s = escape-reads (clean s) (clean-safe s)
