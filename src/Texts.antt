-- ===== src/Texts.antt =====
-- Python's `str`, as lists of code points: what app/ratelimit.py, app/models.py,
-- app/queries.py and scripts/logcheck.py use of it.
pub mod Order
use feathr_events.Prelude.{
  Eq, ◌↔◌, ℕ, ◌+◌, ◌*◌, [], ◌∷◌, ◌++◌, List, Option, none, some, Bool, true, false, ◌&&◌, ◌||◌, leb,
  ltb, nat_beq, nat_beq_iff, if◌then◌else◌, ◌≡◌, refl, contains, arith, nat_eq,
}
use feathr_events.Models.{Text}

abbrev pub text_beq : Text → Text → Bool
text_beq [] [] = true
text_beq (a ∷ s) (b ∷ t) = nat_beq a b && text_beq s t
text_beq _ _ = false

pub text_beq_iff : (s t : Text) → (text_beq s t ≡ true) ↔ (s ≡ t)
text_beq_iff [] t = ground arith
text_beq_iff (a ∷ s) [] = ground arith
text_beq_iff (a ∷ s) (b ∷ t) = ground (arith, nat_beq_iff a b, text_beq_iff s t)

instance abbrev pub text_eq : Eq Text
text_eq = record { beq = text_beq; beq_iff = text_beq_iff }

-- `s.startswith(prefix)`
abbrev pub starts_with : (prefix s : Text) → Bool
starts_with [] s = true
starts_with (a ∷ prefix) [] = false
starts_with (a ∷ prefix) (b ∷ s) = nat_beq a b && starts_with prefix s

-- Texts in the order of their code points.
abbrev pub text_leb : Text → Text → Bool
text_leb [] t = true
text_leb (a ∷ s) [] = false
text_leb (a ∷ s) (b ∷ t) = if ltb a b then true else if ltb b a then false else text_leb s t

-- A text as a number: two texts of code points have the same number only if they are equal.
abbrev pub number : Text → ℕ
number [] = 0
number (a ∷ s) = a + 1 + 1_114_112 * number s

abbrev between : ℕ → ℕ → ℕ → Bool
between low high a = leb low a && leb a high

-- `c.isspace()`
abbrev pub is_space : ℕ → Bool
is_space a =
    between 9 13 a
    || between 28 32 a
    || nat_beq a 133
    || nat_beq a 160
    || nat_beq a 5_760
    || between 8_192 8_202 a
    || nat_beq a 8_232
    || nat_beq a 8_233
    || nat_beq a 8_239
    || nat_beq a 8_287
    || nat_beq a 12_288

abbrev lstrip : Text → Text
lstrip [] = []
lstrip (a ∷ s) = let further = lstrip s in if is_space a then further else a ∷ s

abbrev ends : ℕ → Text → Text
ends a [] = if is_space a then [] else a ∷ []
ends a (b ∷ s) = a ∷ b ∷ s

abbrev rstrip : Text → Text
rstrip [] = []
rstrip (a ∷ s) = ends a (rstrip s)

-- `s.strip()`
abbrev pub strip : Text → Text
strip s = rstrip (lstrip s)

-- What stands after the last `c`, if there is one.
abbrev pub after_last : ℕ → Text → Option Text
after_last c [] = none
after_last c (a ∷ s) = elim (after_last c s) [
  | none ↦ if nat_beq a c then some s else none
  | some t ↦ some t
]

-- `s.rsplit(c, 1)[-1]`
abbrev pub last_field : ℕ → Text → Text
last_field c s = elim (after_last c s) [ none ↦ s | some t ↦ t ]

-- What a text begins with for `split`, and its other fields.
abbrev prepend : ℕ → List Text → List Text
prepend a [] = (a ∷ []) ∷ []
prepend a (f ∷ fs) = (a ∷ f) ∷ fs

-- `s.split(c)`
abbrev pub split : ℕ → Text → List Text
split c [] = [] ∷ []
split c (a ∷ s) = let further = split c s in if nat_beq a c then [] ∷ further else prepend a further

after_last-none : (c : ℕ) (s : Text) → contains c s ≡ false → after_last c s ≡ none
after_last-none c [] h = refl
after_last-none c (a ∷ s) h = ground (arith, after_last-none c s, nat_beq_iff a c, nat_beq_iff c a)

after_last-append : (c : ℕ) (s t : Text) → contains c t ≡ false → after_last c (s ++ c ∷ t) ≡ some t
after_last-append c [] t h = ground (arith, after_last-none c t h, nat_beq_iff c c)
after_last-append c (a ∷ s) t h = ground (arith, after_last-append c s t h)

pub last_field-append : (c : ℕ) (s t : Text) → contains c t ≡ false → last_field c (s ++ c ∷ t) ≡ t
last_field-append c s t h = ground (arith, after_last-append c s t h)
