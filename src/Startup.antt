-- ===== src/Startup.antt =====
-- app/main.py, `_refuse_multiple_processes`: the check at startup that a single process serves.
use feathr_events.Prelude.{
  ℕ, List, [], ◌∷◌, ◌++◌, Option, none, some, Bool, true, false, ◌||◌, not, nat_beq, nat_beq_iff,
  if◌then◌else◌, ◌≡◌, refl, arith, contains, nat_eq,
}
use feathr_events.Models.{Text}
use feathr_events.Texts.{text_beq}

-- --workers
abbrev workers : Text
workers = 45 ∷ 45 ∷ 119 ∷ 111 ∷ 114 ∷ 107 ∷ 101 ∷ 114 ∷ 115 ∷ []

-- -w
abbrev w : Text
w = 45 ∷ 119 ∷ []

-- `arg.partition("=")`: what stands before the first "=", and what stands after it
unfoldable pub before_equals : Text → Text
before_equals [] = []
before_equals (a ∷ s) = let further = before_equals s in if nat_beq a 61 then [] else a ∷ further

unfoldable pub after_equals : Text → Text
after_equals [] = []
after_equals (a ∷ s) = let further = after_equals s in if nat_beq a 61 then s else further

abbrev pub is_flag : Text → Bool
is_flag name = text_beq name workers || text_beq name w

-- `argv[i + 1] if i + 1 < len(argv) else "?"`
abbrev next_or_unknown : List Text → Text
next_or_unknown [] = 63 ∷ []
next_or_unknown (arg ∷ argv) = arg

-- `s or t`
abbrev or_else : Text → Text → Text
or_else [] t = t
or_else (a ∷ s) t = a ∷ s

-- The loop over the arguments.
unfoldable pub scan : Option Text → List Text → Option Text
unfolding before_equals after_equals
scan requested [] = requested
scan requested (arg ∷ argv) =
    let flagged = scan (some (or_else (after_equals arg) (next_or_unknown argv))) argv in
    let other = scan requested argv in if is_flag (before_equals arg) then flagged else other

abbrev or_environment : Option Text → Option Text → Option Text
or_environment none e = e
or_environment (some []) e = e
or_environment (some (a ∷ s)) e = some (a ∷ s)

abbrev is_several : Option Text → Bool
is_several none = false
is_several (some s) = not (text_beq s (49 ∷ []) || text_beq s (63 ∷ []))

-- `true` if the start is refused; `environment` is `WEB_CONCURRENCY`.
unfoldable pub refuse_multiple_processes : (argv : List Text) (environment : Option Text) → Bool
unfolding scan
refuse_multiple_processes argv environment =
    is_several (or_environment (scan none argv) environment)

-- `name=value`
abbrev pub joined : Text → Text → Text
joined name value = name ++ 61 ∷ value

before_equals-plain : (name : Text) → contains 61 name ≡ false → before_equals name ≡ name
unfolding before_equals
before_equals-plain [] h = refl
before_equals-plain (a ∷ s) h =
    ground (arith, before_equals-plain s, nat_beq_iff a 61, nat_beq_iff 61 a)

after_equals-plain : (name : Text) → contains 61 name ≡ false → after_equals name ≡ []
unfolding after_equals
after_equals-plain [] h = refl
after_equals-plain (a ∷ s) h =
    ground (arith, after_equals-plain s, nat_beq_iff a 61, nat_beq_iff 61 a)

before_equals-joined :
    (name value : Text) → contains 61 name ≡ false → before_equals (joined name value) ≡ name
unfolding before_equals
before_equals-joined [] value h = refl
before_equals-joined (a ∷ s) value h =
    ground (arith, before_equals-joined s value, nat_beq_iff a 61, nat_beq_iff 61 a)

after_equals-joined :
    (name value : Text) → contains 61 name ≡ false → after_equals (joined name value) ≡ value
unfolding after_equals
after_equals-joined [] value h = refl
after_equals-joined (a ∷ s) value h =
    ground (arith, after_equals-joined s value, nat_beq_iff a 61, nat_beq_iff 61 a)

both_branches {ℓ} : {A : Type ℓ} (b : Bool) (x y z : A) → x ≡ z → y ≡ z → (if b then x else y) ≡ z
both_branches true x y z h k = h
both_branches false x y z h k = k

module _ (name : Text) (digit : ℕ) (digits : Text) (argv : List Text)
    (plain : contains 61 name ≡ false) (flag : is_flag name ≡ true) where
  abbrev value : Text
  value = digit ∷ digits

  scan-spaced :
      (xs : List Text) (requested : Option Text)
      → is_flag (before_equals value) ≡ false
      → scan requested (xs ++ name ∷ value ∷ argv) ≡ scan (some value) argv
  unfolding scan
  scan-spaced [] requested h =
      rw (before_equals-plain name plain, after_equals-plain name plain, flag, h) refl
  scan-spaced (x ∷ xs) requested h =
      both_branches (is_flag (before_equals x)) _ _ _
        (scan-spaced xs
          (some (or_else (after_equals x) (next_or_unknown (xs ++ name ∷ value ∷ argv)))) h)
        (scan-spaced xs requested h)

  scan-joined :
      (xs : List Text) (requested : Option Text)
      → scan requested (xs ++ joined name value ∷ argv) ≡ scan (some value) argv
  unfolding scan
  scan-joined [] requested =
      rw (before_equals-joined name value plain, after_equals-joined name value plain, flag) refl
  scan-joined (x ∷ xs) requested =
      both_branches (is_flag (before_equals x)) _ _ _
        (scan-joined xs
          (some (or_else (after_equals x) (next_or_unknown (xs ++ joined name value ∷ argv)))))
        (scan-joined xs requested)

-- The two spellings of a flag, `--workers 2` and `--workers=2`, wherever they stand in the command
-- line, are taken the same way, if the value is not empty and not itself such a flag.
pub spellings_agree :
    (name : Text) (digit : ℕ) (digits : Text) (xs argv : List Text) (environment : Option Text)
    → contains 61 name ≡ false
    → is_flag name ≡ true
    → is_flag (before_equals (digit ∷ digits)) ≡ false
    → refuse_multiple_processes (xs ++ name ∷ (digit ∷ digits) ∷ argv) environment
      ≡ refuse_multiple_processes (xs ++ joined name (digit ∷ digits) ∷ argv) environment
unfolding refuse_multiple_processes
spellings_agree name digit digits xs argv environment plain flag h =
    rw
      (
        scan-spaced name digit digits argv plain flag xs none h,
        scan-joined name digit digits argv plain flag xs none,
      )
      refl
