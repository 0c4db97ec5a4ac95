-- ===== src/Logcheck/Lines.antt =====
-- What `collect` keeps of the output of a service.
use feathr_events.Prelude.{
  List, [], ◌∷◌, Option, none, some, not, ◌≡◌, refl, All, ok, err, Result, ◌>>=◌, map, ap, ◌⊎◌, inl,
  inr, Bool, true, false, ◌&&◌, ◌||◌, Bool-cases, ◌∙◌,
}
use feathr_events.Models.{Text}
use feathr_events.Texts.{strip, text_eq}
use feathr_events.Dict
use feathr_events.Sorting.{filter, any}
use feathr_events.Logcheck.{
  Service, Record, Parsed, Library, Decoded, scalar, malformed, object, unknown, mongo,
  elasticsearch, redis, api, Member, text, fields, other, Raised, no_get,
}
use feathr_events.Logcheck.Formats.{parse, parse_mongo, parse_elasticsearch, date_of}
use feathr_events.Logcheck.Collect.{record_of, is_blank, collect_lines, collect, printed}

record_of-raw :
    (service : Service) (line : Text) (p : Option Parsed) → (record_of service line p).raw ≡ line
record_of-raw service line none = refl
record_of-raw service line (some p) = refl

-- A member that is there and no object.
abbrev is_no_object : Option Member → Bool
is_no_object none = false
is_no_object (some (text s)) = true
is_no_object (some (other s)) = true
is_no_object (some (fields s d)) = false

-- What `get` is called on in vain: JSON that is no object, and for MongoDB also a member `t` that is none.
abbrev pub has_no_get : Service → Decoded → Bool
has_no_get mongo (object d) = is_no_object (Dict.get (116 ∷ []) d)
has_no_get mongo scalar = true
has_no_get elasticsearch scalar = true
has_no_get _ _ = false

Decoded-cases :
    (d : Decoded) → (d ≡ malformed) ⊎ (d ≡ scalar) ⊎ ((o : List (Text × Member)) × (d ≡ object o))
Decoded-cases malformed = inl refl
Decoded-cases scalar = inr (inl refl)
Decoded-cases (object o) = inr (inr (o, refl))

-- How a parser ends.
abbrev Ends : Bool → Result Raised (Option Parsed) → Type 0
Ends true r = r ≡ err no_get
Ends false r = (p : Option Parsed) × (r ≡ ok p)

dated-Ends :
    (o : Option Member) (f : Text → Option Parsed)
    → Ends (is_no_object o) (date_of o >>= (λ ts. ok (f ts)))
dated-Ends none f = (f [], refl)
dated-Ends (some (text s)) f = refl
dated-Ends (some (other s)) f = refl
dated-Ends (some (fields s d)) f = (_, refl)

parse-Ends :
    (lib : Library) (service : Service) (line : Text)
    → Ends (has_no_get service (lib.loads line)) (parse lib service line)
unfolding parse_mongo parse_elasticsearch
parse-Ends lib mongo line = elim (Decoded-cases (lib.loads line)) [
  | inl bad ↦ rw (parse_mongo, bad) (none, refl)
  | inr (inl bare) ↦ rw (parse_mongo, bare) refl
  | inr (inr (o, good)) ↦ rw (parse_mongo, good) (dated-Ends (Dict.get (116 ∷ []) o) _)
]
parse-Ends lib elasticsearch line = elim (Decoded-cases (lib.loads line)) [
  | inl bad ↦ rw (parse_elasticsearch, bad) (none, refl)
  | inr (inl bare) ↦ rw (parse_elasticsearch, bare) refl
  | inr (inr (o, good)) ↦ rw (parse_elasticsearch, good) (_, refl)
]
parse-Ends lib redis line = (_, refl)
parse-Ends lib api line = (_, refl)

module _ (lib : Library) (service : Service) where
  -- A record is what the parser made of its line, or, where it made nothing, the line as it stands at
  -- the level `unknown`.
  abbrev pub IsKept : Record → Type 0
  IsKept r =
      (r.service ≡ service)
      × ((parse lib service r.raw ≡ ok (some r.parsed))
          ⊎ ((parse lib service r.raw ≡ ok none)
              × (r.parsed.level ≡ unknown)
              × (r.parsed.msg ≡ strip r.raw)))

  record_of-IsKept :
      (line : Text) (p : Option Parsed)
      → parse lib service line ≡ ok p
      → IsKept (record_of service line p)
  record_of-IsKept line none h = (refl, inr (h, refl, refl))
  record_of-IsKept line (some p) h = (refl, inl h)

  -- A line that ends the run.
  abbrev pub is_fatal : Text → Bool
  is_fatal line = not (is_blank line) && has_no_get service (lib.loads line)

  -- What becomes of lines: an exception if one of them ends the run, else their records.
  abbrev pub Collects : List Text → Bool → Result Raised (List Record) → Type 0
  Collects lines true r = r ≡ err no_get
  Collects lines false r =
      (rs : List Record) × (r ≡ ok rs)
      × (map (λ r. r.raw) rs ≡ filter (λ line. not (is_blank line)) lines)
      × All IsKept rs

  blank-Collects :
      (line : Text) (lines : List Text) (later : Bool) (rest : Result Raised (List Record))
      → is_blank line ≡ true
      → Collects lines later rest
      → Collects (line ∷ lines) later rest
  blank-Collects line lines true rest blank h = h
  blank-Collects line lines false rest blank h = rw blank h

  chained-Collects :
      (line : Text) (lines : List Text) (fatal later : Bool) (p : Result Raised (Option Parsed))
      (rest : Result Raised (List Record))
      → parse lib service line ≡ p
      → is_blank line ≡ false
      → Ends fatal p
      → Collects lines later rest
      → Collects
          (line ∷ lines)
          (fatal || later)
          (p >>= (λ p. rest >>= (λ rs. ok (record_of service line p ∷ rs))))
  chained-Collects line lines true later p rest same solid end h = rw end refl
  chained-Collects line lines false true p rest same solid (q, end) h = rw (end, h) refl
  chained-Collects line lines false false p rest same solid (q, end) (rs, run, kept, all) =
      rw (end, run, solid)
        (
          record_of service line q ∷ rs,
          refl,
          rw (record_of-raw service line q) (ap (◌∷◌ line) kept),
          (record_of-IsKept line q (same ∙ end), all),
        )

  collect_lines-Collects :
      (lines : List Text) → Collects lines (any is_fatal lines) (collect_lines lib service lines)
  unfolding collect_lines
  collect_lines-Collects [] = ([], refl, refl, tt)
  collect_lines-Collects (line ∷ lines) = elim (Bool-cases (is_blank line)) [
    | inl blank ↦ rw blank (blank-Collects line lines _ _ blank (collect_lines-Collects lines))
    | inr solid ↦ rw solid (
        chained-Collects line lines _ _ _ _ refl solid (parse-Ends lib service line)
          (collect_lines-Collects lines))
  ]

-- `collect` raises AttributeError if and only if some line that is not blank is JSON that is no object, or,
-- of MongoDB, an object with a member t that is no object. Else it returns a record for every line that is
-- not blank, in the order of the lines; each holds its line and is what the parser made of it, or, where
-- the parser made nothing of it, has the level `unknown` and the line without blanks at its ends as its
-- message.
pub collect_complete :
    (lib : Library) (service : Service) (lines : List Text)
    → Collects lib service lines
        (any (is_fatal lib service) lines)
        (collect lib service (printed lines))
unfolding collect
collect_complete lib service lines = collect_lines-Collects lib service lines
