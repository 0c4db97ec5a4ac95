-- ===== src/Seed/Valid.antt =====
-- scripts/seed.py against app/models.py: what the validators make of the events that the script makes.
use feathr_events.Prelude.{
  ℕ, zero, suc, ◌+◌, ◌≤◌, ◌≡◌, refl, length-append, ◌/◌, ◌%◌, ◌&&◌, List, [], ◌∷◌, Option, none,
  some, Bool, true, false, length, ltb, leb, All, ok, arith, inl, inr, Bool-cases, nat_beq, ◌||◌,
  if◌then◌else◌,
}
use feathr_events.Models.{Text, Fields, bool}
use feathr_events.Ingest.{
  aware, now, future_skew, bound_the_future, bound_the_metadata, normalise_type, fields_size,
  json_size, items_size, further_size, text_size, validate,
}
use feathr_events.Ingest.Body.{has_length, taken, declared}
use feathr_events.Seed.Words.{
  Kind, pageview, click, add_to_cart, conversion, signup, error, kind_name, browsers, devices,
  countries, campaigns, plans, codes,
}
use feathr_events.Seed.Events.{
  make_user, weighted_type, Draws, choice, choice_from, decimal, with_campaign, own_metadata,
  metadata_of, make_event, dated,
}

choice_from-All :
    (P : Text → Type 0) (x : Text) (xs : List Text) (i : ℕ)
    → P x
    → All P xs
    → P (choice_from x xs i)
choice_from-All P x [] i h k = h
choice_from-All P x (y ∷ xs) zero h k = h
choice_from-All P x (y ∷ xs) (suc i) h k = choice_from-All P y xs i k.0 k.1

abbrev IsShort : Text → Type 0
IsShort s = text_size s ≤ 20

choice-IsShort : (xs : List Text) (i : ℕ) → All IsShort xs → IsShort (choice xs i)
choice-IsShort [] i h = omega arith
choice-IsShort (x ∷ xs) i h = choice_from-All IsShort x xs i h.0 h.1

browsers-IsShort : (i : ℕ) → IsShort (choice browsers i)
browsers-IsShort i = choice-IsShort browsers i (ground arith)

devices-IsShort : (i : ℕ) → IsShort (choice devices i)
devices-IsShort i = choice-IsShort devices i (ground arith)

countries-IsShort : (i : ℕ) → IsShort (choice countries i)
countries-IsShort i = choice-IsShort countries i (ground arith)

campaigns-IsShort : (i : ℕ) → IsShort (choice campaigns i)
campaigns-IsShort i = choice-IsShort campaigns i (ground arith)

plans-IsShort : (i : ℕ) → IsShort (choice plans i)
plans-IsShort i = choice-IsShort plans i (ground arith)

codes-IsShort : (i : ℕ) → IsShort (choice codes i)
codes-IsShort i = choice-IsShort codes i (ground arith)

length-decimal : (places n : ℕ) → length (decimal places n) ≤ suc places
length-decimal zero n = omega arith
length-decimal (suc k) n = elim (Bool-cases (ltb n 10)) [
  | inl small ↦ rw small (omega arith)
  | inr large ↦
      rw (large, length-append (decimal k (n / 10)) ((48 + n % 10) ∷ []))
        (omega (arith, length-decimal k (n / 10)))
]

-- The amount is written with at most six characters.
abbrev pub IsPrice : Text → Type 0
IsPrice s = length s ≤ 6

bool_size : (b : Bool) → json_size (bool b) ≤ 5
unfolding json_size
bool_size true = omega arith
bool_size false = omega arith

own_metadata-le : (k : Kind) (d : Draws) → IsPrice d.amount → further_size (own_metadata k d) ≤ 100
unfolding json_size items_size fields_size further_size own_metadata
own_metadata-le pageview d h = omega arith
own_metadata-le click d h = omega arith
own_metadata-le conversion d h = omega arith
own_metadata-le add_to_cart d h = omega (arith, length-decimal 3 d.quantity)
own_metadata-le signup d h = omega (arith, plans-IsShort d.plan, bool_size d.referred)
own_metadata-le error d h = omega (arith, codes-IsShort d.code, bool_size d.retryable)

with_campaign-le :
    (o : Option ℕ) (fs : Fields) → further_size (with_campaign o fs) ≤ further_size fs + 36
unfolding json_size items_size fields_size further_size
with_campaign-le none fs = omega arith
with_campaign-le (some i) fs = omega (arith, campaigns-IsShort i)

-- The metadata of an event stays far below the bound.
pub metadata_of-le : (k : Kind) (d : Draws) → IsPrice d.amount → fields_size (metadata_of k d) ≤ 256
unfolding json_size items_size fields_size further_size metadata_of
metadata_of-le k d h = omega (
  arith,
  browsers-IsShort d.browser,
  devices-IsShort d.device,
  countries-IsShort d.country,
  with_campaign-le d.campaign (own_metadata k d),
  own_metadata-le k d h,
)

-- Small letters and underscores, which `str.lower` leaves as they are.
abbrev IsPlain : ℕ → Type 0
IsPlain a = (leb 97 a && leb a 122 || nat_beq a 95) ≡ true

module _ (lower : Text → Text) where
  abbrev pub KeepsPlain : Type 0
  KeepsPlain = (s : Text) → All IsPlain s → lower s ≡ s

  normalise_type-kind_name :
      (k : Kind) → KeepsPlain → normalise_type lower (kind_name k) ≡ ok (kind_name k)
  unfolding normalise_type
  normalise_type-kind_name pageview h = rw (h (kind_name pageview) (ground arith)) refl
  normalise_type-kind_name click h = rw (h (kind_name click) (ground arith)) refl
  normalise_type-kind_name add_to_cart h = rw (h (kind_name add_to_cart) (ground arith)) refl
  normalise_type-kind_name conversion h = rw (h (kind_name conversion) (ground arith)) refl
  normalise_type-kind_name signup h = rw (h (kind_name signup) (ground arith)) refl
  normalise_type-kind_name error h = rw (h (kind_name error) (ground arith)) refl

  future-near :
      (t checked : ℕ)
      → t ≤ now checked + future_skew
      → bound_the_future checked (some (aware t)) ≡ ok (some t)
  unfolding bound_the_future
  future-near t checked near = ground (arith, near)

  metadata-fits :
      (k : Kind) (d : Draws)
      → IsPrice d.amount
      → bound_the_metadata (metadata_of k d) ≡ ok (metadata_of k d)
  unfolding bound_the_metadata
  metadata-fits k d price = ground (arith, metadata_of-le k d price)

  -- The validators accept what the script makes, as it is, where it is not dated far ahead.
  pub make_event-valid :
      (clock checked : ℕ) (d : Draws) (url : Text)
      → KeepsPlain
      → IsPrice d.amount
      → dated clock d.age ≤ now checked + future_skew
      → validate lower checked (taken (make_event clock d) url)
        ≡ ok (record {
          event_type = kind_name (weighted_type d.roll);
          timestamp = some (dated clock d.age);
          metadata = metadata_of (weighted_type d.roll) d;
        })
  unfolding validate make_event
  make_event-valid clock checked d url keeps price near =
      rw
        (
          normalise_type-kind_name (weighted_type d.roll) keeps,
          future-near (dated clock d.age) checked near,
          metadata-fits (weighted_type d.roll) d price,
        )
        refl

kind_name-fits : (k : Kind) → has_length 64 (kind_name k) ≡ true
kind_name-fits pageview = refl
kind_name-fits click = refl
kind_name-fits add_to_cart = refl
kind_name-fits conversion = refl
kind_name-fits signup = refl
kind_name-fits error = refl

make_user-fits : (d : Draws) → has_length 128 (make_user d) ≡ true
unfolding make_user
make_user-fits d = ground (arith, length-decimal 3 (if d.heavy then d.heavy_user else d.light_user))

-- The declared bounds let it pass, where its URL is one.
pub make_event-declared :
    (lower : Text → Text) (validate_url : Text → Option Text) (clock : ℕ) (d : Draws) (url : Text)
    → declared lower validate_url (make_event clock d) (some url)
      ≡ some (taken (make_event clock d) url)
unfolding make_event
make_event-declared lower validate_url clock d url =
    rw (kind_name-fits (weighted_type d.roll), make_user-fits d) refl
