-- ===== src/Queries/Own.antt =====
-- A reader who asks for what was posted finds what was stored.
use feathr_events.Prelude.{
  ℕ, ◌≤◌, List, [], ◌∷◌, ◌++◌, Option, none, some, ◌≡◌, refl, arith, All, ok, ap, Result, err,
  ◌>>=◌, sym,
}
use feathr_events.Models.{Text, Event, Fields}
use feathr_events.Texts.{strip}
use feathr_events.Ingest.{
  EventIn, Valid, validate, from_input, normalise_type, nonempty, ValueError,
}
use feathr_events.Queries.{
  Condition, event_type_is, user_id_is, source_url_is, timestamp_in, filter_of, normalise_url,
  if_given, window,
}

abbrev pub AtLeast : Option ℕ → ℕ → Type 0
AtLeast none t = Unit
AtLeast (some a) t = a ≤ t

abbrev pub AtMost : Option ℕ → ℕ → Type 0
AtMost none t = Unit
AtMost (some b) t = t ≤ b

-- An event meets a condition of the filter.
abbrev pub Meets : Event → Condition → Type 0
Meets e (event_type_is t) = e.event_type ≡ t
Meets e (user_id_is t) = e.user_id ≡ t
Meets e (source_url_is t) = e.source_url ≡ t
Meets e (timestamp_in gte lte) = AtLeast gte e.timestamp × AtMost lte e.timestamp

All-append {ℓ κ} :
    {A : Type ℓ} (P : A → Type κ) (xs ys : List A) → All P xs → All P ys → All P (xs ++ ys)
All-append P [] ys h k = k
All-append P (x ∷ xs) ys h k = (h.0, All-append P xs ys h.1 k)

if_given-Meets :
    (e : Event) (f : Text → Condition) (t : Text)
    → Meets e (f t)
    → All (Meets e) (if_given f (some t))
if_given-Meets e f [] h = tt
if_given-Meets e f (a ∷ s) h = (h, tt)

window-Meets :
    (e : Event) (since until : Option ℕ)
    → AtLeast since e.timestamp
    → AtMost until e.timestamp
    → All (Meets e) (window since until)
window-Meets e none none h k = tt
window-Meets e (some a) none h k = ((h, tt), tt)
window-Meets e none (some b) h k = ((tt, k), tt)
window-Meets e (some a) (some b) h k = ((h, k), tt)

module _ (lower : Text → Text) where
  abbrev type_in : Result ValueError (Valid lower) → Result ValueError Text
  type_in r = r >>= (λ v. ok v.event_type)

  chained-type :
      (t : Result ValueError Text) (o : Result ValueError (Option ℕ)) (m : Result ValueError Fields)
      (v : Valid lower)
      → (t >>= (λ x.
          o >>= (λ y. m >>= (λ z. ok (record { event_type = x; timestamp = y; metadata = z })))))
        ≡ ok v
      → t ≡ ok v.event_type
  chained-type (err e) o m v h = ground (arith, h)
  chained-type (ok x) (err e) m v h = ground (arith, h)
  chained-type (ok x) (ok y) (err e) v h = ground (arith, h)
  chained-type (ok x) (ok y) (ok z) v h = ap type_in h

  nonempty-same : (t v : Text) → nonempty lower t ≡ ok v → t ≡ v
  nonempty-same [] v h = ground (arith, h)
  nonempty-same (a ∷ s) v h = ground (arith, h)

  validate-type :
      (clock : ℕ) (p : EventIn) (v : Valid lower)
      → validate lower clock p ≡ ok v
      → lower (strip p.event_type) ≡ v.event_type
  unfolding validate normalise_type
  validate-type clock p v h = nonempty-same _ _ (chained-type _ _ _ v h)

-- The stored event of a request that passed the validators meets the filter for the type, the user and the
-- URL as they were sent, over any window that its time lies in: the reads normalise what the writes
-- normalised.
pub own_filter_matches :
    (lower : Text → Text) (validate_url : Text → Option Text) (checked stamped id : ℕ) (p : EventIn)
    (v : Valid lower) (url : Text) (since until : Option ℕ)
    → validate lower checked p ≡ ok v
    → validate_url url ≡ some p.source_url
    → AtLeast since (from_input lower stamped id p v).timestamp
    → AtMost until (from_input lower stamped id p v).timestamp
    → All (Meets (from_input lower stamped id p v)) (
        filter_of lower validate_url (record {
          event_type = some p.event_type;
          user_id = some p.user_id;
          source_url = some url;
          since = since;
          until = until;
        }))
unfolding filter_of normalise_url from_input
own_filter_matches lower validate_url checked stamped id p v url since until valid parsed from to =
    let e = from_input lower stamped id p v in
    All-append (Meets e) _ _
      (if_given-Meets e (λ t. event_type_is (lower (strip t))) p.event_type
        (sym (validate-type lower checked p v valid)))
      (All-append (Meets e) _ _ (if_given-Meets e user_id_is p.user_id refl) (
        All-append (Meets e) _ _
          (if_given-Meets e (λ u. source_url_is (normalise_url lower validate_url u)) url
            (rw (normalise_url, parsed) refl))
          (window-Meets e since until from to)))
