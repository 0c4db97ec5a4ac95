-- ===== src/Reads.antt =====
-- app/main.py, the endpoints `GET /events`, `/events/stats`, `/events/search` and `/events/search/terms`: the
-- declared bounds of their parameters, and their calls of app/queries.py. The framework reads the
-- numbers; an instant has been read, too.
pub mod Pages
mod Tests
use feathr_events.Prelude.{
  ℕ, ℤ, pos, negsuc, ◌+◌, List, [], ◌∷◌, Option, none, some, Bool, true, false, ◌&&◌, leb, length,
  if◌then◌else◌,
}
use feathr_events.Models.{Text}
use feathr_events.Texts.{text_beq}
use feathr_events.Queries.{Condition, Asked, filter_of, Found, Page}
use feathr_events.Queries
use feathr_events.Queries.Search.{Clause, Hit, Results}
use feathr_events.Queries.Search
use feathr_events.Queries.Terms.{Aggregate}
use feathr_events.Queries.Terms

-- 200, or 422 where a parameter is refused.
pub data Answer {ℓ} (A : Type ℓ) : Type ℓ where
  answered : A → Answer A
  unprocessable : Answer A

abbrev is_at_most : Option ℕ → ℕ → Bool
is_at_most none n = true
is_at_most (some le) n = leb n le

-- `Query(default, ge=ge, le=le)`: the number that the endpoint gets
unfoldable pub bounded : (default ge : ℕ) (le : Option ℕ) → Option ℤ → Answer ℕ
bounded default ge le none = answered default
bounded default ge le (some (negsuc n)) = unprocessable
bounded default ge le (some (pos n)) =
    if leb ge n && is_at_most le n then answered n else unprocessable

abbrev pub then_call {ℓ κ} : {A : Type ℓ} {B : Type κ} → Answer A → (A → Answer B) → Answer B
then_call unprocessable f = unprocessable
then_call (answered a) f = f a

-- `list_events`
unfoldable pub list_events :
    (lower : Text → Text) (validate_url : Text → Option Text)
    (find : List Condition → (offset limit : ℕ) → List Found) (asked : Asked)
    (limit offset : Option ℤ)
    → Answer Page
unfolding bounded filter_of
list_events lower validate_url find asked limit offset =
    then_call (bounded 50 1 (some 500) limit) (λ l.
      then_call (bounded 0 0 none offset)
        (λ o. answered (Queries.list_events find (filter_of lower validate_url asked) l o)))

-- `Query(min_length=1)`
abbrev required : Option Text → Answer Text
required none = unprocessable
required (some []) = unprocessable
required (some (a ∷ s)) = answered (a ∷ s)

-- `search`
unfoldable pub search :
    (cluster : List Clause → (size : ℕ) → ℕ × List Hit) (q : Option Text) (limit : Option ℤ)
    → Answer Results
unfolding bounded
search cluster q limit = then_call (required q) (λ s.
    then_call (bounded 50 1 (some 500) limit) (λ l. answered (Queries.Search.search cluster s l)))

-- `Query(None, max_length=64)`
abbrev short : Option Text → Answer (Option Text)
short none = answered none
short (some s) = if leb (length s) 64 then answered (some s) else unprocessable

-- `search_terms`
unfoldable pub search_terms :
    (lower : Text → Text)
    → Aggregate
    → (q : Option Text) (limit : Option ℤ) → Answer (List (Text × ℕ))
unfolding bounded
search_terms lower aggregate q limit = then_call (short q) (λ starts_with.
    then_call (bounded 12 1 (some 50) limit)
      (λ l. answered (Queries.Terms.search_terms lower aggregate l starts_with)))

-- The class `Bucket` of app/queries.py, and the values of its members.
pub data Bucket : Type 0 where
  hourly daily weekly : Bucket

-- hourly, daily, weekly
abbrev bucket_of : Text → Answer Bucket
bucket_of s =
    if text_beq s (104 ∷ 111 ∷ 117 ∷ 114 ∷ 108 ∷ 121 ∷ [])
    then answered hourly
    else if text_beq s (100 ∷ 97 ∷ 105 ∷ 108 ∷ 121 ∷ [])
    then answered daily
    else if text_beq s (119 ∷ 101 ∷ 101 ∷ 107 ∷ 108 ∷ 121 ∷ [])
    then answered weekly
    else unprocessable

-- The parameter `bucket`, which is daily where it is not given.
abbrev pub bucket_asked : Option Text → Answer Bucket
bucket_asked none = answered daily
bucket_asked (some s) = bucket_of s

-- `stats`: the aggregation groups what the filter leaves by the bucket, and the filter asks for no user
-- and no URL.
unfoldable pub stats {ℓ} :
    {A : Type ℓ} (lower : Text → Text) (validate_url : Text → Option Text)
    (aggregate : Bucket → List Condition → List (A × ℕ)) (bucket : Option Text)
    (event_type : Option Text) (since until : Option ℕ)
    → Answer (ℕ × List (A × ℕ))
unfolding filter_of
stats lower validate_url aggregate bucket event_type since until =
    then_call (bucket_asked bucket) (λ b.
      let asked : Asked = record {
        event_type = event_type;
        user_id = none;
        source_url = none;
        since = since;
        until = until;
      } in
      answered (Queries.stats (aggregate b (filter_of lower validate_url asked))))
