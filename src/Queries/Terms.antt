-- ===== src/Queries/Terms.antt =====
-- app/queries.py, `search_terms`: what the search box offers. The aggregation is an argument.
use feathr_events.Prelude.{
  ℕ, List, [], ◌∷◌, ◌++◌, Option, none, some, Bool, ◌&&◌, ◌||◌, not, leb, nat_beq, is_none,
  if◌then◌else◌, map, take, contains,
}
use feathr_events.Models.{Text}
use feathr_events.Texts.{text_eq}
use feathr_events.Sorting.{filter, sort}
use feathr_events.Dict

-- `c` is in `[a-z0-9 _\-./:]`
abbrev pub is_safe : ℕ → Bool
is_safe c =
    (leb 97 c && leb c 122)
    || (leb 48 c && leb c 57)
    || nat_beq c 32
    || nat_beq c 95
    || nat_beq c 45
    || nat_beq c 46
    || nat_beq c 47
    || nat_beq c 58

-- `_UNSAFE_IN_PREFIX.sub("", s)`
unfoldable pub clean : Text → Text
clean s = filter is_safe s

-- `s.replace(".", "\\.")`
abbrev pub escape : Text → Text
escape [] = []
escape (c ∷ s) = let further = escape s in if nat_beq c 46 then 92 ∷ 46 ∷ further else c ∷ further

-- `agg["include"]`
unfoldable pub include_of : Text → Text
include_of cleaned = escape cleaned ++ 46 ∷ 42 ∷ []

-- The `event_type` and the `metadata` of the events.
pub data Field : Type 0 where
  types values : Field

-- A terms aggregation: of a field, so many terms, that match a pattern: each with its number of
-- documents.
abbrev pub Aggregate : Type 0
Aggregate = Field → (size : ℕ) → (include : Option Text) → List (Text × ℕ)

-- `seen.setdefault(key, count)`
abbrev pub setdefault : Text → ℕ → List (Text × ℕ) → List (Text × ℕ)
setdefault k n d = if is_none (Dict.get k d) then Dict.set k n d else d

unfoldable pub deduplicate : List (Text × ℕ) → List (Text × ℕ) → List (Text × ℕ)
unfolding Dict.get Dict.set
deduplicate [] seen = seen
deduplicate ((k, n) ∷ buckets) seen = deduplicate buckets (setdefault k n seen)

-- The order of the key `-count`.
abbrev pub by_count : Text × ℕ → Text × ℕ → Bool
by_count (k, n) (j, m) = leb m n

-- The order of the key `(value not in types, -count)`.
abbrev pub types_first : List Text → Text × ℕ → Text × ℕ → Bool
types_first ts (k, n) (j, m) =
    if contains k ts then not (contains j ts) || leb m n else not (contains j ts) && leb m n

abbrev pub order_of : Option Text → List Text → Text × ℕ → Text × ℕ → Bool
order_of none ts = types_first ts
order_of (some s) ts = by_count

-- What follows the cleaning of the prefix.
unfoldable pub offered :
    Aggregate → (limit : ℕ) → (starts_with include : Option Text) → List (Text × ℕ)
unfolding deduplicate
offered aggregate limit starts_with include =
    let ts = aggregate types limit include in
    let seen = deduplicate (ts ++ aggregate values limit include) [] in
    take limit (sort (order_of starts_with (map (λ b. b.0) ts)) seen)

abbrev pub offered_for : Aggregate → ℕ → Option Text → Text → List (Text × ℕ)
offered_for aggregate limit starts_with [] = []
offered_for aggregate limit starts_with (c ∷ s) =
    offered aggregate limit starts_with (some (include_of (c ∷ s)))

-- `search_terms`
unfoldable pub search_terms :
    (lower : Text → Text) → Aggregate → (limit : ℕ) → (starts_with : Option Text) → List (Text × ℕ)
unfolding offered clean include_of
search_terms lower aggregate limit none = offered aggregate limit none none
search_terms lower aggregate limit (some s) = offered_for aggregate limit (some s) (clean (lower s))
