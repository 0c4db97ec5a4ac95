-- ===== src/Queries/Offered.antt =====
-- What `search_terms` offers.
use feathr_events.Prelude.{
  ℕ, ◌≤◌, ◌<◌, List, [], ◌∷◌, ◌++◌, Option, none, some, Bool, true, false, ◌≡◌, refl, arith, All,
  ◌∙◌, ap, if◌then◌else◌, Bool-cases, Option-cases, inl, inr, ◌⊎◌, map, length, not, sym, is_none,
}
use feathr_events.Models.{Text}
use feathr_events.Texts.{text_beq, text_beq_iff, text_eq}
use feathr_events.Sorting.{
  any, sort, IsSorted, sort-IsSorted, IsApart, sort-IsApart, All-sort, any-sort, All-take,
  take-IsApart, take-IsSorted, length-take, take-all,
}
use feathr_events.Dict
use feathr_events.Dict.Laws.{get-set}
use feathr_events.Queries.Terms.{
  Aggregate, types, values, setdefault, deduplicate, order_of, offered, offered_for, search_terms,
  clean, include_of,
}

abbrev pub same_term : Text × ℕ → Text × ℕ → Bool
same_term (k, n) (j, m) = text_beq k j

same_term-symmetric : (x y : Text × ℕ) → same_term x y ≡ same_term y x
same_term-symmetric (k, n) (j, m) = ground (arith, text_beq_iff k j, text_beq_iff j k)

order_of-total :
    (s : Option Text) (ts : List Text) (x y : Text × ℕ)
    → order_of s ts x y ≡ false
    → order_of s ts y x ≡ true
order_of-total none ts (k, n) (j, m) h = ground arith
order_of-total (some s) ts (k, n) (j, m) h = ground arith

order_of_trans :
    (s : Option Text) (ts : List Text) (x y z : Text × ℕ)
    → order_of s ts x y ≡ true
    → order_of s ts y z ≡ true
    → order_of s ts x z ≡ true
order_of_trans none ts (k, n) (j, m) (i, l) h e = ground arith
order_of_trans (some s) ts (k, n) (j, m) (i, l) h e = ground arith

abbrev or_first : Option ℕ → Option ℕ → Option ℕ
or_first none o = o
or_first (some n) o = some n

get-setdefault :
    (k j : Text) (n : ℕ) (d : List (Text × ℕ))
    → Dict.get j (setdefault k n d)
      ≡ or_first (Dict.get j d) (if text_beq k j then some n else none)
get-setdefault k j n d = ground (arith, get-set k j n d, text_beq_iff k j)

-- The first count of a key wins.
get-deduplicate :
    (j : Text) (buckets seen : List (Text × ℕ))
    → Dict.get j (deduplicate buckets seen) ≡ or_first (Dict.get j seen) (Dict.get j buckets)
unfolding deduplicate Dict.get
get-deduplicate j [] seen = ground arith
get-deduplicate j ((k, n) ∷ buckets) seen =
    ground (arith, get-deduplicate j buckets (setdefault k n seen), get-setdefault k j n seen)

abbrev IsListed : List (Text × ℕ) → Text × ℕ → Type 0
IsListed d (k, n) = Dict.get k d ≡ some n

any-get :
    (k : Text) (n : ℕ) (d : List (Text × ℕ))
    → any (same_term (k, n)) d ≡ not (is_none (Dict.get k d))
unfolding Dict.get
any-get k n [] = refl
any-get k n ((j, m) ∷ d) = ground (arith, any-get k n d, text_beq_iff k j, text_beq_iff j k)

set-IsApart :
    (k : Text) (n : ℕ) (d : List (Text × ℕ))
    → Dict.get k d ≡ none
    → IsApart same_term d
    → IsApart same_term (Dict.set k n d)
unfolding Dict.get Dict.set
set-IsApart k n [] h a = (refl, tt)
set-IsApart k n ((j, m) ∷ d) h a = elim (Bool-cases (text_beq j k)) [
  | inl same ↦ absurd (ground (arith, same, h))
  | inr other ↦ rw other (
    ground (
      arith,
      a.0,
      any-get j m d,
      any-get j m (Dict.set k n d),
      get-set k j n d,
      text_beq_iff k j,
      text_beq_iff j k,
    ),
    set-IsApart k n d (ground (arith, other, h)) a.1,
  )
]

deduplicate-IsApart :
    (buckets seen : List (Text × ℕ))
    → IsApart same_term seen
    → IsApart same_term (deduplicate buckets seen)
unfolding deduplicate
deduplicate-IsApart [] seen a = a
deduplicate-IsApart ((k, n) ∷ buckets) seen a = elim (Option-cases (Dict.get k seen)) [
  | inl new ↦ deduplicate-IsApart buckets _ (rw new (set-IsApart k n seen new a))
  | inr (m, old) ↦ deduplicate-IsApart buckets _ (rw old a)
]

-- In a list of distinct terms each is what a lookup of its key finds.
IsApart-IsListed :
    (d e : List (Text × ℕ))
    → IsApart same_term d
    → ((k : Text) (n : ℕ) → Dict.get k d ≡ some n → Dict.get k e ≡ some n)
    → All (IsListed e) d
unfolding Dict.get
IsApart-IsListed [] e a h = tt
IsApart-IsListed ((k, n) ∷ d) e a h = (
  h k n (ground (arith, text_beq_iff k k)),
  IsApart-IsListed d e a.1
      (λ j m g. h j m (ground (arith, g, any-get k n d, text_beq_iff k j, a.0))),
)

module _ (aggregate : Aggregate) (limit : ℕ) (starts_with include : Option Text) where
  -- The buckets of both aggregations, those of the types first.
  abbrev pub buckets : List (Text × ℕ)
  buckets = aggregate types limit include ++ aggregate values limit include

  abbrev pub type_keys : List Text
  type_keys = map (λ b. b.0) (aggregate types limit include)

  abbrev le : Text × ℕ → Text × ℕ → Bool
  le = order_of starts_with type_keys

  abbrev seen : List (Text × ℕ)
  seen = deduplicate buckets []

  get-seen : (k : Text) → Dict.get k seen ≡ Dict.get k buckets
  unfolding Dict.get
  get-seen k = get-deduplicate k buckets []

  -- The terms are distinct, at most `limit` and in the order asked for; each has the count of the first
  -- bucket with its key; and a key of a bucket is missing only where the limit is reached.
  pub record IsOffer (r : List (Text × ℕ)) : Type 0 where
    pub apart : IsApart same_term r
    pub few : length r ≤ limit
    pub sorted : IsSorted (order_of starts_with type_keys) r
    pub listed : All (IsListed buckets) r
    pub all :
        (k : Text) (n : ℕ)
        → Dict.get k buckets ≡ some n
        → length r < limit
        → any (same_term (k, n)) r ≡ true

  pub offered-IsOffer : IsOffer (offered aggregate limit starts_with include)
  unfolding offered
  offered-IsOffer =
      let apart = deduplicate-IsApart buckets [] tt in
      let ordered = sort le seen in
      let total = order_of-total starts_with type_keys in
      let trans = order_of_trans starts_with type_keys in
      record {
        apart =
            take-IsApart same_term limit ordered
              (sort-IsApart le same_term same_term-symmetric seen apart);
        few = length-take limit ordered;
        sorted = take-IsSorted le limit ordered (sort-IsSorted le total trans seen);
        listed = All-take (IsListed buckets) limit ordered (
            All-sort le (IsListed buckets) seen
              (IsApart-IsListed seen buckets apart (λ k n h. sym (get-seen k) ∙ h)));
        all = λ k n h short. rw (take-all limit ordered short) (
            any-sort le (same_term (k, n)) seen
            ∙ any-get k n seen
            ∙ ap (λ o. not (is_none o)) (get-seen k ∙ h));
      }

-- Without a prefix, and with a prefix of which some character survives the cleaning, what is returned
-- is distinct, at most `limit` and in the order asked for, each term with the count of the first bucket
-- with its key, and a bucket is left out only where the limit is reached; where no character survives,
-- nothing is returned.
pub search_terms-IsOffer :
    (lower : Text → Text) (aggregate : Aggregate) (limit : ℕ)
    → IsOffer aggregate limit none none (search_terms lower aggregate limit none)
      × ((s : Text)
          → ((clean (lower s) ≡ []) × (search_terms lower aggregate limit (some s) ≡ []))
            ⊎ IsOffer aggregate limit
                (some s)
                (some (include_of (clean (lower s))))
                (search_terms lower aggregate limit (some s)))
unfolding search_terms
search_terms-IsOffer lower aggregate limit =
    (offered-IsOffer aggregate limit none none, λ s. by_prefix s (clean (lower s)))
  where
    by_prefix :
        (s cleaned : Text)
        → ((cleaned ≡ []) × (offered_for aggregate limit (some s) cleaned ≡ []))
          ⊎ IsOffer aggregate limit
              (some s)
              (some (include_of cleaned))
              (offered_for aggregate limit (some s) cleaned)
    by_prefix s [] = inl (refl, refl)
    by_prefix s (c ∷ cs) =
        inr (offered-IsOffer aggregate limit (some s) (some (include_of (c ∷ cs))))
