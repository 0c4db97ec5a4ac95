-- ===== src/Cache/Key.antt =====
-- app/cache.py, `StatsCache.key`: the key of an answer, from the parameters of its request. The JSON of
-- the parameters and the digest are parameters.
use feathr_events.Prelude.{
  List, [], ◌∷◌, ◌++◌, Option, none, some, true, ◌==◌, ◌≡◌, refl, arith, All, Bool-cases, inl, inr,
  take, drop, ap, sym, ◌∙◌, ◌↔◌, subst,
}
use feathr_events.Models.{Text}
use feathr_events.Texts.{text_leb, text_eq}
use feathr_events.Texts.Order.{text_leb-total, text_leb_trans}
use feathr_events.Dict
use feathr_events.Dict.{IsDict}
use feathr_events.Sorting.{sort, IsSorted, sort-IsSorted}
use feathr_events.Dict.Sorted.{by_name, sort-IsDict, sorted_alike}

-- `feathr:stats:`
abbrev prefix : Text
prefix = 102 ∷ 101 ∷ 97 ∷ 116 ∷ 104 ∷ 114 ∷ 58 ∷ 115 ∷ 116 ∷ 97 ∷ 116 ∷ 115 ∷ 58 ∷ []

module _ {V : Type 0} where
  -- `{k: v for k, v in … if v is not None}`
  unfoldable pub given : List (Text × Option V) → List (Text × V)
  given [] = []
  given ((k, none) ∷ d) = given d
  given ((k, some v) ∷ d) = (k, v) ∷ given d

  unfoldable pub canonical : List (Text × Option V) → List (Text × V)
  unfolding given
  canonical params = given (sort by_name params)

  -- `dumps` is that of `json` with `_encode`, `hexdigest` that of SHA-256.
  unfoldable pub key :
      (dumps : List (Text × V) → Text) → (hexdigest : Text → Text) → List (Text × Option V) → Text
  unfolding canonical
  key dumps hexdigest params = prefix ++ take 16 (hexdigest (dumps (canonical params)))

  -- The value asked for under a name: a parameter that is `None` is as one that is not there.
  abbrev pub joined : Option (Option V) → Option V
  joined none = none
  joined (some v) = v

  abbrev pub asked : Text → List (Text × Option V) → Option V
  asked k params = joined (Dict.get k params)

  get-given : (k : Text) (d : List (Text × Option V)) → IsDict d → Dict.get k (given d) ≡ asked k d
  unfolding given Dict.get
  get-given k [] h = refl
  get-given k ((j, some v) ∷ d) h = ground (arith, get-given k d h.1)
  get-given k ((j, none) ∷ d) h = elim (Bool-cases (j == k)) [
    | inl here ↦ rw here (
        get-given k d h.1
        ∙ ap joined (subst (λ x. Dict.get x d ≡ none) ((text_eq.beq_iff j k).0 here) h.0))
    | inr there ↦ rw there (get-given k d h.1)
  ]

  given-IsDict : (d : List (Text × Option V)) → IsDict d → IsDict (given d)
  unfolding given Dict.get
  given-IsDict [] h = tt
  given-IsDict ((j, none) ∷ d) h = given-IsDict d h.1
  given-IsDict ((j, some v) ∷ d) h = (get-given j d h.1 ∙ ap joined h.0, given-IsDict d h.1)

  given-IsSorted : (d : List (Text × Option V)) → IsSorted by_name d → IsSorted by_name (given d)
  unfolding given
  given-IsSorted [] h = tt
  given-IsSorted ((j, none) ∷ d) h = given-IsSorted d h.1
  given-IsSorted ((j, some v) ∷ d) h = (All-given d h.0, given-IsSorted d h.1)
    where
      All-given :
          (d : List (Text × Option V))
          → All (λ p. text_leb j p.0 ≡ true) d
          → All (λ p. text_leb j p.0 ≡ true) (given d)
      All-given [] h = tt
      All-given ((i, none) ∷ d) h = All-given d h.1
      All-given ((i, some w) ∷ d) h = (h.0, All-given d h.1)

-- Requests with the same parameters, as far as they are not `None`, have the same canonical form, and
-- no others.
canonical-asked :
    {V : Type 0} (p q : List (Text × Option V))
    → IsDict p
    → IsDict q
    → ((k : Text) → asked k p ≡ asked k q) ↔ (canonical p ≡ canonical q)
unfolding canonical
canonical-asked {V} p q a b = (
  λ same.
      sorted_alike (canonical p) (canonical q) (given-IsDict (sort by_name p) (sort-IsDict p a).0)
        (given-IsDict (sort by_name q) (sort-IsDict q b).0)
        (given-IsSorted (sort by_name p) (by_name_sorts p))
        (given-IsSorted (sort by_name q) (by_name_sorts q))
        (λ k. found k p a ∙ same k ∙ sym (found k q b)),
  λ same k. sym (found k p a) ∙ ap (Dict.get k) same ∙ found k q b,
)
  where
    by_name_sorts : (d : List (Text × Option V)) → IsSorted by_name (sort by_name d)
    by_name_sorts =
        sort-IsSorted by_name (λ x y. text_leb-total x.0 y.0) (λ x y z. text_leb_trans x.0 y.0 z.0)

    found :
        (k : Text) (d : List (Text × Option V)) → IsDict d → Dict.get k (canonical d) ≡ asked k d
    found k d h =
        let (dict, same) = sort-IsDict d h in get-given k (sort by_name d) dict ∙ ap joined (same k)

-- The keys of two requests, each with its parameters under different names, are equal if and only if
-- the requests ask for the same, if the digest tells their canonical forms apart: the order of the
-- parameters does not matter, and one that is `None` is as one that is not there.
pub key-asked :
    {V : Type 0} (dumps : List (Text × V) → Text) (hexdigest : Text → Text)
    (p q : List (Text × Option V))
    → IsDict p
    → IsDict q
    → (take 16 (hexdigest (dumps (canonical p))) ≡ take 16 (hexdigest (dumps (canonical q)))
        → canonical p ≡ canonical q)
    → ((k : Text) → asked k p ≡ asked k q) ↔ (key dumps hexdigest p ≡ key dumps hexdigest q)
unfolding key
key-asked dumps hexdigest p q a b tells =
    let (to, back) = canonical-asked p q a b in
    (
      λ same. ap (λ d. prefix ++ take 16 (hexdigest (dumps d))) (to same),
      λ one. back (tells (ap (drop 13) one)),
    )
