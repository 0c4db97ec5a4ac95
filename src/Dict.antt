-- ===== src/Dict.antt =====
-- Python's insertion-ordered `dict` and `OrderedDict`, as association lists: what app/queue.py,
-- app/ratelimit.py and app/observability.py use of them.
pub mod Laws
pub mod Sorted
use feathr_events.Prelude.{
  ℕ, List, [], ◌∷◌, ◌++◌, Option, none, some, Eq, ◌==◌, if◌then◌else◌, ◌≡◌, map,
}

module _ {ℓ κ} {K : Type ℓ} {V : Type κ} ⦃e : Eq K⦄ where
  -- `d.get(k)`
  unfoldable pub get : K → List (K × V) → Option V
  get k [] = none
  get k ((j, v) ∷ d) = if j == k then some v else get k d

  -- `d[k] = v`: a key that is there keeps its place, a new one goes to the end.
  unfoldable pub set : K → V → List (K × V) → List (K × V)
  set k v [] = (k, v) ∷ []
  set k v ((j, w) ∷ d) = if j == k then (j, v) ∷ d else (j, w) ∷ set k v d

  -- `del d[k]`, `d.pop(k, None)`. (A dictionary has a key once.)
  unfoldable pub delete : K → List (K × V) → List (K × V)
  delete k [] = []
  delete k ((j, v) ∷ d) = if j == k then delete k d else (j, v) ∷ delete k d

  -- `d.move_to_end(k)` of a key that is there
  unfoldable pub move_to_end : K → V → List (K × V) → List (K × V)
  unfolding delete
  move_to_end k v d = delete k d ++ (k, v) ∷ []

  -- Each key stands once.
  abbrev pub IsDict : List (K × V) → Type κ
  IsDict [] = Unit
  IsDict ((k, v) ∷ d) = (get k d ≡ none) × IsDict d

abbrev pub values {ℓ κ} : {K : Type ℓ} {V : Type κ} → List (K × V) → List V
values = map λ p. p.1

abbrev pub keys {ℓ κ} : {K : Type ℓ} {V : Type κ} → List (K × V) → List K
keys = map λ p. p.0
