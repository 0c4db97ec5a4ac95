-- ===== src/Dict/Laws.antt =====
-- The laws of the dictionary operations, each for every key, and the lengths they leave.
use feathr_events.Prelude.{
  ◌+◌, ◌≤◌, List, [], ◌∷◌, ◌++◌, none, some, Eq, ◌==◌, if◌then◌else◌, ◌≡◌, refl, arith, length,
}
use feathr_events.Dict.{get, set, delete, IsDict}

module _ {ℓ κ} {K : Type ℓ} {V : Type κ} ⦃e : Eq K⦄ where
  pub get-set :
      (k j : K) (v : V) (d : List (K × V))
      → get j (set k v d) ≡ (if k == j then some v else get j d)
  unfolding get set
  get-set k j v [] = refl
  get-set k j v ((i, w) ∷ d) =
      ground (arith, e.beq_iff k j, e.beq_iff i k, e.beq_iff i j, get-set k j v d)

  pub get-delete :
      (k j : K) (d : List (K × V)) → get j (delete k d) ≡ (if k == j then none else get j d)
  unfolding get delete
  get-delete k j [] = ground arith
  get-delete k j ((i, w) ∷ d) =
      ground (arith, e.beq_iff k j, e.beq_iff i k, e.beq_iff i j, get-delete k j d)

  pub get-concat :
      (k j : K) (v : V) (d : List (K × V))
      → get k d ≡ none
      → get j (d ++ (k, v) ∷ []) ≡ (if k == j then some v else get j d)
  unfolding get
  get-concat k j v [] h = refl
  get-concat k j v ((i, w) ∷ d) h =
      ground (arith, e.beq_iff k j, e.beq_iff i k, e.beq_iff i j, get-concat k j v d)

  pub set_new : (k : K) (v : V) (d : List (K × V)) → get k d ≡ none → set k v d ≡ d ++ (k, v) ∷ []
  unfolding get set
  set_new k v [] h = refl
  set_new k v ((i, w) ∷ d) h = ground (arith, set_new k v d)

  pub length-set_new :
      (k : K) (v : V) (d : List (K × V)) → get k d ≡ none → length (set k v d) ≡ length d + 1
  unfolding get set
  length-set_new k v [] h = refl
  length-set_new k v ((i, w) ∷ d) h = ground (arith, length-set_new k v d)

  pub length-set_old :
      (k : K) (v w : V) (d : List (K × V)) → get k d ≡ some w → length (set k v d) ≡ length d
  unfolding get set
  length-set_old k v w [] h = ground arith
  length-set_old k v w ((i, x) ∷ d) h = ground (arith, length-set_old k v w d)

  pub delete_absent : (k : K) (d : List (K × V)) → get k d ≡ none → delete k d ≡ d
  unfolding get delete
  delete_absent k [] h = refl
  delete_absent k ((i, x) ∷ d) h = ground (arith, delete_absent k d)

  pub length-delete :
      (k : K) (v : V) (d : List (K × V))
      → IsDict d
      → get k d ≡ some v
      → length (delete k d) + 1 ≡ length d
  unfolding get delete
  length-delete k v [] u h = ground arith
  length-delete k v ((i, x) ∷ d) u h =
      ground (arith, e.beq_iff i k, length-delete k v d u.1, delete_absent k d)

  pub length-delete-le : (k : K) (d : List (K × V)) → length (delete k d) ≤ length d
  unfolding delete
  length-delete-le k [] = omega arith
  length-delete-le k ((i, x) ∷ d) = ground (arith, length-delete-le k d)

  pub set-IsDict : (k : K) (v : V) (d : List (K × V)) → IsDict d → IsDict (set k v d)
  unfolding get set
  set-IsDict k v [] u = (refl, tt)
  set-IsDict k v ((i, x) ∷ d) u =
      ground (arith, e.beq_iff i k, e.beq_iff k i, get-set k i v d, set-IsDict k v d u.1)

  pub delete-IsDict : (k : K) (d : List (K × V)) → IsDict d → IsDict (delete k d)
  unfolding get delete
  delete-IsDict k [] u = tt
  delete-IsDict k ((i, x) ∷ d) u = ground (arith, get-delete k i d, delete-IsDict k d u.1)

  pub concat-IsDict :
      (k : K) (v : V) (d : List (K × V)) → IsDict d → get k d ≡ none → IsDict (d ++ (k, v) ∷ [])
  unfolding get
  concat-IsDict k v [] u h = (refl, tt)
  concat-IsDict k v ((i, x) ∷ d) u h =
      ground (arith, e.beq_iff i k, e.beq_iff k i, get-concat k i v d, concat-IsDict k v d u.1)
