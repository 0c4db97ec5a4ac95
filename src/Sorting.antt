-- ===== src/Sorting.antt =====
-- Python's `sorted` and `list.sort`: a stable sort, by a test that says which of two comes first.
use feathr_events.Prelude.{
  List, [], ◌∷◌, Bool, true, false, ◌&&◌, ◌||◌, if◌then◌else◌, ◌≡◌, refl, All, arith, Bool-cases,
  inl, inr, length, zero, suc, take, ℕ, ◌≤◌, ◌<◌, ap, ◌∙◌,
}

-- `[x for x in xs if p(x)]`
abbrev pub filter {ℓ} : {A : Type ℓ} → (A → Bool) → List A → List A
filter p [] = []
filter p (x ∷ xs) = let further = filter p xs in if p x then x ∷ further else further

-- `any(p(x) for x in xs)`
abbrev pub any {ℓ} : {A : Type ℓ} → (A → Bool) → List A → Bool
any p [] = false
any p (x ∷ xs) = p x || any p xs

pub any-filter {ℓ} :
    {A : Type ℓ} (p q : A → Bool) (xs : List A) → any p (filter q xs) ≡ any (λ x. q x && p x) xs
any-filter p q [] = refl
any-filter p q (x ∷ xs) = ground (arith, any-filter p q xs)

module _ {ℓ} {A : Type ℓ} (le : A → A → Bool) where
  abbrev pub insert : A → List A → List A
  insert x [] = x ∷ []
  insert x (y ∷ ys) = let further = insert x ys in if le x y then x ∷ y ∷ ys else y ∷ further

  abbrev pub sort : List A → List A
  sort [] = []
  sort (x ∷ xs) = insert x (sort xs)

  -- Each element comes before all that follow it.
  abbrev pub IsSorted : List A → Type 0
  IsSorted [] = Unit
  IsSorted (x ∷ xs) = All (λ y. le x y ≡ true) xs × IsSorted xs

  All-below :
      (x y : A)
      → ((z : A) → le y z ≡ true → le x z ≡ true)
      → (ys : List A) → All (λ z. le y z ≡ true) ys
      → All (λ z. le x z ≡ true) ys
  All-below x y step [] h = tt
  All-below x y step (z ∷ ys) h = (step z h.0, All-below x y step ys h.1)

  All-insert : (P : A → Type 0) (x : A) (ys : List A) → P x → All P ys → All P (insert x ys)
  All-insert P x [] px h = (px, tt)
  All-insert P x (y ∷ ys) px h = elim (Bool-cases (le x y)) [
    | inl e ↦ rw e (px, h)
    | inr e ↦ rw e (h.0, All-insert P x ys px h.1)
  ]

  pub length-insert : (x : A) (ys : List A) → length (insert x ys) ≡ suc (length ys)
  length-insert x [] = refl
  length-insert x (y ∷ ys) = ground (arith, length-insert x ys)

  pub length-sort : (xs : List A) → length (sort xs) ≡ length xs
  length-sort [] = refl
  length-sort (x ∷ xs) = ground (arith, length-sort xs, length-insert x (sort xs))

  pub any-insert : (p : A → Bool) (x : A) (ys : List A) → any p (insert x ys) ≡ (p x || any p ys)
  any-insert p x [] = refl
  any-insert p x (y ∷ ys) = ground (arith, any-insert p x ys)

  pub any-sort : (p : A → Bool) (xs : List A) → any p (sort xs) ≡ any p xs
  any-sort p [] = refl
  any-sort p (x ∷ xs) = ground (arith, any-sort p xs, any-insert p x (sort xs))

  -- Stability: what compares equal keeps its order, and nothing is lost or made up.
  filter-insert :
      (p : A → Bool)
      → ((x y : A) → p x ≡ true → p y ≡ true → le x y ≡ true)
      → (x : A) (ys : List A) → filter p (insert x ys) ≡ filter p (x ∷ ys)
  filter-insert p alike x [] = refl
  filter-insert p alike x (y ∷ ys) = ground (arith, filter-insert p alike x ys, alike x y)

  pub filter-sort :
      (p : A → Bool)
      → ((x y : A) → p x ≡ true → p y ≡ true → le x y ≡ true)
      → (xs : List A) → filter p (sort xs) ≡ filter p xs
  filter-sort p alike [] = refl
  filter-sort p alike (x ∷ xs) =
      ground (arith, filter-insert p alike x (sort xs), filter-sort p alike xs)

  pub All-sort : (P : A → Type 0) (xs : List A) → All P xs → All P (sort xs)
  All-sort P [] h = tt
  All-sort P (x ∷ xs) h = All-insert P x (sort xs) h.0 (All-sort P xs h.1)

  module _ (total : (x y : A) → le x y ≡ false → le y x ≡ true)
      (trans : (x y z : A) → le x y ≡ true → le y z ≡ true → le x z ≡ true) where
    insert-IsSorted : (x : A) (ys : List A) → IsSorted ys → IsSorted (insert x ys)
    insert-IsSorted x [] h = (tt, tt)
    insert-IsSorted x (y ∷ ys) h = elim (Bool-cases (le x y)) [
      | inl e ↦ rw e ((e, All-below x y (λ z. trans x y z e) ys h.0), h)
      | inr e ↦
          rw e (All-insert (λ z. le y z ≡ true) x ys (total x y e) h.0, insert-IsSorted x ys h.1)
    ]

    pub sort-IsSorted : (xs : List A) → IsSorted (sort xs)
    sort-IsSorted [] = tt
    sort-IsSorted (x ∷ xs) = insert-IsSorted x (sort xs) (sort-IsSorted xs)

-- No two elements are the same by a test.
abbrev pub IsApart {ℓ} : {A : Type ℓ} → (A → A → Bool) → List A → Type 0
IsApart same [] = Unit
IsApart same (x ∷ xs) = (any (same x) xs ≡ false) × IsApart same xs

module _ {ℓ} {A : Type ℓ} (le same : A → A → Bool)
    (symmetric : (x y : A) → same x y ≡ same y x) where
  insert-IsApart :
      (x : A) (ys : List A)
      → any (same x) ys ≡ false
      → IsApart same ys
      → IsApart same (insert le x ys)
  insert-IsApart x [] n h = (refl, tt)
  insert-IsApart x (y ∷ ys) n h = elim (Bool-cases (le x y)) [
    | inl e ↦ rw e (n, h)
    | inr e ↦ rw e (
      ground (arith, any-insert le (same y) x ys, symmetric x y),
      insert-IsApart x ys (ground arith) h.1,
    )
  ]

  pub sort-IsApart : (xs : List A) → IsApart same xs → IsApart same (sort le xs)
  sort-IsApart [] h = tt
  sort-IsApart (x ∷ xs) h =
      insert-IsApart x (sort le xs) (any-sort le (same x) xs ∙ h.0) (sort-IsApart xs h.1)

-- What holds of a list holds of what `take` leaves.
module _ {ℓ} {A : Type ℓ} where
  pub All-take : (P : A → Type 0) (n : ℕ) (xs : List A) → All P xs → All P (take n xs)
  All-take P zero xs h = tt
  All-take P (suc n) [] h = tt
  All-take P (suc n) (x ∷ xs) h = (h.0, All-take P n xs h.1)

  any-take : (p : A → Bool) (n : ℕ) (xs : List A) → any p xs ≡ false → any p (take n xs) ≡ false
  any-take p zero xs h = refl
  any-take p (suc n) [] h = refl
  any-take p (suc n) (x ∷ xs) h = ground (arith, any-take p n xs)

  pub take-IsApart :
      (same : A → A → Bool) (n : ℕ) (xs : List A) → IsApart same xs → IsApart same (take n xs)
  take-IsApart same zero xs h = tt
  take-IsApart same (suc n) [] h = tt
  take-IsApart same (suc n) (x ∷ xs) h = (any-take (same x) n xs h.0, take-IsApart same n xs h.1)

  pub take-IsSorted :
      (le : A → A → Bool) (n : ℕ) (xs : List A) → IsSorted le xs → IsSorted le (take n xs)
  take-IsSorted le zero xs h = tt
  take-IsSorted le (suc n) [] h = tt
  take-IsSorted le (suc n) (x ∷ xs) h =
      (All-take (λ y. le x y ≡ true) n xs h.0, take-IsSorted le n xs h.1)

  pub length-take : (n : ℕ) (xs : List A) → length (take n xs) ≤ n
  length-take zero xs = omega arith
  length-take (suc n) [] = omega arith
  length-take (suc n) (x ∷ xs) = omega (arith, length-take n xs)

  -- What is shorter than it may be is the whole list.
  pub take-all : (n : ℕ) (xs : List A) → length (take n xs) < n → take n xs ≡ xs
  take-all zero xs h = ground arith
  take-all (suc n) [] h = refl
  take-all (suc n) (x ∷ xs) h = ap (◌∷◌ x) (take-all n xs (omega (arith, h)))
