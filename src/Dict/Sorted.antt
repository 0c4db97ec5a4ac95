-- ===== src/Dict/Sorted.antt =====
-- Dictionaries with texts as keys, sorted by them: there is one list of items for what they answer.
use feathr_events.Prelude.{
  List, [], ◌∷◌, Option, none, some, Bool, true, false, if◌then◌else◌, ◌==◌, ◌≡◌, refl, arith, All,
  Bool-cases, inl, inr, ap, sym, ◌∙◌, subst,
}
use mathlib.Core.Option.{some_inj}
use feathr_events.Models.{Text}
use feathr_events.Texts.{text_leb, text_eq}
use feathr_events.Texts.Order.{text_leb-antisym, text_leb_refl}
use feathr_events.Dict
use feathr_events.Dict.{IsDict}
use feathr_events.Sorting.{insert, sort, IsSorted}

-- The items of dictionaries have different keys, so that these decide.
abbrev pub by_name {ℓ} : {W : Type ℓ} → Text × W → Text × W → Bool
by_name p q = text_leb p.0 q.0

flipped : (j k : Text) → j == k ≡ false → k == j ≡ false
flipped j k differ = elim (Bool-cases (k == j)) [
  | inr e ↦ e
  | inl e ↦
      absurd
        (ground (arith, sym differ ∙ (text_eq.beq_iff j k).1 (sym ((text_eq.beq_iff k j).0 e))))
]

module _ {W : Type 0} where
  apart :
      (j k : Text) (w : W) (o : Option W)
      → (if j == k then some w else o) ≡ none
      → (j == k ≡ false) × (o ≡ none)
  apart j k w o h = elim (Bool-cases (j == k)) [
    | inl same ↦ absurd (ground (arith, h, same))
    | inr differ ↦ (differ, ground (arith, h, differ))
  ]

  past :
      (p : Text × W) (k : Text) (d : List (Text × W))
      → p.0 == k ≡ false
      → Dict.get k (p ∷ d) ≡ Dict.get k d
  unfolding Dict.get
  past p k d differ = rw differ refl

  get-insert :
      (k : Text) (p : Text × W) (d : List (Text × W))
      → Dict.get p.0 d ≡ none
      → Dict.get k (insert by_name p d) ≡ Dict.get k (p ∷ d)
  unfolding Dict.get
  get-insert k p [] h = refl
  get-insert k p (q ∷ d) h =
      let (differ, n) = apart q.0 p.0 q.1 (Dict.get p.0 d) h in
      elim (Bool-cases (by_name p q)) [
        | inl e ↦ rw e refl
        | inr e ↦ elim (Bool-cases (q.0 == k)) [
          | inr other ↦ rw (e, other) (get-insert k p d n)
          | inl here ↦
              let other : p.0 == k ≡ false =
                subst (λ x. p.0 == x ≡ false) ((text_eq.beq_iff q.0 k).0 here)
                  (flipped q.0 p.0 differ) in
              rw (e, here, other) refl
        ]
      ]

  insert-IsDict :
      (p : Text × W) (d : List (Text × W))
      → Dict.get p.0 d ≡ none
      → IsDict d
      → IsDict (insert by_name p d)
  unfolding Dict.get
  insert-IsDict p [] n h = (refl, tt)
  insert-IsDict p (q ∷ d) n h =
      let (differ, new) = apart q.0 p.0 q.1 (Dict.get p.0 d) n in
      elim (Bool-cases (by_name p q)) [
        | inl e ↦ rw e (n, h)
        | inr e ↦ rw e (
          get-insert q.0 p d new ∙ past p q.0 d (flipped q.0 p.0 differ) ∙ h.0,
          insert-IsDict p d new h.1,
        )
      ]

  pub sort-IsDict :
      (d : List (Text × W))
      → IsDict d
      → IsDict (sort by_name d) × ((k : Text) → Dict.get k (sort by_name d) ≡ Dict.get k d)
  unfolding Dict.get
  sort-IsDict [] h = (tt, λ k. refl)
  sort-IsDict (p ∷ d) h =
      let (dict, same) = sort-IsDict d h.1 in
      let new = same p.0 ∙ h.0 in
      (
        insert-IsDict p (sort by_name d) new dict,
        λ k.
            get-insert k p (sort by_name d) new
            ∙ ap (λ o. if p.0 == k then some p.1 else o) (same k),
      )

  -- What is found comes after what comes before all.
  found_after :
      (k j : Text) (v : W) (d : List (Text × W))
      → All (λ p. text_leb k p.0 ≡ true) d
      → Dict.get j d ≡ some v
      → text_leb k j ≡ true
  unfolding Dict.get
  found_after k j v [] h found = ground (arith, found)
  found_after k j v (p ∷ d) h found = elim (Bool-cases (p.0 == j)) [
    | inl here ↦ subst (λ x. text_leb k x ≡ true) ((text_eq.beq_iff p.0 j).0 here) h.0
    | inr there ↦ found_after k j v d h.1 (sym (past p j d there) ∙ found)
  ]

  head_found : (p : Text × W) (d : List (Text × W)) → Dict.get p.0 (p ∷ d) ≡ some p.1
  unfolding Dict.get
  head_found p d = rw ((text_eq.beq_iff p.0 p.0).1 refl) refl

  -- A key of one of two sorted lists is not before the first of the other that has it.
  first_below :
      (q : Text × W) (e : List (Text × W)) (k : Text) (v : W)
      → IsSorted by_name (q ∷ e)
      → Dict.get k (q ∷ e) ≡ some v
      → text_leb q.0 k ≡ true
  first_below q e k v t found = found_after q.0 k v (q ∷ e) (text_leb_refl q.0, t.0) found

  tails_alike :
      (p q : Text × W) (d e : List (Text × W))
      → p.0 ≡ q.0
      → Dict.get p.0 d ≡ none
      → Dict.get q.0 e ≡ none
      → ((k : Text) → Dict.get k (p ∷ d) ≡ Dict.get k (q ∷ e))
      → (k : Text) → Dict.get k d ≡ Dict.get k e
  tails_alike p q d e one a b same k = elim (Bool-cases (p.0 == k)) [
    | inr there ↦
        sym (past p k d there) ∙ same k ∙ past q k e (subst (λ x. x == k ≡ false) one there)
    | inl here ↦
        let it : p.0 ≡ k = (text_eq.beq_iff p.0 k).0 here in
        subst (λ x. Dict.get x d ≡ none) it a
        ∙ sym (subst (λ x. Dict.get x e ≡ none) (sym one ∙ it) b)
  ]

  -- Sorted dictionaries that answer alike are the same.
  pub sorted_alike :
      (d e : List (Text × W))
      → IsDict d
      → IsDict e
      → IsSorted by_name d
      → IsSorted by_name e
      → ((k : Text) → Dict.get k d ≡ Dict.get k e)
      → d ≡ e
  unfolding Dict.get
  sorted_alike [] [] a b s t same = refl
  sorted_alike [] (q ∷ e) a b s t same = absurd (ground (arith, same q.0 ∙ head_found q e))
  sorted_alike (p ∷ d) [] a b s t same = absurd (ground (arith, sym (same p.0) ∙ head_found p d))
  sorted_alike (p ∷ d) (q ∷ e) a b s t same =
      let k : p.0 ≡ q.0 =
        text_leb-antisym p.0 q.0 (first_below p d q.0 q.1 s (same q.0 ∙ head_found q e))
          (first_below q e p.0 p.1 t (sym (same p.0) ∙ head_found p d)) in
      let v : p.1 ≡ q.1 = some_inj.0 (
        sym (head_found p d)
        ∙ same p.0
        ∙ subst (λ x. Dict.get x (q ∷ e) ≡ some q.1) (sym k) (head_found q e)) in
      ap (λ x. (x, p.1) ∷ d) k
      ∙ ap (λ x. (q.0, x) ∷ d) v
      ∙ ap (λ x. q ∷ x) (sorted_alike d e a.1 b.1 s.1 t.1 (tails_alike p q d e k a.0 b.0 same))
