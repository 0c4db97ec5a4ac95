-- ===== src/Live/Totals.antt =====
-- What the summary counts: every event of its window, once.
use feathr_events.Prelude.{
  ltb→lt, ℕ, zero, suc, ◌+◌, ◌-◌, ◌*◌, ◌/◌, ◌%◌, ◌<◌, ◌≡◌, refl, List, [], ◌∷◌, Option, none, some,
  ◌&&◌, leb, ltb, if◌then◌else◌, length, arith, Option-cases, Bool-cases, inl, inr, All, ◌↔◌, ◌∙◌,
  map,
}
use native.Mathlib.Nat.{div-lt_iff_lt-mul}
use feathr_events.Models.{Text}
use feathr_events.Texts.{text_eq}
use feathr_events.Dict
use feathr_events.Sorting.{insert, sort}
use feathr_events.Live.{
  Row, Series, sum, zeros, bump, Groups, found_or, by_type, slots, add_row, group, series_of,
  live_summary,
}

-- The events of the rows whose bin lies in the bins from `since` on.
abbrev pub counted : (since seconds : ℕ) → List Row → ℕ
counted since seconds [] = 0
counted since seconds (row ∷ rows) =
    (if leb since row.bin && ltb row.bin (since + seconds) then row.count else 0)
    + counted since seconds rows

sum-zeros : (n : ℕ) → sum (zeros n) ≡ 0
sum-zeros zero = refl
sum-zeros (suc n) = omega (arith, sum-zeros n)

length-zeros : (n : ℕ) → length (zeros n) ≡ n
length-zeros zero = refl
length-zeros (suc n) = omega (arith, length-zeros n)

sum-bump : (i n : ℕ) (xs : List ℕ) → i < length xs → sum (bump i n xs) ≡ sum xs + n
sum-bump zero n [] h = omega arith
sum-bump (suc i) n [] h = omega arith
sum-bump zero n (x ∷ xs) h = omega arith
sum-bump (suc i) n (x ∷ xs) h = omega (arith, sum-bump i n xs (omega arith))

length-bump : (i n : ℕ) (xs : List ℕ) → length (bump i n xs) ≡ length xs
length-bump zero n [] = refl
length-bump (suc i) n [] = refl
length-bump zero n (x ∷ xs) = refl
length-bump (suc i) n (x ∷ xs) = omega (arith, length-bump i n xs)

abbrev all_counts : Groups → ℕ
all_counts [] = 0
all_counts ((t, counts) ∷ d) = sum counts + all_counts d

abbrev counts_at : Option (List ℕ) → ℕ
counts_at none = 0
counts_at (some counts) = sum counts

all_counts-set :
    (t : Text) (xs : List ℕ) (d : Groups)
    → all_counts (Dict.set t xs d) + counts_at (Dict.get t d) ≡ all_counts d + sum xs
unfolding Dict.set Dict.get
all_counts-set t xs [] = omega arith
all_counts-set t xs ((j, ys) ∷ d) = ground (arith, all_counts-set t xs d)

abbrev AreDense : ℕ → Groups → Type 0
AreDense n d = All (λ p. length p.1 ≡ n) d

AreDense-get :
    (n : ℕ) (t : Text) (d : Groups) (xs : List ℕ)
    → AreDense n d
    → Dict.get t d ≡ some xs
    → length xs ≡ n
unfolding Dict.get
AreDense-get n t [] xs a h = ground arith
AreDense-get n t ((j, ys) ∷ d) xs a h = ground (arith, AreDense-get n t d xs a.1)

set-AreDense :
    (n : ℕ) (t : Text) (xs : List ℕ) (d : Groups)
    → length xs ≡ n
    → AreDense n d
    → AreDense n (Dict.set t xs d)
unfolding Dict.set
set-AreDense n t xs [] h a = (h, tt)
set-AreDense n t xs ((j, ys) ∷ d) h a = ground (arith, set-AreDense n t xs d h a.1)

sum-insert :
    (s : Series) (ss : List Series)
    → sum (map (λ r. r.total) (insert by_type s ss)) ≡ s.total + sum (map (λ r. r.total) ss)
sum-insert s [] = refl
sum-insert s (r ∷ rs) = ground (arith, sum-insert s rs)

sum-sort :
    (ss : List Series) → sum (map (λ r. r.total) (sort by_type ss)) ≡ sum (map (λ r. r.total) ss)
sum-sort [] = refl
sum-sort (s ∷ ss) = omega (arith, sum-insert s (sort by_type ss), sum-sort ss)

module _ (window_seconds bin_seconds : ℕ) (pos : 0 < bin_seconds) (since : ℕ) where
  abbrev bins : ℕ
  bins = slots window_seconds bin_seconds

  -- The series that a row goes to: the one that is there, or a new one.
  abbrev series_for : Row → Groups → List ℕ
  series_for row d = found_or (zeros bins) (Dict.get row.event_type d)

  series_for-dense : (row : Row) (d : Groups) → AreDense bins d → length (series_for row d) ≡ bins
  series_for-dense row d a = elim (Option-cases (Dict.get row.event_type d)) [
    | inl new ↦ rw new (length-zeros bins)
    | inr (xs, old) ↦ rw old (AreDense-get bins row.event_type d xs a old)
  ]

  found_or-sum : (o : Option (List ℕ)) → sum (found_or (zeros bins) o) ≡ counts_at o
  found_or-sum none = sum-zeros bins
  found_or-sum (some xs) = refl

  add_row-AreDense :
      (row : Row) (d : Groups)
      → AreDense bins d
      → AreDense bins (add_row window_seconds bin_seconds since row d)
  unfolding add_row
  add_row-AreDense row d a = elim (Bool-cases (ltb row.bin since)) [
    | inl before ↦ rw before a
    | inr after ↦ elim (Bool-cases (ltb ((row.bin - since) / bin_seconds) bins)) [
      | inl inside ↦
          rw (after, inside)
            (set-AreDense bins row.event_type _ d
              (length-bump ((row.bin - since) / bin_seconds) row.count (series_for row d)
                ∙ series_for-dense row d a)
              a)
      | inr outside ↦ rw (after, outside) a
    ]
  ]

  -- A bin has an index among the bins if and only if it starts in the window.
  inside_iff : (bin : ℕ) → ((bin - since) / bin_seconds < bins) ↔ (bin - since < bins * bin_seconds)
  inside_iff bin = div-lt_iff_lt-mul pos

  add_row-counts :
      (row : Row) (d : Groups)
      → AreDense bins d
      → all_counts (add_row window_seconds bin_seconds since row d)
        ≡ all_counts d
          + (if leb since row.bin && ltb row.bin (since + bins * bin_seconds) then row.count else 0)
  unfolding add_row
  add_row-counts row d a = elim (Bool-cases (ltb row.bin since)) [
    | inl before ↦ rw before (ground (arith, before))
    | inr after ↦ elim (Bool-cases (ltb ((row.bin - since) / bin_seconds) bins)) [
      | inl inside ↦
          let within : row.bin - since < bins * bin_seconds =
            (inside_iff row.bin).0 (ltb→lt _ _ inside) in
          let size = series_for-dense row d a in
          let more =
            sum-bump ((row.bin - since) / bin_seconds) row.count (series_for row d)
              (rw size (ltb→lt _ _ inside)) in
          let total =
            all_counts-set row.event_type
              (bump ((row.bin - since) / bin_seconds) row.count (series_for row d)) d in
          rw (after, inside)
            (ground (arith, within, more, total, found_or-sum (Dict.get row.event_type d)))
      | inr outside ↦ rw (after, outside) (ground (arith, (inside_iff row.bin).1))
    ]
  ]

  group-counts :
      (rows : List Row) (d : Groups)
      → AreDense bins d
      → all_counts (group window_seconds bin_seconds since rows d)
        ≡ all_counts d + counted since (bins * bin_seconds) rows
  unfolding group
  group-counts [] d a = omega arith
  group-counts (row ∷ rows) d a =
      omega (arith, group-counts rows _ (add_row-AreDense row d a), add_row-counts row d a)

  group-AreDense :
      (rows : List Row) (d : Groups)
      → AreDense bins d
      → AreDense bins (group window_seconds bin_seconds since rows d)
  unfolding group
  group-AreDense [] d a = a
  group-AreDense (row ∷ rows) d a = group-AreDense rows _ (add_row-AreDense row d a)

sum-series :
    (window_seconds bin_seconds : ℕ) (d : Groups)
    → sum (map (λ s. s.total) (map (series_of window_seconds bin_seconds) d)) ≡ all_counts d
sum-series window_seconds bin_seconds [] = refl
sum-series window_seconds bin_seconds ((t, xs) ∷ d) =
    omega (arith, sum-series window_seconds bin_seconds d)

-- A series has one count for each bin, and its total is their sum.
abbrev pub IsComplete : ℕ → Series → Type 0
IsComplete n s = (length s.counts ≡ n) × (s.total ≡ sum s.counts)

insert-IsComplete :
    (n : ℕ) (s : Series) (ss : List Series)
    → IsComplete n s
    → All (IsComplete n) ss
    → All (IsComplete n) (insert by_type s ss)
insert-IsComplete n s [] h a = (h, tt)
insert-IsComplete n s (r ∷ rs) h a = ground (arith, insert-IsComplete n s rs h a.1)

sort-IsComplete :
    (n w b : ℕ) (d : Groups)
    → AreDense n d
    → All (IsComplete n) (sort by_type (map (series_of w b) d))
sort-IsComplete n w b [] a = tt
sort-IsComplete n w b ((t, xs) ∷ d) a =
    insert-IsComplete n _ _ (a.0, refl) (sort-IsComplete n w b d a.1)

-- With bins of at least a second: the total is the number of events in the rows that start within
-- the whole bins of the window, no more and no less; and each series has one count for each bin, and
-- its total is the sum of its counts.
pub live_summary-exact :
    (window_seconds bin_seconds now : ℕ) (rows : List Row)
    → 0 < bin_seconds
    → ((live_summary window_seconds bin_seconds now rows).total
        ≡ counted
            (live_summary window_seconds bin_seconds now rows).since
            (window_seconds / bin_seconds * bin_seconds)
            rows)
      × All
          (IsComplete (window_seconds / bin_seconds))
          (live_summary window_seconds bin_seconds now rows).series
unfolding live_summary
live_summary-exact window_seconds bin_seconds now rows pos =
    let since = now - now % 60 % bin_seconds - window_seconds in
    let d = group window_seconds bin_seconds since rows [] in
    (
      sum-sort (map (series_of window_seconds bin_seconds) d)
          ∙ sum-series window_seconds bin_seconds d
          ∙ group-counts window_seconds bin_seconds pos since rows [] tt
          ∙ omega arith,
      sort-IsComplete _ window_seconds bin_seconds d
          (group-AreDense window_seconds bin_seconds pos since rows [] tt),
    )
