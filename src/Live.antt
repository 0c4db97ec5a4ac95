-- ===== src/Live.antt =====
-- app/queries.py, `EventQueries.live_summary`: the counts of recent events, one dense series of bins
-- for each type. The aggregation in the database is its argument `rows`. Instants are whole seconds
-- since the epoch.
pub mod Totals
use feathr_events.Prelude.{
  ℕ, zero, suc, ◌+◌, ◌-◌, ◌/◌, ◌%◌, List, [], ◌∷◌, Option, none, some, Bool, true, false, ltb,
  if◌then◌else◌, map,
}
use feathr_events.Models.{Text}
use feathr_events.Texts.{text_eq, text_leb}
use feathr_events.Sorting.{sort}
use feathr_events.Dict

-- A row of the aggregation: how many events of a type are in the bin that starts at an instant.
pub record Row : Type 0 where
  pub bin : ℕ
  pub event_type : Text
  pub count : ℕ

pub record Series : Type 0 where
  pub event_type : Text
  pub total : ℕ
  pub counts : List ℕ

pub record Summary : Type 0 where
  pub since : ℕ
  pub until : ℕ
  pub total : ℕ
  pub series : List Series

abbrev pub sum : List ℕ → ℕ
sum [] = 0
sum (n ∷ ns) = n + sum ns

-- `[0] * n`
abbrev pub zeros : ℕ → List ℕ
zeros zero = []
zeros (suc n) = 0 ∷ zeros n

-- `counts[i] += n`, of an index within the list
abbrev pub bump : ℕ → ℕ → List ℕ → List ℕ
bump zero n [] = []
bump (suc i) n [] = []
bump zero n (x ∷ xs) = (x + n) ∷ xs
bump (suc i) n (x ∷ xs) = x ∷ bump i n xs

-- `per_type`
abbrev pub Groups : Type 0
Groups = List (Text × List ℕ)

-- `setdefault`
abbrev pub found_or : List ℕ → Option (List ℕ) → List ℕ
found_or d none = d
found_or d (some counts) = counts

-- `sorted(per_type.items())`: a type is a key once, so the order is that of the types.
abbrev pub by_type : Series → Series → Bool
by_type s r = text_leb s.event_type r.event_type

module _ (window_seconds bin_seconds : ℕ) where
  abbrev pub slots : ℕ
  slots = window_seconds / bin_seconds

  -- One round of the loop over the rows.
  unfoldable pub add_row : (since : ℕ) → Row → Groups → Groups
  add_row since row d =
      let index = (row.bin - since) / bin_seconds in
      if ltb row.bin since
      then d
      else if ltb index slots
      then Dict.set row.event_type
          (bump index row.count (found_or (zeros slots) (Dict.get row.event_type d))) d
      else d

  unfoldable pub group : (since : ℕ) → List Row → Groups → Groups
  unfolding add_row
  group since [] d = d
  group since (row ∷ rows) d = group since rows (add_row since row d)

  abbrev pub series_of : Text × List ℕ → Series
  series_of (t, counts) = record { event_type = t; total = sum counts; counts = counts }

  -- `now` is the clock, cut to the second.
  unfoldable pub live_summary : (now : ℕ) → List Row → Summary
  unfolding group
  live_summary now rows =
      let until = now - now % 60 % bin_seconds in
      let since = until - window_seconds in
      let series = sort by_type (map series_of (group since rows [])) in
      record {
        since = since;
        until = until;
        total = sum (map (λ s. s.total) series);
        series = series;
      }
