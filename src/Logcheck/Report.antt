-- ===== src/Logcheck/Report.antt =====
-- What `main` reports of the records that it collected.
use feathr_events.Prelude.{
  ℕ, ◌+◌, ◌≤◌, List, [], ◌∷◌, Bool, true, false, ◌≡◌, refl, All, map, ap, length, leb, ◌&&◌, ◌∙◌,
  arith, IsNodup, contains, if◌then◌else◌,
}
use feathr_events.Models.{Text}
use feathr_events.Texts.{text_beq, text_beq_iff, text_eq}
use feathr_events.Texts.Order.{text_leb-total, text_leb_trans, text_leb_refl, text_leb-antisym}
use feathr_events.Sorting.{filter, any, any-filter, any-sort, IsSorted, sort-IsSorted, filter-sort}
use feathr_events.Live.{sum}
use feathr_events.Logcheck.{
  Service, Level, Record, unknown, warn, error, rank, levels, debug, info, fatal, name_of,
}
use feathr_events.Logcheck.Collect.{
  at_least, before, of_level, of_service, hits_of, exit_code, counts_of, Counts, Args, report,
}

before-total : (r s : Record) → before r s ≡ false → before s r ≡ true
before-total r s h = ground (
  arith,
  text_beq_iff r.parsed.ts s.parsed.ts,
  text_beq_iff s.parsed.ts r.parsed.ts,
  text_leb-total r.parsed.ts s.parsed.ts,
  text_leb-total (name_of r.service) (name_of s.service),
)

before_trans : (r s t : Record) → before r s ≡ true → before s t ≡ true → before r t ≡ true
before_trans r s t h k = ground (
  arith,
  text_beq_iff r.parsed.ts s.parsed.ts,
  text_beq_iff s.parsed.ts t.parsed.ts,
  text_beq_iff r.parsed.ts t.parsed.ts,
  text_leb_trans r.parsed.ts s.parsed.ts t.parsed.ts,
  text_leb-antisym r.parsed.ts s.parsed.ts,
  text_leb-antisym s.parsed.ts r.parsed.ts,
  text_leb_trans (name_of r.service) (name_of s.service) (name_of t.service),
)

abbrev pub same_key : Record → Record → Bool
same_key k r = text_beq k.parsed.ts r.parsed.ts && text_beq (name_of k.service) (name_of r.service)

same_key-before : (k r s : Record) → same_key k r ≡ true → same_key k s ≡ true → before r s ≡ true
same_key-before k r s h e = ground (
  arith,
  text_beq_iff k.parsed.ts r.parsed.ts,
  text_beq_iff k.parsed.ts s.parsed.ts,
  text_beq_iff r.parsed.ts s.parsed.ts,
  text_beq_iff (name_of k.service) (name_of r.service),
  text_beq_iff (name_of k.service) (name_of s.service),
  text_leb_refl (name_of k.service),
)

-- What the report keeps is sorted by time and then service; among the records of one time and service
-- it has those at or above the level, each as often as it was collected and in the same order; and the
-- exit code is 1 if some record that was collected has at least the level `error` and at least the
-- level asked for, and else 0.
pub hits_of-IsSorted :
    (level : Level) (all : List Record)
    → IsSorted before (hits_of level all)
      × ((k : Record)
          → filter (same_key k) (hits_of level all)
            ≡ filter (same_key k) (filter (at_least level) all))
      × (exit_code (hits_of level all)
          ≡ (if any (λ r. at_least level r && at_least error r) all then 1 else 0))
unfolding exit_code hits_of
hits_of-IsSorted level all = (
  sort-IsSorted before before-total before_trans (filter (at_least level) all),
  λ k. filter-sort before (same_key k) (same_key-before k) (filter (at_least level) all),
  ap (λ b. if b then 1 else 0)
      (any-sort before (at_least error) (filter (at_least level) all)
        ∙ any-filter (at_least error) (at_least level) all),
)

any-never {ℓ} :
    {A : Type ℓ} (p : A → Bool) → ((x : A) → p x ≡ false) → (xs : List A) → any p xs ≡ false
any-never p never [] = refl
any-never p never (x ∷ xs) = ground (arith, never x, any-never p never xs)

-- From the level `warn` on, which is the default, no line that could not be parsed is in the report,
-- whatever it says.
pub unparsed_is_hidden :
    (level : Level) (all : List Record)
    → rank warn ≤ rank level
    → any (of_level unknown) (hits_of level all) ≡ false
unfolding hits_of
unparsed_is_hidden level all h =
    any-sort before (of_level unknown) (filter (at_least level) all)
    ∙ any-filter (of_level unknown) (at_least level) all
    ∙ any-never _ (λ r. ground arith) all

-- 1 if the levels are the same
abbrev one_of : Level → Level → ℕ
one_of l k = if leb (rank k) (rank l) && leb (rank l) (rank k) then 1 else 0

one_level : (l : Level) → sum (map (one_of l) levels) ≡ 1
one_level debug = refl
one_level info = refl
one_level unknown = refl
one_level warn = refl
one_level error = refl
one_level fatal = refl

length-filter :
    (k : Level) (r : Record) (rs : List Record)
    → length (filter (of_level k) (r ∷ rs))
      ≡ one_of r.parsed.level k + length (filter (of_level k) rs)
length-filter k r rs = ground arith

by_level-sum :
    (rs : List Record) → sum (map (λ k. length (filter (of_level k) rs)) levels) ≡ length rs
by_level-sum [] = refl
by_level-sum (r ∷ rs) = omega (
  arith,
  length-filter debug r rs,
  length-filter info r rs,
  length-filter unknown r rs,
  length-filter warn r rs,
  length-filter error r rs,
  length-filter fatal r rs,
  one_level r.parsed.level,
  by_level-sum rs,
)

abbrev pub names : List Service → List Text
names = map name_of

abbrev one_if : Bool → ℕ
one_if b = if b then 1 else 0

no_service :
    (r : Record) (wanted : List Service)
    → contains (name_of r.service) (names wanted) ≡ false
    → sum (map (λ s. one_if (of_service s r)) wanted) ≡ 0
no_service r [] h = refl
no_service r (s ∷ wanted) h = ground (arith, no_service r wanted)

one_service :
    (r : Record) (wanted : List Service)
    → IsNodup (names wanted)
    → contains (name_of r.service) (names wanted) ≡ true
    → sum (map (λ s. one_if (of_service s r)) wanted) ≡ 1
one_service r [] d h = ground arith
one_service r (s ∷ wanted) d h = ground (
  arith,
  no_service r wanted,
  one_service r wanted d.1,
  text_beq_iff (name_of r.service) (name_of s),
)

sum-length-filter :
    (r : Record) (rs : List Record) (wanted : List Service)
    → sum (map (λ s. length (filter (of_service s) (r ∷ rs))) wanted)
      ≡ sum (map (λ s. one_if (of_service s r)) wanted)
        + sum (map (λ s. length (filter (of_service s) rs)) wanted)
sum-length-filter r rs [] = refl
sum-length-filter r rs (s ∷ wanted) = ground (arith, sum-length-filter r rs wanted)

sum-no-records :
    (wanted : List Service) → sum (map (λ s. length (filter (of_service s) [])) wanted) ≡ 0
sum-no-records [] = refl
sum-no-records (s ∷ wanted) = omega (arith, sum-no-records wanted)

by_service-sum :
    (wanted : List Service) (rs : List Record)
    → IsNodup (names wanted)
    → All (λ r. contains (name_of r.service) (names wanted) ≡ true) rs
    → sum (map (λ s. length (filter (of_service s) rs)) wanted) ≡ length rs
by_service-sum wanted [] d h = sum-no-records wanted
by_service-sum wanted (r ∷ rs) d h = omega (
  arith,
  sum-length-filter r rs wanted,
  one_service r wanted d h.0,
  by_service-sum wanted rs d h.1,
)

abbrev pub totals : List Counts → ℕ
totals [] = 0
totals (row ∷ rows) = row.total + totals rows

table_rows :
    (all : List Record) (wanted : List Service)
    → All (λ row. sum row.by_level ≡ row.total) (map (counts_of all) wanted)
      × (totals (map (counts_of all) wanted)
          ≡ sum (map (λ s. length (filter (of_service s) all)) wanted))
unfolding counts_of
table_rows all [] = (tt, refl)
table_rows all (s ∷ wanted) =
    let (rows, same) = table_rows all wanted in
    ((by_level-sum (filter (of_service s) all), rows), omega (arith, same))

-- Where the table is printed, each service is asked for once and the records are of those services: in
-- each row the counts by level add up to the total, and the totals add up to the number of records.
report-counts :
    (args : Args) (wanted : List Service) (all : List Record)
    → args.json ≡ false
    → IsNodup (names wanted)
    → All (λ r. contains (name_of r.service) (names wanted) ≡ true) all
    → All (λ row. sum row.by_level ≡ row.total) (report args wanted all).table
      × (totals (report args wanted all).table ≡ length all)
unfolding report
report-counts args wanted all plain d h =
    let (rows, same) = table_rows all wanted in
    rw plain (rows, same ∙ by_service-sum wanted all d h)
