-- ===== src/Reads/Pages.antt =====
-- `GET /events` of app/main.py, read page after page.
use feathr_events.Prelude.{
  pos, Bool, ℕ, zero, suc, ◌+◌, ◌≤◌, ◌<◌, ◌≡◌, refl, List, ◌++◌, Option, none, some, length, map,
  take, drop, take_drop, drop-drop, take-all, length-map, length-append, map_append, true, ◌&&◌,
  ltb, leb, min, if◌then◌else◌, arith, ap, ◌∙◌, sym, subst, Bool-cases, inl, inr,
}
use feathr_events.Models.{Text}
use feathr_events.Queries.{Condition, Asked, filter_of, Found, Page, to_output, max_limit}
use feathr_events.Queries
use feathr_events.Ingest.{Datetime, instant}
use feathr_events.Sorting.{IsSorted}
use feathr_events.Reads.{Answer, answered, unprocessable, bounded, list_events}

abbrev when : Option Datetime → ℕ
when none = 0
when (some t) = instant t

-- The sort by descending time, without ties.
abbrev pub is_later : Found → Found → Bool
is_later d e = ltb (when e.timestamp) (when d.timestamp)

-- A collection: the documents that meet a filter, in descending order of their times, and the cursor that
-- sorts, skips and limits. Among documents of one time the driver promises no order that all calls
-- share, and a limit of 0 is none at all, so nothing is said of these cases.
pub record Collection : Type 0 where
  pub matches : List Condition → List Found
  pub find : List Condition → (offset limit : ℕ) → List Found
  pub find-page :
      (query : List Condition) (offset n : ℕ)
      → IsSorted is_later (matches query)
      → find query offset (suc n) ≡ take (suc n) (drop offset (matches query))

limit-bounded :
    (n : ℕ) → suc n ≤ 500 → bounded 50 1 (some 500) (some (pos (suc n))) ≡ answered (suc n)
unfolding bounded
limit-bounded n h = ground (arith, h)

offset-bounded : (n : ℕ) → bounded 0 0 none (some (pos n)) ≡ answered n
unfolding bounded
offset-bounded n = ground arith

min-limit : (n : ℕ) → suc n ≤ 500 → min (suc n) max_limit ≡ suc n
min-limit n h = omega (arith, h)

module _ (lower : Text → Text) (validate_url : Text → Option Text) (c : Collection)
    (asked : Asked) where
  open c use {matches, find, find-page}

  abbrev pub page_at : (limit offset : ℕ) → Answer Page
  page_at limit offset =
      list_events lower validate_url find asked (some (pos limit)) (some (pos offset))

  -- What follows a page: nothing if it is not full, else what the further pages give.
  abbrev pub followed : (limit : ℕ) → Answer Page → Option (List Found) → Option (List Found)
  followed limit unprocessable further = none
  followed limit (answered p) none = if ltb p.count limit then some p.items else none
  followed limit (answered p) (some rest) =
      if ltb p.count limit then some p.items else some (p.items ++ rest)

  -- A reader who asks for page after page until one is not full, and gives up after `pages` of them.
  abbrev pub read_on : (limit pages offset : ℕ) → Option (List Found)
  read_on limit zero offset = none
  read_on limit (suc n) offset =
      followed limit (page_at limit offset) (read_on limit n (offset + limit))

  abbrev pub all_matches : List Found
  all_matches = matches (filter_of lower validate_url asked)

  abbrev page_of : (limit offset : ℕ) → Page
  page_of limit offset =
      let docs = map to_output (take limit (drop offset all_matches)) in
      record { items = docs; count = length docs; limit = limit; offset = offset }

  page_at-answered :
      (n offset : ℕ)
      → IsSorted is_later all_matches
      → suc n ≤ 500
      → page_at (suc n) offset ≡ answered (page_of (suc n) offset)
  unfolding list_events Queries.list_events
  page_at-answered n offset apart h =
      rw
        (
          limit-bounded n h,
          offset-bounded offset,
          min-limit n h,
          find-page (filter_of lower validate_url asked) offset n apart,
        )
        refl

  -- A page that is not full is the last.
  last_page :
      (n offset : ℕ)
      → (page_of (suc n) offset).count < suc n
      → (page_of (suc n) offset).items ≡ map to_output (drop offset all_matches)
  last_page n offset h =
      let shorter : length (take (suc n) (drop offset all_matches)) < suc n =
        omega (arith, h, length-map to_output (take (suc n) (drop offset all_matches))) in
      ap (map to_output) (take-all (suc n) (drop offset all_matches) shorter)

  -- A page and what follows it.
  full_page :
      (n offset : ℕ)
      → (page_of (suc n) offset).items ++ map to_output (drop (offset + suc n) all_matches)
        ≡ map to_output (drop offset all_matches)
  full_page n offset = rw (sym (drop-drop offset (suc n) all_matches)) (
      sym (map_append to_output (take (suc n) (drop offset all_matches)) _)
      ∙ ap (map to_output) (take_drop (suc n) (drop offset all_matches)))

  -- A page that is full leaves less to read.
  full_page-left :
      (n offset : ℕ)
      → suc n ≤ (page_of (suc n) offset).count
      → length (drop (offset + suc n) all_matches) + suc n ≤ length (drop offset all_matches)
  full_page-left n offset h =
      let page = take (suc n) (drop offset all_matches) in
      let rest = drop (suc n) (drop offset all_matches) in
      let whole : length page + length rest ≡ length (drop offset all_matches) =
        sym (length-append page rest) ∙ ap length (take_drop (suc n) (drop offset all_matches)) in
      let same : length rest ≡ length (drop (offset + suc n) all_matches) =
        ap length (drop-drop offset (suc n) all_matches) in
      omega (arith, h, whole, same, length-map to_output page)

  followed-short :
      (limit : ℕ) (p : Page) (further : Option (List Found))
      → ltb p.count limit ≡ true
      → followed limit (answered p) further ≡ some p.items
  followed-short limit p none h = rw h refl
  followed-short limit p (some rest) h = rw h refl

  read_on-from :
      (n pages offset : ℕ)
      → IsSorted is_later all_matches
      → suc n ≤ 500
      → length (drop offset all_matches) < pages
      → read_on (suc n) pages offset ≡ some (map to_output (drop offset all_matches))
  read_on-from n zero offset apart h enough = ground (arith, enough)
  read_on-from n (suc pages) offset apart h enough =
      rw (page_at-answered n offset apart h)
        (elim (Bool-cases (ltb (page_of (suc n) offset).count (suc n))) [
          | inl short ↦
              followed-short (suc n) (page_of (suc n) offset) _ short
              ∙ ap some (last_page n offset (ground (arith, short)))
          | inr full ↦
              let left = full_page-left n offset (ground (arith, full)) in
              rw (read_on-from n pages (offset + suc n) apart h (omega (arith, left, enough)), full)
                (ap some (full_page n offset))
        ])

  -- Over a collection that does not change, where no two documents that meet the filter have the same time,
  -- for a page size from 1 to 500: a reader who asks GET /events for page after page, each where the last
  -- one ended, until a page is not full, reads every document that meets the filter exactly once, the
  -- latest first, as _to_output writes it, and needs at most one page more than there are documents;
  -- with any other page size the reader gets nothing.
  pub pages_cover :
      (limit : ℕ)
      → IsSorted is_later all_matches
      → read_on limit (suc (length all_matches)) 0
        ≡ (if leb 1 limit && leb limit 500 then some (map to_output all_matches) else none)
  unfolding list_events
  pages_cover zero apart = refl
  pages_cover (suc n) apart = elim (Bool-cases (leb 1 (suc n) && leb (suc n) 500)) [
    | inl inside ↦
        subst
          (λ b.
            read_on (suc n) (suc (length all_matches)) 0
            ≡ (if b then some (map to_output all_matches) else none))
          (sym inside)
          (read_on-from n (suc (length all_matches)) 0 apart (ground (arith, inside)) (omega arith))
    | inr outside ↦ rw outside refl
  ]
