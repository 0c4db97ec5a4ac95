-- ===== src/Reads/Tests.antt =====
-- The theorem on the pages of app/main.py at a concrete collection.
use feathr_events.Prelude.{ℕ, zero, suc, List, [], ◌∷◌, none, some, ◌≡◌, refl, take, drop, map}
use feathr_events.Models.{Text, end}
use feathr_events.Ingest.{naive}
use feathr_events.Queries.{Condition, Asked, Found, to_output}
use feathr_events.Reads.Pages.{Collection, read_on, pages_cover}

abbrev found : ℕ → Found
found i = record {
  id = i;
  event_type = 99 ∷ [];
  user_id = 117 ∷ [];
  source_url = [];
  timestamp = some (naive i);
  received_at = none;
  metadata = end;
}

abbrev documents : List Found
documents = found 3 ∷ found 2 ∷ found 1 ∷ []

-- Every filter matches, and a limit of 0 is none.
abbrev find : List Condition → ℕ → ℕ → List Found
find query offset zero = drop offset documents
find query offset (suc n) = take (suc n) (drop offset documents)

abbrev collection : Collection
collection = record {
  matches = λ query. documents;
  find = find;
  find-page = λ query offset n apart. refl;
}

abbrev anything : Asked
anything = record {
  event_type = none;
  user_id = none;
  source_url = none;
  since = none;
  until = none;
}

abbrev same : Text → Text
same s = s

pages_cover_example :
    read_on same (λ s. none) collection anything 2 4 0 ≡ some (map to_output documents)
pages_cover_example =
    pages_cover same (λ s. none) collection anything 2 ((refl, (refl, tt)), ((refl, tt), (tt, tt)))
