-- ===== src/Queries/Tests.antt =====
-- The theorems on app/queries.py at concrete requests.
use feathr_events.Prelude.{
  ◌≤◌, arith, [], ◌∷◌, Option, none, some, false, ◌≡◌, refl, ◌⊎◌, ◌↔◌, if◌then◌else◌,
}
use feathr_events.Models.{Text, Event, end}
use feathr_events.Texts.{text_beq}
use feathr_events.Ingest.{
  EventIn, Valid, naive, from_input, validate, normalise_type, bound_the_future, bound_the_metadata,
  now, fields_size, ingest,
}
use feathr_events.Queries.{to_output, user_id_is, timestamp_in}
use feathr_events.Queries.Search.{item_of}
use feathr_events.Queries.Agreement.{hit_of, yielded, SaysSame, IsMillis, reads_agree_iff}
use feathr_events.Dict
use feathr_events.Stores.{done}
use feathr_events.Schema.Indexes.{
  user_time, user_id_up, timestamp_down, ensure_indexes, create_index, index_name_eq,
}
use feathr_events.Queries.Indexed.{listing_is_indexed}
use feathr_events.Queries.Posted.{IsHeld, posted_is_found}
use feathr_events.Ingest.Body.{Body, post, read_body}
use feathr_events.Queue.{Queue, send, default_config}
use feathr_events.Queries.Terms.{Aggregate, types, values, clean, include_of, search_terms}
use feathr_events.Queries.Pattern.{prefix_of, include_of-prefix}
use feathr_events.Queries.Offered.{IsOffer, search_terms-IsOffer}

abbrev same_text : Text → Text
same_text s = s

-- The parser of URLs adds a slash.
abbrev validate_url : Text → Option Text
validate_url s = if text_beq s (104 ∷ []) then some (104 ∷ 47 ∷ []) else none

abbrev posted : EventIn
posted = record {
  event_type = 32 ∷ 99 ∷ [];
  user_id = 117 ∷ [];
  source_url = 104 ∷ 47 ∷ [];
  timestamp = some (naive 1_000_000);
  metadata = end;
}

abbrev checked : Valid same_text
checked = record { event_type = 99 ∷ []; timestamp = some 1_000_000; metadata = end }

-- Two events of the user u, in the index that begins with the user.
abbrev earlier : Event
earlier = record {
  event_id = 1;
  event_type = 99 ∷ [];
  user_id = 117 ∷ [];
  source_url = [];
  timestamp = 3_000;
  received_at = 3_000;
  metadata = end;
}

abbrev later : Event
later = record earlier { event_id = 2; event_type = 97 ∷ []; timestamp = 5_000 }

listing_is_indexed_example :
    (Dict.get user_time (ensure_indexes done done done []).0
      ≡ some (user_id_up ∷ timestamp_down ∷ []))
    × (3_000 ≤ 5_000)
unfolding ensure_indexes create_index
listing_is_indexed_example =
    listing_is_indexed done done done []
      (user_id_is (117 ∷ []) ∷ timestamp_in (some 1_000) none ∷ []) later earlier refl
      (refl, ((omega arith, tt), tt)) (refl, ((omega arith, tt), tt)) refl

abbrev empty : Queue
empty = record { entries = []; visible = []; inflight = []; dlq = []; logged = []; drawn = 0 }

abbrev body : Body
body = record {
  event_type = 32 ∷ 99 ∷ [];
  user_id = 117 ∷ [];
  source_url = 104 ∷ [];
  timestamp = some (naive 1_000_000);
  metadata = end;
  unexpected = [];
}

posted_is_found_example :
    IsHeld same_text validate_url
      (λ n. n)
      body
      7
      5
      5
      empty
      (post same_text validate_url (λ n. n) default_config 2_000_500 2_000_900 7 body empty).0
unfolding post read_body ingest validate normalise_type bound_the_future bound_the_metadata now
    fields_size send
posted_is_found_example =
    posted_is_found same_text validate_url (λ n. n) default_config 2_000_500 2_000_900 7 body empty
      7 5 5 refl

-- Of a time with microseconds.
abbrev precise : Valid same_text
precise = record checked { timestamp = some 1_000_930 }

abbrev stored : Event
stored = from_input same_text 2_000_900 7 posted precise

reads_agree_iff_example :
    SaysSame (item_of (hit_of 3 stored)) (to_output (yielded stored)) ↔ IsMillis (some 1_000_930)
reads_agree_iff_example =
    reads_agree_iff same_text 2_000_900 7 posted precise stored (yielded stored) (hit_of 3 stored)
      refl refl refl refl

abbrev aggregate : Aggregate
aggregate types size include = ((99 ∷ 108 ∷ 105 ∷ 99 ∷ 107 ∷ []), 3) ∷ []
aggregate values size include =
    ((102 ∷ 105 ∷ 114 ∷ 101 ∷ 102 ∷ 111 ∷ 120 ∷ []), 9) ∷ ((99 ∷ 108 ∷ 105 ∷ 99 ∷ 107 ∷ []), 1) ∷ []

search_terms-IsOffer_example :
    IsOffer aggregate 2 none none (search_terms same_text aggregate 2 none)
    × ((s : Text)
        → ((clean s ≡ []) × (search_terms same_text aggregate 2 (some s) ≡ []))
          ⊎ IsOffer aggregate 2
              (some s)
              (some (include_of (clean s)))
              (search_terms same_text aggregate 2 (some s)))
search_terms-IsOffer_example = search_terms-IsOffer same_text aggregate 2

include_of-prefix_example :
    prefix_of false (include_of (clean (118 ∷ 49 ∷ 46 ∷ 40 ∷ 120 ∷ [])))
    ≡ some (clean (118 ∷ 49 ∷ 46 ∷ 40 ∷ 120 ∷ []))
include_of-prefix_example = include_of-prefix (118 ∷ 49 ∷ 46 ∷ 40 ∷ 120 ∷ [])
