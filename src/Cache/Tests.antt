-- ===== src/Cache/Tests.antt =====
-- The theorems on app/cache.py at concrete requests.
use feathr_events.Prelude.{
  List, [], ◌∷◌, ◌++◌, Option, none, some, ◌≡◌, ◌↔◌, refl, if◌then◌else◌, true, false, arith,
}
use feathr_events.Models.{Text, Json, null, num, str, obj, end, field}
use feathr_events.Dict
use feathr_events.Texts.{text_beq, text_beq_iff}
use feathr_events.Faults.{redis, guard, is_faulted}
use feathr_events.Stores.{done}
use feathr_events.Ingest.{Datetime, naive, aware}
use feathr_events.Cache.{
  Texts, Codec, Value, plain, datetime, other, Answer, encode, encoded, get, stats_realtime, fresh,
  cached,
}
use feathr_events.Cache.Shapes.{body_of, stats_realtime_caches}
use feathr_events.Cache.Key.{given, canonical, key, asked, key-asked}

-- `view`, `slot` and `type` as names, and a separator in front of each member.
abbrev live : List (Text × Option Text)
live =
    (118 ∷ 105 ∷ [], some (108 ∷ []))
    ∷ (116 ∷ 121 ∷ [], none)
    ∷ (115 ∷ 108 ∷ [], some (48 ∷ []))
    ∷ []

abbrev turned : List (Text × Option Text)
turned = (115 ∷ 108 ∷ [], some (48 ∷ [])) ∷ (118 ∷ 105 ∷ [], some (108 ∷ [])) ∷ []

abbrev dumps : List (Text × Text) → Text
dumps [] = []
dumps ((k, v) ∷ d) = k ++ 58 ∷ v ++ 44 ∷ dumps d

key-asked_example :
    ((k : Text) → asked k live ≡ asked k turned)
    ↔ (key dumps (λ s. s) live ≡ key dumps (λ s. s) turned)
unfolding canonical given Dict.get
key-asked_example =
    key-asked dumps (λ s. s) live turned (refl, (refl, (refl, tt))) (refl, (refl, tt)) (λ one. refl)

-- Redis as a function.
abbrev texts : Texts
texts = record {
  State = Text → Option Text;
  find = λ k s. s k;
  put = λ k v s j. if text_beq k j then some v else s j;
  find-put = λ k v s. ground (arith, text_beq_iff k k);
}

-- `isoformat` as a mark, and the offset.
abbrev isoformat : Datetime → Text
isoformat (naive t) = 84 ∷ []
isoformat (aware t) = 84 ∷ 43 ∷ []

abbrev emitted : Value → Json
emitted (plain v) = v
emitted (datetime t) = str (isoformat t)
emitted (other s) = null

-- A total of 3, since some time.
abbrev summary : Answer
summary = (116 ∷ [], plain (num (51 ∷ []))) ∷ (115 ∷ [], datetime (naive 7)) ∷ []

-- Only the text "1" is JSON, of this summary.
abbrev codec : Codec
codec = record {
  dumps = λ d. 49 ∷ [];
  loads = λ t.
      if text_beq t (49 ∷ [])
      then some (obj (field (116 ∷ []) (num (51 ∷ [])) (field (115 ∷ []) (str (84 ∷ [])) end)))
      else none;
}

abbrev empty : texts.State
empty k = none

stats_realtime_caches_example :
    let first =
      stats_realtime isoformat texts codec false [] [] true done (107 ∷ []) summary empty in
    let second = stats_realtime isoformat texts codec false [] [] true done (107 ∷ []) [] first.0 in
    (first.1 ≡ fresh summary)
    × (second.1 ≡ cached (encoded isoformat summary))
    × (body_of isoformat emitted (λ v. refl) (λ t. refl) texts codec false second.1
        ≡ body_of isoformat emitted (λ v. refl) (λ t. refl) texts codec false first.1)
    × ((stats_realtime isoformat texts codec true
          (redis ∷ [])
          []
          true
          done
          (107 ∷ [])
          summary
          empty).1
        ≡ fresh summary)
    × ((stats_realtime isoformat texts codec false [] [] false done (107 ∷ []) summary empty).1
        ≡ fresh summary)
unfolding encoded encode get guard is_faulted
stats_realtime_caches_example =
    stats_realtime_caches isoformat emitted (λ v. refl) (λ t. refl) texts codec false true
      (107 ∷ []) summary [] empty refl (λ h. ground (arith, h)) refl refl
