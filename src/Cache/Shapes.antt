-- ===== src/Cache/Shapes.antt =====
-- What a client sees of an answer of `GET /events/stats/realtime`, from the cache and not.
use feathr_events.Prelude.{
  ◌∙◌, ap, [], ◌∷◌, Option, none, some, Bool, true, false, ◌≡◌, ◌≢◌, refl, arith,
}
use feathr_events.Models.{Text, Json, obj, str, Fields, end, field}
use feathr_events.Ingest.{Datetime}
use feathr_events.Faults.{redis, guard, is_faulted}
use feathr_events.Stores.{done}
use feathr_events.Cache.{
  Texts, Codec, Value, plain, datetime, other, Answer, encode, encoded, decoded, get, set, Response,
  cached, fresh, raised, stats_realtime,
}

-- An answer of JSON and datetimes, as `live_summary` makes them: since and until are datetimes, and no
-- other member holds any.
abbrev pub is_summary : Answer → Bool
is_summary [] = true
is_summary ((k, plain v) ∷ answer) = is_summary answer
is_summary ((k, datetime t) ∷ answer) = is_summary answer
is_summary ((k, other s) ∷ answer) = false

-- What the framework writes of an answer, by what it writes of a value.
abbrev pub rendered : (emitted : Value → Json) → Answer → Fields
rendered emitted [] = end
rendered emitted ((k, v) ∷ answer) = field k (emitted v) (rendered emitted answer)

unfaulted : (demo : Bool) → guard demo redis [] ≡ false
unfolding guard is_faulted
unfaulted true = refl
unfaulted false = refl

module _ (isoformat : Datetime → Text) (emitted : Value → Json)
    (emitted_plain : (v : Json) → emitted (plain v) ≡ v)
    (emitted_datetime : (t : Datetime) → emitted (datetime t) ≡ str (isoformat t)) where
  encoded-rendered :
      (answer : Answer)
      → is_summary answer ≡ true
      → encoded isoformat answer ≡ rendered emitted answer
  unfolding encoded encode
  encoded-rendered [] h = refl
  encoded-rendered ((k, plain v) ∷ answer) h = rw (emitted_plain v, encoded-rendered answer h) refl
  encoded-rendered ((k, datetime t) ∷ answer) h =
      rw (emitted_datetime t, encoded-rendered answer h) refl
  encoded-rendered ((k, other s) ∷ answer) h = ground (arith, h)

  module _ (db : Texts) (codec : Codec) (demo : Bool) where
    -- The body that a client gets, without `cached`.
    abbrev pub body_of : Response isoformat db codec demo → Option Fields
    body_of (cached d) = some d
    body_of (fresh answer) = some (rendered emitted answer)
    body_of raised = none

    decoded-nonempty :
        (t : Text) → t ≢ [] → decoded isoformat db codec demo (some t) ≡ codec.loads t
    decoded-nonempty [] h = absurd (h refl)
    decoded-nonempty (a ∷ s) h = refl

    get-put :
        (key : Text) (d : Fields) (s : db.State)
        → codec.dumps d ≢ []
        → codec.loads (codec.dumps d) ≡ some (obj d)
        → get isoformat db codec demo [] true key (db.put key (codec.dumps d) s) ≡ some (obj d)
    unfolding get
    get-put key d s some_text reads =
        rw (unfaulted demo, db.find-put key (codec.dumps d) s)
          (decoded-nonempty (codec.dumps d) some_text ∙ reads)

    set-puts :
        (key : Text) (summary : Answer) (s : db.State)
        → set isoformat db codec demo [] done key summary s
          ≡ db.put key (codec.dumps (encoded isoformat summary)) s
    unfolding set
    set-puts key summary s = rw (unfaulted demo) refl

    off :
        (answered : Bool) (key : Text) (s : db.State)
        → get isoformat db codec true (redis ∷ []) answered key s ≡ none
    unfolding get guard is_faulted
    off answered key s = refl

    unanswered : (key : Text) (s : db.State) → get isoformat db codec demo [] false key s ≡ none
    unfolding get
    unanswered key s = rw (unfaulted demo) refl

    -- Where the framework writes a datetime as isoformat does, and JSON as it is, and where json.dumps
    -- writes of an answer of JSON and datetimes, with the datetimes encoded, a text that is not empty and
    -- that json.loads reads back: if the cache has nothing for a key, the answer is the fresh one, and if it
    -- was written undisturbed, the next request with the key gets the same body from the cache, whatever
    -- the summary is by then; while Redis is switched off in demo mode or does not answer, every answer is
    -- the fresh one.
    pub stats_realtime_caches :
        (answered : Bool) (key : Text) (summary later : Answer) (s : db.State)
        → is_summary summary ≡ true
        → codec.dumps (encoded isoformat summary) ≢ []
        → codec.loads (codec.dumps (encoded isoformat summary))
          ≡ some (obj (encoded isoformat summary))
        → get isoformat db codec demo [] answered key s ≡ none
        → let first = stats_realtime isoformat db codec demo [] [] answered done key summary s in
          let second = stats_realtime isoformat db codec demo [] [] true done key later first.0 in
          (first.1 ≡ fresh summary)
          × (second.1 ≡ cached (encoded isoformat summary))
          × (body_of second.1 ≡ body_of first.1)
          × ((stats_realtime isoformat db codec true (redis ∷ []) [] answered done key summary s).1
              ≡ fresh summary)
          × ((stats_realtime isoformat db codec demo [] [] false done key summary s).1
              ≡ fresh summary)
    unfolding stats_realtime
    stats_realtime_caches answered key summary later s holds some_text reads miss =
        let d = encoded isoformat summary in
        let stored = db.put key (codec.dumps d) s in
        rw
          (
            miss,
            set-puts key summary s,
            get-put key d s some_text reads,
            off answered key s,
            unanswered key s,
          )
          (refl, refl, ap some (encoded-rendered summary holds), refl, refl)
