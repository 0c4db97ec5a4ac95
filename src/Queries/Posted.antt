-- ===== src/Queries/Posted.antt =====
-- From the body of `POST /events` to the filter of the reads.
use feathr_events.Prelude.{
  ℕ, ◌+◌, ◌-◌, ◌≤◌, ◌≡◌, ◌⊎◌, refl, List, Option, none, some, ◌&&◌, true, ◌++◌, [], ◌∷◌,
  length-append, All, Result, ok, err, arith, Bool-cases, Option-cases, inl, inr, leb, length, ap,
  nat_beq_iff, nat_eq,
}
use feathr_events.Models.{Text, Event}
use feathr_events.Texts.{strip}
use feathr_events.Dict
use feathr_events.Dict.Laws.{get-set}
use feathr_events.Queue.{Queue, Config, send}
use feathr_events.Ingest.{
  Valid, validate, from_input, ingest, Answer, accepted, answered, decide_on, ValueError,
}
use feathr_events.Ingest.Body.{
  Body, Response, handled, malformed, read_body, post, taken, has_length, is_expected,
}
use feathr_events.Queries.{
  filter_of, Condition, if_given, window, normalise_url, event_type_is, user_id_is, source_url_is,
}
use feathr_events.Queries.Own.{Meets, own_filter_matches}

module _ (lower : Text → Text) (validate_url : Text → Option Text) where
  -- What a reader asks for who has sent a body, over a window around a time.
  abbrev pub asked_for : Body → (t before after : ℕ) → List Condition
  asked_for b t before after = filter_of lower validate_url (record {
    event_type = some b.event_type;
    user_id = some b.user_id;
    source_url = some b.source_url;
    since = some (t - before);
    until = some (t + after);
  })

  -- What the queue holds of an accepted body.
  abbrev pub IsHeld : (uuid : ℕ → ℕ) → Body → (i before after : ℕ) → (q r : Queue) → Type 0
  IsHeld uuid b i before after q r =
      (e : Event) × (e.event_id ≡ i)
      × (Dict.get (uuid q.drawn) r.entries
          ≡ some (record { event = e; receive_count = 0; handle = none; deadline = 0 }))
      × (3 ≤ length (asked_for b e.timestamp before after))
      × All (Meets e) (asked_for b e.timestamp before after)

  if_given-length :
      (n : ℕ) (f : Text → Condition) (s : Text)
      → has_length n s ≡ true
      → length (if_given f (some s)) ≡ 1
  if_given-length n f [] h = ground (arith, h)
  if_given-length n f (a ∷ s) h = refl

  -- What the bounds let pass is asked for.
  asked_for-length :
      (b : Body) (t before after : ℕ)
      → (has_length 64 b.event_type && has_length 128 b.user_id && is_expected b.unexpected) ≡ true
      → 3 ≤ length (asked_for b t before after)
  unfolding filter_of
  asked_for-length b t before after fits =
      let types = if_given (λ t. event_type_is (lower (strip t))) (some b.event_type) in
      let users = if_given user_id_is (some b.user_id) in
      let urls =
        if_given (λ u. source_url_is (normalise_url lower validate_url u)) (some b.source_url) in
      let times = window (some (t - before)) (some (t + after)) in
      omega (
        arith,
        length-append types (users ++ (urls ++ times)),
        length-append users (urls ++ times),
        length-append urls times,
        if_given-length 64 (λ t. event_type_is (lower (strip t))) b.event_type
            (ground (arith, fits)),
        if_given-length 128 user_id_is b.user_id (ground (arith, fits)),
      )

  abbrev answer_of : Answer lower → Response lower validate_url → Answer lower
  answer_of a malformed = a
  answer_of a (handled answer) = answer

  module _ (uuid : ℕ → ℕ) (c : Config) (checked stamped id : ℕ) (b : Body) (q : Queue)
      (i before after : ℕ) where
    read_body-cases :
        (read_body lower validate_url b ≡ none)
        ⊎ ((url : Text) × (read_body lower validate_url b ≡ some (taken b url))
            × (validate_url b.source_url ≡ some url)
            × ((has_length 64 b.event_type && has_length 128 b.user_id && is_expected b.unexpected)
                ≡ true))
    unfolding read_body
    read_body-cases = elim (Option-cases (validate_url b.source_url)) [
      | inl bad ↦ rw bad (inl refl)
      | inr (url, parsed) ↦
          elim (Bool-cases
            (has_length 64 b.event_type && has_length 128 b.user_id && is_expected b.unexpected)) [
              | inl fits ↦ inr (url, rw (parsed, fits) refl, parsed, fits)
              | inr unfit ↦ inl (rw (parsed, unfit) refl)
            ]
    ]

    -- The event is in the queue, or the answer is another.
    answered-IsHeld :
        (e : Event)
        → e.event_id ≡ id
        → 3 ≤ length (asked_for b e.timestamp before after)
        → All (Meets e) (asked_for b e.timestamp before after)
        → let r = answered lower id q (send uuid c e q) in
          r.1 ≡ accepted i → IsHeld uuid b i before after q r.0
    unfolding send
    answered-IsHeld e same full_filter meets =
        elim (Bool-cases (leb c.maxsize (length q.entries))) [
          | inl full ↦ rw full (λ h. ground (arith, h))
          | inr room ↦ rw room (λ h. (
            e,
            ground (arith, same, h),
            ground (
              arith,
              get-set (uuid q.drawn) (uuid q.drawn)
                  (record { event = e; receive_count = 0; handle = none; deadline = 0 }) q.entries,
              nat_beq_iff (uuid q.drawn) (uuid q.drawn),
            ),
            full_filter,
            meets,
          ))
        ]

    from_input-id :
        (url : Text) (v : Valid lower) → (from_input lower stamped id (taken b url) v).event_id ≡ id
    unfolding from_input
    from_input-id url v = refl

    decide_on-IsHeld :
        (url : Text) (v : Result ValueError (Valid lower))
        → validate_url b.source_url ≡ some url
        → (has_length 64 b.event_type && has_length 128 b.user_id && is_expected b.unexpected)
          ≡ true
        → validate lower checked (taken b url) ≡ v
        → let r = decide_on lower uuid c stamped id (taken b url) q v in
          r.1 ≡ accepted i → IsHeld uuid b i before after q r.0
    decide_on-IsHeld url (err x) parsed fits valid h = ground (arith, h)
    decide_on-IsHeld url (ok v) parsed fits valid h =
        let e = from_input lower stamped id (taken b url) v in
        answered-IsHeld e (from_input-id url v) (asked_for-length b e.timestamp before after fits)
          (own_filter_matches lower validate_url checked stamped id (taken b url) v b.source_url
            (some (e.timestamp - before)) (some (e.timestamp + after)) valid parsed (omega arith)
            (omega arith))
          h

  -- Whatever body is posted: if the answer is 202, the queue holds the event with the id that was
  -- answered, and it meets the filter of a reader who asks for the type, the user and the URL as the body
  -- had them, over any window around its time, a filter with at least the
  -- conditions on the type, the user and the window: the reads normalise what the writes normalised.
  pub posted_is_found :
      (uuid : ℕ → ℕ) (c : Config) (checked stamped id : ℕ) (b : Body) (q : Queue)
      (i before after : ℕ)
      → let r = post lower validate_url uuid c checked stamped id b q in
        r.1 ≡ handled (accepted i) → IsHeld uuid b i before after q r.0
  unfolding post ingest
  posted_is_found uuid c checked stamped id b q i before after =
      elim (read_body-cases uuid c checked stamped id b q i before after) [
        | inl bad ↦ rw bad (λ h. ground (arith, h))
        | inr (url, read, parsed, fits) ↦ rw read (λ h.
            decide_on-IsHeld uuid c checked stamped id b q i before after url _ parsed fits refl
              (ap (answer_of (accepted i)) h))
      ]
