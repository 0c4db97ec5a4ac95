-- ===== src/Requests/Transparent.antt =====
-- The logging of requests changes nothing but the logs, and keeps secrets out of them.
use feathr_events.Prelude.{
  List, [], ◌∷◌, ◌++◌, Option, none, some, Bool, true, false, not, ◌&&◌, ◌≡◌, refl, All, inl, inr,
  ◌⊎◌, Bool-cases, is_none, ap, subst, arith,
}
use feathr_events.Models.{Text}
use feathr_events.Texts.{text_eq}
use feathr_events.Dict
use feathr_events.Sinks.{logger_for, sink_of}
use feathr_events.Requests.{
  App, Request, Logs, Sent, End, Kind, http, websocket, lifespan, Headers, is_secret, redacted,
  redact, middleware, logged, Line, request, response, error, other, log, task_of, concluded,
  concluded_raised, returned, raised, cancelled, unlogged, headers_of, resolve_task_id, is_ws,
  Opening, is_opened, is_invalid, Around, error_line, method_of, status_of, tried, entered,
  resolved, decoded, Query, started, queried, by_kind, or_further,
}

redact-hides : (d : Headers) → All (λ p. is_secret p.0 ≡ true → p.1 ≡ redacted) (redact d)
unfolding redact
redact-hides [] = tt
redact-hides ((k, v) ∷ d) = ((λ h. rw h refl), redact-hides d)

-- What an application leaves of its state, what it sends, and how it ends.
abbrev pub seen : {S : Type 0} → S × Logs × List Sent × End → S × List Sent × End
seen (s, l, sent, end) = (s, sent, end)

-- Where a line lists headers, the values of the secret ones are redacted. What else it says of a request or
-- of an exception is as it is.
abbrev pub IsClean : Text × Line → Type 0
IsClean (tid, request ws method path headers query) =
    All (λ p. is_secret p.0 ≡ true → p.1 ≡ redacted) headers
IsClean (tid, response ws method path duration status) = Unit
IsClean (tid, error ws method path duration name message stack) = Unit
IsClean (tid, other s) = Unit

abbrev pub AllClean : Logs → Type 0
AllClean l = All IsClean l.written

All-append : (xs ys : List (Text × Line)) → All IsClean xs → All IsClean ys → All IsClean (xs ++ ys)
All-append [] ys h k = k
All-append (x ∷ xs) ys h k = (h.0, All-append xs ys h.1 k)

log-AllClean :
    (opening : Opening) (line : Line) (task_id : Option Text) (l : Logs)
    → ((tid : Text) → IsClean (tid, line))
    → AllClean l
    → AllClean (log opening line task_id l).0
unfolding log
log-AllClean opening line task_id l clean h =
    let tid = task_of task_id l.task_id in
    elim (Bool-cases (is_invalid opening && is_none (Dict.get (sink_of tid) l.sinks))) [
      | inl bad ↦ rw bad h
      | inr good ↦ elim (Bool-cases (logger_for (is_opened opening) tid l.sinks).1) [
        | inl usable ↦ rw (good, usable) (All-append l.written ((tid, line) ∷ []) h (clean tid, tt))
        | inr unusable ↦ rw (good, unusable) h
      ]
    ]

-- A name that is one for a file raises nothing.
log-quiet :
    (opening : Opening) (line : Line) (task_id : Option Text) (l : Logs)
    → is_invalid opening ≡ false
    → (log opening line task_id l).1 ≡ false
unfolding log
log-quiet opening line task_id l h = rw h refl

-- Whether a request brings no exception with it: its headers and its query string decode, and the names of
-- its logs are names for files.
abbrev pub is_sound : Around → Request → Bool
is_sound x r =
    not (is_none r.headers)
    && not (is_none r.query)
    && not (is_invalid x.first)
    && not (is_invalid x.last)

-- How the layer ends after the application did.
abbrev IsEnd : (sound : Bool) → (inner outer : End) → Type 0
IsEnd sound inner outer = (outer ≡ inner) ⊎ ((outer ≡ unlogged) × (sound ≡ false))

module _ (x : Around) (r : Request) where
  raised-IsEnd : (end : End) (l : Logs) → IsEnd (is_sound x r) end (concluded_raised x r end l).1
  raised-IsEnd end l = elim (Bool-cases (is_invalid x.last)) [
    | inl bad ↦ elim (Bool-cases (log x.last (error_line x r end) none l).1) [
      | inl raises ↦ rw raises (inr (refl, ground (arith, bad)))
      | inr quiet ↦ rw quiet (inl refl)
    ]
    | inr good ↦ rw (log-quiet x.last (error_line x r end) none l good) (inl refl)
  ]

  concluded-IsEnd :
      (sent : List Sent) (end : End) (l : Logs)
      → IsEnd (is_sound x r) end (concluded x r sent end l).1
  unfolding concluded
  concluded-IsEnd sent returned l =
      let line = response (is_ws r.kind) (method_of r) r.path x.duration (status_of sent none) in
      elim (Bool-cases (is_invalid x.last)) [
        | inl bad ↦ elim (Bool-cases (log x.last line none l).1) [
          | inl raises ↦ rw raises (inr (refl, ground (arith, bad)))
          | inr quiet ↦ rw quiet (inl refl)
        ]
        | inr good ↦ rw (log-quiet x.last line none l good) (inl refl)
      ]
  concluded-IsEnd sent (raised e) l = raised-IsEnd (raised e) l
  concluded-IsEnd sent unlogged l = raised-IsEnd unlogged l
  concluded-IsEnd sent cancelled l = inl refl

  concluded-AllClean :
      (sent : List Sent) (end : End) (l : Logs) → AllClean l → AllClean (concluded x r sent end l).0
  unfolding concluded
  concluded-AllClean sent returned l h =
      let line = response (is_ws r.kind) (method_of r) r.path x.duration (status_of sent none) in
      let once = log-AllClean x.last line none l (λ tid. tt) h in
      elim (Bool-cases (log x.last line none l).1) [
        | inl raises ↦ rw raises (
            log-AllClean x.after (error_line x r unlogged) none (log x.last line none l).0
              (λ tid. tt) once)
        | inr quiet ↦ rw quiet once
      ]
  concluded-AllClean sent (raised e) l h = log-AllClean x.last _ none l (λ tid. tt) h
  concluded-AllClean sent unlogged l h = log-AllClean x.last _ none l (λ tid. tt) h
  concluded-AllClean sent cancelled l h = h

  -- What the layer makes of an application that is called with some logs: it is not called, since something
  -- raised before, or it is, and what it does and sends stays.
  abbrev pub Wraps : {S : Type 0} → App S → S → Logs → S × Logs × List Sent × End → Type 0
  Wraps app s l (s', l', sent, end) =
      let (t, inner_sent, inner) = seen (app s l) in
      (((s' ≡ s) × (sent ≡ []) × (end ≡ unlogged) × (is_sound x r ≡ false))
        ⊎ ((s' ≡ t)
            × (sent ≡ inner_sent)
            × IsEnd (is_sound x r) inner end
            × ((r.kind ≡ lifespan) ⊎ (l'.task_id ≡ l.task_id))))
      × AllClean l'

  unresolved :
      (headers : Headers) (q : Option Query) (generated : Text)
      → resolve_task_id headers q generated ≡ none
      → q ≡ none
  unfolding resolve_task_id
  unresolved headers none generated h = refl
  unresolved headers (some q) generated h = absurd (further_some _ _ h)
    where
      further_some : (o : Option Text) (tid : Text) → or_further o (some tid) ≡ none → ⊥
      further_some none tid h = ground (arith, h)
      further_some (some t) tid h = ground (arith, h)

  module _ {S : Type 0} (lower : Text → Text) (app : App S) (s : S) (l : Logs)
      (same : (a b : Logs) → seen (app s a) ≡ seen (app s b))
      (keeps : (a : Logs) → AllClean a → AllClean (app s a).1) (clean : AllClean l) where
    tried-Wraps : (l1 : Logs) → AllClean l1 → Wraps app s l (tried lower x app r l.task_id s l1)
    unfolding tried
    tried-Wraps l1 h =
        let (s', l2, sent, end) = app s l1 in
        (
          inr (
            ap (λ a. a.0) (same l1 l),
            ap (λ a. a.1) (same l1 l),
            subst (λ e. IsEnd (is_sound x r) e (concluded x r sent end l2).1)
                (ap (λ a. a.2) (same l1 l)) (concluded-IsEnd sent end l2),
            inr refl,
          ),
          concluded-AllClean sent end l2 (keeps l1 h),
        )

    -- Nothing is called, and nothing is written but by `log`.
    skipped : (l1 : Logs) → is_sound x r ≡ false → AllClean l1 → Wraps app s l (s, l1, [], unlogged)
    skipped l1 bad h = (inl (refl, refl, refl, bad), h)

    started-Wraps :
        (o : Logs × Bool)
        → (o.1 ≡ true → is_sound x r ≡ false)
        → AllClean o.0
        → Wraps app s l (started lower x app r l.task_id s o)
    started-Wraps (l1, true) bad h = skipped l1 (bad refl) h
    started-Wraps (l1, false) bad h = tried-Wraps l1 h

    first_sound :
        (line : Line) (l0 : Logs) → (log x.first line none l0).1 ≡ true → is_sound x r ≡ false
    first_sound line l0 h = elim (Bool-cases (is_invalid x.first)) [
      | inl bad ↦ ground (arith, bad)
      | inr good ↦ absurd (ground (arith, h, log-quiet x.first line none l0 good))
    ]

    queried-Wraps :
        (headers : Headers) (tid : Text) (o : Option Query)
        → (o ≡ none → is_sound x r ≡ false)
        → Wraps app s l (queried lower x app r headers tid o s l)
    queried-Wraps headers tid none bad = skipped (record l { task_id = tid }) (bad refl) clean
    queried-Wraps headers tid (some q) bad =
        let line = request (is_ws r.kind) (method_of r) r.path (redact headers) q.decoded in
        let l0 : Logs = record l { task_id = tid } in
        started-Wraps (log x.first line none l0) (first_sound line l0)
          (log-AllClean x.first line none l0 (λ t. redact-hides headers) clean)

    unread_sound : r.query ≡ none → is_sound x r ≡ false
    unread_sound h = elim (Bool-cases (is_none r.query)) [
      | inl bad ↦ ground (arith, bad)
      | inr good ↦ absurd (ground (arith, h, good))
    ]

    entered-Wraps :
        (headers : Headers) (tid : Text) → Wraps app s l (entered lower x app r headers tid s l)
    unfolding entered
    entered-Wraps headers tid = queried-Wraps headers tid r.query unread_sound

    resolved-Wraps :
        (headers : Headers) (o : Option Text)
        → (o ≡ none → is_sound x r ≡ false)
        → Wraps app s l (resolved lower x app r headers o s l)
    resolved-Wraps headers none bad = skipped l (bad refl) clean
    resolved-Wraps headers (some tid) bad = entered-Wraps headers tid

    decoded-Wraps :
        (o : Option Headers)
        → (o ≡ none → is_sound x r ≡ false)
        → Wraps app s l (decoded lower x app r o s l)
    unfolding resolve_task_id
    decoded-Wraps none bad = skipped l (bad refl) clean
    decoded-Wraps (some raw) bad =
        resolved-Wraps (headers_of lower raw []) _
          (λ h. unread_sound (unresolved (headers_of lower raw []) r.query x.generated h))

    undecoded_sound : r.headers ≡ none → is_sound x r ≡ false
    undecoded_sound h = elim (Bool-cases (is_none r.headers)) [
      | inl bad ↦ ground (arith, bad)
      | inr good ↦ absurd (ground (arith, h, good))
    ]

    by_kind-Wraps : (k : Kind) → r.kind ≡ k → Wraps app s l (by_kind lower x app r k s l)
    unfolding logged
    by_kind-Wraps lifespan e = (inr (refl, refl, inl refl, inl e), keeps l clean)
    by_kind-Wraps http e = decoded-Wraps r.headers undecoded_sound
    by_kind-Wraps websocket e = decoded-Wraps r.headers undecoded_sound

    -- Around an application whose answer does not depend on the logs, and that keeps them clean: it is not
    -- called, and nothing is sent, since the layer raised before; or it is called once, what becomes of its
    -- state and what it sends stays, it ends as it ended or with an exception of the layer, and the task of
    -- the caller is in place again, unless the request is of the kind that is handed on as it is. The layer
    -- raises only where headers or query do not decode, or the name of a log is none for a file. The values
    -- of secret headers are redacted where a line lists headers.
    pub middleware-Wraps : Wraps app s l (middleware lower x app r s l)
    unfolding middleware
    middleware-Wraps = by_kind-Wraps r.kind refl
