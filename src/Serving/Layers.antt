-- ===== src/Serving/Layers.antt =====
-- What the two layers around the routes change.
use feathr_events.Prelude.{
  ℕ, ◌≤◌, [], some, Bool, true, false, ◌≡◌, refl, arith, Bool-cases, inl, inr, if◌then◌else◌,
  Option-cases, nat_beq,
}
use feathr_events.Models.{Text}
use feathr_events.Texts.{number}
use feathr_events.Config.{Settings, limits}
use feathr_events.RateLimit.{Kind, Limits, limit, Buckets, check}
use feathr_events.RateLimit.Middleware.{
  Scope, Answer, passed_on, too_many, respond, rationed, classify, retry_after, client_of,
}
use feathr_events.Requests.{App, Logs, unlogged}
use feathr_events.Requests.Transparent.{seen, AllClean, Wraps, middleware-Wraps}
use feathr_events.Serving.{
  Incoming, scope_of, request_of, Process, Answered, refused, answered, Circumstances,
  logged_routes, limited, serve, method_of, is_unreadable,
}

if_holds {ℓ κ} :
    {A : Type ℓ} (P : A → Type κ) (b : Bool) {x y : A}
    → (b ≡ true → P x)
    → (b ≡ false → P y)
    → P (if b then x else y)
if_holds P true f g = f refl
if_holds P false f g = g refl

seconds_positive : (capacity wait : ℕ) → 1 ≤ retry_after capacity wait
unfolding retry_after
seconds_positive capacity wait = omega arith

module _ (lower : Text → Text) where
  -- Why a request is refused.
  abbrev IsRefusal : Limits → Scope → Answer → Type 0
  IsRefusal l s passed_on = Unit
  IsRefusal l s (too_many kind seconds most) =
      (classify s.method s.path ≡ some kind) × (most ≡ limit l kind) × (1 ≤ seconds)

  rationed-IsRefusal :
      (l : Limits) (trust : Bool) (now later : ℕ) (kind : Kind) (s : Scope) (d : Buckets)
      → classify s.method s.path ≡ some kind
      → IsRefusal l s (rationed lower l trust now later kind s d).1
  unfolding rationed
  rationed-IsRefusal l trust now later kind s d e =
      let client = number (client_of lower s trust) in
      elim (Bool-cases (nat_beq (check l now client kind d).1 0)) [
        | inl granted ↦ rw granted tt
        | inr none_left ↦ rw none_left (e, refl, seconds_positive (limit l kind) _)
      ]

  respond-IsRefusal :
      (l : Limits) (trust : Bool) (now later : ℕ) (s : Scope) (d : Buckets)
      → IsRefusal l s (respond lower l trust now later s d).1
  unfolding respond
  respond-IsRefusal l trust now later s d = elim (Bool-cases s.is_http) [
    | inr other ↦ rw other tt
    | inl http ↦ elim (Option-cases (classify s.method s.path)) [
      | inl exempt ↦ rw (http, exempt) tt
      | inr (kind, e) ↦ rw (http, e) (rationed-IsRefusal l trust now later kind s d e)
    ]
  ]

  module _ {S : Type 0} (routes : App S) where
    -- What a request does: if it is refused, nothing but the buckets changes; else it is answered as the
    -- routes answer it, up to the exceptions that the layers bring with them.
    abbrev pub Composed :
        Settings → Circumstances → Incoming → Process S → Process S × Answered → Type 0
    Composed s x i p (p', refused kind seconds most) =
        (p'.inner ≡ p.inner)
        × (p'.logs ≡ p.logs)
        × (classify (method_of i) i.path ≡ some kind)
        × (most ≡ limit (limits s) kind)
        × (1 ≤ seconds)
        × (s.rate_limit_enabled ≡ true)
    Composed s x i p (p', answered sent end) =
        Wraps x.around (request_of i) routes p.inner p.logs (p'.inner, p'.logs, sent, end)

    module _ (s : Settings) (x : Circumstances) (i : Incoming) (p : Process S)
        (same : (a b : Logs) → seen (routes p.inner a) ≡ seen (routes p.inner b))
        (keeps : (a : Logs) → AllClean a → AllClean (routes p.inner a).1)
        (clean : AllClean p.logs) where
      logged_routes-Composed :
          (d : Buckets)
          → Composed s x i p (logged_routes lower routes x i (record p { buckets = d }))
      unfolding logged_routes
      logged_routes-Composed d =
          middleware-Wraps x.around (request_of i) lower routes p.inner p.logs same keeps clean

      limited-Composed :
          (d : Buckets) (a : Answer)
          → s.rate_limit_enabled ≡ true
          → IsRefusal (limits s) (scope_of i) a
          → Composed s x i p (limited lower routes x i a (record p { buckets = d }))
      limited-Composed d passed_on on why = logged_routes-Composed d
      limited-Composed d (too_many kind seconds most) on (kind_is, most_is, some_wait) =
          (refl, refl, kind_is, most_is, some_wait, on)

      unreadable-Composed : is_unreadable s i ≡ true → Composed s x i p (p, answered [] unlogged)
      unreadable-Composed bad = (inl (refl, refl, refl, ground (arith, bad)), clean)

    -- Around routes whose answer does not depend on the logs and that redact secret headers in what they log,
    -- a request is either refused by the limiter, and then the state of the routes and the logs stay as
    -- they are (no line is written for it); or the routes are not called and nothing is sent, since a layer
    -- raised before; or they are called once, what becomes of their state and what they send stays, the
    -- end is theirs or an exception of the log, and the task of the caller is in place again unless the
    -- request is of the kind that is handed on as it is. It is refused only if the limiter is switched on
    -- and the request is of a kind that is counted, with the limit of that kind and a wait of at least a
    -- second; a layer raises only where headers or query do not decode, or the name of a log is none for a
    -- file; and where a line of the logs lists headers, the values of the secret ones are redacted.
    pub serve-Composed :
        (s : Settings) (x : Circumstances) (i : Incoming) (p : Process S)
        → ((a b : Logs) → seen (routes p.inner a) ≡ seen (routes p.inner b))
        → ((a : Logs) → AllClean a → AllClean (routes p.inner a).1)
        → AllClean p.logs
        → Composed s x i p (serve lower routes s x i p)
    unfolding serve
    serve-Composed s x i p same keeps clean =
        let trust = s.rate_limit_trust_forwarded_for in
        let r = respond lower (limits s) trust x.now x.later (scope_of i) p.buckets in
        if_holds (Composed s x i p) s.rate_limit_enabled
          (λ on.
            if_holds (Composed s x i p) (is_unreadable s i)
              (λ bad. unreadable-Composed s x i p same keeps clean bad)
              (λ good.
                limited-Composed s x i p same keeps clean r.0 r.1 on
                  (respond-IsRefusal (limits s) trust x.now x.later (scope_of i) p.buckets)))
          (λ off. logged_routes-Composed s x i p same keeps clean p.buckets)
