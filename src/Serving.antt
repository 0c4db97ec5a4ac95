-- ===== src/Serving.antt =====
-- app/main.py, the application with its two layers: the rate limiter outside, the request log inside it,
-- and then the routes, which are an argument.
mod Tests
pub mod Layers
use feathr_events.Prelude.{
  ℕ, List, [], ◌∷◌, Option, none, some, Bool, true, false, not, ◌&&◌, is_none, if◌then◌else◌,
}
use feathr_events.Models.{Text}
use feathr_events.Config.{Settings, limits}
use feathr_events.RateLimit.{Buckets}
use feathr_events.RateLimit
use feathr_events.RateLimit.Middleware.{Scope, Answer, passed_on, too_many, respond, classify}
use feathr_events.Requests.{
  App, Request, Headers, Logs, Sent, End, Kind, http, websocket, lifespan, middleware, Around,
  Query, unlogged,
}

-- An ASGI scope: `none` where bytes do not decode, or there is no method.
pub record Incoming : Type 0 where
  pub kind : Kind
  pub method : Option Text
  pub path : Text
  pub headers : Option Headers
  pub query : Option Query
  pub client : Option Text

abbrev is_http : Kind → Bool
is_http http = true
is_http websocket = false
is_http lifespan = false

abbrev or_none : Option Headers → Headers
or_none none = []
or_none (some headers) = headers

-- `scope.get("method", "GET")`
abbrev pub method_of : Incoming → Text
method_of i = elim i.method [ none ↦ 71 ∷ 69 ∷ 84 ∷ [] | some method ↦ method ]

-- What each layer reads of it.
abbrev pub scope_of : Incoming → Scope
scope_of i = record {
  is_http = is_http i.kind;
  method = method_of i;
  path = i.path;
  headers = or_none i.headers;
  client = i.client;
}

abbrev pub request_of : Incoming → Request
request_of i = record {
  kind = i.kind;
  method = i.method;
  path = i.path;
  headers = i.headers;
  query = i.query;
}

-- Whether `client_of` raises: it decodes the headers of the requests that are counted, if it is to trust
-- one of them.
abbrev pub is_unreadable : Settings → Incoming → Bool
is_unreadable s i =
    s.rate_limit_trust_forwarded_for
    && is_http i.kind
    && is_none i.headers
    && not (is_none (classify (method_of i) i.path))

-- The buckets of the limiter, the logs, and the state of the routes.
pub record Process (S : Type 0) : Type 0 where
  pub buckets : Buckets
  pub logs : Logs
  pub inner : S

-- A refusal by the limiter, or what the application sends and how it ends.
pub data Answered : Type 0 where
  refused : RateLimit.Kind → (retry_after limit : ℕ) → Answered
  answered : List Sent → End → Answered

-- What one request takes from outside: two readings of the clock, and what its logging takes.
pub record Circumstances : Type 0 where
  pub now : ℕ
  pub later : ℕ
  pub around : Around

module _ {S : Type 0} (lower : Text → Text) (routes : App S) where
  -- `AgentLoggerMiddleware` around the routes
  unfoldable pub logged_routes : Circumstances → Incoming → Process S → Process S × Answered
  unfolding middleware
  logged_routes x i p =
      let (inner, logs, sent, end) =
        middleware lower x.around routes (request_of i) p.inner p.logs in
      (record { buckets = p.buckets; logs = logs; inner = inner }, answered sent end)

  -- `RateLimitMiddleware` around it
  abbrev pub limited : Circumstances → Incoming → Answer → Process S → Process S × Answered
  limited x i passed_on p = logged_routes x i p
  limited x i (too_many kind retry_after limit) p = (p, refused kind retry_after limit)

  -- One request, as the layers are stacked by `add_middleware`: the one added last is the outermost.
  unfoldable pub serve : Settings → Circumstances → Incoming → Process S → Process S × Answered
  unfolding logged_routes respond
  serve s x i p =
      let (buckets, answer, refusals) =
        respond lower (limits s) s.rate_limit_trust_forwarded_for x.now x.later (scope_of i)
          p.buckets in
      let allowed = limited x i answer (record p { buckets = buckets }) in
      if s.rate_limit_enabled
      then (if is_unreadable s i then (p, answered [] unlogged) else allowed)
      else logged_routes x i p
