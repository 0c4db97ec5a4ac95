-- ===== src/RateLimit/Middleware.antt =====
-- app/ratelimit.py, the functions `classify` and `client_of` and the class `RateLimitMiddleware`.
use feathr_events.Prelude.{
  ℕ, ◌+◌, ◌-◌, ◌*◌, ◌/◌, max, List, [], ◌∷◌, ◌++◌, Option, none, some, Bool, true, false, ◌||◌,
  contains, nat_beq, nat_eq, if◌then◌else◌, ◌≡◌, refl,
}
use feathr_events.Models.{Text}
use feathr_events.Texts.{text_beq, starts_with, number, strip, last_field, last_field-append}
use feathr_events.Queue.{ticks}
use feathr_events.RateLimit.{Kind, read, write, Limits, limit, Buckets, check, should_log}

-- `EXEMPT_PREFIXES`: /health, /demo, /docs, /redoc, /openapi.json
abbrev exempt_prefixes : List Text
exempt_prefixes =
    (47 ∷ 104 ∷ 101 ∷ 97 ∷ 108 ∷ 116 ∷ 104 ∷ [])
    ∷ (47 ∷ 100 ∷ 101 ∷ 109 ∷ 111 ∷ [])
    ∷ (47 ∷ 100 ∷ 111 ∷ 99 ∷ 115 ∷ [])
    ∷ (47 ∷ 114 ∷ 101 ∷ 100 ∷ 111 ∷ 99 ∷ [])
    ∷ (47 ∷ 111 ∷ 112 ∷ 101 ∷ 110 ∷ 97 ∷ 112 ∷ 105 ∷ 46 ∷ 106 ∷ 115 ∷ 111 ∷ 110 ∷ [])
    ∷ []

-- POST, PUT, PATCH, DELETE
abbrev writing_methods : List Text
writing_methods =
    (80 ∷ 79 ∷ 83 ∷ 84 ∷ [])
    ∷ (80 ∷ 85 ∷ 84 ∷ [])
    ∷ (80 ∷ 65 ∷ 84 ∷ 67 ∷ 72 ∷ [])
    ∷ (68 ∷ 69 ∷ 76 ∷ 69 ∷ 84 ∷ 69 ∷ [])
    ∷ []

abbrev starts_with_any : List Text → Text → Bool
starts_with_any [] s = false
starts_with_any (prefix ∷ prefixes) s = starts_with prefix s || starts_with_any prefixes s

abbrev is_among : List Text → Text → Bool
is_among [] s = false
is_among (t ∷ ts) s = text_beq t s || is_among ts s

unfoldable pub classify : (method path : Text) → Option Kind
classify method path =
    if starts_with_any exempt_prefixes path
    then none
    else if is_among writing_methods method
    then some write
    else some read

-- x-forwarded-for
abbrev forwarded_for : Text
forwarded_for =
    120 ∷ 45 ∷ 102 ∷ 111 ∷ 114 ∷ 119 ∷ 97 ∷ 114 ∷ 100 ∷ 101 ∷ 100 ∷ 45 ∷ 102 ∷ 111 ∷ 114 ∷ []

-- unknown
abbrev unknown : Text
unknown = 117 ∷ 110 ∷ 107 ∷ 110 ∷ 111 ∷ 119 ∷ 110 ∷ []

-- What the middleware reads of an ASGI scope.
pub record Scope : Type 0 where
  pub is_http : Bool
  pub method : Text
  pub path : Text
  pub headers : List (Text × Text)
  pub client : Option Text

-- How the middleware answers: it calls the application, or refuses with a 429.
pub data Answer : Type 0 where
  passed_on : Answer
  too_many : Kind → (retry_after limit : ℕ) → Answer

-- `str.lower` needs the tables of Unicode: it is an argument.
module _ (lower : Text → Text) where
  -- `headers.get("x-forwarded-for")` of the dictionary with lower-case keys, in which the last wins
  abbrev forwarded : List (Text × Text) → Option Text
  forwarded [] = none
  forwarded ((name, value) ∷ headers) = elim (forwarded headers) [
    | some v ↦ some v
    | none ↦ if text_beq (lower name) forwarded_for then some value else none
  ]

  abbrev peer : Option Text → Text
  peer none = unknown
  peer (some address) = address

  -- An empty header counts as none.
  abbrev hop : Scope → Option Text → Text
  hop s none = peer s.client
  hop s (some []) = peer s.client
  hop s (some (a ∷ t)) = strip (last_field 44 (a ∷ t))

  unfoldable pub client_of : Scope → (trust_forwarded_for : Bool) → Text
  client_of s trust_forwarded_for =
      let trusted = hop s (forwarded s.headers) in
      if trust_forwarded_for then trusted else peer s.client

-- `max(1, -(-wait // 1))`: the wait is in units of `1 / capacity` of a tick.
unfoldable pub retry_after : (capacity wait : ℕ) → ℕ
retry_after capacity wait = max 1 ((wait + (capacity * ticks 1 - 1)) / (capacity * ticks 1))

module _ (lower : Text → Text) (l : Limits) (trust_forwarded_for : Bool) where
  -- A refused request: the table after `should_log`, the answer, and the number in the line logged.
  abbrev pub refuse : (later client : ℕ) → Kind → (wait : ℕ) → Buckets → Buckets × Answer × Option ℕ
  refuse later client kind wait d =
      let (d', refusals) = should_log later client kind d in
      (d', too_many kind (retry_after (limit l kind) wait) (limit l kind), refusals)

  -- A request that is counted.
  unfoldable pub rationed : (now later : ℕ) → Kind → Scope → Buckets → Buckets × Answer × Option ℕ
  unfolding client_of
  rationed now later kind s d =
      let client = number (client_of lower s trust_forwarded_for) in
      let (d', wait) = check l now client kind d in
      let refused = refuse later client kind wait d' in
      if nat_beq wait 0 then (d', passed_on, none) else refused

  -- `__call__`: `now` and `later` are the readings of the clock of `check` and `should_log`.
  unfoldable pub respond : (now later : ℕ) → Scope → Buckets → Buckets × Answer × Option ℕ
  unfolding classify rationed
  respond now later s d =
      let counted : Buckets × Answer × Option ℕ = elim (classify s.method s.path) [
        | none ↦ (d, passed_on, none)
        | some kind ↦ rationed now later kind s d
      ] in
      if s.is_http then counted else (d, passed_on, none)

hop-append :
    (lower : Text → Text) (s : Scope) (claimed address : Text)
    → hop lower s (some (claimed ++ 44 ∷ address)) ≡ strip (last_field 44 (claimed ++ 44 ∷ address))
hop-append lower s [] address = refl
hop-append lower s (a ∷ claimed) address = refl

-- With the header trusted, of which the value is some text, a comma and an address without a comma:
-- the client is that address, stripped, whatever the text says.
client_of_last_hop :
    (lower : Text → Text) (s : Scope) (claimed address : Text)
    → forwarded lower s.headers ≡ some (claimed ++ 44 ∷ address)
    → contains 44 address ≡ false
    → client_of lower s true ≡ strip address
unfolding client_of
client_of_last_hop lower s claimed address h k =
    rw (h, hop-append lower s claimed address, last_field-append 44 claimed address k) refl
