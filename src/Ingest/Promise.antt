-- ===== src/Ingest/Promise.antt =====
-- What the answer to `POST /events` promises.
use feathr_events.Prelude.{
  ℕ, ◌+◌, ◌%◌, ◌≤◌, ◌≡◌, inl, inr, refl, max, [], ◌∷◌, ◌++◌, Option, none, some, length, ltb, leb,
  Result, ok, err, ◌>>=◌, arith, nat_eq, nat_beq_iff, Bool-cases,
}
use feathr_events.Models.{Text, Fields, Event}
use feathr_events.Dict
use feathr_events.Dict.Laws.{get-set}
use feathr_events.Queue.{Queue, Config, send}
use feathr_events.Ingest.{
  EventIn, Datetime, now, future_skew, max_metadata_bytes, bound_the_future, bound_the_metadata,
  normalise_type, fields_size, instant, Valid, validate, or_now, from_input, Answer, accepted,
  too_many_requests, unprocessable, answered, decide_on, ingest, ValueError,
}

now-whole : (t : ℕ) → now t % 1_000 ≡ 0
unfolding now
now-whole t = omega arith

-- Every value that code returns has the property.
abbrev Returns {ℓ κ} : {E A : Type ℓ} → (A → Type κ) → Result E A → Type κ
Returns P (err e) = Unit
Returns P (ok a) = P a

bind-Returns {ℓ κ} :
    {E A B : Type ℓ} (P : A → Type κ) (Q : B → Type κ) (r : Result E A) (f : A → Result E B)
    → Returns P r
    → ((a : A) → P a → Returns Q (f a))
    → Returns Q (r >>= f)
bind-Returns P Q (err e) f h k = tt
bind-Returns P Q (ok a) f h k = k a h

any-Returns {ℓ} : {E A : Type ℓ} (r : Result E A) → Returns {ℓ, 0} (λ a. Unit) r
any-Returns (err e) = tt
any-Returns (ok a) = tt

abbrev Timely : (clock : ℕ) → Option ℕ → Type 0
Timely clock none = Unit
Timely clock (some v) = v ≤ now clock + future_skew

future-Timely :
    (clock : ℕ) (o : Option Datetime) → Returns (Timely clock) (bound_the_future clock o)
unfolding bound_the_future
future-Timely clock none = tt
future-Timely clock (some t) = elim (Bool-cases (ltb (now clock + future_skew) (instant t))) [
  | inl late ↦ rw late tt
  | inr fine ↦ rw fine (ground (arith, fine))
]

abbrev Small : Fields → Type 0
Small m = fields_size m ≤ max_metadata_bytes

metadata-Small : (m : Fields) → Returns Small (bound_the_metadata m)
unfolding bound_the_metadata
metadata-Small m = elim (Bool-cases (ltb max_metadata_bytes (fields_size m))) [
  | inl large ↦ rw large tt
  | inr fine ↦ rw fine (ground (arith, fine))
]

module _ (lower : Text → Text) where
  abbrev Sound : (clock : ℕ) → Valid lower → Type 0
  Sound clock v = Timely clock v.timestamp × Small v.metadata

  validate-Sound : (clock : ℕ) (p : EventIn) → Returns (Sound clock) (validate lower clock p)
  unfolding validate
  validate-Sound clock p =
      bind-Returns (λ a. Unit) (Sound clock) (normalise_type lower p.event_type) _
        (any-Returns (normalise_type lower p.event_type))
        (λ type _.
          bind-Returns (Timely clock) (Sound clock) (bound_the_future clock p.timestamp) _
            (future-Timely clock p.timestamp)
            (λ timestamp t.
              bind-Returns Small (Sound clock) (bound_the_metadata p.metadata) _
                (metadata-Small p.metadata) (λ metadata m. (t, m))))

  -- What the answer says of the queue and of the event.
  abbrev pub Promise :
      (uuid : ℕ → ℕ) → Config → (checked stamped : ℕ) → Queue → Queue → Answer lower → Type 0
  Promise uuid c checked stamped q r (accepted i) =
      (e : Event) × (e.event_id ≡ i)
      × (r.visible ≡ q.visible ++ uuid q.drawn ∷ [])
      × (Dict.get (uuid q.drawn) r.entries
          ≡ some (record { event = e; receive_count = 0; handle = none; deadline = 0 }))
      × (e.received_at % 1_000 ≡ 0)
      × (e.timestamp ≤ max (now checked + future_skew) (now stamped))
      × (fields_size e.metadata ≤ max_metadata_bytes)
  Promise uuid c checked stamped q r (too_many_requests s) =
      (r ≡ q) × (c.maxsize ≤ length q.entries) × (s ≡ 1)
  Promise uuid c checked stamped q r (unprocessable e) = r ≡ q

  or_now-le :
      (checked stamped : ℕ) (o : Option ℕ)
      → Timely checked o
      → or_now lower o (now stamped) ≤ max (now checked + future_skew) (now stamped)
  or_now-le checked stamped none h = omega arith
  or_now-le checked stamped (some t) h = omega arith

  answered-Promise :
      (uuid : ℕ → ℕ) (c : Config) (checked stamped id : ℕ) (p : EventIn) (v : Valid lower)
      (q : Queue)
      → Sound checked v
      → let r = answered lower id q (send uuid c (from_input lower stamped id p v) q) in
        Promise uuid c checked stamped q r.0 r.1
  unfolding send from_input
  answered-Promise uuid c checked stamped id p v q b =
      elim (Bool-cases (leb c.maxsize (length q.entries))) [
        | inl full ↦ rw full (refl, ground (arith, full), refl)
        | inr room ↦ rw room (
          from_input lower stamped id p v,
          refl,
          refl,
          ground (
            arith,
            get-set (uuid q.drawn) (uuid q.drawn)
                (record {
                  event = from_input lower stamped id p v;
                  receive_count = 0;
                  handle = none;
                  deadline = 0;
                })
                q.entries,
            nat_beq_iff (uuid q.drawn) (uuid q.drawn),
          ),
          now-whole stamped,
          or_now-le checked stamped v.timestamp b.0,
          b.1,
        )
      ]

  decided :
      (uuid : ℕ → ℕ) (c : Config) (checked stamped id : ℕ) (p : EventIn) (q : Queue)
      (r : Result ValueError (Valid lower))
      → Returns (Sound checked) r
      → let a = decide_on lower uuid c stamped id p q r in Promise uuid c checked stamped q a.0 a.1
  decided uuid c checked stamped id p q (err e) h = refl
  decided uuid c checked stamped id p q (ok v) h =
      answered-Promise uuid c checked stamped id p v q h

  -- Whatever a client posts: if the answer is 202, the event with the id that was answered stands at
  -- the end of the visible queue, undelivered, received at a whole millisecond, with metadata within
  -- the bound and a timestamp no later than five minutes after the clock of the check or than the
  -- clock of the stamp; if it is 429, the queue is full and unchanged and Retry-After is 1; if it is
  -- 422, the queue is unchanged.
  pub ingest-Promise :
      (uuid : ℕ → ℕ) (c : Config) (checked stamped id : ℕ) (p : EventIn) (q : Queue)
      → let r = ingest lower uuid c checked stamped id p q in
        Promise uuid c checked stamped q r.0 r.1
  unfolding ingest
  ingest-Promise uuid c checked stamped id p q =
      decided uuid c checked stamped id p q (validate lower checked p) (validate-Sound checked p)
