-- ===== src/RateLimit/Refusal.antt =====
-- What a refusal by app/ratelimit.py promises: `Retry-After` is the wait in whole seconds, rounded up,
-- and a client that waits that long is let in.
use feathr_events.Prelude.{
  ℕ, ◌+◌, ◌-◌, ◌*◌, ◌/◌, ◌≤◌, ◌<◌, max, some, Bool, true, false, nat_beq, ltb, inl, inr, ◌≡◌, refl,
  arith, Bool-cases, ap, ◌∙◌,
}
use native.Mathlib.Nat.{div-add-mod, mod-lt}
use feathr_events.Dict
use feathr_events.Dict.Laws.{get-set}
use feathr_events.Models.{Text}
use feathr_events.Texts.{number}
use feathr_events.Queue.{ticks}
use feathr_events.RateLimit.{
  Kind, key_beq_iff, key_eq, Limits, limit, Buckets, Bucket, take, check, should_log, bucket_for,
  log_every_seconds,
}
use feathr_events.RateLimit.Tokens.{take_waits_exactly}
use feathr_events.RateLimit.Eviction.{asked, check_remembers}
use feathr_events.RateLimit.Middleware.{
  Scope, passed_on, too_many, client_of, classify, retry_after, rationed, refuse, respond,
}

-- The quotient rounded up.
module _ (b n : ℕ) (pos : 0 < b) where
  ceiling_covers : n ≤ b * ((n + (b - 1)) / b)
  ceiling_covers = omega (arith, div-add-mod (n + (b - 1)) b, mod-lt (n + (b - 1)) pos)

  ceiling_positive : 0 < n → 0 < (n + (b - 1)) / b
  ceiling_positive h = grind (arith, ceiling_covers)

retry_after_covers :
    (capacity wait : ℕ)
    → 0 < capacity
    → 0 < wait
    → wait ≤ ticks (retry_after capacity wait) * capacity
unfolding retry_after
retry_after_covers capacity wait pos h =
    let b : 0 < capacity * ticks 1 = omega arith in
    let c = ceiling_covers (capacity * ticks 1) wait b in
    let d = ceiling_positive (capacity * ticks 1) wait b h in
    let e : max 1 ((wait + (capacity * ticks 1 - 1)) / (capacity * ticks 1))
        ≡ (wait + (capacity * ticks 1 - 1)) / (capacity * ticks 1) =
      omega arith in
    rw e (omega arith)

waited :
    (capacity now wait : ℕ)
    → 0 < capacity
    → 0 < wait
    → wait ≤ (now + ticks (retry_after capacity wait) - now) * capacity
waited capacity now wait pos h =
    let e : now + ticks (retry_after capacity wait) - now ≡ ticks (retry_after capacity wait) =
      omega arith in
    rw e (retry_after_covers capacity wait pos h)

same_take :
    (capacity window now : ℕ) (a b : Bucket)
    → a.tokens ≡ b.tokens
    → a.updated ≡ b.updated
    → (take capacity window now a).1 ≡ (take capacity window now b).1
unfolding take
same_take capacity window now a b h k = ground (arith, h, k)

should_log-keeps :
    (later client : ℕ) (kind : Kind) (d : Buckets) (b : Bucket)
    → Dict.get (client, kind) d ≡ some b
    → (a : Bucket) × (Dict.get (client, kind) (should_log later client kind d).0 ≡ some a)
      × (a.tokens ≡ b.tokens)
      × (a.updated ≡ b.updated)
unfolding should_log
should_log-keeps later client kind d b h =
    elim (Bool-cases (ltb (later - b.logged_at) log_every_seconds)) [
      | inl quiet ↦ (
        record b { suppressed = b.suppressed + 1 },
        rw (should_log, h, quiet)
            (ground (
              arith,
              get-set (client, kind) (client, kind) (record b { suppressed = b.suppressed + 1 }) d,
              key_beq_iff (client, kind) (client, kind),
            )),
        refl,
        refl,
      )
      | inr loud ↦ (
        record b { suppressed = 0; logged_at = later },
        rw (should_log, h, loud)
            (ground (
              arith,
              get-set (client, kind) (client, kind) (record b { suppressed = 0; logged_at = later })
                  d,
              key_beq_iff (client, kind) (client, kind),
            )),
        refl,
        refl,
      )
    ]

check_wait :
    (l : Limits) (now client : ℕ) (kind : Kind) (d : Buckets) (a : Bucket)
    → Dict.get (client, kind) d ≡ some a
    → (check l now client kind d).1 ≡ (take (limit l kind) l.window now a).1
unfolding check take
check_wait l now client kind d a h = rw (check, bucket_for, h) refl

module _ (l : Limits) (now later client : ℕ) (kind : Kind) (d : Buckets) (w : 0 < l.window)
    (c : 0 < limit l kind) where
  abbrev told : ℕ
  told = (check l now client kind d).1

  abbrev left : Buckets
  left = (should_log later client kind (check l now client kind d).0).0

  readmitted :
      0 < told → (check l (now + ticks (retry_after (limit l kind) told)) client kind left).1 ≡ 0
  unfolding check
  readmitted h =
      let (a, found, same, when) =
        should_log-keeps later client kind (check l now client kind d).0 (asked l now client kind d)
          (check_remembers l now client kind d w c).1 in
      check_wait l (now + ticks (retry_after (limit l kind) told)) client kind left a found
      ∙ same_take (limit l kind) l.window (now + ticks (retry_after (limit l kind) told)) a
          (asked l now client kind d) same when
      ∙ (take_waits_exactly (limit l kind) l.window now
            (now + ticks (retry_after (limit l kind) told)) (bucket_for l now (client, kind) d) c
            (omega arith) h).1
          (waited (limit l kind) now told c h)

module _ (lower : Text → Text) (l : Limits) (trust : Bool) where
  respond-counted :
      (now later : ℕ) (s : Scope) (kind : Kind) (d : Buckets)
      → s.is_http ≡ true
      → classify s.method s.path ≡ some kind
      → respond lower l trust now later s d ≡ rationed lower l trust now later kind s d
  unfolding respond rationed
  respond-counted now later s kind d http k = rw (respond, http, k) refl

  caller : Scope → ℕ
  caller s = number (client_of lower s trust)

  rationed-refused :
      (now later : ℕ) (s : Scope) (kind : Kind) (d : Buckets)
      → nat_beq (check l now (caller s) kind d).1 0 ≡ false
      → rationed lower l trust now later kind s d
        ≡ refuse lower l trust later
            (caller s)
            kind
            (check l now (caller s) kind d).1
            (check l now (caller s) kind d).0
  unfolding rationed caller
  rationed-refused now later s kind d h = rw h refl

  rationed-admitted :
      (now later : ℕ) (s : Scope) (kind : Kind) (d : Buckets)
      → (check l now (caller s) kind d).1 ≡ 0
      → (rationed lower l trust now later kind s d).1 ≡ passed_on
  unfolding rationed caller
  rationed-admitted now later s kind d h = rw h refl

  -- With limits above 0: if a counted request is refused, with a number of seconds in `Retry-After`,
  -- then the same request is passed on when it is repeated that many seconds later and nobody asked
  -- in between.
  pub retry_is_admitted :
      (now later later' : ℕ) (s : Scope) (kind : Kind) (r most : ℕ) (d : Buckets)
      → 0 < l.window
      → 0 < limit l kind
      → s.is_http ≡ true
      → classify s.method s.path ≡ some kind
      → (respond lower l trust now later s d).1 ≡ too_many kind r most
      → (respond lower l trust (now + ticks r) later' s (respond lower l trust now later s d).0).1
        ≡ passed_on
  retry_is_admitted now later later' s kind r most d w c http k refused =
      elim (Bool-cases (nat_beq (check l now (caller s) kind d).1 0)) [
        | inl free ↦ absurd (
            ground (
              arith,
              respond-counted now later s kind d http k,
              rationed-admitted now later s kind d (ground arith),
            ))
        | inr busy ↦
            let e =
              respond-counted now later s kind d http k
              ∙ rationed-refused now later s kind d busy in
            let told_r : retry_after (limit l kind) (check l now (caller s) kind d).1 ≡ r =
              ground (arith, e) in
            rw⁻¹ told_r (
              rw e (
                ap (λ x. x.1)
                  (respond-counted
                    (now + ticks (retry_after (limit l kind) (check l now (caller s) kind d).1))
                    later' s kind _ http k)
                ∙ rationed-admitted _ later' s kind _
                    (readmitted l now later (caller s) kind d w c (ground arith))))
      ]
