-- ===== src/RateLimit/Bursts.antt =====
-- The most that one client is granted by app/ratelimit.py, and the schedule of requests that gets it.
use feathr_events.Prelude.{
  ℕ, zero, suc, ◌+◌, ◌-◌, ◌*◌, ◌≤◌, ◌<◌, ◌≡◌, refl, min, List, [], ◌∷◌, ◌++◌, arith, ◌∙◌, subst,
  append-nil,
}
use native.Mathlib.Nat.{mul-le-mul_right, le_of_mul-le-mul_right}
use feathr_events.RateLimit.{Bucket, take}
use feathr_events.RateLimit.Tokens.{serve, serve_bounded, IsMonotone, last_of}

-- So many requests at one time.
abbrev at_once : ℕ → ℕ → List ℕ
at_once zero now = []
at_once (suc n) now = now ∷ at_once n now

-- A capacity of requests at once, and again after each of so many windows.
abbrev pub bursts : (capacity window rounds now : ℕ) → List ℕ
bursts capacity window zero now = at_once capacity now
bursts capacity window (suc k) now = at_once capacity now ++ bursts capacity window k (now + window)

IsMonotone-at_once :
    (from now n : ℕ) (ys : List ℕ)
    → from ≤ now
    → ((u : ℕ) → u ≤ now → IsMonotone u ys)
    → IsMonotone from (at_once n now ++ ys)
IsMonotone-at_once from now zero ys h k = k from h
IsMonotone-at_once from now (suc n) ys h k = (h, IsMonotone-at_once now now n ys (omega arith) k)

last_of-at_once :
    (from now n bound : ℕ) (ys : List ℕ)
    → from ≤ now
    → ((u : ℕ) → u ≤ now → last_of u ys ≤ bound)
    → last_of from (at_once n now ++ ys) ≤ bound
last_of-at_once from now zero bound ys h k = k from h
last_of-at_once from now (suc n) bound ys h k = last_of-at_once now now n bound ys (omega arith) k

module _ (capacity window : ℕ) where
  serve-append :
      (xs ys : List ℕ) (b : Bucket)
      → (serve capacity window (xs ++ ys) b).1
        ≡ (serve capacity window xs b).1
          + (serve capacity window ys (serve capacity window xs b).0).1
  unfolding serve
  serve-append [] ys b = omega arith
  serve-append (now ∷ xs) ys b = ground (arith, serve-append xs ys (take capacity window now b).0)

  -- The tokens at a time, before any is spent.
  abbrev refilled : ℕ → Bucket → ℕ
  refilled now b = min (capacity * window) (b.tokens + (now - b.updated) * capacity)

  take-granted :
      (now : ℕ) (b : Bucket)
      → window ≤ refilled now b
      → ((take capacity window now b).1 ≡ 0)
        × ((take capacity window now b).0.tokens ≡ refilled now b - window)
        × ((take capacity window now b).0.updated ≡ now)
  unfolding take
  take-granted now b h = ground arith

  refilled_again :
      (now : ℕ) (b : Bucket)
      → b.updated ≡ now
      → b.tokens ≤ capacity * window
      → refilled now b ≡ b.tokens
  refilled_again now b at capped =
      let e : now - b.updated ≡ 0 = omega (arith, at) in rw e (omega arith)

  -- As many requests as there are tokens for are granted at once.
  serve-at_once :
      (n now : ℕ) (b : Bucket)
      → n * window ≤ refilled now b
      → ((serve capacity window (at_once n now) b).1 ≡ n)
  unfolding serve
  serve-at_once zero now b enough = refl
  serve-at_once (suc n) now b enough =
      let (granted, left, at) = take-granted now b (omega (arith, enough)) in
      let b' = (take capacity window now b).0 in
      let again = refilled_again now b' at (omega (arith, left)) in
      rw granted (omega (arith, serve-at_once n now b' (omega (arith, again, left, enough))))

  serve-updated :
      (n now : ℕ) (b : Bucket)
      → b.updated ≡ now
      → (serve capacity window (at_once n now) b).0.updated ≡ now
  unfolding serve take
  serve-updated zero now b at = at
  serve-updated (suc n) now b at = serve-updated n now (take capacity window now b).0 (ground arith)

  refilled_later :
      (now : ℕ) (b : Bucket) → b.updated ≡ now → refilled (now + window) b ≡ capacity * window
  refilled_later now b at =
      let e : now + window - b.updated ≡ window = omega (arith, at) in rw e (omega arith)

  -- One window later the bucket is full again.
  refilled-serve :
      (n now : ℕ) (b : Bucket)
      → refilled now b ≡ capacity * window
      → refilled (now + window) (serve capacity window (at_once n now) b).0 ≡ capacity * window
  unfolding serve take
  refilled-serve zero now b full =
      let more : now - b.updated ≤ now + window - b.updated = omega arith in
      omega (arith, full, mul-le-mul_right capacity more)
  refilled-serve (suc n) now b full =
      let b' = (take capacity window now b).0 in
      refilled_later now (serve capacity window (at_once n now) b').0
        (serve-updated n now b' (ground arith))

  serve-bursts :
      (k now : ℕ) (b : Bucket)
      → refilled now b ≡ capacity * window
      → (serve capacity window (bursts capacity window k now) b).1 ≡ (k + 1) * capacity
  serve-bursts zero now b full = omega (arith, serve-at_once capacity now b (omega (arith, full)))
  serve-bursts (suc k) now b full =
      let first = serve-at_once capacity now b (omega (arith, full)) in
      let b' = (serve capacity window (at_once capacity now) b).0 in
      let rest = serve-bursts k (now + window) b' (refilled-serve capacity now b full) in
      omega (
        arith,
        first,
        rest,
        serve-append (at_once capacity now) (bursts capacity window k (now + window)) b,
      )

  IsMonotone-bursts : (k from now : ℕ) → from ≤ now → IsMonotone from (bursts capacity window k now)
  IsMonotone-bursts zero from now h =
      subst (IsMonotone from) (append-nil (at_once capacity now))
        (IsMonotone-at_once from now capacity [] h (λ u below. tt))
  IsMonotone-bursts (suc k) from now h =
      IsMonotone-at_once from now capacity (bursts capacity window k (now + window)) h
        (λ u below. IsMonotone-bursts k u (now + window) (omega (arith, below)))

  last_of-bursts :
      (k from now : ℕ) → from ≤ now → last_of from (bursts capacity window k now) ≤ now + k * window
  last_of-bursts zero from now h =
      subst (λ times. last_of from times ≤ now + 0 * window) (append-nil (at_once capacity now))
        (last_of-at_once from now capacity (now + 0 * window) [] h
          (λ u below. omega (arith, below)))
  last_of-bursts (suc k) from now h =
      last_of-at_once from now capacity (now + suc k * window)
        (bursts capacity window k (now + window)) h
        (λ u below.
          let l = last_of-bursts k u (now + window) (omega (arith, below)) in omega (arith, l))

-- No schedule of requests gets more than bursts: in a period of `k` windows, from a full bucket on, a
-- client is granted at most `k + 1` capacities, and it is granted that many if it asks for a capacity at
-- once at the start and again after each window.
pub bursts_are_best :
    (capacity window k : ℕ) (b : Bucket) (times : List ℕ)
    → 0 < window
    → b.tokens ≡ capacity * window
    → IsMonotone b.updated times
    → last_of b.updated times ≤ b.updated + k * window
    → ((serve capacity window times b).1 ≤ (k + 1) * capacity)
      × ((serve capacity window (bursts capacity window k b.updated) b).1 ≡ (k + 1) * capacity)
      × IsMonotone b.updated (bursts capacity window k b.updated)
      × (last_of b.updated (bursts capacity window k b.updated) ≤ b.updated + k * window)
bursts_are_best capacity window k b times pos full order ends =
    let period : last_of b.updated times - b.updated ≤ k * window = omega (arith, ends) in
    let most = serve_bounded capacity window times b pos (omega (arith, full)) order in
    let scaled = mul-le-mul_right capacity period in
    (
      le_of_mul-le-mul_right (grind (arith, most, scaled)) pos,
      serve-bursts capacity window k b.updated b
          (refilled_again capacity window b.updated b refl (omega (arith, full)) ∙ full),
      IsMonotone-bursts capacity window k b.updated b.updated (omega arith),
      last_of-bursts capacity window k b.updated b.updated (omega arith),
    )
