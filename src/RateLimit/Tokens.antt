-- ===== src/RateLimit/Tokens.antt =====
-- One bucket over time: how much it can grant, and that the wait it answers is the right one.
use feathr_events.Prelude.{
  ℕ, ◌+◌, ◌-◌, ◌*◌, ◌≤◌, ◌<◌, ◌≡◌, ◌↔◌, min, List, [], ◌∷◌, leb, if◌then◌else◌, arith, refl,
  Bool-cases, inl, inr,
}
use feathr_events.RateLimit.{Bucket, take}

-- The bucket holds no more than its capacity.
abbrev pub IsCapped : (capacity window : ℕ) → Bucket → Type 0
IsCapped capacity window b = b.tokens ≤ capacity * window

-- A run of requests on one bucket: the bucket at the end, and how many were granted.
unfoldable pub serve : (capacity window : ℕ) → List ℕ → Bucket → Bucket × ℕ
serve capacity window [] b = (b, 0)
serve capacity window (now ∷ later) b =
    let (b', wait) = take capacity window now b in
    let (b'', granted) = serve capacity window later b' in
    (b'', (if leb wait 0 then granted + 1 else granted))

-- The clock does not go back: each request is no earlier than the one before.
abbrev pub IsMonotone : ℕ → List ℕ → Type 0
IsMonotone from [] = Unit
IsMonotone from (now ∷ later) = (from ≤ now) × IsMonotone now later

abbrev pub last_of : ℕ → List ℕ → ℕ
last_of from [] = from
last_of from (now ∷ later) = last_of now later

pub take-IsCapped :
    (capacity window now : ℕ) (b : Bucket) → IsCapped capacity window (take capacity window now b).0
unfolding take
take-IsCapped capacity window now b = ground arith

-- A request spends what it is granted, from what was there and what time has refilled.
take_spends :
    (capacity window from now : ℕ) (b : Bucket)
    → 0 < window
    → b.updated ≡ from
    → ((take capacity window now b).0.updated ≡ now)
      × ((take capacity window now b).0.tokens
            + (if leb (take capacity window now b).1 0 then window else 0)
          ≤ b.tokens + (now - from) * capacity)
unfolding take
take_spends capacity window from now b h at = rw at (ground arith)

last-le : (from : ℕ) (times : List ℕ) → IsMonotone from times → from ≤ last_of from times
last-le from [] h = omega arith
last-le from (now ∷ later) h = omega (arith, last-le now later h.1)

split_elapsed :
    (from now last capacity : ℕ)
    → from ≤ now
    → now ≤ last
    → (last - from) * capacity ≡ (now - from) * capacity + (last - now) * capacity
split_elapsed from now last capacity h k =
    let e : last - from ≡ (now - from) + (last - now) = omega arith in rw e (omega arith)

serve_spends :
    (capacity window from : ℕ) (times : List ℕ) (b : Bucket)
    → 0 < window
    → b.updated ≡ from
    → IsMonotone from times
    → (serve capacity window times b).1 * window + (serve capacity window times b).0.tokens
      ≤ b.tokens + (last_of from times - from) * capacity
unfolding serve
serve_spends capacity window from [] b pos at h = omega arith
serve_spends capacity window from (now ∷ later) b pos at h =
    let (moved, spent) = take_spends capacity window from now b pos at in
    let rest =
      serve_spends capacity window now later (take capacity window now b).0 pos moved h.1 in
    let split = split_elapsed from now (last_of now later) capacity h.0 (last-le now later h.1) in
    elim (Bool-cases (leb (take capacity window now b).1 0)) [
      | inl yes' ↦ rw yes' (let spent'' = rw yes' at spent in omega arith)
      | inr no' ↦ rw no' (let spent'' = rw no' at spent in omega arith)
    ]

-- However a client times its requests, in any period it is granted no more than one capacity, for
-- the full bucket, and one capacity for each window that passes. (Both sides are multiplied by the
-- window.) The clock must not go back and the bucket must not be over-full.
pub serve_bounded :
    (capacity window : ℕ) (times : List ℕ) (b : Bucket)
    → 0 < window
    → IsCapped capacity window b
    → IsMonotone b.updated times
    → (serve capacity window times b).1 * window
      ≤ capacity * window + (last_of b.updated times - b.updated) * capacity
serve_bounded capacity window times b pos capped h =
    omega (arith, serve_spends capacity window b.updated times b pos refl h)

-- A refused request is told the exact wait: from the refusal on, with nothing else asked for, a
-- request is granted if and only if the wait has passed.
pub take_waits_exactly :
    (capacity window now later : ℕ) (b : Bucket)
    → 0 < capacity
    → now ≤ later
    → 0 < (take capacity window now b).1
    → ((take capacity window later (take capacity window now b).0).1 ≡ 0)
      ↔ ((take capacity window now b).1 ≤ (later - now) * capacity)
unfolding take
take_waits_exactly capacity window now later b pos order refused =
    let big : window ≤ capacity * window = grind arith in ground arith

-- A bucket that is full is as good as a new one: the next request gets the same answer and leaves the
-- same tokens.
pub take-full :
    (capacity window now : ℕ) (b fresh : Bucket)
    → b.tokens ≡ capacity * window
    → fresh.tokens ≡ capacity * window
    → ((take capacity window now b).1 ≡ (take capacity window now fresh).1)
      × ((take capacity window now b).0.tokens ≡ (take capacity window now fresh).0.tokens)
      × ((take capacity window now b).0.updated ≡ (take capacity window now fresh).0.updated)
unfolding take
take-full capacity window now b fresh h k =
    let e : min (capacity * window) (b.tokens + (now - b.updated) * capacity) ≡ capacity * window =
      omega arith in
    let f : min (capacity * window) (fresh.tokens + (now - fresh.updated) * capacity)
        ≡ capacity * window =
      omega arith in
    ground arith
