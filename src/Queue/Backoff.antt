-- ===== src/Queue/Backoff.antt =====
-- The retry schedule.
use feathr_events.Prelude.{ℕ, ◌+◌, ◌-◌, ◌*◌, ◌^◌, min, ◌≤◌, ◌≡◌, arith, ap, ◌∙◌}
use feathr_events.Queue.{Config, backoff_for, backoff_cap_seconds}
use native.Mathlib.Numerals.{towards_suc}

-- The exponents that the source writes, with `1` subtracted on ℕ.
pub next_power : (n : ℕ) → (2 ^ (n + 2 - 1) ≡ 2 * 2 ^ n) × (2 ^ (n + 1 - 1) ≡ 2 ^ n)
next_power n = (
  ap (λ k. 2 ^ k) (let e : n + 2 - 1 ≡ n + 1 = omega arith in e) ∙ simp towards_suc (omega arith),
  ap (λ k. 2 ^ k) (let e : n + 1 - 1 ≡ n = omega arith in e),
)

-- The first retry waits for the visibility timeout, or for the cap if that is shorter; each further
-- one for twice as long as the one before it, up to the cap, and never for less.
backoff_for-doubles :
    (c : Config) (n : ℕ)
    → (backoff_for c 1 ≡ min c.visibility_timeout backoff_cap_seconds)
      × (backoff_for c (n + 2) ≡ min (2 * backoff_for c (n + 1)) backoff_cap_seconds)
      × (backoff_for c (n + 1) ≤ backoff_for c (n + 2))
      × (backoff_for c (n + 1) ≤ backoff_cap_seconds)
unfolding backoff_for
backoff_for-doubles c n = let (e, e') = next_power n in rw (e, e') (omega arith)
