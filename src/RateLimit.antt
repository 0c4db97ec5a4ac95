-- ===== src/RateLimit.antt =====
-- app/ratelimit.py: a token bucket for each client and kind of request.
--
-- Numbers. Times are in ticks of a thousandth of a second, as in Queue. The refill rate is
-- `capacity / window` tokens per second, a fraction; so tokens are counted in units of `1 / window`
-- of a token (`window` in ticks), and one tick refills `capacity` units. What the source computes in
-- floating point is computed here without rounding.
mod Tests
pub mod Tokens
pub mod Bursts
pub mod Eviction
pub mod Middleware
pub mod Refusal
use feathr_events.Prelude.{
  ℕ, zero, suc, ◌+◌, ◌-◌, ◌*◌, ◌/◌, min, max, List, [], ◌∷◌, ◌++◌, Option, none, some, Bool, true,
  false, ◌&&◌, ◌||◌, leb, ltb, nat_beq, nat_beq_iff, nat_eq, if◌then◌else◌, length, Eq, ◌==◌, ◌↔◌,
  ◌≡◌, arith,
}
use feathr_events.Dict
use feathr_events.Queue.{ticks}

pub data Kind : Type 0 where
  read write : Kind

abbrev pub kind_beq : Kind → Kind → Bool
kind_beq read read = true
kind_beq write write = true
kind_beq _ _ = false

pub kind_beq_iff : (a b : Kind) → (kind_beq a b ≡ true) ↔ (a ≡ b)
kind_beq_iff read b = ground arith
kind_beq_iff write b = ground arith

-- A client is known by its address, used only through equality.
abbrev pub Key : Type 0
Key = ℕ × Kind

abbrev pub key_beq : Key → Key → Bool
key_beq (a, k) (b, l) = nat_beq a b && kind_beq k l

pub key_beq_iff : (a b : Key) → (key_beq a b ≡ true) ↔ (a ≡ b)
key_beq_iff (a, k) (b, l) = ground (arith, nat_beq_iff a b, kind_beq_iff k l)

instance abbrev pub key_eq : Eq Key
key_eq = record { beq = key_beq; beq_iff = key_beq_iff }

abbrev pub max_clients : ℕ
max_clients = 4_096

abbrev pub log_every_seconds : ℕ
log_every_seconds = ticks 10

pub record Bucket : Type 0 where
  pub tokens : ℕ
  pub updated : ℕ
  pub suppressed : ℕ
  pub logged_at : ℕ

-- `Bucket.take`: the bucket afterwards and the wait, 0 if a token was granted. The wait is in units of
-- `1 / capacity` of a tick.
unfoldable pub take : (capacity window now : ℕ) → Bucket → Bucket × ℕ
take capacity window now b =
    let tokens = min (capacity * window) (b.tokens + (now - b.updated) * capacity) in
    if leb window tokens
    then (record b { tokens = tokens - window; updated = now }, 0)
    else (record b { tokens = tokens; updated = now }, window - tokens)

-- The parameters of `RateLimiter.__init__`.
pub record Limits : Type 0 where
  pub writes : ℕ
  pub reads : ℕ
  pub window : ℕ

-- `limit`, and the table `_capacity`
unfoldable pub limit : Limits → Kind → ℕ
limit l write = l.writes
limit l read = l.reads

-- The `OrderedDict` of buckets.
abbrev pub Buckets : Type 0
Buckets = List (Key × Bucket)

unfoldable pub is_full : Limits → Key → Bucket → Bool
unfolding limit
is_full l (client, kind) b = leb (limit l kind * l.window) b.tokens

-- The `for` of `_evict_if_needed` over the copied items. `true` is its `return`.
unfoldable pub drop_full : Limits → List (Key × Bucket) → Buckets → Buckets × Bool
unfolding is_full
drop_full l [] d = (d, false)
drop_full l ((key, b) ∷ items) d =
    let rest = if is_full l key b then Dict.delete key d else d in
    let further = drop_full l items rest in
    if leb (length rest) max_clients then (rest, true) else further

-- The `while` with `popitem(last=False)`.
unfoldable pub drop_oldest : Buckets → Buckets
drop_oldest [] = []
drop_oldest (item ∷ d) =
    let further = drop_oldest d in if leb (length (item ∷ d)) max_clients then item ∷ d else further

unfoldable pub evict_if_needed : Limits → Buckets → Buckets
unfolding drop_full drop_oldest
evict_if_needed l d =
    if leb (length d) max_clients
    then d
    else (let (rest, done) = drop_full l d d in if done then rest else drop_oldest rest)

-- The bucket that `check` finds or makes.
unfoldable pub bucket_for : Limits → ℕ → Key → Buckets → Bucket
unfolding limit
bucket_for l now (client, kind) d = elim (Dict.get (client, kind) d) [
  | none ↦ record { tokens = limit l kind * l.window; updated = now; suppressed = 0; logged_at = 0 }
  | some b ↦ b
]

-- `check`: the table afterwards, and the wait.
unfoldable pub check : Limits → (now client : ℕ) → Kind → Buckets → Buckets × ℕ
unfolding bucket_for take evict_if_needed
check l now client kind d =
    let (b, wait) = take (limit l kind) l.window now (bucket_for l now (client, kind) d) in
    (evict_if_needed l (Dict.move_to_end (client, kind) b (Dict.set (client, kind) b d)), wait)

-- `should_log`: `None` to stay quiet, else how many refusals the line stands for.
unfoldable pub should_log : (now client : ℕ) → Kind → Buckets → Buckets × Option ℕ
should_log now client kind d = elim (Dict.get (client, kind) d) [
  | none ↦ (d, none)
  | some b ↦
      if ltb (now - b.logged_at) log_every_seconds
      then (Dict.set (client, kind) (record b { suppressed = b.suppressed + 1 }) d, none)
      else (
        Dict.set (client, kind) (record b { suppressed = 0; logged_at = now }) d,
        some (b.suppressed + 1),
      )
]

-- `remaining`: whole tokens
unfoldable pub remaining : Limits → ℕ → Kind → Buckets → ℕ
unfolding limit
remaining l client kind d = elim (Dict.get (client, kind) d) [
  | none ↦ limit l kind
  | some b ↦ b.tokens / l.window
]
