-- ===== src/Queue/Invariant.antt =====
-- What holds of every queue between two calls: where each message is, how often it was lent, and the
-- bounds on the structures of app/queue.py.
use feathr_events.Prelude.{
  ℕ, ◌+◌, ◌≤◌, ◌<◌, ◌≡◌, refl, Option, none, some, Bool, false, length, contains, nat_eq, IsNodup,
  arith, is_none, max,
}
use feathr_events.Dict
use feathr_events.Dict.{IsDict}
use feathr_events.Queue.{Queue, Config, Entry, init, dlq_maxlen}

-- A message is waiting if it is stored and lent to nobody.
abbrev pub waits : Option Entry → Bool
waits none = false
waits (some e) = is_none e.handle

abbrev pub handle_of : Option Entry → Option ℕ
handle_of none = none
handle_of (some e) = e.handle

-- A waiting message has deliveries left, or none behind it; a lent one is on one of its deliveries.
abbrev pub IsWithinCount : ℕ → ℕ → Option ℕ → Type 0
IsWithinCount limit n none = n < max 1 limit
IsWithinCount limit n (some h) = (1 ≤ n) × (n ≤ max 1 limit)

abbrev pub IsWithin : ℕ → Option Entry → Type 0
IsWithin limit none = Unit
IsWithin limit (some e) = IsWithinCount limit e.receive_count e.handle

pub record Inv (uuid : ℕ → ℕ) (c : Config) (q : Queue) : Type 0 where
  pub entries_dict : IsDict q.entries
  pub inflight_dict : IsDict q.inflight
  pub visible_nodup : IsNodup q.visible
  pub waiting : (m : ℕ) → contains m q.visible ≡ waits (Dict.get m q.entries)
  pub lent : (h m : ℕ) → Dict.get h q.inflight ≡ some m → handle_of (Dict.get m q.entries) ≡ some h
  pub held : (h m : ℕ) → handle_of (Dict.get m q.entries) ≡ some h → Dict.get h q.inflight ≡ some m
  pub counted : length q.entries ≡ length q.visible + length q.inflight
  pub bounded : length q.entries ≤ c.maxsize
  pub dlq_bounded : length q.dlq ≤ dlq_maxlen
  pub within : (m : ℕ) → IsWithin c.max_receives (Dict.get m q.entries)
  pub fresh_entries : (n : ℕ) → q.drawn ≤ n → Dict.get (uuid n) q.entries ≡ none
  pub fresh_inflight : (n : ℕ) → q.drawn ≤ n → Dict.get (uuid n) q.inflight ≡ none

pub init-Inv : (uuid : ℕ → ℕ) (c : Config) → Inv uuid c init
unfolding init Dict.get
init-Inv uuid c = record {
  entries_dict = tt;
  inflight_dict = tt;
  visible_nodup = tt;
  waiting = λ m. refl;
  lent = λ h m e. ground arith;
  held = λ h m e. ground arith;
  counted = refl;
  bounded = omega arith;
  dlq_bounded = omega arith;
  within = λ m. tt;
  fresh_entries = λ n h. refl;
  fresh_inflight = λ n h. refl;
}
