-- ===== src/Queue.antt =====
-- app/queue.py: the in-memory queue with the verbs of SQS. A method takes the clock's readings as
-- arguments and returns the new queue or the exception it raises. Times are in ticks of a thousandth
-- of a second. `uuid n` is the result of the n-th call of `uuid.uuid4().hex`.
pub mod Invariant
pub mod Sending
pub mod Lifecycle
pub mod Order
pub mod Backoff
pub mod Tally
pub mod Conservation
mod Tests
pub mod Loans
pub mod Handles
pub mod Claims
pub mod Handed
pub mod History
pub mod Settling
pub mod Sweeping
pub mod Lending
pub mod Returning
use feathr_events.Prelude.{
  ℕ, zero, suc, ◌+◌, ◌-◌, ◌*◌, ◌^◌, min, List, [], ◌∷◌, ◌++◌, Option, none, some, Bool, leb,
  nat_beq, nat_eq, if◌then◌else◌, length, drop, Result, ok, err, ◌>>=◌, or_raise, map,
}
use feathr_events.Dict
use feathr_events.Dict.{values}
use feathr_events.Models.{Event}

abbrev pub ticks : ℕ → ℕ
ticks seconds = seconds * 1000

abbrev pub backoff_cap_seconds : ℕ
backoff_cap_seconds = ticks 900

abbrev pub dlq_maxlen : ℕ
dlq_maxlen = 1000

pub data QueueError : Type 0 where
  queue_full receipt_handle_is_invalid key_error : QueueError

pub record Message : Type 0 where
  pub event : Event
  pub receipt_handle : ℕ
  pub receive_count : ℕ

pub record Entry : Type 0 where
  pub event : Event
  pub receive_count : ℕ
  pub handle : Option ℕ
  pub deadline : ℕ

-- The lines of level ERROR that `_sweep` writes, with what they carry.
pub data LogLine : Type 0 where
  discarding : (lost admitted : ℕ) → LogLine
  dead_lettering : (event : Event) (deliveries : ℕ) → LogLine

-- The parameters of `__init__`.
pub record Config : Type 0 where
  pub visibility_timeout : ℕ
  pub max_receives : ℕ
  pub maxsize : ℕ

abbrev pub default_config : Config
default_config = record { visibility_timeout = ticks 30; max_receives = 5; maxsize = 10_000 }

-- The fields of the object, the lines it has logged, and the count of identifiers drawn so far.
pub record Queue : Type 0 where
  pub entries : List (ℕ × Entry)
  pub visible : List ℕ
  pub inflight : List (ℕ × ℕ)
  pub dlq : List Event
  pub logged : List LogLine
  pub drawn : ℕ

pub init : Queue
init = record { entries = []; visible = []; inflight = []; dlq = []; logged = []; drawn = 0 }

-- `d[k]`, which raises `KeyError`
abbrev pub at_key : {V : Type 0} → ℕ → List (ℕ × V) → Result QueueError V
at_key k d = or_raise (Dict.get k d) key_error

-- `deque(maxlen=n).append(a)`: the oldest element falls out.
abbrev pub bounded_append : {A : Type 0} → ℕ → List A → A → List A
bounded_append n xs a = let ys = xs ++ a ∷ [] in drop (length ys - n) ys

unfoldable pub backoff_for : Config → ℕ → ℕ
backoff_for c receive_count =
    min (c.visibility_timeout * 2 ^ (receive_count - 1)) backoff_cap_seconds

-- The comprehension of `_sweep`.
unfoldable pub expired_handles : ℕ → List (ℕ × Entry) → List (ℕ × ℕ) → Result QueueError (List ℕ)
expired_handles now entries [] = ok []
expired_handles now entries ((h, m) ∷ inflight) = do
  entry ← at_key m entries
  rest ← expired_handles now entries inflight
  ok (if leb entry.deadline now then h ∷ rest else rest)

discard_lines : List Event → Event → List LogLine
discard_lines [] e = []
discard_lines (oldest ∷ dlq) e =
    if nat_beq (length (oldest ∷ dlq)) dlq_maxlen
    then discarding oldest.event_id e.event_id ∷ []
    else []

-- A message whose deliveries are used up.
unfoldable pub bury : ℕ → Entry → Queue → Queue
unfolding discard_lines
bury m entry q = record q {
  dlq = bounded_append dlq_maxlen q.dlq entry.event;
  logged =
      q.logged
      ++ (discard_lines q.dlq entry.event ++ dead_lettering entry.event entry.receive_count ∷ []);
  entries = Dict.delete m q.entries;
}

-- A message that becomes visible again.
unfoldable pub lapse : ℕ → Entry → Queue → Queue
lapse m entry q = record q {
  entries = Dict.set m (record entry { handle = none }) q.entries;
  visible = q.visible ++ m ∷ [];
}

-- One round of the loop of `_sweep`.
unfoldable pub sweep_one : Config → ℕ → Queue → Result QueueError Queue
unfolding bury lapse
sweep_one c h q = do
  m ← at_key h q.inflight
  let p = record q { inflight = Dict.delete h q.inflight }
  entry ← at_key m p.entries
  ok (if leb c.max_receives entry.receive_count then bury m entry p else lapse m entry p)

unfoldable pub sweep_each : Config → List ℕ → Queue → Result QueueError Queue
sweep_each c [] q = ok q
sweep_each c (h ∷ hs) q = do p ← sweep_one c h q; sweep_each c hs p

unfoldable pub sweep : Config → ℕ → Queue → Result QueueError Queue
sweep c now q = do expired ← expired_handles now q.entries q.inflight; sweep_each c expired q

abbrev pub or_default : Option ℕ → ℕ → ℕ
or_default none d = d
or_default (some a) d = a

module _ (uuid : ℕ → ℕ) where
  unfoldable pub send : Config → Event → Queue → Result QueueError Queue
  send c event q =
      if leb c.maxsize (length q.entries)
      then err queue_full
      else ok (record q {
        entries =
            Dict.set (uuid q.drawn)
              (record { event = event; receive_count = 0; handle = none; deadline = 0 }) q.entries;
        visible = q.visible ++ uuid q.drawn ∷ [];
        drawn = q.drawn + 1;
      })

  -- One delivery: the entry with its new handle, deadline and count, and the loan.
  unfoldable pub lend : (base now m : ℕ) → Entry → Queue → Queue
  lend base now m entry q = record q {
    entries =
        Dict.set m
          (record entry {
            receive_count = entry.receive_count + 1;
            deadline = now + base;
            handle = some (uuid q.drawn);
          })
          q.entries;
    inflight = Dict.set (uuid q.drawn) m q.inflight;
    drawn = q.drawn + 1;
  }

  abbrev pub message_of : Entry → Queue → Message
  message_of entry q = record {
    event = entry.event;
    receipt_handle = uuid q.drawn;
    receive_count = entry.receive_count + 1;
  }

  -- The `while` of `receive`: `room` is `max_n - len(out)`, the third list is `self._visible`.
  unfoldable pub hand_out : (base now room : ℕ) → List ℕ → Queue → Queue × List Message
  hand_out base now zero visible q = (record q { visible = visible }, [])
  hand_out base now (suc room) [] q = (record q { visible = [] }, [])
  hand_out base now (suc room) (m ∷ visible) q = elim (Dict.get m q.entries) [
    | none ↦ hand_out base now (suc room) visible q
    | some entry ↦
        let (p, out) = hand_out base now room visible (lend base now m entry q) in
        (p, message_of entry q ∷ out)
  ]

  -- `swept` and `now` are the two readings of the clock, that of `_sweep` first.
  unfoldable pub receive :
      Config → (swept now max_n : ℕ) → Option ℕ → Queue → Result QueueError (Queue × List Message)
  receive c swept now max_n visibility_timeout q = do
    p ← sweep c swept q
    ok (hand_out (or_default visibility_timeout c.visibility_timeout) now max_n p.visible p)

unfoldable pub delete : ℕ → Queue → Result QueueError Queue
delete h q = do
  m ← or_raise (Dict.get h q.inflight) receipt_handle_is_invalid
  ok (record q { inflight = Dict.delete h q.inflight; entries = Dict.delete m q.entries })

-- `self._entries[m].deadline = deadline`
unfoldable pub stamp : ℕ → ℕ → Entry → Queue → Queue
stamp m deadline entry q = record q {
  entries = Dict.set m (record entry { deadline = deadline }) q.entries;
}

unfoldable pub change_visibility : (now h seconds : ℕ) → Queue → Result QueueError Queue
change_visibility now h seconds q = do
  m ← or_raise (Dict.get h q.inflight) receipt_handle_is_invalid
  entry ← at_key m q.entries
  ok (stamp m (now + seconds) entry q)

unfoldable pub fail : Config → (now h : ℕ) → Queue → Result QueueError Queue
fail c now h q = do
  m ← or_raise (Dict.get h q.inflight) receipt_handle_is_invalid
  entry ← at_key m q.entries
  ok (stamp m (now + backoff_for c entry.receive_count) entry q)

pub record Stats : Type 0 where
  pub visible : ℕ
  pub in_flight : ℕ
  pub dlq : ℕ
  pub capacity : ℕ

unfoldable pub stats : Config → Queue → Stats
stats c q = record {
  visible = length q.visible;
  in_flight = length q.inflight;
  dlq = length q.dlq;
  capacity = c.maxsize;
}

unfoldable pub clear : Queue → Queue
clear q = record q { entries = []; visible = []; inflight = []; dlq = [] }

unfoldable pub dead_letters : Queue → List Event
dead_letters q = q.dlq

unfoldable pub pending_events : Queue → List Event
pending_events q = map (λ e. e.event) (values q.entries)
