-- ===== src/Sinks.antt =====
-- app/observability.py, `_logger_for`: the table of log sinks, one open file each.
use feathr_events.Prelude.{
  ℕ, ◌+◌, ◌≤◌, ◌<◌, ◌≡◌, refl, List, [], ◌∷◌, none, some, Bool, true, false, leb, if◌then◌else◌,
  length, length-append, arith, Option-cases, Bool-cases, inl, inr, ap,
}
use feathr_events.Models.{Text}
use feathr_events.Texts.{text_eq, text_beq, text_beq_iff, starts_with}
use feathr_events.Dict
use feathr_events.Dict.Laws.{
  get-set, get-delete, get-concat, length-delete, set-IsDict, delete-IsDict, concat-IsDict,
}

-- requests
abbrev pub shared_sink : Text
shared_sink = 114 ∷ 101 ∷ 113 ∷ 117 ∷ 101 ∷ 115 ∷ 116 ∷ 115 ∷ []

-- req-
abbrev pub generated_prefix : Text
generated_prefix = 114 ∷ 101 ∷ 113 ∷ 45 ∷ []

abbrev pub max_sinks : ℕ
max_sinks = 32

-- `_loggers`: whether there is a logger, with its open file, for a sink, or `None`.
abbrev pub Sinks : Type 0
Sinks = List (Text × Bool)

unfoldable pub sink_of : Text → Text
sink_of task_id = if starts_with generated_prefix task_id then shared_sink else task_id

-- The `while` with `popitem(last=False)`.
unfoldable pub make_room : Sinks → Sinks
make_room [] = []
make_room (sink ∷ sinks) =
    let further = make_room sinks in
    if leb max_sinks (length (sink ∷ sinks)) then further else sink ∷ sinks

-- `opened` says whether the file of a new sink could be opened.
unfoldable pub logger_for : (opened : Bool) → Text → Sinks → Sinks × Bool
unfolding sink_of make_room
logger_for opened task_id sinks =
    let sink = sink_of task_id in
    elim (Dict.get sink sinks) [
      | some logger ↦ (Dict.move_to_end sink logger sinks, logger)
      | none ↦ (Dict.set sink opened (make_room sinks), opened)
    ]

-- One call after another.
unfoldable pub log_all : List (Bool × Text) → Sinks → Sinks
unfolding logger_for
log_all [] sinks = sinks
log_all ((opened, task_id) ∷ calls) sinks = log_all calls (logger_for opened task_id sinks).0

make_room-bounded : (sinks : Sinks) → length (make_room sinks) < max_sinks
unfolding make_room
make_room-bounded [] = omega arith
make_room-bounded (sink ∷ sinks) = ground (arith, make_room-bounded sinks)

make_room-absent :
    (k : Text) (sinks : Sinks) → Dict.get k sinks ≡ none → Dict.get k (make_room sinks) ≡ none
unfolding make_room Dict.get
make_room-absent k [] h = refl
make_room-absent k ((j, b) ∷ sinks) h = ground (arith, make_room-absent k sinks)

make_room-IsDict : (sinks : Sinks) → Dict.IsDict sinks → Dict.IsDict (make_room sinks)
unfolding make_room
make_room-IsDict [] d = tt
make_room-IsDict ((j, b) ∷ sinks) d = ground (arith, make_room-IsDict sinks d.1)

length-set-le :
    (k : Text) (b : Bool) (sinks : Sinks) → length (Dict.set k b sinks) ≤ length sinks + 1
unfolding Dict.set
length-set-le k b [] = omega arith
length-set-le k b ((j, c) ∷ sinks) = ground (arith, length-set-le k b sinks)

-- The table is a dictionary within its bound, and no generated identifier has a sink of its own.
pub record Tidy (sinks : Sinks) : Type 0 where
  pub dict : Dict.IsDict sinks
  pub bounded : length sinks ≤ max_sinks
  pub shared : (k : Text) → starts_with generated_prefix k ≡ true → Dict.get k sinks ≡ none

differs_by_prefix :
    (p a k : Text) → starts_with p a ≡ false → starts_with p k ≡ true → text_beq a k ≡ false
differs_by_prefix p a k h g = elim (Bool-cases (text_beq a k)) [
  | inl same ↦ absurd (ground (arith, ap (starts_with p) ((text_beq_iff a k).0 same)))
  | inr other ↦ other
]

sink_of-named :
    (k task_id : Text)
    → starts_with generated_prefix k ≡ true
    → text_beq (sink_of task_id) k ≡ false
unfolding sink_of
sink_of-named k task_id h = elim (Bool-cases (starts_with generated_prefix task_id)) [
  | inl generated ↦ rw generated (differs_by_prefix generated_prefix shared_sink k refl h)
  | inr named ↦ rw named (differs_by_prefix generated_prefix task_id k named h)
]

moved-Tidy :
    (task_id : Text) (b : Bool) (sinks : Sinks)
    → Dict.get (sink_of task_id) sinks ≡ some b
    → Tidy sinks
    → Tidy (Dict.move_to_end (sink_of task_id) b sinks)
unfolding Dict.move_to_end
moved-Tidy task_id b sinks found v =
    let sink = sink_of task_id in
    let gone : Dict.get sink (Dict.delete sink sinks) ≡ none =
      ground (arith, get-delete sink sink sinks, text_beq_iff sink sink) in
    record {
      dict = concat-IsDict sink b (Dict.delete sink sinks) (delete-IsDict sink sinks v.dict) gone;
      bounded = omega (
        arith,
        v.bounded,
        length-append (Dict.delete sink sinks) ((sink, b) ∷ []),
        length-delete sink b sinks v.dict found,
      );
      shared = λ k h. ground (
        arith,
        get-concat sink k b (Dict.delete sink sinks) gone,
        get-delete sink k sinks,
        v.shared k h,
        sink_of-named k task_id h,
      );
    }

opened-Tidy :
    (task_id : Text) (b : Bool) (sinks : Sinks)
    → Tidy sinks
    → Tidy (Dict.set (sink_of task_id) b (make_room sinks))
opened-Tidy task_id b sinks v = record {
  dict = set-IsDict (sink_of task_id) b (make_room sinks) (make_room-IsDict sinks v.dict);
  bounded =
      omega (arith, length-set-le (sink_of task_id) b (make_room sinks), make_room-bounded sinks);
  shared = λ k h. ground (
    arith,
    get-set (sink_of task_id) k b (make_room sinks),
    make_room-absent k sinks (v.shared k h),
    sink_of-named k task_id h,
  );
}

logger_for-Tidy :
    (b : Bool) (task_id : Text) (sinks : Sinks) → Tidy sinks → Tidy (logger_for b task_id sinks).0
unfolding logger_for
logger_for-Tidy b task_id sinks v = elim (Option-cases (Dict.get (sink_of task_id) sinks)) [
  | inl absent ↦ rw (logger_for, absent) (opened-Tidy task_id b sinks v)
  | inr (l, found) ↦ rw (logger_for, found) (moved-Tidy task_id l sinks found v)
]

-- Whatever task identifiers callers send, and whether files can be opened or not: a table that is a
-- dictionary of at most `max_sinks` sinks, with none for a generated request identifier, stays one.
pub log_all-Tidy :
    (calls : List (Bool × Text)) (sinks : Sinks) → Tidy sinks → Tidy (log_all calls sinks)
unfolding log_all
log_all-Tidy [] sinks v = v
log_all-Tidy ((b, task_id) ∷ calls) sinks v =
    log_all-Tidy calls (logger_for b task_id sinks).0 (logger_for-Tidy b task_id sinks v)
