-- ===== src/Requests.antt =====
-- app/observability.py, `log` and `AgentLoggerMiddleware`: what is logged of a request, around an
-- application that is an argument, and which exceptions that brings with it. Decoding, `str.lower`,
-- `parse_qs`, `uuid4`, the clock and what is written of an exception are arguments; the layout of a line is
-- left out.
pub mod Transparent
use feathr_events.Prelude.{
  ℕ, List, [], ◌∷◌, ◌++◌, Option, none, some, Bool, true, false, ◌&&◌, ◌||◌, is_none, if◌then◌else◌,
  map,
}
use feathr_events.Models.{Text}
use feathr_events.Texts.{text_eq, text_beq}
use feathr_events.Dict
use feathr_events.Sinks.{Sinks, logger_for, sink_of, make_room}

-- authorization, cookie and x-api-key
abbrev pub is_secret : Text → Bool
is_secret k =
    text_beq k (97 ∷ 117 ∷ 116 ∷ 104 ∷ 111 ∷ 114 ∷ 105 ∷ 122 ∷ 97 ∷ 116 ∷ 105 ∷ 111 ∷ 110 ∷ [])
    || text_beq k (99 ∷ 111 ∷ 111 ∷ 107 ∷ 105 ∷ 101 ∷ [])
    || text_beq k (120 ∷ 45 ∷ 97 ∷ 112 ∷ 105 ∷ 45 ∷ 107 ∷ 101 ∷ 121 ∷ [])

-- [REDACTED]
abbrev pub redacted : Text
redacted = 91 ∷ 82 ∷ 69 ∷ 68 ∷ 65 ∷ 67 ∷ 84 ∷ 69 ∷ 68 ∷ 93 ∷ []

abbrev pub Headers : Type 0
Headers = List (Text × Text)

-- `_redact`
unfoldable pub redact : Headers → Headers
redact [] = []
redact ((k, v) ∷ headers) = (k, if is_secret k then redacted else v) ∷ redact headers

-- `{k.decode().lower(): v.decode() for k, v in scope["headers"]}`
unfoldable pub headers_of : (lower : Text → Text) → Headers → Headers → Headers
unfolding Dict.set
headers_of lower [] d = d
headers_of lower ((k, v) ∷ raw) d = headers_of lower raw (Dict.set (lower k) v d)

abbrev first_value : Option (List Text) → Option Text
first_value none = none
first_value (some []) = none
first_value (some (v ∷ vs)) = some v

-- A text that is not empty.
abbrev truthy : Option Text → Option Text
truthy none = none
truthy (some []) = none
truthy (some (a ∷ s)) = some (a ∷ s)

-- A query string as it is decoded, and what `parse_qs` makes of it.
pub record Query : Type 0 where
  pub decoded : Text
  pub parsed : List (Text × List Text)

abbrev or_generated : Option Text → (generated : Text) → Text
or_generated none generated = generated
or_generated (some tid) generated = tid

abbrev pub task_of_query : Option Query → (generated : Text) → Option Text
task_of_query none generated = none
task_of_query (some q) generated = some (
    or_generated
      (first_value (
        Dict.get (97 ∷ 103 ∷ 101 ∷ 110 ∷ 116 ∷ 95 ∷ 116 ∷ 97 ∷ 115 ∷ 107 ∷ 95 ∷ 105 ∷ 100 ∷ [])
          q.parsed))
      generated)

abbrev pub or_further : Option Text → Option Text → Option Text
or_further (some tid) further = some tid
or_further none further = further

-- `_resolve_task_id`: `generated` is the name that is made up. `none` where the query string, which is read
-- only if no header names a task, does not decode.
unfoldable pub resolve_task_id :
    (headers : Headers) (query : Option Query) (generated : Text) → Option Text
unfolding Dict.get
resolve_task_id headers query generated =
    or_further
      (truthy (
        Dict.get
          (120 ∷ 45 ∷ 97 ∷ 103 ∷ 101 ∷ 110 ∷ 116 ∷ 45 ∷ 116 ∷ 97 ∷ 115 ∷ 107 ∷ 45 ∷ 105 ∷ 100 ∷ [])
          headers))
      (task_of_query query generated)

-- The lines that the middleware writes, and those of other callers of `log`. An error comes with what
-- `str` and `traceback` make of it.
pub data Line : Type 0 where
  request : (ws : Bool) (method path : Text) → Headers → (query : Text) → Line
  response : (ws : Bool) (method path : Text) (duration : ℕ) (status : Option ℕ) → Line
  error : (ws : Bool) (method path : Text) (duration : ℕ) (name message stack : Text) → Line
  other : Text → Line

-- The context variable `_task_id`, the table of sinks, and what was written, with the task of each line.
pub record Logs : Type 0 where
  pub task_id : Text
  pub sinks : Sinks
  pub written : List (Text × Line)

-- untracked
abbrev untracked : Text
untracked = 117 ∷ 110 ∷ 116 ∷ 114 ∷ 97 ∷ 99 ∷ 107 ∷ 101 ∷ 100 ∷ []

-- `task_id or _task_id.get() or "untracked"`
abbrev pub task_of : Option Text → Text → Text
task_of (some (a ∷ s)) current = a ∷ s
task_of (some []) [] = untracked
task_of (some []) (a ∷ s) = a ∷ s
task_of none [] = untracked
task_of none (a ∷ s) = a ∷ s

-- How the opening of the file of a new sink ends: it is open, there is an `OSError`, or the name is none for
-- a file, which is a `ValueError`.
pub data Opening : Type 0 where
  opened unwritable invalid : Opening

abbrev pub is_opened : Opening → Bool
is_opened opened = true
is_opened unwritable = false
is_opened invalid = false

abbrev pub is_invalid : Opening → Bool
is_invalid opened = false
is_invalid unwritable = false
is_invalid invalid = true

abbrev pub emitted : Bool → Line → (tid : Text) → Logs → Logs
emitted file line tid l =
    let (sinks, usable) = logger_for file tid l.sinks in
    if usable
    then record { task_id = l.task_id; sinks = sinks; written = l.written ++ (tid, line) ∷ [] }
    else record { task_id = l.task_id; sinks = sinks; written = l.written }

-- `log`, and whether it raises: the file is opened only for a sink that is not in the table, after there is
-- room for it.
unfoldable pub log : Opening → Line → (task_id : Option Text) → Logs → Logs × Bool
unfolding logger_for sink_of make_room Dict.get
log opening line task_id l =
    let tid = task_of task_id l.task_id in
    if is_invalid opening && is_none (Dict.get (sink_of tid) l.sinks)
    then (record { task_id = l.task_id; sinks = make_room l.sinks; written = l.written }, true)
    else (emitted (is_opened opening) line tid l, false)

-- A message to the server: the start of a response with its status, or another.
pub data Sent : Type 0 where
  start : (status : ℕ) → Sent
  rest : ℕ → Sent

-- How the application ends: it returns, it is cancelled, it raises an `Exception`, or a layer around
-- it does.
pub data End : Type 0 where
  returned cancelled : End
  raised : ℕ → End
  unlogged : End

-- An application over its own state: what it changes, what it logs, what it sends, how it ends.
abbrev pub App : Type 0 → Type 0
App S = S → Logs → S × Logs × List Sent × End

-- What `send_wrapper` leaves in `status`.
unfoldable pub status_of : List Sent → Option ℕ → Option ℕ
status_of [] code = code
status_of (start status ∷ sent) code = status_of sent (some status)
status_of (rest n ∷ sent) code = status_of sent code

pub data Kind : Type 0 where
  http websocket lifespan : Kind

abbrev pub is_ws : Kind → Bool
is_ws websocket = true
is_ws http = false
is_ws lifespan = false

-- What the layer reads of a scope: `none` where bytes do not decode.
pub record Request : Type 0 where
  pub kind : Kind
  pub method : Option Text
  pub path : Text
  pub headers : Option Headers
  pub query : Option Query

-- `scope.get("method", "WS")`
abbrev pub method_of : Request → Text
method_of r = elim r.method [ none ↦ 87 ∷ 83 ∷ [] | some method ↦ method ]

-- What a request takes from outside: the name that is made up for it, how the openings of its log end (the
-- first line, the last one, and that of an error in writing the last one), its duration, and what is
-- written of an exception: its type, its message and the stack.
pub record Around : Type 0 where
  pub generated : Text
  pub first : Opening
  pub last : Opening
  pub after : Opening
  pub duration : ℕ
  pub shown : End → Text × Text × Text

abbrev pub error_line : Around → Request → End → Line
error_line x r end =
    let (name, message, stack) = x.shown end in
    error (is_ws r.kind) (method_of r) r.path x.duration name message stack

-- An exception of the application: what gets out is that exception, or another one of the logging.
abbrev pub concluded_raised : Around → Request → End → Logs → Logs × End
concluded_raised x r end l =
    let (l', bad) = log x.last (error_line x r end) none l in (l', if bad then unlogged else end)

-- What follows the application: its last line. An exception of that line is caught, logged and raised anew.
unfoldable pub concluded : Around → Request → List Sent → End → Logs → Logs × End
unfolding log status_of
concluded x r sent returned l =
    let (l', bad) =
      log x.last (response (is_ws r.kind) (method_of r) r.path x.duration (status_of sent none))
        none l in
    if bad then ((log x.after (error_line x r unlogged) none l').0, unlogged) else (l', returned)
concluded x r sent (raised e) l = concluded_raised x r (raised e) l
concluded x r sent unlogged l = concluded_raised x r unlogged l
concluded x r sent cancelled l = (l, cancelled)

module _ {S : Type 0} (lower : Text → Text) (x : Around) (app : App S) (r : Request) where
  -- From the `try` on; `before` is the task of the caller.
  unfoldable pub tried : (before : Text) → App S
  unfolding concluded
  tried before s l =
      let (s', l2, sent, end) = app s l in
      let (l3, end') = concluded x r sent end l2 in (s', record l3 { task_id = before }, sent, end')

  -- What follows the first line, if it did not raise.
  abbrev pub started : (before : Text) → S → Logs × Bool → S × Logs × List Sent × End
  started before s (l1, true) = (s, l1, [], unlogged)
  started before s (l1, false) = tried before s l1

  abbrev pub queried : (headers : Headers) (tid : Text) → Option Query → App S
  queried headers tid none s l = (s, record l { task_id = tid }, [], unlogged)
  queried headers tid (some q) s l = started l.task_id s (
      log x.first (request (is_ws r.kind) (method_of r) r.path (redact headers) q.decoded) none
        (record l { task_id = tid }))

  -- With a task, which nothing resets where the query string does not decode or the first line raises.
  unfoldable pub entered : (headers : Headers) (tid : Text) → App S
  unfolding tried log redact
  entered headers tid s l = queried headers tid r.query s l

  abbrev pub resolved : (headers : Headers) → Option Text → App S
  resolved headers none s l = (s, l, [], unlogged)
  resolved headers (some tid) s l = entered headers tid s l

  abbrev pub decoded : Option Headers → App S
  decoded none s l = (s, l, [], unlogged)
  decoded (some raw) s l =
      let headers = headers_of lower raw [] in
      resolved headers (resolve_task_id headers r.query x.generated) s l

  -- A request of a kind that is logged.
  unfoldable pub logged : App S
  unfolding entered headers_of resolve_task_id
  logged s l = decoded r.headers s l

  abbrev pub by_kind : Kind → App S
  by_kind lifespan s l = app s l
  by_kind http s l = logged s l
  by_kind websocket s l = logged s l

  -- `AgentLoggerMiddleware.__call__`
  unfoldable pub middleware : App S
  unfolding logged
  middleware s l = by_kind r.kind s l
