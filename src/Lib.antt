-- ===== src/Lib.antt =====
-- The event pipeline: an API that accepts events into a queue in memory, and a worker whose
-- consumers write each event to MongoDB and then to Elasticsearch.
--
-- POST /events checks and stamps an event and sends it to the queue; consumers receive messages under
-- handles with a deadline, write, and delete, or report a failure; a message that is not deleted in
-- time returns by itself. A circuit shared by the consumers pauses them when different events fail
-- in a row. A rate limiter stands in front of the API.
--
-- The files and the code:
--   Queue        app/queue.py, `InMemoryEventQueue`: a record of its structures, one function per
--                method. The lazy sweep is cut into its rounds. Queue/Handles and Queue/Claims follow
--                what a handle stands for, Queue/Conservation the events, Queue/Handed the messages
--                that a batch hands out.
--   Circuit      app/worker.py, `SinkCircuit`.
--   Worker       app/worker.py, `EventWorker._loop` and `_handle`, cut at each `await` into segments
--                that run undisturbed; `turn` interleaves any number of consumers, cancels and
--                restarts them, and lets events arrive. Worker/Lifecycle: `start`, `stop` with its
--                drain, `stats`, `reset_counters`. Worker/Queueing, Worker/Accounts and Worker/Ledger
--                carry the invariant and the account of the queue through the worker; Worker/Batch
--                follows a batch through writes that are done; Worker/Stalled a consumer that is cancelled
--                while its message is the probe of the circuit.
--   App          app/main.py: `lifespan`, up to the report of what is lost, and app/clients.py,
--                `disconnect`; App/Demo: `demo_reset`; App/Account: a whole run from the start on.
--                App/Reset: what the reset leaves a consumer with that it has not cancelled.
--   Config       app/config.py: the settings, their defaults, and what the other parts take from them.
--   Stores       app/stores.py, `MongoEventStore.upsert` and `ElasticEventIndex.index`.
--   Schema       app/stores.py, `ElasticEventIndex.ensure_schema` with its warning, and `index` again
--                with the calls of the cluster; the adapters share a cluster.
--                Schema/Indexes: `ensure_schema` of the store; Queries/Indexed: the reads that it
--                serves.
--   Reindex      scripts/reindex.py.
--   Seed         scripts/seed.py: Seed/Words and Seed/Events `make_event`; Seed/Valid what the
--                validators make of it; Seed/Run a run against the endpoint.
--   Faults       app/faults.py.
--   RateLimit    app/ratelimit.py: `Bucket`, `RateLimiter`; RateLimit/Middleware: `classify`,
--                `client_of` and `RateLimitMiddleware`; RateLimit/Bursts: what a client that sends
--                without a pause gets from a bucket.
--   Serving      app/main.py, the stack of layers around the routes, in the order in which they are
--                added; Serving/Layers: what a request meets on its way through them.
--   Ingest       app/models.py, the validators of `EventIn` and `Event.from_input`, and app/main.py,
--                `ingest`; Ingest/Body: the body with its declared bounds. Models: the event itself.
--   Health       app/clients.py, `health`, and the switch `demo_fault` of app/main.py.
--   Startup      app/main.py, `_refuse_multiple_processes`.
--   Live         app/queries.py, `live_summary`, from the rows of its aggregation on.
--   Queries      app/queries.py: the filter, `list_events`, `_to_output`, `stats`; Queries/Terms:
--                `search_terms` and the pattern that it sends; Queries/Search: `search`;
--                Queries/Posted: a reader who asks for what was posted; Queries/Agreement: the read from
--                the store beside the read from the index.
--   Reads        app/main.py, the endpoints that read, with the bounds of their parameters; Reads/Pages:
--                a reader who follows the pages of `GET /events`.
--   Cache        app/cache.py, `get`, `set` and `_encode`, and app/main.py, `stats_realtime`;
--                Cache/Shapes: what a reader gets of an answer; Cache/Key: `key`.
--   Sinks        app/observability.py, `_logger_for`.
--   Requests     app/observability.py: the middleware that names the task of a request and logs its end
--                around an application that is a parameter, `log`, what is kept out of a line, and which
--                exceptions the logging brings.
--   Logcheck     scripts/logcheck.py: Logcheck/Formats its parsers, Logcheck/Collect `collect` and
--                `main`.
--   Dict, Texts, Sorting, Prelude: Python's dictionaries, strings and stable sort, and shared lemmas;
--                Dict/Sorted dictionaries that are sorted by their keys.
--   Samples: what the tests share.
--
-- Conventions. Every reading of the clock is an argument, in ticks of a thousandth of a second (in
-- Ingest microseconds, in Live whole seconds), and code that reads it twice takes two;
-- `time.monotonic` is assumed not to go back where a theorem says so. What the source computes in
-- floating point is computed without rounding: tokens are counted in units of one over the window.
-- `receive_count - 1` stops at 0 here; the queue calls it with counts from 1 on. `uuid4().hex` is a
-- function of the number of draws, assumed injective where a theorem says so. Exceptions are error
-- values; a `KeyError` is one of them. Loops are structural recursion, so no fuel is needed.
--
-- Parameters. A database is the record `Documents` of Stores: to put a document replaces the one with
-- its `_id`. A call of a driver is done, refused, or raises although the write took place. Whether
-- `ensure_schema` succeeds is an argument. `str.lower` is an argument, since it needs the tables of
-- Unicode; the parser of URLs is one, and so is what the random numbers of scripts/seed.py come to. The
-- cursor of MongoDB is a record of Reads/Pages. Redis and the JSON of cached answers are records of
-- Cache, and `isoformat` is an argument there; entries do not expire there. Rates and windows of 0
-- are left out: the source would divide by zero; and so are values of `--days` of scripts/seed.py that
-- lead to dates outside of what `datetime` holds.
--
-- Not modelled: the pipelines of the aggregations of app/queries.py; the opening of the clients; the
-- layout of log lines and of printed tables; of the JSON that scripts/logcheck.py reads, what becomes of
-- a member that is no text beyond the text that `str` makes of it; and the frontend.
pub mod Prelude
pub mod Dict
pub mod Models
pub mod Texts
pub mod Queries
pub mod Queue
pub mod RateLimit
pub mod Circuit
pub mod Config
pub mod Seed
pub mod Serving
pub mod Faults
pub mod Stores
pub mod Worker
pub mod Health
pub mod Reads
pub mod Reindex
pub mod Requests
mod Samples
pub mod Schema
pub mod Sorting
pub mod Startup
pub mod Ingest
pub mod Sinks
pub mod Live
pub mod Logcheck
pub mod App
pub mod Cache
pub mod Tests
