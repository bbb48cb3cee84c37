-- ===== src/Lib.antt =====
-- Fenix Spoon: the server's core, from a design in the workspace to the report of a finished study.
--
-- A caller keeps geometries, load cases and designs as workspace objects. A design is resolved to
-- exact revisions, its load cases merged and checked, and a job submitted. The job manager stores
-- the job, hands it to a backend, and lets callers look it up, cancel it, and follow its events.
-- The backend runs the solve: each event goes to the store, which numbers it, and then to the bus,
-- which delivers it to the subscribers of the job. The service stands above the manager: it checks a
-- submission, answers it from the cache or counts it against the caller's quotas, and runs studies
-- (known lists of solves) and optimisations (searches whose next point depends on the last answer)
-- as submissions, whose jobs it reads back for their reports.
--
-- Files, and what each models (paths from the repository's root):
-- - Prelude, Dict: Boolean tests, lists, calls that may raise (`Result`), Python's `dict`.
-- - Objects (server/fenixspoon/objects.py): references, `create` with the loop of `mkdir`, `_write`,
--   `revise`, `get`, `head_revision`. `create` takes the directories as its scan
--   saw them and as its `mkdir` finds them, so that other creators may come in between. The loop
--   has fuel: one more than the highest number that there is, since a number past that is free.
--   Objects/History is about one write, Objects/Steps about any sequence of them.
-- - Conditions (server/fenixspoon/core/conditions.py): `merge_load_cases`, `check_conditions`.
-- - Workspace (server/fenixspoon/core/workspace.py): `_record` (`record_of`), `_validate`,
--   `create` (`create_object`), `patch`, `resolve_design`. `patch` takes the store as it read it
--   and as it writes it.
-- - Series (server/fenixspoon/series.py): the validators of curves and `curves_of`.
-- - Store, Store/Memory (server/fenixspoon/store.py): the records, and `MemoryJobStore`. A Python
--   list of events is an address in a heap, since a stored record keeps the list of the caller.
-- - Store/Sqlite (the same file): of `SqliteJobStore`, its tables, `put`, `add_event`, `mark_reused`
--   and `get`, each against the memory store in Refines, Appends and Writes; Calls has runs of such calls. A
--   column of JSON holds what was written to it, and rows of events stand in the order of `seq`.
-- - Events (server/fenixspoon/events.py): the in-process bus, a queue for each subscriber.
-- - Execution (server/fenixspoon/execution.py, with two checks of
--   server/fenixspoon/solvers/base.py): `EventSink.emit`, `run_solve`. What the solver did and when
--   its progress reached the event loop are arguments: the outcome, and the ticks before and after
--   the final write.
-- - Jobs (server/fenixspoon/jobs.py, and `InProcessBackend` of server/fenixspoon/backends.py):
--   the manager. Jobs/Subscribe is the subscription, Jobs/Sweeps reconciliation and the purge.
-- - Numbers: what the program uses of floats, an order and the operations (`Order`, `Arithmetic`).
-- - Studies (server/fenixspoon/core/studies.py): the validators of ladders and sweeps and the solves
--   they imply; Studies/Convergence has `relative_changes`, `settled_value` and `convergence_of`,
--   Studies/Curves the rows of a report and `response_curves`; Ladder, Grid, Points and Legal are
--   about these.
-- - Optimize (server/fenixspoon/core/optimize.py): the body, `_replay`, `next_point`, `bracket_of`.
--   Optimize/Search has the loops of `_search` and `optimization_report` of
--   server/fenixspoon/core/service.py, round by round; Optimize/Replay is about how they agree,
--   Optimize/History has the best row and `history_curve`, Optimize/History/Best is about the former.
-- - Identity (server/fenixspoon/core/identity.py): quotas and their checks.
-- - Service (server/fenixspoon/core/service.py, with the key of server/fenixspoon/cache.py):
--   `submit`. Service/Study has `run_study` and `study_report`, with
--   the columns of a ladder in Service/Study/Columns; Service/Reads `job`, `result`,
--   `result_levels` (with server/fenixspoon/core/results.py), `cancel` and `artifact`;
--   Service/Paging `job_events`; Service/Cache and Service/Limits are about `submit`.
-- - Tests: the theorems at concrete states.
--
-- Floats are an abstract type `F`, JSON payloads `D`, object bodies `B`; times are numbers. A call
-- that raises gives `err`. A reference is what `parse_ref` makes of its
-- text: its grammar is not modelled. Parameters stand for
-- pydantic's reading of untyped payloads, for the jsonpatch package, for `reduce_field`, for the
-- digest of a cache key, for the versions of installed packages and for how a number is printed.
-- The loops of a search have fuel: one round more than the body's `max_evaluations`. A submission
-- of a search is followed to its end at once, so other callers' steps are in the state that it is
-- given and gives back.
--
-- Not modelled: the SQLite store's listings, cache lookup, purge and migrations, the text of
-- references, the worker and the Redis bus, the service's descriptions of capabilities, its queries of fields and its calls that only pass on, the transports (HTTP,
-- JSON-RPC, MCP, the command line), the geometry's validators, and the solvers, which are
-- floating-point numerics.
pub mod Prelude
pub mod Numbers
pub mod Optimize
pub mod Studies
pub mod Series
pub mod Dict
pub mod Conditions
pub mod Objects
pub mod Workspace
pub mod Store
pub mod Events
pub mod Execution
pub mod Jobs
pub mod Identity
pub mod Service
pub mod Tests
