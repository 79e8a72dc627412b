-- ===== src/Lib.antt =====
-- Qingtian: the storage core and the contracts (qingtian_core), and the decisions and the lifecycle
-- of the engine (qingtian_engine).
--
-- The program keeps tasks, sessions, runs, evidence, checkpoints and knowledge in one SQLite file.
-- Every method of QingtianStore is one call: it checks its arguments, opens a transaction, reads
-- rows, checks the state machines, writes, commits, and reads the result back. A model gateway
-- calls the providers that are registered with it. The engine's control plane routes a task, reads
-- from its row why it waits and whether it may be executed, and holds a fenced lease while it
-- recovers. Its lifecycle keeps who is responsible for a task: handoffs between agents, executions
-- outside of the engine, and an outbox of notifications, with triggers that guard the task's state
-- and its managed runs.
--
-- The files, and the code that each models:
--
-- - States: qingtian_core/models.py, the three enumerations and their tables of transitions.
-- - Json, Json/Objects, Json/Strict: qingtian_core/models.py, require_strict_json, canonical_json
--   and content_hash, over a data type of Python objects.
-- - Json/Dicts: dict.get and len over these objects.
-- - Contracts: qingtian_core/contracts.py. Contracts/Equality is `_json_equal` over Python's `==`,
--   Contracts/Lint `_lint_schema`, Contracts/Validate `validate` with `_validate_semantics`;
--   Contracts/Keywords, Contracts/Meets and Contracts/Semantics say apart from the code what the
--   keywords and the rules of an $id ask, and Contracts/Closed and Contracts/Meaning are consequences. All failures are one exception, so the
--   checks are Boolean.
-- - Exec, Exec/Rules, Exec/Reads: actions over a state that return or raise one of the
--   exception classes of qingtian_core/models.py; `transaction` is QingtianStore.transaction,
--   which rolls back. The rules are the pre- and postconditions with which the methods are read.
-- - Store/Table, Store/Rows, Store/Statements: the schema of QingtianStore.initialize. A table is
--   the list of its rows in the order of insertion; INSERT raises integrity_error where a PRIMARY
--   KEY, a REFERENCES or the UNIQUE constraint of runs is violated.
-- - Store/Tasks, Store/Sessions, Store/Runs, Store/Records, Store/Recovery, Store/Knowledge: the
--   methods of QingtianStore in qingtian_core/store.py, under their names, each with the same
--   checks in the same order. Each query is a definition of its own.
-- - Store/Step: the abstract behaviour of the store, the changes that a call may make and the facts
--   that hold when it makes them. Store/Methods reads the methods against it, Store/Invariant and
--   Store/Consistent the invariant of the database along its steps, Store/History sequences of
--   calls.
-- - Store/Guarantees, Store/Races, Store/Failures, Store/Acceptance,
--   Store/Search: consequences.
-- - Store/Listing, Store/Export: list_tasks and export_task, with what they return.
-- - Providers, Providers/Lineage: qingtian_core/providers.py, ModelGateway and EchoProvider.
-- - Engine/Router, Engine/Router/Owners: qingtian_engine/router.py.
-- - Engine/Waiting, Engine/Waiting/Labels: the tables and the pure readings of a row in
--   qingtian_engine/service.py. Engine/Policy: qingtian_engine/execution_policy.py.
-- - Engine/Lease, Engine/Lease/Fencing: acquire_lease of qingtian_engine/coordinator.py.
--   Engine/Lease/Evidence is its sync_evidence_contracts, with required_evidence and
--   missing_completion_evidence of service.py; Synced reads its statements, Newest its
--   query for the evidence, Required a whole call, and Gate compares it with the completion gate.
-- - Engine/Lifecycle: the rows of qingtian_engine/lifecycle.py and of the tables that it reads.
--   Its children Checks, Guards, Executions, Handoffs, Outbox, Amend, Snapshots, Audit, Apply,
--   Heartbeat and Watchdog are the code: the checks of a payload, the triggers and `_executable`,
--   the handlers under their names, `snapshot`, the audit event, `apply`,
--   `record_legacy_heartbeat` and `reconcile_due`. Change has the writes to the tables that decide
--   who is responsible, and their invariant; Distinct, Settled and Preserved keep it; Handlers,
--   Work, Calls, Handled, Returned and Accepted read the handlers and `apply` against it, Beats
--   the heartbeat; History has sequences of calls and of writes of the control plane that pass the
--   triggers, and Watched the watchdog as such a sequence; Moves, Promises, Blockers and Claims
--   are consequences.
-- - Engine/Admission: the tables of qingtian_engine/admission.py. Of its children these are the
--   code: Columns, the row of a task and `digest`; Reading, `_facts` and `_guard`; Receipts,
--   `_append` and `_unconfirmed`; Projections, `_project` and `get`; Orders and Bindings, the payload
--   and the run of a dispatch; Dispatch, `dispatch` as two transactions with the dispatcher between
--   them; Targets, the trigger that records a run's target. Reads, Decisions, Reserve and Confirm
--   read the transactions; History has any interleaving of them, and InFlight their invariant; Once
--   and Retry say when the dispatcher is called.
-- - Scenarios, Scenarios/Handover, Scenarios/Documents, Scenarios/Dispatching, Witnesses: short
--   concrete runs.
--
-- Conventions. Arguments are typed, except in the contracts and in the lifecycle's payloads, so a
-- check by isinstance has no counterpart, and messages of exceptions are left out. The clock and
-- uuid4 are arguments: `now`, in milliseconds in the store and in whole seconds in the lease
-- (expires_at is stored without a fraction, so a comparison with it is one of whole seconds), and
-- `fresh`, the identifier that `_new_id` would return. Python's json and hashlib are a record of
-- functions (Codec), with what the source relies on as the hypothesis IsFaithful: the decoder
-- reads back what the encoder wrote, with the same text, and a digest is 64 hexadecimal digits.
-- SQLite's full-text index, its LIKE and datetime.fromisoformat are the record Engines, and re and
-- datetime the record Patterns, on which nothing is assumed; str.lower and str.upper are arguments
-- too.
-- In the lifecycle a payload is a dict of Python objects that is checked as the code checks it; times
-- are numbers of microseconds, and the texts and digests that other modules make are the record
-- Host. A LifecycleError and an AdmissionError have their code, and a trigger's RAISE(ABORT) is
-- integrity_error. What a dispatcher returns or writes is arbitrary; a receipt's JSON is the row that it
-- reads back.
-- Rows that an ORDER BY leaves equal keep the order of insertion. All functions are structurally
-- recursive, so no fuel is needed.
--
-- Not modelled: the checks of paths, descriptors and inodes in QingtianStore.__init__ and the
-- check of an existing file's schema; the time and the digest of an export; the files of schemas
-- and documents, the bundles, verification runs and command lines of qingtian_core; the processes,
-- the HTTP server, the writes of the control plane, the intake and the releases of
-- qingtian_engine, the HTTP route of its lifecycle, and the dead letters, the built-in plugins and
-- the tick of its coordinator; qingtian_kb; the scripts.
pub mod Prelude
pub mod Exec
pub mod Json
pub mod Contracts
pub mod States
pub mod Store
pub mod Providers
pub mod Engine
pub mod Scenarios
pub mod Witnesses
