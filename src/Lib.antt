-- ===== src/Lib.antt =====
-- A model of the task system of anclax, and what is proved of it.
--
-- A worker process keeps a claim engine, a pure state machine in which each slot of the worker's
-- concurrency runs a cycle: it claims a task, executes it and finalizes it. The runtime owns the
-- engine: it feeds it events one by one, and starts a goroutine for each command that the engine
-- answers with; when the goroutine ends, its result is the next event. The port carries the commands
-- out: it claims rows of the table of tasks, runs the user's handler, and records the outcome through
-- the life cycle handler, in transactions.
--
-- Other processes push tasks through the runner and the store, with overrides. The control plane
-- pauses, cancels and resumes tasks with all their descendants: it changes the rows in a transaction
-- and, in the same one, pushes a broadcast task. The worker that claims the broadcast interrupts its own
-- executions, sends each other alive worker a command task, and waits until all are done or gone; the
-- control plane waits for the broadcast through the listener, which polls the table. Users come with
-- macaroon tokens, whose keys are rows and whose expiry is a task.
--
-- Errors      the error values and errors.Is
-- Api         the task types of pkg/zgen/apigen/spec_gen.go
-- Db          the table of tasks, the world of a query, and transactions: pkg/zcore/model/model.go
--   Tasks     the single-row queries of pkg/zgen/querier/tasks.sql.gen.go (from sql/queries/tasks.sql)
--   Claims    the claiming queries; Choice: which row they take; Exclusion: what they lock out
--   Effects   which rows a run of statements leaves alone, whatever fails
--   Inserts   CreateTask, UpdateTask and the bulk updates
--   Trees     the queries on descendants, tags, and what listeners wait for
--   Workers   pkg/zgen/querier/workers.sql.gen.go; Keys: opaque_keys.sql.gen.go
-- Store       pkg/taskcore/store/store.go and TaskToAPI of pkg/taskcore/types/types.go
--   Overrides pkg/taskcore/store/overrides.go
-- Runner      pkg/zgen/taskgen/runner_gen.go: `run_task` stands for each of its run functions
-- Text        byte strings, Base64 and decimal numbers, of Go's library
-- Macaroons   pkg/macaroons/macaroons.go and caveats.go, with RetrieveFromJSON of pkg/utils/utils.go
--   Manager   the key store, pkg/macaroons/store/store.go, and the manager
--   Chain, RoundTrip, Sound, Revoked, Fresh: what holds of tokens
-- Auth        pkg/auth/auth.go and caveats.go, and RefreshToken of pkg/service/auth_service.go;
--             Access, Refresh, Frame, Once: what holds of them
-- Ctrl        pkg/taskcore/ctrl/ctrl.go: `Control` is a pause or a cancellation, of which the code has
--             a copy each; Wait: its waits; Config: the configuration
--             broadcast, with runtime_config_task.go; Collect, Pause, Rows, Committed, Ending,
--             Interrupts, Resumed, Matches, Tags: what holds of them
-- Listener    pkg/taskcore/listener/polling.go and listener.go; `Step` is one critical section, one
--             finish of a subscription, or one move of the loop; the other files: what holds of them
-- Broadcast   pkg/asynctask/executor_broadcast_worker.go: Execute: pause and cancellation, with
--             worker_control_handler.go; Update: the runtime configuration; Weights, Targets, Safety,
--             Command, Reached, Retry, Convergence: what holds of them
-- Control     the store's pause and cancellation, as the worker sees them
-- Worker
--   Types     pkg/taskcore/worker/types.go
--   Config    the pure parts of the runtime configuration, of pkg/taskcore/worker/engine.go
--   State     the engine's state, its claim groups and its cycles, of the same file
--   Engine    its handlers: Engine.Apply is `apply`, and each handler has its name in snake case
--   Runtime   pkg/taskcore/worker/runtime.go: `process` is processEvent, `exec_command` is execCommand,
--             a goroutine is a `Job`, and `Step` is one step of the loop or of a goroutine;
--             Startup: the head of Runtime.Start; Restart, Leaks, Balance, Commands: what holds of it
--   Lifecycle pkg/taskcore/worker/lifecycle_handler.go
--   Port      pkg/taskcore/worker/model_port.go; Registry: its task runtimes; Workers: the worker's row;
--             Versions, CaughtUp: what holds of the configuration's versions
--   Slots     pkg/taskcore/worker/worker.go: RunTask and its semaphore
-- Tests       the theorems at concrete inputs
--
-- Bounds. Cycle ids are int64 and wrap at 2^64 here as there; what is said of reachable engines holds
-- below 2^64 events. `process` runs on fuel, and any fuel but none is enough. The sum in the strict
-- lane's cap wraps as int64 does. Time stamps are natural numbers of some unit.
--
-- Parameters. The user's handler and hook, time.ParseDuration and the cron library are arguments or
-- fields. A world holds a script of the statements that fail, with their errors, so that a theorem for
-- all worlds covers every failure. A transaction runs alone: the isolation between transactions is
-- not modelled, nor a commit whose outcome is unknown to the client. What other transactions do while
-- a broadcast sleeps is a list of changes of the world, one for each sleep; when it is at its end, the
-- context has ended. The JSON of caveats and of task parameters, the hash HMAC-SHA256, random bytes,
-- the texts of UUIDs and of numbers in tags, and the answers of the listener to the control plane are
-- arguments. A UUID is a number, the nil one 0. The texts of errors are shortened.
--
-- Not modelled: the users tables and the accounts of pkg/service, the stress probes, the web server and
-- the web sockets, and the code generators. Labels that are a JSON null are not told from no labels in
-- the claims.
pub mod Prelude
pub mod Errors
pub mod Api
pub mod Db
pub mod Store
pub mod Text
pub mod Runner
pub mod Macaroons
pub mod Auth
pub mod Listener
pub mod Ctrl
pub mod Broadcast
pub mod Worker
pub mod Control
pub mod Tests
