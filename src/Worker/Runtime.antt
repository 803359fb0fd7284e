-- ===== src/Worker/Runtime.antt =====
-- The runtime loop of a worker: pkg/taskcore/worker/runtime.go. The inbox is the channel, oldest
-- first; a goroutine that waits for the port is a job; what the port answers is an argument of the
-- step in which the job ends. The port itself is other code.
pub mod Commands
pub mod Balance
pub mod Leaks
pub mod Startup
pub mod Restart
use anclax.Prelude.{
  ℕ, suc, ◌+◌, Bool, true, false, ◌||◌, String, List, [], ◌∷◌, ◌++◌, Option, none, some,
  if◌then◌else◌, ◌≡◌,
}
use anclax.Prelude.Int.{ℤ, ltb_ℤ}
use anclax.Errors.{Err, Sentinel, errors_is}
use anclax.Worker.Types.{EventType, CommandType, Task, RuntimeConfig, Event, event, Command}
use anclax.Worker.State.{Engine, apply_runtime_config}
use anclax.Worker.Engine.{apply}

pub record ClaimRequest : Type 0 where
  pub worker_id : String
  pub labels : List String
  pub has_labels : Bool

pub record ClaimNormalRequest : Type 0 where
  pub claim : ClaimRequest
  pub group : String
  pub weighted_labels : List String

-- A goroutine of `execCommand`, with what it has captured.
pub data Job : Type 0 where
  claim_strict : ℕ → ClaimRequest → Job
  claim_normal : ℕ → ClaimNormalRequest → Job
  execute_task : ℕ → Task → Job
  finalize_task : ℕ → Task → Option Err → Job
  heartbeat : String → Job
  refresh : String → String → Job
  ack : String → String → ℤ → Job

-- What a port call returns; a call fills the parts of its own type.
pub record Answer : Type 0 where
  pub task : Option Task
  pub config : Option RuntimeConfig
  pub err : Option Err

-- `offline` counts the calls of MarkWorkerOffline, `reported` lists what OnError was given.
pub record Runtime : Type 0 where
  pub engine : Engine
  pub inbox : List Event
  pub jobs : List Job
  pub closed : Bool
  pub offline : ℕ
  pub reported : List Err

abbrev pub new_runtime : Engine → Runtime
new_runtime e = record {
  engine = e;
  inbox = [];
  jobs = [];
  closed = false;
  offline = 0;
  reported = [];
}

is_shutdown : Err → Bool
is_shutdown err = errors_is err Sentinel.canceled || errors_is err Sentinel.deadline_exceeded

unfoldable pub handle_error : Option Err → Runtime → Runtime
unfolding is_shutdown
handle_error none r = r
handle_error (some err) r =
    if is_shutdown err then r else record r { reported = r.reported ++ err ∷ [] }

-- A closed loop takes no event any more.
unfoldable pub enqueue : Event → Runtime → Runtime
enqueue ev r = if r.closed then r else record r { inbox = r.inbox ++ ev ∷ [] }

abbrev pub is_cons : {A : Type 0} → List A → Bool
is_cons [] = false
is_cons (x ∷ xs) = true

abbrev pub request : Engine → ClaimRequest
request e = record { worker_id = e.worker_id; labels = e.labels; has_labels = is_cons e.labels }

abbrev pub spawn : Job → Runtime → Runtime × List Event
spawn j r = (record r { jobs = r.jobs ++ j ∷ [] }, [])

run_execute : ℕ → Option Task → Runtime → Runtime × List Event
run_execute cycle_id none r =
    (r, record (event EventType.execute_result) { cycle_id = cycle_id } ∷ [])
run_execute cycle_id (some task) r = spawn (execute_task cycle_id task) r

run_finalize : ℕ → Option Task → Option Err → Runtime → Runtime × List Event
run_finalize cycle_id none exec_err r =
    (r, record (event EventType.finalize_result) { cycle_id = cycle_id } ∷ [])
run_finalize cycle_id (some task) exec_err r = spawn (finalize_task cycle_id task exec_err) r

-- The `switch` of `execCommand`: a new job, or events at once. `failed` is what the synchronous call
-- of MarkWorkerOffline returns.
unfoldable pub exec_by : CommandType → Option Err → Command → Runtime → Runtime × List Event
unfolding run_execute run_finalize
exec_by CommandType.claim_strict failed cmd r =
    spawn (claim_strict cmd.cycle_id (request r.engine)) r
exec_by CommandType.claim_normal failed cmd r =
    spawn
      (claim_normal cmd.cycle_id (record {
        claim = request r.engine;
        group = cmd.group;
        weighted_labels = cmd.weighted_labels;
      }))
      r
exec_by CommandType.execute_task failed cmd r = run_execute cmd.cycle_id cmd.task r
exec_by CommandType.finalize failed cmd r = run_finalize cmd.cycle_id cmd.task cmd.exec_err r
exec_by CommandType.heartbeat failed cmd r = spawn (heartbeat r.engine.worker_id) r
exec_by CommandType.refresh_runtime_config failed cmd r =
    spawn (refresh r.engine.worker_id cmd.request_id) r
exec_by CommandType.ack_runtime_config failed cmd r =
    spawn (ack r.engine.worker_id cmd.request_id cmd.applied_version) r
exec_by CommandType.mark_offline failed cmd r =
    (handle_error failed (record r { offline = r.offline + 1 }), [])

unfoldable pub exec_command : Option Err → Command → Runtime → Runtime × List Event
unfolding exec_by handle_error
exec_command failed cmd r = exec_by cmd.type failed cmd r

unfoldable pub exec_commands : Option Err → List Command → Runtime → Runtime × List Event
unfolding exec_command
exec_commands failed [] r = (r, [])
exec_commands failed (cmd ∷ cmds) r =
    let (r', now) = exec_command failed cmd r in
    let (r'', later) = exec_commands failed cmds r' in (r'', now ++ later)

-- The loop of `processEvent`, on fuel; `none` means that the fuel ran out.
unfoldable pub process : ℕ → Option Err → List Event → Runtime → Option Runtime
process ℕ.zero failed [] r = some r
process (suc fuel) failed [] r = some r
process ℕ.zero failed (ev ∷ queue) r = none
process (suc fuel) failed (ev ∷ queue) r =
    let (e, commands) = apply r.engine ev in
    let (r', events) = exec_commands failed commands (record r { engine = e }) in
    process fuel failed (queue ++ events) r'

abbrev pub no_task_is_nil : Answer → Answer
no_task_is_nil a = elim a.err [
  | none ↦ a
  | some err ↦ if errors_is err Sentinel.no_task then record a { task = none; err = none } else a
]

-- A heartbeat failure stops the loop, unless the worker is shutting down anyway.
heartbeat_failed : Option Err → Runtime → Runtime
unfolding is_shutdown enqueue
heartbeat_failed none r = r
heartbeat_failed (some err) r =
    if is_shutdown err then r else enqueue (event EventType.stop) (handle_error (some err) r)

-- The end of a job: what its goroutine does with the port's answer.
unfoldable pub finish_job : Job → Answer → Runtime → Runtime
unfolding heartbeat_failed handle_error enqueue
finish_job (claim_strict cycle_id req) answer r =
    let a = no_task_is_nil answer in
    enqueue
      (record (event EventType.claim_strict_result) {
        cycle_id = cycle_id;
        task = a.task;
        err = a.err;
      })
      (handle_error a.err r)
finish_job (claim_normal cycle_id req) answer r =
    let a = no_task_is_nil answer in
    enqueue
      (record (event EventType.claim_normal_result) {
        cycle_id = cycle_id;
        task = a.task;
        err = a.err;
      })
      (handle_error a.err r)
finish_job (execute_task cycle_id task) answer r =
    enqueue (record (event EventType.execute_result) { cycle_id = cycle_id; exec_err = answer.err })
      r
finish_job (finalize_task cycle_id task exec_err) answer r =
    enqueue (record (event EventType.finalize_result) { cycle_id = cycle_id; err = answer.err })
      (handle_error answer.err r)
finish_job (heartbeat worker_id) answer r = heartbeat_failed answer.err r
finish_job (refresh worker_id request_id) answer r =
    enqueue
      (record (event EventType.runtime_config_loaded) {
        request_id = request_id;
        config = answer.config;
        err = answer.err;
      })
      (handle_error answer.err r)
finish_job (ack worker_id request_id version) answer r = handle_error answer.err r

-- The events that come from outside the loop: the tickers, a notification, a stop.
pub data External : EventType → Type 0 where
  poll : External EventType.poll_tick
  heart : External EventType.heartbeat_tick
  config : External EventType.runtime_config_tick
  notify : External EventType.runtime_config_notify
  stop : External EventType.stop

-- The operation of `startupCatchUpRuntimeConfig` on the loop, with what the port has answered; the
-- error is what the caller of it gets.
unfoldable pub catch_up : Answer → Runtime → Runtime × Option Err
unfolding apply_runtime_config
catch_up answer r = elim answer.err [
  | some err ↦ (r, some err)
  | none ↦ elim answer.config [
    | none ↦ (r, none)
    | some cfg ↦ (
      if ltb_ℤ r.engine.runtime_config_version cfg.version
          then record r { engine = apply_runtime_config r.engine cfg }
          else r,
      none,
    )
  ]
]

-- One step of the worker. Any job may end next; the loop takes the oldest event.
pub data Step : Runtime → Runtime → Type 0 where
  arrive : (ev : Event) (r : Runtime) → External ev.type → Step r (enqueue ev r)
  handle :
      (fuel : ℕ) (failed : Option Err) (ev : Event) (rest : List Event) (r r' : Runtime)
      → r.closed ≡ false
      → r.inbox ≡ ev ∷ rest
      → process fuel failed (ev ∷ []) (record r { inbox = rest }) ≡ some r'
      → Step r r'
  finish :
      (before after : List Job) (j : Job) (answer : Answer) (r : Runtime)
      → r.jobs ≡ before ++ j ∷ after
      → Step r (finish_job j answer (record r { jobs = before ++ after }))
  start_up : (answer : Answer) (r : Runtime) → r.closed ≡ false → Step r (catch_up answer r).0
  close : (r : Runtime) → Step r (record r { closed = true; inbox = [] })
