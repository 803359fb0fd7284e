-- ===== src/Worker/Port.antt =====
-- How the runtime reaches the store: pkg/taskcore/worker/model_port.go. A context's cancellation cause
-- and the user's task handler are parameters.
pub mod Finalize
pub mod Refresh
pub mod Registry
pub mod Workers
pub mod Versions
pub mod CaughtUp
use anclax.Prelude.{
  ℕ, suc, ◌+◌, ◌-◌, Bool, true, false, ◌||◌, not, String, List, [], ◌∷◌, ◌++◌, Option, none, some,
  if◌then◌else◌, ◌==◌, nat_eq,
}
use anclax.Prelude.Int.{ℤ, pos, int_eq, ℤ_eq}
use anclax.Prelude.Dict.{lookup, insert, erase}
use anclax.Prelude.Unique.{unique_from}
use anclax.Errors.{Err, Sentinel, errors_is}
use anclax.Api.{TaskStatus, TaskAttributes, ApiTask, no_task}
use anclax.Worker.Types.{Task}
use anclax.Db.{
  TaskRow, World, Reply, ok, fail, M, ◌>>=◌, ◌>>◌, return, throw, catch, after, recover,
  run_transaction,
}
use anclax.Db.Tasks.{release_task_lock_by_worker, refresh_task_lock, get_task_by_id}
use anclax.Db.Claims.{Claimer, claim_strict_task, claim_normal_task_by_group, claim_task_by_id}
use anclax.Worker.Lifecycle.{
  TaskLifeCycleHandler, lock_lost, handle_attributes, handle_failed, handle_completed,
}

-- The lock expiry that the claims compute is `now` less the lock's time to live.
pub record ModelPort : Type 0 where
  pub labels : List String
  pub lock_ttl : ℕ
  pub handler : TaskLifeCycleHandler

abbrev pub claimer : ModelPort → Claimer
claimer p = record {
  worker_id = p.handler.worker_id;
  lock_expiry = p.handler.now - p.lock_ttl;
  labels = p.labels;
}

abbrev or_zero : Option ℤ → ℤ → ℤ
or_zero none z = z
or_zero (some n) z = n

-- taskFromQuerier over TaskToAPI: a priority that the attributes lack is that of the column.
unfoldable pub task_from_querier : TaskRow → Task
task_from_querier r = record {
  id = r.id;
  priority = or_zero r.attributes.priority r.priority;
  attempts = r.attempts;
  attributes = record r.attributes {
    priority = some (or_zero r.attributes.priority r.priority);
    weight = some (or_zero r.attributes.weight r.weight);
  };
  spec = r.spec;
}

abbrev pub task_to_api : Task → ApiTask
task_to_api t = record no_task {
  id = t.id;
  attempts = t.attempts;
  attributes = t.attributes;
  spec = t.spec;
}

-- The body of the claiming transactions: no row is no error there.
abbrev pub claim_body : M TaskRow → M (Option Task)
claim_body query =
    catch (query >>= λ r. return (some (task_from_querier r)))
      (λ e. if errors_is e Sentinel.no_rows then return none else throw e)

abbrev pub or_no_task : Option Task → M Task
or_no_task none = throw (Err.sentinel Sentinel.no_task)
or_no_task (some t) = return t

unfoldable pub claim_with : String → M TaskRow → M Task
unfolding run_transaction
claim_with text query =
    catch (run_transaction false (claim_body query)) (λ e. throw (Err.wrap text e)) >>= or_no_task

unfoldable pub claim_strict : ModelPort → M Task
unfolding claim_with
claim_strict p = claim_with "claim strict task" (claim_strict_task (claimer p))

unfoldable pub claim_normal_by_group : ModelPort → String → List String → M Task
unfolding claim_with
claim_normal_by_group p group weighted =
    claim_with "claim normal task" (claim_normal_task_by_group (claimer p) group weighted)

unfoldable pub claim_by_id : ModelPort → ℤ → M Task
unfolding claim_with
claim_by_id p id = claim_with "claim task by id" (claim_task_by_id id (claimer p))

-- The cause of a cancelled context, if it is one of the control plane's.
unfoldable pub task_interrupt_cause : Option Err → Option Err
task_interrupt_cause none = none
task_interrupt_cause (some cause) =
    if errors_is cause Sentinel.task_cancelled
    then some (Err.sentinel Sentinel.task_cancelled)
    else if errors_is cause Sentinel.task_paused
    then some (Err.sentinel Sentinel.task_paused)
    else if errors_is cause Sentinel.task_interrupted
    then some (Err.sentinel Sentinel.task_interrupted)
    else none

abbrev pub or_else : Option Err → Err → Err
or_else none e = e
or_else (some c) e = c

abbrev pub throw_if : Option Err → M (Unit {0})
throw_if none = return tt
throw_if (some e) = throw e

abbrev pub timeout_error : (String → Reply ℤ) → Option String → Option Err
timeout_error parse none = none
timeout_error parse (some text) = failed (parse text)
  where
    failed : Reply ℤ → Option Err
    failed (ok d) = none
    failed (fail e) = some (Err.wrap "failed to parse timeout" e)

abbrev pub attributes_failed : Option Err → Err → M (Unit {0})
attributes_failed cause e = throw (
    or_else (task_interrupt_cause cause) (
      if errors_is e Sentinel.task_lock_lost
      then Err.sentinel Sentinel.skip_finalize
      else Err.wrap "handle task attributes" e))

abbrev pub run_handler : Option (Task → M (Unit {0})) → Option Err → Task → M (Unit {0})
run_handler none cause task = throw_if (task_interrupt_cause cause)
run_handler (some handle) cause task =
    catch (handle task) (λ e. throw (or_else (task_interrupt_cause cause) e))
    >> throw_if (task_interrupt_cause cause)

abbrev pub execute_from :
    ModelPort → Option (Task → M (Unit {0})) → Option Err → Task → Option Err → M (Unit {0})
execute_from p handler cause task (some e) = throw e
execute_from p handler cause task none =
    catch (run_transaction false (handle_attributes p.handler (task_to_api task)))
      (attributes_failed cause)
    >> run_handler handler cause task

-- ExecuteTask behind the registration; `cause` is what the context gives when the code asks for it.
unfoldable pub execute_task :
    ModelPort → Option (Task → M (Unit {0})) → Option Err → Task → M (Unit {0})
execute_task p handler cause task =
    execute_from p handler cause task
      (timeout_error p.handler.parse_duration task.attributes.timeout)

abbrev pub release_task_lock : ModelPort → ℤ → M (Unit {0})
release_task_lock p id =
    run_transaction false (catch (release_task_lock_by_worker id p.handler.worker_id) lock_lost)

-- A lost lock is no error of the finalization.
abbrev pub unless_lost : String → Err → M (Unit {0})
unless_lost text e =
    if errors_is e Sentinel.task_lock_lost then return tt else throw (Err.wrap text e)

unfoldable pub finalize_failed : ModelPort → Task → Err → M (Unit {0})
finalize_failed p task exec_err =
    if errors_is exec_err Sentinel.skip_finalize
    then return tt
    else if errors_is exec_err Sentinel.task_interrupted
    then catch (release_task_lock p task.id) (unless_lost "finalize interrupted task")
    else catch (run_transaction false (handle_failed p.handler (task_to_api task) (some exec_err)))
        (unless_lost "finalize failed task")

unfoldable pub finalize_completed : ModelPort → Task → M (Unit {0})
finalize_completed p task =
    catch (run_transaction false (handle_completed p.handler (task_to_api task)))
      (unless_lost "finalize completed task")

unfoldable pub finalize_task : ModelPort → Task → Option Err → M (Unit {0})
finalize_task p task none = finalize_completed p task
finalize_task p task (some exec_err) = finalize_failed p task exec_err

-- What a worker that lost its lock takes for the cause.
abbrev pub cause_of_status : TaskStatus → Err
cause_of_status TaskStatus.paused = Err.sentinel Sentinel.task_paused
cause_of_status TaskStatus.cancelled = Err.sentinel Sentinel.task_cancelled
cause_of_status _ = Err.sentinel Sentinel.task_interrupted

unfoldable pub task_interrupt_cause_from_store : ℤ → M Err
task_interrupt_cause_from_store id =
    catch (get_task_by_id id >>= λ r. return (cause_of_status r.status))
      (λ e. return (Err.sentinel Sentinel.task_interrupted))

-- One tick of the lock refresh: the cause to interrupt the task with, if it ends here.
unfoldable pub refresh_tick : ModelPort → ℤ → M (Option Err)
unfolding task_interrupt_cause_from_store
refresh_tick p id = catch (refresh_task_lock id p.handler.worker_id >> return none) (λ e.
    if errors_is e Sentinel.no_rows
    then (task_interrupt_cause_from_store id >>= λ cause. return (some cause))
    else return none)
