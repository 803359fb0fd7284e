-- ===== src/Worker/Lifecycle.antt =====
-- How an execution is recorded: pkg/taskcore/worker/lifecycle_handler.go. `time.ParseDuration`, the
-- cron library and the user's `OnTaskFailed` are parameters, in the handler's record.
pub mod Frame
pub mod Outcomes
use anclax.Prelude.{
  ℕ, ◌+◌, ◌-◌, Bool, true, false, not, String, Option, none, some, if◌then◌else◌, string_eq, str_eq,
}
use anclax.Prelude.Int.{ℤ, pos, ltb_ℤ, pos_part, neg_part}
use anclax.Errors.{Err, Sentinel, errors_is}
use anclax.Api.{TaskCronjob, TaskRetryPolicy, TaskStatus, TaskSpec, ApiTask}
use anclax.Db.{EventSpec, World, Reply, ok, fail, M, ◌>>=◌, ◌>>◌, return, throw, catch}
use anclax.Db.Tasks.{
  update_task_status_by_worker, update_task_started_at_by_worker, release_task_lock_by_worker,
  insert_event,
}

-- `now` is the handler's clock at the call; `parse_cron` gives the schedule's `Next`.
pub record TaskLifeCycleHandler : Type 0 where
  pub worker_id : ℕ
  pub now : ℕ
  pub parse_duration : String → Reply ℤ
  pub parse_cron : String → Reply (ℕ → ℕ)
  pub on_task_failed : Option (TaskSpec → ℤ → M (Unit {0}))

-- time.Time's Add; no duration reaches back before the origin of time stamps.
abbrev pub add_time : ℕ → ℤ → ℕ
add_time t d = t + pos_part d - neg_part d

unfoldable pub failure_status_override : Err → Option TaskStatus
failure_status_override exec_err =
    if errors_is exec_err Sentinel.task_cancelled
    then some TaskStatus.cancelled
    else if errors_is exec_err Sentinel.task_paused
    then some TaskStatus.paused
    else none

abbrev within_policy : Option TaskRetryPolicy → ℤ → Bool
within_policy none attempts = false
within_policy (some policy) attempts =
    if ltb_ℤ policy.max_attempts (pos 0) then true else ltb_ℤ attempts policy.max_attempts

unfoldable pub should_retry_task : Err → Option TaskRetryPolicy → ℤ → Bool
should_retry_task exec_err policy attempts =
    if errors_is exec_err Sentinel.fatal_task then false else within_policy policy attempts

abbrev pub shift : ℕ → Reply ℤ → Reply ℕ
shift now (ok d) = ok (add_time now d)
shift now (fail e) = fail (Err.wrap "invalid retry policy interval" e)

unfoldable pub next_retry_time : (String → Reply ℤ) → String → ℕ → Reply ℕ
next_retry_time parse_duration interval now =
    if str_eq interval ""
    then fail (Err.message "retry policy interval is empty")
    else shift now (parse_duration interval)

abbrev pub fire : ℕ → Reply (ℕ → ℕ) → Reply ℕ
fire now (ok next) = ok (next now)
fire now (fail e) = fail (Err.wrap "invalid cron expression" e)

unfoldable pub next_cron_time : (String → Reply (ℕ → ℕ)) → String → ℕ → Reply ℕ
next_cron_time parse_cron expr now = fire now (parse_cron expr)

-- A statement that finds no row of this worker: the lock is lost.
abbrev pub lock_lost : Err → M (Unit {0})
lock_lost e =
    if errors_is e Sentinel.no_rows then throw (Err.sentinel Sentinel.task_lock_lost) else throw e

unfoldable pub update_status : TaskLifeCycleHandler → ℤ → TaskStatus → M (Unit {0})
update_status h id status = catch (update_task_status_by_worker id status h.worker_id) lock_lost

unfoldable pub update_started_at : TaskLifeCycleHandler → ℤ → ℕ → M (Unit {0})
update_started_at h id started_at =
    catch (update_task_started_at_by_worker id started_at h.worker_id) lock_lost

unfoldable pub release_lock : TaskLifeCycleHandler → ℤ → M (Unit {0})
release_lock h id = catch (release_task_lock_by_worker id h.worker_id) lock_lost

-- The event keeps the error, of which the code stores the text.
unfoldable pub insert_task_error_event : ℤ → Err → M (Unit {0})
insert_task_error_event id exec_err =
    catch (insert_event (EventSpec.task_error id exec_err))
      (λ e. throw (Err.wrap "insert task error event" e))

unfoldable pub report_unless : Bool → ℤ → Err → M (Unit {0})
report_unless true id exec_err = return tt
report_unless false id exec_err = insert_task_error_event id exec_err

unfoldable pub insert_task_completed_event : ℤ → M (Unit {0})
insert_task_completed_event id =
    catch (insert_event (EventSpec.task_completed id))
      (λ e. throw (Err.wrap "insert task completed event" e))

-- The hook's error is logged at most.
unfoldable pub notify_failed : Option (TaskSpec → ℤ → M (Unit {0})) → ApiTask → M (Unit {0})
notify_failed none task = return tt
notify_failed (some hook) task = catch (hook task.spec task.id) (λ e. return tt)

unfoldable pub handle_permanent_failure : TaskLifeCycleHandler → ApiTask → Err → Bool → M (Unit {0})
handle_permanent_failure h task exec_err skip = do
  report_unless skip task.id exec_err
  update_status h task.id TaskStatus.failed
  notify_failed h.on_task_failed task

abbrev pub lift : {A : Type 0} → Reply A → M A
lift r w = (w, r)

-- The branch of `HandleFailed` that schedules a retry.
unfoldable pub retry_later : TaskLifeCycleHandler → ApiTask → Err → TaskRetryPolicy → M (Unit {0})
unfolding next_retry_time
retry_later h task exec_err policy = do
  next_time ← lift (next_retry_time h.parse_duration policy.interval h.now)
  update_started_at h task.id next_time
  report_unless (errors_is exec_err Sentinel.retry_task_without_error_event) task.id exec_err
  release_lock h task.id

abbrev pub fail_or_retry :
    TaskLifeCycleHandler → ApiTask → Err → Option TaskRetryPolicy → Bool → M (Unit {0})
fail_or_retry h task exec_err (some policy) true = retry_later h task exec_err policy
fail_or_retry h task exec_err none true = handle_permanent_failure h task exec_err false
fail_or_retry h task exec_err policy false = handle_permanent_failure h task exec_err false

abbrev pub override_or : TaskLifeCycleHandler → ApiTask → Err → Option TaskStatus → M (Unit {0})
override_or h task exec_err (some status) = update_status h task.id status
override_or h task exec_err none =
    fail_or_retry h task exec_err task.attributes.retry_policy
      (should_retry_task exec_err task.attributes.retry_policy task.attempts)

unfoldable pub handle_failed : TaskLifeCycleHandler → ApiTask → Option Err → M (Unit {0})
handle_failed h task none = return tt
handle_failed h task (some exec_err) =
    if errors_is exec_err Sentinel.task_lock_lost
    then throw (Err.sentinel Sentinel.task_lock_lost)
    else override_or h task exec_err (failure_status_override exec_err)

abbrev pub complete_by : TaskLifeCycleHandler → ApiTask → Option TaskCronjob → M (Unit {0})
complete_by h task (some cronjob) = do
  next_time ← lift (next_cron_time h.parse_cron cronjob.cron_expression h.now)
  update_started_at h task.id next_time
  release_lock h task.id
complete_by h task none = do
  update_status h task.id TaskStatus.completed
  insert_task_completed_event task.id

unfoldable pub handle_completed : TaskLifeCycleHandler → ApiTask → M (Unit {0})
handle_completed h task = complete_by h task task.attributes.cronjob

unfoldable pub handle_attributes : TaskLifeCycleHandler → ApiTask → M (Unit {0})
handle_attributes h task = return tt
