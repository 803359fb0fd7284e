-- ===== src/Worker/Lifecycle/Outcomes.antt =====
-- What pkg/taskcore/worker/lifecycle_handler.go makes of the row that the worker holds, when no
-- statement fails.
use anclax.Prelude.{
  ℕ, ◌≡◌, refl, ap, ◌∙◌, Bool, true, false, List, Option, none, some, if◌then◌else◌,
}
use anclax.Prelude.Int.{ℤ}
use anclax.Errors.{Err, Sentinel, errors_is}
use anclax.Api.{TaskCronjob, TaskRetryPolicy, TaskStatus, ApiTask}
use anclax.Db.{TaskRow, EventSpec, World, ok, statement}
use anclax.Db.Tasks.{
  any_row, update_rows, update_one, insert_event, update_task_status_by_worker,
  update_task_started_at_by_worker, release_task_lock_by_worker, with_status_released, starting_at,
  released,
}
use anclax.Db.Effects.{calm, with_tasks, logged, any_row-update, update_rows-twice}
use anclax.Worker.Lifecycle.{
  TaskLifeCycleHandler, update_status, update_started_at, release_lock, insert_task_error_event,
  insert_task_completed_event, report_unless, notify_failed, handle_permanent_failure,
  fail_or_retry, handle_failed, handle_completed, failure_status_override, should_retry_task,
  next_cron_time,
}
use anclax.Worker.Lifecycle.Frame.{own}

-- The handler's rows, changed by `f`.
abbrev pub settle : TaskLifeCycleHandler → ApiTask → (TaskRow → TaskRow) → World → World
settle h task f w = with_tasks (update_rows (own h task) f) w

pub update_status-settles :
    (h : TaskLifeCycleHandler) (task : ApiTask) (status : TaskStatus) (w : World)
    → any_row (own h task) w.db.tasks ≡ true
    → update_status h task.id status (calm w)
      ≡ (settle h task (with_status_released status w.now) (calm w), ok tt)
unfolding update_status update_task_status_by_worker statement update_one
update_status-settles h task status w mine = rw mine refl

update_started_at-settles :
    (h : TaskLifeCycleHandler) (task : ApiTask) (t : ℕ) (w : World)
    → any_row (own h task) w.db.tasks ≡ true
    → update_started_at h task.id t (calm w)
      ≡ (settle h task (starting_at (some t) w.now) (calm w), ok tt)
unfolding update_started_at update_task_started_at_by_worker statement update_one
update_started_at-settles h task t w mine = rw mine refl

release_lock-settles :
    (h : TaskLifeCycleHandler) (task : ApiTask) (w : World)
    → any_row (own h task) w.db.tasks ≡ true
    → release_lock h task.id (calm w) ≡ (settle h task (released w.now) (calm w), ok tt)
unfolding release_lock release_task_lock_by_worker statement update_one
release_lock-settles h task w mine = rw mine refl

-- A rescheduled row: due at `t`, free, and as pending as before.
abbrev pub rescheduled : ℕ → ℕ → TaskRow → TaskRow
rescheduled t now r = released now (starting_at (some t) now r)

-- The completion of a task that is no cron job completes the row that the worker holds, releases it
-- and logs it, when no statement fails.
pub handle_completed-once :
    (h : TaskLifeCycleHandler) (task : ApiTask) (w : World)
    → any_row (own h task) w.db.tasks ≡ true
    → task.attributes.cronjob ≡ none
    → handle_completed h task (calm w) ≡ (
      logged
          (EventSpec.task_completed task.id)
          (settle h task (with_status_released TaskStatus.completed w.now) (calm w)),
      ok tt,
    )
unfolding handle_completed insert_task_completed_event insert_event statement
handle_completed-once h task w mine plain =
    rw (plain, handle_completed)
      (rw (update_status-settles h task TaskStatus.completed w mine) refl)

still_mine :
    (h : TaskLifeCycleHandler) (task : ApiTask) (t now : ℕ) (rows : List TaskRow)
    → any_row (own h task) rows ≡ true
    → any_row (own h task) (update_rows (own h task) (starting_at (some t) now) rows) ≡ true
still_mine h task t now rows mine =
    any_row-update (own h task) (starting_at (some t) now) rows (λ r. refl) ∙ mine

at_once :
    (h : TaskLifeCycleHandler) (task : ApiTask) (t now : ℕ) (rows : List TaskRow)
    → update_rows
        (own h task)
        (released now)
        (update_rows (own h task) (starting_at (some t) now) rows)
      ≡ update_rows (own h task) (rescheduled t now) rows
at_once h task t now rows =
    update_rows-twice (own h task) (starting_at (some t) now) (released now) rows (λ r. refl)

-- The completion of a cron job whose expression parses makes the row that the worker holds due at
-- the next time and free in one change, when no statement fails.
handle_completed-cron :
    (h : TaskLifeCycleHandler) (task : ApiTask) (w : World) (c : TaskCronjob) (next : ℕ → ℕ)
    → any_row (own h task) w.db.tasks ≡ true
    → task.attributes.cronjob ≡ some c
    → h.parse_cron c.cron_expression ≡ ok next
    → handle_completed h task (calm w)
      ≡ (settle h task (rescheduled (next h.now) w.now) (calm w), ok tt)
unfolding handle_completed next_cron_time
handle_completed-cron h task w c next mine cron parsed =
    rw (cron, handle_completed)
      (rw (parsed, next_cron_time)
        (rw (update_started_at-settles h task (next h.now) w mine) (
          rw
            (release_lock-settles h task
              (settle h task (starting_at (some (next h.now)) w.now) (calm w))
              (still_mine h task (next h.now) w.now w.db.tasks mine))
            (ap (λ rows. (with_tasks (λ _. rows) (calm w), ok tt))
              (at_once h task (next h.now) w.now w.db.tasks)))))

report-settles :
    (skip : Bool) (id : ℤ) (e : Err) (w : World)
    → report_unless skip id e (calm w)
      ≡ ((if skip then calm w else logged (EventSpec.task_error id e) (calm w)), ok tt)
unfolding report_unless insert_task_error_event insert_event statement
report-settles true id e w = refl
report-settles false id e w = refl

-- An execution that ends because the task was paused or cancelled, and not by a lost lock, gives
-- the row that the worker holds that status and releases it, and logs nothing, when no statement
-- fails.
pub handle_failed-override :
    (h : TaskLifeCycleHandler) (task : ApiTask) (w : World) (e : Err) (status : TaskStatus)
    → any_row (own h task) w.db.tasks ≡ true
    → errors_is e Sentinel.task_lock_lost ≡ false
    → failure_status_override e ≡ some status
    → handle_failed h task (some e) (calm w)
      ≡ (settle h task (with_status_released status w.now) (calm w), ok tt)
unfolding handle_failed
handle_failed-override h task w e status mine kept over =
    rw (kept, handle_failed) (rw over (update_status-settles h task status w mine))

permanent-settles :
    (h : TaskLifeCycleHandler) (task : ApiTask) (w : World) (e : Err)
    → any_row (own h task) w.db.tasks ≡ true
    → handle_permanent_failure h task e false (calm w)
      ≡ notify_failed h.on_task_failed task (
          settle h task
            (with_status_released TaskStatus.failed w.now)
            (logged (EventSpec.task_error task.id e) (calm w)))
unfolding handle_permanent_failure
permanent-settles h task w e mine = rw (report-settles false task.id e w) (
    rw
      (update_status-settles h task TaskStatus.failed
        (logged (EventSpec.task_error task.id e) (calm w)) mine)
      refl)

-- A failure that is no lost lock, pause or cancellation, and is not retried, is logged, fails the
-- row that the worker holds and releases it, and the user's hook runs last, on that state, when no
-- statement fails.
pub handle_failed-permanent :
    (h : TaskLifeCycleHandler) (task : ApiTask) (w : World) (e : Err)
    → any_row (own h task) w.db.tasks ≡ true
    → errors_is e Sentinel.task_lock_lost ≡ false
    → failure_status_override e ≡ none
    → should_retry_task e task.attributes.retry_policy task.attempts ≡ false
    → handle_failed h task (some e) (calm w)
      ≡ notify_failed h.on_task_failed task (
          settle h task
            (with_status_released TaskStatus.failed w.now)
            (logged (EventSpec.task_error task.id e) (calm w)))
unfolding handle_failed
handle_failed-permanent h task w e mine kept plain final =
    rw (kept, handle_failed) (rw (plain, final) (stop task.attributes.retry_policy))
  where
    stop :
        (policy : Option TaskRetryPolicy)
        → fail_or_retry h task e policy false (calm w)
          ≡ notify_failed h.on_task_failed task (
              settle h task
                (with_status_released TaskStatus.failed w.now)
                (logged (EventSpec.task_error task.id e) (calm w)))
    stop none = permanent-settles h task w e mine
    stop (some policy) = permanent-settles h task w e mine
