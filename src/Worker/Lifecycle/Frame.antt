-- ===== src/Worker/Lifecycle/Frame.antt =====
-- What pkg/taskcore/worker/lifecycle_handler.go changes: rows of this task and this worker only, and
-- it fails where there is none.
use anclax.Prelude.{ℕ, ◌≡◌, refl, Bool, true, false, inl, inr, Option, none, some, Bool-cases}
use anclax.Prelude.Int.{ℤ}
use anclax.Errors.{Err, Sentinel, errors_is}
use anclax.Api.{TaskCronjob, TaskRetryPolicy, TaskStatus, ApiTask}
use anclax.Db.{TaskRow, EventSpec, World, Reply, M, ◌>>=◌, throw, catch}
use anclax.Db.Tasks.{
  is_mine, update_task_status_by_worker, update_task_started_at_by_worker,
  release_task_lock_by_worker, insert_event, with_status_released, starting_at, released,
}
use anclax.Db.Effects.{
  Keeps, Keeps-bind, Keeps-catch, Keeps-statement, Keeps-update_one, Keeps-SameTasks, Kept-refl,
  Needs, Needs-first, Needs-later, Needs-catch, Needs-statement, Needs-update_one, SameTasks,
  SameTasks-insert_event, SameTasks-catch, succeeded,
}
use anclax.Worker.Lifecycle.{
  TaskLifeCycleHandler, lock_lost, update_status, update_started_at, release_lock,
  insert_task_error_event, insert_task_completed_event, notify_failed, report_unless,
  handle_permanent_failure, retry_later, fail_or_retry, override_or, handle_failed, complete_by,
  handle_completed, lift, failure_status_override, should_retry_task, next_retry_time,
  next_cron_time,
}

-- The rows that a handler may write for a task.
abbrev pub own : TaskLifeCycleHandler → ApiTask → TaskRow → Bool
own h task = is_mine task.id h.worker_id

-- What is assumed of the user's hook: it leaves the rows alone that the handler leaves alone.
abbrev pub HookKeeps : TaskLifeCycleHandler → ApiTask → Type 0
HookKeeps h task = Keeps (own h task) (notify_failed h.on_task_failed task)

lock_lost-fails : (e : Err) (w : World) → succeeded (lock_lost e w).1 ≡ false
lock_lost-fails e w = elim (Bool-cases (errors_is e Sentinel.no_rows)) [
  | inl h ↦ rw h refl
  | inr h ↦ rw h refl
]

lock_lost-SameTasks : (e : Err) → SameTasks (lock_lost e)
lock_lost-SameTasks e w = elim (Bool-cases (errors_is e Sentinel.no_rows)) [
  | inl h ↦ rw h refl
  | inr h ↦ rw h refl
]

-- A statement of the handler: it keeps the other rows, and needs one of its own.
abbrev Writes : TaskLifeCycleHandler → ApiTask → M (Unit {0}) → Type 0
Writes h task m = Keeps (own h task) m × Needs (own h task) m

guarded :
    (h : TaskLifeCycleHandler) (task : ApiTask) (m : M (Unit {0}))
    → Writes h task m
    → Writes h task (catch m lock_lost)
guarded h task m (k, n) = (
  Keeps-catch (own h task) m lock_lost k
      (λ e. Keeps-SameTasks (own h task) (lock_lost e) (lock_lost-SameTasks e)),
  Needs-catch (own h task) m lock_lost n lock_lost-fails,
)

update_status-Writes :
    (h : TaskLifeCycleHandler) (task : ApiTask) (status : TaskStatus)
    → Writes h task (update_status h task.id status)
unfolding update_status update_task_status_by_worker
update_status-Writes h task status =
    guarded h task (update_task_status_by_worker task.id status h.worker_id) (
      Keeps-statement (own h task) _
          (Keeps-update_one (own h task) (λ w. with_status_released status w.now)),
      Needs-statement (own h task) _
          (Needs-update_one (own h task) (λ w. with_status_released status w.now)),
    )

update_started_at-Writes :
    (h : TaskLifeCycleHandler) (task : ApiTask) (t : ℕ)
    → Writes h task (update_started_at h task.id t)
unfolding update_started_at update_task_started_at_by_worker
update_started_at-Writes h task t =
    guarded h task (update_task_started_at_by_worker task.id t h.worker_id) (
      Keeps-statement (own h task) _
          (Keeps-update_one (own h task) (λ w. starting_at (some t) w.now)),
      Needs-statement (own h task) _
          (Needs-update_one (own h task) (λ w. starting_at (some t) w.now)),
    )

pub release_lock-Writes :
    (h : TaskLifeCycleHandler) (task : ApiTask) → Writes h task (release_lock h task.id)
unfolding release_lock release_task_lock_by_worker
release_lock-Writes h task = guarded h task (release_task_lock_by_worker task.id h.worker_id) (
  Keeps-statement (own h task) _ (Keeps-update_one (own h task) (λ w. released w.now)),
  Needs-statement (own h task) _ (Needs-update_one (own h task) (λ w. released w.now)),
)

report_unless-SameTasks : (skip : Bool) (id : ℤ) (e : Err) → SameTasks (report_unless skip id e)
unfolding report_unless insert_task_error_event
report_unless-SameTasks true id e = λ w. refl
report_unless-SameTasks false id e =
    SameTasks-catch (insert_event (EventSpec.task_error id e)) _
      (SameTasks-insert_event (EventSpec.task_error id e)) (λ e w. refl)

completed_event-SameTasks : (id : ℤ) → SameTasks (insert_task_completed_event id)
unfolding insert_task_completed_event
completed_event-SameTasks id =
    SameTasks-catch (insert_event (EventSpec.task_completed id)) _
      (SameTasks-insert_event (EventSpec.task_completed id)) (λ e w. refl)

lift-SameTasks : {A : Type 0} (r : Reply A) → SameTasks (lift r)
lift-SameTasks r w = refl

first-Writes :
    {A : Type 0} (h : TaskLifeCycleHandler) (task : ApiTask) (m : M A) (f : A → M (Unit {0}))
    → Keeps (own h task) m × Needs (own h task) m
    → ((a : A) → Keeps (own h task) (f a))
    → Writes h task (m >>= f)
first-Writes h task m f (k, n) rest =
    (Keeps-bind (own h task) m f k rest, Needs-first (own h task) m f n)

later-Writes :
    {A : Type 0} (h : TaskLifeCycleHandler) (task : ApiTask) (m : M A) (f : A → M (Unit {0}))
    → SameTasks m
    → ((a : A) → Writes h task (f a))
    → Writes h task (m >>= f)
later-Writes h task m f same rest = (
  Keeps-bind (own h task) m f (Keeps-SameTasks (own h task) m same) (λ a. (rest a).0),
  Needs-later (own h task) m f same (λ a. (rest a).1),
)

throw-Writes : (h : TaskLifeCycleHandler) (task : ApiTask) (e : Err) → Writes h task (throw e)
throw-Writes h task e = (λ w. Kept-refl (own h task) w.db.tasks, λ w n. refl)

permanent-Writes :
    (h : TaskLifeCycleHandler) (task : ApiTask) (e : Err) (skip : Bool)
    → HookKeeps h task
    → Writes h task (handle_permanent_failure h task e skip)
unfolding handle_permanent_failure
permanent-Writes h task e skip hook =
    later-Writes h task (report_unless skip task.id e) _ (report_unless-SameTasks skip task.id e)
      λ _.
        first-Writes h task (update_status h task.id TaskStatus.failed) _
          (update_status-Writes h task TaskStatus.failed) (λ _. hook)

retry_later-Writes :
    (h : TaskLifeCycleHandler) (task : ApiTask) (e : Err) (policy : TaskRetryPolicy)
    → Writes h task (retry_later h task e policy)
unfolding retry_later
retry_later-Writes h task e policy =
    later-Writes h task (lift (next_retry_time h.parse_duration policy.interval h.now)) _
      (lift-SameTasks (next_retry_time h.parse_duration policy.interval h.now))
      λ t.
        first-Writes h task (update_started_at h task.id t) _ (update_started_at-Writes h task t)
          λ _.
            (later-Writes h task
              (report_unless (errors_is e Sentinel.retry_task_without_error_event) task.id e) _
              (report_unless-SameTasks (errors_is e Sentinel.retry_task_without_error_event) task.id
                e)
              (λ _. release_lock-Writes h task)).0

fail_or_retry-Writes :
    (h : TaskLifeCycleHandler) (task : ApiTask) (e : Err) (policy : Option TaskRetryPolicy)
    (retry : Bool)
    → HookKeeps h task
    → Writes h task (fail_or_retry h task e policy retry)
fail_or_retry-Writes h task e (some policy) true hook = retry_later-Writes h task e policy
fail_or_retry-Writes h task e none true hook = permanent-Writes h task e false hook
fail_or_retry-Writes h task e (some policy) false hook = permanent-Writes h task e false hook
fail_or_retry-Writes h task e none false hook = permanent-Writes h task e false hook

override_or-Writes :
    (h : TaskLifeCycleHandler) (task : ApiTask) (e : Err) (status : Option TaskStatus)
    → HookKeeps h task
    → Writes h task (override_or h task e status)
override_or-Writes h task e (some status) hook = update_status-Writes h task status
override_or-Writes h task e none hook =
    fail_or_retry-Writes h task e task.attributes.retry_policy
      (should_retry_task e task.attributes.retry_policy task.attempts) hook

pub handle_failed-Writes :
    (h : TaskLifeCycleHandler) (task : ApiTask) (e : Err)
    → HookKeeps h task
    → Keeps (own h task) (handle_failed h task (some e))
      × Needs (own h task) (handle_failed h task (some e))
unfolding handle_failed
handle_failed-Writes h task e hook = elim (Bool-cases (errors_is e Sentinel.task_lock_lost)) [
  | inl lost ↦ rw (lost, handle_failed) (throw-Writes h task (Err.sentinel Sentinel.task_lock_lost))
  | inr other ↦
      rw (other, handle_failed) (override_or-Writes h task e (failure_status_override e) hook)
]

complete_by-Writes :
    (h : TaskLifeCycleHandler) (task : ApiTask) (cronjob : Option TaskCronjob)
    → Writes h task (complete_by h task cronjob)
complete_by-Writes h task (some cronjob) =
    later-Writes h task (lift (next_cron_time h.parse_cron cronjob.cron_expression h.now)) _
      (lift-SameTasks (next_cron_time h.parse_cron cronjob.cron_expression h.now))
      λ t.
        first-Writes h task (update_started_at h task.id t) _ (update_started_at-Writes h task t)
          λ _. (release_lock-Writes h task).0
complete_by-Writes h task none =
    first-Writes h task (update_status h task.id TaskStatus.completed) _
      (update_status-Writes h task TaskStatus.completed)
      λ _.
        Keeps-SameTasks (own h task) (insert_task_completed_event task.id)
          (completed_event-SameTasks task.id)

pub handle_completed-Writes :
    (h : TaskLifeCycleHandler) (task : ApiTask)
    → Keeps (own h task) (handle_completed h task) × Needs (own h task) (handle_completed h task)
unfolding handle_completed
handle_completed-Writes h task = complete_by-Writes h task task.attributes.cronjob
