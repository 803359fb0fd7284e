-- ===== src/Worker/Port/Refresh.antt =====
-- How a worker learns from the lock refresh of pkg/taskcore/worker/model_port.go that its task was
-- paused, cancelled or taken.
use anclax.Prelude.{◌≡◌, refl, ◌&&◌, Bool, true, false, none, some}
use anclax.Prelude.Int.{ℤ}
use anclax.Errors.{errors_is}
use anclax.Db.{TaskRow, World, ok, statement}
use anclax.Db.Tasks.{
  any_row, find_row, is_task, is_mine, is_refreshable, update_one, update_rows, refresh_task_lock,
  get_task_by_id,
}
use anclax.Db.Effects.{calm, with_tasks, update_rows-none}
use anclax.Worker.Port.{ModelPort, cause_of_status, task_interrupt_cause_from_store, refresh_tick}

-- The rows whose lock the worker can refresh.
abbrev pub refreshable : ModelPort → ℤ → TaskRow → Bool
refreshable p id r = is_mine id p.handler.worker_id r && is_refreshable r.status

cause-calm :
    (id : ℤ) (w : World) (r : TaskRow)
    → find_row (is_task id) w.db.tasks ≡ some r
    → task_interrupt_cause_from_store id (calm w) ≡ (calm w, ok (cause_of_status r.status))
unfolding task_interrupt_cause_from_store get_task_by_id statement
cause-calm id w r here = rw here refl

-- A tick, when no statement fails, that finds the row no longer refreshable, since it is paused,
-- cancelled, finished or another worker's, ends the execution with the cause that the row's status
-- gives, and changes nothing.
pub refresh_tick-cause :
    (p : ModelPort) (id : ℤ) (w : World) (r : TaskRow)
    → any_row (refreshable p id) w.db.tasks ≡ false
    → find_row (is_task id) w.db.tasks ≡ some r
    → refresh_tick p id (calm w) ≡ (calm w, ok (some (cause_of_status r.status)))
unfolding refresh_tick refresh_task_lock statement update_one errors_is
refresh_tick-cause p id w r lost here = rw lost (
    rw
      (update_rows-none (refreshable p id)
        (λ x. record x { locked_at = some w.now; updated_at = w.now }) w.db.tasks lost)
      (rw (cause-calm id w r here) refl))

-- A tick, when no statement fails, that finds the row refreshable extends the lock and goes on.
refresh_tick-extends :
    (p : ModelPort) (id : ℤ) (w : World)
    → any_row (refreshable p id) w.db.tasks ≡ true
    → refresh_tick p id (calm w) ≡ (
      with_tasks
          (update_rows
            (refreshable p id)
            (λ x. record x { locked_at = some w.now; updated_at = w.now }))
          (calm w),
      ok none,
    )
unfolding refresh_tick refresh_task_lock statement update_one
refresh_tick-extends p id w held = rw held refl
