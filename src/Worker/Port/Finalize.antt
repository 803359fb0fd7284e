-- ===== src/Worker/Port/Finalize.antt =====
-- How a finalization of pkg/taskcore/worker/model_port.go leaves the store.
use anclax.Prelude.{
  ◌≡◌, refl, ap, Bool, true, false, inl, inr, String, Option, none, some, Bool-cases,
}
use anclax.Errors.{Err, Sentinel, errors_is}
use anclax.Api.{TaskStatus}
use anclax.Db.{TaskRow, EventSpec, World, ok, M, run_transaction, commit, statement, recover, catch}
use anclax.Db.Tasks.{any_row, update_rows, is_mine, with_status_released}
use anclax.Db.Effects.{
  Keeps, Keeps-catch, Keeps-SameTasks, Keeps-run_transaction, Kept, Kept-refl, Needs,
  Needs-run_transaction, SameDb, catch-db, catch-failed, run_transaction-failed, succeeded, calm,
  with_tasks, logged,
}
use anclax.Worker.Types.{Task}
use anclax.Worker.Lifecycle.{handle_failed, handle_completed, release_lock, failure_status_override}
use anclax.Worker.Lifecycle.Outcomes.{settle, handle_failed-override, handle_completed-once}
use anclax.Worker.Lifecycle.Frame.{
  own, HookKeeps, handle_failed-Writes, handle_completed-Writes, release_lock-Writes,
}
use anclax.Worker.Port.{
  ModelPort, task_to_api, unless_lost, finalize_failed, finalize_completed, finalize_task,
}

unless_lost-SameDb : (text : String) (e : Err) → SameDb (unless_lost text e)
unless_lost-SameDb text e w = elim (Bool-cases (errors_is e Sentinel.task_lock_lost)) [
  | inl h ↦ rw h refl
  | inr h ↦ rw h refl
]

-- What holds of each transaction of a finalization.
abbrev Settles : ModelPort → Task → M (Unit {0}) → Type 0
Settles p task m =
    Keeps (own p.handler (task_to_api task)) m
    × ((w : World)
        → any_row (own p.handler (task_to_api task)) w.db.tasks ≡ false
        → (m w).0.db ≡ w.db)
    × ((w : World) → succeeded (m w).1 ≡ false → (m w).0.db ≡ w.db)

settled :
    (p : ModelPort) (task : Task) (text : String) (body : M (Unit {0}))
    → Keeps (own p.handler (task_to_api task)) body × Needs (own p.handler (task_to_api task)) body
    → Settles p task (catch (run_transaction false body) (unless_lost text))
settled p task text body (k, n) = (
  Keeps-catch mine (run_transaction false body) (unless_lost text)
      (Keeps-run_transaction mine false body k)
      (λ e.
        Keeps-SameTasks mine (unless_lost text e)
          (λ w. ap (λ d. d.tasks) (unless_lost-SameDb text e w))),
  λ w none_mine.
      catch-db (run_transaction false body) (unless_lost text) w w.db
        (run_transaction-failed false body w (Needs-run_transaction mine body n w none_mine))
        (unless_lost-SameDb text),
  λ w failed.
      catch-db (run_transaction false body) (unless_lost text) w w.db
        (run_transaction-failed false body w
          (catch-failed (run_transaction false body) (unless_lost text) w failed))
        (unless_lost-SameDb text),
)
  where
    mine : TaskRow → Bool
    mine = own p.handler (task_to_api task)

finalize_failed-Settles :
    (p : ModelPort) (task : Task) (e : Err)
    → HookKeeps p.handler (task_to_api task)
    → Settles p task (finalize_failed p task e)
unfolding finalize_failed release_lock
finalize_failed-Settles p task e hook = elim (Bool-cases (errors_is e Sentinel.skip_finalize)) [
  | inl skipped ↦
      rw skipped
        (λ w. Kept-refl (own p.handler (task_to_api task)) w.db.tasks, λ w n. refl, λ w n. refl)
  | inr other ↦ rw other (elim (Bool-cases (errors_is e Sentinel.task_interrupted)) [
    | inl interrupted ↦ rw interrupted (
        settled p task "finalize interrupted task" (release_lock p.handler task.id)
          (release_lock-Writes p.handler (task_to_api task)))
    | inr own_error ↦ rw own_error (
        settled p task "finalize failed task" (handle_failed p.handler (task_to_api task) (some e))
          (handle_failed-Writes p.handler (task_to_api task) e hook))
  ])
]

finalize_task-Settles :
    (p : ModelPort) (task : Task) (e : Option Err)
    → HookKeeps p.handler (task_to_api task)
    → Settles p task (finalize_task p task e)
unfolding finalize_task finalize_completed
finalize_task-Settles p task none hook =
    settled p task "finalize completed task" (handle_completed p.handler (task_to_api task))
      (handle_completed-Writes p.handler (task_to_api task))
finalize_task-Settles p task (some e) hook = finalize_failed-Settles p task e hook

-- A worker that does not hold the task's lock changes nothing by finalizing it, whatever the outcome of
-- the execution and whichever statements fail, if the user's hook writes no row but the task's own.
pub finalize_task-stranger :
    (p : ModelPort) (task : Task) (e : Option Err) (w : World)
    → HookKeeps p.handler (task_to_api task)
    → any_row (is_mine task.id p.handler.worker_id) w.db.tasks ≡ false
    → (finalize_task p task e w).0.db ≡ w.db
finalize_task-stranger p task e w hook none_mine =
    let (_, same, _) = finalize_task-Settles p task e hook in same w none_mine

-- A finalization that returns an error has changed nothing, if the user's hook writes no row but the
-- task's own.
pub finalize_task-atomic :
    (p : ModelPort) (task : Task) (e : Option Err) (w : World)
    → HookKeeps p.handler (task_to_api task)
    → succeeded (finalize_task p task e w).1 ≡ false
    → (finalize_task p task e w).0.db ≡ w.db
finalize_task-atomic p task e w hook failed =
    let (_, _, same) = finalize_task-Settles p task e hook in same w failed

-- A finalization leaves every row as it was but the one of its task, and that one too unless this
-- worker owns it, whichever statements fail, if the user's hook does so.
pub finalize_task-Keeps :
    (p : ModelPort) (task : Task) (e : Option Err) (w : World)
    → HookKeeps p.handler (task_to_api task)
    → Kept (is_mine task.id p.handler.worker_id) w.db.tasks (finalize_task p task e w).0.db.tasks
finalize_task-Keeps p task e w hook = (finalize_task-Settles p task e hook).0 w

transaction-calm :
    (body : M (Unit {0})) (w w' : World)
    → body (calm w) ≡ (calm w', ok tt)
    → run_transaction false body (calm w) ≡ (calm w', ok tt)
unfolding run_transaction commit statement
transaction-calm body w w' h = ap (commit w.db) h

-- The finalization of an execution that a pause or a cancellation has ended, and no interruption or
-- lost lock, gives the row that the worker holds that status and releases it, when no statement
-- fails.
pub finalize_task-override :
    (p : ModelPort) (task : Task) (w : World) (e : Err) (status : TaskStatus)
    → any_row (is_mine task.id p.handler.worker_id) w.db.tasks ≡ true
    → errors_is e Sentinel.skip_finalize ≡ false
    → errors_is e Sentinel.task_interrupted ≡ false
    → errors_is e Sentinel.task_lock_lost ≡ false
    → failure_status_override e ≡ some status
    → finalize_task p task (some e) (calm w) ≡ (
      with_tasks
          (update_rows (is_mine task.id p.handler.worker_id) (with_status_released status w.now))
          (calm w),
      ok tt,
    )
unfolding finalize_task finalize_failed
finalize_task-override p task w e status mine skip interrupted kept over =
    rw (skip, interrupted)
      (ap (λ out. recover out (unless_lost "finalize failed task"))
        (transaction-calm (handle_failed p.handler (task_to_api task) (some e)) w
          (settle p.handler (task_to_api task) (with_status_released status w.now) w)
          (handle_failed-override p.handler (task_to_api task) w e status mine kept over)))

-- The finalization of an execution that succeeded completes and releases the held row, whatever its
-- status, and logs it, when the task is no cron job and no statement fails.
finalize_task-completes :
    (p : ModelPort) (task : Task) (w : World)
    → any_row (is_mine task.id p.handler.worker_id) w.db.tasks ≡ true
    → task.attributes.cronjob ≡ none
    → finalize_task p task none (calm w) ≡ (
      logged (EventSpec.task_completed task.id) (
          with_tasks
            (update_rows
              (is_mine task.id p.handler.worker_id)
              (with_status_released TaskStatus.completed w.now))
            (calm w)),
      ok tt,
    )
unfolding finalize_task finalize_completed
finalize_task-completes p task w mine plain =
    ap (λ out. recover out (unless_lost "finalize completed task"))
      (transaction-calm (handle_completed p.handler (task_to_api task)) w
        (logged (EventSpec.task_completed task.id)
          (settle p.handler (task_to_api task) (with_status_released TaskStatus.completed w.now) w))
        (handle_completed-once p.handler (task_to_api task) w mine plain))
