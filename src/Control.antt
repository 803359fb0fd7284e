-- ===== src/Control.antt =====
-- How the store's pause and cancellation, pkg/taskcore/store/store.go, reach the worker that executes
-- the task, pkg/taskcore/worker/model_port.go: by the lock refresh, and then by the finalization.
use anclax.Prelude.{
  ℕ, ◌≡◌, refl, ap, ◌∙◌, Bool, false, inl, inr, List, [], ◌∷◌, some, arith, Bool-cases,
}
use anclax.Prelude.Int.{ℤ, int_eq}
use anclax.Errors.{Err, Sentinel}
use anclax.Api.{TaskStatus}
use mathlib.Core.Option
use anclax.Db.{TaskRow, World, ok, statement}
use anclax.Db.Tasks.{
  any_row, find_row, is_task, is_refreshable, update_rows, update_task_status, update_all,
}
use anclax.Db.Effects.{calm}
use anclax.Store.{pause_task, cancel_task}
use anclax.Store.Status.{set_status, is_cancelled, pause_task-outcome, find_row-updated}
use anclax.Worker.Port.{ModelPort, cause_of_status, refresh_tick}
use anclax.Worker.Port.Refresh.{refreshable, refresh_tick-cause}

abbrev with_status : TaskStatus → ℕ → TaskRow → TaskRow
with_status status now r = record r { status = status; updated_at = now }

-- No row of the task can be refreshed once its status forbids it.
unrefreshable :
    (p : ModelPort) (id : ℤ) (status : TaskStatus) (now : ℕ) (rows : List TaskRow)
    → is_refreshable status ≡ false
    → any_row (refreshable p id) (update_rows (is_task id) (with_status status now) rows) ≡ false
unfolding any_row update_rows
unrefreshable p id status now [] h = refl
unrefreshable p id status now (r ∷ rows) h = elim (Bool-cases (int_eq r.id id)) [
  | inl c ↦ ground (arith, c, h, unrefreshable p id status now rows h)
  | inr c ↦ ground (arith, c, h, unrefreshable p id status now rows h)
]

tick-after :
    (p : ModelPort) (id : ℤ) (status : TaskStatus) (w : World) (r : TaskRow)
    → is_refreshable status ≡ false
    → find_row (is_task id) w.db.tasks ≡ some r
    → refresh_tick p id (calm (set_status id status w))
      ≡ (calm (set_status id status w), ok (some (cause_of_status status)))
tick-after p id status w r h here =
    refresh_tick-cause p id (set_status id status w) (with_status status w.now r)
      (unrefreshable p id status w.now w.db.tasks h)
      (find_row-updated (is_task id) (with_status status w.now) w.db.tasks (λ x. refl)
        ∙ ap (Option.map (with_status status w.now)) here)

-- A task that is paused, in or out of a transaction, and not cancelled before: the next lock refresh of
-- any worker on it ends the execution with the cause of a pause, when no statement fails.
pub refresh_tick-pause_task :
    (p : ModelPort) (in_tx : Bool) (id : ℤ) (w : World) (r : TaskRow)
    → find_row (is_task id) w.db.tasks ≡ some r
    → is_cancelled r.status ≡ false
    → (refresh_tick p id (calm (pause_task in_tx id (calm w)).0)).1
      ≡ ok (some (Err.sentinel Sentinel.task_paused))
refresh_tick-pause_task p in_tx id w r here live =
    rw (pause_task-outcome in_tx id w)
      (rw here (rw live (ap (λ out. out.1) (tick-after p id TaskStatus.paused w r refl here))))

-- A task that is cancelled: the next lock refresh of any worker on it ends the execution with the cause
-- of a cancellation, when no statement fails.
refresh_tick-cancel_task :
    (p : ModelPort) (id : ℤ) (w : World) (r : TaskRow)
    → find_row (is_task id) w.db.tasks ≡ some r
    → (refresh_tick p id (calm (cancel_task id (calm w)).0)).1
      ≡ ok (some (Err.sentinel Sentinel.task_cancelled))
unfolding cancel_task update_task_status statement update_all
refresh_tick-cancel_task p id w r here =
    ap (λ out. out.1) (tick-after p id TaskStatus.cancelled w r refl here)
