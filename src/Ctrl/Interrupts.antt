-- ===== src/Ctrl/Interrupts.antt =====
-- How PauseTask and CancelTask of pkg/taskcore/ctrl/ctrl.go end the executions of a whole tree: by the
-- lock refresh and the finalization of pkg/taskcore/worker/model_port.go.
use anclax.Prelude.{
  ℕ, ◌-◌, ◌≡◌, refl, sym, ap, ◌∙◌, subst, ◌⊎◌, ◌||◌, Bool, true, false, inl, inr, List, [], ◌∷◌,
  ◌++◌, map, none, some, arith, Bool-cases,
}
use anclax.Prelude.Int.{ℤ, pos, int_eq, int_eq_iff, ℤ_eq, ◌<ℤ◌, ◌≤ℤ◌}
use anclax.Prelude.Unique.{contains}
use anclax.Text.{Bytes}
use anclax.Errors.{Err, Sentinel, errors_is}
use anclax.Api.{TaskStatus}
use mathlib.Core.Option
use anclax.Db.{TaskRow, World, ok}
use anclax.Db.Tasks.{any_row, find_row, is_task, is_refreshable, owned_by, with_status_released}
use anclax.Db.Workers.{alive_ids}
use anclax.Db.Effects.{calm}
use anclax.Db.Effects.Finding.{find_row-map, find_row-append, find_row-mine, any_row-append}
use anclax.Runner.{Parameters}
use anclax.Ctrl.{Control, control_tree}
use anclax.Ctrl.Collect.{Below, IsOrdered}
use anclax.Ctrl.Rows.{DistinctIds, controlled, controlled_in}
use anclax.Ctrl.Ending.{
  end_status, controlled-status, end_status-cases, end_status-unrefreshable, controlled_in-id,
  controlled_in-owner, controlled_in-status,
}
use anclax.Ctrl.Pause.{told, control_tree-outcome}
use anclax.Worker.Types.{Task}
use anclax.Worker.Lifecycle.{failure_status_override}
use anclax.Worker.Port.{ModelPort, cause_of_status, refresh_tick, finalize_task}
use anclax.Worker.Port.Refresh.{refreshable, refresh_tick-cause}
use anclax.Worker.Port.Finalize.{finalize_task-override}

find_row-low :
    (id : ℤ) (n : ℕ) (rows : List TaskRow) (r : TaskRow)
    → IsOrdered n rows
    → find_row (is_task id) rows ≡ some r
    → (id <ℤ pos n) × (r.id ≡ id)
unfolding find_row
find_row-low id n [] r o h = absurd (ground (arith, h))
find_row-low id n (x ∷ rows) r o h = elim (Bool-cases (int_eq x.id id)) [
  | inr e ↦ find_row-low id n rows r o.2 (ground (arith, h, e))
  | inl e ↦
      (let same : x.id ≡ id = (int_eq_iff x.id id).0 e in
        (subst (λ i. i <ℤ pos n) same o.0, ground (arith, h, e, same)))
]

module _ (p : ModelPort) (c : Control) (ids : List ℤ) (id : ℤ) (now : ℕ)
    (named : contains ids id ≡ true) where
  skip :
      (r : TaskRow) (rest : Bool)
      → is_refreshable r.status ≡ false
      → (refreshable p id r || rest) ≡ rest
  skip r rest h = ground (arith, h)

  controlled-unrefreshable :
      (rows : List TaskRow)
      → any_row (refreshable p id) (map (controlled_in c ids now) rows) ≡ false
  unfolding any_row
  controlled-unrefreshable [] = refl
  controlled-unrefreshable (r ∷ rows) = elim (Bool-cases (int_eq r.id id)) [
    | inr e ↦
        (let moved : int_eq (controlled_in c ids now r).id id ≡ false =
            ap (λ i. int_eq i id) (controlled_in-id c ids now r) ∙ e in
          rw (moved, controlled-unrefreshable rows) refl)
    | inl e ↦
        (let in_ids : contains ids r.id ≡ true =
            subst (λ i. contains ids i ≡ true) (sym ((int_eq_iff r.id id).0 e)) named in
          let ended : is_refreshable (controlled c now r).status ≡ false =
            ap is_refreshable (controlled-status c now r) ∙ end_status-unrefreshable c r.status in
          rw in_ids (skip (controlled c now r) _ ended ∙ controlled-unrefreshable rows))
  ]

  -- The broadcast task has no owner.
  told-unrefreshable :
      (marshal : Parameters → Bytes) (workers : List ℕ) (next : ℕ)
      → any_row (refreshable p id) (told marshal c ids workers next now) ≡ false
  unfolding any_row
  told-unrefreshable marshal [] next = refl
  told-unrefreshable marshal (worker ∷ workers) next = ground arith

-- What the finalization makes of the row.
pub record IsEnded (id : ℤ) (status : TaskStatus) (rows : List TaskRow) : Type 0 where
  pub row : TaskRow
  pub found : find_row (is_task id) rows ≡ some row
  pub its_status : row.status ≡ status
  pub unlocked : row.locked_at ≡ none
  pub unowned : row.worker_id ≡ none

finalize-ends :
    (p : ModelPort) (task : Task) (w : World) (r : TaskRow) (e : Err) (status : TaskStatus)
    → find_row (is_task task.id) w.db.tasks ≡ some r
    → owned_by p.handler.worker_id r.worker_id ≡ true
    → errors_is e Sentinel.skip_finalize ≡ false
    → errors_is e Sentinel.task_interrupted ≡ false
    → errors_is e Sentinel.task_lock_lost ≡ false
    → failure_status_override e ≡ some status
    → IsEnded task.id status (finalize_task p task (some e) (calm w)).0.db.tasks
finalize-ends p task w r e status here own skip interrupted lost over =
    let (found, mine) =
      find_row-mine task.id p.handler.worker_id (with_status_released status w.now) w.db.tasks r
        (λ x. refl) here own in
    record {
      row = with_status_released status w.now r;
      found =
          ap (λ out. find_row (is_task task.id) out.0.db.tasks)
            (finalize_task-override p task w e status mine skip interrupted lost over)
          ∙ found;
      its_status = refl;
      unlocked = refl;
      unowned = refl;
    }

finalize_cause-ends :
    (p : ModelPort) (task : Task) (w : World) (r : TaskRow) (status : TaskStatus)
    → find_row (is_task task.id) w.db.tasks ≡ some r
    → owned_by p.handler.worker_id r.worker_id ≡ true
    → (status ≡ TaskStatus.cancelled) ⊎ (status ≡ TaskStatus.paused)
    → IsEnded task.id status
        (finalize_task p task (some (cause_of_status status)) (calm w)).0.db.tasks
unfolding failure_status_override errors_is
finalize_cause-ends p task w r status here own (inl e) =
    subst
      (λ s. IsEnded task.id s (finalize_task p task (some (cause_of_status s)) (calm w)).0.db.tasks)
      (sym e)
      (finalize-ends p task w r (Err.sentinel Sentinel.task_cancelled) TaskStatus.cancelled here own
        refl refl refl refl)
finalize_cause-ends p task w r status here own (inr e) =
    subst
      (λ s. IsEnded task.id s (finalize_task p task (some (cause_of_status s)) (calm w)).0.db.tasks)
      (sym e)
      (finalize-ends p task w r (Err.sentinel Sentinel.task_paused) TaskStatus.paused here own refl
        refl refl refl)

-- The row of a task of the tree, after the operation.
pub control_tree-found :
    (marshal : Parameters → Bytes) (now ttl : ℕ) (c : Control) (root id : ℤ) (w : World)
    (r : TaskRow)
    → IsOrdered w.db.next_task w.db.tasks
    → DistinctIds w.db.tasks
    → pos 0 ≤ℤ root
    → Below w.db.tasks root id
    → find_row (is_task id) w.db.tasks ≡ some r
    → (ids : List ℤ) × (contains ids id ≡ true)
      × (contains ids r.id ≡ true)
      × (find_row (is_task id) (control_tree marshal now ttl c root (calm w)).0.db.tasks
          ≡ some (controlled_in c ids w.now r))
      × ((control_tree marshal now ttl c root (calm w)).0.db.tasks
          ≡ map (controlled_in c ids w.now) w.db.tasks
            ++ told marshal c ids (alive_ids (now - ttl) w.db.workers) w.db.next_task w.now)
control_tree-found marshal now ttl c root id w r ordered distinct low below here =
    let (ids, members, _, rows) =
      control_tree-outcome marshal now ttl c root w ordered distinct low in
    let named : contains ids id ≡ true = (members id).1 below in
    (
      ids,
      named,
      subst (λ i. contains ids i ≡ true)
          (sym (find_row-low id w.db.next_task w.db.tasks r ordered here).1) named,
      ap (find_row (is_task id)) rows
          ∙ find_row-append (is_task id) (map (controlled_in c ids w.now) w.db.tasks) _
              (controlled_in c ids w.now r)
              (find_row-map (is_task id) (controlled_in c ids w.now) w.db.tasks
                  (λ x. ap (λ i. int_eq i id) (controlled_in-id c ids w.now x))
                ∙ ap (Option.map (controlled_in c ids w.now)) here),
      rows,
    )

-- A pause or a cancellation of a tree, when no statement fails, ids are given out once and in order, no
-- task is made before its parent and the root's id is not negative: the next lock refresh of the worker
-- that holds a task of the tree ends the execution, and the finalization with that cause leaves the row
-- without lock and owner, cancelled by a cancellation, and paused by a pause unless it was cancelled
-- before.
pub control_tree-ends :
    (marshal : Parameters → Bytes) (now ttl : ℕ) (c : Control) (root : ℤ) (p : ModelPort)
    (task : Task) (w : World) (r : TaskRow)
    → IsOrdered w.db.next_task w.db.tasks
    → DistinctIds w.db.tasks
    → pos 0 ≤ℤ root
    → Below w.db.tasks root task.id
    → find_row (is_task task.id) w.db.tasks ≡ some r
    → owned_by p.handler.worker_id r.worker_id ≡ true
    → ((refresh_tick p task.id (calm (control_tree marshal now ttl c root (calm w)).0)).1
        ≡ ok (some (cause_of_status (end_status c r.status))))
      × IsEnded task.id
          (end_status c r.status)
          (finalize_task p task
            (some (cause_of_status (end_status c r.status)))
            (calm (control_tree marshal now ttl c root (calm w)).0)).0.db.tasks
control_tree-ends marshal now ttl c root p task w r ordered distinct low below here own =
    let (ids, named, in_ids, found, rows) =
      control_tree-found marshal now ttl c root task.id w r ordered distinct low below here in
    let after = (control_tree marshal now ttl c root (calm w)).0 in
    let free : any_row (refreshable p task.id) after.db.tasks ≡ false =
      ap (any_row (refreshable p task.id)) rows
      ∙ any_row-append (refreshable p task.id) (map (controlled_in c ids w.now) w.db.tasks) _
          (controlled-unrefreshable p c ids task.id w.now named w.db.tasks)
          (told-unrefreshable p c ids task.id w.now named marshal _ w.db.next_task) in
    (
      ap (λ out. out.1)
            (refresh_tick-cause p task.id after (controlled_in c ids w.now r) free found)
          ∙ ap (λ s. ok (some (cause_of_status s))) (controlled_in-status c ids w.now r in_ids),
      finalize_cause-ends p task after (controlled_in c ids w.now r) (end_status c r.status) found
          (ap (owned_by p.handler.worker_id) (controlled_in-owner c ids w.now r) ∙ own)
          (end_status-cases c r.status),
    )
