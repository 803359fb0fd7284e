-- ===== src/Ctrl/Pause.antt =====
-- What PauseTask and CancelTask of pkg/taskcore/ctrl/ctrl.go do to the tasks, when no statement fails.
use anclax.Prelude.{
  ℕ, ◌-◌, ◌≡◌, refl, sym, ap, ◌∙◌, ◌↔◌, true, List, [], ◌∷◌, ◌++◌, map, none, some,
}
use anclax.Prelude.Int.{ℤ, pos, ℤ_eq, ◌≤ℤ◌}
use anclax.Prelude.Unique.{contains}
use anclax.Text.{Bytes}
use anclax.Api.{TaskStatus}
use anclax.Errors.{Err}
use anclax.Db.{TaskRow, World, ok, after, recover, throw, statement}
use anclax.Db.Workers.{alive_ids, list_online_worker_ids}
use anclax.Db.Inserts.{new_row, create_task}
use anclax.Db.Effects.{calm, with_tasks, succeeded}
use mathlib.Core.List.{append-nil}
use anclax.Api.{no_task}
use anclax.Store.{
  push_task, insert_pushed, serial_attributes_from_json, serial_attributes,
  priority_and_weight_attributes, params_of,
}
use anclax.Store.Overrides.{with_priority}
use anclax.Runner.{Parameters, run_task, new_task, apply_overrides, attributes_of, type_of}
use anclax.Ctrl.{
  Control, control_all, control_collected, control_tree, broadcast_unless_none,
  collect_task_and_descendant_ids, broadcast, broadcast_to, worker_control_task_priority,
}
use anclax.Ctrl.Collect.{Below, IsOrdered, collect-Below}
use anclax.Ctrl.Rows.{
  controlled_in, DistinctIds, only, control_task-only, DistinctIds-only, map_rows-cons, map_in-nil,
}

control_all-controlled :
    (c : Control) (ids : List ℤ) (w : World)
    → DistinctIds w.db.tasks
    → control_all c ids (calm w) ≡ (calm (with_tasks (map (controlled_in c ids w.now)) w), ok tt)
unfolding control_all contains
control_all-controlled c [] w d =
    ap (λ rows. (calm (with_tasks (λ old. rows) w), ok tt)) (sym (map_in-nil c w.now w.db.tasks))
control_all-controlled c (id ∷ ids) w d = rw (control_task-only c id w d) (
    control_all-controlled c ids (with_tasks (map (only c id w.now)) w)
      (DistinctIds-only c id w.now w.db.tasks d)
    ∙ ap (λ rows. (calm (with_tasks (λ old. rows) w), ok tt))
        (map_rows-cons c id ids w.now w.db.tasks))

-- The row of the broadcast task, when some worker is alive.
abbrev pub told : (Parameters → Bytes) → Control → List ℤ → List ℕ → ℕ → ℕ → List TaskRow
told marshal c ids [] id now = []
told marshal c ids (worker ∷ workers) id now =
    new_row
      (params_of
        (record no_task {
          attributes = record (attributes_of (broadcast c (broadcast_to ids (worker ∷ workers)))) {
            priority = some worker_control_task_priority;
          };
          spec = record {
            type = type_of (broadcast c (broadcast_to ids (worker ∷ workers)));
            payload = marshal (broadcast c (broadcast_to ids (worker ∷ workers)));
          };
          status = TaskStatus.pending;
        })
        (none, none) (pos 0, pos 1))
      id now
    ∷ []

broadcast-told :
    (marshal : Parameters → Bytes) (now ttl : ℕ) (c : Control) (ids : List ℤ) (workers : List ℕ)
    (w : World)
    → (broadcast_unless_none marshal now ttl c ids workers (calm w)).0.db.tasks
      ≡ w.db.tasks ++ told marshal c ids workers w.db.next_task w.now
unfolding broadcast_unless_none run_task new_task apply_overrides attributes_of type_of push_task
    insert_pushed serial_attributes_from_json serial_attributes priority_and_weight_attributes
    create_task statement with_priority
broadcast-told marshal now ttl c ids [] w = sym (append-nil w.db.tasks)
broadcast-told marshal now ttl Control.pause ids (worker ∷ workers) w = refl
broadcast-told marshal now ttl Control.cancel ids (worker ∷ workers) w = refl

broadcast-succeeded :
    (marshal : Parameters → Bytes) (now ttl : ℕ) (c : Control) (ids : List ℤ) (workers : List ℕ)
    (w : World)
    → succeeded (broadcast_unless_none marshal now ttl c ids workers (calm w)).1 ≡ true
unfolding broadcast_unless_none run_task new_task apply_overrides attributes_of type_of push_task
    insert_pushed serial_attributes_from_json serial_attributes priority_and_weight_attributes
    create_task statement with_priority
broadcast-succeeded marshal now ttl c ids [] w = refl
broadcast-succeeded marshal now ttl Control.pause ids (worker ∷ workers) w = refl
broadcast-succeeded marshal now ttl Control.cancel ids (worker ∷ workers) w = refl

control_collected-calm :
    (marshal : Parameters → Bytes) (now ttl : ℕ) (c : Control) (ids : List ℤ) (w : World)
    → DistinctIds w.db.tasks
    → control_collected marshal now ttl c ids (calm w)
      ≡ broadcast_unless_none marshal now ttl c ids
          (alive_ids (now - ttl) w.db.workers)
          (calm (with_tasks (map (controlled_in c ids w.now)) w))
unfolding control_collected list_online_worker_ids statement
control_collected-calm marshal now ttl c ids w d = rw (control_all-controlled c ids w d) refl

control_tree-calm :
    (marshal : Parameters → Bytes) (now ttl : ℕ) (c : Control) (root : ℤ) (ids : List ℤ) (w : World)
    → collect_task_and_descendant_ids root (calm w) ≡ (calm w, ok ids)
    → control_tree marshal now ttl c root (calm w)
      ≡ control_collected marshal now ttl c ids (calm w)
unfolding control_tree
control_tree-calm marshal now ttl c root ids w h =
    ap
      (λ out.
        after (recover out (λ e. throw (Err.wrap "collect task descendants" e)))
          (control_collected marshal now ttl c))
      h

-- PauseTask and CancelTask in their transaction, when no statement fails, ids are given out once and in
-- order, no task is made before its parent, and the task's id is not negative: of the rows, exactly
-- those of the task and of its descendants change, to cancelled by a cancellation and to paused by a
-- pause, which leaves the cancelled ones alone; behind them stands the broadcast task with these ids,
-- of priority 0, if a worker has a heartbeat within the time to live, and nothing if none has.
pub control_tree-outcome :
    (marshal : Parameters → Bytes) (now ttl : ℕ) (c : Control) (root : ℤ) (w : World)
    → IsOrdered w.db.next_task w.db.tasks
    → DistinctIds w.db.tasks
    → pos 0 ≤ℤ root
    → (ids : List ℤ) × ((j : ℤ) → (contains ids j ≡ true) ↔ Below w.db.tasks root j)
      × (succeeded (control_tree marshal now ttl c root (calm w)).1 ≡ true)
      × ((control_tree marshal now ttl c root (calm w)).0.db.tasks
          ≡ map (controlled_in c ids w.now) w.db.tasks
            ++ told marshal c ids (alive_ids (now - ttl) w.db.workers) w.db.next_task w.now)
control_tree-outcome marshal now ttl c root w ordered d low =
    let (ids, collected, once, members) = collect-Below root w ordered low in
    let w' : World = with_tasks (map (controlled_in c ids w.now)) w in
    let workers = alive_ids (now - ttl) w.db.workers in
    let whole =
      control_tree-calm marshal now ttl c root ids w collected
      ∙ control_collected-calm marshal now ttl c ids w d in
    (
      ids,
      members,
      ap (λ out. succeeded out.1) whole ∙ broadcast-succeeded marshal now ttl c ids workers w',
      ap (λ out. out.0.db.tasks) whole ∙ broadcast-told marshal now ttl c ids workers w',
    )
