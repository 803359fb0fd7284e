-- ===== src/Ctrl/Resumed.antt =====
-- What becomes of a tree that PauseTask of pkg/taskcore/ctrl/ctrl.go has paused, when a task of it is
-- resumed: ResumeTask of pkg/taskcore/store/store.go, and the claims after it.
use anclax.Prelude.{ℕ, ◌≡◌, true, none, some, arith, List}
use anclax.Prelude.Int.{ℤ, pos, ◌≤ℤ◌}
use anclax.Text.{Bytes}
use anclax.Db.{TaskRow, World}
use anclax.Db.Tasks.{find_row, is_task}
use anclax.Db.Claims.{Claimer, is_eligible, null_or_before, labels_match}
use anclax.Db.Effects.{calm}
use anclax.Store.{resume_task}
use anclax.Store.Status.{resumed, resume_task-any}
use anclax.Runner.{Parameters}
use anclax.Ctrl.{Control, control_tree}
use anclax.Ctrl.Collect.{Below, IsOrdered}
use anclax.Ctrl.Rows.{DistinctIds, controlled_in}
use anclax.Ctrl.Interrupts.{control_tree-found}

resumed-eligible :
    (cl : Claimer) (c : Control) (ids : List ℤ) (now then later : ℕ) (r : TaskRow)
    → r.locked_at ≡ none
    → null_or_before r.started_at later ≡ true
    → labels_match cl.labels r.attributes.labels ≡ true
    → is_eligible cl later (resumed then (controlled_in c ids now r)) ≡ true
unfolding is_eligible
resumed-eligible cl Control.cancel ids now then later r h k m = ground (arith, h, k, m)
resumed-eligible cl Control.pause ids now then later r h k m = ground (arith, h, k, m)

-- A task of a tree that was paused or cancelled, when no statement fails, ids are given out once and in
-- order, no task is made before its parent and the root's id is not negative: resumed, its row meets
-- what a claim asks of the row itself, for any worker that has its labels and at any time behind its
-- start time, if it was not locked, whatever its status was before, completed or failed included.
pub resume_task-eligible :
    (marshal : Parameters → Bytes) (now ttl : ℕ) (c : Control) (root id : ℤ) (cl : Claimer)
    (later : ℕ) (w : World) (r : TaskRow)
    → IsOrdered w.db.next_task w.db.tasks
    → DistinctIds w.db.tasks
    → pos 0 ≤ℤ root
    → Below w.db.tasks root id
    → find_row (is_task id) w.db.tasks ≡ some r
    → r.locked_at ≡ none
    → null_or_before r.started_at later ≡ true
    → labels_match cl.labels r.attributes.labels ≡ true
    → (row : TaskRow) × (find_row
          (is_task id)
          (resume_task id (calm (control_tree marshal now ttl c root (calm w)).0)).0.db.tasks
        ≡ some row)
      × (is_eligible cl later row ≡ true)
resume_task-eligible marshal now ttl c root id cl later w r ordered distinct low below here free due
      fits =
    let (ids, _, _, found, _) =
      control_tree-found marshal now ttl c root id w r ordered distinct low below here in
    let after = (control_tree marshal now ttl c root (calm w)).0 in
    (
      resumed after.now (controlled_in c ids w.now r),
      resume_task-any id after (controlled_in c ids w.now r) found,
      resumed-eligible cl c ids w.now after.now later r free due fits,
    )
