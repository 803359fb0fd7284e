-- ===== src/Tests/Ctrl.antt =====
-- Examples for pkg/taskcore/ctrl/ctrl.go, on a task with a child.
use anclax.Prelude.{
  String, str_eq, ◌≡◌, ◌↔◌, ◌⊎◌, refl, true, false, map, List, [], ◌∷◌, ◌++◌, none, some, arith,
}
use anclax.Prelude.Int.{ℤ, pos, int_eq, ℤ_eq}
use anclax.Prelude.Unique.{IsDistinct, contains, unique_from}
use anclax.Text.{Bytes}
use anclax.Api.{ApiTask, TaskStatus}
use anclax.Db.{TaskRow, WorkerRow, World, ok, statement, run_transaction}
use anclax.Db.Tasks.{any_row, find_row, is_task, update_task_status}
use anclax.Db.Inserts.{new_row, create_task}
use anclax.Db.Trees.{
  descendants, list_task_descendant_ids, list_task_ids_by_tags, select_ids, selected, has_all,
  excluded, insert_by_id,
}
use anclax.Db.Workers.{alive_ids, list_online_worker_ids}
use anclax.Db.Effects.{calm, succeeded}
use anclax.Store.{
  params_of, cancel_task, resume_task, push_task, insert_pushed, serial_attributes,
  serial_attributes_from_json, priority_and_weight_attributes,
}
use anclax.Store.Overrides.{with_tags, with_priority}
use anclax.Runner.{Parameters, type_of, attributes_of, apply_overrides, new_task, run_task}
use anclax.Listener.{status_event}
use anclax.Ctrl.{
  Control, control_task, collect_task_and_descendant_ids, control_tree, control_collected,
  control_all, broadcast_unless_none,
}
use anclax.Ctrl.Collect.{Below, IsOrdered, collect-Below, is_child}
use anclax.Ctrl.Resumed.{resume_task-eligible}
use anclax.Db.Claims.{is_eligible}
use anclax.Ctrl.Interrupts.{IsEnded, control_tree-ends}
use anclax.Worker.Types.{Task}
use anclax.Worker.Port.{claimer, cause_of_status, refresh_tick, finalize_task}
use anclax.Ctrl.Pause.{told, control_tree-outcome}
use anclax.Ctrl.Rows.{DistinctIds, controlled_in}
use anclax.Ctrl.Wait.{
  Waited, Listener, Completes, control_task_and_wait, wait_unless_none, wait_for_task, conclude,
  handle_task_terminal_event, control_task_and_wait-ok,
}
use anclax.Ctrl.Matches.{SomeRow, IsMatch}
use anclax.Ctrl.Tags.{list_task_ids_by_tags-matches, list_task_ids_by_tags-null}
use anclax.Tests.Store.{waiting, older, world_of, retried, retrying, port, claimed_task}

abbrev child : TaskRow
child = record older { parent_task_id = some (pos 7) }

abbrev alive : WorkerRow
alive = record {
  id = 3;
  labels = [];
  online = true;
  last_heartbeat = 95;
  applied_config_version = pos 0;
}

abbrev family : World
family = record (world_of (waiting ∷ child ∷ [])) {
  db = record (world_of (waiting ∷ child ∷ [])).db { workers = alive ∷ [] };
}

family-IsOrdered : IsOrdered family.db.next_task family.db.tasks
family-IsOrdered = (ground arith, tt, (ground arith, ground arith, tt))

family-DistinctIds : DistinctIds family.db.tasks
unfolding any_row int_eq
family-DistinctIds = (refl, (refl, tt))

abbrev name : Parameters → Bytes
name p = 1 ∷ []

collect-Below_example :
    (ids : List ℤ) × (collect_task_and_descendant_ids (pos 7) (calm family) ≡ (calm family, ok ids))
    × IsDistinct ids
    × ((j : ℤ) → (contains ids j ≡ true) ↔ Below family.db.tasks (pos 7) j)
collect-Below_example = collect-Below (pos 7) family family-IsOrdered (ground arith)

control_tree-outcome_example :
    (ids : List ℤ) × ((j : ℤ) → (contains ids j ≡ true) ↔ Below family.db.tasks (pos 7) j)
    × (succeeded (control_tree name 100 9 Control.pause (pos 7) (calm family)).1 ≡ true)
    × ((control_tree name 100 9 Control.pause (pos 7) (calm family)).0.db.tasks
        ≡ map (controlled_in Control.pause ids 100) family.db.tasks
          ++ told name Control.pause ids (alive_ids 91 family.db.workers) 9 100)
control_tree-outcome_example =
    control_tree-outcome name 100 9 Control.pause (pos 7) family family-IsOrdered family-DistinctIds
      (ground arith)

-- The broadcast task is reported completed.
abbrev completing : Listener
completing id w = (w, Waited.event (status_event id TaskStatus.completed))

abbrev cancelled : World
cancelled = (control_task_and_wait name 100 9 completing Control.cancel (pos 7) (calm family)).0

completed :
    control_task_and_wait name 100 9 completing Control.cancel (pos 7) (calm family)
    ≡ (cancelled, ok tt)
unfolding control_task_and_wait control_tree collect_task_and_descendant_ids unique_from
    list_task_descendant_ids descendants control_collected control_all control_task cancel_task
    update_task_status statement list_online_worker_ids alive_ids broadcast_unless_none run_task
    new_task apply_overrides type_of attributes_of push_task insert_pushed
    serial_attributes_from_json serial_attributes priority_and_weight_attributes create_task
    with_priority wait_unless_none wait_for_task conclude handle_task_terminal_event run_transaction
    int_eq contains
completed = refl

control_task_and_wait-ok_example :
    (committed : World) × (broadcast_id : ℤ) × (run_transaction false
        (control_tree name 100 9 Control.cancel (pos 7))
        (calm family)
      ≡ (committed, ok broadcast_id))
    × (((broadcast_id ≡ pos 0) × (alive_ids 91 committed.db.workers ≡ []))
        ⊎ ((broadcast_id ≡ pos 9) × Completes (completing broadcast_id committed).1))
control_task_and_wait-ok_example =
    control_task_and_wait-ok name 100 9 completing Control.cancel (pos 7) (calm family) cancelled
      (omega arith) completed

abbrev with_list : ℤ → List String → TaskRow
with_list id tags = record waiting {
  id = id;
  attributes = record waiting.attributes { tags = some (some tags) };
}

-- Of these tasks only the first is selected: the second has all the tags of the excepted set, and the
-- third has no tag "b".
abbrev labelled : World
labelled = world_of (
    with_list (pos 4) ("a" ∷ "b" ∷ "c" ∷ [])
    ∷ with_list (pos 5) ("a" ∷ "b" ∷ "c" ∷ "d" ∷ [])
    ∷ with_list (pos 6) ("a" ∷ [])
    ∷ waiting
    ∷ [])

list_task_ids_by_tags-matches_example :
    (ids : List ℤ) × (list_task_ids_by_tags ("a" ∷ "b" ∷ []) (("c" ∷ "d" ∷ []) ∷ []) (calm labelled)
      ≡ (calm labelled, ok ids))
    × ((j : ℤ)
        → (contains ids j ≡ true)
          ↔ SomeRow (IsMatch ("a" ∷ "b" ∷ []) (("c" ∷ "d" ∷ []) ∷ []) j) labelled.db.tasks)
list_task_ids_by_tags-matches_example =
    list_task_ids_by_tags-matches "a" ("b" ∷ []) (("c" ∷ "d" ∷ []) ∷ []) labelled
      (refl, (refl, (refl, (refl, tt))))

selected_first :
    list_task_ids_by_tags ("a" ∷ "b" ∷ []) (("c" ∷ "d" ∷ []) ∷ []) (calm labelled)
    ≡ (calm labelled, ok (pos 4 ∷ []))
unfolding list_task_ids_by_tags select_ids selected has_all excluded insert_by_id contains statement
    str_eq
selected_first = refl

abbrev untagged : ApiTask
untagged = record retried { attributes = record retried.attributes { tags = some none } }

abbrev with_null : World
with_null =
    world_of (waiting ∷ new_row (params_of untagged (none, none) (pos 0, pos 1)) 8 50 ∷ child ∷ [])

made_null : with_tags [] retried ≡ ok untagged
unfolding with_tags
made_null = refl

list_task_ids_by_tags-null_example :
    succeeded (list_task_ids_by_tags ("a" ∷ []) [] (calm with_null)).1 ≡ false
list_task_ids_by_tags-null_example =
    list_task_ids_by_tags-null "a" [] [] with_null retried untagged (none, none) (pos 0, pos 1) 8 50
      (waiting ∷ []) (child ∷ []) made_null refl

-- The child is executed by worker 1.
abbrev held_child : TaskRow
held_child = record child { locked_at = some 50; worker_id = some 1 }

abbrev busy : World
busy = record (world_of (waiting ∷ held_child ∷ [])) {
  db = record (world_of (waiting ∷ held_child ∷ [])).db { workers = alive ∷ [] };
}

busy-DistinctIds : DistinctIds busy.db.tasks
unfolding any_row int_eq
busy-DistinctIds = (refl, (refl, tt))

is_child_of_root : any_row (is_child (pos 7) (pos 8)) busy.db.tasks ≡ true
unfolding any_row int_eq
is_child_of_root = refl

held_child_found : find_row (is_task (pos 8)) busy.db.tasks ≡ some held_child
unfolding find_row int_eq
held_child_found = refl

abbrev child_task : Task
child_task = record (claimed_task retrying) { id = pos 8 }

control_tree-ends_example :
    ((refresh_tick port
        (pos 8)
        (calm (control_tree name 100 9 Control.pause (pos 7) (calm busy)).0)).1
      ≡ ok (some (cause_of_status TaskStatus.paused)))
    × IsEnded
        (pos 8)
        TaskStatus.paused
        (finalize_task port child_task
          (some (cause_of_status TaskStatus.paused))
          (calm (control_tree name 100 9 Control.pause (pos 7) (calm busy)).0)).0.db.tasks
control_tree-ends_example =
    control_tree-ends name 100 9 Control.pause (pos 7) port child_task busy held_child
      (ground arith, tt, (ground arith, ground arith, tt)) busy-DistinctIds (ground arith)
      (Below.child is_child_of_root (Below.self refl)) held_child_found refl

-- The child has completed.
abbrev done_child : TaskRow
done_child = record child { status = TaskStatus.completed }

abbrev finished : World
finished = world_of (waiting ∷ done_child ∷ [])

finished-DistinctIds : DistinctIds finished.db.tasks
unfolding any_row int_eq
finished-DistinctIds = (refl, (refl, tt))

is_done_child : any_row (is_child (pos 7) (pos 8)) finished.db.tasks ≡ true
unfolding any_row int_eq
is_done_child = refl

done_child_found : find_row (is_task (pos 8)) finished.db.tasks ≡ some done_child
unfolding find_row int_eq
done_child_found = refl

resume_task-eligible_example :
    (row : TaskRow) × (find_row
        (is_task (pos 8))
        (resume_task
          (pos 8)
          (calm (control_tree name 100 9 Control.pause (pos 7) (calm finished)).0)).0.db.tasks
      ≡ some row)
    × (is_eligible (claimer port) 120 row ≡ true)
resume_task-eligible_example =
    resume_task-eligible name 100 9 Control.pause (pos 7) (pos 8) (claimer port) 120 finished
      done_child (ground arith, tt, (ground arith, ground arith, tt)) finished-DistinctIds
      (ground arith) (Below.child is_done_child (Below.self refl)) done_child_found refl refl refl
