-- ===== src/Ctrl.antt =====
-- The worker control plane: pkg/taskcore/ctrl/ctrl.go and runtime_config_task.go. What the listener
-- tells a caller that waits is an argument; `now` is the caller's clock.
pub mod Collect
pub mod Committed
pub mod Wait
pub mod Rows
pub mod Pause
pub mod Ending
pub mod Interrupts
pub mod Resumed
pub mod Matches
pub mod Tags
pub mod Config
use anclax.Prelude.{
  ℕ, ◌+◌, ◌-◌, Bool, true, false, String, List, [], ◌∷◌, ◌++◌, Option, none, some, if◌then◌else◌,
  string_eq, str_eq, ◌==◌,
}
use anclax.Prelude.Int.{ℤ, pos, ltb_ℤ, int_eq, ℤ_eq}
use anclax.Prelude.Unique.{contains, append_unique, unique_from}
use anclax.Text.{Bytes}
use anclax.Errors.{Err, Sentinel, errors_is}
use anclax.Api.{TaskRetryPolicy, TaskStatus, ApiTask}
use anclax.Db.{
  TaskRow, EventRow, EventSpec, World, Reply, ok, fail, M, ◌>>=◌, ◌>>◌, return, throw, catch,
  run_transaction,
}
use anclax.Db.Tasks.{get_task_by_id}
use anclax.Db.Workers.{list_online_worker_ids}
use anclax.Db.Trees.{list_task_descendant_ids, list_task_ids_by_tags, get_last_task_error_event}
use anclax.Store.{lift, wrapped, pause_task, cancel_task, resume_task, task_by_unique_tag}
use anclax.Store.Overrides.{with_priority}
use anclax.Runner.{
  BroadcastTaskParameters, BroadcastUpdateWorkerRuntimeConfigParameters, Parameters, run_task,
}

unfoldable pub collect_task_and_descendant_ids : ℤ → M (List ℤ)
unfolding unique_from list_task_descendant_ids
collect_task_and_descendant_ids root =
    list_task_descendant_ids root >>= λ ids. return (unique_from (root ∷ []) ids)

unfoldable pub collect_from : List ℤ → List ℤ → M (List ℤ)
unfolding collect_task_and_descendant_ids unique_from
collect_from ids [] = return ids
collect_from ids (root ∷ roots) = do
  tree ← collect_task_and_descendant_ids root
  collect_from (unique_from ids tree) roots

unfoldable pub collect_tasks_and_descendant_ids : List ℤ → M (List ℤ)
unfolding collect_from
collect_tasks_and_descendant_ids roots = collect_from [] roots

-- The loop over a set of tags: an empty tag fails, a repeated one is passed over.
unfoldable pub unique_tags : Err → List String → List String → Reply (List String)
unfolding append_unique
unique_tags empty out [] = ok out
unique_tags empty out (tag ∷ tags) =
    let rest = unique_tags empty (append_unique out tag) tags in
    if str_eq tag "" then fail empty else rest

-- The errors are those of an empty set and of an empty tag.
unfoldable pub normalize_tag_set : Err → Err → List String → Reply (List String)
unfolding unique_tags
normalize_tag_set missing empty [] = fail missing
normalize_tag_set missing empty (tag ∷ tags) = unique_tags empty [] (tag ∷ tags)

abbrev empty_except : Err
empty_except = Err.message "tasks requires non-empty except tag set"

abbrev and_sets : Reply (List String) → Reply (List (List String)) → Reply (List (List String))
and_sets (fail e) sets = fail e
and_sets (ok set) (fail e) = fail e
and_sets (ok set) (ok sets) = ok (set ∷ sets)

unfoldable pub normalize_except : List (List String) → Reply (List (List String))
unfolding normalize_tag_set
normalize_except [] = ok []
normalize_except (set ∷ sets) =
    and_sets (normalize_tag_set empty_except empty_except set) (normalize_except sets)

pub record TaskTagSelector : Type 0 where
  pub tags : List String
  pub except_tag_sets : List (List String)

abbrev selector : Reply (List String) → Reply (List (List String)) → Reply TaskTagSelector
selector (fail e) sets = fail e
selector (ok tags) (fail e) = fail e
selector (ok tags) (ok sets) = ok (record { tags = tags; except_tag_sets = sets })

unfoldable pub normalize_task_control_tags :
    List String → List (List String) → Reply TaskTagSelector
unfolding normalize_tag_set normalize_except
normalize_task_control_tags tags except =
    selector
      (normalize_tag_set (Err.message "tasks requires at least one tag")
        (Err.message "tasks requires non-empty tags") tags)
      (normalize_except except)

unfoldable pub list_task_ids_by_selector : TaskTagSelector → M (List ℤ)
list_task_ids_by_selector s = list_task_ids_by_tags s.tags s.except_tag_sets

-- The two operations that reach the workers.
pub data Control : Type 0 where
  pause : Control
  cancel : Control

unfoldable pub control_task : Control → ℤ → M (Unit {0})
unfolding pause_task cancel_task
control_task Control.pause id = wrapped "pause task" (pause_task true id)
control_task Control.cancel id = wrapped "cancel task" (cancel_task id)

unfoldable pub control_all : Control → List ℤ → M (Unit {0})
unfolding control_task
control_all c [] = return tt
control_all c (id ∷ ids) = control_task c id >> control_all c ids

abbrev pub broadcast : Control → BroadcastTaskParameters → Parameters
broadcast Control.pause = Parameters.broadcast_pause_task
broadcast Control.cancel = Parameters.broadcast_cancel_task

abbrev enqueue_text : Control → String
enqueue_text Control.pause = "enqueue broadcast pause task"
enqueue_text Control.cancel = "enqueue broadcast cancel task"

abbrev pub broadcast_to : List ℤ → List ℕ → BroadcastTaskParameters
broadcast_to ids workers = record {
  ack_poll_interval = none;
  request_id = none;
  task_ids = ids;
  worker_ids = workers;
}

abbrev pub worker_control_task_priority : ℤ
worker_control_task_priority = pos 0

module _ (marshal : Parameters → Bytes) (now ttl : ℕ) where
  -- The id of the broadcast task, 0 when there is no worker to reach.
  unfoldable pub broadcast_unless_none : Control → List ℤ → List ℕ → M ℤ
  broadcast_unless_none c ids [] = return (pos 0)
  broadcast_unless_none c ids (worker ∷ workers) = wrapped (enqueue_text c) (
      run_task marshal (broadcast c (broadcast_to ids (worker ∷ workers)))
        (with_priority worker_control_task_priority ∷ []))

  unfoldable pub control_collected : Control → List ℤ → M ℤ
  unfolding control_all broadcast_unless_none
  control_collected c ids = do
    control_all c ids
    workers ← wrapped "list online worker ids" (list_online_worker_ids (now - ttl))
    broadcast_unless_none c ids workers

  -- The body of PauseTask and of CancelTask.
  unfoldable pub control_tree : Control → ℤ → M ℤ
  unfolding collect_task_and_descendant_ids control_collected
  control_tree c root = do
    ids ← wrapped "collect task descendants" (collect_task_and_descendant_ids root)
    control_collected c ids

  abbrev unless_empty : Control → List ℤ → M ℤ
  unless_empty c [] = return (pos 0)
  unless_empty c (id ∷ ids) = control_collected c (id ∷ ids)

  unfoldable pub control_tasks_by_tags_in_tx : Control → TaskTagSelector → M ℤ
  unfolding list_task_ids_by_selector collect_tasks_and_descendant_ids control_collected
  control_tasks_by_tags_in_tx c s = do
    roots ← wrapped "list tasks by tags" (list_task_ids_by_selector s)
    ids ← wrapped "collect task descendants by tags" (collect_tasks_and_descendant_ids roots)
    unless_empty c ids

  -- PauseTasksByTagsWithTx and CancelTasksByTagsWithTx; `none` is a nil transaction.
  unfoldable pub control_tasks_by_tags_with_tx :
      Control → Bool → List String → List (List String) → M ℤ
  unfolding normalize_task_control_tags control_tasks_by_tags_in_tx
  control_tasks_by_tags_with_tx c has_tx tags except = do
    s ← lift (normalize_task_control_tags tags except)
    if has_tx
        then control_tasks_by_tags_in_tx c s
        else throw (Err.message "tasks by tags requires tx")

unfoldable pub resume_all : List ℤ → M (Unit {0})
resume_all [] = return tt
resume_all (id ∷ ids) = wrapped "resume task" (resume_task id) >> resume_all ids

unfoldable pub resume_tasks_by_tags_in_tx : TaskTagSelector → M (Unit {0})
unfolding list_task_ids_by_selector unique_from resume_all
resume_tasks_by_tags_in_tx s = do
  ids ← wrapped "list tasks by tags" (list_task_ids_by_selector s)
  resume_all (unique_from [] ids)
