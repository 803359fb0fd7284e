-- ===== src/Runner.antt =====
-- The task runner, pkg/zgen/taskgen/runner_gen.go, which the code generator writes from
-- api/tasks.yaml: how it makes a task of typed parameters and pushes it. The JSON of the parameters is
-- an argument. The runner pushes with or without a transaction by the same statements.
use anclax.Prelude.{ℕ, String, List, [], ◌∷◌, Option, some}
use anclax.Prelude.Int.{ℤ, pos, negsuc}
use anclax.Errors.{Err}
use anclax.Api.{TaskAttributes, TaskStatus, ApiTask, no_task, no_attributes}
use anclax.Text.{Bytes}
use anclax.Db.{Reply, ok, fail, M, ◌>>=◌}
use anclax.Store.{lift, push_task}
use anclax.Store.Overrides.{TaskOverride}

pub record BroadcastUpdateWorkerRuntimeConfigParameters : Type 0 where
  pub ack_poll_interval : Option String
  pub default_weight : Option ℤ
  pub labels : List String
  pub max_strict_percentage : Option ℤ
  pub request_id : Option String
  pub weights : List ℤ
  pub worker_ids : List ℕ

pub record ApplyWorkerRuntimeConfigToWorkerParameters : Type 0 where
  pub request_id : Option String
  pub version : ℤ
  pub worker_id : ℕ

-- Of the broadcasts that pause and cancel.
pub record BroadcastTaskParameters : Type 0 where
  pub ack_poll_interval : Option String
  pub request_id : Option String
  pub task_ids : List ℤ
  pub worker_ids : List ℕ

-- Of the commands to one worker that pause and cancel.
pub record TaskOnWorkerParameters : Type 0 where
  pub request_id : Option String
  pub task_ids : List ℤ
  pub worker_id : ℕ

pub data Parameters : Type 0 where
  delete_opaque_key : ℤ → Parameters
  broadcast_update_worker_runtime_config : BroadcastUpdateWorkerRuntimeConfigParameters → Parameters
  apply_worker_runtime_config_to_worker : ApplyWorkerRuntimeConfigToWorkerParameters → Parameters
  broadcast_cancel_task : BroadcastTaskParameters → Parameters
  cancel_task_on_worker : TaskOnWorkerParameters → Parameters
  broadcast_pause_task : BroadcastTaskParameters → Parameters
  pause_task_on_worker : TaskOnWorkerParameters → Parameters

unfoldable pub type_of : Parameters → String
type_of (Parameters.delete_opaque_key p) = "deleteOpaqueKey"
type_of (Parameters.broadcast_update_worker_runtime_config p) = "broadcastUpdateWorkerRuntimeConfig"
type_of (Parameters.apply_worker_runtime_config_to_worker p) = "applyWorkerRuntimeConfigToWorker"
type_of (Parameters.broadcast_cancel_task p) = "broadcastCancelTask"
type_of (Parameters.cancel_task_on_worker p) = "cancelTaskOnWorker"
type_of (Parameters.broadcast_pause_task p) = "broadcastPauseTask"
type_of (Parameters.pause_task_on_worker p) = "pauseTaskOnWorker"

abbrev max_int32 : ℤ
max_int32 = pos 2147483647

abbrev strict : String → TaskAttributes
strict interval = record no_attributes {
  timeout = some "5m";
  retry_policy = some (record { interval = interval; max_attempts = negsuc 0 });
  priority = some max_int32;
}

unfoldable pub attributes_of : Parameters → TaskAttributes
attributes_of (Parameters.delete_opaque_key p) = record no_attributes {
  retry_policy = some (record { interval = "30m"; max_attempts = negsuc 0 });
}
attributes_of (Parameters.broadcast_update_worker_runtime_config p) = strict "2s"
attributes_of (Parameters.apply_worker_runtime_config_to_worker p) = strict "1s"
attributes_of (Parameters.broadcast_cancel_task p) = strict "2s"
attributes_of (Parameters.cancel_task_on_worker p) = strict "1s"
attributes_of (Parameters.broadcast_pause_task p) = strict "2s"
attributes_of (Parameters.pause_task_on_worker p) = strict "1s"

unfoldable pub apply_overrides : List TaskOverride → ApiTask → Reply ApiTask
apply_overrides [] task = ok task
apply_overrides (override ∷ rest) task = elim (override task) [
  | ok task' ↦ apply_overrides rest task'
  | fail e ↦ fail (Err.wrap "failed to apply task override" e)
]

module _ (marshal : Parameters → Bytes) where
  unfoldable pub new_task : Parameters → ApiTask
  unfolding type_of attributes_of
  new_task p = record no_task {
    attributes = attributes_of p;
    spec = record { type = type_of p; payload = marshal p };
    status = TaskStatus.pending;
  }

  unfoldable pub run_task : Parameters → List TaskOverride → M ℤ
  unfolding new_task apply_overrides
  run_task p overrides = lift (apply_overrides overrides (new_task p)) >>= push_task
