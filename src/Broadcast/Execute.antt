-- ===== src/Broadcast/Execute.antt =====
-- How a broadcast is executed, pkg/asynctask/executor_broadcast_worker.go, and how a worker handles a
-- command, pkg/asynctask/worker_control_handler.go.
use anclax.Prelude.{
  ℕ, Bool, true, false, String, List, [], ◌∷◌, ◌++◌, Option, none, some, if◌then◌else◌, ◌==◌,
  str_eq, nat_eq,
}
use Prim.Native.String.{◌++◌ as text_append}
use anclax.Prelude.Int.{ℤ, pos, ltb_ℤ, int_eq}
use anclax.Text.{Bytes}
use anclax.Errors.{Err, Sentinel}
use anclax.Db.{World, Reply, ok, fail, M, ◌>>=◌, return, throw}
use anclax.Store.{lift, wrapped}
use anclax.Store.Overrides.{
  TaskOverride, with_labels, with_unique_tag, with_priority, with_parent_task_id,
}
use anclax.Runner.{Parameters, BroadcastTaskParameters, TaskOnWorkerParameters, run_task}
use anclax.Ctrl.{Control}
use anclax.Broadcast.{
  Sleeps, normalize_broadcast_task_ids, parse_ack_poll_interval, alive_subset_of_snapshot,
  wait_for_worker_command_tasks,
}

-- What the executor and the handler use of the worker of their process.
pub record LocalWorker : Type 0 where
  pub worker_id : ℕ
  -- InterruptTasks with the cause of the control, and then WaitTaskRuntimes.
  pub interrupt_and_wait : Control → List ℤ → M (Unit {0})
  pub notify_runtime_config : String → M (Unit {0})

-- The tasks to interrupt are never the command that asks for it.
unfoldable pub worker_control_task_ids : ℤ → List ℤ → List ℤ
worker_control_task_ids control [] = []
worker_control_task_ids control (id ∷ ids) =
    let rest = worker_control_task_ids control ids in if int_eq id control then rest else id ∷ rest

abbrev with_parent : ℤ → List TaskOverride
with_parent id = if ltb_ℤ (pos 0) id then with_parent_task_id id ∷ [] else []

unfoldable pub broadcast_child_task_overrides : ℤ → List TaskOverride → List TaskOverride
broadcast_child_task_overrides parent overrides =
    overrides ++ with_priority (pos 0) ∷ with_parent parent

-- errors.Wrap(ErrFatalTask, err.Error()), whose text is not kept.
abbrev pub fatal : {A : Type 0} → Reply A → Reply A
fatal (ok a) = ok a
fatal (fail e) = fail (Err.wrap "rejected parameters" (Err.sentinel Sentinel.fatal_task))

abbrev nil_params : {A : Type 0} → M A
nil_params = throw (Err.wrap "params cannot be nil" (Err.sentinel Sentinel.fatal_task))

-- A missing or empty request id is drawn anew.
abbrev pub request_or : String → Option String → String
request_or fresh none = fresh
request_or fresh (some id) = if str_eq id "" then fresh else id

abbrev on_worker : Control → TaskOnWorkerParameters → Parameters
on_worker Control.pause = Parameters.pause_task_on_worker
on_worker Control.cancel = Parameters.cancel_task_on_worker

abbrev pub enqueue_text : Control → String
enqueue_text Control.pause = "enqueue pause task command for worker"
enqueue_text Control.cancel = "enqueue cancel task command for worker"

abbrev tag_prefix : Control → String
tag_prefix Control.pause = "broadcast:pause_task:"
tag_prefix Control.cancel = "broadcast:cancel_task:"

-- A request id that is empty is left out.
abbrev pub optional : String → Option String
optional id = if str_eq id "" then none else some id

module _ (show_uuid : ℕ → String) where
  unfoldable pub worker_label : ℕ → String
  worker_label id = text_append "worker:" (show_uuid id)

  -- cancelOnWorkerUniqueTag and pauseOnWorkerUniqueTag.
  unfoldable pub on_worker_unique_tag : Control → String → ℕ → String
  on_worker_unique_tag c request id =
      text_append (tag_prefix c) (text_append request (text_append ":" (show_uuid id)))

abbrev pub is_local : Option LocalWorker → ℕ → Bool
is_local none worker = false
is_local (some l) worker = l.worker_id == worker

abbrev pub interrupt_local : Option LocalWorker → Control → List ℤ → M (Unit {0})
interrupt_local none c ids = return tt
interrupt_local (some l) c ids = l.interrupt_and_wait c ids

abbrev pub unless_none : List ℕ → M (Unit {0}) → M (Unit {0})
unless_none [] m = return tt
unless_none (t ∷ ts) m = m

module _ (show_uuid : ℕ → String) (marshal : Parameters → Bytes) where
  -- enqueueCancelTaskOnWorker and enqueuePauseTaskOnWorker.
  unfoldable pub enqueue_task_on_worker : Control → ℤ → String → ℕ → List ℤ → M (Unit {0})
  unfolding on_worker_unique_tag worker_label broadcast_child_task_overrides
  enqueue_task_on_worker c parent request worker ids =
      wrapped (enqueue_text c) (
        run_task marshal
          (on_worker c
            (record { request_id = optional request; task_ids = ids; worker_id = worker }))
          (broadcast_child_task_overrides parent (
            with_labels (worker_label show_uuid worker ∷ [])
            ∷ with_unique_tag (on_worker_unique_tag show_uuid c request worker)
            ∷ [])))
      >>= λ id. return tt

  -- The loop over the targets; the result is the targets to wait for.
  unfoldable pub fan_out : Option LocalWorker → Control → ℤ → String → List ℤ → List ℕ → M (List ℕ)
  unfolding enqueue_task_on_worker worker_control_task_ids
  fan_out l c task request ids [] = return []
  fan_out l c task request ids (t ∷ ts) =
      let later = fan_out l c task request ids ts in
      if is_local l t
      then (interrupt_local l c (worker_control_task_ids task ids) >>= λ done. later)
      else (enqueue_task_on_worker c task request t ids >>= λ done.
          later >>= λ rest. return (t ∷ rest))

module _ (show_uuid : ℕ → String) (marshal : Parameters → Bytes) (parse_duration : String → Reply ℤ)
    (cutoff : World → ℕ) (fresh : String) (sleeps : Sleeps) (l : Option LocalWorker) where
  -- ExecuteBroadcastPauseTask and ExecuteBroadcastCancelTask on parameters.
  unfoldable pub execute_broadcast_task : Control → ℤ → BroadcastTaskParameters → M (Unit {0})
  unfolding fan_out wait_for_worker_command_tasks alive_subset_of_snapshot
  execute_broadcast_task c task p = do
    ids ← lift (fatal (normalize_broadcast_task_ids p.task_ids))
    interval ← lift (fatal (parse_ack_poll_interval parse_duration p.ack_poll_interval))
    targets ← alive_subset_of_snapshot cutoff p.worker_ids
    waited ← fan_out show_uuid marshal l c task (request_or fresh p.request_id) ids targets
    unless_none waited (
        wait_for_worker_command_tasks cutoff
          (on_worker_unique_tag show_uuid c (request_or fresh p.request_id)) waited sleeps)

  unfoldable pub execute_broadcast : Control → ℤ → Option BroadcastTaskParameters → M (Unit {0})
  unfolding execute_broadcast_task
  execute_broadcast c task none = nil_params
  execute_broadcast c task (some p) = execute_broadcast_task c task p

-- HandleTask on decoded parameters; the nil id stands for every worker.
unfoldable pub is_target_worker : LocalWorker → ℕ → Bool
is_target_worker l target = if target == 0 then true else l.worker_id == target

abbrev request_text : Option String → String
request_text none = ""
request_text (some id) = id

abbrev handle_on_worker : LocalWorker → Control → ℤ → TaskOnWorkerParameters → M (Unit {0})
handle_on_worker l c task p =
    if is_target_worker l p.worker_id
    then l.interrupt_and_wait c (worker_control_task_ids task p.task_ids)
    else return tt

unfoldable pub handle_task : LocalWorker → ℤ → Parameters → M (Unit {0})
unfolding is_target_worker worker_control_task_ids
handle_task l task (Parameters.apply_worker_runtime_config_to_worker p) =
    if is_target_worker l p.worker_id
    then l.notify_runtime_config (request_text p.request_id)
    else return tt
handle_task l task (Parameters.cancel_task_on_worker p) = handle_on_worker l Control.cancel task p
handle_task l task (Parameters.pause_task_on_worker p) = handle_on_worker l Control.pause task p
handle_task l task _ = throw (Err.sentinel Sentinel.unknown_task_type)
