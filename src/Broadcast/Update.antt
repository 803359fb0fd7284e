-- ===== src/Broadcast/Update.antt =====
-- How a broadcast of a runtime configuration is executed: pkg/asynctask/executor_broadcast_worker.go.
use anclax.Prelude.{
  ℕ, ◌+◌, Bool, true, String, List, [], ◌∷◌, Option, none, some, if◌then◌else◌, ◌==◌, nat_eq,
}
use Prim.Native.String.{◌++◌ as text_append}
use anclax.Prelude.Int.{ℤ, ltb_ℤ}
use anclax.Prelude.Unique.{contains}
use anclax.Text.{Bytes}
use anclax.Errors.{Err, Sentinel}
use anclax.Db.{World, Reply, M, ◌>>=◌, ◌>>◌, return, throw}
use anclax.Db.Workers.{
  create_worker_runtime_config, get_latest_worker_runtime_config, list_lagging_alive_workers,
}
use anclax.Store.{lift, wrapped}
use anclax.Store.Overrides.{with_labels, with_unique_tag}
use anclax.Runner.{Parameters, BroadcastUpdateWorkerRuntimeConfigParameters, run_task}
use anclax.Broadcast.{
  Sleeps, parse_ack_poll_interval, build_label_weights, normalize_max_strict_percentage,
  snapshot_or_list_alive_workers, list_alive_workers, cancel_obsolete_worker_command_task,
}
use anclax.Broadcast.Execute.{
  LocalWorker, is_local, fatal, request_or, worker_label, broadcast_child_task_overrides, optional,
}

abbrev pub notify_local : Option LocalWorker → String → M (Unit {0})
notify_local none request = return tt
notify_local (some l) request = l.notify_runtime_config request

unfoldable pub count_in : List ℕ → List ℕ → ℕ
count_in targets [] = 0
count_in targets (id ∷ ids) = (if contains targets id then 1 else 0) + count_in targets ids

module _ (show_uuid : ℕ → String) (show_int : ℤ → String) where
  unfoldable pub apply_runtime_config_unique_tag : String → ℕ → ℤ → String
  apply_runtime_config_unique_tag request id version =
      text_append "broadcast:update_runtime_config:" (
        text_append request
          (text_append ":" (text_append (show_int version) (text_append ":" (show_uuid id)))))

  unfoldable pub cancel_dead : String → ℤ → List ℕ → List ℕ → M (Unit {0})
  unfolding cancel_obsolete_worker_command_task
  cancel_dead request version alive [] = return tt
  cancel_dead request version alive (t ∷ ts) =
      let later = cancel_dead request version alive ts in
      if contains alive t
      then later
      else (cancel_obsolete_worker_command_task (apply_runtime_config_unique_tag request t version)
          >>= λ done. later)

module _ (show_uuid : ℕ → String) (show_int : ℤ → String) (cutoff : World → ℕ) where
  -- One round of the wait for convergence; true when there is nothing left to wait for.
  unfoldable pub convergence_round : String → ℤ → List ℕ → M Bool
  unfolding cancel_dead count_in list_alive_workers
  convergence_round request version targets = do
    latest ← wrapped "get latest runtime config" get_latest_worker_runtime_config
    if ltb_ℤ version latest.version
        then return true
        else ((λ w.
              wrapped "list lagging alive workers" (list_lagging_alive_workers (cutoff w) version)
                w)
            >>= λ lagging. list_alive_workers cutoff >>= λ alive.
                cancel_dead show_uuid show_int request version alive targets >>= λ done.
                return (count_in targets lagging == 0))

  unfoldable pub wait_for_convergence : String → ℤ → List ℕ → Sleeps → M (Unit {0})
  unfolding convergence_round
  wait_for_convergence request version targets [] =
      convergence_round request version targets >>= λ done.
      if done then return tt else throw (Err.sentinel Sentinel.canceled)
  wait_for_convergence request version targets (others ∷ rest) =
      convergence_round request version targets >>= λ done.
      if done
      then return tt
      else (λ w. wait_for_convergence request version targets rest (others w))

module _ (show_uuid : ℕ → String) (show_int : ℤ → String) (marshal : Parameters → Bytes)
    (l : Option LocalWorker) where
  unfoldable pub enqueue_apply_runtime_config_to_worker : ℤ → String → ℕ → ℤ → M (Unit {0})
  unfolding apply_runtime_config_unique_tag worker_label broadcast_child_task_overrides
  enqueue_apply_runtime_config_to_worker parent request worker version =
      wrapped "enqueue apply runtime config task for worker" (
        run_task marshal
          (Parameters.apply_worker_runtime_config_to_worker
            (record { request_id = optional request; version = version; worker_id = worker }))
          (broadcast_child_task_overrides parent (
            with_labels (worker_label show_uuid worker ∷ [])
            ∷ with_unique_tag
                (apply_runtime_config_unique_tag show_uuid show_int request worker version)
            ∷ [])))
      >>= λ id. return tt

  unfoldable pub send_config : ℤ → String → ℤ → List ℕ → M (Unit {0})
  unfolding enqueue_apply_runtime_config_to_worker
  send_config task request version [] = return tt
  send_config task request version (t ∷ ts) =
      let later = send_config task request version ts in
      if is_local l t
      then (notify_local l request >>= λ done. later)
      else (enqueue_apply_runtime_config_to_worker task request t version >>= λ done. later)

module _ (show_uuid : ℕ → String) (show_int : ℤ → String) (marshal : Parameters → Bytes)
    (parse_duration : String → Reply ℤ) (cutoff : World → ℕ) (fresh : String) (sleeps : Sleeps)
    (l : Option LocalWorker) where
  unfoldable pub execute_broadcast_update :
      ℤ → BroadcastUpdateWorkerRuntimeConfigParameters → M (Unit {0})
  unfolding send_config wait_for_convergence
  execute_broadcast_update task p = do
    interval ← lift (fatal (parse_ack_poll_interval parse_duration p.ack_poll_interval))
    weights ← lift (fatal (build_label_weights p.default_weight p.labels p.weights))
    percentage ← lift (fatal (normalize_max_strict_percentage p.max_strict_percentage))
    created ← wrapped "create worker runtime config" (
        create_worker_runtime_config
          (record { max_strict_percentage = percentage; label_weights = weights }))
    targets ← snapshot_or_list_alive_workers cutoff p.worker_ids
    send_config show_uuid show_int marshal l task (request_or fresh p.request_id) created.version
        targets
    wait_for_convergence show_uuid show_int cutoff (request_or fresh p.request_id) created.version
        targets sleeps
