-- ===== src/Tests/Broadcast.antt =====
-- Examples for pkg/asynctask/executor_broadcast_worker.go.
use anclax.Prelude.{
  ℕ, ◌≡◌, ◌⊎◌, refl, true, false, String, List, [], ◌∷◌, none, some, if◌then◌else◌, ◌==◌, arith,
  nat_eq, str_eq, string_eq,
}
use anclax.Prelude.Int.{ℤ, pos, int_eq, ℤ_eq}
use anclax.Prelude.Dict.{lookup}
use anclax.Prelude.Unique.{contains, append_unique}
use anclax.Text.{Bytes}
use anclax.Errors.{errors_is}
use anclax.Db.{WorkerRow, World, Reply, ok, fail, return, statement}
use anclax.Db.Workers.{
  alive_ids, get_latest_worker_runtime_config, list_lagging_alive_workers, list_online_worker_ids,
}
use anclax.Db.Tasks.{
  any_row, find_row, update_all, update_rows, update_task_status, get_task_by_unique_tag,
}
use anclax.Db.Inserts.{create_task}
use anclax.Store.{
  push_task, insert_pushed, serial_attributes_from_json, serial_attributes,
  priority_and_weight_attributes,
}
use anclax.Store.Overrides.{with_labels, with_unique_tag, with_priority, with_parent_task_id}
use anclax.Db.Effects.{calm, succeeded}
use anclax.Runner.{
  Parameters, BroadcastTaskParameters, run_task, apply_overrides, attributes_of, new_task, type_of,
}
use anclax.Worker.Types.{default_weight_config_key}
use anclax.Ctrl.{Control}
use anclax.Broadcast.{
  build_label_weights, normalize_broadcast_task_ids, normalize_worker_id_snapshot,
  alive_subset_of_snapshot, list_alive_workers, wait_for_worker_command_tasks,
  parse_ack_poll_interval, cancel_obsolete_worker_command_task, check_target, check_targets,
  keep_alive, normalize_from, unique_positive, wait_round,
}
use anclax.Broadcast.Weights.{is_valid, last_weight, build_label_weights-outcome}
use anclax.Broadcast.Safety.{Starts}
use anclax.Broadcast.Execute.{
  LocalWorker, broadcast_child_task_overrides, enqueue_task_on_worker, fan_out,
  on_worker_unique_tag, worker_control_task_ids, worker_label, execute_broadcast_task,
}
use anclax.Broadcast.Retry.{fan_out-idempotent}
use anclax.Broadcast.Reached.{IsReached, execute_broadcast_task-ok}
use anclax.Broadcast.Update.{convergence_round, wait_for_convergence}
use anclax.Broadcast.Convergence.{Converged, wait_for_convergence-Converged}
use anclax.Tests.Store.{older, world_of}

build_label_weights-outcome_example :
    ((is_valid (some (pos 2)) ("a" ∷ "b" ∷ []) (pos 3 ∷ pos 4 ∷ []) ≡ false)
      × (succeeded (build_label_weights (some (pos 2)) ("a" ∷ "b" ∷ []) (pos 3 ∷ pos 4 ∷ []))
          ≡ false))
    ⊎ ((is_valid (some (pos 2)) ("a" ∷ "b" ∷ []) (pos 3 ∷ pos 4 ∷ []) ≡ true)
        × (out : List (String × ℤ)) × (build_label_weights
              (some (pos 2))
              ("a" ∷ "b" ∷ [])
              (pos 3 ∷ pos 4 ∷ [])
            ≡ ok out)
        × ((k : String)
            → lookup k out
              ≡ last_weight k
                  (if str_eq default_weight_config_key k then some (pos 2) else none)
                  ("a" ∷ "b" ∷ [])
                  (pos 3 ∷ pos 4 ∷ [])))
build_label_weights-outcome_example =
    build_label_weights-outcome (some (pos 2)) ("a" ∷ "b" ∷ []) (pos 3 ∷ pos 4 ∷ [])

abbrev alive : WorkerRow
alive = record {
  id = 3;
  labels = [];
  online = true;
  last_heartbeat = 95;
  applied_config_version = pos 1;
}

abbrev two_workers : World
two_workers = record (world_of (older ∷ [])) {
  db = record (world_of (older ∷ [])).db {
    workers = alive ∷ record alive { id = 4 } ∷ [];
    configs =
        record {
          version = pos 1;
          payload = record { max_strict_percentage = none; label_weights = [] };
        }
        ∷ [];
    next_config = 2;
  };
}

abbrev recent : World → ℕ
recent w = 91

abbrev show_uuid : ℕ → String
show_uuid id = if id == 3 then "three" else "four"

abbrev show_int : ℤ → String
show_int i = "1"

abbrev local : LocalWorker
local = record {
  worker_id = 3;
  interrupt_and_wait = λ c ids. return tt;
  notify_runtime_config = λ request. return tt;
}

abbrev name : Parameters → Bytes
name p = 1 ∷ []

abbrev parse_duration : String → Reply ℤ
parse_duration raw = ok (pos 5)

abbrev request : BroadcastTaskParameters
request = record {
  ack_poll_interval = none;
  request_id = some "r";
  task_ids = pos 8 ∷ [];
  worker_ids = 3 ∷ 4 ∷ [];
}

-- While the executor sleeps, the worker 4 goes offline.
abbrev goes_offline : World → World
goes_offline w = record w { db = record w.db { workers = alive ∷ [] } }

abbrev paused : World × Reply (Unit {0})
paused =
    execute_broadcast_task show_uuid name parse_duration recent "fresh" (goes_offline ∷ [])
      (some local) Control.pause (pos 9) request (calm two_workers)

sent : succeeded paused.1 ≡ true
unfolding execute_broadcast_task normalize_broadcast_task_ids parse_ack_poll_interval contains
    list_online_worker_ids run_task with_labels with_unique_tag with_priority with_parent_task_id
    push_task get_task_by_unique_tag errors_is insert_pushed serial_attributes_from_json
    serial_attributes priority_and_weight_attributes broadcast_child_task_overrides
    enqueue_task_on_worker fan_out on_worker_unique_tag worker_control_task_ids worker_label
    alive_subset_of_snapshot cancel_obsolete_worker_command_task check_target check_targets
    keep_alive list_alive_workers normalize_from normalize_worker_id_snapshot unique_positive
    wait_for_worker_command_tasks wait_round create_task any_row find_row update_all update_rows
    update_task_status alive_ids statement str_eq int_eq append_unique apply_overrides attributes_of
    new_task type_of
sent = refl

returned : (out : World × Reply (Unit {0})) → succeeded out.1 ≡ true → out ≡ (out.0, ok tt)
returned (w, ok u) h = refl
returned (w, fail e) h = absurd (ground (arith, h))

execute_broadcast_task-ok_example :
    IsReached show_uuid name parse_duration recent "fresh"
      (goes_offline ∷ [])
      (some local)
      Control.pause
      (pos 9)
      request
      (calm two_workers)
      paused.0
execute_broadcast_task-ok_example =
    execute_broadcast_task-ok show_uuid name parse_duration recent "fresh" (goes_offline ∷ [])
      (some local) Control.pause (pos 9) request (calm two_workers) paused.0 (returned paused sent)

abbrev waited : World × Reply (Unit {0})
waited =
    wait_for_convergence show_uuid show_int recent "r" (pos 1) (3 ∷ 4 ∷ []) [] (calm two_workers)

waited_ok : waited ≡ (waited.0, ok tt)
unfolding wait_for_convergence get_latest_worker_runtime_config list_lagging_alive_workers
    list_online_worker_ids contains
waited_ok = refl

wait_for_convergence-Converged_example :
    (v : World) × Starts
      (convergence_round show_uuid show_int recent "r" (pos 1) (3 ∷ 4 ∷ []))
      []
      (calm two_workers)
      v
    × Converged recent (pos 1) (3 ∷ 4 ∷ []) v
wait_for_convergence-Converged_example =
    wait_for_convergence-Converged show_uuid show_int recent "r" (pos 1) (3 ∷ 4 ∷ []) []
      (calm two_workers) waited.0 waited_ok

abbrev fanned : World × Reply (List ℕ)
fanned =
    fan_out show_uuid name (some local) Control.cancel (pos 9) "r" (pos 8 ∷ []) (3 ∷ 4 ∷ [])
      (calm two_workers)

fanned_ok : fanned ≡ (fanned.0, ok (4 ∷ []))
unfolding run_task with_labels with_unique_tag with_priority with_parent_task_id push_task
    get_task_by_unique_tag errors_is insert_pushed serial_attributes_from_json serial_attributes
    priority_and_weight_attributes broadcast_child_task_overrides enqueue_task_on_worker fan_out
    on_worker_unique_tag worker_control_task_ids worker_label create_task any_row find_row statement
    str_eq int_eq apply_overrides attributes_of new_task type_of
fanned_ok = refl

fan_out-idempotent_example :
    fan_out show_uuid name
      (some local)
      Control.cancel
      (pos 9)
      "r"
      (pos 8 ∷ [])
      (3 ∷ 4 ∷ [])
      fanned.0
    ≡ (fanned.0, ok (4 ∷ []))
fan_out-idempotent_example =
    fan_out-idempotent show_uuid name Control.cancel (pos 9) "r" (pos 8 ∷ []) (some local)
      (λ its w. refl) (3 ∷ 4 ∷ []) two_workers fanned.0 (4 ∷ []) fanned_ok
