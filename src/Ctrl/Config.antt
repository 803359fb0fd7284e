-- ===== src/Ctrl/Config.antt =====
-- The start of a configuration broadcast: UpdateWorkerRuntimeConfig of pkg/taskcore/ctrl/ctrl.go, and
-- runtime_config_task.go. How a UUID is written and parsed is an argument.
use anclax.Prelude.{
  ℕ, ◌-◌, ◌≡◌, refl, false, String, List, [], ◌∷◌, ◌++◌, Option, none, some, if◌then◌else◌, ◌==◌,
  str_eq, inl, inr, Bool-cases,
}
use anclax.Prelude.Int.{ℤ}
use anclax.Text.{Bytes}
use anclax.Errors.{Err}
use anclax.Db.{Reply, ok, fail, M, ◌>>=◌, throw}
use anclax.Db.Workers.{list_online_worker_ids}
use anclax.Store.{lift, wrapped}
use anclax.Store.Overrides.{TaskOverride, with_priority}
use anclax.Runner.{Parameters, BroadcastUpdateWorkerRuntimeConfigParameters, run_task}
use anclax.Ctrl.{worker_control_task_priority}
use anclax.Ctrl.Wait.{Listener, wait_for_task}

pub record UpdateWorkerRuntimeConfigRequest : Type 0 where
  pub max_strict_percentage : Option ℤ
  pub default_weight : Option ℤ
  pub labels : List String
  pub weights : List ℤ
  pub worker_ids : List String

-- The nil id is left out.
unfoldable pub stringify_worker_ids : (ℕ → String) → List ℕ → List String
stringify_worker_ids show_uuid [] = []
stringify_worker_ids show_uuid (id ∷ ids) =
    let rest = stringify_worker_ids show_uuid ids in if id == 0 then rest else show_uuid id ∷ rest

abbrev and_ids : Reply ℕ → Reply (List ℕ) → Reply (List ℕ)
and_ids (fail e) ids = fail (Err.wrap "invalid workerID" e)
and_ids (ok id) (fail e) = fail e
and_ids (ok id) (ok ids) = ok (id ∷ ids)

-- The loop over the written ids, of which an empty one is passed over.
unfoldable pub parse_worker_ids : (String → Reply ℕ) → List String → Reply (List ℕ)
parse_worker_ids parse_uuid [] = ok []
parse_worker_ids parse_uuid (raw ∷ raws) =
    let rest = parse_worker_ids parse_uuid raws in
    if str_eq raw "" then rest else and_ids (parse_uuid raw) rest

abbrev parameters_of :
    UpdateWorkerRuntimeConfigRequest → List ℕ → BroadcastUpdateWorkerRuntimeConfigParameters
parameters_of r ids = record {
  ack_poll_interval = none;
  default_weight = r.default_weight;
  labels = r.labels;
  max_strict_percentage = r.max_strict_percentage;
  request_id = none;
  weights = r.weights;
  worker_ids = ids;
}

module _ (show_uuid : ℕ → String) (parse_uuid : String → Reply ℕ)
    (marshal : Parameters → Bytes) where
  -- Of a request that is not nil.
  unfoldable pub run_update_worker_runtime_config_task :
      UpdateWorkerRuntimeConfigRequest → List TaskOverride → M ℤ
  unfolding parse_worker_ids
  run_update_worker_runtime_config_task r overrides =
      lift (parse_worker_ids parse_uuid r.worker_ids) >>= λ ids.
      run_task marshal (Parameters.broadcast_update_worker_runtime_config (parameters_of r ids))
        (overrides ++ with_priority worker_control_task_priority ∷ [])

  module _ (now ttl : ℕ) where
    unfoldable pub start_update_worker_runtime_config :
        Option UpdateWorkerRuntimeConfigRequest → M ℤ
    unfolding stringify_worker_ids run_update_worker_runtime_config_task
    start_update_worker_runtime_config none =
        throw (Err.message "update worker runtime config request cannot be nil")
    start_update_worker_runtime_config (some r) = do
      alive ← wrapped "list online worker ids" (list_online_worker_ids (now - ttl))
      wrapped "run update worker runtime config task" (
          run_update_worker_runtime_config_task
            (record r { worker_ids = stringify_worker_ids show_uuid alive }) [])

    unfoldable pub update_worker_runtime_config :
        Listener → Option UpdateWorkerRuntimeConfigRequest → M (Unit {0})
    unfolding start_update_worker_runtime_config wait_for_task
    update_worker_runtime_config listener r = do
      id ← start_update_worker_runtime_config r
      wrapped "wait for update worker runtime config task" (wait_for_task listener id)

unfoldable without_nil : List ℕ → List ℕ
without_nil [] = []
without_nil (id ∷ ids) = let rest = without_nil ids in if id == 0 then rest else id ∷ rest

-- The ids of the broadcast are those of the alive workers, written and parsed again, when the texts are
-- not empty and parse back.
parse_worker_ids-stringify_worker_ids :
    (show_uuid : ℕ → String) (parse_uuid : String → Reply ℕ) (ids : List ℕ)
    → ((id : ℕ) → (str_eq (show_uuid id) "" ≡ false) × (parse_uuid (show_uuid id) ≡ ok id))
    → parse_worker_ids parse_uuid (stringify_worker_ids show_uuid ids) ≡ ok (without_nil ids)
unfolding parse_worker_ids stringify_worker_ids without_nil
parse_worker_ids-stringify_worker_ids show_uuid parse_uuid [] back = refl
parse_worker_ids-stringify_worker_ids show_uuid parse_uuid (id ∷ ids) back =
    elim (Bool-cases (id == 0)) [
      | inl e ↦ rw e (parse_worker_ids-stringify_worker_ids show_uuid parse_uuid ids back)
      | inr e ↦ rw e (
          rw
            (
              (back id).0,
              (back id).1,
              parse_worker_ids-stringify_worker_ids show_uuid parse_uuid ids back,
            )
            refl)
    ]
