-- ===== src/Worker/Port/Workers.antt =====
-- The worker's own row and the runtime configuration: pkg/taskcore/worker/model_port.go. The payload of a
-- configuration is a decoded one.
use anclax.Prelude.{Option, none, some, if◌then◌else◌}
use anclax.Prelude.Int.{ℤ}
use anclax.Errors.{Err, Sentinel, errors_is}
use anclax.Db.{ConfigRow, M, ◌>>=◌, return, throw, catch}
use anclax.Db.Workers.{
  upsert_worker, mark_worker_offline, update_worker_heartbeat, get_latest_worker_runtime_config,
  update_worker_applied_config_version,
}
use anclax.Store.{wrapped}
use anclax.Worker.Types.{RuntimeConfig}
use anclax.Worker.Port.{ModelPort}

unfoldable pub register_worker : ModelPort → ℤ → M (Unit {0})
register_worker p version =
    wrapped "register worker" (upsert_worker p.handler.worker_id p.labels version)

unfoldable pub mark_offline : ModelPort → M (Unit {0})
mark_offline p = wrapped "mark worker offline" (mark_worker_offline p.handler.worker_id)

unfoldable pub heartbeat : ModelPort → M (Unit {0})
heartbeat p = wrapped "update worker heartbeat" (update_worker_heartbeat p.handler.worker_id)

abbrev pub config_of : ConfigRow → RuntimeConfig
config_of c = record {
  version = c.version;
  max_strict_percentage = c.payload.max_strict_percentage;
  label_weights = c.payload.label_weights;
}

-- No configuration at all is no error.
unfoldable pub refresh_runtime_config : M (Option RuntimeConfig)
refresh_runtime_config =
    catch (get_latest_worker_runtime_config >>= λ c. return (some (config_of c))) (λ e.
      if errors_is e Sentinel.no_rows
      then return none
      else throw (Err.wrap "get latest runtime config" e))

unfoldable pub ack_runtime_config_applied : ModelPort → ℤ → M (Unit {0})
ack_runtime_config_applied p version =
    wrapped "update worker applied config version"
      (update_worker_applied_config_version p.handler.worker_id version)
