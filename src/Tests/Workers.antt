-- ===== src/Tests/Workers.antt =====
-- Examples for the workers' rows, pkg/taskcore/worker/model_port.go.
use anclax.Prelude.{◌≡◌, refl, true, false, [], ◌∷◌, none, some, nat_eq}
use anclax.Prelude.Int.{pos, leb_ℤ}
use anclax.Prelude.Unique.{contains}
use anclax.Db.{World, ok, statement}
use anclax.Db.Workers.{has_worker, lagging_ids, update_worker_applied_config_version}
use anclax.Worker.Port.Workers.{ack_runtime_config_applied}
use anclax.Worker.Port.CaughtUp.{PortStep, run_steps, ack_runtime_config_applied-lagging}
use anclax.Db.{ConfigRow}
use anclax.Db.Workers.{latest_config}
use anclax.Worker.Types.{EngineConfig}
use anclax.Worker.State.{new_engine}
use anclax.Worker.Runtime.{Runtime, new_runtime}
use anclax.Worker.Runtime.Startup.{start_up}
use anclax.Worker.Port.Versions.{caught_up}
use anclax.Worker.Runtime.Restart.{start_up-caught_up, start_up-behind}
use anclax.Db.Effects.{calm}
use anclax.Tests.Store.{world_of, port}

-- The row of the port's worker.
abbrev registered : World
registered = record (world_of []) {
  db = record (world_of []).db {
    workers =
        record {
          id = 1;
          labels = [];
          online = true;
          last_heartbeat = 95;
          applied_config_version = pos 2;
        }
        ∷ [];
  };
}

abbrev acked : World
acked = (ack_runtime_config_applied port (pos 4) registered).0

there : has_worker 1 registered.db.workers ≡ true
unfolding has_worker
there = refl

acked_ok : ack_runtime_config_applied port (pos 4) registered ≡ (acked, ok tt)
unfolding ack_runtime_config_applied update_worker_applied_config_version statement
acked_ok = refl

-- A restart with an old version, and a late acknowledgement.
ack_runtime_config_applied-lagging_example :
    contains
      (lagging_ids 90
        (pos 3)
        (run_steps
          (PortStep.offline port ∷ PortStep.register port (pos 0) ∷ PortStep.ack port (pos 1) ∷ [])
          acked).db.workers)
      1
    ≡ false
ack_runtime_config_applied-lagging_example =
    ack_runtime_config_applied-lagging port (pos 3) (pos 4) registered acked
      (PortStep.offline port ∷ PortStep.register port (pos 0) ∷ PortStep.ack port (pos 1) ∷ []) 90
      there refl acked_ok

abbrev engine_config : EngineConfig
engine_config = record {
  worker_id = "w1";
  labels = [];
  concurrency = pos 1;
  max_strict_percentage = pos 0;
  label_weights = [];
}

abbrev fresh : Runtime
fresh = new_runtime (new_engine engine_config)

abbrev config : ConfigRow
config = record {
  version = pos 3;
  payload = record { max_strict_percentage = none; label_weights = [] };
}

abbrev configured : World
configured = record (world_of []) { db = record (world_of []).db { configs = config ∷ [] } }

latest_is : latest_config (config ∷ []) ≡ some config
unfolding latest_config
latest_is = refl

not_there : has_worker 1 [] ≡ false
unfolding has_worker
not_there = refl

start_up-caught_up_example :
    contains
      (lagging_ids 90
        (pos 3)
        (run_steps
          (PortStep.offline port ∷ PortStep.register port (pos 0) ∷ [])
          (start_up port none fresh (calm configured)).0).db.workers)
      1
    ≡ false
start_up-caught_up_example =
    start_up-caught_up port fresh config configured
      (PortStep.offline port ∷ PortStep.register port (pos 0) ∷ []) 90 latest_is not_there

-- The row has version 2.
abbrev restarting : World
restarting = record registered { db = record registered.db { configs = config ∷ [] } }

row_behind : caught_up 1 (pos 3) restarting.db.workers ≡ false
unfolding caught_up
row_behind = refl

start_up-behind_example :
    (leb_ℤ (pos 3) (start_up port none fresh (calm restarting)).1.engine.runtime_config_version
      ≡ true)
    × (contains (lagging_ids 90 (pos 3) (start_up port none fresh (calm restarting)).0.db.workers) 1
        ≡ true)
start_up-behind_example =
    start_up-behind port fresh config restarting 90 latest_is there row_behind refl
