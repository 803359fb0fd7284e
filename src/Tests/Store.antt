-- ===== src/Tests/Store.antt =====
-- Examples for the life cycle and the finalization in pkg/taskcore/worker, on a small table.
use anclax.Prelude.{◌+◌, ◌≡◌, refl, true, false, List, [], ◌∷◌, none, some, str_eq}
use anclax.Prelude.Int.{pos, int_eq}
use anclax.Errors.{Err, Sentinel, errors_is}
use anclax.Api.{TaskAttributes, TaskSpec, TaskStatus, ApiTask, no_attributes}
use anclax.Db.{TaskRow, EventSpec, Db, World, ok, fail, M, run_transaction}
use anclax.Db.Tasks.{
  insert_event, update_task_started_at_by_worker, any_row, is_mine, with_status_released,
}
use anclax.Db.Claims.{claimed}
use anclax.Db.Effects.{Kept, Kept-refl, calm, logged, succeeded}
use anclax.Worker.Types.{Task}
use anclax.Worker.Lifecycle.{
  TaskLifeCycleHandler, handle_failed, notify_failed, failure_status_override, should_retry_task,
  retry_later, update_started_at, report_unless, insert_task_error_event,
}
use anclax.Worker.Lifecycle.Frame.{own, HookKeeps}
use anclax.Worker.Lifecycle.Outcomes.{settle, handle_failed-permanent}
use anclax.Worker.Port.{ModelPort, finalize_task, finalize_failed, task_to_api}
use anclax.Worker.Port.Finalize.{finalize_task-stranger, finalize_task-atomic, finalize_task-Keeps}

abbrev pub spec : TaskSpec
spec = record { payload = []; type = "send" }

abbrev pub retrying : TaskAttributes
retrying = record no_attributes {
  retry_policy = some (record { interval = "5s"; max_attempts = pos 3 });
}

-- Task 7 waits under the serial key "k".
abbrev pub waiting : TaskRow
waiting = record {
  id = pos 7;
  attributes = retrying;
  spec = spec;
  status = TaskStatus.pending;
  unique_tag = none;
  started_at = none;
  created_at = 10;
  updated_at = 10;
  attempts = pos 0;
  locked_at = none;
  worker_id = none;
  serial_key = some "k";
  serial_id = none;
  priority = pos 2;
  weight = pos 1;
  parent_task_id = none;
}

-- Task 8 has waited longer, and is of less priority.
abbrev pub older : TaskRow
older = record waiting { id = pos 8; created_at = 5; serial_key = none; priority = pos 1 }

abbrev pub held : TaskRow
held = claimed 1 50 waiting

abbrev db_of : List TaskRow → Db
db_of rows = record {
  tasks = rows;
  events = [];
  next_task = 9;
  next_event = 1;
  opaque_keys = [];
  next_opaque_key = 1;
  workers = [];
  configs = [];
  next_config = 1;
}

abbrev pub world_of : List TaskRow → World
world_of rows = record { db = db_of rows; now = 100; faults = [] }

abbrev pub two_tasks : World
two_tasks = world_of (older ∷ waiting ∷ [])

-- Worker 1, whose intervals last 5 and whose cron jobs are due 60 later; `hook` is the user's.
abbrev pub handler : TaskLifeCycleHandler
handler = record {
  worker_id = 1;
  now = 100;
  parse_duration = λ text. ok (pos 5);
  parse_cron = λ text. ok (λ now. now + 60);
  on_task_failed = none;
}

abbrev pub port : ModelPort
port = record { labels = []; lock_ttl = 60; handler = handler }

-- The tasks as the worker has claimed them: one with a retry policy, one without, and a cron job.
abbrev pub claimed_task : TaskAttributes → Task
claimed_task attributes = record {
  id = pos 7;
  priority = pos 2;
  attempts = pos 1;
  attributes = attributes;
  spec = spec;
}

abbrev pub retried : ApiTask
retried = task_to_api (claimed_task retrying)

abbrev plain : ApiTask
plain = task_to_api (claimed_task no_attributes)

abbrev broken : Err
broken = Err.message "broken"

abbrev pub running : World
running = world_of (older ∷ held ∷ [])

running_mine : any_row (is_mine (pos 7) 1) (older ∷ held ∷ []) ≡ true
unfolding any_row int_eq
running_mine = refl

broken_plain :
    (errors_is broken Sentinel.task_lock_lost ≡ false) × (failure_status_override broken ≡ none)
unfolding errors_is failure_status_override
broken_plain = (refl, refl)

never_retried : should_retry_task broken none (pos 1) ≡ false
unfolding should_retry_task errors_is
never_retried = refl

handle_failed-permanent_example :
    handle_failed handler plain (some broken) (calm running)
    ≡ notify_failed handler.on_task_failed plain (
        settle handler plain
          (with_status_released TaskStatus.failed 100)
          (logged (EventSpec.task_error (pos 7) broken) (calm running)))
handle_failed-permanent_example =
    handle_failed-permanent handler plain running broken running_mine broken_plain.0 broken_plain.1
      never_retried

abbrev paused : Err
paused = Err.wrap "worker" (Err.sentinel Sentinel.task_paused)

quiet : (task : ApiTask) → HookKeeps handler task
unfolding notify_failed
quiet task w = Kept-refl (own handler task) w.db.tasks

-- The row of task 7 is now of worker 2.
abbrev lost : World
lost = world_of (older ∷ record held { worker_id = some 2 } ∷ [])

lost_mine : any_row (is_mine (pos 7) 1) (older ∷ record held { worker_id = some 2 } ∷ []) ≡ false
unfolding any_row int_eq
lost_mine = refl

finalize_task-stranger_example :
    (finalize_task port (claimed_task retrying) (some broken) lost).0.db ≡ lost.db
finalize_task-stranger_example =
    finalize_task-stranger port (claimed_task retrying) (some broken) lost (quiet retried) lost_mine

-- The second statement of the transaction fails.
abbrev faulty : World
faulty = record running { faults = none ∷ none ∷ some broken ∷ [] }

faulty_fails : succeeded (finalize_task port (claimed_task retrying) (some broken) faulty).1 ≡ false
unfolding finalize_task finalize_failed errors_is run_transaction handle_failed
    failure_status_override should_retry_task retry_later str_eq update_started_at
    update_task_started_at_by_worker int_eq report_unless insert_task_error_event insert_event
faulty_fails = refl

finalize_task-atomic_example :
    (finalize_task port (claimed_task retrying) (some broken) faulty).0.db ≡ faulty.db
finalize_task-atomic_example =
    finalize_task-atomic port (claimed_task retrying) (some broken) faulty (quiet retried)
      faulty_fails

finalize_task-Keeps_example :
    Kept
      (is_mine (pos 7) 1)
      running.db.tasks
      (finalize_task port (claimed_task retrying) (some broken) running).0.db.tasks
finalize_task-Keeps_example =
    finalize_task-Keeps port (claimed_task retrying) (some broken) running (quiet retried)

abbrev failing : M (Unit {0})
failing w = (record w { db = db_of [] }, fail broken)
