-- ===== src/Store.antt =====
-- The task store: pkg/taskcore/store/store.go and overrides.go, with TaskToAPI of
-- pkg/taskcore/types/types.go. Each function takes the model that it queries; `in_tx` says that the
-- store's own model is already in a transaction. The cron library is a parameter.
pub mod Push
pub mod Again
pub mod Made
pub mod Status
pub mod Overrides
use anclax.Prelude.{
  ℕ, Bool, true, false, not, String, List, [], ◌∷◌, Option, none, some, if◌then◌else◌, string_eq,
  str_eq,
}
use anclax.Prelude.Int.{ℤ, pos, ltb_ℤ, neg_part, pos_part}
use anclax.Errors.{Err, Sentinel, errors_is}
use anclax.Api.{
  TaskAttributes, TaskCronjob, TaskRetryPolicy, TaskSpec, TaskStatus, ApiTask, no_task,
}
use anclax.Db.{
  TaskRow, World, Reply, ok, fail, M, ◌>>=◌, ◌>>◌, return, throw, catch, run_transaction,
}
use anclax.Db.Tasks.{get_task_by_id, get_task_by_unique_tag, update_task_status}
use anclax.Db.Inserts.{
  CreateTaskParams, create_task, update_task, update_pending_task_priority_by_labels,
  update_pending_task_weight_by_labels,
}

unfoldable pub serial_attributes : Option String → Option ℤ → Reply (Option String × Option ℤ)
serial_attributes none none = ok (none, none)
serial_attributes none (some id) = fail (Err.message "serialID requires serialKey")
serial_attributes (some key) id =
    if str_eq key "" then fail (Err.message "serialKey cannot be empty") else ok (some key, id)

-- The JSON of attributes without the two fields gives none of them back.
unfoldable pub serial_attributes_from_json : TaskAttributes → Reply (Option String × Option ℤ)
serial_attributes_from_json a = serial_attributes a.serial_key a.serial_id

abbrev pub or_default : ℤ → Option ℤ → ℤ
or_default d none = d
or_default d (some n) = n

unfoldable pub priority_and_weight_attributes : TaskAttributes → Reply (ℤ × ℤ)
priority_and_weight_attributes a =
    if ltb_ℤ (or_default (pos 0) a.priority) (pos 0)
    then fail (Err.message "priority must be non-negative")
    else if ltb_ℤ (or_default (pos 1) a.weight) (pos 1)
    then fail (Err.message "weight must be greater than or equal to 1")
    else ok (or_default (pos 0) a.priority, or_default (pos 1) a.weight)

abbrev pub lift : {A : Type 0} → Reply A → M A
lift r w = (w, r)

abbrev pub wrapped : {A : Type 0} → String → M A → M A
wrapped text m = catch m (λ e. throw (Err.wrap text e))

abbrev pub params_of : ApiTask → Option String × Option ℤ → ℤ × ℤ → CreateTaskParams
params_of task serial ranks = record {
  attributes = record task.attributes { priority = some ranks.0; weight = some ranks.1 };
  spec = task.spec;
  status = task.status;
  started_at = task.started_at;
  unique_tag = task.unique_tag;
  parent_task_id = task.parent_task_id;
  serial_key = serial.0;
  serial_id = serial.1;
  priority = ranks.0;
  weight = ranks.1;
}

abbrev pub insert_with : CreateTaskParams → M ℤ
insert_with params =
    wrapped "failed to push task" (create_task params) >>= λ created. return created.id

-- `pushTask` behind the look at the unique tag.
unfoldable pub insert_pushed : ApiTask → M ℤ
insert_pushed task = do
  serial ← lift (serial_attributes_from_json task.attributes)
  ranks ← lift (priority_and_weight_attributes task.attributes)
  insert_with (params_of task serial ranks)

-- What the look at the unique tag gives: the row that has it, or none.
abbrev pub existing : String → M (Option TaskRow)
existing tag = catch (get_task_by_unique_tag tag >>= λ r. return (some r)) (λ e.
    if errors_is e Sentinel.no_rows
    then return none
    else throw (Err.wrap "failed to check task by unique tag before push" e))

abbrev pub push_unless : ApiTask → Option TaskRow → M ℤ
push_unless task (some r) = return r.id
push_unless task none = insert_pushed task

abbrev pub push_by_tag : ApiTask → Option String → M ℤ
push_by_tag task none = insert_pushed task
push_by_tag task (some tag) = existing tag >>= push_unless task

unfoldable pub push_task : ApiTask → M ℤ
push_task task = push_by_tag task task.unique_tag

-- A missing task is no error.
abbrev pub paused_unless_cancelled : ℤ → TaskStatus → M (Unit {0})
paused_unless_cancelled id TaskStatus.cancelled = return tt
paused_unless_cancelled id status =
    wrapped "failed to update task status" (update_task_status id TaskStatus.paused)

abbrev pub found_task : ℤ → M (Option TaskRow)
found_task id = catch (get_task_by_id id >>= λ r. return (some r)) (λ e.
    if errors_is e Sentinel.no_rows
    then return none
    else throw (Err.wrap "failed to get task before pause" e))

abbrev pub pause_found : ℤ → Option TaskRow → M (Unit {0})
pause_found id none = return tt
pause_found id (some r) = paused_unless_cancelled id r.status

unfoldable pub pause_task_in_tx : ℤ → M (Unit {0})
pause_task_in_tx id = found_task id >>= pause_found id

unfoldable pub pause_task : Bool → ℤ → M (Unit {0})
unfolding pause_task_in_tx
pause_task in_tx id = catch (run_transaction in_tx (pause_task_in_tx id)) (λ e.
    if errors_is e Sentinel.already_in_transaction
    then wrapped "failed to pause task" (pause_task_in_tx id)
    else throw (Err.wrap "failed to pause task" e))

unfoldable pub cancel_task : ℤ → M (Unit {0})
cancel_task id = wrapped "failed to cancel task" (update_task_status id TaskStatus.cancelled)

unfoldable pub resume_task : ℤ → M (Unit {0})
resume_task id = wrapped "failed to resume task" (update_task_status id TaskStatus.pending)

abbrev pub is_cons : List String → Bool
is_cons [] = false
is_cons (x ∷ xs) = true

unfoldable pub update_priority_by_labels : List String → ℤ → M ℕ
update_priority_by_labels labels priority =
    if ltb_ℤ priority (pos 0)
    then throw (Err.message "priority must be non-negative")
    else wrapped "failed to update pending task priority by labels"
        (update_pending_task_priority_by_labels priority (is_cons labels) labels)

unfoldable pub update_weight_by_labels : List String → ℤ → M ℕ
update_weight_by_labels labels weight =
    if ltb_ℤ weight (pos 1)
    then throw (Err.message "weight must be greater than or equal to 1")
    else wrapped "failed to update pending task weight by labels"
        (update_pending_task_weight_by_labels weight (is_cons labels) labels)

abbrev pub scheduled : ℕ → Reply (ℕ → ℕ) → Reply ℕ
scheduled now (ok next) = ok (next now)
scheduled now (fail e) = fail (Err.wrap "failed to parse cron expression" e)

unfoldable pub update_cron_job : (String → Reply (ℕ → ℕ)) → ℕ → ℤ → String → List ℕ → M (Unit {0})
update_cron_job parse_cron now id expr payload = do
  next_time ← lift (scheduled now (parse_cron expr))
  task ← wrapped "failed to get task" (get_task_by_id id)
  let attributes = record task.attributes { cronjob = some (record { cron_expression = expr }) }
  serial ← lift (serial_attributes_from_json attributes)
  ranks ← lift (priority_and_weight_attributes attributes)
  wrapped "failed to update task" (
      update_task (record {
        id = id;
        attributes = record attributes { priority = some ranks.0; weight = some ranks.1 };
        spec = record task.spec { payload = payload };
        started_at = some next_time;
        serial_key = serial.0;
        serial_id = serial.1;
        priority = ranks.0;
        weight = ranks.1;
      }))

unfoldable pub task_to_api : TaskRow → ApiTask
task_to_api r = record no_task {
  id = r.id;
  parent_task_id = r.parent_task_id;
  created_at = r.created_at;
  spec = r.spec;
  started_at = r.started_at;
  locked_at = r.locked_at;
  worker_id = r.worker_id;
  status = r.status;
  updated_at = r.updated_at;
  attempts = r.attempts;
  attributes = record r.attributes {
    priority = some (or_default r.priority r.attributes.priority);
    weight = some (or_default r.weight r.attributes.weight);
  };
}

abbrev pub not_found : String → Err → M ApiTask
not_found text e =
    if errors_is e Sentinel.no_rows
    then throw (Err.sentinel Sentinel.task_not_found)
    else throw (Err.wrap text e)

unfoldable pub task_by_unique_tag : String → M ApiTask
task_by_unique_tag tag =
    catch (get_task_by_unique_tag tag >>= λ r. return (task_to_api r))
      (not_found "failed to get task by unique tag")

unfoldable pub task_by_id : ℤ → M ApiTask
task_by_id id =
    catch (get_task_by_id id >>= λ r. return (task_to_api r)) (not_found "failed to get task")
