-- ===== src/Broadcast.antt =====
-- The executor of the broadcast tasks: pkg/asynctask/executor_broadcast_worker.go. A UUID is a number, the
-- nil one is 0, and how it is written is an argument; so are the local worker, the parsing of a
-- duration, and what other transactions do while the executor sleeps.
pub mod Weights
pub mod Targets
pub mod Execute
pub mod Command
pub mod Update
pub mod Safety
pub mod Reached
pub mod Retry
pub mod Convergence
use anclax.Prelude.{
  ℕ, zero, suc, ◌+◌, ◌-◌, Bool, true, false, ◌||◌, not, String, List, [], ◌∷◌, ◌++◌, Option, none,
  some, if◌then◌else◌, ◌==◌, nat_eq, str_eq, string_eq,
}
use anclax.Prelude.Int.{ℤ, pos, ltb_ℤ, leb_ℤ, int_eq, ℤ_eq}
use anclax.Prelude.Dict.{insert}
use anclax.Prelude.Unique.{contains, append_unique}
use anclax.Errors.{Err, Sentinel, errors_is}
use anclax.Api.{TaskStatus}
use anclax.Db.{
  TaskRow, RuntimeConfigPayload, World, Reply, ok, fail, M, ◌>>=◌, ◌>>◌, return, throw, catch,
}
use anclax.Db.Tasks.{get_task_by_unique_tag, update_task_status}
use anclax.Db.Workers.{list_online_worker_ids}
use anclax.Store.{wrapped}
use anclax.Worker.Types.{default_weight_config_key}

unfoldable pub normalize_max_strict_percentage : Option ℤ → Reply (Option ℤ)
normalize_max_strict_percentage none = ok none
normalize_max_strict_percentage (some p) =
    if ltb_ℤ p (pos 0) || ltb_ℤ (pos 100) p
    then fail (Err.message "maxStrictPercentage must be within [0, 100]")
    else ok (some p)

-- The loop over the labels and the weights at the same places, of which there are as many.
unfoldable pub add_weights : List (String × ℤ) → List String → List ℤ → Reply (List (String × ℤ))
add_weights out [] [] = ok out
add_weights out [] (w ∷ ws) = fail (Err.message "labels and weights must have the same length")
add_weights out (l ∷ ls) [] = fail (Err.message "labels and weights must have the same length")
add_weights out (l ∷ ls) (w ∷ ws) =
    let rest = add_weights (insert l w out) ls ws in
    if str_eq l ""
    then fail (Err.message "labels cannot contain empty value")
    else if ltb_ℤ w (pos 1)
    then fail (Err.message "weights must be greater than or equal to 1")
    else rest

unfoldable pub same_length : List String → List ℤ → Bool
same_length [] [] = true
same_length [] (w ∷ ws) = false
same_length (l ∷ ls) [] = false
same_length (l ∷ ls) (w ∷ ws) = same_length ls ws

abbrev default_of : Option ℤ → ℤ
default_of none = pos 1
default_of (some w) = w

unfoldable pub build_label_weights : Option ℤ → List String → List ℤ → Reply (List (String × ℤ))
unfolding add_weights same_length
build_label_weights default_weight labels weights =
    if ltb_ℤ (default_of default_weight) (pos 1)
    then fail (Err.message "defaultWeight must be greater than or equal to 1")
    else if not (same_length labels weights)
    then fail (Err.message "labels and weights must have the same length")
    else add_weights ((default_weight_config_key, default_of default_weight) ∷ []) labels weights

abbrev keep_positive : ℤ → Reply ℤ
keep_positive parsed =
    if leb_ℤ parsed (pos 0)
    then fail (Err.message "ackPollInterval must be positive")
    else ok parsed

abbrev parsed_interval : Reply ℤ → Reply ℤ
parsed_interval (fail e) = fail (Err.wrap "invalid ackPollInterval duration" e)
parsed_interval (ok d) = keep_positive d

-- In nanoseconds; a second by default.
unfoldable pub parse_ack_poll_interval : (String → Reply ℤ) → Option String → Reply ℤ
parse_ack_poll_interval parse_duration none = ok (pos 1000000000)
parse_ack_poll_interval parse_duration (some raw) =
    if str_eq raw "" then ok (pos 1000000000) else parsed_interval (parse_duration raw)

unfoldable pub unique_positive : List ℤ → List ℤ → Reply (List ℤ)
unfolding append_unique
unique_positive out [] = ok out
unique_positive out (id ∷ ids) =
    let rest = unique_positive (append_unique out id) ids in
    if leb_ℤ id (pos 0) then fail (Err.message "taskIDs must be positive") else rest

-- What is left of a list that is not empty is not empty.
unfoldable pub normalize_broadcast_task_ids : List ℤ → Reply (List ℤ)
unfolding unique_positive
normalize_broadcast_task_ids [] = fail (Err.message "taskIDs must be non-empty")
normalize_broadcast_task_ids (id ∷ ids) = unique_positive [] (id ∷ ids)

unfoldable pub normalize_from : List ℕ → List ℕ → List ℕ
unfolding append_unique
normalize_from out [] = out
normalize_from out (id ∷ ids) = normalize_from (if id == 0 then out else append_unique out id) ids

unfoldable pub normalize_worker_id_snapshot : List ℕ → List ℕ
unfolding normalize_from
normalize_worker_id_snapshot ids = normalize_from [] ids

unfoldable pub keep_alive : List ℕ → List ℕ → List ℕ
keep_alive alive [] = []
keep_alive alive (id ∷ ids) =
    let rest = keep_alive alive ids in if contains alive id then id ∷ rest else rest

-- defaultWorkerHeartbeatInterval and its multiple, in nanoseconds.
abbrev default_heartbeat_ttl : ℤ
default_heartbeat_ttl = pos 9000000000

unfoldable pub worker_heartbeat_ttl : ℤ → ℤ
worker_heartbeat_ttl configured =
    if leb_ℤ configured (pos 0) then default_heartbeat_ttl else configured

module _ (cutoff : World → ℕ) where
  -- The cutoff is the executor's clock less the time to live.
  unfoldable pub list_alive_workers : M (List ℕ)
  list_alive_workers w = wrapped "list online workers" (list_online_worker_ids (cutoff w)) w

  abbrev or_alive : List ℕ → M (List ℕ)
  or_alive [] = list_alive_workers
  or_alive (id ∷ ids) = return (id ∷ ids)

  unfoldable pub snapshot_or_list_alive_workers : List ℕ → M (List ℕ)
  unfolding normalize_worker_id_snapshot list_alive_workers
  snapshot_or_list_alive_workers ids = or_alive (normalize_worker_id_snapshot ids)

  abbrev alive_subset : List ℕ → M (List ℕ)
  alive_subset [] = list_alive_workers
  alive_subset (id ∷ ids) = list_alive_workers >>= λ alive. return (keep_alive alive (id ∷ ids))

  unfoldable pub alive_subset_of_snapshot : List ℕ → M (List ℕ)
  unfolding normalize_worker_id_snapshot list_alive_workers keep_alive
  alive_subset_of_snapshot ids = alive_subset (normalize_worker_id_snapshot ids)

-- A row, none, or an error that is not the lack of a row.
abbrev pub command_task : String → M (Option TaskRow)
command_task tag = catch (get_task_by_unique_tag tag >>= λ r. return (some r)) (λ e.
    if errors_is e Sentinel.no_rows
    then return none
    else throw (Err.wrap "get worker command task by unique tag" e))

abbrev cancel_if_pending : ℤ → TaskStatus → M (Unit {0})
cancel_if_pending id TaskStatus.pending =
    wrapped "cancel pending worker command task" (update_task_status id TaskStatus.cancelled)
cancel_if_pending id status = return tt

abbrev pub cancel_found : Option TaskRow → M (Unit {0})
cancel_found none = return tt
cancel_found (some r) = cancel_if_pending r.id r.status

unfoldable pub cancel_obsolete_worker_command_task : String → M (Unit {0})
cancel_obsolete_worker_command_task tag = command_task tag >>= cancel_found

-- Whether the command is done: a failed one is an error.
abbrev acked_by : TaskStatus → M Bool
acked_by TaskStatus.completed = return true
acked_by TaskStatus.failed = throw (Err.message "worker command task failed")
acked_by status = return false

abbrev pub acked : Option TaskRow → M Bool
acked none = return false
acked (some r) = acked_by r.status

unfoldable pub check_target : List ℕ → (ℕ → String) → ℕ → M Bool
unfolding cancel_obsolete_worker_command_task
check_target alive unique_tag worker =
    if contains alive worker
    then (command_task (unique_tag worker) >>= acked)
    else (cancel_obsolete_worker_command_task (unique_tag worker) >>= λ done. return true)

-- The loop over the targets; all of them are looked at, whatever the first ones say.
unfoldable pub check_targets : List ℕ → (ℕ → String) → List ℕ → M Bool
unfolding check_target
check_targets alive unique_tag [] = return true
check_targets alive unique_tag (t ∷ ts) = do
  first ← check_target alive unique_tag t
  rest ← check_targets alive unique_tag ts
  return (if first then rest else false)

unfoldable pub wait_round : (World → ℕ) → (ℕ → String) → List ℕ → M Bool
unfolding list_alive_workers check_targets
wait_round cutoff unique_tag targets =
    list_alive_workers cutoff >>= λ alive. check_targets alive unique_tag targets

abbrev pub Sleeps : Type 0
Sleeps = List (World → World)

-- Each sleep lets the others act; when there is no further one, the context has ended.
unfoldable pub wait_for_worker_command_tasks :
    (World → ℕ) → (ℕ → String) → List ℕ → Sleeps → M (Unit {0})
unfolding wait_round
wait_for_worker_command_tasks cutoff unique_tag targets [] =
    wait_round cutoff unique_tag targets >>= λ done.
    if done then return tt else throw (Err.sentinel Sentinel.canceled)
wait_for_worker_command_tasks cutoff unique_tag targets (others ∷ sleeps) =
    wait_round cutoff unique_tag targets >>= λ done.
    if done
    then return tt
    else (λ w. wait_for_worker_command_tasks cutoff unique_tag targets sleeps (others w))
