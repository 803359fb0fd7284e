-- ===== src/Ctrl/Wait.antt =====
-- Waiting for a task, and the operations that wait for their broadcast: pkg/taskcore/ctrl/ctrl.go. What
-- other transactions do in the meantime, and what the listener then says, is an argument.
use anclax.Prelude.{
  ℕ, ◌-◌, ◌<◌, ◌≡◌, refl, sym, ap, subst, arith, Bool, false, String, List, [], Option, none, some,
  if◌then◌else◌, str_eq, ◌⊎◌, inl, inr, Bool-cases,
}
use anclax.Prelude.Int.{ℤ, pos, int_eq, int_eq_iff, ltb_ℤ}
use anclax.Text.{Bytes}
use anclax.Errors.{Err, Sentinel, errors_is}
use anclax.Api.{TaskStatus}
use anclax.Db.{TaskRow, EventSpec, Db, World, ok, M, ◌>>=◌, return, throw, catch, run_transaction}
use anclax.Db.Tasks.{get_task_by_id}
use anclax.Db.Workers.{alive_ids}
use anclax.Db.Effects.Framing.{run_transaction-ok}
use anclax.Ctrl.Committed.{control_tree-id}
use anclax.Db.Trees.{get_last_task_error_event}
use anclax.Db.Effects.Succeeding.{after-ok, recover-ok, Throws-wrap}
use anclax.Store.{lift, wrapped, resume_task, task_by_unique_tag}
use anclax.Runner.{Parameters}
use anclax.Listener.{TaskTerminalEvent}
use anclax.Ctrl.{
  Control, control_tree, control_tasks_by_tags_in_tx, normalize_task_control_tags,
  resume_tasks_by_tags_in_tx,
}

-- `refused`: WaitTask returned an error. `closed`: the channel closed without an event, with the
-- context's error if there is one. `done`: the context ended first.
pub data Waited : Type 0 where
  refused : Err → Waited
  closed : Option Err → Waited
  event : TaskTerminalEvent → Waited
  done : Err → Waited

unfoldable pub map_wait_task_error : Err → Err
map_wait_task_error e =
    if errors_is e Sentinel.task_not_found
    then Err.wrap "wait for task" (Err.sentinel Sentinel.task_not_found)
    else Err.wrap "wait for task" e

abbrev failed_task : Err → M TaskRow
failed_task e =
    if errors_is e Sentinel.no_rows
    then throw (Err.wrap "get failed task" (Err.sentinel Sentinel.task_not_found))
    else throw (Err.wrap "get failed task" e)

abbrev error_of : EventSpec → Err
error_of (EventSpec.task_completed id) = Err.message "unknown"
error_of (EventSpec.task_error id e) = e

abbrev no_last_error : Err → M Err
no_last_error e =
    if errors_is e Sentinel.no_rows
    then return (Err.message "unknown")
    else throw (Err.wrap "get last task error event" e)

-- The error is a new one, which wraps nothing; of its text, the task's type is kept.
unfoldable pub build_task_failed_error : ℤ → M (Unit {0})
build_task_failed_error id = do
  task ← catch (get_task_by_id id) failed_task
  last ← catch (get_last_task_error_event id >>= λ e. return (error_of e.spec)) no_last_error
  throw (Err.message task.spec.type)

abbrev by_status : TaskTerminalEvent → TaskStatus → M (Unit {0})
by_status e TaskStatus.completed = return tt
by_status e TaskStatus.failed = build_task_failed_error e.task_id
by_status e TaskStatus.cancelled =
    throw (Err.wrap "task cancelled" (Err.sentinel Sentinel.task_cancelled))
by_status e status = throw (Err.message "task reached non-terminal status")

unfoldable pub handle_task_terminal_event : TaskTerminalEvent → M (Unit {0})
unfolding build_task_failed_error
handle_task_terminal_event e = by_status e e.status

abbrev unless_failed : TaskTerminalEvent → Option Err → M (Unit {0})
unless_failed e none = handle_task_terminal_event e
unless_failed e (some err) = throw (map_wait_task_error err)

unfoldable pub conclude : Waited → M (Unit {0})
unfolding map_wait_task_error handle_task_terminal_event
conclude (Waited.refused e) = throw (map_wait_task_error e)
conclude (Waited.closed (some e)) = throw (Err.wrap "wait for task" e)
conclude (Waited.closed none) =
    throw (Err.wrap "wait for task" (Err.sentinel Sentinel.listener_closed))
conclude (Waited.event e) = unless_failed e e.err
conclude (Waited.done e) = throw (Err.wrap "wait for task" e)

-- The listener, with what happens until it answers.
abbrev pub Listener : Type 0
Listener = ℤ → World → World × Waited

unfoldable pub wait_for_task : Listener → ℤ → M (Unit {0})
unfolding conclude
wait_for_task listener id w = conclude (listener id w).1 (listener id w).0

abbrev wait_text : Control → String
wait_text Control.pause = "wait for broadcast pause task"
wait_text Control.cancel = "wait for broadcast cancel task"

abbrev is_positive : ℤ → Bool
is_positive id = ltb_ℤ (pos 0) id

module _ (marshal : Parameters → Bytes) (now ttl : ℕ) (listener : Listener) where
  unfoldable pub wait_unless_none : Control → ℤ → M (Unit {0})
  unfolding wait_for_task
  wait_unless_none c broadcast_id =
      if int_eq broadcast_id (pos 0)
      then return tt
      else wrapped (wait_text c) (wait_for_task listener broadcast_id)

  -- PauseTask and CancelTask.
  unfoldable pub control_task_and_wait : Control → ℤ → M (Unit {0})
  unfolding control_tree wait_unless_none
  control_task_and_wait c id =
      if is_positive id
      then (run_transaction false (control_tree marshal now ttl c id) >>= wait_unless_none c)
      else throw (Err.message "requires a positive taskID")

  -- PauseTasksByTags and CancelTasksByTags.
  unfoldable pub control_tasks_by_tags : Control → List String → List (List String) → M (Unit {0})
  unfolding normalize_task_control_tags control_tasks_by_tags_in_tx wait_unless_none
  control_tasks_by_tags c tags except = do
    s ← lift (normalize_task_control_tags tags except)
    id ← run_transaction false (control_tasks_by_tags_in_tx marshal now ttl c s)
    wait_unless_none c id

  -- PauseTaskByUniqueTag and CancelTaskByUniqueTag.
  unfoldable pub control_task_by_unique_tag : Control → String → M (Unit {0})
  unfolding control_task_and_wait
  control_task_by_unique_tag c tag =
      if str_eq tag ""
      then throw (Err.message "requires unique tag")
      else (wrapped "get task by unique tag" (task_by_unique_tag tag) >>= λ task.
          control_task_and_wait c task.id)

-- ResumeTask.
unfoldable pub resume_task_checked : ℤ → M (Unit {0})
resume_task_checked id =
    if is_positive id
    then wrapped "resume task" (resume_task id)
    else throw (Err.message "resume task requires a positive taskID")

unfoldable pub resume_tasks_by_tags : List String → List (List String) → M (Unit {0})
unfolding normalize_task_control_tags resume_tasks_by_tags_in_tx
resume_tasks_by_tags tags except = lift (normalize_task_control_tags tags except) >>= λ s.
    run_transaction false (resume_tasks_by_tags_in_tx s)

unfoldable pub resume_tasks_by_tags_with_tx : Bool → List String → List (List String) → M (Unit {0})
unfolding normalize_task_control_tags resume_tasks_by_tags_in_tx
resume_tasks_by_tags_with_tx has_tx tags except = do
  s ← lift (normalize_task_control_tags tags except)
  if has_tx
      then resume_tasks_by_tags_in_tx s
      else throw (Err.message "resume tasks by tags requires tx")

unfoldable pub resume_task_by_unique_tag : String → M (Unit {0})
unfolding resume_task_checked
resume_task_by_unique_tag tag =
    if str_eq tag ""
    then throw (Err.message "resume task requires unique tag")
    else (wrapped "get task by unique tag" (task_by_unique_tag tag) >>= λ task.
        resume_task_checked task.id)

throw-ne-ok : {A : Type 0} (e : Err) (w w' : World) (a : A) → throw e w ≡ (w', ok a) → ⊥
throw-ne-ok e w w' a h = ground (arith, ap (λ x. x.1) h)

build_task_failed_error-throws :
    (id : ℤ) (w w' : World) → build_task_failed_error id w ≡ (w', ok tt) → ⊥
unfolding build_task_failed_error
build_task_failed_error-throws id w w' h =
    let (w1, task, got, k) =
      after-ok (catch (get_task_by_id id) failed_task w)
        (λ task.
          catch (get_last_task_error_event id >>= λ e. return (error_of e.spec)) no_last_error
          >>= λ last. throw (Err.message task.spec.type))
        w' tt h in
    let (w2, last, read, thrown) =
      after-ok
        (catch (get_last_task_error_event id >>= λ e. return (error_of e.spec)) no_last_error w1)
        (λ last. throw (Err.message task.spec.type)) w' tt k in
    throw-ne-ok (Err.message task.spec.type) w2 w' tt thrown

by_status-ok :
    (e : TaskTerminalEvent) (status : TaskStatus) (w w' : World)
    → by_status e status w ≡ (w', ok tt)
    → status ≡ TaskStatus.completed
by_status-ok e TaskStatus.completed w w' h = refl
by_status-ok e TaskStatus.failed w w' h = absurd (build_task_failed_error-throws e.task_id w w' h)
by_status-ok e TaskStatus.cancelled w w' h = absurd (throw-ne-ok _ w w' tt h)
by_status-ok e TaskStatus.pending w w' h = absurd (throw-ne-ok _ w w' tt h)
by_status-ok e TaskStatus.paused w w' h = absurd (throw-ne-ok _ w w' tt h)
by_status-ok e (TaskStatus.other s) w w' h = absurd (throw-ne-ok _ w w' tt h)

abbrev pub Completes : Waited → Type 0
Completes (Waited.event e) = (e.status ≡ TaskStatus.completed) × (e.err ≡ none)
Completes _ = ⊥

conclude-ok : (a : Waited) (w w' : World) → conclude a w ≡ (w', ok tt) → Completes a
unfolding conclude handle_task_terminal_event
conclude-ok (Waited.refused e) w w' h = throw-ne-ok _ w w' tt h
conclude-ok (Waited.closed (some e)) w w' h = throw-ne-ok _ w w' tt h
conclude-ok (Waited.closed none) w w' h = throw-ne-ok _ w w' tt h
conclude-ok (Waited.done e) w w' h = throw-ne-ok _ w w' tt h
conclude-ok (Waited.event e) w w' h = go e.err refl h
  where
    go :
        (err : Option Err)
        → e.err ≡ err
        → unless_failed e err w ≡ (w', ok tt)
        → (e.status ≡ TaskStatus.completed) × (e.err ≡ none)
    go none eq k = (by_status-ok e e.status w w' k, eq)
    go (some err) eq k = absurd (throw-ne-ok _ w w' tt k)

module _ (marshal : Parameters → Bytes) (now ttl : ℕ) (listener : Listener) where
  wait_unless_none-ok :
      (c : Control) (id : ℤ) (w w' : World)
      → wait_unless_none marshal now ttl listener c id w ≡ (w', ok tt)
      → (id ≡ pos 0) ⊎ Completes (listener id w).1
  unfolding wait_unless_none wait_for_task
  wait_unless_none-ok c id w w' h = elim (Bool-cases (int_eq id (pos 0))) [
    | inl zero_id ↦ inl ((int_eq_iff id (pos 0)).0 zero_id)
    | inr pushed ↦ inr (
        conclude-ok (listener id w).1 (listener id w).0 w' (
          recover-ok (wait_for_task listener id w) (λ e. throw (Err.wrap (wait_text c) e)) w' tt
            (Throws-wrap (wait_text c)) (rw pushed at h)))
  ]

  waited_for :
      (c : Control) (next : ℕ) (alive : List ℕ) (id : ℤ) (w w' : World)
      → 0 < next
      → ((id ≡ pos 0) × (alive ≡ [])) ⊎ (id ≡ pos next)
      → wait_unless_none marshal now ttl listener c id w ≡ (w', ok tt)
      → ((id ≡ pos 0) × (alive ≡ [])) ⊎ ((id ≡ pos next) × Completes (listener id w).1)
  waited_for c next alive id w w' p (inl none_alive) h = inl none_alive
  waited_for c next alive id w w' p (inr pushed) h = elim (wait_unless_none-ok c id w w' h) [
    | inl zero_id ↦ absurd (ground (arith, pushed, zero_id))
    | inr completes ↦ inr (pushed, completes)
  ]

  -- PauseTask and CancelTask, where the ids of tasks start above 0, return no error only when the
  -- transaction over the tree of the task was committed, and either no worker is alive in what it
  -- committed, and it returned 0 for the broadcast, or the broadcast task that it pushed, under the next
  -- id, was reported completed.
  pub control_task_and_wait-ok :
      (c : Control) (id : ℤ) (w w' : World)
      → 0 < w.db.next_task
      → control_task_and_wait marshal now ttl listener c id w ≡ (w', ok tt)
      → (committed : World) × (broadcast_id : ℤ) × (run_transaction false
            (control_tree marshal now ttl c id)
            w
          ≡ (committed, ok broadcast_id))
        × (((broadcast_id ≡ pos 0) × (alive_ids (now - ttl) committed.db.workers ≡ []))
            ⊎ ((broadcast_id ≡ pos w.db.next_task) × Completes (listener broadcast_id committed).1))
  unfolding control_task_and_wait
  control_task_and_wait-ok c id w w' p h = elim (Bool-cases (is_positive id)) [
    | inr not_positive ↦
        absurd
          (throw-ne-ok (Err.message "requires a positive taskID") w w' tt (rw not_positive at h))
    | inl positive ↦
        (let (w1, b, ran, waited) =
            after-ok (run_transaction false (control_tree marshal now ttl c id) w)
              (wait_unless_none marshal now ttl listener c) w' tt (rw positive at h) in
          let (v, u, from, tree, left) =
            run_transaction-ok (control_tree marshal now ttl c id) w w1 b ran in
          let which =
            subst
              (λ (db : Db).
                ((b ≡ pos 0) × (alive_ids (now - ttl) db.workers ≡ [])) ⊎ (b ≡ pos w.db.next_task))
              (sym left)
              (subst
                (λ (db : Db).
                  ((b ≡ pos 0) × (alive_ids (now - ttl) u.db.workers ≡ []))
                  ⊎ (b ≡ pos db.next_task))
                from (control_tree-id marshal now ttl c id v u b tree)) in
          (
            w1,
            b,
            ran,
            waited_for c w.db.next_task (alive_ids (now - ttl) w1.db.workers) b w1 w' p which
                waited,
          ))
  ]
