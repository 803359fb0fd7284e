-- ===== src/Broadcast/Command.antt =====
-- The command task of a worker: enqueuePauseTaskOnWorker and enqueueCancelTaskOnWorker of
-- pkg/asynctask/executor_broadcast_worker.go.
use anclax.Prelude.{ℕ, ◌≡◌, refl, sym, ap, ◌∙◌, subst, inl, inr, String, List, some, Bool-cases}
use anclax.Prelude.Int.{ℤ, pos, ltb_ℤ}
use anclax.Text.{Bytes}
use anclax.Errors.{Err}
use anclax.Api.{ApiTask}
use anclax.Db.{TaskRow, World, ok, ◌>>=◌, return, throw}
use anclax.Db.Tasks.{find_row}
use anclax.Db.Effects.Succeeding.{after-ok, recover-ok, Throws-wrap}
use anclax.Store.{wrapped, push_task}
use anclax.Store.Push.{tagged}
use anclax.Store.Made.{push_task-ok}
use anclax.Store.Overrides.{with_labels, with_unique_tag, with_priority, with_parent_task_id}
use anclax.Runner.{Parameters, run_task, new_task, apply_overrides}
use anclax.Ctrl.{Control}
use anclax.Broadcast.Execute.{
  on_worker_unique_tag, broadcast_child_task_overrides, enqueue_task_on_worker, enqueue_text,
}

-- A task stands in the table under the tag of the worker's command.
abbrev pub HasCommand : (ℕ → String) → Control → String → World → ℕ → Type 0
HasCommand show_uuid c request w t =
    (r : TaskRow) × (find_row (tagged (on_worker_unique_tag show_uuid c request t)) w.db.tasks
      ≡ some r)

module _ (show_uuid : ℕ → String) (marshal : Parameters → Bytes) (c : Control) (parent : ℤ)
    (request : String) (ids : List ℤ) where
  -- The command as the task that is pushed.
  pub command_of :
      (t : ℕ)
      → (api : ApiTask) × (api.unique_tag ≡ some (on_worker_unique_tag show_uuid c request t))
        × ((w : World)
            → enqueue_task_on_worker show_uuid marshal c parent request t ids w
              ≡ (wrapped (enqueue_text c) (push_task api) >>= λ id. return tt) w)
  unfolding enqueue_task_on_worker run_task new_task apply_overrides broadcast_child_task_overrides
      with_labels with_unique_tag with_priority with_parent_task_id
  command_of t = elim (Bool-cases (ltb_ℤ (pos 0) parent)) [
    | inl e ↦ rw e (_, refl, λ w. refl)
    | inr e ↦ rw e (_, refl, λ w. refl)
  ]

  -- A command that was enqueued without an error stands in the table, whatever failed.
  pub enqueue_task_on_worker-ok :
      (t : ℕ) (w w' : World)
      → enqueue_task_on_worker show_uuid marshal c parent request t ids w ≡ (w', ok tt)
      → HasCommand show_uuid c request w' t
  enqueue_task_on_worker-ok t w w' h =
      let (api, tag, runs) = command_of t in
      let (v, id, pushed, e) =
        after-ok (wrapped (enqueue_text c) (push_task api) w) (λ id. return tt) w' tt
          (sym (runs w) ∙ h) in
      let out : push_task api w ≡ (v, ok id) =
        recover-ok (push_task api w) (λ e. throw (Err.wrap (enqueue_text c) e)) v id
          (Throws-wrap (enqueue_text c)) pushed in
      let (r, found, _) =
        push_task-ok api (on_worker_unique_tag show_uuid c request t) w v id tag out in
      subst (λ x. HasCommand show_uuid c request x t) (ap (λ x. x.0) e) (r, found)
