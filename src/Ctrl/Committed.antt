-- ===== src/Ctrl/Committed.antt =====
-- What the transaction of PauseTask and CancelTask of pkg/taskcore/ctrl/ctrl.go has committed when it
-- returns an id, whatever else failed before.
use anclax.Prelude.{
  ℕ, ◌-◌, ◌≡◌, refl, sym, ap, ◌∙◌, List, [], ◌∷◌, Option, none, some, true, arith, if◌then◌else◌,
  ◌⊎◌, inl, inr, Bool-cases,
}
use anclax.Prelude.Int.{ℤ, pos}
use anclax.Text.{Bytes}
use anclax.Errors.{Err, Sentinel, errors_is}
use anclax.Api.{TaskStatus}
use anclax.Db.{TaskRow, Db, World, ok, ◌>>=◌, return, throw, run_transaction}
use anclax.Db.Tasks.{get_task_by_id, update_all, update_task_status}
use anclax.Db.Trees.{list_task_descendant_ids}
use anclax.Db.Workers.{alive_ids, list_online_worker_ids}
use anclax.Db.Effects.Framing.{Same, Same-bind, Same-catch, Same-statement, query-ok}
use anclax.Db.Effects.Succeeding.{after-ok, recover-ok, Throws-wrap}
use anclax.Store.{
  found_task, pause_found, paused_unless_cancelled, pause_task_in_tx, pause_task, cancel_task,
  wrapped, push_task,
}
use anclax.Store.Made.{insert_pushed-ok}
use anclax.Store.Overrides.{with_priority}
use anclax.Runner.{Parameters, run_task, new_task, apply_overrides}
use anclax.Ctrl.{
  Control, control_task, control_all, control_collected, control_tree, broadcast_unless_none,
  collect_task_and_descendant_ids,
}

-- The next id of a task.
abbrev next_of : Db → ℕ
next_of db = db.next_task

Same-update_task_status :
    (id : ℤ) (status : TaskStatus) → Same next_of (update_task_status id status)
unfolding update_task_status update_all
Same-update_task_status id status = Same-statement next_of _ (λ w. refl)

Same-paused_unless_cancelled :
    (id : ℤ) (status : TaskStatus) → Same next_of (paused_unless_cancelled id status)
Same-paused_unless_cancelled id TaskStatus.cancelled w = refl
Same-paused_unless_cancelled id _ w =
    Same-catch next_of (update_task_status id TaskStatus.paused) _
      (Same-update_task_status id TaskStatus.paused) (λ e w. refl) w

Same-pause_task_in_tx : (id : ℤ) → Same next_of (pause_task_in_tx id)
unfolding pause_task_in_tx get_task_by_id errors_is
Same-pause_task_in_tx id =
    Same-bind next_of (found_task id) (pause_found id)
      (Same-catch next_of (get_task_by_id id >>= λ r. return (some r)) _
        (Same-bind next_of (get_task_by_id id) (λ r. return (some r))
          (Same-statement next_of _ (λ w. refl)) (λ r w. refl))
        missing)
      later
  where
    missing :
        (e : Err)
        → Same next_of {A = Option TaskRow} (
            if errors_is e Sentinel.no_rows
            then return none
            else throw (Err.wrap "failed to get task before pause" e))
    missing e w = elim (Bool-cases (errors_is e Sentinel.no_rows)) [
      | inl t ↦ rw t refl
      | inr t ↦ rw t refl
    ]

    later : (r : Option TaskRow) → Same next_of (pause_found id r)
    later none = λ w. refl
    later (some r) = Same-paused_unless_cancelled id r.status

Same-control_task : (c : Control) (id : ℤ) → Same next_of (control_task c id)
unfolding control_task pause_task cancel_task run_transaction errors_is
Same-control_task Control.pause id =
    Same-catch next_of (pause_task true id) _
      (λ w. Same-catch next_of (pause_task_in_tx id) _ (Same-pause_task_in_tx id) (λ e w. refl) w)
      (λ e w. refl)
Same-control_task Control.cancel id =
    Same-catch next_of (cancel_task id) _
      (Same-catch next_of (update_task_status id TaskStatus.cancelled) _
        (Same-update_task_status id TaskStatus.cancelled) (λ e w. refl))
      (λ e w. refl)

Same-control_all : (c : Control) (ids : List ℤ) → Same next_of (control_all c ids)
unfolding control_all
Same-control_all c [] = λ w. refl
Same-control_all c (id ∷ ids) =
    Same-bind next_of (control_task c id) _ (Same-control_task c id) (λ u. Same-control_all c ids)

Same-collect : (root : ℤ) → Same next_of (collect_task_and_descendant_ids root)
unfolding collect_task_and_descendant_ids list_task_descendant_ids
Same-collect root =
    Same-bind next_of (list_task_descendant_ids root) _ (Same-statement next_of _ (λ w. refl))
      (λ ids w. refl)

module _ (marshal : Parameters → Bytes) (now ttl : ℕ) where
  broadcast_unless_none-id :
      (c : Control) (ids : List ℤ) (worker : ℕ) (workers : List ℕ) (w w' : World) (id : ℤ)
      → broadcast_unless_none marshal now ttl c ids (worker ∷ workers) w ≡ (w', ok id)
      → id ≡ pos w.db.next_task
  unfolding broadcast_unless_none run_task new_task apply_overrides with_priority push_task
  broadcast_unless_none-id Control.pause ids worker workers w w' id h =
      let (p, tag, (row, is_id, next, _, _, _)) =
        insert_pushed-ok _ w w' id
          (recover-ok _ (λ e. throw (Err.wrap _ e)) w' id (Throws-wrap _) h) in
      next
  broadcast_unless_none-id Control.cancel ids worker workers w w' id h =
      let (p, tag, (row, is_id, next, _, _, _)) =
        insert_pushed-ok _ w w' id
          (recover-ok _ (λ e. throw (Err.wrap _ e)) w' id (Throws-wrap _) h) in
      next

  broadcast_unless_none-ok :
      (c : Control) (ids : List ℤ) (workers : List ℕ) (w w' : World) (id : ℤ)
      → broadcast_unless_none marshal now ttl c ids workers w ≡ (w', ok id)
      → ((id ≡ pos 0) × (workers ≡ []) × (w'.db ≡ w.db)) ⊎ (id ≡ pos w.db.next_task)
  unfolding broadcast_unless_none
  broadcast_unless_none-ok c ids [] w w' id h =
      inl (got id (ap (λ x. x.1) h), refl, ap (λ x. x.0.db) (sym h))
    where
      got : (i : ℤ) → ok (pos 0) ≡ ok i → i ≡ pos 0
      got i e = ground (arith, e)
  broadcast_unless_none-ok c ids (worker ∷ workers) w w' id h =
      inr (broadcast_unless_none-id c ids worker workers w w' id h)

  -- The id that it returns: 0 where no worker was alive, or that of the broadcast task, the next one.
  pub control_tree-id :
      (c : Control) (root : ℤ) (w w' : World) (id : ℤ)
      → control_tree marshal now ttl c root w ≡ (w', ok id)
      → ((id ≡ pos 0) × (alive_ids (now - ttl) w'.db.workers ≡ [])) ⊎ (id ≡ pos w.db.next_task)
  unfolding control_tree control_collected list_online_worker_ids
  control_tree-id c root w w' id h =
      let (w1, ids, got, h1) =
        after-ok (wrapped "collect task descendants" (collect_task_and_descendant_ids root) w)
          (control_collected marshal now ttl c) w' id h in
      let (w2, done, all, h2) =
        after-ok (control_all c ids w1)
          (λ done.
            wrapped "list online worker ids" (list_online_worker_ids (now - ttl))
            >>= broadcast_unless_none marshal now ttl c ids)
          w' id h1 in
      let (w3, workers, listed, h3) =
        after-ok (wrapped "list online worker ids" (list_online_worker_ids (now - ttl)) w2)
          (broadcast_unless_none marshal now ttl c ids) w' id h2 in
      let (same, read) =
        query-ok (λ db. alive_ids (now - ttl) db.workers) w2 w3 workers
          (recover-ok (list_online_worker_ids (now - ttl) w2)
            (λ e. throw (Err.wrap "list online worker ids" e)) w3 workers
            (Throws-wrap "list online worker ids") listed) in
      let collected : collect_task_and_descendant_ids root w ≡ (w1, ok ids) =
        recover-ok (collect_task_and_descendant_ids root w)
          (λ e. throw (Err.wrap "collect task descendants" e)) w1 ids
          (Throws-wrap "collect task descendants") got in
      let next : w3.db.next_task ≡ w.db.next_task =
        ap next_of same
        ∙ ap (λ x. next_of x.0.db) (sym all)
        ∙ Same-control_all c ids w1
        ∙ ap (λ x. next_of x.0.db) (sym collected)
        ∙ Same-collect root w in
      elim (broadcast_unless_none-ok c ids workers w3 w' id h3) [
        | inl (zero_id, none_alive, kept) ↦ inl (
          zero_id,
          ap (λ db. alive_ids (now - ttl) db.workers) (kept ∙ same) ∙ sym read ∙ none_alive,
        )
        | inr pushed ↦ inr (pushed ∙ ap pos next)
      ]
