-- ===== src/Broadcast/Retry.antt =====
-- A broadcast that is executed again under its request id sends no second command:
-- pkg/asynctask/executor_broadcast_worker.go.
use anclax.Prelude.{
  ℕ, ◌≡◌, refl, sym, ap, ◌∙◌, subst, inl, inr, String, List, [], ◌∷◌, Option, Bool-cases,
}
use anclax.Prelude.Int.{ℤ}
use anclax.Text.{Bytes}
use anclax.Errors.{Err}
use anclax.Db.{World, ok, ◌>>=◌, return, throw, after, recover}
use anclax.Db.Effects.{calm}
use anclax.Db.Effects.Succeeding.{after-ok, recover-ok, Throws-wrap}
use anclax.Store.{wrapped, push_task}
use anclax.Store.Push.{push_task-Found, push_task-existing}
use anclax.Store.Again.{KeepsTags, push_task-KeepsTags}
use anclax.Runner.{Parameters}
use anclax.Ctrl.{Control}
use anclax.Broadcast.Execute.{
  LocalWorker, worker_control_task_ids, is_local, interrupt_local, on_worker_unique_tag,
  enqueue_task_on_worker, fan_out, enqueue_text,
}
use anclax.Broadcast.Reached.{remote, fan_out-reached}
use anclax.Broadcast.Command.{HasCommand, command_of}

module _ (show_uuid : ℕ → String) (marshal : Parameters → Bytes) (c : Control) (parent : ℤ)
    (request : String) (ids : List ℤ) where
  abbrev tag_of : ℕ → String
  tag_of = on_worker_unique_tag show_uuid c request

  enqueue-ok :
      (t : ℕ) (w w' : World)
      → enqueue_task_on_worker show_uuid marshal c parent request t ids (calm w) ≡ (w', ok tt)
      → (w' ≡ calm w') × KeepsTags w w' × HasCommand show_uuid c request w' t
  enqueue-ok t w w' h =
      let (api, tag, runs) = command_of show_uuid marshal c parent request ids t in
      let (v, id, pushed, e) =
        after-ok (wrapped (enqueue_text c) (push_task api) (calm w)) (λ id. return tt) w' tt
          (sym (runs (calm w)) ∙ h) in
      let out : push_task api (calm w) ≡ (v, ok id) =
        recover-ok (push_task api (calm w)) (λ e. throw (Err.wrap (enqueue_text c) e)) v id
          (Throws-wrap (enqueue_text c)) pushed in
      let after : (push_task api (calm w)).0 ≡ w' = ap (λ x. x.0) out ∙ ap (λ x. x.0) e in
      let answer : (push_task api (calm w)).1 ≡ ok id = ap (λ x. x.1) out in
      let (faults, keeps) = push_task-KeepsTags api (tag_of t) w id tag answer in
      let (r, found, _) = push_task-Found api (tag_of t) w id tag answer in
      subst (λ x. (x ≡ calm x) × KeepsTags w x × HasCommand show_uuid c request x t) after
        ((λ i. record (push_task api (calm w)).0 { faults = faults i }), keeps, (r, found))

  enqueue-again :
      (t : ℕ) (w : World)
      → HasCommand show_uuid c request w t
      → enqueue_task_on_worker show_uuid marshal c parent request t ids (calm w) ≡ (calm w, ok tt)
  enqueue-again t w (r, found) =
      let (api, tag, runs) = command_of show_uuid marshal c parent request ids t in
      runs (calm w)
      ∙ ap (λ out. after (recover out (λ e. throw (Err.wrap (enqueue_text c) e))) (λ id. return tt))
          (push_task-existing api (tag_of t) w r tag found)

  abbrev Sent : List ℕ → World → Type 0
  Sent [] w = Unit {0}
  Sent (t ∷ ts) w = HasCommand show_uuid c request w t × Sent ts w

  module _ (l : Option LocalWorker)
      (still : (its : List ℤ) (w : World) → interrupt_local l c its w ≡ (w, ok tt)) where
    fan_out-Sent :
        (ts : List ℕ) (w w' : World) (waited : List ℕ)
        → fan_out show_uuid marshal l c parent request ids ts (calm w) ≡ (w', ok waited)
        → (w' ≡ calm w') × KeepsTags w w' × Sent (remote l ts) w'
    unfolding fan_out remote
    fan_out-Sent [] w w' waited h =
        subst (λ x. (x ≡ calm x) × KeepsTags w x × Unit {0}) (ap (λ x. x.0) h)
          (refl, λ tag r e. e, tt)
    fan_out-Sent (t ∷ ts) w w' waited h = elim (Bool-cases (is_local l t)) [
      | inl here ↦ rw here (
          fan_out-Sent ts w w' waited (
            sym (
              ap (λ out. after out (λ done. fan_out show_uuid marshal l c parent request ids ts))
                (still (worker_control_task_ids parent ids) (calm w)))
            ∙ (rw here at h)))
      | inr far ↦
          (let (v, done, first, k) =
              after-ok (enqueue_task_on_worker show_uuid marshal c parent request t ids (calm w))
                (λ done.
                  fan_out show_uuid marshal l c parent request ids ts >>= λ rest. return (t ∷ rest))
                w' waited (rw far at h) in
            let (u, rest, later, e) =
              after-ok (fan_out show_uuid marshal l c parent request ids ts v)
                (λ rest. return (t ∷ rest)) w' waited k in
            let (v_calm, kept, (r, found)) = enqueue-ok t w v first in
            let (u_calm, kept', sent) =
              fan_out-Sent ts v u rest
                (ap (fan_out show_uuid marshal l c parent request ids ts) (sym v_calm) ∙ later) in
            rw far (
              subst
                (λ x.
                  (x ≡ calm x)
                  × KeepsTags w x
                  × (HasCommand show_uuid c request x t × Sent (remote l ts) x))
                (ap (λ x. x.0) e)
                (
                  u_calm,
                  λ tag q i. kept' tag q (kept tag q i),
                  ((r, kept' (tag_of t) r found), sent),
                )))
    ]

    fan_out-again :
        (ts : List ℕ) (w : World)
        → Sent (remote l ts) w
        → fan_out show_uuid marshal l c parent request ids ts (calm w) ≡ (calm w, ok (remote l ts))
    unfolding fan_out remote
    fan_out-again [] w s = refl
    fan_out-again (t ∷ ts) w s = elim (Bool-cases (is_local l t)) [
      | inl here ↦
          (let s' : Sent (remote l ts) w = (rw here at s) in
            rw here (
              ap (λ out. after out (λ done. fan_out show_uuid marshal l c parent request ids ts))
                (still (worker_control_task_ids parent ids) (calm w))
              ∙ fan_out-again ts w s'))
      | inr far ↦
          (let s' : HasCommand show_uuid c request w t × Sent (remote l ts) w = (rw far at s) in
            rw far (
              ap
                (λ out. after out (λ done.
                  fan_out show_uuid marshal l c parent request ids ts >>= λ rest.
                  return (t ∷ rest)))
                (enqueue-again t w s'.0)
              ∙ ap (λ out. after out (λ rest. return (t ∷ rest))) (fan_out-again ts w s'.1)))
    ]

    -- A fan-out that succeeded and is run again, under the same request id and for the same targets, adds
    -- no command and changes nothing else, and gives the same workers to wait for, when no statement
    -- fails and the local worker answers without an error and leaves the database alone.
    pub fan_out-idempotent :
        (ts : List ℕ) (w w' : World) (waited : List ℕ)
        → fan_out show_uuid marshal l c parent request ids ts (calm w) ≡ (w', ok waited)
        → fan_out show_uuid marshal l c parent request ids ts w' ≡ (w', ok waited)
    fan_out-idempotent ts w w' waited h =
        let (w'_calm, _, sent) = fan_out-Sent ts w w' waited h in
        ap (fan_out show_uuid marshal l c parent request ids ts) w'_calm
        ∙ fan_out-again ts w' sent
        ∙ ap (λ x. (x, ok (remote l ts))) (sym w'_calm)
        ∙ ap (λ (x : List ℕ). (w', ok x))
            (sym
              (fan_out-reached show_uuid marshal l c parent request ids ts (calm w) w' waited h).0)
