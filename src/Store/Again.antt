-- ===== src/Store/Again.antt =====
-- What a push of pkg/taskcore/store/store.go under a unique tag leaves for later ones.
use anclax.Prelude.{◌≡◌, refl, sym, subst, inl, inr, String, [], Option, none, some, Bool-cases}
use anclax.Prelude.Int.{ℤ}
use anclax.Api.{ApiTask}
use anclax.Db.{TaskRow, World, Reply, ok, fail, ◌>>=◌, statement}
use anclax.Db.Tasks.{find_row}
use anclax.Db.Inserts.{CreateTaskParams, tag_taken, create_task, check_row}
use anclax.Db.Effects.{calm}
use anclax.Db.Effects.Finding.{find_row-append}
use anclax.Store.{
  serial_attributes_from_json, priority_and_weight_attributes, insert_pushed, push_task,
  push_unless, lift, insert_with, params_of,
}
use anclax.Store.Push.{tagged, Validated, insert_pushed-Validated, push_task-tagged}

insert_with-faults : (p : CreateTaskParams) (w : World) → (insert_with p (calm w)).0.faults ≡ []
unfolding create_task statement
insert_with-faults p w = elim (Bool-cases (check_row p)) [
  | inr invalid ↦ rw invalid refl
  | inl valid ↦ elim (Bool-cases (tag_taken p.unique_tag w.db.tasks)) [
    | inl taken ↦ rw (valid, taken) refl
    | inr free ↦ rw (valid, free) refl
  ]
]

insert_pushed-faults : (task : ApiTask) (w : World) → (insert_pushed task (calm w)).0.faults ≡ []
unfolding insert_pushed
insert_pushed-faults task w =
    serial (serial_attributes_from_json task.attributes)
      (priority_and_weight_attributes task.attributes)
  where
    serial :
        (s : Reply (Option String × Option ℤ)) (r : Reply (ℤ × ℤ))
        → ((lift s >>= λ serial. lift r >>= λ ranks. insert_with (params_of task serial ranks))
            (calm w)).0.faults
          ≡ []
    serial (fail e) r = refl
    serial (ok s) (fail e) = refl
    serial (ok s) (ok pw) = insert_with-faults (params_of task s pw) w

-- The rows that stand under a tag stay there.
abbrev pub KeepsTags : World → World → Type 0
KeepsTags w w' =
    (tag : String) (r : TaskRow)
    → find_row (tagged tag) w.db.tasks ≡ some r
    → find_row (tagged tag) w'.db.tasks ≡ some r

pub push_task-KeepsTags :
    (task : ApiTask) (tag : String) (w : World) (id : ℤ)
    → task.unique_tag ≡ some tag
    → (push_task task (calm w)).1 ≡ ok id
    → ((push_task task (calm w)).0.faults ≡ []) × KeepsTags w (push_task task (calm w)).0
push_task-KeepsTags task tag w id t h =
    subst (λ out. (out.0.faults ≡ []) × KeepsTags w out.0) (sym (push_task-tagged task tag w t))
      (go (find_row (tagged tag) w.db.tasks)
        (subst (λ out. out.1 ≡ ok id) (push_task-tagged task tag w t) h))
  where
    added :
        Validated task w (insert_pushed task (calm w)).0 id
        → KeepsTags w (insert_pushed task (calm w)).0
    added (p, same, (row, tasks, _, _, _, _, _)) other r e =
        rw tasks (find_row-append (tagged other) w.db.tasks _ r e)

    go :
        (o : Option TaskRow)
        → (push_unless task o (calm w)).1 ≡ ok id
        → ((push_unless task o (calm w)).0.faults ≡ [])
          × KeepsTags w (push_unless task o (calm w)).0
    go (some r) k = (refl, λ other q e. e)
    go none k = (insert_pushed-faults task w, added (insert_pushed-Validated task w id k))
