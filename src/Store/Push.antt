-- ===== src/Store/Push.antt =====
-- What a push of pkg/taskcore/store/store.go does.
use anclax.Prelude.{
  ◌≡◌, refl, sym, ap, subst, ◌∙◌, Bool, true, false, not, ◌&&◌, inl, inr, String, List, [], ◌∷◌,
  ◌++◌, Option, none, some, arith, Bool-cases, str_eq_iff,
}
use anclax.Prelude.Int.{ℤ, pos, ltb_ℤ, leb_ℤ}
use anclax.Errors.{Err, Sentinel, errors_is}
use anclax.Api.{TaskAttributes, ApiTask}
use anclax.Db.{TaskRow, World, Reply, ok, fail, ◌>>=◌, after, statement}
use anclax.Db.Tasks.{has_tag, any_row, find_row, get_task_by_unique_tag}
use anclax.Db.Inserts.{CreateTaskParams, tag_taken, new_row, create_task, check_row}
use anclax.Db.Effects.{calm}
use anclax.Store.{
  serial_attributes_from_json, priority_and_weight_attributes, insert_pushed, push_task,
  push_by_tag, push_unless, existing, lift, insert_with, params_of,
}

abbrev pub tagged : String → TaskRow → Bool
tagged tag r = has_tag tag r.unique_tag

pub existing-calm :
    (tag : String) (w : World)
    → existing tag (calm w) ≡ (calm w, ok (find_row (tagged tag) w.db.tasks))
unfolding get_task_by_unique_tag statement errors_is
existing-calm tag w = go (find_row (tagged tag) w.db.tasks) refl
  where
    go :
        (o : Option TaskRow)
        → find_row (tagged tag) w.db.tasks ≡ o
        → existing tag (calm w) ≡ (calm w, ok o)
    go none e = rw e refl
    go (some r) e = rw e refl

-- A push whose tag a task already has returns that task's id and changes nothing.
pub push_task-existing :
    (task : ApiTask) (tag : String) (w : World) (r : TaskRow)
    → task.unique_tag ≡ some tag
    → find_row (λ x. has_tag tag x.unique_tag) w.db.tasks ≡ some r
    → push_task task (calm w) ≡ (calm w, ok r.id)
unfolding push_task
push_task-existing task tag w r t f = rw (t, push_task) (rw (existing-calm tag w) (rw f refl))

-- What an insertion adds: one row, of valid ranks, under the id that it returns.
abbrev pub Added : CreateTaskParams → World → World → ℤ → Type 0
Added p w w' id =
    (row : TaskRow) × (w'.db.tasks ≡ w.db.tasks ++ row ∷ [])
    × (row.id ≡ id)
    × (row.unique_tag ≡ p.unique_tag)
    × (leb_ℤ (pos 0) row.priority ≡ true)
    × (leb_ℤ (pos 1) row.weight ≡ true)
    × (tag_taken p.unique_tag w.db.tasks ≡ false)

insert_with-Added :
    (p : CreateTaskParams) (w : World) (id : ℤ)
    → (insert_with p (calm w)).1 ≡ ok id
    → Added p w (insert_with p (calm w)).0 id
unfolding create_task statement
insert_with-Added p w id h = elim (Bool-cases (check_row p)) [
  | inr invalid ↦ absurd (ground (arith, h, invalid))
  | inl valid ↦ elim (Bool-cases (tag_taken p.unique_tag w.db.tasks)) [
    | inl taken ↦ absurd (ground (arith, h, valid, taken))
    | inr free ↦ (
      new_row p w.db.next_task w.now,
      rw (valid, free) refl,
      ground (arith, h, valid, free),
      refl,
      ground (arith, valid),
      ground (arith, valid),
      free,
    )
  ]
]

abbrev pub Validated : ApiTask → World → World → ℤ → Type 0
Validated task w w' id = (p : CreateTaskParams) × (p.unique_tag ≡ task.unique_tag) × Added p w w' id

-- An insertion that returns an id, when no statement fails, has added one row, under that id and the
-- tag asked for, which was free, with a priority of at least 0 and a weight of at least 1.
pub insert_pushed-Validated :
    (task : ApiTask) (w : World) (id : ℤ)
    → (insert_pushed task (calm w)).1 ≡ ok id
    → Validated task w (insert_pushed task (calm w)).0 id
unfolding insert_pushed
insert_pushed-Validated task w id h = serial (serial_attributes_from_json task.attributes) h
  where
    ranks :
        (s : Option String × Option ℤ) (r : Reply (ℤ × ℤ))
        → ((lift r >>= λ ranks. insert_with (params_of task s ranks)) (calm w)).1 ≡ ok id
        → Validated task w
            ((lift r >>= λ ranks. insert_with (params_of task s ranks)) (calm w)).0
            id
    ranks s (fail e) k = absurd (ground (arith, k))
    ranks s (ok pw) k = (params_of task s pw, refl, insert_with-Added (params_of task s pw) w id k)

    serial :
        (s : Reply (Option String × Option ℤ))
        → ((lift s >>= λ serial. lift (priority_and_weight_attributes task.attributes) >>= λ ranks.
              insert_with (params_of task serial ranks))
            (calm w)).1
          ≡ ok id
        → Validated task w
            ((lift s >>= λ serial.
                lift (priority_and_weight_attributes task.attributes) >>= λ ranks.
                insert_with (params_of task serial ranks))
              (calm w)).0
            id
    serial (fail e) k = absurd (ground (arith, k))
    serial (ok s) k = ranks s (priority_and_weight_attributes task.attributes) k

pub find_row-snoc :
    (p : TaskRow → Bool) (rows : List TaskRow) (r : TaskRow)
    → find_row p rows ≡ none
    → p r ≡ true
    → find_row p (rows ++ r ∷ []) ≡ some r
unfolding find_row
find_row-snoc p [] r h k = rw k refl
find_row-snoc p (x ∷ rows) r h k = elim (Bool-cases (p x)) [
  | inl c ↦ absurd (ground (arith, h, c))
  | inr c ↦ rw c (find_row-snoc p rows r (ground (arith, h, c)) k)
]

-- The row that a later push under the tag finds.
abbrev pub Found : String → World → ℤ → Type 0
Found tag w id = (r : TaskRow) × (find_row (tagged tag) w.db.tasks ≡ some r) × (r.id ≡ id)

pub has_own_tag : (tag : String) (t : Option String) → t ≡ some tag → has_tag tag t ≡ true
has_own_tag tag none h = absurd (ground (arith, h))
has_own_tag tag (some t) h = ground (arith, h, str_eq_iff t tag)

pub push_task-tagged :
    (task : ApiTask) (tag : String) (w : World)
    → task.unique_tag ≡ some tag
    → push_task task (calm w) ≡ push_unless task (find_row (tagged tag) w.db.tasks) (calm w)
unfolding push_task
push_task-tagged task tag w t =
    ap (λ u. push_by_tag task u (calm w)) t
    ∙ ap (λ out. after out (push_unless task)) (existing-calm tag w)

pub push_task-Found :
    (task : ApiTask) (tag : String) (w : World) (id : ℤ)
    → task.unique_tag ≡ some tag
    → (push_task task (calm w)).1 ≡ ok id
    → Found tag (push_task task (calm w)).0 id
push_task-Found task tag w id t h =
    subst (λ out. Found tag out.0 id) (sym (push_task-tagged task tag w t))
      (go (find_row (tagged tag) w.db.tasks) refl
        (subst (λ out. out.1 ≡ ok id) (push_task-tagged task tag w t) h))
  where
    added :
        find_row (tagged tag) w.db.tasks ≡ none
        → Validated task w (insert_pushed task (calm w)).0 id
        → Found tag (insert_pushed task (calm w)).0 id
    added e (p, same, (row, tasks, is_id, its_tag, _, _, _)) = (
      row,
      rw tasks (
          find_row-snoc (tagged tag) w.db.tasks row e
            (has_own_tag tag row.unique_tag (its_tag ∙ same ∙ t))),
      is_id,
    )

    go :
        (o : Option TaskRow)
        → find_row (tagged tag) w.db.tasks ≡ o
        → (push_unless task o (calm w)).1 ≡ ok id
        → Found tag (push_unless task o (calm w)).0 id
    go (some r) e k = (r, e, ground (arith, k))
    go none e k = added e (insert_pushed-Validated task w id k)

-- A second push under the unique tag of a first that succeeded returns the same id and changes
-- nothing, whatever else it asks for, when no statement fails.
pub push_task-idempotent :
    (task again : ApiTask) (tag : String) (w : World) (id : ℤ)
    → task.unique_tag ≡ some tag
    → again.unique_tag ≡ some tag
    → (push_task task (calm w)).1 ≡ ok id
    → push_task again (calm (push_task task (calm w)).0) ≡ (calm (push_task task (calm w)).0, ok id)
push_task-idempotent task again tag w id t t' h =
    let (r, f, i) = push_task-Found task tag w id t h in
    push_task-existing again tag (push_task task (calm w)).0 r t' f
    ∙ ap (λ x. (calm (push_task task (calm w)).0, ok x)) i

insert_with-conflict :
    (p : CreateTaskParams) (w : World)
    → check_row p ≡ true
    → tag_taken p.unique_tag w.db.tasks ≡ true
    → ((insert_with p (calm w)).0.db.tasks ≡ w.db.tasks)
      × ((insert_with p (calm w)).1
          ≡ fail (Err.wrap "failed to push task" (Err.sentinel Sentinel.no_rows)))
unfolding create_task statement
insert_with-conflict p w valid taken = rw (valid, taken) (refl, refl)

ranks_valid :
    (a : TaskAttributes) (pw : ℤ × ℤ)
    → priority_and_weight_attributes a ≡ ok pw
    → (not (ltb_ℤ pw.0 (pos 0)) && not (ltb_ℤ pw.1 (pos 1))) ≡ true
unfolding priority_and_weight_attributes
ranks_valid a pw h = ground (arith, h)

-- An insertion of a valid task under a unique tag that was taken since the look at it fails, with
-- the error of an empty answer, and leaves the rows as they were, when no statement fails.
pub insert_pushed-conflict :
    (task : ApiTask) (tag : String) (w : World) (s : Option String × Option ℤ) (pw : ℤ × ℤ)
    → task.unique_tag ≡ some tag
    → any_row (λ r. has_tag tag r.unique_tag) w.db.tasks ≡ true
    → serial_attributes_from_json task.attributes ≡ ok s
    → priority_and_weight_attributes task.attributes ≡ ok pw
    → ((insert_pushed task (calm w)).0.db.tasks ≡ w.db.tasks)
      × ((insert_pushed task (calm w)).1
          ≡ fail (Err.wrap "failed to push task" (Err.sentinel Sentinel.no_rows)))
unfolding insert_pushed
insert_pushed-conflict task tag w s pw t taken serial ranks =
    rw (serial, insert_pushed)
      (rw ranks (
        insert_with-conflict (params_of task s pw) w (ranks_valid task.attributes pw ranks)
          (rw t taken)))
