-- ===== src/Store/Made.antt =====
-- What a push of pkg/taskcore/store/store.go that returns an id has done, whatever fails elsewhere.
use anclax.Prelude.{
  ◌≡◌, refl, sym, ap, subst, ◌∙◌, ◌⊎◌, Bool, true, false, inl, inr, String, List, [], ◌∷◌, ◌++◌,
  Option, none, some, arith, Bool-cases, if◌then◌else◌,
}
use anclax.Prelude.Int.{ℤ, pos}
use anclax.Errors.{Err, Sentinel, errors_is}
use anclax.Api.{ApiTask}
use anclax.Db.{TaskRow, Db, World, Reply, ok, fail, M, ◌>>=◌, return, throw, recover}
use anclax.Db.Tasks.{any_row, find_row, found, get_task_by_unique_tag}
use anclax.Db.Inserts.{CreateTaskParams, tag_taken, new_row, insert_row, create_task, check_row}
use anclax.Db.Effects.Framing.{statement-ok}
use anclax.Db.Effects.Succeeding.{after-ok, recover-ok, lift-ok, Throws-wrap}
use anclax.Store.{
  serial_attributes_from_json, priority_and_weight_attributes, insert_pushed, push_task,
  push_by_tag, push_unless, existing, lift, wrapped, insert_with, params_of,
}
use anclax.Store.Push.{tagged, Found, find_row-snoc, has_own_tag}

-- The row that was added, behind the others and under a tag that was free.
abbrev pub Made : CreateTaskParams → World → World → ℤ → Type 0
Made p w w' id =
    (row : TaskRow) × (row.id ≡ id)
    × (id ≡ pos w.db.next_task)
    × (row.unique_tag ≡ p.unique_tag)
    × (w'.db.tasks ≡ w.db.tasks ++ row ∷ [])
    × (tag_taken p.unique_tag w.db.tasks ≡ false)

insert_row-ok :
    (p : CreateTaskParams) (w w' : World) (row : TaskRow)
    → insert_row p w ≡ (w', ok row)
    → Made p w w' row.id
insert_row-ok p w w' row h = elim (Bool-cases (check_row p)) [
  | inr invalid ↦ absurd (ground (arith, ap (λ x. x.1) (rw invalid at h)))
  | inl valid ↦ elim (Bool-cases (tag_taken p.unique_tag w.db.tasks)) [
    | inl taken ↦ absurd (ground (arith, ap (λ x. x.1) (rw (valid, taken) at h)))
    | inr free ↦
        (let done = (rw (valid, free) at h) in
          (
            new_row p w.db.next_task w.now,
            same (new_row p w.db.next_task w.now) (ap (λ x. x.1) done),
            sym (same (new_row p w.db.next_task w.now) (ap (λ x. x.1) done)),
            refl,
            ap (λ x. x.0.db.tasks) (sym done),
            free,
          ))
  ]
]
  where
    same : (r : TaskRow) → ok r ≡ ok row → r.id ≡ row.id
    same r e = ground (arith, e)

Made-db :
    (p : CreateTaskParams) (v w w' : World) (id : ℤ) → v.db ≡ w.db → Made p v w' id → Made p w w' id
Made-db p v w w' id e m =
    subst
      (λ (db : Db).
        (row : TaskRow) × (row.id ≡ id)
        × (id ≡ pos db.next_task)
        × (row.unique_tag ≡ p.unique_tag)
        × (w'.db.tasks ≡ db.tasks ++ row ∷ [])
        × (tag_taken p.unique_tag db.tasks ≡ false))
      e m

create_task-ok :
    (p : CreateTaskParams) (w w' : World) (row : TaskRow)
    → create_task p w ≡ (w', ok row)
    → Made p w w' row.id
unfolding create_task
create_task-ok p w w' row h =
    let (v, same, made) = statement-ok (insert_row p) w w' row h in
    Made-db p v w w' row.id same (insert_row-ok p v w' row made)

-- A push that does not look at a tag, and returns an id.
pub insert_pushed-ok :
    (task : ApiTask) (w w' : World) (id : ℤ)
    → insert_pushed task w ≡ (w', ok id)
    → (p : CreateTaskParams) × (p.unique_tag ≡ task.unique_tag) × Made p w w' id
unfolding insert_pushed
insert_pushed-ok task w w' id h =
    let (serial, _, h1) =
      lift-ok (serial_attributes_from_json task.attributes)
        (λ serial. lift (priority_and_weight_attributes task.attributes) >>= λ ranks.
          insert_with (params_of task serial ranks))
        w w' id h in
    let (ranks, _, h2) =
      lift-ok (priority_and_weight_attributes task.attributes)
        (λ ranks. insert_with (params_of task serial ranks)) w w' id h1 in
    let p = params_of task serial ranks in
    let (v, row, made, e) =
      after-ok (wrapped "failed to push task" (create_task p) w) (λ created. return created.id) w'
        id h2 in
    let out : create_task p w ≡ (v, ok row) =
      recover-ok (create_task p w) (λ e. throw (Err.wrap "failed to push task" e)) v row
        (Throws-wrap "failed to push task") made in
    (
      p,
      refl,
      subst (λ i. Made p w w' i) (same row.id (ap (λ x. x.1) e))
          (subst (λ x. Made p w x row.id) (ap (λ x. x.0) e) (create_task-ok p w v row out)),
    )
  where
    same : (i : ℤ) → ok i ≡ ok id → i ≡ id
    same i e = ground (arith, e)

-- A handler's two ways to a value.
recover-cases :
    {A : Type 0} (out : World × Reply A) (f : Err → M A) (w' : World) (a : A)
    → recover out f ≡ (w', ok a)
    → (out ≡ (w', ok a)) ⊎ ((w : World) × (e : Err) × (f e w ≡ (w', ok a)))
recover-cases (w, ok b) f w' a h = inl h
recover-cases (w, fail e) f w' a h = inr (w, e, h)

existing-some :
    (tag : String) (w w' : World) (r : TaskRow)
    → existing tag w ≡ (w', ok (some r))
    → find_row (tagged tag) w'.db.tasks ≡ some r
unfolding get_task_by_unique_tag
existing-some tag w w' r h = elim (recover-cases _ _ w' (some r) h) [
  | inr (v, e, handled) ↦ absurd (missing e v (Bool-cases (errors_is e Sentinel.no_rows)) handled)
  | inl got ↦
      (let (v, row, read, e) =
          after-ok (get_task_by_unique_tag tag w) (λ r. return (some r)) w' (some r) got in
        let (u, same, found_in) =
          statement-ok (λ w. (w, found (find_row (tagged tag) w.db.tasks))) w v row read in
        is_found row (ap (λ x. x.1) e) u (ap (λ x. x.0) found_in ∙ ap (λ x. x.0) e)
          (ap (λ x. x.1) found_in))
]
  where
    missing :
        (e : Err) (v : World)
        → ((errors_is e Sentinel.no_rows ≡ true) ⊎ (errors_is e Sentinel.no_rows ≡ false))
        → (if errors_is e Sentinel.no_rows
              then return none
              else throw (Err.wrap "failed to check task by unique tag before push" e))
            v
          ≡ (w', ok (some r))
        → ⊥
    missing e v (inl t) k = ground (arith, ap (λ x. x.1) (rw t at k))
    missing e v (inr t) k = ground (arith, ap (λ x. x.1) (rw t at k))

    is_found :
        (row : TaskRow)
        → ok (some row) ≡ ok (some r)
        → (u : World) → u ≡ w'
        → found (find_row (tagged tag) u.db.tasks) ≡ ok row
        → find_row (tagged tag) w'.db.tasks ≡ some r
    is_found row e u same k =
        subst (λ x. find_row (tagged tag) x.db.tasks ≡ some r) same
          (go (find_row (tagged tag) u.db.tasks) k)
      where
        go : (o : Option TaskRow) → found o ≡ ok row → o ≡ some r
        go none k = absurd (ground (arith, k))
        go (some q) k = ground (arith, k, e)

find_row-free :
    (p : TaskRow → Bool) (rows : List TaskRow) → any_row p rows ≡ false → find_row p rows ≡ none
unfolding find_row any_row
find_row-free p [] h = refl
find_row-free p (r ∷ rows) h = elim (Bool-cases (p r)) [
  | inl e ↦ absurd (ground (arith, h, e))
  | inr e ↦ rw e (find_row-free p rows (ground (arith, h, e)))
]

-- After a push under a unique tag that returns an id, the task of that id has the tag.
pub push_task-ok :
    (task : ApiTask) (tag : String) (w w' : World) (id : ℤ)
    → task.unique_tag ≡ some tag
    → push_task task w ≡ (w', ok id)
    → Found tag w' id
unfolding push_task
push_task-ok task tag w w' id t h =
    let (v, o, looked, k) =
      after-ok (existing tag w) (push_unless task) w' id
        (ap (λ u. push_by_tag task u w) (sym t) ∙ h) in
    go v o looked k
  where
    go :
        (v : World) (o : Option TaskRow)
        → existing tag w ≡ (v, ok o)
        → push_unless task o v ≡ (w', ok id)
        → Found tag w' id
    go v (some r) looked k = (
      r,
      subst (λ x. find_row (tagged tag) x.db.tasks ≡ some r) (ap (λ x. x.0) k)
          (existing-some tag w v r looked),
      ground (arith, ap (λ x. x.1) k),
    )
    go v none looked k =
        let (p, its_tag, (row, is_id, _, row_tag, tasks, free)) = insert_pushed-ok task v w' id k in
        let tag_free : any_row (tagged tag) v.db.tasks ≡ false =
          subst (λ u. tag_taken u v.db.tasks ≡ false) (its_tag ∙ t) free in
        (
          row,
          ap (find_row (tagged tag)) tasks
              ∙ find_row-snoc (tagged tag) v.db.tasks row
                  (find_row-free (tagged tag) v.db.tasks tag_free)
                  (has_own_tag tag row.unique_tag (row_tag ∙ its_tag ∙ t)),
          is_id,
        )
