-- ===== src/Store/Status.antt =====
-- What a pause and a resumption of pkg/taskcore/store/store.go do to a task, when no statement fails.
use anclax.Prelude.{
  ℕ, ◌≡◌, refl, sym, ap, ◌∙◌, Bool, true, false, inl, inr, List, [], ◌∷◌, Option, none, some,
  Bool-cases, if◌then◌else◌,
}
use anclax.Prelude.Int.{ℤ}
use anclax.Errors.{Err, Sentinel, errors_is}
use anclax.Api.{TaskStatus}
use mathlib.Core.Option
use anclax.Db.{TaskRow, Db, World, ok, M, ◌>>=◌, throw, recover, statement, run_transaction, commit}
use anclax.Db.Tasks.{is_task, find_row, update_rows, update_all, get_task_by_id, update_task_status}
use anclax.Db.Effects.{calm, with_tasks}
use anclax.Store.{
  wrapped, pause_task, pause_task_in_tx, resume_task, found_task, pause_found,
  paused_unless_cancelled,
}

abbrev pub set_status : ℤ → TaskStatus → World → World
set_status id status w =
    with_tasks (update_rows (is_task id) (λ r. record r { status = status; updated_at = w.now })) w

abbrev pub is_cancelled : TaskStatus → Bool
is_cancelled TaskStatus.cancelled = true
is_cancelled _ = false

-- What a pause makes of the row that it finds.
abbrev pub pause_outcome : ℤ → Option TaskRow → World → World
pause_outcome id none w = w
pause_outcome id (some r) w = if is_cancelled r.status then w else set_status id TaskStatus.paused w

paused_unless-calm :
    (id : ℤ) (status : TaskStatus) (w : World)
    → paused_unless_cancelled id status (calm w)
      ≡ ((if is_cancelled status then calm w else set_status id TaskStatus.paused (calm w)), ok tt)
unfolding update_task_status statement update_all
paused_unless-calm id TaskStatus.cancelled w = refl
paused_unless-calm id TaskStatus.pending w = refl
paused_unless-calm id TaskStatus.completed w = refl
paused_unless-calm id TaskStatus.failed w = refl
paused_unless-calm id TaskStatus.paused w = refl
paused_unless-calm id (TaskStatus.other s) w = refl

pause_task_in_tx-calm :
    (id : ℤ) (w : World)
    → pause_task_in_tx id (calm w)
      ≡ (pause_outcome id (find_row (is_task id) w.db.tasks) (calm w), ok tt)
unfolding pause_task_in_tx get_task_by_id statement errors_is
pause_task_in_tx-calm id w = go (find_row (is_task id) w.db.tasks) refl
  where
    go :
        (o : Option TaskRow)
        → find_row (is_task id) w.db.tasks ≡ o
        → (found_task id >>= pause_found id) (calm w) ≡ (pause_outcome id o (calm w), ok tt)
    go none e = rw e refl
    go (some r) e = rw e (paused_unless-calm id r.status w)

commit-calm : (before : Db) (w : World) → commit before (calm w, ok tt) ≡ (calm w, ok tt)
unfolding commit statement
commit-calm before w = refl

pause_outcome-calm :
    (id : ℤ) (o : Option TaskRow) (w : World)
    → pause_outcome id o (calm w) ≡ calm (pause_outcome id o w)
pause_outcome-calm id none w = refl
pause_outcome-calm id (some r) w = elim (Bool-cases (is_cancelled r.status)) [
  | inl c ↦ rw c refl
  | inr c ↦ rw c refl
]

-- A pause, in a transaction of its own or in the caller's, sets the task's status to paused unless
-- it is cancelled, and does nothing to a cancelled or a missing one, when no statement fails.
pub pause_task-outcome :
    (in_tx : Bool) (id : ℤ) (w : World)
    → pause_task in_tx id (calm w)
      ≡ (pause_outcome id (find_row (is_task id) w.db.tasks) (calm w), ok tt)
unfolding pause_task run_transaction errors_is
pause_task-outcome true id w = rw (pause_task_in_tx-calm id w) refl
pause_task-outcome false id w =
    ap (λ out. recover (commit w.db out) failed)
      (pause_task_in_tx-calm id w
        ∙ ap (λ x. (x, ok tt)) (pause_outcome-calm id (find_row (is_task id) w.db.tasks) w))
    ∙ ap (λ out. recover out failed)
        (commit-calm w.db (pause_outcome id (find_row (is_task id) w.db.tasks) w))
    ∙ ap (λ x. (x, ok tt)) (sym (pause_outcome-calm id (find_row (is_task id) w.db.tasks) w))
  where
    failed : Err → M (Unit {0})
    failed e =
        if errors_is e Sentinel.already_in_transaction
        then wrapped "failed to pause task" (pause_task_in_tx id)
        else throw (Err.wrap "failed to pause task" e)

pub find_row-updated :
    (p : TaskRow → Bool) (f : TaskRow → TaskRow) (rows : List TaskRow)
    → ((r : TaskRow) → p (f r) ≡ p r)
    → find_row p (update_rows p f rows) ≡ Option.map f (find_row p rows)
unfolding find_row update_rows
find_row-updated p f [] h = refl
find_row-updated p f (r ∷ rows) h = elim (Bool-cases (p r)) [
  | inl c ↦ rw (c, h r, c) refl
  | inr c ↦ rw (c, c, find_row-updated p f rows h) refl
]

abbrev pub resumed : ℕ → TaskRow → TaskRow
resumed now r = record r { status = TaskStatus.pending; updated_at = now }

-- A resumption, when no statement fails, makes a task that exists pending whatever its status was:
-- paused, but also completed, failed or cancelled.
pub resume_task-any :
    (id : ℤ) (w : World) (r : TaskRow)
    → find_row (is_task id) w.db.tasks ≡ some r
    → find_row (is_task id) (resume_task id (calm w)).0.db.tasks ≡ some (resumed w.now r)
unfolding resume_task update_task_status statement update_all
resume_task-any id w r h =
    find_row-updated (is_task id) (resumed w.now) w.db.tasks (λ x. refl)
    ∙ ap (Option.map (resumed w.now)) h
