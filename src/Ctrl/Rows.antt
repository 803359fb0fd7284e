-- ===== src/Ctrl/Rows.antt =====
-- What a pause or a cancellation does to the rows: pkg/taskcore/ctrl/ctrl.go.
use anclax.Prelude.{
  ℕ, ◌≡◌, refl, sym, ap, ◌∙◌, subst, true, false, List, [], ◌∷◌, map, Option, none, some, inl, inr,
  arith, Bool-cases, Bool-ext, if◌then◌else◌,
}
use anclax.Prelude.Int.{ℤ, int_eq, int_eq_iff, ℤ_eq}
use anclax.Prelude.Unique.{contains}
use anclax.Api.{TaskStatus}
use anclax.Db.{TaskRow, World, ok, statement}
use anclax.Db.Tasks.{is_task, any_row, find_row, update_rows, update_task_status, update_all}
use anclax.Db.Effects.{calm, with_tasks}
use anclax.Store.{cancel_task}
use anclax.Store.Status.{pause_outcome, is_cancelled, pause_task-outcome}
use anclax.Ctrl.{Control, control_task}

abbrev with_status : TaskStatus → ℕ → TaskRow → TaskRow
with_status status now r = record r { status = status; updated_at = now }

-- A cancelled task is not paused; any task is cancelled.
abbrev pub controlled : Control → ℕ → TaskRow → TaskRow
controlled Control.pause now r =
    if is_cancelled r.status then r else with_status TaskStatus.paused now r
controlled Control.cancel now r = with_status TaskStatus.cancelled now r

abbrev pub controlled_in : Control → List ℤ → ℕ → TaskRow → TaskRow
controlled_in c ids now r = if contains ids r.id then controlled c now r else r

-- No id is given out twice.
abbrev pub DistinctIds : List TaskRow → Type 0
DistinctIds [] = Unit {0}
DistinctIds (r ∷ rows) = (any_row (is_task r.id) rows ≡ false) × DistinctIds rows

abbrev pub only : Control → ℤ → ℕ → TaskRow → TaskRow
only c id now r = if int_eq r.id id then controlled c now r else r

absent-update_rows :
    (id : ℤ) (f : TaskRow → TaskRow) (rows : List TaskRow)
    → any_row (is_task id) rows ≡ false
    → update_rows (is_task id) f rows ≡ rows
unfolding any_row update_rows
absent-update_rows id f [] h = refl
absent-update_rows id f (r ∷ rows) h = ground (arith, h, absent-update_rows id f rows)

absent-only :
    (c : Control) (id : ℤ) (now : ℕ) (rows : List TaskRow)
    → any_row (is_task id) rows ≡ false
    → map (only c id now) rows ≡ rows
unfolding any_row
absent-only c id now [] h = refl
absent-only c id now (r ∷ rows) h = elim (Bool-cases (int_eq r.id id)) [
  | inl e ↦ absurd (ground (arith, e, h))
  | inr e ↦
      rw e (ap (λ (rs : List TaskRow). r ∷ rs) (absent-only c id now rows (ground (arith, e, h))))
]

-- The rows after a pause of the first row of the id.
abbrev paused_rows : ℤ → ℕ → Option TaskRow → List TaskRow → List TaskRow
paused_rows id now none rows = rows
paused_rows id now (some r) rows =
    if is_cancelled r.status
    then rows
    else update_rows (is_task id) (with_status TaskStatus.paused now) rows

paused_rows-cons :
    (id : ℤ) (now : ℕ) (o : Option TaskRow) (r : TaskRow) (rows : List TaskRow)
    → int_eq r.id id ≡ false
    → paused_rows id now o (r ∷ rows) ≡ r ∷ paused_rows id now o rows
unfolding update_rows
paused_rows-cons id now none r rows h = refl
paused_rows-cons id now (some q) r rows h = elim (Bool-cases (is_cancelled q.status)) [
  | inl e ↦ rw e refl
  | inr e ↦ rw (e, h) refl
]

paused_rows-only :
    (id : ℤ) (now : ℕ) (rows : List TaskRow)
    → DistinctIds rows
    → paused_rows id now (find_row (is_task id) rows) rows ≡ map (only Control.pause id now) rows
unfolding find_row update_rows
paused_rows-only id now [] d = refl
paused_rows-only id now (r ∷ rows) d = elim (Bool-cases (int_eq r.id id)) [
  | inl e ↦
      (let alone : any_row (is_task id) rows ≡ false =
          subst (λ i. any_row (is_task i) rows ≡ false) ((int_eq_iff r.id id).0 e) d.0 in
        elim (Bool-cases (is_cancelled r.status)) [
          | inl f ↦
              rw (e, f)
                (ap (λ (rs : List TaskRow). r ∷ rs)
                  (sym (absent-only Control.pause id now rows alone)))
          | inr f ↦
              rw (e, f, e)
                (ap (λ (rs : List TaskRow). with_status TaskStatus.paused now r ∷ rs)
                  (absent-update_rows id (with_status TaskStatus.paused now) rows alone
                    ∙ sym (absent-only Control.pause id now rows alone)))
        ])
  | inr e ↦
      rw (e, paused_rows-cons id now (find_row (is_task id) rows) r rows e)
        (ap (λ (rs : List TaskRow). r ∷ rs) (paused_rows-only id now rows d.1))
]

pause_outcome-only :
    (id : ℤ) (o : Option TaskRow) (w : World)
    → pause_outcome id o w ≡ with_tasks (paused_rows id w.now o) w
unfolding update_rows
pause_outcome-only id none w = refl
pause_outcome-only id (some r) w = elim (Bool-cases (is_cancelled r.status)) [
  | inl e ↦ rw e refl
  | inr e ↦ rw e refl
]

cancelled_rows-only :
    (id : ℤ) (now : ℕ) (rows : List TaskRow)
    → update_rows (is_task id) (with_status TaskStatus.cancelled now) rows
      ≡ map (only Control.cancel id now) rows
unfolding update_rows
cancelled_rows-only id now [] = refl
cancelled_rows-only id now (r ∷ rows) =
    ap (λ (rs : List TaskRow). only Control.cancel id now r ∷ rs) (cancelled_rows-only id now rows)

pub control_task-only :
    (c : Control) (id : ℤ) (w : World)
    → DistinctIds w.db.tasks
    → control_task c id (calm w) ≡ (calm (with_tasks (map (only c id w.now)) w), ok tt)
unfolding control_task cancel_task update_task_status statement update_all
control_task-only Control.pause id w d = rw (pause_task-outcome true id w) (
    ap (λ x. (x, ok tt))
      (pause_outcome-only id (find_row (is_task id) w.db.tasks) (calm w)
        ∙ ap (λ rows. calm (with_tasks (λ old. rows) w)) (paused_rows-only id w.now w.db.tasks d)))
control_task-only Control.cancel id w d =
    ap (λ rows. (calm (with_tasks (λ old. rows) w), ok tt))
      (cancelled_rows-only id w.now w.db.tasks)

only-id : (c : Control) (id : ℤ) (now : ℕ) (r : TaskRow) → (only c id now r).id ≡ r.id
only-id Control.pause id now r = ground arith
only-id Control.cancel id now r = ground arith

any_row-only :
    (c : Control) (id j : ℤ) (now : ℕ) (rows : List TaskRow)
    → any_row (is_task j) (map (only c id now) rows) ≡ any_row (is_task j) rows
unfolding any_row
any_row-only c id j now [] = refl
any_row-only c id j now (r ∷ rows) = rw (only-id c id now r, any_row-only c id j now rows) refl

pub DistinctIds-only :
    (c : Control) (id : ℤ) (now : ℕ) (rows : List TaskRow)
    → DistinctIds rows
    → DistinctIds (map (only c id now) rows)
DistinctIds-only c id now [] d = tt
DistinctIds-only c id now (r ∷ rows) d = (
  rw (only-id c id now r, any_row-only c id r.id now rows) d.0,
  DistinctIds-only c id now rows d.1,
)

-- Controlling a task twice at one time is controlling it once.
controlled-controlled :
    (c : Control) (now : ℕ) (r : TaskRow)
    → controlled c now (controlled c now r) ≡ controlled c now r
controlled-controlled Control.pause now r = elim (Bool-cases (is_cancelled r.status)) [
  | inl e ↦ rw (e, e) refl
  | inr e ↦ rw e refl
]
controlled-controlled Control.cancel now r = refl

controlled-id : (c : Control) (now : ℕ) (r : TaskRow) → (controlled c now r).id ≡ r.id
controlled-id Control.pause now r = ground arith
controlled-id Control.cancel now r = refl

int_eq_sym : (i j : ℤ) → int_eq i j ≡ int_eq j i
int_eq_sym i j =
    Bool-ext (int_eq i j) (int_eq j i) (λ h. (int_eq_iff j i).1 (sym ((int_eq_iff i j).0 h)))
      (λ h. (int_eq_iff i j).1 (sym ((int_eq_iff j i).0 h)))

controlled_in-cons :
    (c : Control) (id : ℤ) (ids : List ℤ) (now : ℕ) (r : TaskRow)
    → controlled_in c ids now (only c id now r) ≡ controlled_in c (id ∷ ids) now r
unfolding contains
controlled_in-cons c id ids now r = elim (Bool-cases (int_eq r.id id)) [
  | inr e ↦ rw (e, int_eq_sym id r.id ∙ e) refl
  | inl e ↦
      rw (e, controlled-id c now r, int_eq_sym id r.id ∙ e)
        (elim (Bool-cases (contains ids r.id)) [
          | inl f ↦ rw f (controlled-controlled c now r)
          | inr f ↦ rw f refl
        ])
]

pub map_rows-cons :
    (c : Control) (id : ℤ) (ids : List ℤ) (now : ℕ) (rows : List TaskRow)
    → map (controlled_in c ids now) (map (only c id now) rows)
      ≡ map (controlled_in c (id ∷ ids) now) rows
map_rows-cons c id ids now [] = refl
map_rows-cons c id ids now (r ∷ rows) =
    rw (controlled_in-cons c id ids now r, map_rows-cons c id ids now rows) refl

pub map_in-nil :
    (c : Control) (now : ℕ) (rows : List TaskRow) → map (controlled_in c [] now) rows ≡ rows
unfolding contains
map_in-nil c now [] = refl
map_in-nil c now (r ∷ rows) = ap (λ (rs : List TaskRow). r ∷ rs) (map_in-nil c now rows)
