-- ===== src/Ctrl/Ending.antt =====
-- The statuses that a pause or a cancellation of pkg/taskcore/ctrl/ctrl.go leaves.
use anclax.Prelude.{
  ℕ, ◌≡◌, refl, ◌⊎◌, true, false, inl, inr, List, arith, Bool-cases, if◌then◌else◌,
}
use anclax.Prelude.Int.{ℤ, ℤ_eq}
use anclax.Prelude.Unique.{contains}
use anclax.Api.{TaskStatus}
use anclax.Db.{TaskRow}
use anclax.Db.Tasks.{is_refreshable}
use anclax.Store.Status.{is_cancelled}
use anclax.Ctrl.{Control}
use anclax.Ctrl.Rows.{controlled, controlled_in}

-- The status that the control leaves: a cancelled task stays so.
abbrev pub end_status : Control → TaskStatus → TaskStatus
end_status Control.cancel status = TaskStatus.cancelled
end_status Control.pause status =
    if is_cancelled status then TaskStatus.cancelled else TaskStatus.paused

is_cancelled-eq : (s : TaskStatus) → is_cancelled s ≡ true → s ≡ TaskStatus.cancelled
is_cancelled-eq TaskStatus.cancelled h = refl
is_cancelled-eq TaskStatus.pending h = absurd (ground (arith, h))
is_cancelled-eq TaskStatus.completed h = absurd (ground (arith, h))
is_cancelled-eq TaskStatus.failed h = absurd (ground (arith, h))
is_cancelled-eq TaskStatus.paused h = absurd (ground (arith, h))
is_cancelled-eq (TaskStatus.other s) h = absurd (ground (arith, h))

pub controlled-status :
    (c : Control) (now : ℕ) (r : TaskRow) → (controlled c now r).status ≡ end_status c r.status
controlled-status Control.cancel now r = refl
controlled-status Control.pause now r = elim (Bool-cases (is_cancelled r.status)) [
  | inl e ↦ rw e (is_cancelled-eq r.status e)
  | inr e ↦ rw e refl
]

pub end_status-cases :
    (c : Control) (s : TaskStatus)
    → (end_status c s ≡ TaskStatus.cancelled) ⊎ (end_status c s ≡ TaskStatus.paused)
end_status-cases Control.cancel s = inl refl
end_status-cases Control.pause s = elim (Bool-cases (is_cancelled s)) [
  | inl e ↦ inl (rw e refl)
  | inr e ↦ inr (rw e refl)
]

pub end_status-unrefreshable :
    (c : Control) (s : TaskStatus) → is_refreshable (end_status c s) ≡ false
end_status-unrefreshable c s = elim (end_status-cases c s) [ inl e ↦ rw e refl | inr e ↦ rw e refl ]

pub controlled_in-id :
    (c : Control) (ids : List ℤ) (now : ℕ) (r : TaskRow) → (controlled_in c ids now r).id ≡ r.id
controlled_in-id Control.cancel ids now r = ground arith
controlled_in-id Control.pause ids now r = ground arith

pub controlled_in-owner :
    (c : Control) (ids : List ℤ) (now : ℕ) (r : TaskRow)
    → (controlled_in c ids now r).worker_id ≡ r.worker_id
controlled_in-owner Control.cancel ids now r = ground arith
controlled_in-owner Control.pause ids now r = ground arith

pub controlled_in-status :
    (c : Control) (ids : List ℤ) (now : ℕ) (r : TaskRow)
    → contains ids r.id ≡ true
    → (controlled_in c ids now r).status ≡ end_status c r.status
controlled_in-status c ids now r h = rw h (controlled-status c now r)
