-- ===== src/Tests/Claims.antt =====
-- Examples for the claiming queries of pkg/zgen/querier/tasks.sql.gen.go.
use anclax.Prelude.{◌≡◌, ◌≢◌, refl, inl, Bool, true, false, [], ◌∷◌, some, arith, str_eq}
use anclax.Prelude.Int.{pos, int_eq, ltb_ℤ}
use anclax.Db.{TaskRow, World, ok, statement}
use anclax.Db.Tasks.{any_row, update_rows}
use anclax.Db.Claims.{
  Claimer, is_candidate, claim_one, claimed, claim_strict_task, by_priority, serial_before,
  holds_lock, goes_first, is_eligible, first_row, take_row,
}
use anclax.Db.Claims.Choice.{claim_strict_task-first}
use anclax.Db.Claims.Exclusion.{claim_one-exclusive, claim_one-serial}
use anclax.Tests.Store.{waiting, older, two_tasks}

abbrev worker : Claimer
worker = record { worker_id = 1; lock_expiry = 40; labels = [] }

abbrev others : Claimer
others = record { worker_id = 2; lock_expiry = 60; labels = "gpu" ∷ [] }

abbrev any_task : TaskRow → Bool
any_task r = true

strict_claim : (claim_strict_task worker two_tasks).1 ≡ ok (claimed 1 100 waiting)
unfolding claim_strict_task statement claim_one first_row is_candidate is_eligible take_row
    by_priority any_row holds_lock goes_first serial_before int_eq str_eq
strict_claim = refl

older_candidate : is_candidate (λ r. ltb_ℤ (pos 0) r.priority) worker two_tasks older ≡ true
unfolding is_candidate is_eligible
older_candidate = refl

claim_strict_task-first_example :
    ((claimed 1 100 waiting).worker_id ≡ some 1)
    × ((claimed 1 100 waiting).locked_at ≡ some 100)
    × (ltb_ℤ (pos 0) (claimed 1 100 waiting).priority ≡ true)
    × (by_priority older (claimed 1 100 waiting) ≡ false)
claim_strict_task-first_example =
    claim_strict_task-first worker two_tasks (claimed 1 100 waiting) older strict_claim (inl refl)
      older_candidate

abbrev after_claim : World
after_claim = record two_tasks {
  db = (claim_one any_task by_priority worker two_tasks).0.db;
  now = 110;
}

first_claim : (claim_one any_task by_priority worker two_tasks).1 ≡ ok (claimed 1 100 waiting)
unfolding claim_one first_row is_candidate is_eligible take_row by_priority any_row holds_lock
    goes_first serial_before int_eq str_eq
first_claim = refl

second_claim : (claim_one any_task by_priority others after_claim).1 ≡ ok (claimed 2 110 older)
unfolding claim_one first_row is_candidate is_eligible take_row by_priority any_row update_rows
    holds_lock goes_first serial_before int_eq str_eq
second_claim = refl

claim_one-exclusive_example : int_eq (claimed 2 110 older).id (claimed 1 100 waiting).id ≡ false
claim_one-exclusive_example =
    claim_one-exclusive any_task any_task by_priority by_priority worker others two_tasks
      after_claim (claimed 1 100 waiting) (claimed 2 110 older) first_claim refl (omega arith)
      second_claim

claim_one-serial_example : (claimed 2 110 older).serial_key ≢ some "k"
claim_one-serial_example =
    claim_one-serial any_task any_task by_priority by_priority worker others two_tasks after_claim
      (claimed 1 100 waiting) (claimed 2 110 older) "k" first_claim refl (omega arith) refl
      second_claim
