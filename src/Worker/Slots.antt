-- ===== src/Worker/Slots.antt =====
-- The worker of a process, pkg/taskcore/worker/worker.go: RunTask under the slots of its semaphore, and
-- its labels. A full semaphore makes a caller wait until its context ends.
use anclax.Prelude.{
  ℕ, ◌+◌, ◌-◌, ◌≡◌, refl, ◌==◌, nat_eq, false, String, List, [], ◌∷◌, ◌++◌, Option, none, some,
  arith, if◌then◌else◌, ltb, string_eq, inl, inr, Bool-cases,
}
use Prim.Native.String.{◌++◌ as text_append}
use anclax.Prelude.Int.{ℤ}
use anclax.Prelude.Unique.{contains}
use anclax.Errors.{Err, Sentinel}
use anclax.Db.{World, Reply, ok, fail, M, ◌>>=◌, return, throw, catch}
use anclax.Worker.Types.{Task}
use anclax.Worker.Port.{ModelPort, claim_by_id, execute_task, finalize_task}

-- The label of the worker itself is always there.
unfoldable pub configured_worker_labels : List String → String → List String
configured_worker_labels labels worker_id =
    if contains labels (text_append "worker:" worker_id)
    then labels
    else labels ++ text_append "worker:" worker_id ∷ []

abbrev unless_no_task : Err → M (Option Task)
unless_no_task (Err.sentinel Sentinel.no_task) = return none
unless_no_task e = throw e

-- What ExecuteTask returned.
abbrev outcome : M (Unit {0}) → M (Option Err)
outcome m = catch (m >>= λ done. return none) (λ e. return (some e))

module _ (p : ModelPort) (handler : Option (Task → M (Unit {0}))) (cause : Option Err) where
  abbrev run_claimed : Option Task → M (Unit {0})
  run_claimed none = return tt
  run_claimed (some task) =
      outcome (execute_task p handler cause task) >>= λ exec_err. finalize_task p task exec_err

  -- RunTask once a slot is acquired.
  unfoldable pub run_in_slot : ℤ → M (Unit {0})
  unfolding claim_by_id execute_task finalize_task
  run_in_slot id =
      catch (claim_by_id p id >>= λ task. return (some task)) unless_no_task >>= run_claimed

pub record Slots : Type 0 where
  pub concurrency : ℕ
  pub in_use : ℕ

-- When no slot is free, the caller waits until its context ends, with the error `ended`.
unfoldable pub acquire_slot : Err → Slots → Reply Slots
acquire_slot ended s =
    if ltb s.in_use s.concurrency then ok (record s { in_use = s.in_use + 1 }) else fail ended

-- `none` is the panic of a release without an acquisition.
unfoldable pub release_slot : Slots → Option Slots
release_slot s = if s.in_use == 0 then none else some (record s { in_use = s.in_use - 1 })

module _ (p : ModelPort) (handler : Option (Task → M (Unit {0}))) (cause : Option Err) where
  abbrev run_acquired : ℤ → World → Slots → Reply Slots → Option Slots × (World × Reply (Unit {0}))
  run_acquired id w s (fail e) = (some s, (w, fail e))
  run_acquired id w s (ok s') = (release_slot s', run_in_slot p handler cause id w)

  -- RunTask: the release is deferred.
  unfoldable pub run_task : Err → ℤ → Slots → World → Option Slots × (World × Reply (Unit {0}))
  unfolding acquire_slot release_slot run_in_slot
  run_task ended id s w = run_acquired id w s (acquire_slot ended s)

  -- RunTask gives its slot back on every path, never panics, and without a free slot it returns the
  -- context's error and changes nothing.
  run_task-slots :
      (ended : Err) (id : ℤ) (s : Slots) (w : World)
      → ((run_task ended id s w).0 ≡ some s)
        × (ltb s.in_use s.concurrency ≡ false → (run_task ended id s w).1 ≡ (w, fail ended))
  unfolding run_task acquire_slot release_slot
  run_task-slots ended id s w = elim (Bool-cases (ltb s.in_use s.concurrency)) [
    | inl e ↦ (rw e (ground arith), λ h. absurd (ground (arith, e, h)))
    | inr e ↦ (rw e refl, λ h. rw e refl)
  ]
