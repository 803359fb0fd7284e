-- ===== src/Worker/Port/Registry.antt =====
-- The task runtimes of pkg/taskcore/worker/model_port.go: which executions are under way.
use anclax.Prelude.{
  ℕ, ◌+◌, List, [], ◌∷◌, Option, none, some, nat_eq, ◌≡◌, refl, subst, Option-cases, inl, inr,
  arith,
}
use anclax.Prelude.Int.{ℤ, ℤ_eq}
use anclax.Prelude.Dict.{lookup, insert, erase, lookup-insert_self, erase-insert}
use anclax.Prelude.Unique.{
  unique_from, contains, IsDistinct, IsDistinct-unique_from, contains-unique_from,
}
use anclax.Errors.{Err}

-- An entry of the task runtimes: a pointer, as a number, and its context's cancellation cause.
pub record TaskRuntimeEntry : Type 0 where
  pub handle : ℕ
  pub cause : Option Err

-- The map of the entries, and the handles whose `done` channel is closed.
pub record TaskRuntimes : Type 0 where
  pub entries : List (ℤ × TaskRuntimeEntry)
  pub done : List ℕ
  pub next_handle : ℕ

-- registerTaskRuntime; `none` is the panic on a task that already runs.
unfoldable pub register_task_runtime : ℤ → TaskRuntimes → Option TaskRuntimes
register_task_runtime id t = elim (lookup id t.entries) [
  | some entry ↦ none
  | none ↦ some (record t {
    entries = insert id (record { handle = t.next_handle; cause = none }) t.entries;
    next_handle = t.next_handle + 1;
  })
]

unfoldable pub complete_task_runtime : ℤ → TaskRuntimes → TaskRuntimes
complete_task_runtime id t = elim (lookup id t.entries) [
  | none ↦ t
  | some entry ↦ record t { entries = erase id t.entries; done = entry.handle ∷ t.done }
]

-- The first cause stays.
abbrev pub cancel_cause : Err → TaskRuntimeEntry → TaskRuntimeEntry
cancel_cause cause entry = elim entry.cause [
  | none ↦ record entry { cause = some cause }
  | some old ↦ entry
]

unfoldable pub interrupt_task : ℤ → Err → TaskRuntimes → TaskRuntimes
interrupt_task id cause t = elim (lookup id t.entries) [
  | none ↦ t
  | some entry ↦ record t { entries = insert id (cancel_cause cause entry) t.entries }
]

unfoldable pub handles_of : List ℤ → TaskRuntimes → List ℕ
handles_of [] t = []
handles_of (id ∷ ids) t =
    let rest = handles_of ids t in
    elim (lookup id t.entries) [ none ↦ rest | some entry ↦ entry.handle ∷ rest ]

-- The entries that WaitTaskRuntimes waits for, each once.
unfoldable pub task_runtime_entries_for : List ℤ → TaskRuntimes → List ℕ
unfolding handles_of unique_from
task_runtime_entries_for ids t = unique_from [] (handles_of ids t)

-- WaitTaskRuntimes waits once for each execution of the tasks that it is given, and for no other.
task_runtime_entries_for-IsDistinct :
    (ids : List ℤ) (t : TaskRuntimes)
    → IsDistinct (task_runtime_entries_for ids t)
      × ((h : ℕ) → contains (task_runtime_entries_for ids t) h ≡ contains (handles_of ids t) h)
unfolding task_runtime_entries_for contains
task_runtime_entries_for-IsDistinct ids t = (
  IsDistinct-unique_from [] (handles_of ids t) tt,
  λ h. contains-unique_from [] (handles_of ids t) h,
)

-- An execution that registers and then completes leaves the entries as they were, so that the task can
-- run here again, and closes exactly its own `done` channel.
complete-register :
    (id : ℤ) (t t' : TaskRuntimes)
    → register_task_runtime id t ≡ some t'
    → complete_task_runtime id t'
      ≡ record t { done = t.next_handle ∷ t.done; next_handle = t.next_handle + 1 }
unfolding register_task_runtime complete_task_runtime
complete-register id t t' h = elim (Option-cases (lookup id t.entries)) [
  | inr (entry, running) ↦ absurd (ground (arith, h, running))
  | inl idle ↦
      subst
        (λ x.
          complete_task_runtime id x
          ≡ record t { done = t.next_handle ∷ t.done; next_handle = t.next_handle + 1 })
        (opened idle)
        (rw
          (
            lookup-insert_self id (record { handle = t.next_handle; cause = none }) t.entries,
            complete_task_runtime,
            erase-insert id (record { handle = t.next_handle; cause = none }) t.entries idle,
          )
          refl)
]
  where
    opened :
        lookup id t.entries ≡ none
        → record t {
          entries = insert id (record { handle = t.next_handle; cause = none }) t.entries;
          next_handle = t.next_handle + 1;
        }
          ≡ t'
    opened idle = ground (arith, h, idle)
