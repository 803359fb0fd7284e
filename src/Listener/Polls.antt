-- ===== src/Listener/Polls.antt =====
-- What the query of a poll returns: sql/queries/tasks.sql, as pkg/taskcore/listener/polling.go runs it.
use anclax.Prelude.{
  ◌≡◌, ap, subst, true, ◌&&◌, List, [], ◌∷◌, Option, none, some, inl, inr, arith, Bool-cases,
}
use anclax.Prelude.Int.{ℤ, ℤ_eq}
use anclax.Prelude.Unique.{contains}
use anclax.Errors.{Err}
use anclax.Api.{TaskStatus}
use anclax.Db.{TaskRow, World, ok, run_statement, statement}
use anclax.Db.Trees.{is_terminal_status, terminal_statuses, list_terminal_task_wait_statuses}

-- The rows of a poll have a terminal status.
abbrev pub AllTerminal : List (ℤ × TaskStatus) → Type 0
AllTerminal [] = Unit {0}
AllTerminal ((id, status) ∷ rows) = (is_terminal_status status ≡ true) × AllTerminal rows

terminal_statuses-AllTerminal :
    (ids : List ℤ) (rows : List TaskRow) → AllTerminal (terminal_statuses ids rows)
unfolding terminal_statuses
terminal_statuses-AllTerminal ids [] = tt
terminal_statuses-AllTerminal ids (r ∷ rows) =
    elim (Bool-cases (contains ids r.id && is_terminal_status r.status)) [
      | inl e ↦ rw e (ground (arith, e), terminal_statuses-AllTerminal ids rows)
      | inr e ↦ rw e (terminal_statuses-AllTerminal ids rows)
    ]

pub list_terminal_task_wait_statuses-AllTerminal :
    (ids : List ℤ) (w w' : World) (rows : List (ℤ × TaskStatus))
    → list_terminal_task_wait_statuses ids w ≡ (w', ok rows)
    → AllTerminal rows
unfolding list_terminal_task_wait_statuses statement
list_terminal_task_wait_statuses-AllTerminal ids w w' rows h = go w.faults h
  where
    same : (found : List (ℤ × TaskStatus)) → ok found ≡ ok rows → found ≡ rows
    same found e = ground (arith, e)

    go :
        (faults : List (Option Err))
        → run_statement faults (λ w. (w, ok (terminal_statuses ids w.db.tasks))) w ≡ (w', ok rows)
        → AllTerminal rows
    go [] k =
        subst AllTerminal (same _ (ap (λ x. x.1) k)) (terminal_statuses-AllTerminal ids w.db.tasks)
    go (none ∷ rest) k =
        subst AllTerminal (same _ (ap (λ x. x.1) k)) (terminal_statuses-AllTerminal ids w.db.tasks)
    go (some e ∷ rest) k = absurd (ground (arith, ap (λ x. x.1) k))
