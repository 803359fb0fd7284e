-- ===== src/Db/Effects/Failing.antt =====
-- Actions that fail, and the transactions of pkg/zcore/model/model.go around them.
use anclax.Prelude.{
  ◌≡◌, refl, sym, ap, ◌∙◌, ◌⊎◌, Bool, true, false, false≢true, inl, inr, List, [], ◌∷◌, Option,
  none, some, arith,
}
use anclax.Errors.{Err}
use anclax.Db.{
  TaskRow, Db, World, Reply, ok, fail, M, catch, after, recover, run_statement, statement, commit,
  run_transaction,
}
use anclax.Db.Effects.Rows.{Kept, Kept-refl}
use anclax.Db.Effects.Keeping.{Keeps}

abbrev pub succeeded : {A : Type 0} → Reply A → Bool
succeeded (ok a) = true
succeeded (fail e) = false

-- An error handler that leaves the database alone.
abbrev pub SameDb : {A : Type 0} → M A → Type 0
SameDb m = (w : World) → (m w).0.db ≡ w.db

pub catch-db :
    {A : Type 0} (m : M A) (f : Err → M A) (w : World) (d : Db)
    → (m w).0.db ≡ d
    → ((e : Err) → SameDb (f e))
    → (catch m f w).0.db ≡ d
catch-db {A} m f w d h k = go (m w) h
  where
    go : (out : World × Reply A) → out.0.db ≡ d → (recover out f).0.db ≡ d
    go (w', ok a) g = g
    go (w', fail e) g = k e w' ∙ g

-- If the whole fails, so did the action behind `catch`.
pub catch-failed :
    {A : Type 0} (m : M A) (f : Err → M A) (w : World)
    → succeeded (catch m f w).1 ≡ false
    → succeeded (m w).1 ≡ false
catch-failed {A} m f w h = go (m w) h
  where
    go : (out : World × Reply A) → succeeded (recover out f).1 ≡ false → succeeded out.1 ≡ false
    go (w', ok a) g = g
    go (w', fail e) g = refl

-- A statement that returned a value did run.
pub statement-ok :
    {A : Type 0} (act : World → World × Reply A) (w : World) (a : A)
    → (statement act w).1 ≡ ok a
    → (rest : List (Option Err)) × (statement act w ≡ act (record w { faults = rest }))
unfolding statement
statement-ok act w a h = go w.faults refl h
  where
    go :
        (faults : List (Option Err))
        → w.faults ≡ faults
        → (run_statement faults act w).1 ≡ ok a
        → (rest : List (Option Err)) × (run_statement faults act w
            ≡ act (record w { faults = rest }))
    go [] e k = ([], ap (λ x. act (record w { faults = x })) e)
    go (none ∷ rest) e k = (rest, refl)
    go (some x ∷ rest) e k = absurd (ground (arith, k))

commit-cases :
    {A : Type 0} (before : Db) (out : World × Reply A)
    → ((commit before out).0.db ≡ before) ⊎ ((commit before out).0.db ≡ out.0.db)
unfolding commit statement
commit-cases before (w, fail e) = inl refl
commit-cases before (w, ok a) = go w.faults
  where
    go :
        (faults : List (Option Err))
        → ((recover
              (run_statement faults (λ w. (w, ok a)) w)
              (λ e w. (record w { db = before }, fail e))).0.db
            ≡ before)
          ⊎ ((recover
                (run_statement faults (λ w. (w, ok a)) w)
                (λ e w. (record w { db = before }, fail e))).0.db
              ≡ w.db)
    go [] = inr refl
    go (none ∷ rest) = inr refl
    go (some e ∷ rest) = inl refl

-- A transaction keeps what its body keeps.
pub Keeps-run_transaction :
    {A : Type 0} (p : TaskRow → Bool) (in_tx : Bool) (body : M A)
    → Keeps p body
    → Keeps p (run_transaction in_tx body)
unfolding run_transaction statement
Keeps-run_transaction p true body h w = Kept-refl p w.db.tasks
Keeps-run_transaction {A} p false body h w = begin w.faults
  where
    finish : (w' : World) → Kept p w'.db.tasks (commit w'.db (body w')).0.db.tasks
    finish w' = elim (commit-cases w'.db (body w')) [
      | inl back ↦ rw back (Kept-refl p w'.db.tasks)
      | inr done ↦ rw done (h w')
    ]

    begin :
        (faults : List (Option Err))
        → Kept p w.db.tasks
            (after
              (run_statement faults (λ w. (w, ok tt)) w)
              (λ _ w'. commit w'.db (body w'))).0.db.tasks
    begin [] = finish w
    begin (none ∷ rest) = finish (record w { faults = rest })
    begin (some e ∷ rest) = Kept-refl p w.db.tasks

commit-failed :
    {A : Type 0} (before : Db) (out : World × Reply A)
    → succeeded (commit before out).1 ≡ false
    → (commit before out).0.db ≡ before
unfolding commit statement
commit-failed before (w, fail e) h = refl
commit-failed before (w, ok a) h = go w.faults h
  where
    go :
        (faults : List (Option Err))
        → succeeded
            (recover
              (run_statement faults (λ w. (w, ok a)) w)
              (λ e w. (record w { db = before }, fail e))).1
          ≡ false
        → (recover
            (run_statement faults (λ w. (w, ok a)) w)
            (λ e w. (record w { db = before }, fail e))).0.db
          ≡ before
    go [] h = absurd (false≢true (sym h))
    go (none ∷ rest) h = absurd (false≢true (sym h))
    go (some e ∷ rest) h = refl

-- A transaction that returns an error has changed nothing, whatever its body did and whichever
-- statement, begin or commit failed.
pub run_transaction-failed :
    {A : Type 0} (in_tx : Bool) (body : M A) (w : World)
    → succeeded (run_transaction in_tx body w).1 ≡ false
    → (run_transaction in_tx body w).0.db ≡ w.db
unfolding run_transaction statement
run_transaction-failed true body w h = refl
run_transaction-failed {A} false body w h = begin w.faults h
  where
    begin :
        (faults : List (Option Err))
        → succeeded
            (after (run_statement faults (λ w. (w, ok tt)) w) (λ _ w'. commit w'.db (body w'))).1
          ≡ false
        → (after (run_statement faults (λ w. (w, ok tt)) w) (λ _ w'. commit w'.db (body w'))).0.db
          ≡ w.db
    begin [] h = commit-failed w.db (body w) h
    begin (none ∷ rest) h = commit-failed w.db (body (record w { faults = rest })) h
    begin (some e ∷ rest) h = refl
