-- ===== src/Db/Effects/Needing.antt =====
-- Actions that fail where there is no row for them.
use anclax.Prelude.{
  ◌≡◌, refl, sym, ap, ◌∙◌, Bool, false, false≢true, List, [], ◌∷◌, Option, none, some,
}
use anclax.Errors.{Err}
use anclax.Db.{
  TaskRow, Db, World, Reply, ok, fail, M, ◌>>=◌, catch, after, recover, run_statement, statement,
  commit, run_transaction,
}
use anclax.Db.Tasks.{any_row, update_one}
use anclax.Db.Effects.Keeping.{SameTasks}
use anclax.Db.Effects.Failing.{succeeded}

-- Without a row of which `p` holds, the action fails.
abbrev pub Needs : {A : Type 0} → (TaskRow → Bool) → M A → Type 0
Needs p m = (w : World) → any_row p w.db.tasks ≡ false → succeeded (m w).1 ≡ false

pub Needs-first :
    {A B : Type 0} (p : TaskRow → Bool) (m : M A) (f : A → M B) → Needs p m → Needs p (m >>= f)
Needs-first {A} {B} p m f h w none_mine = go (m w) (h w none_mine)
  where
    go : (out : World × Reply A) → succeeded out.1 ≡ false → succeeded (after out f).1 ≡ false
    go (w', ok a) g = absurd (false≢true (sym g))
    go (w', fail e) g = refl

pub Needs-later :
    {A B : Type 0} (p : TaskRow → Bool) (m : M A) (f : A → M B)
    → SameTasks m
    → ((a : A) → Needs p (f a))
    → Needs p (m >>= f)
Needs-later {A} {B} p m f same h w none_mine = go (m w) (same w)
  where
    go : (out : World × Reply A) → out.0.db.tasks ≡ w.db.tasks → succeeded (after out f).1 ≡ false
    go (w', ok a) g = h a w' (ap (any_row p) g ∙ none_mine)
    go (w', fail e) g = refl

pub Needs-catch :
    {A : Type 0} (p : TaskRow → Bool) (m : M A) (f : Err → M A)
    → Needs p m
    → ((e : Err) (w : World) → succeeded (f e w).1 ≡ false)
    → Needs p (catch m f)
Needs-catch {A} p m f h fails w none_mine = go (m w) (h w none_mine)
  where
    go : (out : World × Reply A) → succeeded out.1 ≡ false → succeeded (recover out f).1 ≡ false
    go (w', ok a) g = absurd (false≢true (sym g))
    go (w', fail e) g = fails e w'

pub Needs-statement :
    {A : Type 0} (p : TaskRow → Bool) (act : World → World × Reply A)
    → Needs p act
    → Needs p (statement act)
unfolding statement
Needs-statement p act h w none_mine = go w.faults
  where
    go : (faults : List (Option Err)) → succeeded (run_statement faults act w).1 ≡ false
    go [] = h w none_mine
    go (none ∷ rest) = h (record w { faults = rest }) none_mine
    go (some e ∷ rest) = refl

pub Needs-update_one :
    (p : TaskRow → Bool) (f : World → TaskRow → TaskRow) → Needs p (λ w. update_one p (f w) w)
unfolding update_one
Needs-update_one p f w none_mine = rw none_mine refl

commit-of_failed :
    {A : Type 0} (before : Db) (out : World × Reply A)
    → succeeded out.1 ≡ false
    → succeeded (commit before out).1 ≡ false
unfolding commit
commit-of_failed before (w, ok a) h = absurd (false≢true (sym h))
commit-of_failed before (w, fail e) h = refl

pub Needs-run_transaction :
    {A : Type 0} (p : TaskRow → Bool) (body : M A)
    → Needs p body
    → Needs p (run_transaction false body)
unfolding run_transaction statement
Needs-run_transaction {A} p body h w none_mine = begin w.faults
  where
    begin :
        (faults : List (Option Err))
        → succeeded
            (after (run_statement faults (λ w. (w, ok tt)) w) (λ _ w'. commit w'.db (body w'))).1
          ≡ false
    begin [] = commit-of_failed w.db (body w) (h w none_mine)
    begin (none ∷ rest) =
        commit-of_failed w.db (body (record w { faults = rest }))
          (h (record w { faults = rest }) none_mine)
    begin (some e ∷ rest) = refl
