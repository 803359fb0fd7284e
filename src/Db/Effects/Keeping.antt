-- ===== src/Db/Effects/Keeping.antt =====
-- Actions on the database that leave rows as they were, whatever fails.
use anclax.Prelude.{◌≡◌, refl, ◌∙◌, ◌+◌, ◌++◌, Bool, List, [], ◌∷◌, Option, none, some}
use anclax.Errors.{Err}
use anclax.Db.{
  TaskRow, EventSpec, World, Reply, ok, fail, M, ◌>>=◌, catch, after, recover, run_statement,
  statement,
}
use anclax.Db.Tasks.{update_one, insert_event}
use anclax.Db.Effects.Rows.{Kept, Kept-refl, Kept-trans, Kept-update_rows}

-- Whatever fails, the action changes no row of which `p` does not hold.
abbrev pub Keeps : {A : Type 0} → (TaskRow → Bool) → M A → Type 0
Keeps p m = (w : World) → Kept p w.db.tasks (m w).0.db.tasks

pub Keeps-bind :
    {A B : Type 0} (p : TaskRow → Bool) (m : M A) (f : A → M B)
    → Keeps p m
    → ((a : A) → Keeps p (f a))
    → Keeps p (m >>= f)
Keeps-bind {A} {B} p m f h k w = go (m w) (h w)
  where
    go :
        (out : World × Reply A)
        → Kept p w.db.tasks out.0.db.tasks
        → Kept p w.db.tasks (after out f).0.db.tasks
    go (w', ok a) g = Kept-trans p w.db.tasks w'.db.tasks _ g (k a w')
    go (w', fail e) g = g

pub Keeps-catch :
    {A : Type 0} (p : TaskRow → Bool) (m : M A) (f : Err → M A)
    → Keeps p m
    → ((e : Err) → Keeps p (f e))
    → Keeps p (catch m f)
Keeps-catch {A} p m f h k w = go (m w) (h w)
  where
    go :
        (out : World × Reply A)
        → Kept p w.db.tasks out.0.db.tasks
        → Kept p w.db.tasks (recover out f).0.db.tasks
    go (w', ok a) g = g
    go (w', fail e) g = Kept-trans p w.db.tasks w'.db.tasks _ g (k e w')

pub Keeps-statement :
    {A : Type 0} (p : TaskRow → Bool) (act : World → World × Reply A)
    → Keeps p act
    → Keeps p (statement act)
unfolding statement
Keeps-statement p act h w = go w.faults
  where
    go : (faults : List (Option Err)) → Kept p w.db.tasks (run_statement faults act w).0.db.tasks
    go [] = h w
    go (none ∷ rest) = h (record w { faults = rest })
    go (some e ∷ rest) = Kept-refl p w.db.tasks

pub Keeps-update_one :
    (p : TaskRow → Bool) (f : World → TaskRow → TaskRow) → Keeps p (λ w. update_one p (f w) w)
unfolding update_one
Keeps-update_one p f w = Kept-update_rows p (f w) w.db.tasks

abbrev pub SameTasks : {A : Type 0} → M A → Type 0
SameTasks m = (w : World) → (m w).0.db.tasks ≡ w.db.tasks

pub SameTasks-insert_event : (spec : EventSpec) → SameTasks (insert_event spec)
unfolding insert_event statement
SameTasks-insert_event spec w = go w.faults
  where
    go :
        (faults : List (Option Err))
        → (run_statement faults
            (λ w. (
              record w {
                db = record w.db {
                  events =
                      w.db.events
                      ++ record { id = w.db.next_event; spec = spec; created_at = w.now } ∷ [];
                  next_event = w.db.next_event + 1;
                };
              },
              ok tt,
            ))
            w).0.db.tasks
          ≡ w.db.tasks
    go [] = refl
    go (none ∷ rest) = refl
    go (some e ∷ rest) = refl

pub SameTasks-catch :
    {A : Type 0} (m : M A) (f : Err → M A)
    → SameTasks m
    → ((e : Err) → SameTasks (f e))
    → SameTasks (catch m f)
SameTasks-catch {A} m f h k w = go (m w) (h w)
  where
    go :
        (out : World × Reply A)
        → out.0.db.tasks ≡ w.db.tasks
        → (recover out f).0.db.tasks ≡ w.db.tasks
    go (w', ok a) g = g
    go (w', fail e) g = k e w' ∙ g

pub Keeps-SameTasks : {A : Type 0} (p : TaskRow → Bool) (m : M A) → SameTasks m → Keeps p m
Keeps-SameTasks p m h w = rw (h w) (Kept-refl p w.db.tasks)
