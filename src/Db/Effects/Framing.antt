-- ===== src/Db/Effects/Framing.antt =====
-- Actions that leave a part of the database as it was, whatever fails, and transactions that commit.
use anclax.Prelude.{◌≡◌, refl, sym, ap, ◌∙◌, false, List, [], ◌∷◌, Option, none, some, arith}
use anclax.Errors.{Err}
use anclax.Db.{
  Db, World, Reply, ok, fail, M, ◌>>=◌, catch, after, recover, run_statement, statement, commit,
  run_transaction,
}

module _ {B : Type 0} (part : Db → B) where
  abbrev pub Same : {A : Type 0} → M A → Type 0
  Same m = (w : World) → part (m w).0.db ≡ part w.db

  pub Same-bind :
      {A C : Type 0} (m : M A) (f : A → M C) → Same m → ((a : A) → Same (f a)) → Same (m >>= f)
  Same-bind {A} {C} m f h k w = go (m w) (h w)
    where
      go : (out : World × Reply A) → part out.0.db ≡ part w.db → part (after out f).0.db ≡ part w.db
      go (w', ok a) g = k a w' ∙ g
      go (w', fail e) g = g

  pub Same-catch :
      {A : Type 0} (m : M A) (f : Err → M A) → Same m → ((e : Err) → Same (f e)) → Same (catch m f)
  Same-catch {A} m f h k w = go (m w) (h w)
    where
      go :
          (out : World × Reply A)
          → part out.0.db ≡ part w.db
          → part (recover out f).0.db ≡ part w.db
      go (w', ok a) g = g
      go (w', fail e) g = k e w' ∙ g

  pub Same-statement :
      {A : Type 0} (act : World → World × Reply A) → Same act → Same (statement act)
  unfolding statement
  Same-statement act h w = go w.faults
    where
      go : (faults : List (Option Err)) → part (run_statement faults act w).0.db ≡ part w.db
      go [] = h w
      go (none ∷ rest) = h (record w { faults = rest })
      go (some e ∷ rest) = refl

commit-ok :
    {A : Type 0} (before : Db) (out : World × Reply A) (w' : World) (a : A)
    → commit before out ≡ (w', ok a)
    → (u : World) × (out ≡ (u, ok a)) × (w'.db ≡ u.db)
unfolding commit statement
commit-ok before (w, fail e) w' a h = absurd (ground (arith, ap (λ x. x.1) h))
commit-ok {A} before (w, ok b) w' a h = go w.faults h
  where
    go :
        (faults : List (Option Err))
        → recover
            (run_statement faults (λ w. (w, ok b)) w)
            (λ e w. (record w { db = before }, fail e))
          ≡ (w', ok a)
        → (u : World) × (◌≡◌ {A = World × Reply A} (w, ok b) (u, ok a)) × (w'.db ≡ u.db)
    go [] k = (w, (λ i. (w, (k i).1)), ap (λ x. x.0.db) (sym k))
    go (none ∷ rest) k = (w, (λ i. (w, (k i).1)), ap (λ x. x.0.db) (sym k))
    go (some e ∷ rest) k = absurd (ground (arith, ap (λ x. x.1) k))

-- A transaction that returns a value: so did its body, on the database of the caller, and what the body
-- left is what was committed.
pub run_transaction-ok :
    {A : Type 0} (body : M A) (w w' : World) (a : A)
    → run_transaction false body w ≡ (w', ok a)
    → (v u : World) × (v.db ≡ w.db) × (body v ≡ (u, ok a)) × (w'.db ≡ u.db)
unfolding run_transaction statement
run_transaction-ok {A} body w w' a h = go w.faults h
  where
    go :
        (faults : List (Option Err))
        → after (run_statement faults (λ w. (w, ok tt)) w) (λ _ w'. commit w'.db (body w'))
          ≡ (w', ok a)
        → (v u : World) × (v.db ≡ w.db) × (body v ≡ (u, ok a)) × (w'.db ≡ u.db)
    go [] k = let (u, ran, same) = commit-ok w.db (body w) w' a k in (w, u, refl, ran, same)
    go (none ∷ rest) k =
        let v : World = record w { faults = rest } in
        let (u, ran, same) = commit-ok w.db (body v) w' a k in (v, u, refl, ran, same)
    go (some e ∷ rest) k = absurd (ground (arith, ap (λ x. x.1) k))

-- A statement that returns a value has run, on the database that it met.
pub statement-ok :
    {A : Type 0} (act : World → World × Reply A) (w w' : World) (a : A)
    → statement act w ≡ (w', ok a)
    → (v : World) × (v.db ≡ w.db) × (act v ≡ (w', ok a))
unfolding statement
statement-ok {A} act w w' a h = go w.faults h
  where
    go :
        (faults : List (Option Err))
        → run_statement faults act w ≡ (w', ok a)
        → (v : World) × (v.db ≡ w.db) × (act v ≡ (w', ok a))
    go [] k = (w, refl, k)
    go (none ∷ rest) k = (record w { faults = rest }, refl, k)
    go (some e ∷ rest) k = absurd (ground (arith, ap (λ x. x.1) k))

-- A query that returns a value has changed nothing, and read it.
pub query-ok :
    {A : Type 0} (read : Db → A) (w w' : World) (a : A)
    → statement (λ w. (w, ok (read w.db))) w ≡ (w', ok a)
    → (w'.db ≡ w.db) × (a ≡ read w.db)
query-ok {A} read w w' a h =
    let (v, same, ran) = statement-ok (λ w. (w, ok (read w.db))) w w' a h in
    (ap (λ x. x.0.db) (sym ran) ∙ same, got (read v.db) (ap (λ x. x.1) ran) ∙ ap read same)
  where
    got : (b : A) → ok b ≡ ok a → a ≡ b
    got b e = ground (arith, e)
