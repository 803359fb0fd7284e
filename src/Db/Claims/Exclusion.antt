-- ===== src/Db/Claims/Exclusion.antt =====
-- A claimed row, and the others of its serial key, are not claimed again while its lock holds:
-- pkg/zgen/querier/tasks.sql.gen.go.
use anclax.Prelude.{
  ℕ, ◌≤◌, ◌<◌, ◌≡◌, ◌≢◌, refl, ◌∙◌, sym, ap, subst, Bool, true, false, false≢true, String, List, [],
  ◌∷◌, some, inl, inr, arith, Bool-cases, if◌then◌else◌, str_eq_iff,
}
use anclax.Prelude.Int.{ℤ, int_eq, int_eq_iff}
use anclax.Db.{TaskRow, World, ok}
use anclax.Db.Tasks.{is_task, any_row, update_rows}
use anclax.Db.Claims.{Claimer, is_eligible, is_candidate, claimed, claim_one, holds_lock}
use anclax.Db.Claims.Choice.{Row, ChosenFrom, first_row-chosen, claim_one-Took}

-- A row of the updated table with that id holds the new lock.
updated-locked :
    (id : ℤ) (me now : ℕ) (rows : List TaskRow) (x : TaskRow)
    → Row x (update_rows (is_task id) (claimed me now) rows)
    → int_eq x.id id ≡ true
    → x.locked_at ≡ some now
unfolding update_rows
updated-locked id me now [] x row h = elim row [ ]
updated-locked id me now (r ∷ rows) x (inr there) h = updated-locked id me now rows x there h
updated-locked id me now (r ∷ rows) x (inl here) h = go (int_eq r.id id) refl here
  where
    go :
        (b : Bool)
        → int_eq r.id id ≡ b
        → (if b then claimed me now r else r) ≡ x
        → x.locked_at ≡ some now
    go true e k = sym (ap (λ z. z.locked_at) k)
    go false e k = absurd (false≢true (sym e ∙ ap (λ z. int_eq z.id id) k ∙ h))

any_row-Row :
    (p : TaskRow → Bool) (x : TaskRow) (rows : List TaskRow)
    → Row x rows
    → p x ≡ true
    → any_row p rows ≡ true
unfolding any_row
any_row-Row p x [] row h = elim row [ ]
any_row-Row p x (r ∷ rows) (inl here) h = rw (ap p here ∙ h) refl
any_row-Row p x (r ∷ rows) (inr there) h = ground (arith, any_row-Row p x rows there h)

Row-update :
    (id : ℤ) (f : TaskRow → TaskRow) (x : TaskRow) (rows : List TaskRow)
    → Row x rows
    → is_task id x ≡ true
    → Row (f x) (update_rows (is_task id) f rows)
unfolding update_rows
Row-update id f x [] row h = elim row [ ]
Row-update id f x (r ∷ rows) (inl here) h = inl (rw (ap (is_task id) here ∙ h) (ap f here))
Row-update id f x (r ∷ rows) (inr there) h = inr (Row-update id f x rows there h)

-- What a candidate has been checked for.
candidate-free :
    (extra : TaskRow → Bool) (c : Claimer) (w : World) (r : TaskRow) (t : ℕ)
    → is_candidate extra c w r ≡ true
    → r.locked_at ≡ some t
    → t < c.lock_expiry
unfolding is_candidate is_eligible
candidate-free extra c w r t h e = ground (arith, h, e)

candidate-alone :
    (extra : TaskRow → Bool) (c : Claimer) (w : World) (r : TaskRow) (key : String)
    → is_candidate extra c w r ≡ true
    → r.serial_key ≡ some key
    → any_row (holds_lock c.lock_expiry key) w.db.tasks ≡ false
unfolding is_candidate
candidate-alone extra c w r key h e = ground (arith, h, e)

-- What the second claim has found.
abbrev Second : World → TaskRow → (TaskRow → Bool) → Claimer → TaskRow → Type 0
Second w r'' extra c r =
    (is_candidate extra c w r ≡ true) × Row r w.db.tasks × (r'' ≡ claimed c.worker_id w.now r)

second :
    (extra : TaskRow → Bool) (before : TaskRow → TaskRow → Bool) (c : Claimer) (w : World)
    (r'' : TaskRow)
    → (claim_one extra before c w).1 ≡ ok r''
    → (r : TaskRow) × Second w r'' extra c r
second extra before c w r'' h =
    let (r, first, same, _) = claim_one-Took extra before c w r'' h in
    let (p, row) =
      subst (ChosenFrom (is_candidate extra c w) w.db.tasks) first
        (first_row-chosen (is_candidate extra c w) before w.db.tasks) in
    (r, (p, row, same))

-- On the database that a claim has left, no claim of any kind, by any worker, takes the row that
-- the first one took, as long as its lock expiry is not after the time of the first claim.
pub claim_one-exclusive :
    (extra extra' : TaskRow → Bool) (before before' : TaskRow → TaskRow → Bool) (c c' : Claimer)
    (w w' : World) (r' r'' : TaskRow)
    → (claim_one extra before c w).1 ≡ ok r'
    → w'.db ≡ (claim_one extra before c w).0.db
    → c'.lock_expiry ≤ w.now
    → (claim_one extra' before' c' w').1 ≡ ok r''
    → int_eq r''.id r'.id ≡ false
claim_one-exclusive extra extra' before before' c c' w w' r' r'' h same live h' =
    let (r, first, e, tasks) = claim_one-Took extra before c w r' h in
    let (s, (p, row, e')) = second extra' before' c' w' r'' h' in
    elim (Bool-cases (int_eq r''.id r'.id)) [
      | inr differs ↦ differs
      | inl equal ↦ absurd (
          later s p (
            updated-locked r.id c.worker_id w.now w.db.tasks s
              (subst (Row s) (ap (λ d. d.tasks) same ∙ tasks) row)
              (rw (← ap (λ z. z.id) e, ← ap (λ z. z.id) e') equal)))
    ]
  where
    later : (s : TaskRow) → is_candidate extra' c' w' s ≡ true → s.locked_at ≡ some w.now → ⊥
    later s p l = omega (arith, candidate-free extra' c' w' s w.now p l)

-- On the database that a claim of a row with a serial key has left, no claim of any kind, by any
-- worker, takes a row of that key, as long as its lock expiry is not after the time of the first
-- claim.
pub claim_one-serial :
    (extra extra' : TaskRow → Bool) (before before' : TaskRow → TaskRow → Bool) (c c' : Claimer)
    (w w' : World) (r' r'' : TaskRow) (key : String)
    → (claim_one extra before c w).1 ≡ ok r'
    → w'.db ≡ (claim_one extra before c w).0.db
    → c'.lock_expiry ≤ w.now
    → r'.serial_key ≡ some key
    → (claim_one extra' before' c' w').1 ≡ ok r''
    → r''.serial_key ≢ some key
unfolding holds_lock
claim_one-serial extra extra' before before' c c' w w' r' r'' key h same live keyed h' keyed' =
    let (r, first, e, tasks) = claim_one-Took extra before c w r' h in
    let (s, (p, row, e')) = second extra' before' c' w' r'' h' in
    let (_, old) =
      subst (ChosenFrom (is_candidate extra c w) w.db.tasks) first
        (first_row-chosen (is_candidate extra c w) before w.db.tasks) in
    let locked =
      any_row-Row (holds_lock c'.lock_expiry key) (claimed c.worker_id w.now r) w'.db.tasks
        (subst (Row (claimed c.worker_id w.now r)) (sym (ap (λ d. d.tasks) same ∙ tasks))
          (Row-update r.id (claimed c.worker_id w.now) r w.db.tasks old (int_eq_refl r.id)))
        (holds c.worker_id w.now r (sym (ap (λ z. z.serial_key) e) ∙ keyed)) in
    false≢true (
      sym (candidate-alone extra' c' w' s key p (sym (ap (λ z. z.serial_key) e') ∙ keyed'))
      ∙ locked)
  where
    int_eq_refl : (n : ℤ) → int_eq n n ≡ true
    int_eq_refl n = ground (arith, int_eq_iff n n)

    holds :
        (me now : ℕ) (r : TaskRow)
        → r.serial_key ≡ some key
        → holds_lock c'.lock_expiry key (claimed me w.now r) ≡ true
    holds me now r k = ground (arith, str_eq_iff key key, k)
