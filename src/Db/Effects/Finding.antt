-- ===== src/Db/Effects/Finding.antt =====
-- Where a row is found after others were changed or added.
use anclax.Prelude.{
  ℕ, ◌≡◌, refl, ap, ◌∙◌, Bool, true, false, inl, inr, List, [], ◌∷◌, ◌++◌, map, some, arith,
  Bool-cases,
}
use anclax.Prelude.Int.{ℤ, int_eq}
use mathlib.Core.Option
use anclax.Db.{TaskRow}
use anclax.Db.Tasks.{any_row, find_row, update_rows, is_task, is_mine, owned_by}

pub find_row-map :
    (p : TaskRow → Bool) (f : TaskRow → TaskRow) (rows : List TaskRow)
    → ((r : TaskRow) → p (f r) ≡ p r)
    → find_row p (map f rows) ≡ Option.map f (find_row p rows)
unfolding find_row
find_row-map p f [] h = refl
find_row-map p f (r ∷ rows) h = elim (Bool-cases (p r)) [
  | inl e ↦ rw (h r, e) refl
  | inr e ↦ rw (h r, e) (find_row-map p f rows h)
]

pub find_row-append :
    (p : TaskRow → Bool) (xs ys : List TaskRow) (r : TaskRow)
    → find_row p xs ≡ some r
    → find_row p (xs ++ ys) ≡ some r
unfolding find_row
find_row-append p [] ys r h = absurd (ground (arith, h))
find_row-append p (x ∷ xs) ys r h = elim (Bool-cases (p x)) [
  | inl e ↦ rw e (ground (arith, h, e))
  | inr e ↦ rw e (find_row-append p xs ys r (ground (arith, h, e)))
]

pub any_row-append :
    (p : TaskRow → Bool) (xs ys : List TaskRow)
    → any_row p xs ≡ false
    → any_row p ys ≡ false
    → any_row p (xs ++ ys) ≡ false
unfolding any_row
any_row-append p [] ys h k = k
any_row-append p (x ∷ xs) ys h k = ground (arith, h, any_row-append p xs ys)

-- The row that the worker holds is the one that its finalization writes.
pub find_row-mine :
    (id : ℤ) (me : ℕ) (f : TaskRow → TaskRow) (rows : List TaskRow) (r : TaskRow)
    → ((x : TaskRow) → is_task id (f x) ≡ is_task id x)
    → find_row (is_task id) rows ≡ some r
    → owned_by me r.worker_id ≡ true
    → (find_row (is_task id) (update_rows (is_mine id me) f rows) ≡ some (f r))
      × (any_row (is_mine id me) rows ≡ true)
unfolding find_row update_rows any_row
find_row-mine id me f [] r same h own = absurd (ground (arith, h))
find_row-mine id me f (x ∷ rows) r same h own = elim (Bool-cases (int_eq x.id id)) [
  | inl e ↦
      (let it : x ≡ r = ground (arith, h, e) in
        let mine : owned_by me x.worker_id ≡ true = rw it own in
        (rw (e, mine, same x ∙ e) (ap (λ y. some (f y)) it), rw (e, mine) refl))
  | inr e ↦
      (let (found, any) = find_row-mine id me f rows r same (ground (arith, h, e)) own in
        (rw (e, e) found, rw e any))
]
