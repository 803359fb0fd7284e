-- ===== src/Db/Effects/Rows.antt =====
-- Tables of tasks that differ in few rows, and updates of them.
use anclax.Prelude.{
  ◌≡◌, refl, sym, ap, ◌∙◌, ◌⊎◌, Bool, true, false, inl, inr, List, [], ◌∷◌, arith, Bool-cases,
  if◌then◌else◌,
}
use anclax.Db.{TaskRow}
use anclax.Db.Tasks.{any_row, update_rows}

-- The two tables hold the same rows in the same order, but for those of which `p` held.
abbrev pub Kept : (TaskRow → Bool) → List TaskRow → List TaskRow → Type 0
Kept p [] [] = Unit {0}
Kept p (r ∷ rows) (r' ∷ rows') = ((p r ≡ true) ⊎ (r' ≡ r)) × Kept p rows rows'
Kept p _ _ = ⊥

pub Kept-refl : (p : TaskRow → Bool) (rows : List TaskRow) → Kept p rows rows
Kept-refl p [] = tt
Kept-refl p (r ∷ rows) = (inr refl, Kept-refl p rows)

pub Kept-trans :
    (p : TaskRow → Bool) (xs ys zs : List TaskRow) → Kept p xs ys → Kept p ys zs → Kept p xs zs
Kept-trans p [] [] [] h k = tt
Kept-trans p [] [] (z ∷ zs) h k = elim k [ ]
Kept-trans p [] (y ∷ ys) zs h k = elim h [ ]
Kept-trans p (x ∷ xs) [] zs h k = elim h [ ]
Kept-trans p (x ∷ xs) (y ∷ ys) [] h k = elim k [ ]
Kept-trans p (x ∷ xs) (y ∷ ys) (z ∷ zs) h k = (both h.0 k.0, Kept-trans p xs ys zs h.1 k.1)
  where
    both : ((p x ≡ true) ⊎ (y ≡ x)) → ((p y ≡ true) ⊎ (z ≡ y)) → (p x ≡ true) ⊎ (z ≡ x)
    both (inl a) b = inl a
    both (inr a) (inl b) = inl (ap p (sym a) ∙ b)
    both (inr a) (inr b) = inr (b ∙ a)

pub Kept-update_rows :
    (p : TaskRow → Bool) (f : TaskRow → TaskRow) (rows : List TaskRow)
    → Kept p rows (update_rows p f rows)
unfolding update_rows
Kept-update_rows p f [] = tt
Kept-update_rows p f (r ∷ rows) = (changed (p r) refl, Kept-update_rows p f rows)
  where
    changed : (b : Bool) → p r ≡ b → (p r ≡ true) ⊎ ((if b then f r else r) ≡ r)
    changed true h = inl h
    changed false h = inr refl

pub any_row-update :
    (p : TaskRow → Bool) (f : TaskRow → TaskRow) (rows : List TaskRow)
    → ((r : TaskRow) → p (f r) ≡ p r)
    → any_row p (update_rows p f rows) ≡ any_row p rows
unfolding any_row update_rows
any_row-update p f [] h = refl
any_row-update p f (r ∷ rows) h = elim (Bool-cases (p r)) [
  | inl c ↦ rw (c, h r, c) refl
  | inr c ↦ rw (c, c, any_row-update p f rows h) refl
]

-- Two updates of the same rows are one.
pub update_rows-twice :
    (p : TaskRow → Bool) (f g : TaskRow → TaskRow) (rows : List TaskRow)
    → ((r : TaskRow) → p (f r) ≡ p r)
    → update_rows p g (update_rows p f rows) ≡ update_rows p (λ r. g (f r)) rows
unfolding update_rows
update_rows-twice p f g [] h = refl
update_rows-twice p f g (r ∷ rows) h = elim (Bool-cases (p r)) [
  | inl c ↦ rw (c, h r, c, update_rows-twice p f g rows h) refl
  | inr c ↦ rw (c, c, update_rows-twice p f g rows h) refl
]

pub update_rows-none :
    (p : TaskRow → Bool) (f : TaskRow → TaskRow) (rows : List TaskRow)
    → any_row p rows ≡ false
    → update_rows p f rows ≡ rows
unfolding any_row update_rows
update_rows-none p f [] h = refl
update_rows-none p f (r ∷ rows) h = elim (Bool-cases (p r)) [
  | inl c ↦ absurd (ground (arith, h, c))
  | inr c ↦ rw (c, update_rows-none p f rows (ground (arith, h, c))) refl
]
