-- ===== src/Db/Claims/Choice.antt =====
-- Which row a claim of pkg/zgen/querier/tasks.sql.gen.go takes.
use anclax.Prelude.{
  ◌≡◌, refl, ◌∙◌, sym, ap, subst, Bool, true, false, List, [], ◌∷◌, Option, none, some, inl, inr,
  ◌⊎◌, arith, Bool-cases,
}
use anclax.Prelude.Int.{pos, ltb_ℤ, int_eq_iff}
use anclax.Db.{TaskRow, World, ok}
use anclax.Db.Tasks.{is_task, update_rows}
use anclax.Db.Effects.{statement-ok}
use anclax.Db.Claims.{
  Claimer, is_candidate, pick, first_row, claimed, take_row, claim_one, max_int32, by_priority,
  by_weight, claim_strict_task,
}

-- `r` is one of the rows.
abbrev pub Row : TaskRow → List TaskRow → Type 0
Row r [] = ⊥
Row r (x ∷ xs) = (x ≡ r) ⊎ Row r xs

abbrev pub ChosenFrom : (TaskRow → Bool) → List TaskRow → Option TaskRow → Type 0
ChosenFrom p rows none = Unit {0}
ChosenFrom p rows (some r) = (p r ≡ true) × Row r rows

weaken :
    (p : TaskRow → Bool) (x : TaskRow) (rows : List TaskRow) (o : Option TaskRow)
    → ChosenFrom p rows o
    → ChosenFrom p (x ∷ rows) o
weaken p x rows none h = tt
weaken p x rows (some r) h = (h.0, inr h.1)

pick-chosen :
    (p : TaskRow → Bool) (before : TaskRow → TaskRow → Bool) (x : TaskRow) (rows : List TaskRow)
    (o : Option TaskRow)
    → p x ≡ true
    → ChosenFrom p rows o
    → ChosenFrom p (x ∷ rows) (pick before x o)
pick-chosen p before x rows none h k = (h, inl refl)
pick-chosen p before x rows (some s) h k = elim (Bool-cases (before s x)) [
  | inl b ↦ rw b (k.0, inr k.1)
  | inr b ↦ rw b (h, inl refl)
]

pub first_row-chosen :
    (p : TaskRow → Bool) (before : TaskRow → TaskRow → Bool) (rows : List TaskRow)
    → ChosenFrom p rows (first_row p before rows)
unfolding first_row
first_row-chosen p before [] = tt
first_row-chosen p before (x ∷ rows) = elim (Bool-cases (p x)) [
  | inl h ↦
      rw h
        (pick-chosen p before x rows (first_row p before rows) h (first_row-chosen p before rows))
  | inr h ↦ rw h (weaken p x rows (first_row p before rows) (first_row-chosen p before rows))
]

-- A strict order whose incomparability is transitive.
pub record Ranks (before : TaskRow → TaskRow → Bool) : Type 0 where
  pub irrefl : (x : TaskRow) → before x x ≡ false
  pub cotrans : (x s r : TaskRow) → before x s ≡ false → before s r ≡ false → before x r ≡ false
  pub asym : (x y : TaskRow) → before x y ≡ true → before y x ≡ false

-- No candidate goes before the chosen one.
abbrev pub Unbeaten : (TaskRow → TaskRow → Bool) → TaskRow → Option TaskRow → Type 0
Unbeaten before x none = ⊥
Unbeaten before x (some r) = before x r ≡ false

pick-Unbeaten_head :
    (before : TaskRow → TaskRow → Bool) (x : TaskRow) (o : Option TaskRow)
    → Ranks before
    → Unbeaten before x (pick before x o)
pick-Unbeaten_head before x none k = k.irrefl x
pick-Unbeaten_head before x (some s) k = elim (Bool-cases (before s x)) [
  | inl b ↦ rw b (k.asym s x b)
  | inr b ↦ rw b (k.irrefl x)
]

pick-Unbeaten :
    (before : TaskRow → TaskRow → Bool) (x y : TaskRow) (o : Option TaskRow)
    → Ranks before
    → Unbeaten before y o
    → Unbeaten before y (pick before x o)
pick-Unbeaten before x y none k h = elim h [ ]
pick-Unbeaten before x y (some s) k h = elim (Bool-cases (before s x)) [
  | inl b ↦ rw b h
  | inr b ↦ rw b (k.cotrans y s x h b)
]

pub first_row-Unbeaten :
    (p : TaskRow → Bool) (before : TaskRow → TaskRow → Bool) (rows : List TaskRow) (y : TaskRow)
    → Ranks before
    → Row y rows
    → p y ≡ true
    → Unbeaten before y (first_row p before rows)
unfolding first_row
first_row-Unbeaten p before [] y k none_here h = elim none_here [ ]
first_row-Unbeaten p before (x ∷ rows) y k (inl here) h = rw (ap p here ∙ h) (
    subst (λ z. Unbeaten before z (pick before x (first_row p before rows))) here
      (pick-Unbeaten_head before x (first_row p before rows) k))
first_row-Unbeaten p before (x ∷ rows) y k (inr there) h = elim (Bool-cases (p x)) [
  | inl c ↦ rw c (
      pick-Unbeaten before x y (first_row p before rows) k
        (first_row-Unbeaten p before rows y k there h))
  | inr c ↦ rw c (first_row-Unbeaten p before rows y k there h)
]

pub by_priority-Ranks : Ranks by_priority
unfolding by_priority
by_priority-Ranks = record {
  irrefl = λ x. ground (arith, int_eq_iff x.priority x.priority);
  cotrans = λ x s r h k. ground (
    arith,
    int_eq_iff x.priority r.priority,
    int_eq_iff x.priority s.priority,
    int_eq_iff s.priority r.priority,
  );
  asym =
      λ x y h. ground (arith, int_eq_iff x.priority y.priority, int_eq_iff y.priority x.priority);
}

by_weight-Ranks : Ranks by_weight
unfolding by_weight
by_weight-Ranks = record {
  irrefl = λ x. ground (arith, int_eq_iff x.weight x.weight);
  cotrans = λ x s r h k. ground (
    arith,
    int_eq_iff x.weight r.weight,
    int_eq_iff x.weight s.weight,
    int_eq_iff s.weight r.weight,
  );
  asym = λ x y h. ground (arith, int_eq_iff x.weight y.weight, int_eq_iff y.weight x.weight);
}

-- A claim that returns `r'` has taken the first candidate, and changed no other row.
abbrev pub Took :
    (TaskRow → Bool) → (TaskRow → TaskRow → Bool) → Claimer → World → TaskRow → World → Type 0
Took extra before c w r' w' =
    (r : TaskRow) × (first_row (is_candidate extra c w) before w.db.tasks ≡ some r)
    × (r' ≡ claimed c.worker_id w.now r)
    × (w'.db.tasks ≡ update_rows (is_task r.id) (claimed c.worker_id w.now) w.db.tasks)

pub claim_one-Took :
    (extra : TaskRow → Bool) (before : TaskRow → TaskRow → Bool) (c : Claimer) (w : World)
    (r' : TaskRow)
    → (claim_one extra before c w).1 ≡ ok r'
    → Took extra before c w r' (claim_one extra before c w).0
unfolding claim_one take_row
claim_one-Took extra before c w r' h =
    go (first_row (is_candidate extra c w) before w.db.tasks) refl h
  where
    go :
        (o : Option TaskRow)
        → first_row (is_candidate extra c w) before w.db.tasks ≡ o
        → (take_row c o w).1 ≡ ok r'
        → (r : TaskRow) × (first_row (is_candidate extra c w) before w.db.tasks ≡ some r)
          × (r' ≡ claimed c.worker_id w.now r)
          × ((take_row c o w).0.db.tasks
              ≡ update_rows (is_task r.id) (claimed c.worker_id w.now) w.db.tasks)
    go none e k = absurd (ground (arith, k))
    go (some r) e k = elim (Bool-cases (ltb_ℤ r.attempts max_int32)) [
      | inl small ↦ (r, e, ground (arith, small, k), rw small refl)
      | inr large ↦ absurd (ground (arith, large, k))
    ]

candidate-extra :
    (extra : TaskRow → Bool) (c : Claimer) (w : World) (r : TaskRow)
    → is_candidate extra c w r ≡ true
    → extra r ≡ true
unfolding is_candidate
candidate-extra extra c w r h = ground (arith, h)

-- A claim of the strict lane that returns a row, while another row could be claimed: the returned
-- row is this worker's, locked now, of positive priority, and the other row does not go before it,
-- by priority first, then by age.
pub claim_strict_task-first :
    (c : Claimer) (w : World) (r' x : TaskRow)
    → (claim_strict_task c w).1 ≡ ok r'
    → Row x w.db.tasks
    → is_candidate (λ r. ltb_ℤ (pos 0) r.priority) c w x ≡ true
    → (r'.worker_id ≡ some c.worker_id)
      × (r'.locked_at ≡ some w.now)
      × (ltb_ℤ (pos 0) r'.priority ≡ true)
      × (by_priority x r' ≡ false)
unfolding claim_strict_task
claim_strict_task-first c w r' x h row candidate =
    let (rest, run) =
      statement-ok (claim_one (λ r. ltb_ℤ (pos 0) r.priority) by_priority c) w r' h in
    let (r, first, same, _) =
      claim_one-Took (λ r. ltb_ℤ (pos 0) r.priority) by_priority c (record w { faults = rest }) r'
        (ap (λ z. z.1) (sym run) ∙ h) in
    rw same (refl, refl, strict r first, best r first)
  where
    p : TaskRow → Bool
    p = is_candidate (λ r. ltb_ℤ (pos 0) r.priority) c w

    strict :
        (r : TaskRow)
        → first_row p by_priority w.db.tasks ≡ some r
        → ltb_ℤ (pos 0) r.priority ≡ true
    strict r first =
        candidate-extra (λ r. ltb_ℤ (pos 0) r.priority) c w r
          (subst (ChosenFrom p w.db.tasks) first (first_row-chosen p by_priority w.db.tasks)).0

    best :
        (r : TaskRow)
        → first_row p by_priority w.db.tasks ≡ some r
        → by_priority x (claimed c.worker_id w.now r) ≡ false
    best r first =
        subst (Unbeaten by_priority x) first
          (first_row-Unbeaten p by_priority w.db.tasks x by_priority-Ranks row candidate)
