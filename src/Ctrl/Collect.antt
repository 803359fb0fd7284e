-- ===== src/Ctrl/Collect.antt =====
-- The tree of a task, which the recursive query ListTaskDescendantIDs and the loops over it in
-- pkg/taskcore/ctrl/ctrl.go collect.
use anclax.Prelude.{
  ℕ, zero, suc, ◌+◌, ◌≤◌, ◌≡◌, refl, sym, ◌∙◌, subst, ◌↔◌, ◌⊎◌, Bool, true, ◌&&◌, List, [], ◌∷◌,
  Option, none, some, inl, inr, arith, Bool-cases,
}
use anclax.Prelude.Int.{ℤ, pos, int_eq, int_eq_iff, ℤ_eq, ◌<ℤ◌, ◌≤ℤ◌}
use anclax.Prelude.Unique.{
  contains, contains-append, unique_from, contains-unique_from, IsDistinct, IsDistinct-unique_from,
}
use anclax.Db.Tasks.{any_row}
use anclax.Db.{TaskRow, World, ok, statement}
use anclax.Db.Effects.{calm}
use anclax.Db.Trees.{
  parent_is, is_child_of, children, children_of_all, descendants_from, descendants,
  list_task_descendant_ids,
}
use anclax.Ctrl.{collect_task_and_descendant_ids}

-- A row of id `j` whose parent is `id`.
abbrev pub is_child : ℤ → ℤ → TaskRow → Bool
is_child id j r = int_eq r.id j && is_child_of id r

-- The task and its descendants, by the column parent_task_id.
pub data Below (rows : List TaskRow) (root : ℤ) : ℤ → Type 0 where
  self : {id : ℤ} → id ≡ root → Below rows root id
  child : {id j : ℤ} → any_row (is_child id j) rows ≡ true → Below rows root id → Below rows root j

-- Ids come from a sequence, and a task is made after its parent.
abbrev pub ParentFirst : Option ℤ → ℤ → Type 0
ParentFirst none id = Unit {0}
ParentFirst (some p) id = p <ℤ id

abbrev pub IsOrdered : ℕ → List TaskRow → Type 0
IsOrdered n [] = Unit {0}
IsOrdered n (r ∷ rows) = (r.id <ℤ pos n) × ParentFirst r.parent_task_id r.id × IsOrdered n rows

children-any_row :
    (id j : ℤ) (rows : List TaskRow) → contains (children id rows) j ≡ any_row (is_child id j) rows
unfolding contains children any_row
children-any_row id j [] = refl
children-any_row id j (r ∷ rows) = elim (Bool-cases (is_child_of id r)) [
  | inl c ↦ ground (arith, c, children-any_row id j rows)
  | inr c ↦ ground (arith, c, children-any_row id j rows)
]

module _ (rows : List TaskRow) where
  -- A child of one of several is the child of one.
  children_of_all-parent :
      (ids : List ℤ) (j : ℤ)
      → contains (children_of_all ids rows) j ≡ true
      → (id : ℤ) × (contains ids id ≡ true) × (any_row (is_child id j) rows ≡ true)
  unfolding children_of_all contains
  children_of_all-parent [] j h = absurd (ground (arith, h))
  children_of_all-parent (id ∷ ids) j h = elim (Bool-cases (any_row (is_child id j) rows)) [
    | inl c ↦ (id, ground (arith, int_eq_iff id id), c)
    | inr c ↦
        (let (p, here, e) = children_of_all-parent ids j (
            ground (
              arith,
              c,
              h,
              contains-append (children id rows) (children_of_all ids rows) j,
              children-any_row id j rows,
            )) in
          (p, ground (arith, here), e))
  ]

  children_of_all-child :
      (ids : List ℤ) (id j : ℤ)
      → contains ids id ≡ true
      → any_row (is_child id j) rows ≡ true
      → contains (children_of_all ids rows) j ≡ true
  unfolding children_of_all contains
  children_of_all-child [] id j h k = absurd (ground (arith, h))
  children_of_all-child (i ∷ ids) id j h k = elim (Bool-cases (int_eq i id)) [
    | inl c ↦
        rw
          (
            contains-append (children i rows) (children_of_all ids rows) j,
            children-any_row i j rows,
            (int_eq_iff i id).0 c,
          )
          (ground (arith, k))
    | inr c ↦ ground (
      arith,
      contains-append (children i rows) (children_of_all ids rows) j,
      children_of_all-child ids id j (ground (arith, c, h)) k,
    )
  ]

  descendants_from-working :
      (fuel : ℕ) (working : List ℤ) (j : ℤ)
      → contains working j ≡ true
      → contains (descendants_from fuel working rows) j ≡ true
  unfolding descendants_from
  descendants_from-working zero working j h = h
  descendants_from-working (suc fuel) working j h = ground (
    arith,
    h,
    contains-append working (descendants_from fuel (children_of_all working rows) rows) j,
  )

  -- Whatever the query returns is a descendant, on any fuel.
  descendants_from-Below :
      (root : ℤ) (fuel : ℕ) (working : List ℤ)
      → ((i : ℤ) → contains working i ≡ true → Below rows root i)
      → (j : ℤ) → contains (descendants_from fuel working rows) j ≡ true
      → Below rows root j
  unfolding descendants_from
  descendants_from-Below root zero working below j h = below j h
  descendants_from-Below root (suc fuel) working below j h =
      elim (Bool-cases (contains working j)) [
        | inl c ↦ below j c
        | inr c ↦
            descendants_from-Below root fuel (children_of_all working rows)
              (λ i k.
                (let (p, here, e) = children_of_all-parent working i k in
                  Below.child e (below p here)))
              j
              (ground (
                arith,
                c,
                h,
                contains-append working (descendants_from fuel (children_of_all working rows) rows)
                    j,
              ))
      ]

parent-lt : (id i : ℤ) (o : Option ℤ) → parent_is id o ≡ true → ParentFirst o i → id <ℤ i
parent-lt id i none h k = absurd (ground (arith, h))
parent-lt id i (some p) h k = subst (λ (q : ℤ). q <ℤ i) ((int_eq_iff p id).0 h) k

child_ordered :
    (n : ℕ) (id j : ℤ) (rows : List TaskRow)
    → IsOrdered n rows
    → any_row (is_child id j) rows ≡ true
    → (id <ℤ j) × (j <ℤ pos n)
unfolding any_row
child_ordered n id j [] h k = absurd (ground (arith, k))
child_ordered n id j (r ∷ rows) h k = elim (Bool-cases (is_child id j r)) [
  | inl c ↦
      (let same : r.id ≡ j = (int_eq_iff r.id j).0 (ground (arith, c)) in
        (
          subst (λ (i : ℤ). id <ℤ i) same
              (parent-lt id r.id r.parent_task_id (ground (arith, c)) h.1),
          subst (λ (i : ℤ). i <ℤ pos n) same h.0,
        ))
  | inr c ↦ child_ordered n id j rows h.2 (ground (arith, c, k))
]

module _ (rows : List TaskRow) (n : ℕ) (ordered : IsOrdered n rows) where
  -- With fuel for the ids that are left, the query's result is closed under children.
  descendants_from-closed :
      (fuel k : ℕ) (working : List ℤ)
      → n ≤ fuel + k
      → ((i : ℤ) → contains working i ≡ true → (pos k ≤ℤ i) × (i <ℤ pos n))
      → (p j : ℤ) → contains (descendants_from fuel working rows) p ≡ true
      → any_row (is_child p j) rows ≡ true
      → contains (descendants_from fuel working rows) j ≡ true
  unfolding descendants_from
  descendants_from-closed zero k working enough bounds p j h e =
      (let (low, high) = bounds p h in absurd (omega arith))
  descendants_from-closed (suc fuel) k working enough bounds p j h e =
      let next = children_of_all working rows in
      elim (Bool-cases (contains working p)) [
        | inl c ↦ ground (
          arith,
          contains-append working (descendants_from fuel next rows) j,
          descendants_from-working rows fuel next j (children_of_all-child rows working p j c e),
        )
        | inr c ↦ ground (
          arith,
          contains-append working (descendants_from fuel next rows) j,
          descendants_from-closed fuel (suc k) next (omega arith)
              (λ i here.
                (let (q, q_in, e) = children_of_all-parent rows working i here in
                  let (low, high) = bounds q q_in in
                  let (above, below) = child_ordered n q i rows ordered e in (omega arith, below)))
              p j
              (ground (arith, c, h, contains-append working (descendants_from fuel next rows) p)) e,
        )
      ]

  descendants-Below :
      (root : ℤ)
      → (pos 0 ≤ℤ root)
      → (j : ℤ) → Below rows root j
      → (j ≡ root) ⊎ (contains (descendants n root rows) j ≡ true)
  unfolding descendants
  descendants-Below root low j (Below.self e) = inl e
  descendants-Below root low j (Below.child {id = p} e b) = elim (descendants-Below root low p b) [
    | inl same ↦ inr (
        descendants_from-working rows n (children root rows) j
          (children-any_row root j rows ∙ subst (λ i. any_row (is_child i j) rows ≡ true) same e))
    | inr found ↦ inr (
        descendants_from-closed n 0 (children root rows) (omega arith)
          (λ i here.
            (let (above, below) =
                child_ordered n root i rows ordered (sym (children-any_row root i rows) ∙ here) in
              (omega arith, below)))
          p j found e)
  ]

-- The ids that the control plane collects for a task: each once, and exactly the task and all its
-- descendants, when ids are given out in order, no task is made before its parent, the task's id is not
-- negative, and no statement fails.
pub collect-Below :
    (root : ℤ) (w : World)
    → IsOrdered w.db.next_task w.db.tasks
    → pos 0 ≤ℤ root
    → (ids : List ℤ) × (collect_task_and_descendant_ids root (calm w) ≡ (calm w, ok ids))
      × IsDistinct ids
      × ((j : ℤ) → (contains ids j ≡ true) ↔ Below w.db.tasks root j)
unfolding collect_task_and_descendant_ids list_task_descendant_ids statement descendants contains
collect-Below root w ordered low =
    let found = descendants w.db.next_task root w.db.tasks in
    (
      unique_from (root ∷ []) found,
      refl,
      IsDistinct-unique_from (root ∷ []) found (refl, tt),
      λ j. (
        (λ h. elim (Bool-cases (int_eq root j)) [
          | inl c ↦ Below.self (sym ((int_eq_iff root j).0 c))
          | inr c ↦
              descendants_from-Below w.db.tasks root w.db.next_task (children root w.db.tasks)
                (λ i k.
                  Below.child (sym (children-any_row root i w.db.tasks) ∙ k) (Below.self refl))
                j (ground (arith, c, h, contains-unique_from (root ∷ []) found j))
        ]),
        (λ b. elim (descendants-Below w.db.tasks w.db.next_task ordered root low j b) [
          | inl same ↦
              ground
                (arith, contains-unique_from (root ∷ []) found j, (int_eq_iff root j).1 (sym same))
          | inr k ↦ ground (arith, contains-unique_from (root ∷ []) found j, k)
        ]),
      ),
    )
