-- ===== src/Ctrl/Tags.antt =====
-- The tag selectors of pkg/taskcore/ctrl/ctrl.go, the query behind them, and the override WithTags of
-- pkg/taskcore/store/overrides.go.
use anclax.Prelude.{
  ℕ, ◌≡◌, ◌↔◌, refl, ◌⊎◌, true, false, ◌||◌, String, List, [], ◌∷◌, ◌++◌, Option, none, some, inl,
  inr, arith, Bool-cases, Option-cases, if◌then◌else◌, string_eq, str_eq,
}
use anclax.Prelude.Int.{ℤ, int_eq, int_eq_iff, ℤ_eq, leb_ℤ}
use anclax.Prelude.Unique.{
  contains, append_unique, unique_from, IsDistinct, IsDistinct-unique_from, contains-unique_from,
}
use anclax.Errors.{Err}
use anclax.Api.{ApiTask}
use anclax.Db.{TaskRow, World, ok, fail, statement}
use anclax.Db.Effects.{calm, succeeded}
use anclax.Db.Trees.{selected, insert_by_id, select_ids, list_task_ids_by_tags}
use anclax.Db.Inserts.{new_row}
use anclax.Store.{params_of}
use anclax.Store.Overrides.{with_tags}
use anclax.Ctrl.{unique_tags, normalize_tag_set}
use anclax.Ctrl.Matches.{IsMatch, SomeRow, NoNullTags, selected-Hits}

unique_tags-outcome :
    (empty : Err) (out tags : List String)
    → unique_tags empty out tags
      ≡ (if contains tags "" then fail empty else ok (unique_from out tags))
unfolding unique_tags contains unique_from
unique_tags-outcome empty out [] = refl
unique_tags-outcome empty out (tag ∷ tags) = elim (Bool-cases (str_eq tag "")) [
  | inl e ↦ rw e refl
  | inr e ↦ rw e (unique_tags-outcome empty (append_unique out tag) tags)
]

-- A set of tags is normalised exactly when it has a tag and none of its tags is the empty text; the
-- result has each of its tags once, and no other.
normalize_tag_set-outcome :
    (missing empty : Err) (tags : List String)
    → (((tags ≡ []) ⊎ (contains tags "" ≡ true))
        × (succeeded (normalize_tag_set missing empty tags) ≡ false))
      ⊎ ((out : List String) × (normalize_tag_set missing empty tags ≡ ok out)
          × IsDistinct out
          × ((tag : String) → contains out tag ≡ contains tags tag))
unfolding normalize_tag_set contains
normalize_tag_set-outcome missing empty [] = inl (inl refl, refl)
normalize_tag_set-outcome missing empty (t ∷ ts) = elim (Bool-cases (contains (t ∷ ts) "")) [
  | inl e ↦ inl (inr e, rw (unique_tags-outcome empty [] (t ∷ ts)) (rw e refl))
  | inr e ↦ inr (
    unique_from [] (t ∷ ts),
    rw (unique_tags-outcome empty [] (t ∷ ts)) (rw e refl),
    IsDistinct-unique_from [] (t ∷ ts) tt,
    λ tag. contains-unique_from [] (t ∷ ts) tag,
  )
]

contains-insert_by_id :
    (i j : ℤ) (ids : List ℤ) → contains (insert_by_id i ids) j ≡ (int_eq i j || contains ids j)
unfolding contains insert_by_id
contains-insert_by_id i j [] = refl
contains-insert_by_id i j (k ∷ ids) = elim (Bool-cases (leb_ℤ i k)) [
  | inl e ↦ rw e refl
  | inr e ↦ rw e (ground (arith, contains-insert_by_id i j ids))
]

select_ids-matches :
    (tag : String) (required : List String) (except : List (List String)) (rows : List TaskRow)
    → NoNullTags rows
    → (ids : List ℤ) × (select_ids (tag ∷ required) except rows ≡ some ids)
      × ((j : ℤ) → (contains ids j ≡ true) ↔ SomeRow (IsMatch (tag ∷ required) except j) rows)
unfolding select_ids contains
select_ids-matches tag required except [] h =
    ([], refl, λ j. (λ e. absurd (ground (arith, e)), λ e. absurd e))
select_ids-matches tag required except (r ∷ rows) h =
    let (ids, e, members) = select_ids-matches tag required except rows h.1 in
    let (b, hit, means) = selected-Hits tag required except r.attributes.tags h.0 in
    elim (Bool-cases b) [
      | inl m ↦ (
        insert_by_id r.id ids,
        rw (hit, e) (rw m refl),
        λ j. (
          λ k. elim (Bool-cases (int_eq r.id j)) [
            | inl same ↦
                (let (tags, stored, fits) = means.0 m in
                  inl ((int_eq_iff r.id j).0 same, tags, stored, fits))
            | inr other ↦
                inr ((members j).0 (ground (arith, k, other, contains-insert_by_id r.id j ids)))
          ],
          λ k. elim k [
            | inl here ↦
                ground (arith, contains-insert_by_id r.id j ids, (int_eq_iff r.id j).1 here.0)
            | inr there ↦ ground (arith, contains-insert_by_id r.id j ids, (members j).1 there)
          ],
        ),
      )
      | inr m ↦ (
        ids,
        rw (hit, e) (rw m refl),
        λ j. (
          λ k. inr ((members j).0 k),
          λ k. elim k [
            | inl here ↦ absurd (ground (arith, m, means.1 (here.1, here.2, here.3)))
            | inr there ↦ (members j).1 there
          ],
        ),
      )
    ]

-- The query of a selector, when no statement fails and no row stores a nil slice of tags: it returns the
-- ids of exactly the tasks with a list of tags that has every required tag and, of each excepted set
-- that is not empty, not all the tags.
pub list_task_ids_by_tags-matches :
    (tag : String) (tags : List String) (except : List (List String)) (w : World)
    → NoNullTags w.db.tasks
    → (ids : List ℤ) × (list_task_ids_by_tags (tag ∷ tags) except (calm w) ≡ (calm w, ok ids))
      × ((j : ℤ) → (contains ids j ≡ true) ↔ SomeRow (IsMatch (tag ∷ tags) except j) w.db.tasks)
unfolding list_task_ids_by_tags statement
list_task_ids_by_tags-matches tag tags except w h =
    let (ids, e, members) = select_ids-matches tag tags except w.db.tasks h in
    (ids, rw e refl, members)

select_ids-null :
    (required : List String) (except : List (List String)) (before after : List TaskRow)
    (r : TaskRow)
    → r.attributes.tags ≡ some none
    → select_ids required except (before ++ r ∷ after) ≡ none
unfolding select_ids selected
select_ids-null required except [] after r h = rw h refl
select_ids-null required except (q ∷ before) after r h =
    rw (select_ids-null required except before after r h)
      (elim (Option-cases (selected required except q.attributes.tags)) [
        | inl e ↦ rw e refl
        | inr (b, e) ↦ rw e refl
      ])

-- Once a task stands in the table that was pushed with the override WithTags of no tags, which stores a
-- nil slice, every selection of tasks by tags fails.
pub list_task_ids_by_tags-null :
    (tag : String) (tags : List String) (except : List (List String)) (w : World)
    (task task' : ApiTask) (serial : Option String × Option ℤ) (ranks : ℤ × ℤ) (id now : ℕ)
    (before after : List TaskRow)
    → with_tags [] task ≡ ok task'
    → w.db.tasks ≡ before ++ new_row (params_of task' serial ranks) id now ∷ after
    → succeeded (list_task_ids_by_tags (tag ∷ tags) except (calm w)).1 ≡ false
unfolding list_task_ids_by_tags statement with_tags
list_task_ids_by_tags-null tag tags except w task task' serial ranks id now before after made rows =
    rw rows (
      rw
        (select_ids-null (tag ∷ tags) except before after
          (new_row (params_of task' serial ranks) id now) (ground (arith, made)))
        refl)
