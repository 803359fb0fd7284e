-- ===== src/Db/Trees.antt =====
-- The statements of sql/queries/tasks.sql that select tasks by parent or by tags, or report on them, as
-- pkg/zgen/querier/tasks.sql.gen.go runs them.
use anclax.Prelude.{
  ℕ, zero, suc, Bool, true, false, not, ◌&&◌, ◌||◌, String, List, [], ◌∷◌, ◌++◌, Option, none, some,
  if◌then◌else◌, string_eq, ltb,
}
use anclax.Prelude.Int.{ℤ, int_eq, leb_ℤ, ℤ_eq}
use anclax.Prelude.Unique.{contains}
use anclax.Errors.{Err}
use anclax.Api.{TaskStatus}
use anclax.Db.{TaskRow, EventRow, EventSpec, Reply, ok, fail, M, statement}
use anclax.Db.Tasks.{no_rows, find_row, is_task}

-- parent_task_id = $1, false on NULL.
abbrev pub parent_is : ℤ → Option ℤ → Bool
parent_is id none = false
parent_is id (some p) = int_eq p id

abbrev pub is_child_of : ℤ → TaskRow → Bool
is_child_of id r = parent_is id r.parent_task_id

unfoldable pub children : ℤ → List TaskRow → List ℤ
children id [] = []
children id (r ∷ rows) =
    let rest = children id rows in if is_child_of id r then r.id ∷ rest else rest

unfoldable pub children_of_all : List ℤ → List TaskRow → List ℤ
unfolding children
children_of_all [] rows = []
children_of_all (id ∷ ids) rows = children id rows ++ children_of_all ids rows

-- The recursive query: the rows that the last round added are joined once more, until there are none.
-- The fuel bounds the rounds.
unfoldable pub descendants_from : ℕ → List ℤ → List TaskRow → List ℤ
unfolding children_of_all
descendants_from zero working rows = working
descendants_from (suc fuel) working rows =
    working ++ descendants_from fuel (children_of_all working rows) rows

unfoldable pub descendants : ℕ → ℤ → List TaskRow → List ℤ
unfolding descendants_from
descendants fuel root rows = descendants_from fuel (children root rows) rows

-- A parent has a smaller id than its children, so the next id of the sequence is fuel enough.
unfoldable pub list_task_descendant_ids : ℤ → M (List ℤ)
unfolding statement descendants
list_task_descendant_ids root = statement λ w. (w, ok (descendants w.db.next_task root w.db.tasks))

-- The tags of the second list are all among the first.
unfoldable pub has_all : List String → List String → Bool
has_all tags [] = true
has_all tags (t ∷ ts) = contains tags t && has_all tags ts

unfoldable pub excluded : List String → List (List String) → Bool
unfolding has_all
excluded tags [] = false
excluded tags ([] ∷ sets) = excluded tags sets
excluded tags ((t ∷ ts) ∷ sets) = has_all tags (t ∷ ts) || excluded tags sets

-- The row's condition; a nil slice of tags is stored as the JSON null, of which `jsonb_array_length` has
-- no length: `none`. An empty array has length 0.
unfoldable pub selected :
    List String → List (List String) → Option (Option (List String)) → Option Bool
unfolding has_all excluded
selected required except none = some false
selected required except (some none) = none
selected required except (some (some [])) = some false
selected required except (some (some (t ∷ ts))) =
    some (has_all (t ∷ ts) required && not (excluded (t ∷ ts) except))

-- ORDER BY id.
unfoldable pub insert_by_id : ℤ → List ℤ → List ℤ
insert_by_id id [] = id ∷ []
insert_by_id id (j ∷ ids) = if leb_ℤ id j then id ∷ j ∷ ids else j ∷ insert_by_id id ids

abbrev add_if : ℤ → Option Bool → Option (List ℤ) → Option (List ℤ)
add_if id none ids = none
add_if id (some b) none = none
add_if id (some b) (some ids) = some (if b then insert_by_id id ids else ids)

unfoldable pub select_ids : List String → List (List String) → List TaskRow → Option (List ℤ)
unfolding selected insert_by_id
select_ids required except [] = some []
select_ids required except (r ∷ rows) =
    add_if r.id (selected required except r.attributes.tags) (select_ids required except rows)

abbrev no_length : {A : Type 0} → Option A → Reply A
no_length none = fail (Err.message "cannot get array length of a scalar")
no_length (some a) = ok a

-- With no required tag nothing is selected.
abbrev by_tags : List String → List (List String) → List TaskRow → Reply (List ℤ)
by_tags [] except rows = ok []
by_tags (t ∷ ts) except rows = no_length (select_ids (t ∷ ts) except rows)

unfoldable pub list_task_ids_by_tags : List String → List (List String) → M (List ℤ)
unfolding statement select_ids
list_task_ids_by_tags required except = statement λ w. (w, by_tags required except w.db.tasks)

abbrev is_error_of : ℤ → EventRow → Bool
is_error_of id e = elim e.spec [
  | EventSpec.task_completed j ↦ false
  | EventSpec.task_error j err ↦ int_eq j id
]

-- Of two events of one time, the later insertion.
abbrev later : EventRow → Option EventRow → Option EventRow
later e none = some e
later e (some f) = if ltb f.created_at e.created_at then some e else some f

unfoldable pub last_error : ℤ → List EventRow → Option EventRow
last_error id [] = none
last_error id (e ∷ events) =
    let rest = last_error id events in if is_error_of id e then later e rest else rest

abbrev found_event : Option EventRow → Reply EventRow
found_event none = no_rows
found_event (some e) = ok e

unfoldable pub get_last_task_error_event : ℤ → M EventRow
unfolding statement last_error
get_last_task_error_event id = statement λ w. (w, found_event (last_error id w.db.events))

abbrev status_of : Option TaskRow → Reply TaskStatus
status_of none = no_rows
status_of (some r) = ok r.status

unfoldable pub get_task_wait_status_by_id : ℤ → M TaskStatus
unfolding statement find_row
get_task_wait_status_by_id id = statement λ w. (w, status_of (find_row (is_task id) w.db.tasks))

-- status IN ('completed', 'failed', 'cancelled'), as IsTerminalStatus of pkg/taskcore/listener has it.
unfoldable pub is_terminal_status : TaskStatus → Bool
is_terminal_status TaskStatus.completed = true
is_terminal_status TaskStatus.failed = true
is_terminal_status TaskStatus.cancelled = true
is_terminal_status _ = false

unfoldable pub terminal_statuses : List ℤ → List TaskRow → List (ℤ × TaskStatus)
unfolding is_terminal_status
terminal_statuses ids [] = []
terminal_statuses ids (r ∷ rows) =
    let rest = terminal_statuses ids rows in
    if contains ids r.id && is_terminal_status r.status then (r.id, r.status) ∷ rest else rest

unfoldable pub list_terminal_task_wait_statuses : List ℤ → M (List (ℤ × TaskStatus))
unfolding statement terminal_statuses
list_terminal_task_wait_statuses ids = statement λ w. (w, ok (terminal_statuses ids w.db.tasks))
