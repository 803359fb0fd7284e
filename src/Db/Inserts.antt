-- ===== src/Db/Inserts.antt =====
-- The statements CreateTask, UpdateTask and the bulk updates by labels of sql/queries/tasks.sql, as
-- pkg/zgen/querier/tasks.sql.gen.go runs them.
use anclax.Prelude.{
  ℕ, ◌+◌, Bool, true, false, ◌&&◌, not, String, List, [], ◌∷◌, ◌++◌, Option, none, some,
  if◌then◌else◌, string_eq,
}
use anclax.Prelude.Int.{ℤ, pos, ltb_ℤ}
use anclax.Errors.{Err}
use anclax.Api.{TaskAttributes, TaskSpec, TaskStatus}
use anclax.Db.{TaskRow, World, Reply, ok, fail, M, statement}
use anclax.Db.Tasks.{no_rows, has_tag, any_row, update_rows, update_all, is_task}
use anclax.Db.Claims.{is_pending, overlaps}

pub record CreateTaskParams : Type 0 where
  pub attributes : TaskAttributes
  pub spec : TaskSpec
  pub status : TaskStatus
  pub started_at : Option ℕ
  pub unique_tag : Option String
  pub parent_task_id : Option ℤ
  pub serial_key : Option String
  pub serial_id : Option ℤ
  pub priority : ℤ
  pub weight : ℤ

abbrev pub tag_taken : Option String → List TaskRow → Bool
tag_taken none rows = false
tag_taken (some tag) rows = any_row (λ r. has_tag tag r.unique_tag) rows

abbrev pub new_row : CreateTaskParams → ℕ → ℕ → TaskRow
new_row p id now = record {
  id = pos id;
  attributes = p.attributes;
  spec = p.spec;
  status = p.status;
  unique_tag = p.unique_tag;
  started_at = p.started_at;
  created_at = now;
  updated_at = now;
  attempts = pos 0;
  locked_at = none;
  worker_id = none;
  serial_key = p.serial_key;
  serial_id = p.serial_id;
  priority = p.priority;
  weight = p.weight;
  parent_task_id = p.parent_task_id;
}

-- The checks on the columns, which the code's own validation comes before.
abbrev pub check_row : CreateTaskParams → Bool
check_row p = not (ltb_ℤ p.priority (pos 0)) && not (ltb_ℤ p.weight (pos 1))

-- A conflict inserts nothing and returns no row; it takes an id of the sequence as an insert does.
-- The insertion itself: a refused one has drawn an id of the sequence, too.
abbrev pub insert_row : CreateTaskParams → World → World × Reply TaskRow
insert_row p w =
    let w' : World = record w { db = record w.db { next_task = w.db.next_task + 1 } } in
    if not (check_row p)
    then (w', fail (Err.message "check constraint"))
    else if tag_taken p.unique_tag w.db.tasks
    then (w', no_rows)
    else (
      record w' { db = record w'.db { tasks = w.db.tasks ++ new_row p w.db.next_task w.now ∷ [] } },
      ok (new_row p w.db.next_task w.now),
    )

unfoldable pub create_task : CreateTaskParams → M TaskRow
unfolding statement any_row
create_task p = statement (insert_row p)

pub record UpdateTaskParams : Type 0 where
  pub id : ℤ
  pub attributes : TaskAttributes
  pub spec : TaskSpec
  pub started_at : Option ℕ
  pub serial_key : Option String
  pub serial_id : Option ℤ
  pub priority : ℤ
  pub weight : ℤ

unfoldable pub update_task : UpdateTaskParams → M (Unit {0})
unfolding statement update_all
update_task p = statement λ w.
    update_all (is_task p.id)
      (λ r. record r {
        attributes = p.attributes;
        spec = p.spec;
        started_at = p.started_at;
        serial_key = p.serial_key;
        serial_id = p.serial_id;
        priority = p.priority;
        weight = p.weight;
        updated_at = w.now;
      })
      w

abbrev pub is_unlabelled : Option (List String) → Bool
is_unlabelled none = true
is_unlabelled (some []) = true
is_unlabelled (some (x ∷ xs)) = false

abbrev pub shares_label : List String → Option (List String) → Bool
shares_label labels none = false
shares_label labels (some xs) = overlaps labels xs

abbrev pub is_target : Bool → List String → TaskRow → Bool
is_target has_labels labels r =
    is_pending r.status
    && (if has_labels
        then shares_label labels r.attributes.labels
        else is_unlabelled r.attributes.labels)

abbrev pub at_least : ℤ → ℤ → ℤ
at_least low n = if ltb_ℤ n low then low else n

unfoldable pub count_rows : (TaskRow → Bool) → List TaskRow → ℕ
count_rows p [] = 0
count_rows p (r ∷ rows) = (if p r then 1 else 0) + count_rows p rows

unfoldable pub update_pending_task_priority_by_labels : ℤ → Bool → List String → M ℕ
unfolding statement update_rows count_rows
update_pending_task_priority_by_labels priority has_labels labels = statement λ w. (
  record w {
    db = record w.db {
      tasks =
          update_rows (is_target has_labels labels)
            (λ r. record r {
              priority = at_least (pos 0) priority;
              attributes = record r.attributes { priority = some (at_least (pos 0) priority) };
              updated_at = w.now;
            })
            w.db.tasks;
    };
  },
  ok (count_rows (is_target has_labels labels) w.db.tasks),
)

unfoldable pub update_pending_task_weight_by_labels : ℤ → Bool → List String → M ℕ
unfolding statement update_rows count_rows
update_pending_task_weight_by_labels weight has_labels labels = statement λ w. (
  record w {
    db = record w.db {
      tasks =
          update_rows (is_target has_labels labels)
            (λ r. record r {
              weight = at_least (pos 1) weight;
              attributes = record r.attributes { weight = some (at_least (pos 1) weight) };
              updated_at = w.now;
            })
            w.db.tasks;
    };
  },
  ok (count_rows (is_target has_labels labels) w.db.tasks),
)
