-- ===== src/Db/Tasks.antt =====
-- The statements of sql/queries/tasks.sql, as pkg/zgen/querier/tasks.sql.gen.go runs them, but for
-- those that claim. `id` is the primary key, and so a statement that finds by id meets one row.
use anclax.Prelude.{
  ℕ, ◌+◌, Bool, true, false, ◌&&◌, ◌||◌, String, List, [], ◌∷◌, ◌++◌, Option, none, some,
  if◌then◌else◌, ◌==◌, string_eq, nat_eq, str_eq,
}
use anclax.Prelude.Int.{ℤ, int_eq}
use anclax.Errors.{Err, Sentinel}
use anclax.Api.{TaskStatus}
use anclax.Db.{TaskRow, EventSpec, World, Reply, ok, fail, M, statement}

abbrev pub no_rows : {A : Type 0} → Reply A
no_rows = fail (Err.sentinel Sentinel.no_rows)

-- worker_id = $n, false on NULL.
abbrev pub owned_by : ℕ → Option ℕ → Bool
owned_by me none = false
owned_by me (some w) = w == me

abbrev pub has_tag : String → Option String → Bool
has_tag tag none = false
has_tag tag (some t) = str_eq t tag

unfoldable pub any_row : (TaskRow → Bool) → List TaskRow → Bool
any_row p [] = false
any_row p (r ∷ rows) = p r || any_row p rows

unfoldable pub find_row : (TaskRow → Bool) → List TaskRow → Option TaskRow
find_row p [] = none
find_row p (r ∷ rows) = let rest = find_row p rows in if p r then some r else rest

unfoldable pub update_rows : (TaskRow → Bool) → (TaskRow → TaskRow) → List TaskRow → List TaskRow
update_rows p f [] = []
update_rows p f (r ∷ rows) = (if p r then f r else r) ∷ update_rows p f rows

-- UPDATE … RETURNING id, with one row expected.
unfoldable pub update_one :
    (TaskRow → Bool) → (TaskRow → TaskRow) → World → World × Reply (Unit {0})
unfolding any_row update_rows
update_one p f w = (
  record w { db = record w.db { tasks = update_rows p f w.db.tasks } },
  if any_row p w.db.tasks then ok tt else no_rows,
)

-- UPDATE without RETURNING.
unfoldable pub update_all :
    (TaskRow → Bool) → (TaskRow → TaskRow) → World → World × Reply (Unit {0})
unfolding update_rows
update_all p f w = (record w { db = record w.db { tasks = update_rows p f w.db.tasks } }, ok tt)

abbrev pub is_task : ℤ → TaskRow → Bool
is_task id r = int_eq r.id id

abbrev pub is_mine : ℤ → ℕ → TaskRow → Bool
is_mine id me r = int_eq r.id id && owned_by me r.worker_id

abbrev pub with_status_released : TaskStatus → ℕ → TaskRow → TaskRow
with_status_released status now r = record r {
  status = status;
  locked_at = none;
  worker_id = none;
  updated_at = now;
}

abbrev pub starting_at : Option ℕ → ℕ → TaskRow → TaskRow
starting_at started_at now r = record r { started_at = started_at; updated_at = now }

abbrev pub released : ℕ → TaskRow → TaskRow
released now r = record r { locked_at = none; worker_id = none; updated_at = now }

unfoldable pub update_task_status_by_worker : ℤ → TaskStatus → ℕ → M (Unit {0})
unfolding statement update_one
update_task_status_by_worker id status me =
    statement λ w. update_one (is_mine id me) (with_status_released status w.now) w

unfoldable pub update_task_started_at_by_worker : ℤ → ℕ → ℕ → M (Unit {0})
unfolding statement update_one
update_task_started_at_by_worker id started_at me =
    statement λ w. update_one (is_mine id me) (starting_at (some started_at) w.now) w

unfoldable pub release_task_lock_by_worker : ℤ → ℕ → M (Unit {0})
unfolding statement update_one
release_task_lock_by_worker id me = statement λ w. update_one (is_mine id me) (released w.now) w

-- status IN ('pending', 'running').
abbrev pub is_refreshable : TaskStatus → Bool
is_refreshable TaskStatus.pending = true
is_refreshable (TaskStatus.other s) = str_eq s "running"
is_refreshable _ = false

unfoldable pub refresh_task_lock : ℤ → ℕ → M (Unit {0})
unfolding statement update_one
refresh_task_lock id me = statement λ w.
    update_one (λ r. is_mine id me r && is_refreshable r.status)
      (λ r. record r { locked_at = some w.now; updated_at = w.now }) w

unfoldable pub insert_event : EventSpec → M (Unit {0})
unfolding statement
insert_event spec = statement λ w. (
  record w {
    db = record w.db {
      events = w.db.events ++ record { id = w.db.next_event; spec = spec; created_at = w.now } ∷ [];
      next_event = w.db.next_event + 1;
    };
  },
  ok tt,
)

unfoldable pub update_task_status : ℤ → TaskStatus → M (Unit {0})
unfolding statement update_all
update_task_status id status =
    statement λ w. update_all (is_task id) (λ r. record r { status = status; updated_at = w.now }) w

abbrev pub found : Option TaskRow → Reply TaskRow
found none = no_rows
found (some r) = ok r

unfoldable pub get_task_by_id : ℤ → M TaskRow
unfolding statement find_row
get_task_by_id id = statement λ w. (w, found (find_row (is_task id) w.db.tasks))

unfoldable pub get_task_by_unique_tag : String → M TaskRow
unfolding statement find_row
get_task_by_unique_tag tag =
    statement λ w. (w, found (find_row (λ r. has_tag tag r.unique_tag) w.db.tasks))
