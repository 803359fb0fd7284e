-- ===== src/Db/Claims.antt =====
-- The claiming statements ClaimStrictTask, ClaimNormalTaskByGroup and ClaimTaskByID of
-- sql/queries/tasks.sql, as pkg/zgen/querier/tasks.sql.gen.go runs them. The labels of a row are no JSON null.
pub mod Choice
pub mod Exclusion
use anclax.Prelude.{
  ℕ, suc, ◌+◌, Bool, true, false, ◌&&◌, ◌||◌, not, String, List, [], ◌∷◌, Option, none, some, ltb,
  leb, if◌then◌else◌, ◌==◌, string_eq, nat_eq, str_eq,
}
use anclax.Prelude.Unique.{contains}
use anclax.Prelude.Int.{ℤ, pos, ltb_ℤ, int_eq, suc_ℤ}
use anclax.Errors.{Err, Sentinel}
use anclax.Api.{TaskStatus}
use anclax.Db.{TaskRow, Db, World, Reply, ok, fail, M, statement}
use anclax.Db.Tasks.{no_rows, is_task, any_row, update_rows}

pub record Claimer : Type 0 where
  pub worker_id : ℕ
  pub lock_expiry : ℕ
  pub labels : List String

abbrev pub is_pending : TaskStatus → Bool
is_pending TaskStatus.pending = true
is_pending _ = false

-- `t IS NULL OR t < limit`.
abbrev pub null_or_before : Option ℕ → ℕ → Bool
null_or_before none limit = true
null_or_before (some t) limit = ltb t limit

abbrev pub all_in : List String → List String → Bool
all_in labels [] = true
all_in labels (x ∷ xs) = contains labels x && all_in labels xs

-- The labels condition. Its `has_labels = true OR has_labels = false` always holds.
abbrev pub labels_match : List String → Option (List String) → Bool
labels_match labels none = true
labels_match labels (some []) = true
labels_match [] (some (x ∷ xs)) = false
labels_match (l ∷ ls) (some (x ∷ xs)) = all_in (l ∷ ls) (x ∷ xs)

unfoldable pub is_eligible : Claimer → ℕ → TaskRow → Bool
is_eligible c now r =
    is_pending r.status
    && null_or_before r.started_at now
    && null_or_before r.locked_at c.lock_expiry
    && labels_match c.labels r.attributes.labels

abbrev pub same_key : String → Option String → Bool
same_key key none = false
same_key key (some k) = str_eq k key

-- `locked_at IS NOT NULL AND locked_at >= lock_expiry`.
abbrev pub is_locked : ℕ → Option ℕ → Bool
is_locked expiry none = false
is_locked expiry (some t) = leb expiry t

-- A row comparison: the first components that differ decide.
abbrev pub lex : Bool → Bool → Bool → Bool
lex less same rest = less || same && rest

abbrev pub serial_rank : Option ℤ → ℤ
serial_rank none = pos 2147483647
serial_rank (some n) = n

abbrev pub is_none : Option ℤ → Bool
is_none none = true
is_none (some n) = false

-- COALESCE(started_at, '-infinity').
abbrev pub started_rank : Option ℕ → ℕ
started_rank none = 0
started_rank (some t) = suc t

unfoldable pub serial_before : TaskRow → TaskRow → Bool
serial_before s e =
    lex (not (is_none s.serial_id) && is_none e.serial_id)
      (not (is_none s.serial_id) && not (is_none e.serial_id)
        || is_none s.serial_id && is_none e.serial_id)
      (lex (ltb_ℤ (serial_rank s.serial_id) (serial_rank e.serial_id))
        (int_eq (serial_rank s.serial_id) (serial_rank e.serial_id))
        (lex (ltb s.created_at e.created_at) (s.created_at == e.created_at) (
          lex (ltb (started_rank s.started_at) (started_rank e.started_at))
            (started_rank s.started_at == started_rank e.started_at) (ltb_ℤ s.id e.id))))

-- Does the row `s` hold up those of the serial key?
unfoldable pub holds_lock : ℕ → String → TaskRow → Bool
holds_lock expiry key s = same_key key s.serial_key && is_locked expiry s.locked_at

unfoldable pub goes_first : String → TaskRow → TaskRow → Bool
unfolding serial_before
goes_first key e s = same_key key s.serial_key && is_pending s.status && serial_before s e

abbrev pub serial_ready : ℕ → List TaskRow → TaskRow → Option String → Bool
serial_ready expiry rows e none = true
serial_ready expiry rows e (some key) =
    not (any_row (holds_lock expiry key) rows) && not (any_row (goes_first key e) rows)

-- The rows of the `candidate` query, before ORDER BY and LIMIT.
unfoldable pub is_candidate : (TaskRow → Bool) → Claimer → World → TaskRow → Bool
unfolding is_eligible any_row holds_lock goes_first
is_candidate extra c w r =
    extra r && is_eligible c w.now r && serial_ready c.lock_expiry w.db.tasks r r.serial_key

abbrev pub pick : (TaskRow → TaskRow → Bool) → TaskRow → Option TaskRow → Option TaskRow
pick before r none = some r
pick before r (some s) = if before s r then some s else some r

-- ORDER BY … LIMIT 1 over the rows of which `p` holds.
unfoldable pub first_row :
    (TaskRow → Bool) → (TaskRow → TaskRow → Bool) → List TaskRow → Option TaskRow
first_row p before [] = none
first_row p before (r ∷ rows) =
    let rest = first_row p before rows in if p r then pick before r rest else rest

abbrev pub by_age : TaskRow → TaskRow → Bool
by_age a b = lex (ltb a.created_at b.created_at) (a.created_at == b.created_at) (ltb_ℤ a.id b.id)

unfoldable pub by_priority : TaskRow → TaskRow → Bool
by_priority a b = lex (ltb_ℤ b.priority a.priority) (int_eq a.priority b.priority) (by_age a b)

unfoldable pub by_weight : TaskRow → TaskRow → Bool
by_weight a b = lex (ltb_ℤ b.weight a.weight) (int_eq a.weight b.weight) (by_age a b)

abbrev pub max_int32 : ℤ
max_int32 = pos 2147483647

abbrev pub claimed : ℕ → ℕ → TaskRow → TaskRow
claimed me now r = record r {
  locked_at = some now;
  worker_id = some me;
  attempts = suc_ℤ r.attempts;
  updated_at = now;
}

-- The UPDATE of the chosen row; an `attempts` beyond int4 fails.
unfoldable pub take_row : Claimer → Option TaskRow → World → World × Reply TaskRow
unfolding update_rows
take_row c none w = (w, no_rows)
take_row c (some r) w =
    if ltb_ℤ r.attempts max_int32
    then (
      record w {
        db = record w.db {
          tasks = update_rows (is_task r.id) (claimed c.worker_id w.now) w.db.tasks;
        };
      },
      ok (claimed c.worker_id w.now r),
    )
    else (w, fail (Err.message "integer out of range"))

unfoldable pub claim_one :
    (TaskRow → Bool) → (TaskRow → TaskRow → Bool) → Claimer → World → World × Reply TaskRow
unfolding first_row is_candidate take_row
claim_one extra before c w = take_row c (first_row (is_candidate extra c w) before w.db.tasks) w

unfoldable pub claim_strict_task : Claimer → M TaskRow
unfolding claim_one by_priority statement
claim_strict_task c = statement (claim_one (λ r. ltb_ℤ (pos 0) r.priority) by_priority c)

abbrev pub overlaps : List String → List String → Bool
overlaps labels [] = false
overlaps labels (x ∷ xs) = contains labels x || overlaps labels xs

-- The default group takes what has none of the weighted labels.
abbrev pub in_default : List String → Option (List String) → Bool
in_default weighted none = true
in_default weighted (some labels) = not (overlaps weighted labels)

abbrev pub has_label : String → Option (List String) → Bool
has_label group none = false
has_label group (some labels) = contains labels group

abbrev pub in_group : String → List String → Option (List String) → Bool
in_group group weighted labels =
    if str_eq group "__default__" then in_default weighted labels else has_label group labels

unfoldable pub claim_normal_task_by_group : Claimer → String → List String → M TaskRow
unfolding claim_one by_weight statement
claim_normal_task_by_group c group weighted = statement (
    claim_one (λ r. int_eq r.priority (pos 0) && in_group group weighted r.attributes.labels)
      by_weight c)

unfoldable pub claim_task_by_id : ℤ → Claimer → M TaskRow
unfolding claim_one statement
claim_task_by_id id c = statement (claim_one (is_task id) (λ a b. false) c)
