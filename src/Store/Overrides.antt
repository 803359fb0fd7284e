-- ===== src/Store/Overrides.antt =====
-- The task overrides of pkg/taskcore/store/overrides.go. A nil slice of labels is an empty list.
use anclax.Prelude.{ℕ, ◌+◌, String, List, [], ◌∷◌, Option, none, some, if◌then◌else◌}
use anclax.Prelude.Int.{ℤ, pos, ltb_ℤ}
use anclax.Errors.{Err}
use anclax.Api.{TaskAttributes, ApiTask}
use anclax.Db.{Reply, ok, fail}

abbrev pub TaskOverride : Type 0
TaskOverride = ApiTask → Reply ApiTask

abbrev pub set_attributes : (TaskAttributes → TaskAttributes) → TaskOverride
set_attributes f task = ok (record task { attributes = f task.attributes })

unfoldable pub with_retry_policy : String → ℤ → TaskOverride
with_retry_policy interval max_attempts = set_attributes λ a. record a {
  retry_policy = some (record { interval = interval; max_attempts = max_attempts });
}

unfoldable pub with_cronjob : String → TaskOverride
with_cronjob expression =
    set_attributes λ a. record a { cronjob = some (record { cron_expression = expression }) }

-- `none` is the panic on a task that has no start time: the code takes the time behind the nil pointer.
unfoldable pub with_delay : ℕ → ApiTask → Option ApiTask
with_delay delay task = elim task.started_at [
  | none ↦ none
  | some t ↦ some (record task { started_at = some (t + delay) })
]

unfoldable pub with_started_at : ℕ → TaskOverride
with_started_at started_at task = ok (record task { started_at = some started_at })

unfoldable pub with_unique_tag : String → TaskOverride
with_unique_tag tag task = ok (record task { unique_tag = some tag })

unfoldable pub with_parent_task_id : ℤ → TaskOverride
with_parent_task_id id task = ok (record task { parent_task_id = some id })

unfoldable pub with_labels : List String → TaskOverride
with_labels labels = set_attributes λ a. record a { labels = some labels }

-- append([]string(nil), tags...): of no tags, a nil slice.
abbrev pub copy_of : List String → Option (List String)
copy_of [] = none
copy_of (tag ∷ tags) = some (tag ∷ tags)

unfoldable pub with_tags : List String → TaskOverride
with_tags tags = set_attributes λ a. record a { tags = some (copy_of tags) }

unfoldable pub with_serial_key : String → TaskOverride
with_serial_key key = set_attributes λ a. record a { serial_key = some key }

unfoldable pub with_serial_id : ℤ → TaskOverride
with_serial_id id = set_attributes λ a. record a { serial_id = some id }

unfoldable pub with_priority : ℤ → TaskOverride
with_priority priority task =
    if ltb_ℤ priority (pos 0)
    then fail (Err.message "priority must be non-negative")
    else set_attributes (λ a. record a { priority = some priority }) task

unfoldable pub with_weight : ℤ → TaskOverride
with_weight weight task =
    if ltb_ℤ weight (pos 1)
    then fail (Err.message "weight must be greater than or equal to 1")
    else set_attributes (λ a. record a { weight = some weight }) task
