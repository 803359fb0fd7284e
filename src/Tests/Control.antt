-- ===== src/Tests/Control.antt =====
-- Examples for pkg/taskcore/store/store.go, and for its interplay with the worker.
use anclax.Prelude.{◌≡◌, refl, true, [], ◌∷◌, none, some, str_eq}
use anclax.Prelude.Int.{pos}
use anclax.Errors.{Err, Sentinel}
use anclax.Api.{TaskStatus, ApiTask, no_task}
use anclax.Db.{World, ok, fail}
use anclax.Db.Tasks.{has_tag, any_row}
use anclax.Db.Effects.{calm}
use anclax.Store.{
  insert_pushed, serial_attributes, serial_attributes_from_json, priority_and_weight_attributes,
}
use anclax.Store.Push.{insert_pushed-conflict}
use anclax.Tests.Store.{spec, retrying, waiting, older, world_of}

-- A task to push under the tag "daily".
abbrev daily : ApiTask
daily = record no_task {
  attributes = retrying;
  spec = spec;
  status = TaskStatus.pending;
  unique_tag = some "daily";
}

abbrev tagged_tasks : World
tagged_tasks = world_of (older ∷ record waiting { unique_tag = some "daily" } ∷ [])

tag_is_taken : any_row (λ r. has_tag "daily" r.unique_tag) tagged_tasks.db.tasks ≡ true
unfolding any_row str_eq
tag_is_taken = refl

no_serial : serial_attributes_from_json retrying ≡ ok (none, none)
unfolding serial_attributes_from_json serial_attributes
no_serial = refl

default_ranks : priority_and_weight_attributes retrying ≡ ok (pos 0, pos 1)
unfolding priority_and_weight_attributes
default_ranks = refl

insert_pushed-conflict_example :
    ((insert_pushed daily (calm tagged_tasks)).0.db.tasks ≡ tagged_tasks.db.tasks)
    × ((insert_pushed daily (calm tagged_tasks)).1
        ≡ fail (Err.wrap "failed to push task" (Err.sentinel Sentinel.no_rows)))
insert_pushed-conflict_example =
    insert_pushed-conflict daily "daily" tagged_tasks (none, none) (pos 0, pos 1) refl tag_is_taken
      no_serial default_ranks
