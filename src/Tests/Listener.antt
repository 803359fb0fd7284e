-- ===== src/Tests/Listener.antt =====
-- Examples for pkg/taskcore/listener/polling.go.
use anclax.Prelude.{◌<◌, length, ◌≡◌, refl, true, [], ◌∷◌, ◌++◌, arith}
use anclax.Prelude.Int.{pos, int_eq}
use anclax.Errors.{Err, Sentinel}
use anclax.Api.{TaskStatus}
use anclax.Db.{World, ok, statement}
use anclax.Db.Trees.{is_terminal_status, terminal_statuses, list_terminal_task_wait_statuses}
use anclax.Prelude.Unique.{contains, append_unique, unique_from}
use anclax.Tests.Store.{older, world_of}
use anclax.Listener.{
  PollingTaskEventListener, Loop, Finish, new_polling_task_event_listener, wait_task, register,
  notify, without_task, subs_of, finish_all, fail_all, closings, run_finish, finish_at, error_event,
  status_event,
}
use anclax.Listener.Steps.{Step, Reach, at, snapshot_ids}
use anclax.Listener.Accounting.{is_stopped, Reach-stopped}
use anclax.Listener.Watched.{is_finished}
use anclax.Listener.Honesty.{Reach-AllSentFit}
use anclax.Listener.Fits.{AllSentFit}

-- One caller waits for task 7.
abbrev waiting : PollingTaskEventListener
waiting = (wait_task (pos 7) (ok TaskStatus.pending) new_polling_task_event_listener).0

abbrev closing : PollingTaskEventListener
closing = record waiting { cancelled = true }

abbrev stopped : PollingTaskEventListener
stopped = at Loop.stopped (fail_all (Err.sentinel Sentinel.listener_closed) closing)

abbrev told : Finish
told = record {
  sub = 0;
  event = error_event (pos 7) (Err.sentinel Sentinel.listener_closed);
  send = true;
}

abbrev ended : PollingTaskEventListener
ended = record stopped { subscriptions = run_finish told stopped.subscriptions; pending = [] ++ [] }

waiting-Reach : Reach waiting
waiting-Reach =
    Reach.next Reach.start
      (Step.wait new_polling_task_event_listener (pos 7) (ok TaskStatus.pending))

ended-Reach : Reach ended
unfolding wait_task register is_terminal_status fail_all closings
ended-Reach =
    Reach.next
      (Reach.next (Reach.next waiting-Reach (Step.close waiting)) (Step.stop closing refl refl))
      (Step.finish stopped [] [] told refl)

loop_stopped : is_stopped ended.loop ≡ true
loop_stopped = refl

one_waiter : 0 < length ended.subscriptions
unfolding wait_task register is_terminal_status fail_all finish_at
one_waiter = omega arith

none_pending : ended.pending ≡ []
none_pending = refl

Reach-stopped_example : is_finished ended.subscriptions 0 ≡ true
Reach-stopped_example = Reach-stopped ended 0 ended-Reach loop_stopped none_pending one_waiter

-- The task completes while the caller waits.
abbrev polled : PollingTaskEventListener
polled = at (Loop.querying waiting.watchers) waiting

-- The database of the poll: task 7 is completed, and task 8 waits.
abbrev answering : World
answering = world_of (record older { id = pos 7; status = TaskStatus.completed } ∷ older ∷ [])

abbrev notifying : PollingTaskEventListener
notifying = at (Loop.notifying ((pos 7, TaskStatus.completed) ∷ [])) polled

abbrev notified : PollingTaskEventListener
notified = at (Loop.notifying []) (notify (pos 7) TaskStatus.completed notifying)

abbrev answer : Finish
answer = record { sub = 0; event = status_event (pos 7) TaskStatus.completed; send = true }

abbrev answered : PollingTaskEventListener
answered = record notified {
  subscriptions = run_finish answer notified.subscriptions;
  pending = [] ++ [];
}

answered-Reach : Reach answered
unfolding wait_task register is_terminal_status notify without_task subs_of finish_all int_eq
    snapshot_ids unique_from append_unique contains list_terminal_task_wait_statuses
    terminal_statuses statement
answered-Reach =
    Reach.next
      (Reach.next
        (Reach.next (Reach.next waiting-Reach (Step.tick waiting refl)) (
          Step.query polled waiting.watchers ((pos 7, TaskStatus.completed) ∷ []) answering
            answering refl refl))
        (Step.notify_row notifying (pos 7) TaskStatus.completed [] refl))
      (Step.finish notified [] [] answer refl)

Reach-AllSentFit_example : AllSentFit answered.subscriptions
Reach-AllSentFit_example = Reach-AllSentFit answered answered-Reach
