-- ===== src/Listener/Steps.antt =====
-- The steps of the listener, of its callers and of its loop: pkg/taskcore/listener/polling.go.
use anclax.Prelude.{ℕ, ◌≡◌, true, List, [], ◌∷◌, ◌++◌, map}
use anclax.Prelude.Int.{ℤ, ℤ_eq}
use anclax.Prelude.Unique.{unique_from}
use anclax.Errors.{Err, Sentinel}
use anclax.Api.{TaskStatus}
use anclax.Db.{World, Reply, ok, fail}
use anclax.Db.Trees.{list_terminal_task_wait_statuses}
use anclax.Listener.{
  PollingTaskEventListener, Finish, Loop, new_polling_task_event_listener, wait_task, unregister,
  notify, remove_subscription, error_event, fail_all, run_finish,
}

-- The ids of a snapshot: the keys of its map, each once.
unfoldable pub snapshot_ids : List (ℤ × ℕ) → List ℤ
unfolding unique_from
snapshot_ids snapshot = unique_from [] (map (λ (p : ℤ × ℕ). p.0) snapshot)

abbrev pub at : Loop → PollingTaskEventListener → PollingTaskEventListener
at loop l = record l { loop = loop }

pub data Step : PollingTaskEventListener → PollingTaskEventListener → Type 0 where
  -- A caller waits for a task of which it has read the status.
  wait :
      (l : PollingTaskEventListener) (id : ℤ) (status : Reply TaskStatus)
      → Step l (wait_task id status l).0
  -- The context of a caller ends.
  leave : (l : PollingTaskEventListener) (id : ℤ) (sub : ℕ) → Step l (unregister id sub l)
  close : (l : PollingTaskEventListener) → Step l (record l { cancelled = true })
  -- The ticker, when someone watches.
  tick :
      (l : PollingTaskEventListener)
      → l.loop ≡ Loop.selecting
      → Step l (at (Loop.querying l.watchers) l)
  -- The query of the poll, on the database that it meets.
  query :
      (l : PollingTaskEventListener) (snapshot : List (ℤ × ℕ)) (rows : List (ℤ × TaskStatus))
      (w w' : World)
      → l.loop ≡ Loop.querying snapshot
      → list_terminal_task_wait_statuses (snapshot_ids snapshot) w ≡ (w', ok rows)
      → Step l (at (Loop.notifying rows) l)
  query_failed :
      (l : PollingTaskEventListener) (snapshot : List (ℤ × ℕ)) (e : Err) (w w' : World)
      → l.loop ≡ Loop.querying snapshot
      → list_terminal_task_wait_statuses (snapshot_ids snapshot) w ≡ (w', fail e)
      → Step l (at (Loop.failing (Err.wrap "list terminal task wait statuses" e) snapshot) l)
  notify_row :
      (l : PollingTaskEventListener) (id : ℤ) (status : TaskStatus) (rows : List (ℤ × TaskStatus))
      → l.loop ≡ Loop.notifying ((id, status) ∷ rows)
      → Step l (at (Loop.notifying rows) (notify id status l))
  notified :
      (l : PollingTaskEventListener) → l.loop ≡ Loop.notifying [] → Step l (at Loop.selecting l)
  fail_sub :
      (l : PollingTaskEventListener) (e : Err) (id : ℤ) (sub : ℕ) (subs : List (ℤ × ℕ))
      → l.loop ≡ Loop.failing e ((id, sub) ∷ subs)
      → Step l (at (Loop.failing e subs) (remove_subscription id sub (error_event id e) true l))
  failed :
      (l : PollingTaskEventListener) (e : Err)
      → l.loop ≡ Loop.failing e []
      → Step l (at Loop.selecting l)
  -- The loop sees that the listener was closed.
  stop :
      (l : PollingTaskEventListener)
      → l.loop ≡ Loop.selecting
      → l.cancelled ≡ true
      → Step l (at Loop.stopped (fail_all (Err.sentinel Sentinel.listener_closed) l))
  finish :
      (l : PollingTaskEventListener) (before after : List Finish) (f : Finish)
      → l.pending ≡ before ++ f ∷ after
      → Step l
          (record l { subscriptions = run_finish f l.subscriptions; pending = before ++ after })

pub data Reach : PollingTaskEventListener → Type 0 where
  start : Reach new_polling_task_event_listener
  next : {l l' : PollingTaskEventListener} → Reach l → Step l l' → Reach l'
