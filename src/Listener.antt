-- ===== src/Listener.antt =====
-- The listener that polls for finished tasks: pkg/taskcore/listener/listener.go and polling.go. Each
-- critical section of its lock is one step, and so is each `finish` of a subscription, which runs after
-- the lock is released: what is still to be finished is a field of the state. A pointer to a subscription
-- is its index.
pub mod Steps
pub mod Polls
pub mod Watched
pub mod Accounting
pub mod Fits
pub mod Honesty
use anclax.Prelude.{
  ℕ, zero, suc, ◌+◌, Bool, true, false, ◌||◌, ◌&&◌, not, List, [], ◌∷◌, ◌++◌, map, Option, none,
  some, if◌then◌else◌, ◌==◌, length,
}
use anclax.Prelude.Int.{ℤ, int_eq}
use anclax.Errors.{Err, Sentinel, errors_is}
use anclax.Api.{TaskStatus}
use anclax.Db.{World, Reply, ok, fail, M, ◌>>=◌, return, throw, catch}
use anclax.Db.Trees.{get_task_wait_status_by_id, is_terminal_status}

pub record TaskTerminalEvent : Type 0 where
  pub task_id : ℤ
  pub status : TaskStatus
  pub err : Option Err

-- `sent` is what the channel holds; `finished` says that the channel and `done` are closed, by `once`.
pub record Subscription : Type 0 where
  pub task_id : ℤ
  pub sent : Option TaskTerminalEvent
  pub finished : Bool

-- A call of `finish` to come.
pub record Finish : Type 0 where
  pub sub : ℕ
  pub event : TaskTerminalEvent
  pub send : Bool

-- Where the loop stands: at its select, before the query of a poll, or in one of the loops behind it.
pub data Loop : Type 0 where
  selecting : Loop
  querying : List (ℤ × ℕ) → Loop
  notifying : List (ℤ × TaskStatus) → Loop
  failing : Err → List (ℤ × ℕ) → Loop
  stopped : Loop

-- `watchers` holds the pairs of the map of sets; `cancelled` is the listener's own context.
pub record PollingTaskEventListener : Type 0 where
  pub watchers : List (ℤ × ℕ)
  pub subscriptions : List Subscription
  pub pending : List Finish
  pub cancelled : Bool
  pub loop : Loop

abbrev pub new_polling_task_event_listener : PollingTaskEventListener
new_polling_task_event_listener = record {
  watchers = [];
  subscriptions = [];
  pending = [];
  cancelled = false;
  loop = Loop.selecting;
}

-- taskStatusByID.
unfoldable pub task_status_by_id : ℤ → M TaskStatus
task_status_by_id id = catch (get_task_wait_status_by_id id) (λ e.
    if errors_is e Sentinel.no_rows
    then throw (Err.sentinel Sentinel.task_not_found)
    else throw (Err.wrap "get task wait status" e))

abbrev pub status_event : ℤ → TaskStatus → TaskTerminalEvent
status_event id status = record { task_id = id; status = status; err = none }

abbrev pub error_event : ℤ → Err → TaskTerminalEvent
error_event id e = record { task_id = id; status = TaskStatus.other ""; err = some e }

abbrev pub no_event : TaskTerminalEvent
no_event = record { task_id = ℤ.pos 0; status = TaskStatus.other ""; err = none }

-- `subs` under the task.
unfoldable pub subs_of : ℤ → List (ℤ × ℕ) → List ℕ
subs_of id [] = []
subs_of id ((t, s) ∷ ws) = let rest = subs_of id ws in if int_eq t id then s ∷ rest else rest

-- delete(l.watchers, taskID).
unfoldable pub without_task : ℤ → List (ℤ × ℕ) → List (ℤ × ℕ)
without_task id [] = []
without_task id ((t, s) ∷ ws) =
    let rest = without_task id ws in if int_eq t id then rest else (t, s) ∷ rest

-- delete(watchers, sub).
unfoldable pub without_sub : ℤ → ℕ → List (ℤ × ℕ) → List (ℤ × ℕ)
without_sub id sub [] = []
without_sub id sub ((t, s) ∷ ws) =
    let rest = without_sub id sub ws in if int_eq t id && s == sub then rest else (t, s) ∷ rest

-- WaitTask behind the look at the status: a new subscription, which a cancelled listener refuses.
abbrev pub register_unless :
    Bool → ℤ → PollingTaskEventListener → PollingTaskEventListener × Reply ℕ
register_unless true id l = (l, fail (Err.sentinel Sentinel.listener_closed))
register_unless false id l = (
  record l {
    watchers = l.watchers ++ (id, length l.subscriptions) ∷ [];
    subscriptions = l.subscriptions ++ record { task_id = id; sent = none; finished = false } ∷ [];
  },
  ok (length l.subscriptions),
)

unfoldable pub register : ℤ → PollingTaskEventListener → PollingTaskEventListener × Reply ℕ
register id l = register_unless l.cancelled id l

-- What WaitTask gives: an event that is there already, or a subscription.
pub data WaitTask : Type 0 where
  already : TaskTerminalEvent → WaitTask
  subscribed : ℕ → WaitTask
  not_waiting : Err → WaitTask

abbrev pub subscribed_or : PollingTaskEventListener × Reply ℕ → PollingTaskEventListener × WaitTask
subscribed_or (l, ok sub) = (l, WaitTask.subscribed sub)
subscribed_or (l, fail e) = (l, WaitTask.not_waiting e)

unfoldable pub wait_task :
    ℤ → Reply TaskStatus → PollingTaskEventListener → PollingTaskEventListener × WaitTask
unfolding register is_terminal_status
wait_task id (fail e) l = (l, WaitTask.not_waiting e)
wait_task id (ok status) l =
    if is_terminal_status status
    then (l, WaitTask.already (status_event id status))
    else subscribed_or (register id l)

-- removeSubscription.
unfoldable pub remove_subscription :
    ℤ → ℕ → TaskTerminalEvent → Bool → PollingTaskEventListener → PollingTaskEventListener
unfolding without_sub
remove_subscription id sub event send l = record l {
  watchers = without_sub id sub l.watchers;
  pending = l.pending ++ record { sub = sub; event = event; send = send } ∷ [];
}

unfoldable pub unregister : ℤ → ℕ → PollingTaskEventListener → PollingTaskEventListener
unfolding remove_subscription
unregister id sub l = remove_subscription id sub no_event false l

unfoldable pub finish_all : TaskTerminalEvent → List ℕ → List Finish
finish_all event [] = []
finish_all event (s ∷ subs) = record { sub = s; event = event; send = true } ∷ finish_all event subs

unfoldable pub notify : ℤ → TaskStatus → PollingTaskEventListener → PollingTaskEventListener
unfolding without_task subs_of finish_all
notify id status l = record l {
  watchers = without_task id l.watchers;
  pending = l.pending ++ finish_all (status_event id status) (subs_of id l.watchers);
}

unfoldable pub closings : Err → List (ℤ × ℕ) → List Finish
closings e [] = []
closings e ((t, s) ∷ ws) = record { sub = s; event = error_event t e; send = true } ∷ closings e ws

unfoldable pub fail_all : Err → PollingTaskEventListener → PollingTaskEventListener
unfolding closings
fail_all e l = record l { watchers = []; pending = l.pending ++ closings e l.watchers }

-- sync.Once: a second call does nothing.
abbrev pub finish_unless : Bool → TaskTerminalEvent → Bool → Subscription → Subscription
finish_unless true event send s = s
finish_unless false event send s = record s {
  sent = (if send then some event else none);
  finished = true;
}

abbrev pub finish_sub : TaskTerminalEvent → Bool → Subscription → Subscription
finish_sub event send s = finish_unless s.finished event send s

unfoldable pub finish_at : ℕ → TaskTerminalEvent → Bool → List Subscription → List Subscription
finish_at i event send [] = []
finish_at zero event send (s ∷ subs) = finish_sub event send s ∷ subs
finish_at (suc i) event send (s ∷ subs) = s ∷ finish_at i event send subs

abbrev pub run_finish : Finish → List Subscription → List Subscription
run_finish f = finish_at f.sub f.event f.send
