-- ===== src/Listener/Honesty.antt =====
-- What the channels of the listener carry: pkg/taskcore/listener/polling.go.
use anclax.Prelude.{
  ℕ, ◌≡◌, refl, subst, Bool, true, false, List, [], ◌∷◌, ◌++◌, none, inl, inr, Bool-cases, length,
}
use anclax.Prelude.Int.{ℤ}
use anclax.Errors.{Err, Sentinel}
use anclax.Api.{TaskStatus}
use anclax.Db.{Reply, ok, fail}
use anclax.Db.Trees.{is_terminal_status}
use anclax.Listener.{
  PollingTaskEventListener, Subscription, Finish, Loop, register, register_unless, wait_task,
  subscribed_or, remove_subscription, unregister, notify, fail_all, without_task, without_sub,
  run_finish,
}
use anclax.Listener.Steps.{Step, Reach, at, snapshot_ids}
use anclax.Listener.Polls.{list_terminal_task_wait_statuses-AllTerminal}
use anclax.Listener.Fits.{
  AllSentFit, PairsFit, AllFinishFit, LoopFits, PairsFit-Extends, AllFinishFit-Extends,
  LoopFits-Extends, Extends-snoc, task_of-snoc, Extends-finish_at, AllSentFit-finish_at,
  AllSentFit-snoc, PairsFit-append, AllFinishFit-append, AllFinishFit-split, PairsFit-without_sub,
  PairsFit-without_task, AllFinishFit-finish_all, AllFinishFit-closings,
}

pub record Honest (l : PollingTaskEventListener) : Type 0 where
  pub sent : AllSentFit l.subscriptions
  pub watched : PairsFit l.subscriptions l.watchers
  pub coming : AllFinishFit l.subscriptions l.pending
  pub looped : LoopFits l.subscriptions l.loop

Honest-register :
    (id : ℤ) (b : Bool) (l : PollingTaskEventListener)
    → Honest l
    → Honest (register_unless b id l).0
Honest-register id true l h = h
Honest-register id false l h =
    let new : Subscription = record { task_id = id; sent = none; finished = false } in
    let ext = Extends-snoc l.subscriptions new in
    record {
      sent = AllSentFit-snoc l.subscriptions id h.sent;
      watched =
          PairsFit-append (l.subscriptions ++ new ∷ []) l.watchers
            ((id, length l.subscriptions) ∷ [])
            (PairsFit-Extends l.subscriptions (l.subscriptions ++ new ∷ []) ext l.watchers
              h.watched)
            (task_of-snoc l.subscriptions new, tt);
      coming =
          AllFinishFit-Extends l.subscriptions (l.subscriptions ++ new ∷ []) ext l.pending h.coming;
      looped = LoopFits-Extends l.subscriptions (l.subscriptions ++ new ∷ []) ext l.loop h.looped;
    }

Honest-wait_task :
    (id : ℤ) (status : Reply TaskStatus) (l : PollingTaskEventListener)
    → Honest l
    → Honest (wait_task id status l).0
unfolding wait_task register
Honest-wait_task id (fail e) l h = h
Honest-wait_task id (ok status) l h = elim (Bool-cases (is_terminal_status status)) [
  | inl t ↦ rw t h
  | inr t ↦ rw t (go (register_unless l.cancelled id l) (Honest-register id l.cancelled l h))
]
  where
    go : (out : PollingTaskEventListener × Reply ℕ) → Honest out.0 → Honest (subscribed_or out).0
    go (l', ok sub) h = h
    go (l', fail e) h = h

-- The loop goes on, and nothing else changes.
Honest-at :
    (l : PollingTaskEventListener) (loop : Loop)
    → Honest l
    → LoopFits l.subscriptions loop
    → Honest (at loop l)
Honest-at l loop h k = record { sent = h.sent; watched = h.watched; coming = h.coming; looped = k }

Honest-moved :
    (l : PollingTaskEventListener) (ws : List (ℤ × ℕ)) (fs : List Finish) (loop : Loop)
    → Honest l
    → PairsFit l.subscriptions ws
    → AllFinishFit l.subscriptions fs
    → LoopFits l.subscriptions loop
    → Honest (record l { watchers = ws; pending = l.pending ++ fs; loop = loop })
Honest-moved l ws fs loop h w f k = record {
  sent = h.sent;
  watched = w;
  coming = AllFinishFit-append l.subscriptions l.pending fs h.coming f;
  looped = k;
}

looped-as :
    (l : PollingTaskEventListener) (loop : Loop)
    → Honest l
    → l.loop ≡ loop
    → LoopFits l.subscriptions loop
looped-as l loop h e = subst (LoopFits l.subscriptions) e h.looped

-- What the loop and its callers do keeps the channels honest.
pub Honest-Step : {l l' : PollingTaskEventListener} → Step l l' → Honest l → Honest l'
unfolding notify fail_all unregister remove_subscription is_terminal_status
Honest-Step (Step.wait l id status) h = Honest-wait_task id status l h
Honest-Step (Step.leave l id sub) h =
    Honest-moved l (without_sub id sub l.watchers) _ l.loop h
      (PairsFit-without_sub l.subscriptions id sub l.watchers h.watched) (tt, tt) h.looped
Honest-Step (Step.close l) h = record {
  sent = h.sent;
  watched = h.watched;
  coming = h.coming;
  looped = h.looped;
}
Honest-Step (Step.tick l e) h = Honest-at l (Loop.querying l.watchers) h h.watched
Honest-Step (Step.query l snapshot rows w w' e read) h =
    Honest-at l (Loop.notifying rows) h
      (list_terminal_task_wait_statuses-AllTerminal (snapshot_ids snapshot) w w' rows read)
Honest-Step (Step.query_failed l snapshot err w w' e read) h =
    Honest-at l (Loop.failing (Err.wrap "list terminal task wait statuses" err) snapshot) h
      (looped-as l (Loop.querying snapshot) h e)
Honest-Step (Step.notify_row l id status rows e) h =
    let fits = looped-as l (Loop.notifying ((id, status) ∷ rows)) h e in
    Honest-moved l (without_task id l.watchers) _ (Loop.notifying rows) h
      (PairsFit-without_task l.subscriptions id l.watchers h.watched)
      (AllFinishFit-finish_all l.subscriptions id status l.watchers fits.0 h.watched) fits.1
Honest-Step (Step.notified l e) h = Honest-at l Loop.selecting h tt
Honest-Step (Step.fail_sub l err id sub subs e) h =
    let fits = looped-as l (Loop.failing err ((id, sub) ∷ subs)) h e in
    Honest-moved l (without_sub id sub l.watchers) _ (Loop.failing err subs) h
      (PairsFit-without_sub l.subscriptions id sub l.watchers h.watched) ((fits.0, refl), tt) fits.1
Honest-Step (Step.failed l err e) h = Honest-at l Loop.selecting h tt
Honest-Step (Step.stop l e c) h =
    Honest-moved l [] _ Loop.stopped h tt
      (AllFinishFit-closings l.subscriptions (Err.sentinel Sentinel.listener_closed) l.watchers
        h.watched)
      tt
Honest-Step (Step.finish l before after f e) h =
    let (now, later) =
      AllFinishFit-split l.subscriptions before after f
        (subst (AllFinishFit l.subscriptions) e h.coming) in
    let ext = Extends-finish_at f.sub f.event f.send l.subscriptions in
    let subs' = run_finish f l.subscriptions in
    record {
      sent = AllSentFit-finish_at f.sub f.event f.send l.subscriptions h.sent now;
      watched = PairsFit-Extends l.subscriptions subs' ext l.watchers h.watched;
      coming = AllFinishFit-Extends l.subscriptions subs' ext (before ++ after) later;
      looped = LoopFits-Extends l.subscriptions subs' ext l.loop h.looped;
    }

pub Reach-Honest : {l : PollingTaskEventListener} → Reach l → Honest l
Reach-Honest Reach.start = record { sent = tt; watched = tt; coming = tt; looped = tt }
Reach-Honest (Reach.next r s) = Honest-Step s (Reach-Honest r)

-- In every reachable state, whatever the interleaving: an event in the channel of a subscription is of
-- the task that was waited for, and reports a final status or an error.
pub Reach-AllSentFit : (l : PollingTaskEventListener) → Reach l → AllSentFit l.subscriptions
Reach-AllSentFit l r = (Reach-Honest r).sent
