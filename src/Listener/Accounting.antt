-- ===== src/Listener/Accounting.antt =====
-- No subscription is lost: pkg/taskcore/listener/polling.go.
use anclax.Prelude.{
  ℕ, ◌<◌, ◌≡◌, refl, ap, ◌∙◌, subst, Bool, true, false, ◌||◌, List, [], ◌∷◌, ◌++◌, none, arith, inl,
  inr, Bool-cases, ◌==◌, length, length-append,
}
use anclax.Prelude.Int.{ℤ}
use anclax.Errors.{Err, Sentinel}
use anclax.Api.{TaskStatus}
use anclax.Db.{Reply, ok, fail}
use anclax.Db.Trees.{is_terminal_status}
use anclax.Listener.{
  PollingTaskEventListener, Subscription, Finish, Loop, TaskTerminalEvent,
  new_polling_task_event_listener, register, wait_task, remove_subscription, unregister, notify,
  fail_all, subs_of, without_task, without_sub, finish_all, closings, run_finish, status_event,
  subscribed_or, register_unless,
}
use anclax.Listener.Steps.{Step, Reach, at}
use anclax.Listener.Watched.{
  is_finished, is_pending, is_watched, is_accounted, is_pending-append, is_watched-append,
  is_finished-snoc, is_watched-without_sub, is_watched-without_task, is_watched-closings,
  length-finish_at, is_finished-finish_at,
}

abbrev pub is_stopped : Loop → Bool
is_stopped Loop.stopped = true
is_stopped _ = false

pub record Accounted (l : PollingTaskEventListener) : Type 0 where
  pub accounted : (i : ℕ) → i < length l.subscriptions → is_accounted l i ≡ true
  pub emptied : is_stopped l.loop ≡ true → (l.watchers ≡ []) × (l.cancelled ≡ true)

is_watched-here : (i : ℕ) (id : ℤ) (s : ℕ) → (i == s) ≡ true → is_watched i ((id, s) ∷ []) ≡ true
unfolding is_watched
is_watched-here i id s h = ground arith

Accounted-added :
    (id : ℤ) (l : PollingTaskEventListener)
    → Accounted l
    → l.cancelled ≡ false
    → Accounted (register_unless false id l).0
Accounted-added id l a c = record {
  accounted = λ i h. elim (Bool-cases (i == length l.subscriptions)) [
    | inl new ↦ ground (arith, both i, is_watched-here i id (length l.subscriptions) new)
    | inr old ↦ ground (arith, both i, a.accounted i (within i h old), snoc i (within i h old))
  ];
  emptied = λ stop. absurd (ground (arith, c, (a.emptied stop).1));
}
  where
    added : Subscription
    added = record { task_id = id; sent = none; finished = false }

    both :
        (i : ℕ)
        → is_watched i (l.watchers ++ (id, length l.subscriptions) ∷ [])
          ≡ (is_watched i l.watchers || is_watched i ((id, length l.subscriptions) ∷ []))
    both i = is_watched-append i l.watchers ((id, length l.subscriptions) ∷ [])

    within :
        (i : ℕ)
        → i < length (l.subscriptions ++ added ∷ [])
        → (i == length l.subscriptions) ≡ false
        → i < length l.subscriptions
    within i h old = ground (arith, length-append l.subscriptions (added ∷ []))

    snoc :
        (i : ℕ)
        → i < length l.subscriptions
        → is_finished (l.subscriptions ++ added ∷ []) i ≡ is_finished l.subscriptions i
    snoc i h = is_finished-snoc l.subscriptions added i h

Accounted-register :
    (id : ℤ) (l : PollingTaskEventListener) → Accounted l → Accounted (register id l).0
unfolding register
Accounted-register id l a = go l.cancelled refl
  where
    go : (b : Bool) → l.cancelled ≡ b → Accounted (register_unless b id l).0
    go true c = a
    go false c = Accounted-added id l a c

Accounted-wait_task :
    (id : ℤ) (status : Reply TaskStatus) (l : PollingTaskEventListener)
    → Accounted l
    → Accounted (wait_task id status l).0
unfolding wait_task
Accounted-wait_task id (fail e) l a = a
Accounted-wait_task id (ok status) l a = elim (Bool-cases (is_terminal_status status)) [
  | inl t ↦ rw t a
  | inr t ↦ rw t (subscribed_or-state (register id l) (Accounted-register id l a))
]
  where
    subscribed_or-state :
        (out : PollingTaskEventListener × Reply ℕ)
        → Accounted out.0
        → Accounted (subscribed_or out).0
    subscribed_or-state (l', ok sub) a = a
    subscribed_or-state (l', fail e) a = a

-- Pairs that go from the watchers to the calls of `finish` to come.
moved :
    (l : PollingTaskEventListener) (ws : List (ℤ × ℕ)) (fs : List Finish) (loop : Loop)
    → Accounted l
    → ((i : ℕ) → is_watched i l.watchers ≡ true → (is_pending i fs || is_watched i ws) ≡ true)
    → (is_stopped loop ≡ true → (ws ≡ []) × (l.cancelled ≡ true))
    → Accounted (record l { watchers = ws; pending = l.pending ++ fs; loop = loop })
moved l ws fs loop a move stop = record {
  accounted = λ i h. ground (arith, a.accounted i h, move i, is_pending-append i l.pending fs);
  emptied = stop;
}

Accounted-remove_subscription :
    (id : ℤ) (sub : ℕ) (event : TaskTerminalEvent) (send : Bool) (l : PollingTaskEventListener)
    (loop : Loop)
    → Accounted l
    → (is_stopped loop ≡ true → is_stopped l.loop ≡ true)
    → Accounted (at loop (remove_subscription id sub event send l))
unfolding remove_subscription is_pending
Accounted-remove_subscription id sub event send l loop a stop =
    moved l (without_sub id sub l.watchers) (record { sub = sub; event = event; send = send } ∷ [])
      loop a (λ i h. ground (arith, is_watched-without_sub i id sub l.watchers h))
      (λ h.
        (ap (without_sub id sub) (a.emptied (stop h)).0 ∙ none_left id sub, (a.emptied (stop h)).1))
  where
    none_left : (id : ℤ) (sub : ℕ) → without_sub id sub [] ≡ []
    none_left id sub = refl

Accounted-finish :
    (l : PollingTaskEventListener) (before after : List Finish) (f : Finish)
    → Accounted l
    → l.pending ≡ before ++ f ∷ after
    → Accounted
        (record l { subscriptions = run_finish f l.subscriptions; pending = before ++ after })
unfolding is_pending
Accounted-finish l before after f a e = record {
  accounted = λ i h.
      (let h' : i < length l.subscriptions =
          subst (λ n. i < n) (length-finish_at f.sub f.event f.send l.subscriptions) h in
        elim (Bool-cases (is_finished l.subscriptions i || f.sub == i)) [
          | inl c ↦
              ground (arith, is_finished-finish_at f.sub i f.event f.send l.subscriptions h' c)
          | inr c ↦ ground (
            arith,
            c,
            a.accounted i h',
            ap (is_pending i) e,
            is_pending-append i before (f ∷ after),
            is_pending-append i before after,
          )
        ]);
  emptied = a.emptied;
}

-- Every step keeps every subscription accounted for, and a stopped loop has no watchers.
pub Accounted-Step : {l l' : PollingTaskEventListener} → Step l l' → Accounted l → Accounted l'
unfolding notify fail_all unregister
Accounted-Step (Step.wait l id status) a = Accounted-wait_task id status l a
Accounted-Step (Step.leave l id sub) a =
    Accounted-remove_subscription id sub _ false l l.loop a (λ h. h)
Accounted-Step (Step.close l) a = record {
  accounted = a.accounted;
  emptied = λ h. ((a.emptied h).0, refl);
}
Accounted-Step (Step.tick l e) a = record { accounted = a.accounted; emptied = λ h. absurd (cc) }
Accounted-Step (Step.query l snapshot rows w w' e read) a = record {
  accounted = a.accounted;
  emptied = λ h. absurd (cc);
}
Accounted-Step (Step.query_failed l snapshot err w w' e read) a = record {
  accounted = a.accounted;
  emptied = λ h. absurd (cc);
}
Accounted-Step (Step.notify_row l id status rows e) a =
    moved l (without_task id l.watchers)
      (finish_all (status_event id status) (subs_of id l.watchers)) (Loop.notifying rows) a
      (λ i h. is_watched-without_task i id (status_event id status) l.watchers h) (λ h. absurd (cc))
Accounted-Step (Step.notified l e) a = record {
  accounted = a.accounted;
  emptied = λ h. absurd (cc);
}
Accounted-Step (Step.fail_sub l err id sub subs e) a =
    Accounted-remove_subscription id sub _ true l (Loop.failing err subs) a (λ h. absurd (cc))
Accounted-Step (Step.failed l err e) a = record {
  accounted = a.accounted;
  emptied = λ h. absurd (cc);
}
Accounted-Step (Step.stop l e c) a =
    moved l [] (closings (Err.sentinel Sentinel.listener_closed) l.watchers) Loop.stopped a
      (λ i h.
        ground (arith, is_watched-closings i (Err.sentinel Sentinel.listener_closed) l.watchers h))
      (λ h. (refl, c))
Accounted-Step (Step.finish l before after f e) a = Accounted-finish l before after f a e

Accounted-start : Accounted new_polling_task_event_listener
Accounted-start = record { accounted = λ i h. absurd (omega arith); emptied = λ h. absurd (cc) }

-- In every reachable state each subscription is watched, closed, or about to be closed.
pub Reach-Accounted : {l : PollingTaskEventListener} → Reach l → Accounted l
Reach-Accounted Reach.start = Accounted-start
Reach-Accounted (Reach.next r s) = Accounted-Step s (Reach-Accounted r)

-- Once the loop of a closed listener has stopped and the calls of `finish` are done, every channel that
-- WaitTask ever handed out is closed: no caller is left waiting, whatever the interleaving.
pub Reach-stopped :
    (l : PollingTaskEventListener) (i : ℕ)
    → Reach l
    → is_stopped l.loop ≡ true
    → l.pending ≡ []
    → i < length l.subscriptions
    → is_finished l.subscriptions i ≡ true
unfolding is_pending is_watched
Reach-stopped l i r stop done h =
    let a = Reach-Accounted r in
    ground (arith, a.accounted i h, ap (is_pending i) done, ap (is_watched i) (a.emptied stop).0)
