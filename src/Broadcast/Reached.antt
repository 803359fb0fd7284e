-- ===== src/Broadcast/Reached.antt =====
-- Every worker that a broadcast is for is reached: pkg/asynctask/executor_broadcast_worker.go and
-- worker_control_handler.go.
use anclax.Prelude.{
  ℕ, ◌≡◌, refl, ap, subst, ◌⊎◌, inl, inr, ◌&&◌, not, true, false, String, List, [], ◌∷◌, Option,
  arith, Bool-cases, if◌then◌else◌, nat_eq,
}
use anclax.Prelude.Int.{ℤ, int_eq, int_eq_iff, ℤ_eq}
use anclax.Prelude.Unique.{contains}
use anclax.Text.{Bytes}
use anclax.Db.{World, Reply, ok, fail, ◌>>=◌, return}
use anclax.Db.Effects.Succeeding.{after-ok, lift-ok}
use anclax.Store.{lift}
use anclax.Runner.{Parameters, BroadcastTaskParameters}
use anclax.Ctrl.{Control}
use anclax.Broadcast.{
  Sleeps, normalize_broadcast_task_ids, parse_ack_poll_interval, alive_subset_of_snapshot,
  wait_for_worker_command_tasks, wait_round,
}
use anclax.Broadcast.Safety.{Starts, Settled, wait_for_worker_command_tasks-Settled}
use anclax.Broadcast.Command.{HasCommand, enqueue_task_on_worker-ok}
use anclax.Broadcast.Execute.{
  LocalWorker, worker_control_task_ids, is_local, interrupt_local, enqueue_task_on_worker, fan_out,
  fatal, request_or, unless_none, on_worker_unique_tag, execute_broadcast_task,
}

-- The tasks that a command interrupts on its worker are those it names, but for the command itself, which
-- would otherwise wait for its own end.
contains-worker_control_task_ids :
    (control : ℤ) (ids : List ℤ) (j : ℤ)
    → contains (worker_control_task_ids control ids) j ≡ (contains ids j && not (int_eq j control))
unfolding worker_control_task_ids contains
contains-worker_control_task_ids control [] j = refl
contains-worker_control_task_ids control (id ∷ ids) j = elim (Bool-cases (int_eq id j)) [
  | inr f ↦ elim (Bool-cases (int_eq id control)) [
    | inl e ↦ rw e (ground (arith, f, contains-worker_control_task_ids control ids j))
    | inr e ↦ rw e (ground (arith, f, contains-worker_control_task_ids control ids j))
  ]
  | inl f ↦
      subst
        (λ (k : ℤ).
          contains (worker_control_task_ids control (id ∷ ids)) k
          ≡ (contains (id ∷ ids) k && not (int_eq k control)))
        ((int_eq_iff id j).0 f)
        (elim (Bool-cases (int_eq id control)) [
          | inl e ↦
              rw e (
                ground
                  (arith, e, int_eq_iff id id, contains-worker_control_task_ids control ids id))
          | inr e ↦ rw e (ground (arith, e, int_eq_iff id id))
        ])
]

-- The targets that are not the local worker.
unfoldable pub remote : Option LocalWorker → List ℕ → List ℕ
remote l [] = []
remote l (t ∷ ts) = let rest = remote l ts in if is_local l t then rest else t ∷ rest

module _ (show_uuid : ℕ → String) (marshal : Parameters → Bytes) (l : Option LocalWorker)
    (c : Control) (task : ℤ) (request : String) (ids : List ℤ) where
  -- From one world to another: each target in turn had the tasks interrupted here, but for the task
  -- itself, if it is the local worker, and else was sent a command, which then stands in the table.
  abbrev pub EachReached : List ℕ → World → World → Type 0
  EachReached [] w w' = w ≡ w'
  EachReached (t ∷ ts) w w' =
      (v : World) × (((is_local l t ≡ true)
          × (interrupt_local l c (worker_control_task_ids task ids) w ≡ (v, ok tt)))
        ⊎ ((is_local l t ≡ false)
            × (enqueue_task_on_worker show_uuid marshal c task request t ids w ≡ (v, ok tt))
            × HasCommand show_uuid c request v t))
      × EachReached ts v w'

  -- A fan-out that succeeds has reached each target, and returns those that were sent a command.
  pub fan_out-reached :
      (ts : List ℕ) (w w' : World) (waited : List ℕ)
      → fan_out show_uuid marshal l c task request ids ts w ≡ (w', ok waited)
      → (waited ≡ remote l ts) × EachReached ts w w'
  unfolding fan_out remote
  fan_out-reached [] w w' waited h = (ground (arith, ap (λ x. x.1) h), ap (λ x. x.0) h)
  fan_out-reached (t ∷ ts) w w' waited h = elim (Bool-cases (is_local l t)) [
    | inl here ↦
        (let (v, done, first, k) =
            after-ok (interrupt_local l c (worker_control_task_ids task ids) w)
              (λ done. fan_out show_uuid marshal l c task request ids ts) w' waited
              (rw here at h) in
          let (same, reached) = fan_out-reached ts v w' waited k in
          (rw here same, (v, inl (here, first), reached)))
    | inr far ↦
        (let (v, done, first, k) =
            after-ok (enqueue_task_on_worker show_uuid marshal c task request t ids w)
              (λ done.
                fan_out show_uuid marshal l c task request ids ts >>= λ rest. return (t ∷ rest))
              w' waited (rw far at h) in
          let (u, rest, later, e) =
            after-ok (fan_out show_uuid marshal l c task request ids ts v)
              (λ rest. return (t ∷ rest)) w' waited k in
          let (same, reached) = fan_out-reached ts v u rest later in
          (
            rw far (ground (arith, ap (λ x. x.1) e, same)),
            (
              v,
              inr (
                far,
                first,
                enqueue_task_on_worker-ok show_uuid marshal c task request ids t w v first,
              ),
              subst (EachReached ts v) (ap (λ x. x.0) e) reached,
            ),
          ))
  ]

fatal-ok : {A : Type 0} (r : Reply A) (a : A) → fatal r ≡ ok a → r ≡ ok a
fatal-ok (ok b) a h = h
fatal-ok (fail e) a h = absurd (ground (arith, h))

module _ (show_uuid : ℕ → String) (marshal : Parameters → Bytes) (parse_duration : String → Reply ℤ)
    (cutoff : World → ℕ) (fresh : String) (sleeps : Sleeps) (l : Option LocalWorker) (c : Control)
    (task : ℤ) (p : BroadcastTaskParameters) where
  abbrev tag_of : ℕ → String
  tag_of = on_worker_unique_tag show_uuid c (request_or fresh p.request_id)

  -- How a broadcast went that is done: on which targets, and how each was reached.
  abbrev pub IsReached : World → World → Type 0
  IsReached w w' =
      (ids : List ℤ) × (normalize_broadcast_task_ids p.task_ids ≡ ok ids)
      × (targets : List ℕ) × (v u : World) × (alive_subset_of_snapshot cutoff p.worker_ids w
          ≡ (v, ok targets))
      × EachReached show_uuid marshal l c task (request_or fresh p.request_id) ids targets v u
      × (((remote l targets ≡ []) × (u ≡ w'))
          ⊎ ((last : World) × Starts (wait_round cutoff tag_of (remote l targets)) sleeps u last
              × Settled cutoff tag_of (remote l targets) last w'))

  unless_none-ok :
      (waited : List ℕ) (u w' : World)
      → unless_none waited (wait_for_worker_command_tasks cutoff tag_of waited sleeps) u
        ≡ (w', ok tt)
      → ((waited ≡ []) × (u ≡ w'))
        ⊎ ((last : World) × Starts (wait_round cutoff tag_of waited) sleeps u last
            × Settled cutoff tag_of waited last w')
  unless_none-ok [] u w' h = inl (refl, ap (λ x. x.0) h)
  unless_none-ok (t ∷ ts) u w' h =
      inr (wait_for_worker_command_tasks-Settled cutoff tag_of (t ∷ ts) sleeps u w' h)

  -- A pause or cancel broadcast that returns without an error, whatever the others do while it waits and
  -- whatever fails: its task ids were positive and the targets were the alive workers asked for; in their
  -- order, the local worker among them had the tasks interrupted, but for the broadcast task itself, and
  -- each other one had a command enqueued, which then stood in the table; and those with a command were
  -- settled in the last round of the wait.
  pub execute_broadcast_task-ok :
      (w w' : World)
      → execute_broadcast_task show_uuid marshal parse_duration cutoff fresh sleeps l c task p w
        ≡ (w', ok tt)
      → IsReached w w'
  unfolding execute_broadcast_task
  execute_broadcast_task-ok w w' h =
      let request = request_or fresh p.request_id in
      let (ids, normal, h1) =
        lift-ok (fatal (normalize_broadcast_task_ids p.task_ids))
          (λ ids.
            lift (fatal (parse_ack_poll_interval parse_duration p.ack_poll_interval))
            >>= λ interval. alive_subset_of_snapshot cutoff p.worker_ids >>= λ targets.
                fan_out show_uuid marshal l c task request ids targets >>= λ waited.
                unless_none waited (wait_for_worker_command_tasks cutoff tag_of waited sleeps))
          w w' tt h in
      let (interval, parsed, h2) =
        lift-ok (fatal (parse_ack_poll_interval parse_duration p.ack_poll_interval))
          (λ interval. alive_subset_of_snapshot cutoff p.worker_ids >>= λ targets.
            fan_out show_uuid marshal l c task request ids targets >>= λ waited.
            unless_none waited (wait_for_worker_command_tasks cutoff tag_of waited sleeps))
          w w' tt h1 in
      let (v, targets, listed, h3) =
        after-ok (alive_subset_of_snapshot cutoff p.worker_ids w)
          (λ targets. fan_out show_uuid marshal l c task request ids targets >>= λ waited.
            unless_none waited (wait_for_worker_command_tasks cutoff tag_of waited sleeps))
          w' tt h2 in
      let (u, waited, sent, h4) =
        after-ok (fan_out show_uuid marshal l c task request ids targets v)
          (λ waited. unless_none waited (wait_for_worker_command_tasks cutoff tag_of waited sleeps))
          w' tt h3 in
      let (same, reached) =
        fan_out-reached show_uuid marshal l c task request ids targets v u waited sent in
      (
        ids,
        fatal-ok (normalize_broadcast_task_ids p.task_ids) ids normal,
        targets,
        v,
        u,
        listed,
        reached,
        subst
            (λ (x : List ℕ).
              ((x ≡ []) × (u ≡ w'))
              ⊎ ((last : World) × Starts (wait_round cutoff tag_of x) sleeps u last
                  × Settled cutoff tag_of x last w'))
            same (unless_none-ok waited u w' h4),
      )
