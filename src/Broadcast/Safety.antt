-- ===== src/Broadcast/Safety.antt =====
-- What a broadcast that returns without an error has waited for:
-- pkg/asynctask/executor_broadcast_worker.go.
use anclax.Prelude.{
  ℕ, ◌≡◌, refl, sym, ap, ◌∙◌, ◌⊎◌, inl, inr, Bool, true, false, String, List, [], ◌∷◌, Option, none,
  some, arith, Bool-cases, if◌then◌else◌, nat_eq,
}
use anclax.Prelude.Unique.{contains}
use anclax.Errors.{Err, Sentinel}
use anclax.Api.{TaskStatus}
use anclax.Db.{TaskRow, World, ok, M, ◌>>=◌, return, throw}
use anclax.Db.Effects.Succeeding.{after-ok}
use anclax.Broadcast.{
  command_task, acked, acked_by, check_target, check_targets, wait_round, list_alive_workers,
  wait_for_worker_command_tasks, cancel_obsolete_worker_command_task, Sleeps,
}

-- What a round did about a target between two worlds: it was not among the alive workers and its
-- command was cancelled if still pending, or its command was read as completed.
abbrev pub IsSettled : List ℕ → (ℕ → String) → ℕ → World → World → Type 0
IsSettled alive unique_tag worker v v' =
    ((contains alive worker ≡ false)
      × (cancel_obsolete_worker_command_task (unique_tag worker) v ≡ (v', ok tt)))
    ⊎ ((r : TaskRow) × (command_task (unique_tag worker) v ≡ (v', ok (some r)))
        × (r.status ≡ TaskStatus.completed))

-- One target after the other, each on the world that the one before has left.
abbrev pub AllSettled : List ℕ → (ℕ → String) → List ℕ → World → World → Type 0
AllSettled alive unique_tag [] v v' = v ≡ v'
AllSettled alive unique_tag (t ∷ ts) v v' =
    (u : World) × IsSettled alive unique_tag t v u × AllSettled alive unique_tag ts u v'

acked_by-true :
    (status : TaskStatus) (w w' : World)
    → acked_by status w ≡ (w', ok true)
    → status ≡ TaskStatus.completed
acked_by-true TaskStatus.completed w w' h = refl
acked_by-true TaskStatus.failed w w' h = absurd (ground (arith, ap (λ x. x.1) h))
acked_by-true TaskStatus.pending w w' h = absurd (ground (arith, ap (λ x. x.1) h))
acked_by-true TaskStatus.paused w w' h = absurd (ground (arith, ap (λ x. x.1) h))
acked_by-true TaskStatus.cancelled w w' h = absurd (ground (arith, ap (λ x. x.1) h))
acked_by-true (TaskStatus.other s) w w' h = absurd (ground (arith, ap (λ x. x.1) h))

acked-true :
    (o : Option TaskRow) (w w' : World)
    → acked o w ≡ (w', ok true)
    → (r : TaskRow) × (o ≡ some r) × (r.status ≡ TaskStatus.completed)
acked-true none w w' h = absurd (ground (arith, ap (λ x. x.1) h))
acked-true (some r) w w' h = (r, refl, acked_by-true r.status w w' h)

acked-world : (o : Option TaskRow) (w w' : World) (b : Bool) → acked o w ≡ (w', ok b) → w ≡ w'
acked-world none w w' b h = ap (λ x. x.0) h
acked-world (some r) w w' b h = go r.status h
  where
    go : (status : TaskStatus) → acked_by status w ≡ (w', ok b) → w ≡ w'
    go TaskStatus.completed k = ap (λ x. x.0) k
    go TaskStatus.failed k = ap (λ x. x.0) k
    go TaskStatus.pending k = ap (λ x. x.0) k
    go TaskStatus.paused k = ap (λ x. x.0) k
    go TaskStatus.cancelled k = ap (λ x. x.0) k
    go (TaskStatus.other s) k = ap (λ x. x.0) k

check_target-true :
    (alive : List ℕ) (unique_tag : ℕ → String) (t : ℕ) (w w' : World)
    → check_target alive unique_tag t w ≡ (w', ok true)
    → IsSettled alive unique_tag t w w'
unfolding check_target
check_target-true alive unique_tag t w w' h = elim (Bool-cases (contains alive t)) [
  | inr dead ↦
      (let (v, done, cancelled, k) =
          after-ok (cancel_obsolete_worker_command_task (unique_tag t) w) (λ done. return true) w'
            true (rw dead at h) in
        inl (dead, cancelled ∙ ap (λ (x : World). (x, ok tt)) (ap (λ x. x.0) k)))
  | inl live ↦
      (let (v, o, read, k) =
          after-ok (command_task (unique_tag t) w) acked w' true (rw live at h) in
        let (r, found, done) = acked-true o v w' k in
        inr (
          r,
          read
              ∙ ap (λ (x : World × Option TaskRow). (x.0, ok x.1))
                  (ap (λ (x : World). (x, o)) (acked-world o v w' true k)
                    ∙ ap (λ x. (w', x)) found),
          done,
        ))
]

both_true : (a b : Bool) → (if a then b else false) ≡ true → (a ≡ true) × (b ≡ true)
both_true true b h = (refl, h)
both_true false b h = absurd (ground (arith, h))

check_targets-true :
    (alive : List ℕ) (unique_tag : ℕ → String) (ts : List ℕ) (w w' : World)
    → check_targets alive unique_tag ts w ≡ (w', ok true)
    → AllSettled alive unique_tag ts w w'
unfolding check_targets
check_targets-true alive unique_tag [] w w' h = ap (λ x. x.0) h
check_targets-true alive unique_tag (t ∷ ts) w w' h =
    let (v, first, here, k) =
      after-ok (check_target alive unique_tag t w)
        (λ first.
          check_targets alive unique_tag ts >>= λ rest. return (if first then rest else false))
        w' true h in
    let (u, rest, later, e) =
      after-ok (check_targets alive unique_tag ts v)
        (λ rest. return (if first then rest else false)) w' true k in
    let (a, b) = both_true first rest (ground (arith, ap (λ x. x.1) e)) in
    (
      v,
      check_target-true alive unique_tag t w v (here ∙ ap (λ (x : Bool). (v, ok x)) a),
      check_targets-true alive unique_tag ts v w' (
          later
          ∙ ap (λ (x : World × Bool). (x.0, ok x.1))
              (ap (λ (x : World). (x, rest)) (ap (λ x. x.0) e) ∙ ap (λ x. (w', x)) b)),
    )

-- The world at which some round of the wait starts, each but the first after a round that was not done
-- and what the others did in the sleep behind it.
abbrev pub Starts : M Bool → Sleeps → World → World → Type 0
Starts round [] w v = w ≡ v
Starts round (others ∷ sleeps) w v =
    (w ≡ v) ⊎ ((u : World) × (round w ≡ (u, ok false)) × Starts round sleeps (others u) v)

-- The last round: the workers that were alive then, and each target settled in it.
abbrev pub Settled : (World → ℕ) → (ℕ → String) → List ℕ → World → World → Type 0
Settled cutoff unique_tag targets v w' =
    (v' : World) × (alive : List ℕ) × (list_alive_workers cutoff v ≡ (v', ok alive))
    × AllSettled alive unique_tag targets v' w'

wait_round-true :
    (cutoff : World → ℕ) (unique_tag : ℕ → String) (targets : List ℕ) (w w' : World)
    → wait_round cutoff unique_tag targets w ≡ (w', ok true)
    → Settled cutoff unique_tag targets w w'
unfolding wait_round
wait_round-true cutoff unique_tag targets w w' h =
    let (v, alive, listed, k) =
      after-ok (list_alive_workers cutoff w) (λ alive. check_targets alive unique_tag targets) w'
        true h in
    (v, alive, listed, check_targets-true alive unique_tag targets v w' k)

-- Rounds with sleeps between them, until one is done or the context has ended.
abbrev pub poll : M Bool → Sleeps → M (Unit {0})
poll round [] = round >>= λ done. if done then return tt else throw (Err.sentinel Sentinel.canceled)
poll round (others ∷ sleeps) =
    round >>= λ done. if done then return tt else (λ w. poll round sleeps (others w))

pub poll-ok :
    (round : M Bool) (sleeps : Sleeps) (w w' : World)
    → poll round sleeps w ≡ (w', ok tt)
    → (v : World) × Starts round sleeps w v × (round v ≡ (w', ok true))
poll-ok round [] w w' h =
    let (v, done, ran, k) =
      after-ok (round w)
        (λ done. if done then return tt else throw (Err.sentinel Sentinel.canceled)) w' tt h in
    elim (Bool-cases done) [
      | inl d ↦ (
        w,
        refl,
        ran
            ∙ ap (λ (x : World × Bool). (x.0, ok x.1))
                (ap (λ (x : World). (x, done)) (ap (λ x. x.0) (rw d at k)) ∙ ap (λ x. (w', x)) d),
      )
      | inr d ↦ absurd (ground (arith, ap (λ x. x.1) (rw d at k)))
    ]
poll-ok round (others ∷ sleeps) w w' h =
    let (v, done, ran, k) =
      after-ok (round w) (λ done. if done then return tt else (λ w. poll round sleeps (others w)))
        w' tt h in
    elim (Bool-cases done) [
      | inl d ↦ (
        w,
        inl refl,
        ran
            ∙ ap (λ (x : World × Bool). (x.0, ok x.1))
                (ap (λ (x : World). (x, done)) (ap (λ x. x.0) (rw d at k)) ∙ ap (λ x. (w', x)) d),
      )
      | inr d ↦
          (let (u, starts, last) = poll-ok round sleeps (others v) w' (rw d at k) in
            (u, inr (v, ran ∙ ap (λ (x : Bool). (v, ok x)) d, starts), last))
    ]

wait_for_worker_command_tasks-poll :
    (cutoff : World → ℕ) (unique_tag : ℕ → String) (targets : List ℕ) (sleeps : Sleeps)
    → wait_for_worker_command_tasks cutoff unique_tag targets sleeps
      ≡ poll (wait_round cutoff unique_tag targets) sleeps
unfolding wait_for_worker_command_tasks
wait_for_worker_command_tasks-poll cutoff unique_tag targets [] = refl
wait_for_worker_command_tasks-poll cutoff unique_tag targets (others ∷ sleeps) =
    ap
      (λ (later : M (Unit {0})). wait_round cutoff unique_tag targets >>= λ done.
        if done then return tt else (λ w. later (others w)))
      (wait_for_worker_command_tasks-poll cutoff unique_tag targets sleeps)

-- The wait for the commands of a broadcast, whatever the others do between its rounds and whatever
-- fails: it returns without an error only at the end of a round in which each target worker either was
-- not among those alive at its start, and its command was cancelled if pending, or had its command task
-- read as completed.
pub wait_for_worker_command_tasks-Settled :
    (cutoff : World → ℕ) (unique_tag : ℕ → String) (targets : List ℕ) (sleeps : Sleeps)
    (w w' : World)
    → wait_for_worker_command_tasks cutoff unique_tag targets sleeps w ≡ (w', ok tt)
    → (v : World) × Starts (wait_round cutoff unique_tag targets) sleeps w v
      × Settled cutoff unique_tag targets v w'
wait_for_worker_command_tasks-Settled cutoff unique_tag targets sleeps w w' h =
    let (v, starts, last) = poll-ok (wait_round cutoff unique_tag targets) sleeps w w' (
      ap (λ (m : M (Unit {0})). m w)
        (sym (wait_for_worker_command_tasks-poll cutoff unique_tag targets sleeps))
      ∙ h) in
    (v, starts, wait_round-true cutoff unique_tag targets v w' last)
