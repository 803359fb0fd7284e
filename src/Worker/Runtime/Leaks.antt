-- ===== src/Worker/Runtime/Leaks.antt =====
-- The runtimes that a worker can reach, pkg/taskcore/worker/runtime.go, and that none of them has
-- lost a cycle.
use anclax.Prelude.{
  ℕ, zero, suc, ◌+◌, ◌^◌, ◌≤◌, ◌<◌, ◌≡◌, refl, sym, subst, ◌∙◌, false, false≢true, List, [], ◌∷◌,
  ◌++◌, Option, none, some, arith, if◌then◌else◌, nat_eq, Option-cases, Bool-cases, inl, inr,
}
use anclax.Prelude.Dict.{lookup}
use anclax.Prelude.Int.{ltb_ℤ}
use anclax.Errors.{Err}
use anclax.Worker.Types.{Phase, EventType, Event, EngineConfig}
use anclax.Worker.State.{new_engine}
use anclax.Worker.Engine.{apply, same_phase}
use anclax.Worker.Engine.Slots.{Inv, new_engine-Inv}
use anclax.Worker.Engine.Accounting.{apply-Inv, apply_runtime_config-Inv}
use anclax.Worker.Engine.Lanes.{next_cycle_id-apply}
use anclax.Worker.Engine.Cycles.{Cycles, strict_cycles}
use anclax.Worker.Engine.Tokens.{event_token, event_by, expected}
use anclax.Worker.Engine.Flow.{apply-Moves}
use anclax.Worker.Runtime.{
  Job, Answer, Runtime, new_runtime, enqueue, process, finish_job, catch_up, External, Step,
}
use anclax.Worker.Runtime.Commands.{
  job_tokens, inbox_tokens, tokens, job_tokens-append, apply-Carry, exec_commands-Starts,
}
use anclax.Worker.Runtime.Balance.{
  Balanced, after_event, process_lem, Adds, enqueue-Adds, enqueue-closed, finish_job-Adds,
  finish_job-closed, finish_job-engine,
}

-- After an event that was due, the runtime is balanced again.
after_event-Balanced :
    (failed : Option Err) (ev : Event) (rest : List Event) (r : Runtime)
    → r.inbox ≡ ev ∷ rest
    → r.engine.next_cycle_id + 1 < 2 ^ 64
    → Balanced r
    → Balanced (after_event failed ev (record r { inbox = rest }))
after_event-Balanced failed ev rest r i small b =
    let (_, e, inbox, _, jobs) =
      exec_commands-Starts failed (apply r.engine ev).1
        (record r { inbox = rest; engine = (apply r.engine ev).0 }) (apply-Carry r.engine ev) in
    record {
      accounting = subst Inv (sym e) (apply-Inv r.engine ev small b.accounting);
      balanced = λ p k.
          rw (e, inbox)
            (omega (
              arith,
              held p k,
              jobs p k,
              apply-Moves p k r.engine ev small b.accounting.tracked
                  (λ q j. omega (arith, held q j)),
            ));
    }
  where
    held :
        (p : Phase) (k : ℕ)
        → job_tokens p k r.jobs + (event_token p k ev + inbox_tokens p k rest)
          ≡ expected p k r.engine.cycles
    held p k =
        subst (λ x. job_tokens p k r.jobs + inbox_tokens p k x ≡ expected p k r.engine.cycles) i
          (b.balanced p k)

external-token : (t : EventType) → External t → (p : Phase) (k id : ℕ) → event_by p k t id ≡ 0
external-token t External.poll p k id = refl
external-token t External.heart p k id = refl
external-token t External.config p k id = refl
external-token t External.notify p k id = refl
external-token t External.stop p k id = refl

Adds-Balanced : (r r' : Runtime) → (Adds (λ p k. 0) r r') → Balanced r → Balanced r'
Adds-Balanced r r' (e, c, n) b = record {
  accounting = subst Inv (sym e) b.accounting;
  balanced = λ p k. rw e (omega (arith, n p k, b.balanced p k));
}

-- A closed runtime stays closed; one that takes a step and is up was up.
Step-closed : {r r' : Runtime} → Step r r' → r'.closed ≡ false → r.closed ≡ false
Step-closed (Step.arrive ev r x) h = sym (enqueue-closed ev r) ∙ h
Step-closed (Step.handle fuel failed ev rest r r' up i run) h = up
Step-closed (Step.finish before after j answer r split) h =
    sym (finish_job-closed j answer (record r { jobs = before ++ after })) ∙ h
Step-closed (Step.start_up answer r up) h = up
Step-closed (Step.close r) h = absurd (false≢true (sym h))

finish-Balanced :
    (before after : List Job) (j : Job) (answer : Answer) (r : Runtime)
    → r.jobs ≡ before ++ j ∷ after
    → r.closed ≡ false
    → Balanced r
    → Balanced (finish_job j answer (record r { jobs = before ++ after }))
finish-Balanced before after j answer r split up b =
    let (e, _, n) = finish_job-Adds j answer (record r { jobs = before ++ after }) up in
    record {
      accounting = subst Inv (sym e) b.accounting;
      balanced = λ p k. rw e (
          omega (
            arith,
            n p k,
            held p k,
            job_tokens-append p k before (j ∷ after),
            job_tokens-append p k before after,
          ));
    }
  where
    held :
        (p : Phase) (k : ℕ)
        → job_tokens p k (before ++ j ∷ after) + inbox_tokens p k r.inbox
          ≡ expected p k r.engine.cycles
    held p k =
        subst (λ x. job_tokens p k x + inbox_tokens p k r.inbox ≡ expected p k r.engine.cycles)
          split (b.balanced p k)

catch_up-Balanced : (answer : Answer) (r : Runtime) → Balanced r → Balanced (catch_up answer r).0
unfolding catch_up
catch_up-Balanced answer r b = elim (Option-cases answer.err) [
  | inr (e, failed) ↦ rw (failed, catch_up) b
  | inl fine ↦ elim (Option-cases answer.config) [
    | inl nothing ↦ rw (fine, nothing, catch_up) b
    | inr (cfg, loaded) ↦
        rw (fine, loaded, catch_up)
          (elim (Bool-cases (ltb_ℤ r.engine.runtime_config_version cfg.version)) [
            | inl newer ↦ rw newer (record {
              accounting = apply_runtime_config-Inv r.engine cfg b.accounting;
              balanced = b.balanced;
            })
            | inr older ↦ rw older b
          ])
  ]
]

catch_up-next_cycle_id :
    (answer : Answer) (r : Runtime)
    → (catch_up answer r).0.engine.next_cycle_id ≡ r.engine.next_cycle_id
unfolding catch_up
catch_up-next_cycle_id answer r = ground arith

handle_lem :
    (fuel : ℕ) (failed : Option Err) (ev : Event) (r r' : Runtime)
    → process fuel failed (ev ∷ []) r ≡ some r'
    → after_event failed ev r ≡ r'
unfolding process
handle_lem zero failed ev r r' run = absurd (ground (arith, run))
handle_lem (suc fuel) failed ev r r' run = cc (process_lem fuel failed ev r, run)

Step-Balanced :
    {r r' : Runtime}
    → Step r r'
    → r.engine.next_cycle_id + 1 < 2 ^ 64
    → r.closed ≡ false
    → r'.closed ≡ false
    → Balanced r
    → Balanced r'
Step-Balanced (Step.arrive ev r x) small up up' b =
    let (e, c, n) = enqueue-Adds ev r up in
    Adds-Balanced r (enqueue ev r)
      (e, c, λ p k. omega (arith, n p k, external-token ev.type x p k ev.cycle_id)) b
Step-Balanced (Step.handle fuel failed ev rest r r' o i run) small up up' b =
    subst Balanced (handle_lem fuel failed ev (record r { inbox = rest }) r' run)
      (after_event-Balanced failed ev rest r i small b)
Step-Balanced (Step.finish before after j answer r split) small up up' b =
    finish-Balanced before after j answer r split up b
Step-Balanced (Step.start_up answer r o) small up up' b = catch_up-Balanced answer r b
Step-Balanced (Step.close r) small up up' b = absurd (false≢true (sym up'))

-- Each step takes at most one cycle id.
Step-next_cycle_id :
    {r r' : Runtime} → Step r r' → r'.engine.next_cycle_id ≤ r.engine.next_cycle_id + 1
unfolding enqueue
Step-next_cycle_id (Step.arrive ev r x) = ground arith
Step-next_cycle_id (Step.handle fuel failed ev rest r r' up i run) =
    subst (λ x. x.engine.next_cycle_id ≤ r.engine.next_cycle_id + 1)
      (handle_lem fuel failed ev (record r { inbox = rest }) r' run)
      (let (_, e, _, _, _) =
          exec_commands-Starts failed (apply r.engine ev).1
            (record r { inbox = rest; engine = (apply r.engine ev).0 }) (apply-Carry r.engine ev) in
        rw e (next_cycle_id-apply r.engine ev))
Step-next_cycle_id (Step.finish before after j answer r split) =
    rw (finish_job-engine j answer (record r { jobs = before ++ after })) (omega arith)
Step-next_cycle_id (Step.start_up answer r up) = rw (catch_up-next_cycle_id answer r) (omega arith)
Step-next_cycle_id (Step.close r) = omega arith

-- The runtime after `n` steps, from the start of the worker.
pub data Runs (cfg : EngineConfig) : ℕ → Runtime → Type 0 where
  start : Runs cfg 0 (new_runtime (new_engine cfg))
  next : {n : ℕ} {r r' : Runtime} → Runs cfg n r → Step r r' → Runs cfg (suc n) r'

start_id : (cfg : EngineConfig) → (new_runtime (new_engine cfg)).engine.next_cycle_id ≤ 0
unfolding new_engine
start_id cfg = omega arith

Runs-next_cycle_id :
    {cfg : EngineConfig} {n : ℕ} {r : Runtime} → Runs cfg n r → r.engine.next_cycle_id ≤ n
Runs-next_cycle_id {cfg} start = start_id cfg
Runs-next_cycle_id (next runs step) =
    omega (arith, Runs-next_cycle_id runs, Step-next_cycle_id step)

start-Balanced : (cfg : EngineConfig) → Balanced (new_runtime (new_engine cfg))
unfolding new_engine expected lookup
start-Balanced cfg = record { accounting = new_engine-Inv cfg; balanced = λ p k. omega arith }

-- A running worker, whatever the port answered and in whichever order its jobs ended, is balanced.
pub Runs-Balanced :
    {cfg : EngineConfig} {n : ℕ} {r : Runtime}
    → Runs cfg n r
    → n < 2 ^ 64
    → r.closed ≡ false
    → Balanced r
Runs-Balanced {cfg} start small up = start-Balanced cfg
Runs-Balanced (next {n} {r} {r'} runs step) small up =
    Step-Balanced step (omega (arith, Runs-next_cycle_id runs)) (Step-closed step up) up
      (Runs-Balanced runs (omega arith) (Step-closed step up))

none_expected : (cycles : Cycles) → ((p : Phase) (k : ℕ) → expected p k cycles ≡ 0) → cycles ≡ []
unfolding expected lookup
none_expected [] h = refl
none_expected ((k, c) ∷ cycles) h = absurd (
    ground (
      arith,
      h Phase.claim_strict k,
      h Phase.claim_normal k,
      h Phase.executing k,
      h Phase.finalizing k,
    ))

-- A running worker, after fewer than 2^64 steps, whatever the port answered and in whichever order
-- its jobs ended: when no goroutine of it is left and no event waits, then no cycle is open, every
-- slot is free, and so is every strict slot.
pub idle-no_cycles :
    {cfg : EngineConfig} {n : ℕ} {r : Runtime}
    → Runs cfg n r
    → n < 2 ^ 64
    → r.closed ≡ false
    → r.jobs ≡ []
    → r.inbox ≡ []
    → (r.engine.cycles ≡ []) × (r.engine.in_flight ≡ 0) × (r.engine.strict_in_flight ≡ 0)
unfolding strict_cycles
idle-no_cycles {r} runs small up no_jobs no_events =
    let b = Runs-Balanced runs small up in
    let nothing =
      none_expected r.engine.cycles
        (λ p k. sym (b.balanced p k) ∙ (rw (no_jobs, no_events) refl)) in
    (
      nothing,
      b.accounting.counted ∙ (rw nothing refl),
      b.accounting.strict_counted ∙ (rw nothing refl),
    )

-- A running worker, after fewer than 2^64 steps: for each open cycle, the jobs and waiting events of
-- its phase are one in number, and there are none of another phase; for an id without an open cycle
-- there is none.
pub jobs-cycle :
    {cfg : EngineConfig} {n : ℕ} {r : Runtime}
    → Runs cfg n r
    → n < 2 ^ 64
    → r.closed ≡ false
    → (p : Phase) (k : ℕ)
    → tokens p k r ≡ (elim (lookup k r.engine.cycles) [
      | none ↦ 0
      | some c ↦ if same_phase c.phase p then 1 else 0
    ])
unfolding expected
jobs-cycle runs small up p k = (Runs-Balanced runs small up).balanced p k
