-- ===== src/Worker/Runtime/Balance.antt =====
-- No cycle is lost between the engine, its jobs and its inbox: how each step of
-- pkg/taskcore/worker/runtime.go moves them.
use anclax.Prelude.{
  ℕ, zero, suc, ◌+◌, ◌≡◌, refl, ◌∙◌, inl, inr, false, [], ◌∷◌, Option, none, some, arith,
  Bool-cases,
}
use anclax.Errors.{Err}
use anclax.Worker.Types.{Phase, EventType, Event, event}
use anclax.Worker.Engine.{apply}
use anclax.Worker.Engine.Slots.{Inv}
use anclax.Worker.Engine.Tokens.{event_token, expected}
use anclax.Worker.Runtime.{
  Job, Answer, Runtime, handle_error, heartbeat_failed, is_shutdown, no_task_is_nil, enqueue,
  exec_commands, process, finish_job,
}
use anclax.Worker.Runtime.Commands.{
  job_token, tokens, inbox_tokens-append, apply-Carry, handle_error_frame, exec_commands-Starts,
}

-- Each running cycle has exactly one job or waiting event, of its phase, and nothing else is under
-- way for it.
pub record Balanced (r : Runtime) : Type 0 where
  pub accounting : Inv r.engine
  pub balanced : (p : Phase) (k : ℕ) → tokens p k r ≡ expected p k r.engine.cycles

-- The state after the loop has taken `ev`.
abbrev pub after_event : Option Err → Event → Runtime → Runtime
after_event failed ev r =
    (exec_commands failed (apply r.engine ev).1 (record r { engine = (apply r.engine ev).0 })).0

process-nil : (fuel : ℕ) (failed : Option Err) (r : Runtime) → process fuel failed [] r ≡ some r
unfolding process
process-nil zero failed r = refl
process-nil (suc fuel) failed r = refl

-- Any fuel but none is enough: the commands that an event leads to give no further event before
-- their jobs end, so the loop of `processEvent` ends after one round.
pub process_lem :
    (fuel : ℕ) (failed : Option Err) (ev : Event) (r : Runtime)
    → process (suc fuel) failed (ev ∷ []) r ≡ some (after_event failed ev r)
unfolding process
process_lem fuel failed ev r =
    let none_now =
      (exec_commands-Starts failed (apply r.engine ev).1
        (record r { engine = (apply r.engine ev).0 }) (apply-Carry r.engine ev)).0 in
    rw (none_now, process) (process-nil fuel failed (after_event failed ev r))

-- What a step outside the engine leaves: the engine, and `n` more tokens.
abbrev pub Adds : (Phase → ℕ → ℕ) → Runtime → Runtime → Type 0
Adds n r r' =
    (r'.engine ≡ r.engine)
    × (r'.closed ≡ r.closed)
    × ((p : Phase) (k : ℕ) → tokens p k r' ≡ tokens p k r + n p k)

pub enqueue-Adds :
    (ev : Event) (r : Runtime)
    → r.closed ≡ false
    → Adds (λ p k. event_token p k ev) r (enqueue ev r)
unfolding enqueue
enqueue-Adds ev r h =
    rw (h, enqueue) (refl, refl, λ p k. omega (arith, inbox_tokens-append p k r.inbox (ev ∷ [])))

pub enqueue-closed : (ev : Event) (r : Runtime) → (enqueue ev r).closed ≡ r.closed
unfolding enqueue
enqueue-closed ev r = ground arith

handle_error-Adds : (failed : Option Err) (r : Runtime) → Adds (λ p k. 0) r (handle_error failed r)
handle_error-Adds failed r =
    let (e, i, c, j) = handle_error_frame failed r in (e, c, λ p k. rw (i, j) (omega arith))

report_enqueue-Adds :
    (failed : Option Err) (ev : Event) (r : Runtime)
    → r.closed ≡ false
    → Adds (λ p k. event_token p k ev) r (enqueue ev (handle_error failed r))
report_enqueue-Adds failed ev r h =
    let (e, c, n) = handle_error-Adds failed r in
    let (e', c', n') = enqueue-Adds ev (handle_error failed r) (c ∙ h) in
    (e' ∙ e, c' ∙ c, λ p k. omega (arith, n p k, n' p k))

heartbeat_failed-Adds :
    (failed : Option Err) (r : Runtime)
    → r.closed ≡ false
    → Adds (λ p k. 0) r (heartbeat_failed failed r)
unfolding heartbeat_failed
heartbeat_failed-Adds none r h = (refl, refl, λ p k. omega arith)
heartbeat_failed-Adds (some err) r h = elim (Bool-cases (is_shutdown err)) [
  | inl shutdown ↦ rw (shutdown, heartbeat_failed) (refl, refl, λ p k. omega arith)
  | inr broken ↦
      rw (broken, heartbeat_failed) (report_enqueue-Adds (some err) (event EventType.stop) r h)
]

report_engine :
    (failed : Option Err) (ev : Event) (r : Runtime)
    → (enqueue ev (handle_error failed r)).engine ≡ r.engine
unfolding enqueue
report_engine failed ev r = let (e, _, _, _) = handle_error_frame failed r in ground (arith, e)

-- A job that ends leaves its one token in the inbox, whatever the port answers.
pub finish_job-Adds :
    (j : Job) (answer : Answer) (r : Runtime)
    → r.closed ≡ false
    → Adds (λ p k. job_token p k j) r (finish_job j answer r)
unfolding finish_job
finish_job-Adds (Job.claim_strict id req) answer r h = report_enqueue-Adds _ _ r h
finish_job-Adds (Job.claim_normal id req) answer r h = report_enqueue-Adds _ _ r h
finish_job-Adds (Job.execute_task id task) answer r h = enqueue-Adds _ r h
finish_job-Adds (Job.finalize_task id task err) answer r h = report_enqueue-Adds _ _ r h
finish_job-Adds (Job.heartbeat worker_id) answer r h = heartbeat_failed-Adds answer.err r h
finish_job-Adds (Job.refresh worker_id request_id) answer r h = report_enqueue-Adds _ _ r h
finish_job-Adds (Job.ack worker_id request_id version) answer r h = handle_error-Adds answer.err r

handle_error-closed :
    (failed : Option Err) (r : Runtime) → (handle_error failed r).closed ≡ r.closed
handle_error-closed failed r = let (_, _, closed, _) = handle_error_frame failed r in closed

pub finish_job-closed :
    (j : Job) (answer : Answer) (r : Runtime) → (finish_job j answer r).closed ≡ r.closed
unfolding finish_job heartbeat_failed
finish_job-closed (Job.claim_strict id req) answer r = enqueue-closed _ _ ∙ handle_error-closed _ r
finish_job-closed (Job.claim_normal id req) answer r = enqueue-closed _ _ ∙ handle_error-closed _ r
finish_job-closed (Job.execute_task id task) answer r = enqueue-closed _ r
finish_job-closed (Job.finalize_task id task err) answer r =
    enqueue-closed _ _ ∙ handle_error-closed _ r
finish_job-closed (Job.heartbeat worker_id) answer r = stays answer.err
  where
    stays : (failed : Option Err) → (heartbeat_failed failed r).closed ≡ r.closed
    stays none = refl
    stays (some err) = ground arith
finish_job-closed (Job.refresh worker_id request_id) answer r =
    enqueue-closed _ _ ∙ handle_error-closed _ r
finish_job-closed (Job.ack worker_id request_id version) answer r = handle_error-closed answer.err r

pub finish_job-engine :
    (j : Job) (answer : Answer) (r : Runtime) → (finish_job j answer r).engine ≡ r.engine
unfolding finish_job heartbeat_failed handle_error enqueue
finish_job-engine (Job.heartbeat worker_id) answer r = beats answer.err
  where
    beats : (failed : Option Err) → (heartbeat_failed failed r).engine ≡ r.engine
    beats none = refl
    beats (some err) = ground arith
finish_job-engine (Job.execute_task id task) answer r = ground arith
finish_job-engine (Job.ack worker_id request_id version) answer r =
    (handle_error_frame answer.err r).0
finish_job-engine (Job.claim_strict id req) answer r = report_engine (no_task_is_nil answer).err _ r
finish_job-engine (Job.claim_normal id req) answer r = report_engine (no_task_is_nil answer).err _ r
finish_job-engine (Job.finalize_task id task err) answer r = report_engine answer.err _ r
finish_job-engine (Job.refresh worker_id request_id) answer r = report_engine answer.err _ r
