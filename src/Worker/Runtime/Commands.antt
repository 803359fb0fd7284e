-- ===== src/Worker/Runtime/Commands.antt =====
-- No cycle is lost between the engine, its jobs and its inbox.
use anclax.Prelude.{
  ℕ, ◌+◌, ◌≡◌, refl, ◌∙◌, false≢true, Bool, true, false, List, [], ◌∷◌, ◌++◌, Option, none, some,
  arith, nat_eq,
}
use anclax.Errors.{Err}
use anclax.Worker.Types.{Phase, EventType, CommandType, Event, Command, Task}
use anclax.Worker.State.{Engine}
use anclax.Worker.Engine.{dispatch, apply}
use anclax.Worker.Engine.Tokens.{token, event_token, command_by, command_tokens}
use anclax.Worker.Runtime.{Job, Runtime, handle_error, exec_by, exec_command, exec_commands, spawn}

abbrev pub job_token : Phase → ℕ → Job → ℕ
job_token p k (Job.claim_strict id req) = token p k Phase.claim_strict id
job_token p k (Job.claim_normal id req) = token p k Phase.claim_normal id
job_token p k (Job.execute_task id task) = token p k Phase.executing id
job_token p k (Job.finalize_task id task err) = token p k Phase.finalizing id
job_token p k _ = 0

abbrev pub job_tokens : Phase → ℕ → List Job → ℕ
job_tokens p k [] = 0
job_tokens p k (j ∷ js) = job_token p k j + job_tokens p k js

abbrev pub inbox_tokens : Phase → ℕ → List Event → ℕ
inbox_tokens p k [] = 0
inbox_tokens p k (ev ∷ evs) = event_token p k ev + inbox_tokens p k evs

abbrev pub tokens : Phase → ℕ → Runtime → ℕ
tokens p k r = job_tokens p k r.jobs + inbox_tokens p k r.inbox

pub job_tokens-append :
    (p : Phase) (k : ℕ) (xs ys : List Job)
    → job_tokens p k (xs ++ ys) ≡ job_tokens p k xs + job_tokens p k ys
job_tokens-append p k [] ys = omega arith
job_tokens-append p k (x ∷ xs) ys = omega (arith, job_tokens-append p k xs ys)

pub inbox_tokens-append :
    (p : Phase) (k : ℕ) (xs ys : List Event)
    → inbox_tokens p k (xs ++ ys) ≡ inbox_tokens p k xs + inbox_tokens p k ys
inbox_tokens-append p k [] ys = omega arith
inbox_tokens-append p k (x ∷ xs) ys = omega (arith, inbox_tokens-append p k xs ys)

-- Commands that run a task carry it.
abbrev pub carries : CommandType → Option Task → Bool
carries CommandType.execute_task none = false
carries CommandType.finalize none = false
carries _ _ = true

abbrev pub Carry : List Command → Type 0
Carry [] = Unit {0}
Carry (c ∷ cs) = (carries c.type c.task ≡ true) × Carry cs

dispatch-Carry : (t : EventType) (e : Engine) (ev : Event) → Carry (dispatch t e ev).1
unfolding dispatch
dispatch-Carry EventType.poll_tick e ev = ground arith
dispatch-Carry _ e ev = ground arith

pub apply-Carry : (e : Engine) (ev : Event) → Carry (apply e ev).1
unfolding apply
apply-Carry e ev = dispatch-Carry ev.type e ev

-- What executing commands may do here: start the jobs that count as `n p k`, and touch neither the
-- engine nor the inbox.
abbrev pub Starts : (Phase → ℕ → ℕ) → Runtime → Runtime × List Event → Type 0
Starts n r out =
    (out.1 ≡ [])
    × (out.0.engine ≡ r.engine)
    × (out.0.inbox ≡ r.inbox)
    × (out.0.closed ≡ r.closed)
    × ((p : Phase) (k : ℕ) → job_tokens p k out.0.jobs ≡ job_tokens p k r.jobs + n p k)

spawn-Starts : (j : Job) (r : Runtime) → Starts (λ p k. job_token p k j) r (spawn j r)
spawn-Starts j r =
    (refl, refl, refl, refl, λ p k. omega (arith, job_tokens-append p k r.jobs (j ∷ [])))

pub handle_error_frame :
    (failed : Option Err) (r : Runtime)
    → ((handle_error failed r).engine ≡ r.engine)
      × ((handle_error failed r).inbox ≡ r.inbox)
      × ((handle_error failed r).closed ≡ r.closed)
      × ((handle_error failed r).jobs ≡ r.jobs)
unfolding handle_error
handle_error_frame failed r = (ground arith, ground arith, ground arith, ground arith)

exec_by-Starts :
    (t : CommandType) (failed : Option Err) (cmd : Command) (task : Option Task) (r : Runtime)
    → task ≡ cmd.task
    → carries t task ≡ true
    → Starts (λ p k. command_by p k t cmd.cycle_id) r (exec_by t failed cmd r)
unfolding exec_by
exec_by-Starts CommandType.claim_strict failed cmd task r e c = spawn-Starts _ r
exec_by-Starts CommandType.claim_normal failed cmd task r e c = spawn-Starts _ r
exec_by-Starts CommandType.execute_task failed cmd none r e c = absurd (false≢true c)
exec_by-Starts CommandType.execute_task failed cmd (some task) r e c =
    rw (← e, exec_by) (spawn-Starts (Job.execute_task cmd.cycle_id task) r)
exec_by-Starts CommandType.finalize failed cmd none r e c = absurd (false≢true c)
exec_by-Starts CommandType.finalize failed cmd (some task) r e c =
    rw (← e, exec_by) (spawn-Starts (Job.finalize_task cmd.cycle_id task cmd.exec_err) r)
exec_by-Starts CommandType.heartbeat failed cmd task r e c = spawn-Starts _ r
exec_by-Starts CommandType.refresh_runtime_config failed cmd task r e c = spawn-Starts _ r
exec_by-Starts CommandType.ack_runtime_config failed cmd task r e c = spawn-Starts _ r
exec_by-Starts CommandType.mark_offline failed cmd task r e c =
    let (same, inbox, closed, jobs) =
      handle_error_frame failed (record r { offline = r.offline + 1 }) in
    (refl, same, inbox, closed, λ p k. rw jobs (omega arith))

pub exec_commands-Starts :
    (failed : Option Err) (cmds : List Command) (r : Runtime)
    → Carry cmds
    → Starts (λ p k. command_tokens p k cmds) r (exec_commands failed cmds r)
unfolding exec_commands exec_command
exec_commands-Starts failed [] r c = (refl, refl, refl, refl, λ p k. omega arith)
exec_commands-Starts failed (cmd ∷ cmds) r c =
    let (none_now, e, i, l, j) = exec_by-Starts cmd.type failed cmd cmd.task r refl c.0 in
    let (none_later, e', i', l', j') =
      exec_commands-Starts failed cmds (exec_by cmd.type failed cmd r).0 c.1 in
    (rw (none_now, none_later) refl, e' ∙ e, i' ∙ i, l' ∙ l, λ p k. omega (arith, j p k, j' p k))
