-- ===== src/Tests/Runtime.antt =====
-- Examples for pkg/taskcore/worker/runtime.go: a poll, a claim that finds no task, and its result.
use anclax.Prelude.{◌≡◌, refl, false, [], ◌∷◌, none, some, arith, nat_eq, str_eq, if◌then◌else◌}
use anclax.Prelude.Int.{pos}
use anclax.Prelude.Dict.{lookup, insert}
use anclax.Errors.{Err, Sentinel, errors_is}
use anclax.Worker.Types.{Phase, EventType, Event, event, EngineConfig}
use anclax.Worker.State.{new_engine, claim_groups}
use anclax.Worker.Engine.{apply, same_phase}
use anclax.Worker.Config.{
  strict_cap_for_percentage, clamp_percentage, wheel_of, build_weights, weighted_of,
}
use anclax.Prelude.Unique.{append_unique, contains}
use anclax.Worker.Runtime.{
  exec_commands, Job, Answer, Runtime, new_runtime, enqueue, finish_job, process, request, External,
  Step,
}
use anclax.Worker.Runtime.Commands.{tokens}
use anclax.Worker.Runtime.Balance.{after_event, process_lem}
use anclax.Worker.Runtime.Leaks.{Runs, idle-no_cycles, jobs-cycle}

abbrev one_slot : EngineConfig
one_slot = record {
  worker_id = "w1";
  labels = [];
  concurrency = pos 1;
  max_strict_percentage = pos 0;
  label_weights = [];
}

abbrev poll : Event
poll = event EventType.poll_tick

abbrev no_answer : Answer
no_answer = record { task = none; config = none; err = some (Err.sentinel Sentinel.no_task) }

abbrev started : Runtime
started = new_runtime (new_engine one_slot)

abbrev polled : Runtime
polled = enqueue poll started

abbrev claiming : Runtime
claiming = after_event none poll (record polled { inbox = [] })

abbrev claim : Job
claim =
    Job.claim_normal 1 (record {
      claim = request (new_engine one_slot);
      group = "__default__";
      weighted_labels = [];
    })

abbrev answered : Runtime
answered = finish_job claim no_answer (record claiming { jobs = [] })

abbrev claim_result : Event
claim_result = record (event EventType.claim_normal_result) { cycle_id = 1 }

abbrev idle : Runtime
idle = after_event none claim_result (record answered { inbox = [] })

polling : Runs one_slot 1 polled
polling = Runs.next Runs.start (Step.arrive poll started External.poll)

taken : Runs one_slot 2 claiming
unfolding enqueue
taken = Runs.next polling (
    Step.handle 1 none poll [] polled claiming refl refl
      (process_lem 0 none poll (record polled { inbox = [] })))

claiming_jobs : claiming.jobs ≡ claim ∷ []
unfolding enqueue new_engine apply exec_commands finish_job lookup errors_is
    strict_cap_for_percentage clamp_percentage claim_groups wheel_of build_weights insert str_eq
    append_unique contains weighted_of
claiming_jobs = refl

finished : Runs one_slot 3 answered
finished = Runs.next taken (Step.finish [] [] claim no_answer claiming claiming_jobs)

answered_inbox : (answered.inbox ≡ claim_result ∷ []) × (answered.closed ≡ false)
unfolding enqueue new_engine apply exec_commands finish_job lookup errors_is
    strict_cap_for_percentage clamp_percentage claim_groups wheel_of build_weights insert str_eq
    append_unique contains weighted_of
answered_inbox = (refl, refl)

done : Runs one_slot 4 idle
done = Runs.next finished (
    Step.handle 1 none claim_result [] answered idle answered_inbox.1 answered_inbox.0
      (process_lem 0 none claim_result (record answered { inbox = [] })))

idle_now : (idle.jobs ≡ []) × (idle.inbox ≡ []) × (idle.closed ≡ false)
unfolding enqueue new_engine apply exec_commands finish_job lookup errors_is
    strict_cap_for_percentage clamp_percentage claim_groups wheel_of build_weights insert str_eq
    append_unique contains weighted_of
idle_now = (refl, refl, refl)

idle_jobs : idle.jobs ≡ []
idle_jobs = idle_now.0

idle_inbox : idle.inbox ≡ []
idle_inbox = let (_, i, _) = idle_now in i

idle_open : idle.closed ≡ false
idle_open = let (_, _, c) = idle_now in c

idle-no_cycles_example :
    (idle.engine.cycles ≡ []) × (idle.engine.in_flight ≡ 0) × (idle.engine.strict_in_flight ≡ 0)
idle-no_cycles_example = idle-no_cycles done (omega arith) idle_open idle_jobs idle_inbox

claiming_open : claiming.closed ≡ false
unfolding enqueue new_engine apply exec_commands finish_job lookup errors_is
    strict_cap_for_percentage clamp_percentage claim_groups wheel_of build_weights insert str_eq
    append_unique contains weighted_of
claiming_open = refl

jobs-cycle_example :
    tokens Phase.claim_normal 1 claiming ≡ (elim (lookup 1 claiming.engine.cycles) [
      | none ↦ 0
      | some c ↦ if same_phase c.phase Phase.claim_normal then 1 else 0
    ])
jobs-cycle_example = jobs-cycle taken (omega arith) claiming_open Phase.claim_normal 1

process_lem_example : process 1 none (poll ∷ []) polled ≡ some (after_event none poll polled)
process_lem_example = process_lem 0 none poll polled
