-- ===== src/Worker/Engine.antt =====
-- The claim engine of a worker: the handlers of pkg/taskcore/worker/engine.go. A method of `*Engine`
-- returns the new engine. Cycle ids wrap as int64 does.
pub mod Cycles
pub mod Slots
pub mod Accounting
pub mod StrictCap
pub mod Wheel
pub mod Weights
pub mod MapOrder
pub mod Lanes
pub mod Reach
pub mod Tokens
pub mod Flow
pub mod Groups
use anclax.Prelude.{
  ℕ, suc, ◌+◌, ◌-◌, ◌%◌, ◌^◌, Bool, true, false, ◌&&◌, ◌||◌, not, String, List, [], ◌∷◌, Option,
  none, some, ltb, leb, if◌then◌else◌, length, string_eq, nat_eq, str_eq, get_or,
}
use anclax.Prelude.Dict.{lookup, insert, erase}
use anclax.Prelude.Unique.{append_unique}
use anclax.Prelude.Int.{ℤ, pos, ltb_ℤ, pos_part}
use anclax.Worker.Types.{
  Phase, Lane, EventType, CommandType, Task, RuntimeConfig, Event, Command, command, EngineConfig,
  CycleState, Snapshot, default_weight_group,
}
use anclax.Worker.Config.{
  clamp_percentage, build_weights, weighted_of, wheel_of, strict_cap_for_percentage,
}
use anclax.Worker.State.{
  Engine, apply_runtime_config, next_normal_claim_groups, release_one, finish_cycle, put_cycle,
  issue_next_normal_claim,
}

-- int64, read as a number below 2^64.
abbrev pub next_id : ℕ → ℕ
next_id n = (n + 1) % 2 ^ 64

-- A claimed slot of the worker's concurrency, and the id of the cycle that takes it.
abbrev pub open_slot : Engine → Engine
open_slot e = record e { next_cycle_id = next_id e.next_cycle_id; in_flight = e.in_flight + 1 }

unfoldable pub start_strict : Engine → ℕ → Engine × List Command
start_strict e cycle_id = (
  put_cycle (record e { strict_in_flight = e.strict_in_flight + 1 })
      (record {
        id = cycle_id;
        lane = Lane.strict;
        phase = Phase.claim_strict;
        task = none;
        pending_groups = [];
        weighted_labels = [];
      }),
  record (command CommandType.claim_strict) { cycle_id = cycle_id } ∷ [],
)

unfoldable pub start_normal : Engine → ℕ → Engine × List Command
unfolding next_normal_claim_groups issue_next_normal_claim
start_normal e cycle_id =
    let (e', groups, weighted) = next_normal_claim_groups e in
    let cycle : CycleState = record {
      id = cycle_id;
      lane = Lane.normal;
      phase = Phase.claim_normal;
      task = none;
      pending_groups = groups;
      weighted_labels = weighted;
    } in
    issue_next_normal_claim (put_cycle e' cycle) cycle

unfoldable pub on_poll_tick : Engine → Engine × List Command
unfolding start_strict start_normal
on_poll_tick e =
    if e.stopped || leb e.concurrency e.in_flight
    then (e, [])
    else (let e' = open_slot e in
        if ltb e'.strict_in_flight e'.strict_cap
        then start_strict e' e'.next_cycle_id
        else start_normal e' e'.next_cycle_id)

unfoldable pub execute_task : Engine → CycleState → Task → Engine × List Command
execute_task e cycle task = (
  put_cycle e (record cycle { task = some task; phase = Phase.executing }),
  record (command CommandType.execute_task) { cycle_id = cycle.id; task = some task } ∷ [],
)

unfoldable pub fall_back_to_normal : Engine → CycleState → Engine × List Command
unfolding next_normal_claim_groups issue_next_normal_claim
fall_back_to_normal e cycle =
    let (e', groups, weighted) =
      next_normal_claim_groups (record e { strict_in_flight = release_one e.strict_in_flight }) in
    let cycle' = record cycle {
      lane = Lane.normal;
      phase = Phase.claim_normal;
      pending_groups = groups;
      weighted_labels = weighted;
    } in
    issue_next_normal_claim (put_cycle e' cycle') cycle'

unfoldable pub claim_strict_outcome : Engine → CycleState → Event → Engine × List Command
unfolding finish_cycle execute_task fall_back_to_normal
claim_strict_outcome e cycle ev = elim ev.err [
  | some x ↦ (finish_cycle e ev.cycle_id, [])
  | none ↦ elim ev.task [
    | none ↦ fall_back_to_normal e cycle
    | some task ↦ execute_task e cycle task
  ]
]

unfoldable pub claim_normal_outcome : Engine → CycleState → Event → Engine × List Command
unfolding finish_cycle execute_task issue_next_normal_claim
claim_normal_outcome e cycle ev = elim ev.err [
  | some x ↦ (finish_cycle e ev.cycle_id, [])
  | none ↦ elim ev.task [
    | none ↦ issue_next_normal_claim e cycle
    | some task ↦ execute_task e cycle task
  ]
]

unfoldable pub execute_outcome : Engine → CycleState → Event → Engine × List Command
unfolding finish_cycle
execute_outcome e cycle ev = elim cycle.task [
  | none ↦ (finish_cycle e ev.cycle_id, [])
  | some task ↦ (
    put_cycle e (record cycle { phase = Phase.finalizing }),
    record (command CommandType.finalize) {
      cycle_id = cycle.id;
      task = some task;
      exec_err = ev.exec_err;
    }
        ∷ [],
  )
]

-- Each result handler looks the cycle up and ignores it in another phase.
abbrev pub same_phase : Phase → Phase → Bool
same_phase Phase.claim_strict Phase.claim_strict = true
same_phase Phase.claim_normal Phase.claim_normal = true
same_phase Phase.executing Phase.executing = true
same_phase Phase.finalizing Phase.finalizing = true
same_phase _ _ = false

unfoldable pub in_phase :
    Phase
    → (Engine → CycleState → Event → Engine × List Command)
    → Engine
    → Event
    → Engine × List Command
in_phase phase handle e ev = elim (lookup ev.cycle_id e.cycles) [
  | none ↦ (e, [])
  | some cycle ↦ if same_phase cycle.phase phase then handle e cycle ev else (e, [])
]

unfoldable pub on_claim_strict_result : Engine → Event → Engine × List Command
unfolding in_phase claim_strict_outcome
on_claim_strict_result = in_phase Phase.claim_strict claim_strict_outcome

unfoldable pub on_claim_normal_result : Engine → Event → Engine × List Command
unfolding in_phase claim_normal_outcome
on_claim_normal_result = in_phase Phase.claim_normal claim_normal_outcome

unfoldable pub on_execute_result : Engine → Event → Engine × List Command
unfolding in_phase execute_outcome
on_execute_result = in_phase Phase.executing execute_outcome

unfoldable pub on_finalize_result : Engine → Event → Engine × List Command
unfolding in_phase finish_cycle
on_finalize_result = in_phase Phase.finalizing (λ e cycle ev. (finish_cycle e ev.cycle_id, []))

abbrev pub ack : Engine → Event → Command
ack e ev = record (command CommandType.ack_runtime_config) {
  request_id = ev.request_id;
  applied_version = e.runtime_config_version;
}

unfoldable pub on_runtime_config_loaded : Engine → Event → Engine × List Command
unfolding apply_runtime_config
on_runtime_config_loaded e ev = elim ev.err [
  | some x ↦ (e, [])
  | none ↦ elim ev.config [
    | none ↦ (e, if str_eq ev.request_id "" then [] else ack e ev ∷ [])
    | some cfg ↦
        (let e' =
            if ltb_ℤ e.runtime_config_version cfg.version then apply_runtime_config e cfg else e in
          (e', ack e' ev ∷ []))
  ]
]

abbrev pub refresh : Event → Command
refresh ev = record (command CommandType.refresh_runtime_config) { request_id = ev.request_id }

unfoldable pub unless_stopped : Engine → Command → Engine × List Command
unless_stopped e c = (e, if e.stopped then [] else c ∷ [])

-- The `switch` of `Apply`.
unfoldable pub dispatch : EventType → Engine → Event → Engine × List Command
unfolding on_poll_tick on_claim_strict_result on_claim_normal_result on_execute_result
    on_finalize_result on_runtime_config_loaded unless_stopped
dispatch EventType.poll_tick e ev = on_poll_tick e
dispatch EventType.claim_strict_result e ev = on_claim_strict_result e ev
dispatch EventType.claim_normal_result e ev = on_claim_normal_result e ev
dispatch EventType.execute_result e ev = on_execute_result e ev
dispatch EventType.finalize_result e ev = on_finalize_result e ev
dispatch EventType.heartbeat_tick e ev = unless_stopped e (command CommandType.heartbeat)
dispatch EventType.runtime_config_tick e ev = unless_stopped e (refresh ev)
dispatch EventType.runtime_config_notify e ev = unless_stopped e (refresh ev)
dispatch EventType.runtime_config_loaded e ev = on_runtime_config_loaded e ev
dispatch EventType.stop e ev =
    if e.stopped
    then (e, [])
    else (record e { stopped = true }, command CommandType.mark_offline ∷ [])
dispatch EventType.unknown e ev = (e, [])

unfoldable pub apply : Engine → Event → Engine × List Command
unfolding dispatch
apply e ev = dispatch ev.type e ev
