-- ===== src/Worker/Engine/Accounting.antt =====
-- The engine's counters count its cycles: what every event keeps.
use anclax.Prelude.{
  ◌+◌, ◌^◌, ◌<◌, ◌≡◌, refl, sym, subst, inl, inr, true, List, [], some, arith, Option-cases,
  Bool-cases, nat_eq,
}
use anclax.Prelude.Dict.{lookup, lookup-insert_self}
use anclax.Prelude.Int.{ltb_ℤ}
use anclax.Worker.Types.{CycleState, Phase, Lane, EventType, Event, RuntimeConfig, Task, Command}
use anclax.Worker.State.{
  Engine, apply_runtime_config, next_normal_claim_groups, finish_cycle, claim_groups,
}
use anclax.Worker.Engine.{
  execute_task, dispatch, fall_back_to_normal, claim_strict_outcome, claim_normal_outcome,
  execute_outcome, on_runtime_config_loaded, same_phase, in_phase, apply,
}
use anclax.Worker.Engine.Cycles.{
  length-insert_old, is_coherent, CycleOk, AllCycles-lookup, AllCycles-insert,
}
use anclax.Worker.Engine.Slots.{
  Inv, finish_cycle-Inv, put_cycle-Inv, issue_next_normal_claim-Inv, on_poll_tick-Inv,
}

execute_task-Inv :
    (e : Engine) (c : CycleState) (t : Task)
    → lookup c.id e.cycles ≡ some c
    → Inv e
    → Inv (execute_task e c t).0
unfolding execute_task is_coherent
execute_task-Inv e c t h v =
    put_cycle-Inv e (record c { task = some t; phase = Phase.executing }) c h refl refl v

-- A strict cycle that found no task gives its strict slot back and goes on in the normal lane.
fall_back_to_normal-Inv :
    (e : Engine) (c : CycleState)
    → lookup c.id e.cycles ≡ some c
    → c.lane ≡ Lane.strict
    → Inv e
    → Inv (fall_back_to_normal e c).0
unfolding fall_back_to_normal next_normal_claim_groups is_coherent
fall_back_to_normal-Inv e c h l v =
    issue_next_normal_claim-Inv _ cycle (lookup-insert_self cycle.id cycle e.cycles) (record {
      counted = ground (arith, length-insert_old c.id cycle c e.cycles);
      strict_counted = ground (arith, length-insert_old c.id cycle c e.cycles);
      capped = v.capped;
      tracked =
          AllCycles-insert e.next_cycle_id c.id cycle e.cycles
            (AllCycles-lookup e.next_cycle_id c.id c e.cycles v.tracked h).0 refl refl v.tracked;
    })
  where
    cycle : CycleState
    cycle = record c {
      lane = Lane.normal;
      phase = Phase.claim_normal;
      pending_groups = claim_groups e.normal_claim_wheel e.normal_claim_cursor;
      weighted_labels = e.weighted_labels;
    }

same_phase-eq : (p q : Phase) → same_phase p q ≡ true → p ≡ q
same_phase-eq p q h = ground arith

strict_lane : (c : CycleState) → c.phase ≡ Phase.claim_strict → CycleOk c → c.lane ≡ Lane.strict
unfolding is_coherent
strict_lane c p o = ground arith

-- A result handler acts on a stored cycle in the phase that it handles, or not at all.
in_phase-Inv :
    (phase : Phase) (handle : Engine → CycleState → Event → Engine × List Command) (e : Engine)
    (ev : Event)
    → ((c : CycleState)
        → lookup ev.cycle_id e.cycles ≡ some c
        → lookup c.id e.cycles ≡ some c
        → c.phase ≡ phase
        → Inv (handle e c ev).0)
    → Inv e
    → Inv (in_phase phase handle e ev).0
unfolding in_phase
in_phase-Inv phase handle e ev keep v = elim (Option-cases (lookup ev.cycle_id e.cycles)) [
  | inl missing ↦ rw (missing, in_phase) v
  | inr (c, found) ↦
      rw (found, in_phase)
        (elim (Bool-cases (same_phase c.phase phase)) [
          | inl same ↦ rw same (keep c found (stored c found) (same_phase-eq c.phase phase same))
          | inr differs ↦ rw differs v
        ])
]
  where
    stored : (c : CycleState) → lookup ev.cycle_id e.cycles ≡ some c → lookup c.id e.cycles ≡ some c
    stored c found =
        subst (λ k. lookup k e.cycles ≡ some c)
          (sym (AllCycles-lookup e.next_cycle_id ev.cycle_id c e.cycles v.tracked found).1) found

claim_strict_outcome-Inv :
    (e : Engine) (ev : Event) (c : CycleState)
    → lookup c.id e.cycles ≡ some c
    → c.phase ≡ Phase.claim_strict
    → Inv e
    → Inv (claim_strict_outcome e c ev).0
unfolding claim_strict_outcome
claim_strict_outcome-Inv e ev c h p v = elim (Option-cases ev.err) [
  | inr (x, failed) ↦ rw (failed, claim_strict_outcome) (finish_cycle-Inv e ev.cycle_id v)
  | inl fine ↦ elim (Option-cases ev.task) [
    | inl nothing ↦
        rw (fine, nothing, claim_strict_outcome)
          (fall_back_to_normal-Inv e c h
            (strict_lane c p (AllCycles-lookup e.next_cycle_id c.id c e.cycles v.tracked h).2) v)
    | inr (t, found) ↦ rw (fine, found, claim_strict_outcome) (execute_task-Inv e c t h v)
  ]
]

claim_normal_outcome-Inv :
    (e : Engine) (ev : Event) (c : CycleState)
    → lookup c.id e.cycles ≡ some c
    → Inv e
    → Inv (claim_normal_outcome e c ev).0
unfolding claim_normal_outcome
claim_normal_outcome-Inv e ev c h v = elim (Option-cases ev.err) [
  | inr (x, failed) ↦ rw (failed, claim_normal_outcome) (finish_cycle-Inv e ev.cycle_id v)
  | inl fine ↦ elim (Option-cases ev.task) [
    | inl nothing ↦ rw (fine, nothing, claim_normal_outcome) (issue_next_normal_claim-Inv e c h v)
    | inr (t, found) ↦ rw (fine, found, claim_normal_outcome) (execute_task-Inv e c t h v)
  ]
]

execute_outcome-Inv :
    (e : Engine) (ev : Event) (c : CycleState)
    → lookup c.id e.cycles ≡ some c
    → Inv e
    → Inv (execute_outcome e c ev).0
unfolding execute_outcome is_coherent
execute_outcome-Inv e ev c h v = elim (Option-cases c.task) [
  | inl nothing ↦ rw (nothing, execute_outcome) (finish_cycle-Inv e ev.cycle_id v)
  | inr (t, kept) ↦
      rw (kept, execute_outcome)
        (put_cycle-Inv e (record c { phase = Phase.finalizing }) c h refl (rw kept refl) v)
]

pub apply_runtime_config-Inv :
    (e : Engine) (cfg : RuntimeConfig) → Inv e → Inv (apply_runtime_config e cfg)
unfolding apply_runtime_config
apply_runtime_config-Inv e cfg v = record {
  counted = v.counted;
  strict_counted = v.strict_counted;
  capped = v.capped;
  tracked = v.tracked;
}

on_runtime_config_loaded-Inv :
    (e : Engine) (ev : Event) → Inv e → Inv (on_runtime_config_loaded e ev).0
unfolding on_runtime_config_loaded
on_runtime_config_loaded-Inv e ev v = elim (Option-cases ev.err) [
  | inr (x, failed) ↦ rw (failed, on_runtime_config_loaded) v
  | inl fine ↦ elim (Option-cases ev.config) [
    | inl nothing ↦ rw (fine, nothing, on_runtime_config_loaded) v
    | inr (cfg, loaded) ↦
        rw (fine, loaded, on_runtime_config_loaded)
          (elim (Bool-cases (ltb_ℤ e.runtime_config_version cfg.version)) [
            | inl newer ↦ rw newer (apply_runtime_config-Inv e cfg v)
            | inr older ↦ rw older v
          ])
  ]
]

stop-Inv : (e : Engine) (ev : Event) → Inv e → Inv (dispatch EventType.stop e ev).0
unfolding dispatch
stop-Inv e ev v = elim (Bool-cases e.stopped) [
  | inl already ↦ simp already v
  | inr running ↦ simp running (record {
    counted = v.counted;
    strict_counted = v.strict_counted;
    capped = v.capped;
    tracked = v.tracked;
  })
]

dispatch-Inv :
    (t : EventType) (e : Engine) (ev : Event)
    → e.next_cycle_id + 1 < 2 ^ 64
    → Inv e
    → Inv (dispatch t e ev).0
unfolding dispatch
dispatch-Inv EventType.poll_tick e ev h v = on_poll_tick-Inv e h v
dispatch-Inv EventType.claim_strict_result e ev h v =
    in_phase-Inv Phase.claim_strict claim_strict_outcome e ev
      (λ c _ s p. claim_strict_outcome-Inv e ev c s p v) v
dispatch-Inv EventType.claim_normal_result e ev h v =
    in_phase-Inv Phase.claim_normal claim_normal_outcome e ev
      (λ c _ s _. claim_normal_outcome-Inv e ev c s v) v
dispatch-Inv EventType.execute_result e ev h v =
    in_phase-Inv Phase.executing execute_outcome e ev (λ c _ s _. execute_outcome-Inv e ev c s v) v
dispatch-Inv EventType.finalize_result e ev h v =
    in_phase-Inv Phase.finalizing (λ e cycle ev. (finish_cycle e ev.cycle_id, [])) e ev
      (λ c _ _ _. finish_cycle-Inv e ev.cycle_id v) v
dispatch-Inv EventType.runtime_config_loaded e ev h v = on_runtime_config_loaded-Inv e ev v
dispatch-Inv EventType.stop e ev h v = stop-Inv e ev v
dispatch-Inv _ e ev h v = v

-- Every event, whatever it holds, keeps the accounting, as long as the 64-bit cycle counter does
-- not wrap: the running cycles are counted by `in_flight`, those in the strict lane by
-- `strict_in_flight`, there are at most `concurrency` of them, each under its own id, and a cycle
-- past its claim has a task.
pub apply-Inv :
    (e : Engine) (ev : Event) → e.next_cycle_id + 1 < 2 ^ 64 → Inv e → Inv (apply e ev).0
unfolding apply
apply-Inv e ev h v = dispatch-Inv ev.type e ev h v
