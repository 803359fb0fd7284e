-- ===== src/Worker/Engine/Flow.antt =====
-- Every event takes its own token and issues those of the cycles that it moves on.
use anclax.Prelude.{
  ℕ, ◌+◌, ◌^◌, ◌≤◌, ◌<◌, ◌≡◌, sym, subst, inl, inr, true, List, [], some, arith, Option-cases,
  Bool-cases, nat_eq,
}
use anclax.Prelude.Dict.{lookup}
use anclax.Worker.Types.{Phase, EventType, CycleState, Event, Command}
use anclax.Worker.State.{Engine, finish_cycle, issue_next_normal_claim}
use anclax.Worker.Engine.{
  claim_strict_outcome, claim_normal_outcome, execute_outcome, on_runtime_config_loaded, same_phase,
  in_phase, dispatch, apply,
}
use anclax.Worker.Engine.Cycles.{AllCycles, AllCycles-lookup}
use anclax.Worker.Engine.Tokens.{
  token, event_by, event_token, expected, Moves, finish_cycle-Moves, issue-Moves,
  on_poll_tick-Moves, execute_task-Moves, fall_back_to_normal-Moves, put_cycle-Moves,
}

abbrev pub Tracked : Engine → Type 0
Tracked e = AllCycles e.next_cycle_id e.cycles

-- The result handlers, at the cycle that the event names.
abbrev Handles : (Engine → CycleState → Event → Engine × List Command) → Phase → Type 0
Handles handle phase =
    (p : Phase) (k : ℕ) (e : Engine) (ev : Event) (c : CycleState)
    → Tracked e
    → lookup c.id e.cycles ≡ some c
    → c.id ≡ ev.cycle_id
    → c.phase ≡ phase
    → Moves p k e (handle e c ev) (token p k c.phase c.id)

finish-Handles : (phase : Phase) → Handles (λ e cycle ev. (finish_cycle e ev.cycle_id, [])) phase
finish-Handles phase p k e ev c v h i q =
    subst (λ x. Moves p k e (finish_cycle e x, []) (token p k c.phase c.id)) i
      (finish_cycle-Moves p k c.id e c v h)

claim_strict-Handles : Handles claim_strict_outcome Phase.claim_strict
unfolding claim_strict_outcome
claim_strict-Handles p k e ev c v h i q = elim (Option-cases ev.err) [
  | inr (x, failed) ↦
      rw (failed, claim_strict_outcome) (finish-Handles Phase.claim_strict p k e ev c v h i q)
  | inl fine ↦ elim (Option-cases ev.task) [
    | inl nothing ↦ rw (fine, nothing, claim_strict_outcome) (fall_back_to_normal-Moves p k e c v h)
    | inr (t, found) ↦ rw (fine, found, claim_strict_outcome) (execute_task-Moves p k e c t h)
  ]
]

claim_normal-Handles : Handles claim_normal_outcome Phase.claim_normal
unfolding claim_normal_outcome
claim_normal-Handles p k e ev c v h i q = elim (Option-cases ev.err) [
  | inr (x, failed) ↦
      rw (failed, claim_normal_outcome) (finish-Handles Phase.claim_normal p k e ev c v h i q)
  | inl fine ↦ elim (Option-cases ev.task) [
    | inl nothing ↦
        rw (fine, nothing, claim_normal_outcome)
          (subst (λ x. Moves p k e (issue_next_normal_claim e c) (token p k x c.id)) (sym q)
            (issue-Moves p k e c v h q))
    | inr (t, found) ↦ rw (fine, found, claim_normal_outcome) (execute_task-Moves p k e c t h)
  ]
]

execute-Handles : Handles execute_outcome Phase.executing
unfolding execute_outcome
execute-Handles p k e ev c v h i q = elim (Option-cases c.task) [
  | inl nothing ↦ rw (nothing, execute_outcome) (finish-Handles Phase.executing p k e ev c v h i q)
  | inr (t, kept) ↦
      rw (kept, execute_outcome)
        (omega (arith, put_cycle-Moves p k e (record c { phase = Phase.finalizing }) c h))
]

same_phase-eq : (p q : Phase) → same_phase p q ≡ true → p ≡ q
same_phase-eq p q h = ground arith

in_phase-Moves :
    (phase : Phase) (handle : Engine → CycleState → Event → Engine × List Command)
    → Handles handle phase
    → (p : Phase) (k : ℕ) (e : Engine) (ev : Event) → Tracked e
    → 1 ≤ expected phase ev.cycle_id e.cycles
    → Moves p k e (in_phase phase handle e ev) (token p k phase ev.cycle_id)
unfolding in_phase expected
in_phase-Moves phase handle works p k e ev v due =
    elim (Option-cases (lookup ev.cycle_id e.cycles)) [
      | inl missing ↦ absurd (ground arith)
      | inr (c, found) ↦ elim (Bool-cases (same_phase c.phase phase)) [
        | inr differs ↦ absurd (ground arith)
        | inl same ↦
            rw (found, in_phase) (rw same (take c found (same_phase-eq c.phase phase same)))
      ]
    ]
  where
    take :
        (c : CycleState)
        → lookup ev.cycle_id e.cycles ≡ some c
        → c.phase ≡ phase
        → Moves p k e (handle e c ev) (token p k phase ev.cycle_id)
    take c found q =
        let i = (AllCycles-lookup e.next_cycle_id ev.cycle_id c e.cycles v found).1 in
        subst (λ x. Moves p k e (handle e c ev) (token p k phase x)) i
          (subst (λ x. Moves p k e (handle e c ev) (token p k x c.id)) q
            (works p k e ev c v (subst (λ x. lookup x e.cycles ≡ some c) (sym i) found) i q))

on_runtime_config_loaded-Moves :
    (p : Phase) (k : ℕ) (e : Engine) (ev : Event) → Moves p k e (on_runtime_config_loaded e ev) 0
unfolding on_runtime_config_loaded
on_runtime_config_loaded-Moves p k e ev = ground arith

-- An event is due if it is no claim, execution or finalization result, or one of a cycle that is in
-- that phase.
abbrev pub IsDue : Event → Engine → Type 0
IsDue ev e = (p : Phase) (k : ℕ) → event_token p k ev ≤ expected p k e.cycles

due_at : (phase : Phase) (id n : ℕ) → (token phase id phase id ≤ n) → 1 ≤ n
due_at Phase.claim_strict id n h = ground arith
due_at Phase.claim_normal id n h = ground arith
due_at Phase.executing id n h = ground arith
due_at Phase.finalizing id n h = ground arith

dispatch-Moves :
    (t : EventType) (p : Phase) (k : ℕ) (e : Engine) (ev : Event)
    → e.next_cycle_id + 1 < 2 ^ 64
    → Tracked e
    → ((q : Phase) (j : ℕ) → event_by q j t ev.cycle_id ≤ expected q j e.cycles)
    → Moves p k e (dispatch t e ev) (event_by p k t ev.cycle_id)
unfolding dispatch
dispatch-Moves EventType.poll_tick p k e ev h v d = on_poll_tick-Moves p k e h v
dispatch-Moves EventType.claim_strict_result p k e ev h v d =
    in_phase-Moves Phase.claim_strict claim_strict_outcome claim_strict-Handles p k e ev v
      (due_at Phase.claim_strict ev.cycle_id _ (d Phase.claim_strict ev.cycle_id))
dispatch-Moves EventType.claim_normal_result p k e ev h v d =
    in_phase-Moves Phase.claim_normal claim_normal_outcome claim_normal-Handles p k e ev v
      (due_at Phase.claim_normal ev.cycle_id _ (d Phase.claim_normal ev.cycle_id))
dispatch-Moves EventType.execute_result p k e ev h v d =
    in_phase-Moves Phase.executing execute_outcome execute-Handles p k e ev v
      (due_at Phase.executing ev.cycle_id _ (d Phase.executing ev.cycle_id))
dispatch-Moves EventType.finalize_result p k e ev h v d =
    in_phase-Moves Phase.finalizing (λ e cycle ev. (finish_cycle e ev.cycle_id, []))
      (finish-Handles Phase.finalizing) p k e ev v
      (due_at Phase.finalizing ev.cycle_id _ (d Phase.finalizing ev.cycle_id))
dispatch-Moves EventType.runtime_config_loaded p k e ev h v d =
    on_runtime_config_loaded-Moves p k e ev
dispatch-Moves _ p k e ev h v d = ground arith

-- An event that is due, whatever else it holds, as long as the cycle counter does not wrap: for
-- each phase of each cycle, the commands that it issues are what the cycles gain over the token
-- that it takes.
pub apply-Moves :
    (p : Phase) (k : ℕ) (e : Engine) (ev : Event)
    → e.next_cycle_id + 1 < 2 ^ 64
    → Tracked e
    → IsDue ev e
    → Moves p k e (apply e ev) (event_token p k ev)
unfolding apply
apply-Moves p k e ev h v d = dispatch-Moves ev.type p k e ev h v d
