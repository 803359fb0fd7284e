-- ===== src/Worker/Engine/Slots.antt =====
-- The invariant of the engine's counters, and how the slots of pkg/taskcore/worker/engine.go keep it.
use anclax.Prelude.{
  ℕ, ◌+◌, ◌^◌, ◌≤◌, ◌<◌, ◌≡◌, refl, inl, inr, ◌||◌, List, [], ◌∷◌, String, none, some, arith,
  length, Option-cases, Bool-cases, ltb, leb, nat_eq,
}
use anclax.Prelude.Dict.{lookup, insert, lookup-insert_self}
use anclax.Worker.Types.{CycleState, Phase, Lane, EngineConfig}
use anclax.Worker.State.{
  Engine, new_engine, next_normal_claim_groups, finish_cycle, put_cycle, issue_next_normal_claim,
  issue_groups, claim_groups, next_cursor,
}
use anclax.Worker.Engine.{start_strict, start_normal, on_poll_tick, open_slot, next_id}
use anclax.Worker.Engine.Cycles.{
  strict_cycles, strict_slot, length-insert_new, length-insert_old, length-erase, is_coherent,
  CycleOk, AllCycles, AllCycles-mono, AllCycles-lookup, AllCycles-fresh, AllCycles-insert,
  AllCycles-erase,
}

pub record Inv (e : Engine) : Type 0 where
  pub counted : e.in_flight ≡ length e.cycles
  pub strict_counted : e.strict_in_flight ≡ strict_cycles e.cycles
  pub capped : e.in_flight ≤ e.concurrency
  pub tracked : AllCycles e.next_cycle_id e.cycles

pub new_engine-Inv : (cfg : EngineConfig) → Inv (new_engine cfg)
unfolding new_engine strict_cycles
new_engine-Inv cfg = record {
  counted = refl;
  strict_counted = refl;
  capped = omega arith;
  tracked = tt;
}

pub finish_cycle-Inv : (e : Engine) (k : ℕ) → Inv e → Inv (finish_cycle e k)
unfolding finish_cycle
finish_cycle-Inv e k v = elim (Option-cases (lookup k e.cycles)) [
  | inl h ↦ rw (h, finish_cycle) v
  | inr (d, h) ↦
      rw (h, finish_cycle)
        (record {
          counted = ground (arith, length-erase k d e.cycles);
          strict_counted = ground (arith, length-erase k d e.cycles);
          capped = ground arith;
          tracked = AllCycles-erase e.next_cycle_id k e.cycles v.tracked;
        })
]

-- A cycle that is put back in the lane of the one it replaces.
pub put_cycle-Inv :
    (e : Engine) (c d : CycleState)
    → lookup c.id e.cycles ≡ some d
    → c.lane ≡ d.lane
    → CycleOk c
    → Inv e
    → Inv (put_cycle e c)
put_cycle-Inv e c d h l o v = record {
  counted = ground (arith, length-insert_old c.id c d e.cycles);
  strict_counted = ground (arith, length-insert_old c.id c d e.cycles);
  capped = v.capped;
  tracked =
      AllCycles-insert e.next_cycle_id c.id c e.cycles
        (AllCycles-lookup e.next_cycle_id c.id d e.cycles v.tracked h).0 refl o v.tracked;
}

pub issue_next_normal_claim-Inv :
    (e : Engine) (c : CycleState)
    → lookup c.id e.cycles ≡ some c
    → Inv e
    → Inv (issue_next_normal_claim e c).0
unfolding issue_next_normal_claim is_coherent
issue_next_normal_claim-Inv e c h v = issue c.pending_groups
  where
    issue : (gs : List String) → Inv (issue_groups e c gs).0
    issue [] = finish_cycle-Inv e c.id v
    issue (g ∷ gs) =
        put_cycle-Inv e (record c { pending_groups = gs }) c h refl
          (AllCycles-lookup e.next_cycle_id c.id c e.cycles v.tracked h).2 v

-- A new cycle under the next id.
open_cycle-Inv :
    (e : Engine) (c : CycleState) (cursor strict : ℕ)
    → strict ≡ e.strict_in_flight + strict_slot c
    → c.id ≡ e.next_cycle_id + 1
    → CycleOk c
    → e.in_flight < e.concurrency
    → Inv e
    → Inv (record e {
      next_cycle_id = c.id;
      in_flight = e.in_flight + 1;
      strict_in_flight = strict;
      normal_claim_cursor = cursor;
      cycles = insert c.id c e.cycles;
    })
open_cycle-Inv e c cursor strict n i o room v = record {
  counted = omega (arith, v.counted, (length-insert_new c.id c e.cycles fresh).0);
  strict_counted = omega (arith, v.strict_counted, (length-insert_new c.id c e.cycles fresh).1);
  capped = omega arith;
  tracked =
      AllCycles-insert c.id c.id c e.cycles (omega arith) refl o
        (AllCycles-mono e.next_cycle_id c.id e.cycles (omega arith) v.tracked);
}
  where
    fresh : lookup c.id e.cycles ≡ none
    fresh = AllCycles-fresh e.next_cycle_id c.id e.cycles v.tracked (omega arith)

start_strict-Inv :
    (e : Engine)
    → e.next_cycle_id + 1 < 2 ^ 64
    → e.in_flight < e.concurrency
    → Inv e
    → Inv (start_strict (open_slot e) (next_id e.next_cycle_id)).0
unfolding start_strict is_coherent
start_strict-Inv e h room v =
    open_cycle-Inv e
      (record {
        id = next_id e.next_cycle_id;
        lane = Lane.strict;
        phase = Phase.claim_strict;
        task = none;
        pending_groups = [];
        weighted_labels = [];
      })
      e.normal_claim_cursor (e.strict_in_flight + 1) refl (omega arith) refl room v

start_normal-Inv :
    (e : Engine)
    → e.next_cycle_id + 1 < 2 ^ 64
    → e.in_flight < e.concurrency
    → Inv e
    → Inv (start_normal (open_slot e) (next_id e.next_cycle_id)).0
unfolding start_normal next_normal_claim_groups is_coherent
start_normal-Inv e h room v =
    issue_next_normal_claim-Inv _ cycle (lookup-insert_self cycle.id cycle e.cycles) (
      open_cycle-Inv e cycle (next_cursor e.normal_claim_cursor e.normal_claim_wheel)
        e.strict_in_flight (omega arith) (omega arith) refl room v)
  where
    cycle : CycleState
    cycle = record {
      id = next_id e.next_cycle_id;
      lane = Lane.normal;
      phase = Phase.claim_normal;
      task = none;
      pending_groups = claim_groups e.normal_claim_wheel e.normal_claim_cursor;
      weighted_labels = e.weighted_labels;
    }

pub on_poll_tick-Inv : (e : Engine) → e.next_cycle_id + 1 < 2 ^ 64 → Inv e → Inv (on_poll_tick e).0
unfolding on_poll_tick
on_poll_tick-Inv e h v = elim (Bool-cases (e.stopped || leb e.concurrency e.in_flight)) [
  | inl busy ↦ rw busy v
  | inr free ↦ rw free (elim (Bool-cases (ltb e.strict_in_flight e.strict_cap)) [
    | inl strict ↦ rw strict (start_strict-Inv e h (ground arith) v)
    | inr normal ↦ rw normal (start_normal-Inv e h (ground arith) v)
  ])
]
