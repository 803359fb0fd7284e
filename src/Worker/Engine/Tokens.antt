-- ===== src/Worker/Engine/Tokens.antt =====
-- The work that is under way for each cycle: the jobs and events that carry it.
use anclax.Prelude.{
  ℕ, ◌+◌, ◌^◌, ◌<◌, ◌≡◌, refl, subst, inl, inr, ◌&&◌, ◌||◌, String, List, [], ◌∷◌, none, some,
  arith, Bool-cases, if◌then◌else◌, ltb, leb, nat_eq, ◌==◌,
}
use anclax.Prelude.Dict.{lookup, insert, erase, lookup-insert, lookup-insert_self}
use anclax.Worker.Types.{Phase, Lane, EventType, CommandType, CycleState, Event, Command, Task}
use anclax.Worker.State.{
  Engine, next_normal_claim_groups, finish_cycle, put_cycle, issue_groups, issue_next_normal_claim,
  claim_groups, next_cursor, release_one,
}
use anclax.Worker.Engine.{
  open_slot, next_id, start_strict, start_normal, on_poll_tick, execute_task, fall_back_to_normal,
  same_phase,
}
use anclax.Worker.Engine.Cycles.{
  Cycles, AllCycles, AllCycles-lookup, AllCycles-fresh, AllCycles-mono, AllCycles-insert,
  is_coherent,
}

-- Does a token of phase `q` and cycle `id` count for phase `p` of cycle `k`?
abbrev pub token : Phase → ℕ → Phase → ℕ → ℕ
token p k q id = if id == k && same_phase q p then 1 else 0

abbrev pub event_by : Phase → ℕ → EventType → ℕ → ℕ
event_by p k EventType.claim_strict_result id = token p k Phase.claim_strict id
event_by p k EventType.claim_normal_result id = token p k Phase.claim_normal id
event_by p k EventType.execute_result id = token p k Phase.executing id
event_by p k EventType.finalize_result id = token p k Phase.finalizing id
event_by p k _ id = 0

abbrev pub event_token : Phase → ℕ → Event → ℕ
event_token p k ev = event_by p k ev.type ev.cycle_id

abbrev pub command_by : Phase → ℕ → CommandType → ℕ → ℕ
command_by p k CommandType.claim_strict id = token p k Phase.claim_strict id
command_by p k CommandType.claim_normal id = token p k Phase.claim_normal id
command_by p k CommandType.execute_task id = token p k Phase.executing id
command_by p k CommandType.finalize id = token p k Phase.finalizing id
command_by p k _ id = 0

abbrev pub command_tokens : Phase → ℕ → List Command → ℕ
command_tokens p k [] = 0
command_tokens p k (c ∷ cs) = command_by p k c.type c.cycle_id + command_tokens p k cs

-- One token for each running cycle, in its phase.
unfoldable pub expected : Phase → ℕ → Cycles → ℕ
expected p k cycles = elim (lookup k cycles) [
  | none ↦ 0
  | some c ↦ if same_phase c.phase p then 1 else 0
]

expected-insert :
    (p : Phase) (k id : ℕ) (c : CycleState) (m : Cycles)
    → expected p k (insert id c m)
      ≡ (if id == k then (if same_phase c.phase p then 1 else 0) else expected p k m)
unfolding expected
expected-insert p k id c m = rw (lookup-insert id k c m, expected) (ground arith)

lookup-erase :
    (top k id : ℕ) (m : Cycles)
    → AllCycles top m
    → lookup k (erase id m) ≡ (if id == k then none else lookup k m)
unfolding lookup erase
lookup-erase top k id [] s = ground arith
lookup-erase top k id ((j, d) ∷ m) s = ground (arith, lookup-erase top k id m s.4)

expected-erase :
    (top : ℕ) (p : Phase) (k id : ℕ) (m : Cycles)
    → AllCycles top m
    → expected p k (erase id m) ≡ (if id == k then 0 else expected p k m)
unfolding expected
expected-erase top p k id m s = rw (lookup-erase top k id m s, expected) (ground arith)

expected-at :
    (p : Phase) (k id : ℕ) (c : CycleState) (m : Cycles)
    → lookup id m ≡ some c
    → id ≡ k
    → expected p k m ≡ (if same_phase c.phase p then 1 else 0)
unfolding expected
expected-at p k id c m h e = rw (← e) (rw (h, expected) refl)

-- What an operation leaves: the tokens that were there, without the one it takes, with those it issues.
abbrev pub Moves : Phase → ℕ → Engine → Engine × List Command → ℕ → Type 0
Moves p k e out taken =
    expected p k e.cycles + command_tokens p k out.1 ≡ expected p k out.0.cycles + taken

pub finish_cycle-Moves :
    (p : Phase) (k id : ℕ) (e : Engine) (c : CycleState)
    → AllCycles e.next_cycle_id e.cycles
    → lookup id e.cycles ≡ some c
    → Moves p k e (finish_cycle e id, []) (token p k c.phase id)
unfolding finish_cycle
finish_cycle-Moves p k id e c v h =
    rw (h, finish_cycle)
      (ground
        (arith, expected-erase e.next_cycle_id p k id e.cycles v, expected-at p k id c e.cycles h))

pub put_cycle-Moves :
    (p : Phase) (k : ℕ) (e : Engine) (c d : CycleState)
    → lookup c.id e.cycles ≡ some d
    → expected p k e.cycles + token p k c.phase c.id
      ≡ expected p k (insert c.id c e.cycles) + token p k d.phase c.id
put_cycle-Moves p k e c d h =
    ground (arith, expected-insert p k c.id c e.cycles, expected-at p k c.id d e.cycles h)

pub issue-Moves :
    (p : Phase) (k : ℕ) (e : Engine) (c : CycleState)
    → AllCycles e.next_cycle_id e.cycles
    → lookup c.id e.cycles ≡ some c
    → c.phase ≡ Phase.claim_normal
    → Moves p k e (issue_next_normal_claim e c) (token p k Phase.claim_normal c.id)
unfolding issue_next_normal_claim
issue-Moves p k e c v h q = issue c.pending_groups
  where
    issue :
        (gs : List String) → Moves p k e (issue_groups e c gs) (token p k Phase.claim_normal c.id)
    issue [] =
        subst (λ x. Moves p k e (finish_cycle e c.id, []) (token p k x c.id)) q
          (finish_cycle-Moves p k c.id e c v h)
    issue (g ∷ gs) = omega (arith, put_cycle-Moves p k e (record c { pending_groups = gs }) c h)

-- A cycle under a new id.
open-Moves :
    (p : Phase) (k : ℕ) (e : Engine) (c : CycleState)
    → AllCycles e.next_cycle_id e.cycles
    → c.id ≡ e.next_cycle_id + 1
    → expected p k e.cycles + token p k c.phase c.id ≡ expected p k (insert c.id c e.cycles)
unfolding expected
open-Moves p k e c v i =
    ground
      (arith, expected-insert p k c.id c e.cycles, AllCycles-fresh e.next_cycle_id c.id e.cycles v)

start_strict-Moves :
    (p : Phase) (k : ℕ) (e : Engine)
    → e.next_cycle_id + 1 < 2 ^ 64
    → AllCycles e.next_cycle_id e.cycles
    → Moves p k e (start_strict (open_slot e) (next_id e.next_cycle_id)) 0
unfolding start_strict
start_strict-Moves p k e h v = omega (
  arith,
  open-Moves p k e
      (record {
        id = next_id e.next_cycle_id;
        lane = Lane.strict;
        phase = Phase.claim_strict;
        task = none;
        pending_groups = [];
        weighted_labels = [];
      })
      v,
)

-- A cycle that is put into the map and then issues its first normal claim.
put_issue-Moves :
    (p : Phase) (k : ℕ) (e : Engine) (c : CycleState)
    → AllCycles e.next_cycle_id (insert c.id c e.cycles)
    → c.phase ≡ Phase.claim_normal
    → expected p k (insert c.id c e.cycles)
        + command_tokens p k (issue_next_normal_claim (put_cycle e c) c).1
      ≡ expected p k (issue_next_normal_claim (put_cycle e c) c).0.cycles
        + token p k Phase.claim_normal c.id
put_issue-Moves p k e c v q =
    issue-Moves p k (put_cycle e c) c v (lookup-insert_self c.id c e.cycles) q

start_normal-Moves :
    (p : Phase) (k : ℕ) (e : Engine)
    → e.next_cycle_id + 1 < 2 ^ 64
    → AllCycles e.next_cycle_id e.cycles
    → Moves p k e (start_normal (open_slot e) (next_id e.next_cycle_id)) 0
unfolding start_normal next_normal_claim_groups is_coherent
start_normal-Moves p k e h v = omega (
  arith,
  open-Moves p k e cycle v (omega arith),
  put_issue-Moves p k
      (record (open_slot e) {
        normal_claim_cursor = next_cursor e.normal_claim_cursor e.normal_claim_wheel;
      })
      cycle
      (AllCycles-insert cycle.id cycle.id cycle e.cycles (omega arith) refl refl
        (AllCycles-mono e.next_cycle_id cycle.id e.cycles (omega arith) v))
      refl,
)
  where
    cycle : CycleState
    cycle = record {
      id = next_id e.next_cycle_id;
      lane = Lane.normal;
      phase = Phase.claim_normal;
      task = none;
      pending_groups = claim_groups e.normal_claim_wheel e.normal_claim_cursor;
      weighted_labels = e.weighted_labels;
    }

pub on_poll_tick-Moves :
    (p : Phase) (k : ℕ) (e : Engine)
    → e.next_cycle_id + 1 < 2 ^ 64
    → AllCycles e.next_cycle_id e.cycles
    → Moves p k e (on_poll_tick e) 0
unfolding on_poll_tick
on_poll_tick-Moves p k e h v = elim (Bool-cases (e.stopped || leb e.concurrency e.in_flight)) [
  | inl busy ↦ rw busy (omega arith)
  | inr free ↦ rw free (elim (Bool-cases (ltb e.strict_in_flight e.strict_cap)) [
    | inl strict ↦ rw strict (start_strict-Moves p k e h v)
    | inr normal ↦ rw normal (start_normal-Moves p k e h v)
  ])
]

pub execute_task-Moves :
    (p : Phase) (k : ℕ) (e : Engine) (c : CycleState) (t : Task)
    → lookup c.id e.cycles ≡ some c
    → Moves p k e (execute_task e c t) (token p k c.phase c.id)
unfolding execute_task
execute_task-Moves p k e c t h =
    omega (arith, put_cycle-Moves p k e (record c { task = some t; phase = Phase.executing }) c h)

pub fall_back_to_normal-Moves :
    (p : Phase) (k : ℕ) (e : Engine) (c : CycleState)
    → AllCycles e.next_cycle_id e.cycles
    → lookup c.id e.cycles ≡ some c
    → Moves p k e (fall_back_to_normal e c) (token p k c.phase c.id)
unfolding fall_back_to_normal next_normal_claim_groups is_coherent
fall_back_to_normal-Moves p k e c v h = omega (
  arith,
  put_cycle-Moves p k e cycle c h,
  put_issue-Moves p k
      (record e {
        strict_in_flight = release_one e.strict_in_flight;
        normal_claim_cursor = next_cursor e.normal_claim_cursor e.normal_claim_wheel;
      })
      cycle
      (AllCycles-insert e.next_cycle_id c.id cycle e.cycles
        (AllCycles-lookup e.next_cycle_id c.id c e.cycles v h).0 refl refl v)
      refl,
)
  where
    cycle : CycleState
    cycle = record c {
      lane = Lane.normal;
      phase = Phase.claim_normal;
      pending_groups = claim_groups e.normal_claim_wheel e.normal_claim_cursor;
      weighted_labels = e.weighted_labels;
    }
