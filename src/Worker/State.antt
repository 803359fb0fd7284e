-- ===== src/Worker/State.antt =====
-- The state of the claim engine of pkg/taskcore/worker/engine.go, its configuration, its claim groups
-- and its cycles. The counters are only decremented above zero, so they are ℕ.
use anclax.Prelude.{
  ℕ, suc, ◌+◌, ◌-◌, ◌%◌, Bool, true, false, ◌&&◌, not, String, List, [], ◌∷◌, none, some, ltb,
  if◌then◌else◌, length, string_eq, nat_eq, get_or,
}
use anclax.Prelude.Dict.{lookup, insert, erase}
use anclax.Prelude.Unique.{append_unique}
use anclax.Prelude.Int.{ℤ, pos, ltb_ℤ, pos_part}
use anclax.Worker.Types.{
  Lane, CommandType, RuntimeConfig, Command, command, EngineConfig, CycleState, Snapshot,
  default_weight_group,
}
use anclax.Worker.Config.{
  clamp_percentage, build_weights, weighted_of, wheel_of, strict_cap_for_percentage,
}

pub record Engine : Type 0 where
  pub worker_id : String
  pub labels : List String
  pub has_labels : Bool
  pub concurrency : ℕ
  pub stopped : Bool
  pub in_flight : ℕ
  pub strict_in_flight : ℕ
  pub strict_cap : ℕ
  pub runtime_config_version : ℤ
  pub max_strict_percentage : ℕ
  pub weighted_labels : List String
  pub normal_claim_wheel : List String
  pub normal_claim_cursor : ℕ
  pub next_cycle_id : ℕ
  pub cycles : List (ℕ × CycleState)

abbrev pub is_empty {ℓ} : {A : Type ℓ} → List A → Bool
is_empty [] = true
is_empty (x ∷ xs) = false

-- Not reached past the guards with an empty wheel.
abbrev pub cursor_in : ℕ → List String → ℕ
cursor_in cursor [] = 0
cursor_in cursor (g ∷ gs) = cursor % length (g ∷ gs)

unfoldable pub apply_runtime_config : Engine → RuntimeConfig → Engine
apply_runtime_config e cfg =
    let percentage = clamp_percentage cfg.max_strict_percentage in
    let weights = build_weights cfg.label_weights in
    let wheel = wheel_of weights in
    record e {
      runtime_config_version = cfg.version;
      max_strict_percentage = percentage;
      strict_cap = strict_cap_for_percentage e.concurrency percentage;
      weighted_labels = weighted_of weights;
      normal_claim_wheel = wheel;
      normal_claim_cursor = cursor_in e.normal_claim_cursor wheel;
    }

unfoldable pub new_engine : EngineConfig → Engine
unfolding apply_runtime_config
new_engine cfg =
    apply_runtime_config
      (record {
        worker_id = cfg.worker_id;
        labels = cfg.labels;
        has_labels = not (is_empty cfg.labels);
        concurrency = if ltb_ℤ cfg.concurrency (pos 1) then 1 else pos_part cfg.concurrency;
        stopped = false;
        in_flight = 0;
        strict_in_flight = 0;
        strict_cap = 0;
        runtime_config_version = pos 0;
        max_strict_percentage = 0;
        weighted_labels = [];
        normal_claim_wheel = [];
        normal_claim_cursor = 0;
        next_cycle_id = 0;
        cycles = [];
      })
      (record {
        version = pos 0;
        max_strict_percentage = some cfg.max_strict_percentage;
        label_weights = cfg.label_weights;
      })

unfoldable pub snapshot : Engine → Snapshot
snapshot e = record {
  worker_id = e.worker_id;
  stopped = e.stopped;
  in_flight = e.in_flight;
  strict_in_flight = e.strict_in_flight;
  strict_cap = e.strict_cap;
  runtime_config_version = e.runtime_config_version;
  max_strict_percentage = e.max_strict_percentage;
  weighted_labels = e.weighted_labels;
  normal_claim_wheel = e.normal_claim_wheel;
  normal_claim_wheel_cursor = e.normal_claim_cursor;
  active_cycles = length e.cycles;
}

-- The loop of `nextNormalClaimGroups`: `rounds` positions of the wheel from `at` on, round it.
unfoldable pub groups_from : List String → ℕ → ℕ → List String → List String
groups_from wheel at ℕ.zero groups = groups
groups_from wheel at (suc rounds) groups =
    groups_from wheel (at + 1) rounds
      (append_unique groups (get_or wheel (at % length wheel) default_weight_group))

unfoldable pub claim_groups : List String → ℕ → List String
unfolding groups_from
claim_groups [] start = default_weight_group ∷ []
claim_groups (g ∷ gs) start = groups_from (g ∷ gs) start (length (g ∷ gs)) []

abbrev pub next_cursor : ℕ → List String → ℕ
next_cursor cursor [] = cursor
next_cursor cursor (g ∷ gs) = (cursor + 1) % length (g ∷ gs)

unfoldable pub next_normal_claim_groups : Engine → Engine × List String × List String
next_normal_claim_groups e = (
  record e { normal_claim_cursor = next_cursor e.normal_claim_cursor e.normal_claim_wheel },
  claim_groups e.normal_claim_wheel e.normal_claim_cursor,
  e.weighted_labels,
)

abbrev pub is_strict : Lane → Bool
is_strict Lane.strict = true
is_strict Lane.normal = false

abbrev pub release_strict : Lane → ℕ → ℕ
release_strict lane n = if is_strict lane && ltb 0 n then n - 1 else n

abbrev pub release_one : ℕ → ℕ
release_one n = if ltb 0 n then n - 1 else n

unfoldable pub finish_cycle : Engine → ℕ → Engine
finish_cycle e cycle_id = elim (lookup cycle_id e.cycles) [
  | none ↦ e
  | some cycle ↦ record e {
    strict_in_flight = release_strict cycle.lane e.strict_in_flight;
    in_flight = release_one e.in_flight;
    cycles = erase cycle_id e.cycles;
  }
]

-- The engine's map holds pointers, so a change to a cycle is a change to the map.
abbrev pub put_cycle : Engine → CycleState → Engine
put_cycle e c = record e { cycles = insert c.id c e.cycles }

unfoldable pub issue_groups : Engine → CycleState → List String → Engine × List Command
unfolding finish_cycle
issue_groups e cycle [] = (finish_cycle e cycle.id, [])
issue_groups e cycle (group ∷ rest) = (
  put_cycle e (record cycle { pending_groups = rest }),
  record (command CommandType.claim_normal) {
    cycle_id = cycle.id;
    group = group;
    weighted_labels = cycle.weighted_labels;
  }
      ∷ [],
)

unfoldable pub issue_next_normal_claim : Engine → CycleState → Engine × List Command
unfolding issue_groups
issue_next_normal_claim e cycle = issue_groups e cycle cycle.pending_groups
