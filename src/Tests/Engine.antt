-- ===== src/Tests/Engine.antt =====
-- Examples for pkg/taskcore/worker/engine.go.
use anclax.Prelude.{
  ℕ, ◌+◌, ◌*◌, ◌^◌, ◌≤◌, ◌<◌, ◌≡◌, refl, subst, inl, inr, String, List, [], ◌∷◌, none, arith,
  length, string_eq, str_eq, str_eq_iff, nat_eq, Bool-cases,
}
use anclax.Prelude.Int.{ℤ, pos}
use anclax.Prelude.Dict.{lookup}
use anclax.Prelude.Sorting.{count}
use anclax.Worker.Types.{
  Phase, EventType, Event, event, EngineConfig, RuntimeConfig, default_weight_group,
  default_weight_config_key,
}
use anclax.Worker.State.{new_engine, apply_runtime_config}
use anclax.Worker.Engine.{apply}
use anclax.Worker.Config.{build_weights, weight_of, wheel_of, strict_cap_for_percentage}
use anclax.Worker.Engine.Slots.{Inv, new_engine-Inv}
use anclax.Worker.Engine.Tokens.{Moves, event_token}
use anclax.Worker.Engine.Flow.{Tracked, IsDue, apply-Moves}
use anclax.Worker.Engine.Lanes.{CursorOk}
use anclax.Worker.Engine.Reach.{Reach, Reach-Inv}
use anclax.Worker.Engine.Reach.Reach.{start, next}
use anclax.Worker.Engine.StrictCap.{strict_cap_ceiling}
use anclax.Worker.Engine.Weights.{NoRepeat, default_weight_by_order}
use anclax.Worker.Engine.MapOrder.{apply_runtime_config-same}
use anclax.Worker.Engine.Wheel.{wheel_of-weights}

-- Four slots, half of them for the strict lane, and a label of weight 3.
abbrev four_slots : EngineConfig
four_slots = record {
  worker_id = "w1";
  labels = "worker:w1" ∷ "gpu" ∷ [];
  concurrency = pos 4;
  max_strict_percentage = pos 50;
  label_weights = ("gpu", pos 3) ∷ ("default", pos 2) ∷ [];
}

abbrev poll : Event
poll = event EventType.poll_tick

new_engine_id : (new_engine four_slots).next_cycle_id + 1 < 2 ^ 64
unfolding new_engine
new_engine_id = omega arith

polled : Reach four_slots 1 (apply (new_engine four_slots) poll).0
polled = next start poll

Reach-Inv_example :
    Inv (apply (new_engine four_slots) poll).0 × CursorOk (apply (new_engine four_slots) poll).0
Reach-Inv_example = Reach-Inv polled (omega arith)

tracked : Tracked (new_engine four_slots)
tracked = (new_engine-Inv four_slots).tracked

due : IsDue poll (new_engine four_slots)
due p k = omega arith

apply-Moves_example :
    Moves Phase.claim_strict 1
      (new_engine four_slots)
      (apply (new_engine four_slots) poll)
      (event_token Phase.claim_strict 1 poll)
apply-Moves_example =
    apply-Moves Phase.claim_strict 1 (new_engine four_slots) poll new_engine_id tracked due

wheel_of-weights_example :
    ((g : String)
      → count g (wheel_of (build_weights (("gpu", pos 3) ∷ [])))
        ≡ weight_of (build_weights (("gpu", pos 3) ∷ [])) g)
    × (0 < count default_weight_group (wheel_of (build_weights (("gpu", pos 3) ∷ []))))
    × (0 < length (wheel_of (build_weights (("gpu", pos 3) ∷ []))))
wheel_of-weights_example = wheel_of-weights (("gpu", pos 3) ∷ [])

strict_cap_ceiling_example :
    let cap = strict_cap_for_percentage 4 30 in
    (4 * 30 ≤ 100 * cap)
    × (100 * cap < 4 * 30 + 100)
    × ((n : ℕ) → 4 * 30 ≤ 100 * n → cap ≤ n)
    × (cap ≤ 4)
strict_cap_ceiling_example = strict_cap_ceiling 4 30 (omega arith) (omega arith)

default_weight_by_order_example :
    (weight_of
        (build_weights (
          ("gpu", pos 3)
          ∷ (default_weight_config_key, pos 2)
          ∷ (default_weight_group, pos 5)
          ∷ ("cpu", pos 1)
          ∷ []))
        default_weight_group
      ≡ 5)
    × (weight_of
          (build_weights (
            ("gpu", pos 3)
            ∷ (default_weight_group, pos 5)
            ∷ (default_weight_config_key, pos 2)
            ∷ ("cpu", pos 1)
            ∷ []))
          default_weight_group
        ≡ 2)
unfolding str_eq
default_weight_by_order_example =
    default_weight_by_order (("gpu", pos 3) ∷ []) [] (("cpu", pos 1) ∷ []) 2 5 (omega arith)
      (omega arith) (refl, tt)

-- One map, in two orders.
abbrev a_first : List (String × ℤ)
a_first = ("a", pos 2) ∷ ("b", pos 3) ∷ []

abbrev b_first : List (String × ℤ)
b_first = ("b", pos 3) ∷ ("a", pos 2) ∷ []

one_map : (k : String) → lookup k a_first ≡ lookup k b_first
unfolding lookup str_eq
one_map k = elim (Bool-cases (str_eq "a" k)) [
  | inl e ↦ subst (λ j. lookup j a_first ≡ lookup j b_first) ((str_eq_iff "a" k).0 e) refl
  | inr e ↦ ground (arith, e)
]

not_repeated : NoRepeat a_first × NoRepeat b_first × (lookup default_weight_group a_first ≡ none)
unfolding lookup str_eq
not_repeated = ((refl, (refl, tt)), (refl, (refl, tt)), refl)

abbrev weighted : RuntimeConfig
weighted = record { version = pos 1; max_strict_percentage = none; label_weights = [] }

apply_runtime_config-same_example :
    apply_runtime_config (new_engine four_slots) (record weighted { label_weights = a_first })
    ≡ apply_runtime_config (new_engine four_slots) (record weighted { label_weights = b_first })
apply_runtime_config-same_example =
    apply_runtime_config-same a_first b_first not_repeated.0 not_repeated.1 not_repeated.2 one_map
      (new_engine four_slots) weighted
