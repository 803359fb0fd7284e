-- ===== src/Worker/Engine/MapOrder.antt =====
-- The order in which Go ranges over the map of label weights does not show in the engine:
-- `applyRuntimeConfig` in pkg/taskcore/worker/engine.go.
use anclax.Prelude.{
  ℕ, zero, suc, ◌<◌, ◌≡◌, refl, sym, ap, ◌∙◌, false, String, List, [], ◌∷◌, ◌++◌, none, arith,
  replicate, if◌then◌else◌, string_eq, str_eq, str_eq_iff, Option-cases, Bool-cases, inl, inr,
}
use anclax.Prelude.Dict.{lookup, insert}
use anclax.Prelude.Int.{ℤ, pos_part}
use anclax.Prelude.Sorting.{count, sort_strings}
use anclax.Prelude.SameTexts.{SameTexts, sort_strings-SameTexts}
use anclax.Worker.Types.{RuntimeConfig, default_weight_group, default_weight_config_key}
use anclax.Worker.Config.{
  config_group, collect_weights, build_weights, keys, non_default, weighted_of, weight_of,
  fill_wheel, build_claim_wheel, wheel_of,
}
use anclax.Worker.State.{Engine, apply_runtime_config}
use anclax.Worker.Engine.Wheel.{
  Weights, UniqueKeys, AllPos, AllPos-lookup, build_weights-UniqueKeys, count-keys,
}
use anclax.Worker.Engine.Weights.{
  NoRepeat, chosen, configured_weights, build_weights-AllPos, with_default-other, weight_of-insert,
  count-non_default,
}

config_group-ne : (k : String) → str_eq (config_group k) default_weight_config_key ≡ false
unfolding str_eq
config_group-ne k = elim (Bool-cases (str_eq k default_weight_config_key)) [
  | inl e ↦ rw e refl
  | inr e ↦ rw e e
]

-- No group has the name of the key that stands for the default group.
collect_weights-unsent :
    (acc : Weights) (lw : List (String × ℤ))
    → weight_of (collect_weights acc lw) default_weight_config_key
      ≡ weight_of acc default_weight_config_key
unfolding collect_weights
collect_weights-unsent acc [] = refl
collect_weights-unsent acc ((k, v) ∷ lw) = ground (
  arith,
  config_group-ne k,
  weight_of-insert acc (config_group k) default_weight_config_key (pos_part v),
  collect_weights-unsent acc lw,
  collect_weights-unsent (insert (config_group k) (pos_part v) acc) lw,
)

unsent : (lw : List (String × ℤ)) → weight_of (build_weights lw) default_weight_config_key ≡ 0
unfolding build_weights weight_of lookup str_eq
unsent lw =
    with_default-other (collect_weights [] lw) default_weight_config_key refl
    ∙ collect_weights-unsent [] lw

abbrev sign : ℕ → ℕ
sign zero = 0
sign (suc n) = 1

sign-pos : (n : ℕ) → 0 < n → 1 ≡ sign n
sign-pos zero h = absurd (omega arith)
sign-pos (suc n) h = refl

count-keys-weight :
    (m : Weights) (g : String) → UniqueKeys m → AllPos m → count g (keys m) ≡ sign (weight_of m g)
unfolding weight_of
count-keys-weight m g u p = rw (count-keys m g u) (elim (Option-cases (lookup g m)) [
  | inl absent ↦ rw (absent, weight_of) refl
  | inr (w, present) ↦ rw (present, weight_of) (sign-pos w (AllPos-lookup m g w p present))
])

fill_wheel-same :
    (m m' : Weights) (groups : List String)
    → ((g : String) → weight_of m g ≡ weight_of m' g)
    → fill_wheel m groups ≡ fill_wheel m' groups
unfolding fill_wheel
fill_wheel-same m m' [] h = refl
fill_wheel-same m m' (g ∷ groups) h =
    rw (h g) (ap (λ rest. replicate (weight_of m' g) g ++ rest) (fill_wheel-same m m' groups h))

module _ (lw lw' : List (String × ℤ)) (once : NoRepeat lw) (once' : NoRepeat lw')
    (plain : lookup default_weight_group lw ≡ none)
    (same : (k : String) → lookup k lw ≡ lookup k lw') where
  plain' : lookup default_weight_group lw' ≡ none
  plain' = sym (same default_weight_group) ∙ plain

  build_weights-same :
      (g : String) → weight_of (build_weights lw) g ≡ weight_of (build_weights lw') g
  unfolding str_eq
  build_weights-same g = elim (Bool-cases (str_eq g default_weight_group)) [
    | inl d ↦ rw ((str_eq_iff g default_weight_group).0 d) (
        (configured_weights lw "a" once plain refl refl).1
        ∙ ap (λ o. chosen o 1) (same default_weight_config_key)
        ∙ sym (configured_weights lw' "a" once' plain' refl refl).1)
    | inr d ↦ elim (Bool-cases (str_eq g default_weight_config_key)) [
      | inl c ↦ rw ((str_eq_iff g default_weight_config_key).0 c) (unsent lw ∙ sym (unsent lw'))
      | inr c ↦
          (configured_weights lw g once plain d c).0
          ∙ ap (λ o. chosen o 0) (same g)
          ∙ sym (configured_weights lw' g once' plain' d c).0
    ]
  ]

  keys-SameTexts : SameTexts (keys (build_weights lw)) (keys (build_weights lw'))
  keys-SameTexts g =
      count-keys-weight (build_weights lw) g (build_weights-UniqueKeys lw) (build_weights-AllPos lw)
      ∙ ap sign (build_weights-same g)
      ∙ sym (
          count-keys-weight (build_weights lw') g (build_weights-UniqueKeys lw')
            (build_weights-AllPos lw'))

  weighted_of-same : weighted_of (build_weights lw) ≡ weighted_of (build_weights lw')
  unfolding weighted_of
  weighted_of-same =
      sort_strings-SameTexts (non_default (keys (build_weights lw)))
        (non_default (keys (build_weights lw')))
        (λ g.
          count-non_default g (keys (build_weights lw))
          ∙ ap (λ n. if str_eq g default_weight_group then 0 else n) (keys-SameTexts g)
          ∙ sym (count-non_default g (keys (build_weights lw'))))

  build_claim_wheel-same :
      build_claim_wheel (build_weights lw) ≡ build_claim_wheel (build_weights lw')
  unfolding build_claim_wheel
  build_claim_wheel-same =
      ap (fill_wheel (build_weights lw))
        (sort_strings-SameTexts (keys (build_weights lw)) (keys (build_weights lw')) keys-SameTexts)
      ∙ fill_wheel-same (build_weights lw) (build_weights lw')
          (sort_strings (keys (build_weights lw'))) build_weights-same

  -- Two lists of one map of label weights, each key once and the reserved group not among them: whatever
  -- the order in which `range` visits the map, the engine becomes the same.
  pub apply_runtime_config-same :
      (e : Engine) (cfg : RuntimeConfig)
      → apply_runtime_config e (record cfg { label_weights = lw })
        ≡ apply_runtime_config e (record cfg { label_weights = lw' })
  unfolding apply_runtime_config wheel_of
  apply_runtime_config-same e cfg = rw (weighted_of-same, build_claim_wheel-same) refl
