-- ===== src/Worker/Config.antt =====
-- The runtime configuration's pure parts: the clamped percentage, the label weights, the claim wheel
-- and the strict lane's share, of `applyRuntimeConfig`, `buildClaimWheel` and
-- `strictCapForPercentage` in pkg/taskcore/worker/engine.go.
use anclax.Prelude.{
  ℕ, ◌+◌, ◌*◌, ◌/◌, ◌%◌, ◌^◌, ◌||◌, String, List, [], ◌∷◌, ◌++◌, Option, none, some, ltb, leb, ◌==◌,
  if◌then◌else◌, string_eq, str_eq, replicate,
}
use anclax.Prelude.Dict.{lookup, insert}
use anclax.Prelude.Int.{ℤ, pos, ltb_ℤ, pos_part}
use anclax.Prelude.Sorting.{sort_strings}
use anclax.Worker.Types.{default_weight_group, default_weight_config_key}

-- The clamped value is never negative.
unfoldable pub clamp_percentage : Option ℤ → ℕ
clamp_percentage none = 100
clamp_percentage (some p) =
    if ltb_ℤ p (pos 0) then 0 else if ltb_ℤ (pos 100) p then 100 else pos_part p

abbrev pub config_group : String → String
config_group k = if str_eq k default_weight_config_key then default_weight_group else k

-- The range over the map; weights below 1 are skipped, so the kept ones are ℕ.
unfoldable pub collect_weights : List (String × ℕ) → List (String × ℤ) → List (String × ℕ)
collect_weights weights [] = weights
collect_weights weights ((k, v) ∷ rest) =
    collect_weights
      (if ltb_ℤ v (pos 1) then weights else insert (config_group k) (pos_part v) weights) rest

unfoldable pub with_default : List (String × ℕ) → List (String × ℕ)
with_default weights = elim (lookup default_weight_group weights) [
  | some w ↦ weights
  | none ↦ insert default_weight_group 1 weights
]

unfoldable pub build_weights : List (String × ℤ) → List (String × ℕ)
unfolding collect_weights with_default
build_weights label_weights = with_default (collect_weights [] label_weights)

unfoldable pub keys : List (String × ℕ) → List String
keys [] = []
keys ((k, w) ∷ rest) = k ∷ keys rest

unfoldable pub non_default : List String → List String
non_default [] = []
non_default (k ∷ ks) = if str_eq k default_weight_group then non_default ks else k ∷ non_default ks

unfoldable pub weighted_of : List (String × ℕ) → List String
unfolding keys non_default sort_strings
weighted_of weights = sort_strings (non_default (keys weights))

-- weights[group].
unfoldable pub weight_of : List (String × ℕ) → String → ℕ
weight_of weights group = elim (lookup group weights) [ none ↦ 0 | some w ↦ w ]

unfoldable pub fill_wheel : List (String × ℕ) → List String → List String
fill_wheel weights [] = []
fill_wheel weights (group ∷ groups) =
    replicate (weight_of weights group) group ++ fill_wheel weights groups

unfoldable pub build_claim_wheel : List (String × ℕ) → List String
unfolding fill_wheel weight_of keys sort_strings
build_claim_wheel weights = fill_wheel weights (sort_strings (keys weights))

unfoldable pub or_default : List String → List String
or_default [] = default_weight_group ∷ []
or_default (g ∷ gs) = g ∷ gs

unfoldable pub wheel_of : List (String × ℕ) → List String
unfolding build_claim_wheel or_default
wheel_of weights = or_default (build_claim_wheel weights)

-- Go's `n / 100` on an int64 with the bit pattern n: at most 0 for a negative one, which the caller
-- only compares with 1.
abbrev pub int64_div_100 : ℕ → ℕ
int64_div_100 n = if ltb n (2 ^ 63) then n / 100 else 0

unfoldable pub strict_cap_for_percentage : ℕ → ℕ → ℕ
strict_cap_for_percentage concurrency percentage =
    if concurrency == 0 || percentage == 0
    then 0
    else if leb 100 percentage
    then concurrency
    else (let cap = int64_div_100 ((concurrency * percentage + 99) % 2 ^ 64) in
        if ltb cap 1 then 1 else if ltb concurrency cap then concurrency else cap)
