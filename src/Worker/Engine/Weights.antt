-- ===== src/Worker/Engine/Weights.antt =====
-- Which weight a configuration gives each group, and which labels count as weighted.
use Prim.Native.Nat.{min}
use anclax.Prelude.{
  ℕ, ◌<◌, ◌≡◌, refl, sym, ap, ◌∙◌, false, String, List, [], ◌∷◌, ◌++◌, Option, none, some, arith,
  if◌then◌else◌, string_eq, str_eq, str_eq_iff, Option-cases, inl, inr,
}
use mathlib.Core.List.{append_assoc}
use anclax.Prelude.Dict.{lookup, insert, lookup-insert, lookup-insert_self}
use anclax.Prelude.Int.{ℤ, pos, pos_part, ltb_ℤ}
use anclax.Prelude.Sorting.{count, count-sort_strings}
use anclax.Worker.Types.{default_weight_group, default_weight_config_key}
use anclax.Worker.Config.{
  config_group, collect_weights, with_default, build_weights, keys, non_default, weighted_of,
  weight_of, wheel_of,
}
use anclax.Worker.Engine.Wheel.{
  Weights, build_weights-UniqueKeys, AllPos, collect_weights-AllPos, AllPos-lookup, insert-AllPos,
  count-keys, wheel_of-weights,
}

-- A configured weight counts from 1 on; otherwise the fallback holds.
abbrev pub chosen : Option ℤ → ℕ → ℕ
chosen none w = w
chosen (some v) w = if ltb_ℤ v (pos 1) then w else pos_part v

abbrev pub NoRepeat : List (String × ℤ) → Type 0
NoRepeat [] = Unit {0}
NoRepeat ((k, v) ∷ lw) = (lookup k lw ≡ none) × NoRepeat lw

-- Of the configuration's keys, `k₀` alone stands for the group `g`.
abbrev Sends : String → String → List (String × ℤ) → Type 0
Sends k₀ g [] = Unit {0}
Sends k₀ g ((k, v) ∷ lw) = (str_eq (config_group k) g ≡ str_eq k k₀) × Sends k₀ g lw

pub weight_of-insert :
    (m : Weights) (k g : String) (w : ℕ)
    → weight_of (insert k w m) g ≡ (if str_eq k g then w else weight_of m g)
unfolding weight_of
weight_of-insert m k g w = rw (lookup-insert k g w m, weight_of) (ground arith)

collect_weights-weight :
    (acc : Weights) (lw : List (String × ℤ)) (k₀ g : String)
    → Sends k₀ g lw
    → NoRepeat lw
    → weight_of (collect_weights acc lw) g ≡ chosen (lookup k₀ lw) (weight_of acc g)
unfolding collect_weights lookup
collect_weights-weight acc [] k₀ g s n = refl
collect_weights-weight acc ((k, v) ∷ lw) k₀ g s n = ground (
  arith,
  str_eq_iff k k₀,
  weight_of-insert acc (config_group k) g (pos_part v),
  collect_weights-weight acc lw k₀ g s.1 n.1,
  collect_weights-weight (insert (config_group k) (pos_part v) acc) lw k₀ g s.1 n.1,
)

Sends-named :
    (g : String) (lw : List (String × ℤ))
    → str_eq g default_weight_group ≡ false
    → str_eq g default_weight_config_key ≡ false
    → Sends g g lw
Sends-named g [] d c = tt
Sends-named g ((k, v) ∷ lw) d c = (
  ground (
    arith,
    str_eq_iff k g,
    str_eq_iff k default_weight_config_key,
    str_eq_iff g default_weight_config_key,
    str_eq_iff default_weight_group g,
    str_eq_iff g default_weight_group,
  ),
  Sends-named g lw d c,
)

Sends-default :
    (lw : List (String × ℤ))
    → lookup default_weight_group lw ≡ none
    → Sends default_weight_config_key default_weight_group lw
unfolding lookup
Sends-default [] h = tt
Sends-default ((k, v) ∷ lw) h = (
  ground (
    arith,
    str_eq_iff k default_weight_config_key,
    str_eq_iff k default_weight_group,
    str_eq_iff default_weight_group default_weight_group,
  ),
  Sends-default lw (ground arith),
)

pub with_default-other :
    (m : Weights) (g : String)
    → str_eq g default_weight_group ≡ false
    → weight_of (with_default m) g ≡ weight_of m g
unfolding with_default
with_default-other m g d = elim (Option-cases (lookup default_weight_group m)) [
  | inl absent ↦
      rw (absent, with_default)
        (rw (weight_of-insert m default_weight_group g 1)
          (ground (arith, str_eq_iff default_weight_group g, str_eq_iff g default_weight_group)))
  | inr (w, present) ↦ rw (present, with_default) refl
]

with_default-default :
    (m : Weights) (v : Option ℤ)
    → AllPos m
    → weight_of m default_weight_group ≡ chosen v 0
    → weight_of (with_default m) default_weight_group ≡ chosen v 1
unfolding with_default weight_of
with_default-default m v p h = elim (Option-cases (lookup default_weight_group m)) [
  | inl absent ↦ ground (arith, lookup-insert_self default_weight_group 1 m)
  | inr (w, present) ↦ ground (arith, AllPos-lookup m default_weight_group w p present)
]

-- For a configuration without repeated keys that does not name the reserved group itself: a label `g`
-- besides the two reserved names has the weight that the configuration gives it, and 0 if it gives
-- none or one below 1; the default group has the weight of the key `default`, or else 1.
pub configured_weights :
    (lw : List (String × ℤ)) (g : String)
    → NoRepeat lw
    → lookup default_weight_group lw ≡ none
    → str_eq g default_weight_group ≡ false
    → str_eq g default_weight_config_key ≡ false
    → (weight_of (build_weights lw) g ≡ chosen (lookup g lw) 0)
      × (weight_of (build_weights lw) default_weight_group
          ≡ chosen (lookup default_weight_config_key lw) 1)
unfolding build_weights weight_of lookup
configured_weights lw g n h d c = (
  with_default-other (collect_weights [] lw) g d
      ∙ collect_weights-weight [] lw g g (Sends-named g lw d c) n,
  with_default-default (collect_weights [] lw) (lookup default_weight_config_key lw)
      (collect_weights-AllPos [] lw tt)
      (collect_weights-weight [] lw default_weight_config_key default_weight_group
        (Sends-default lw h) n),
)

pub count-non_default :
    (g : String) (ks : List String)
    → count g (non_default ks) ≡ (if str_eq g default_weight_group then 0 else count g ks)
unfolding count non_default
count-non_default g [] = ground arith
count-non_default g (k ∷ ks) = ground (
  arith,
  str_eq_iff k g,
  str_eq_iff k default_weight_group,
  str_eq_iff g default_weight_group,
  count-non_default g ks,
)

pub build_weights-AllPos : (lw : List (String × ℤ)) → AllPos (build_weights lw)
unfolding build_weights
build_weights-AllPos lw =
    elim (Option-cases (lookup default_weight_group (collect_weights [] lw))) [
      | inl absent ↦
          rw (absent, with_default)
            (insert-AllPos default_weight_group 1 (collect_weights [] lw) (omega arith)
              (collect_weights-AllPos [] lw tt))
      | inr (w, present) ↦ rw (present, with_default) (collect_weights-AllPos [] lw tt)
    ]

-- The weighted labels, which the default claim leaves to the other groups, are the groups of the
-- wheel but the default one, each once.
weighted_of-wheel :
    (lw : List (String × ℤ)) (g : String)
    → let weights = build_weights lw in
      count g (weighted_of weights)
      ≡ (if str_eq g default_weight_group then 0 else min 1 (count g (wheel_of weights)))
unfolding weighted_of weight_of
weighted_of-wheel lw g =
    rw
      (
        count-sort_strings g (non_default (keys (build_weights lw))),
        count-non_default g (keys (build_weights lw)),
        count-keys (build_weights lw) g (build_weights-UniqueKeys lw),
        (wheel_of-weights lw).0 g,
      )
      (elim (Option-cases (lookup g (build_weights lw))) [
        | inl absent ↦ ground arith
        | inr (w, present) ↦
            ground (arith, AllPos-lookup (build_weights lw) g w (build_weights-AllPos lw) present)
      ])

-- No key stands for the default group.
abbrev pub NoDefault : List (String × ℤ) → Type 0
NoDefault [] = Unit {0}
NoDefault ((k, v) ∷ lw) = (str_eq (config_group k) default_weight_group ≡ false) × NoDefault lw

collect_weights-NoDefault :
    (acc : Weights) (lw : List (String × ℤ))
    → NoDefault lw
    → weight_of (collect_weights acc lw) default_weight_group ≡ weight_of acc default_weight_group
unfolding collect_weights
collect_weights-NoDefault acc [] n = refl
collect_weights-NoDefault acc ((k, v) ∷ lw) n = ground (
  arith,
  n.0,
  weight_of-insert acc (config_group k) default_weight_group (pos_part v),
  collect_weights-NoDefault acc lw n.1,
  collect_weights-NoDefault (insert (config_group k) (pos_part v) acc) lw n.1,
)

collect_weights-last :
    (acc : Weights) (before after : List (String × ℤ)) (k : String) (v : ℕ)
    → config_group k ≡ default_weight_group
    → 0 < v
    → NoDefault after
    → weight_of (collect_weights acc (before ++ (k, pos v) ∷ after)) default_weight_group ≡ v
unfolding collect_weights
collect_weights-last acc [] after k v e p n = ground (
  arith,
  str_eq_iff default_weight_group default_weight_group,
  weight_of-insert acc (config_group k) default_weight_group v,
  collect_weights-NoDefault (insert (config_group k) v acc) after n,
  e,
)
collect_weights-last acc ((j, u) ∷ before) after k v e p n = ground (
  arith,
  collect_weights-last acc before after k v e p n,
  collect_weights-last (insert (config_group j) (pos_part u) acc) before after k v e p n,
)

-- Of the keys that stand for the default group, the last one of a weight from 1 on decides.
build_weights-last :
    (before after : List (String × ℤ)) (k : String) (v : ℕ)
    → config_group k ≡ default_weight_group
    → 0 < v
    → NoDefault after
    → weight_of (build_weights (before ++ (k, pos v) ∷ after)) default_weight_group ≡ v
unfolding build_weights
build_weights-last before after k v e p n =
    with_default-default (collect_weights [] (before ++ (k, pos v) ∷ after)) (some (pos v))
      (collect_weights-AllPos [] (before ++ (k, pos v) ∷ after) tt)
      (collect_weights-last [] before after k v e p n ∙ ground (arith, p))
    ∙ ground (arith, p)

group_of_group : config_group default_weight_group ≡ default_weight_group
unfolding str_eq
group_of_group = refl

group_of_key : config_group default_weight_config_key ≡ default_weight_group
unfolding str_eq
group_of_key = refl

-- Two orders of one configuration, which has weights v and w from 1 on under the key `default` and under
-- the reserved group itself, between any other entries: where no key behind stands for the default
-- group, its weight is the one that comes last, and so w in the one order and v in the other.
pub default_weight_by_order :
    (before middle after : List (String × ℤ)) (v w : ℕ)
    → 0 < v
    → 0 < w
    → NoDefault after
    → (weight_of
          (build_weights (
            before
            ++ (default_weight_config_key, pos v)
              ∷ (middle ++ (default_weight_group, pos w) ∷ after)))
          default_weight_group
        ≡ w)
      × (weight_of
            (build_weights (
              before
              ++ (default_weight_group, pos w)
                ∷ (middle ++ (default_weight_config_key, pos v) ∷ after)))
            default_weight_group
          ≡ v)
default_weight_by_order before middle after v w p q n = (
  ap (λ lw. weight_of (build_weights lw) default_weight_group)
        (sym (append_assoc before ((default_weight_config_key, pos v) ∷ middle) _))
      ∙ build_weights-last (before ++ (default_weight_config_key, pos v) ∷ middle) after
          default_weight_group w group_of_group q n,
  ap (λ lw. weight_of (build_weights lw) default_weight_group)
        (sym (append_assoc before ((default_weight_group, pos w) ∷ middle) _))
      ∙ build_weights-last (before ++ (default_weight_group, pos w) ∷ middle) after
          default_weight_config_key v group_of_key p n,
)
