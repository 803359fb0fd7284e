-- ===== src/Worker/Engine/Wheel.antt =====
-- The claim wheel that a runtime configuration builds: `applyRuntimeConfig` and `buildClaimWheel`.
use anclax.Prelude.{
  ℕ, zero, suc, ◌*◌, ◌≤◌, ◌<◌, ◌≡◌, refl, ap, ◌∙◌, false, String, List, [], ◌∷◌, none, some, arith,
  length, if◌then◌else◌, string_eq, str_eq, str_eq_iff, replicate, Option-cases, Bool-cases, inl,
  inr,
}
use anclax.Prelude.Dict.{lookup, insert, lookup-insert, lookup-insert_self}
use anclax.Prelude.Int.{ℤ, pos, pos_part, ltb_ℤ}
use anclax.Prelude.Sorting.{count, count-append, count-sort_strings, sort_strings}
use anclax.Worker.Types.{default_weight_group}
use anclax.Worker.Config.{
  config_group, collect_weights, with_default, build_weights, keys, weight_of, fill_wheel,
  build_claim_wheel, or_default, wheel_of,
}

abbrev pub Weights : Type 0
Weights = List (String × ℕ)

-- A Go map: no key twice.
abbrev pub UniqueKeys : Weights → Type 0
UniqueKeys [] = Unit {0}
UniqueKeys ((k, w) ∷ m) = (lookup k m ≡ none) × UniqueKeys m

lookup-insert-none :
    (j k : String) (w : ℕ) (m : Weights)
    → str_eq k j ≡ false
    → lookup j m ≡ none
    → lookup j (insert k w m) ≡ none
lookup-insert-none j k w m d h = lookup-insert k j w m ∙ rw d h

insert-UniqueKeys : (k : String) (w : ℕ) (m : Weights) → UniqueKeys m → UniqueKeys (insert k w m)
unfolding insert lookup
insert-UniqueKeys k w [] u = (refl, tt)
insert-UniqueKeys k w ((j, v) ∷ m) u =
    ground (
      arith,
      str_eq_iff j k,
      str_eq_iff k j,
      insert-UniqueKeys k w m u.1,
      lookup-insert-none j k w m,
    )

collect_weights-UniqueKeys :
    (acc : Weights) (lw : List (String × ℤ)) → UniqueKeys acc → UniqueKeys (collect_weights acc lw)
unfolding collect_weights
collect_weights-UniqueKeys acc [] u = u
collect_weights-UniqueKeys acc ((k, v) ∷ lw) u = elim (Bool-cases (ltb_ℤ v (pos 1))) [
  | inl low ↦ rw low (collect_weights-UniqueKeys acc lw u)
  | inr kept ↦ rw kept (
      collect_weights-UniqueKeys (insert (config_group k) (pos_part v) acc) lw
        (insert-UniqueKeys (config_group k) (pos_part v) acc u))
]

pub build_weights-UniqueKeys : (lw : List (String × ℤ)) → UniqueKeys (build_weights lw)
unfolding build_weights
build_weights-UniqueKeys lw = elim (Option-cases (lookup default_weight_group weights)) [
  | inl absent ↦ rw (absent, with_default) (insert-UniqueKeys default_weight_group 1 weights unique)
  | inr (w, present) ↦ rw (present, with_default) unique
]
  where
    weights : Weights
    weights = collect_weights [] lw

    unique : UniqueKeys weights
    unique = collect_weights-UniqueKeys [] lw tt

count-replicate : (g s : String) (n : ℕ) → count g (replicate n s) ≡ (if str_eq s g then n else 0)
unfolding count
count-replicate g s zero = ground arith
count-replicate g s (suc n) = ground (arith, count-replicate g s n)

-- The filled wheel holds a group as often as the groups name it, times its weight.
count-fill_wheel :
    (weights : Weights) (groups : List String) (g : String)
    → count g (fill_wheel weights groups) ≡ count g groups * weight_of weights g
unfolding fill_wheel count
count-fill_wheel weights [] g = omega arith
count-fill_wheel weights (x ∷ groups) g =
    rw
      (
        count-append g (replicate (weight_of weights x) x) (fill_wheel weights groups),
        count-replicate g x (weight_of weights x),
        count-fill_wheel weights groups g,
      )
      (elim (Bool-cases (str_eq x g)) [
        | inl same ↦ rw same (omega (arith, ap (weight_of weights) ((str_eq_iff x g).0 same)))
        | inr other ↦ rw other (omega arith)
      ])

pub count-keys :
    (m : Weights) (g : String)
    → UniqueKeys m
    → (count g (keys m) ≡ (elim (lookup g m) [ none ↦ 0 | some w ↦ 1 ]))
unfolding keys count lookup
count-keys [] g u = refl
count-keys ((k, w) ∷ m) g u = ground (arith, count-keys m g u.1, str_eq_iff k g)

-- The wheel holds each group as often as its weight says.
count-build_claim_wheel :
    (weights : Weights) (g : String)
    → UniqueKeys weights
    → count g (build_claim_wheel weights) ≡ weight_of weights g
unfolding build_claim_wheel
count-build_claim_wheel weights g u =
    rw
      (
        count-fill_wheel weights (sort_strings (keys weights)) g,
        count-sort_strings g (keys weights),
        count-keys weights g u,
      )
      (elim (Option-cases (lookup g weights)) [
        | inl absent ↦ rw (absent, weight_of) (omega arith)
        | inr (w, present) ↦ rw (present, weight_of) (omega arith)
      ])

abbrev pub AllPos : Weights → Type 0
AllPos [] = Unit {0}
AllPos ((k, w) ∷ m) = (0 < w) × AllPos m

pub insert-AllPos : (k : String) (w : ℕ) (m : Weights) → 0 < w → AllPos m → AllPos (insert k w m)
unfolding insert
insert-AllPos k w [] p u = (p, tt)
insert-AllPos k w ((j, v) ∷ m) p u = ground (arith, insert-AllPos k w m p u.1)

pub collect_weights-AllPos :
    (acc : Weights) (lw : List (String × ℤ)) → AllPos acc → AllPos (collect_weights acc lw)
unfolding collect_weights
collect_weights-AllPos acc [] u = u
collect_weights-AllPos acc ((k, v) ∷ lw) u = elim (Bool-cases (ltb_ℤ v (pos 1))) [
  | inl low ↦ rw low (collect_weights-AllPos acc lw u)
  | inr kept ↦ rw kept (
      collect_weights-AllPos (insert (config_group k) (pos_part v) acc) lw
        (insert-AllPos (config_group k) (pos_part v) acc (ground arith) u))
]

pub AllPos-lookup : (m : Weights) (g : String) (w : ℕ) → AllPos m → lookup g m ≡ some w → 0 < w
unfolding lookup
AllPos-lookup [] g w u h = ground arith
AllPos-lookup ((k, v) ∷ m) g w u h = ground (arith, AllPos-lookup m g w u.1)

pub weight_of-insert_self : (m : Weights) (k : String) (w : ℕ) → weight_of (insert k w m) k ≡ w
unfolding weight_of
weight_of-insert_self m k w = rw (lookup-insert_self k w m, weight_of) refl

-- The default group always has a weight.
pub default_weight_pos :
    (lw : List (String × ℤ)) → 0 < weight_of (build_weights lw) default_weight_group
unfolding build_weights weight_of
default_weight_pos lw = elim (Option-cases (lookup default_weight_group weights)) [
  | inl absent ↦
      rw (absent, with_default)
        (rw (weight_of-insert_self weights default_weight_group 1) (omega arith))
  | inr (w, present) ↦
      rw (present, with_default)
        (rw (present, weight_of)
          (AllPos-lookup weights default_weight_group w (collect_weights-AllPos [] lw tt) present))
]
  where
    weights : Weights
    weights = collect_weights [] lw

count-le-length : (g : String) (xs : List String) → count g xs ≤ length xs
unfolding count
count-le-length g [] = omega arith
count-le-length g (x ∷ xs) = ground (arith, count-le-length g xs)

or_default_lem : (xs : List String) → 0 < length xs → or_default xs ≡ xs
unfolding or_default
or_default_lem [] h = elim h [ ]
or_default_lem (x ∷ xs) h = refl

-- Of any configuration, the wheel holds each group exactly as often as the weights say, and the
-- default group at least once.
pub wheel_of-weights :
    (lw : List (String × ℤ))
    → ((g : String) → count g (wheel_of (build_weights lw)) ≡ weight_of (build_weights lw) g)
      × (0 < count default_weight_group (wheel_of (build_weights lw)))
      × (0 < length (wheel_of (build_weights lw)))
unfolding wheel_of
wheel_of-weights lw =
    rw (or_default_lem wheel filled)
      (counted, omega (arith, counted default_weight_group, default_weight_pos lw), filled)
  where
    wheel : List String
    wheel = build_claim_wheel (build_weights lw)

    counted : (g : String) → count g wheel ≡ weight_of (build_weights lw) g
    counted g = count-build_claim_wheel (build_weights lw) g (build_weights-UniqueKeys lw)

    filled : 0 < length wheel
    filled = omega (
      arith,
      counted default_weight_group,
      default_weight_pos lw,
      count-le-length default_weight_group wheel,
    )
