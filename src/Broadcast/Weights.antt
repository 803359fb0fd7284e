-- ===== src/Broadcast/Weights.antt =====
-- The checks on a broadcast's weights and task ids: pkg/asynctask/executor_broadcast_worker.go.
use anclax.Prelude.{
  ◌≡◌, refl, ap, ◌∙◌, ◌⊎◌, inl, inr, Bool, true, false, ◌&&◌, not, String, List, [], ◌∷◌, Option,
  none, some, arith, Bool-cases, if◌then◌else◌, string_eq, str_eq,
}
use anclax.Prelude.Int.{ℤ, pos, ltb_ℤ, leb_ℤ, ℤ_eq}
use anclax.Prelude.Dict.{insert, lookup, lookup-insert}
use anclax.Prelude.Unique.{
  contains, append_unique, unique_from, IsDistinct, IsDistinct-unique_from, contains-unique_from,
}
use anclax.Db.{ok}
use anclax.Db.Effects.{succeeded}
use anclax.Worker.Types.{default_weight_config_key}
use anclax.Broadcast.{
  add_weights, same_length, build_label_weights, default_of, unique_positive,
  normalize_broadcast_task_ids,
}

-- The weights that the loop accepts.
unfoldable pub accepted : List String → List ℤ → Bool
accepted [] [] = true
accepted [] (w ∷ ws) = false
accepted (l ∷ ls) [] = false
accepted (l ∷ ls) (w ∷ ws) = not (str_eq l "") && (not (ltb_ℤ w (pos 1)) && accepted ls ws)

-- The weight of a label: that of its last place, or the one from before.
unfoldable pub last_weight : String → Option ℤ → List String → List ℤ → Option ℤ
last_weight k before [] ws = before
last_weight k before (l ∷ ls) [] = before
last_weight k before (l ∷ ls) (w ∷ ws) = last_weight k (if str_eq l k then some w else before) ls ws

add_weights-outcome :
    (out : List (String × ℤ)) (labels : List String) (weights : List ℤ)
    → ((accepted labels weights ≡ false) × (succeeded (add_weights out labels weights) ≡ false))
      ⊎ ((accepted labels weights ≡ true)
          × (out' : List (String × ℤ)) × (add_weights out labels weights ≡ ok out')
          × ((k : String) → lookup k out' ≡ last_weight k (lookup k out) labels weights))
unfolding add_weights accepted last_weight
add_weights-outcome out [] [] = inr (refl, out, refl, λ k. refl)
add_weights-outcome out [] (w ∷ ws) = inl (refl, refl)
add_weights-outcome out (l ∷ ls) [] = inl (refl, refl)
add_weights-outcome out (l ∷ ls) (w ∷ ws) = elim (Bool-cases (str_eq l "")) [
  | inl e ↦ inl (rw e refl, rw e refl)
  | inr e ↦ elim (Bool-cases (ltb_ℤ w (pos 1))) [
    | inl f ↦ inl (rw (e, f) refl, rw (e, f) refl)
    | inr f ↦ elim (add_weights-outcome (insert l w out) ls ws) [
      | inl (no_good, failed) ↦ inl (rw (e, f) no_good, rw (e, f) failed)
      | inr (good, out', made, weights) ↦ inr (
        rw (e, f) good,
        out',
        rw (e, f) made,
        λ k. weights k ∙ ap (λ before. last_weight k before ls ws) (lookup-insert l k w out),
      )
    ]
  ]
]

same_length-accepted :
    (labels : List String) (weights : List ℤ)
    → accepted labels weights ≡ true
    → same_length labels weights ≡ true
unfolding accepted same_length
same_length-accepted [] [] h = refl
same_length-accepted [] (w ∷ ws) h = h
same_length-accepted (l ∷ ls) [] h = h
same_length-accepted (l ∷ ls) (w ∷ ws) h = same_length-accepted ls ws (ground (arith, h))

-- The default weight and the labels' weights are accepted.
abbrev pub is_valid : Option ℤ → List String → List ℤ → Bool
is_valid default_weight labels weights =
    not (ltb_ℤ (default_of default_weight) (pos 1)) && accepted labels weights

-- The weights of a runtime configuration are accepted exactly when the default weight is 1 at least,
-- there are as many weights as labels, each weight is 1 at least, and no label is empty; each label
-- then has the weight of its last place, and "default" the default weight unless a label is spelled so.
pub build_label_weights-outcome :
    (default_weight : Option ℤ) (labels : List String) (weights : List ℤ)
    → ((is_valid default_weight labels weights ≡ false)
        × (succeeded (build_label_weights default_weight labels weights) ≡ false))
      ⊎ ((is_valid default_weight labels weights ≡ true)
          × (out : List (String × ℤ)) × (build_label_weights default_weight labels weights ≡ ok out)
          × ((k : String)
              → lookup k out
                ≡ last_weight k
                    (if str_eq default_weight_config_key k
                      then some (default_of default_weight)
                      else none)
                    labels
                    weights))
unfolding build_label_weights lookup
build_label_weights-outcome d labels weights = elim (Bool-cases (ltb_ℤ (default_of d) (pos 1))) [
  | inl e ↦ inl (rw e refl, rw e refl)
  | inr e ↦
      elim (add_weights-outcome ((default_weight_config_key, default_of d) ∷ []) labels weights) [
        | inr (good, out, made, found) ↦
            inr (rw e good, out, rw (e, same_length-accepted labels weights good) made, found)
        | inl (no_good, failed) ↦ elim (Bool-cases (same_length labels weights)) [
          | inl s ↦ inl (rw e no_good, rw (e, s) failed)
          | inr s ↦ inl (rw e no_good, rw (e, s) refl)
        ]
      ]
]

unfoldable pub all_positive : List ℤ → Bool
all_positive [] = true
all_positive (id ∷ ids) = not (leb_ℤ id (pos 0)) && all_positive ids

unique_positive-outcome :
    (out ids : List ℤ)
    → ((all_positive ids ≡ false) × (succeeded (unique_positive out ids) ≡ false))
      ⊎ ((all_positive ids ≡ true) × (unique_positive out ids ≡ ok (unique_from out ids)))
unfolding unique_positive all_positive unique_from
unique_positive-outcome out [] = inr (refl, refl)
unique_positive-outcome out (id ∷ ids) = elim (Bool-cases (leb_ℤ id (pos 0))) [
  | inl e ↦ inl (rw e refl, rw e refl)
  | inr e ↦ elim (unique_positive-outcome (append_unique out id) ids) [
    | inl (bad, failed) ↦ inl (rw e bad, rw e failed)
    | inr (good, made) ↦ inr (rw e good, rw e made)
  ]
]

-- The task ids of a broadcast are accepted exactly when there is one and all are positive; they are then
-- broadcast once each, with none lost or added.
normalize_broadcast_task_ids-outcome :
    (id : ℤ) (ids : List ℤ)
    → ((all_positive (id ∷ ids) ≡ false)
        × (succeeded (normalize_broadcast_task_ids (id ∷ ids)) ≡ false))
      ⊎ ((all_positive (id ∷ ids) ≡ true)
          × (out : List ℤ) × (normalize_broadcast_task_ids (id ∷ ids) ≡ ok out)
          × IsDistinct out
          × ((j : ℤ) → contains out j ≡ contains (id ∷ ids) j))
unfolding normalize_broadcast_task_ids contains
normalize_broadcast_task_ids-outcome id ids = elim (unique_positive-outcome [] (id ∷ ids)) [
  | inl (bad, failed) ↦ inl (bad, failed)
  | inr (good, made) ↦ inr (
    good,
    unique_from [] (id ∷ ids),
    made,
    IsDistinct-unique_from [] (id ∷ ids) tt,
    λ j. contains-unique_from [] (id ∷ ids) j,
  )
]
