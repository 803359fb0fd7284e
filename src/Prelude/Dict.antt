-- ===== src/Prelude/Dict.antt =====
-- Go maps as association lists. A list without repeated keys is one order in which `range` may
-- visit the map.
use mathlib.Core.Path.{◌≡◌, refl}
use mathlib.Core.Option.{Option, none, some}
use mathlib.Core.List.{List, [], ◌∷◌}
use native.Mathlib.Omega.{arith}
use anclax.Prelude.Tests.{if◌then◌else◌}
use anclax.Prelude.Equality.{Eq}

module _ {ℓ κ} {K : Type ℓ} {V : Type κ} ⦃e : Eq K⦄ where
  -- m[k], with its second result.
  unfoldable pub lookup : K → List (K × V) → Option V
  lookup k [] = none
  lookup k ((j, v) ∷ m) = if e.beq j k then some v else lookup k m

  -- m[k] = v.
  unfoldable pub insert : K → V → List (K × V) → List (K × V)
  insert k v [] = (k, v) ∷ []
  insert k v ((j, w) ∷ m) = if e.beq j k then (k, v) ∷ m else (j, w) ∷ insert k v m

  -- delete(m, k).
  unfoldable pub erase : K → List (K × V) → List (K × V)
  erase k [] = []
  erase k ((j, v) ∷ m) = if e.beq j k then m else (j, v) ∷ erase k m

  pub lookup-insert :
      (k j : K) (v : V) (m : List (K × V))
      → lookup j (insert k v m) ≡ (if e.beq k j then some v else lookup j m)
  unfolding lookup insert
  lookup-insert k j v [] = refl
  lookup-insert k j v ((i, w) ∷ m) =
      ground (arith, e.beq_iff k j, e.beq_iff i k, e.beq_iff i j, lookup-insert k j v m)

  pub lookup-insert_self : (k : K) (v : V) (m : List (K × V)) → lookup k (insert k v m) ≡ some v
  lookup-insert_self k v m = rw (lookup-insert k k v m) (ground (arith, e.beq_iff k k))

  pub erase-insert :
      (k : K) (v : V) (m : List (K × V)) → lookup k m ≡ none → erase k (insert k v m) ≡ m
  unfolding lookup insert erase
  erase-insert k v [] h = ground (arith, e.beq_iff k k)
  erase-insert k v ((j, w) ∷ m) h = ground (arith, h, erase-insert k v m)
