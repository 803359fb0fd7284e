-- ===== src/Prelude/Unique.antt =====
-- The loop with a `seen` set that keeps the first occurrence of each element. The set always holds
-- the elements of the output, so the output serves for both.
use Prim.Native.Nat.{ℕ, ◌<◌}
use mathlib.Core.Path.{◌≡◌, refl}
use mathlib.Core.Logic.{inl, inr}
use mathlib.Core.Bool.{Bool, true, false, ◌||◌, false≢true}
use mathlib.Core.List.{List, [], ◌∷◌, ◌++◌}
use native.Mathlib.Omega.{arith}
use anclax.Prelude.Tests.{if◌then◌else◌, Bool-cases}
use anclax.Prelude.Lists.{length, get_or}
use anclax.Prelude.Equality.{Eq}

module _ {ℓ} {A : Type ℓ} ⦃e : Eq A⦄ where
  unfoldable pub contains : List A → A → Bool
  contains [] a = false
  contains (x ∷ xs) a = e.beq x a || contains xs a

  unfoldable pub append_unique : List A → A → List A
  append_unique out a = if contains out a then out else out ++ a ∷ []

  unfoldable pub unique_from : List A → List A → List A
  unfolding append_unique
  unique_from out [] = out
  unique_from out (x ∷ xs) = unique_from (append_unique out x) xs

  -- No element twice.
  abbrev pub IsDistinct : List A → Type 0
  IsDistinct [] = Unit {0}
  IsDistinct (x ∷ xs) = (contains xs x ≡ false) × IsDistinct xs

  pub contains_snoc :
      (xs : List A) (a b : A) → contains (xs ++ a ∷ []) b ≡ (contains xs b || e.beq a b)
  unfolding contains
  contains_snoc [] a b = ground arith
  contains_snoc (x ∷ xs) a b = ground (arith, contains_snoc xs a b)

  pub contains-append :
      (xs ys : List A) (b : A) → contains (xs ++ ys) b ≡ (contains xs b || contains ys b)
  unfolding contains
  contains-append [] ys b = refl
  contains-append (x ∷ xs) ys b = ground (arith, contains-append xs ys b)

  pub contains-append_unique :
      (out : List A) (a b : A) → contains (append_unique out a) b ≡ (contains out b || e.beq a b)
  unfolding append_unique
  contains-append_unique out a b = elim (Bool-cases (contains out a)) [
    | inl old ↦ rw old (ground (arith, e.beq_iff a b, old))
    | inr new ↦ rw new (contains_snoc out a b)
  ]

  IsDistinct-snoc :
      (xs : List A) (a : A) → IsDistinct xs → contains xs a ≡ false → IsDistinct (xs ++ a ∷ [])
  unfolding contains
  IsDistinct-snoc [] a d h = (refl, tt)
  IsDistinct-snoc (x ∷ xs) a d h = (
    ground (arith, contains_snoc xs a x, e.beq_iff x a, e.beq_iff a x, d.0),
    IsDistinct-snoc xs a d.1 (ground arith),
  )

  IsDistinct-append_unique :
      (out : List A) (a : A) → IsDistinct out → IsDistinct (append_unique out a)
  unfolding append_unique
  IsDistinct-append_unique out a d = elim (Bool-cases (contains out a)) [
    | inl old ↦ rw old d
    | inr new ↦ rw new (IsDistinct-snoc out a d new)
  ]

  -- The loop keeps no element twice.
  pub IsDistinct-unique_from : (out xs : List A) → IsDistinct out → IsDistinct (unique_from out xs)
  unfolding unique_from
  IsDistinct-unique_from out [] d = d
  IsDistinct-unique_from out (x ∷ xs) d =
      IsDistinct-unique_from (append_unique out x) xs (IsDistinct-append_unique out x d)

  -- And it loses and adds none.
  pub contains-unique_from :
      (out xs : List A) (b : A)
      → contains (unique_from out xs) b ≡ (contains out b || contains xs b)
  unfolding unique_from contains
  contains-unique_from out [] b = ground arith
  contains-unique_from out (x ∷ xs) b =
      ground
        (arith, contains-unique_from (append_unique out x) xs b, contains-append_unique out x b)

  pub unique_from-head :
      (x : A) (out xs : List A) → (rest : List A) × (unique_from (x ∷ out) xs ≡ x ∷ rest)
  unfolding unique_from
  unique_from-head x out [] = (out, refl)
  unique_from-head x out (y ∷ ys) = elim (Bool-cases (contains (x ∷ out) y)) [
    | inl old ↦ rw (old, append_unique) (unique_from-head x out ys)
    | inr new ↦ rw (new, append_unique) (unique_from-head x (out ++ y ∷ []) ys)
  ]

  pub contains-get_or :
      (xs : List A) (i : ℕ) (d : A) → i < length xs → contains xs (get_or xs i d) ≡ true
  unfolding contains
  contains-get_or [] i d h = elim h [ ]
  contains-get_or (x ∷ xs) ℕ.zero d h = ground (arith, e.beq_iff x x)
  contains-get_or (x ∷ xs) (ℕ.suc i) d h = ground (arith, contains-get_or xs i d)

  pub index_of :
      (xs : List A) (d g : A)
      → contains xs g ≡ true
      → (i : ℕ) × (i < length xs) × (get_or xs i d ≡ g)
  unfolding contains
  index_of [] d g h = elim (false≢true h) [ ]
  index_of (x ∷ xs) d g h = elim (Bool-cases (e.beq x g)) [
    | inl here ↦ (0, omega arith, (e.beq_iff x g).0 here)
    | inr later ↦
        (let (i, small, at) = index_of xs d g (ground arith) in (ℕ.suc i, omega arith, at))
  ]
