-- ===== src/Prelude/Order.antt =====
-- The order of texts, as `sort.Strings` has it: total and transitive.
use Prim.Native.Nat.{ℕ, Ordering}
use Prim.Native.Nat as Nat
use Prim.Native.Char.{Char, code}
use Prim.Native.String.{String, compare, then}
use Prim.Native.String.compare as Compare
use mathlib.Core.Path.{◌≡◌, refl, ap, ◌∙◌}
use mathlib.Core.Bool.{Bool, true, false, ◌&&◌, ◌||◌}
use native.Mathlib.Omega.{arith}
use text.Mathlib.TextEquality.{Char-path}
use anclax.Prelude.Tests.{ltb, ◌==◌}
use mathlib.Core.List.{List, [], ◌∷◌}
use anclax.Prelude.Sorting.{str_le, insert_sorted}

abbrev le_of : Ordering → Bool
le_of o = elim o [ Ordering.gt ↦ false | _ ↦ true ]

str_le-nil : (t : String) → str_le String.[] t ≡ true
unfolding str_le
str_le-nil String.[] = λ i. le_of (Compare.nil-nil i)
str_le-nil (String.◌∷◌ d t) = λ i. le_of (Compare.nil-cons d t i)

str_le-cons-nil : (c : Char) (s : String) → str_le (String.◌∷◌ c s) String.[] ≡ false
unfolding str_le
str_le-cons-nil c s = λ i. le_of (Compare.cons-nil c s i)

split_then :
    (o q : Ordering)
    → le_of (then o q) ≡ (
        (elim o [ Ordering.lt ↦ true | _ ↦ false ])
        || (elim o [ Ordering.eq ↦ true | _ ↦ false ]) && le_of q)
split_then Ordering.lt q = refl
split_then Ordering.eq q = refl
split_then Ordering.gt q = refl

str_le-cons :
    (c d : Char) (s t : String)
    → str_le (String.◌∷◌ c s) (String.◌∷◌ d t)
      ≡ (ltb (code c) (code d) || code c == code d && str_le s t)
unfolding str_le
str_le-cons c d s t =
    (λ i. le_of (Compare.cons-cons c d s t i))
    ∙ split_then (Nat.compare (code c) (code d)) (compare s t)

str_le_trans : (s t u : String) → str_le s t ≡ true → str_le t u ≡ true → str_le s u ≡ true
str_le_trans String.[] t u h k = str_le-nil u
str_le_trans (String.◌∷◌ c s) String.[] u h k = absurd (ground (arith, h, str_le-cons-nil c s))
str_le_trans (String.◌∷◌ c s) (String.◌∷◌ d t) String.[] h k =
    absurd (ground (arith, k, str_le-cons-nil d t))
str_le_trans (String.◌∷◌ c s) (String.◌∷◌ d t) (String.◌∷◌ e u) h k =
    ground (
      arith,
      h,
      k,
      str_le-cons c d s t,
      str_le-cons d e t u,
      str_le-cons c e s u,
      str_le_trans s t u,
    )

str_le-total : (s t : String) → str_le s t ≡ false → str_le t s ≡ true
str_le-total s String.[] h = str_le-nil s
str_le-total String.[] (String.◌∷◌ d t) h = absurd (ground (arith, h, str_le-nil (String.◌∷◌ d t)))
str_le-total (String.◌∷◌ c s) (String.◌∷◌ d t) h =
    ground (arith, h, str_le-cons c d s t, str_le-cons d c t s, str_le-total s t)

str_le-antisym : (s t : String) → str_le s t ≡ true → str_le t s ≡ true → s ≡ t
str_le-antisym String.[] String.[] h k = refl
str_le-antisym String.[] (String.◌∷◌ d t) h k = absurd (ground (arith, k, str_le-cons-nil d t))
str_le-antisym (String.◌∷◌ c s) String.[] h k = absurd (ground (arith, h, str_le-cons-nil c s))
str_le-antisym (String.◌∷◌ c s) (String.◌∷◌ d t) h k =
    let same : code c ≡ code d = ground (arith, h, k, str_le-cons c d s t, str_le-cons d c t s) in
    let rest : s ≡ t =
      str_le-antisym s t (ground (arith, h, k, same, str_le-cons c d s t, str_le-cons d c t s))
        (ground (arith, h, k, same, str_le-cons c d s t, str_le-cons d c t s)) in
    ap (λ x. String.◌∷◌ x s) (Char-path c d same) ∙ ap (String.◌∷◌ d) rest

pub insert_sorted_comm :
    (a b : String) (xs : List String)
    → insert_sorted a (insert_sorted b xs) ≡ insert_sorted b (insert_sorted a xs)
unfolding insert_sorted
insert_sorted_comm a b [] = ground (arith, str_le-total a b, str_le-total b a, str_le-antisym a b)
insert_sorted_comm a b (x ∷ xs) = ground (
  arith,
  str_le-total a b,
  str_le-total b a,
  str_le-antisym a b,
  str_le_trans a b x,
  str_le_trans b a x,
  insert_sorted_comm a b xs,
)
