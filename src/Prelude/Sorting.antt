-- ===== src/Prelude/Sorting.antt =====
-- `sort.Strings`: insertion sort by the order of texts, byte by byte.
use Prim.Native.Nat.{ℕ, ◌+◌, Ordering}
use Prim.Native.String.{String, compare}
use mathlib.Core.Path.{◌≡◌, refl}
use mathlib.Core.Bool.{Bool, true, false}
use mathlib.Core.List.{List, [], ◌∷◌, ◌++◌}
use native.Mathlib.Omega.{arith}
use anclax.Prelude.Tests.{if◌then◌else◌}
use anclax.Prelude.Equality.{str_eq}

unfoldable pub str_le : String → String → Bool
str_le s t = elim (compare s t) [ Ordering.gt ↦ false | _ ↦ true ]

unfoldable pub insert_sorted : String → List String → List String
unfolding str_le
insert_sorted s [] = s ∷ []
insert_sorted s (t ∷ ts) = if str_le s t then s ∷ t ∷ ts else t ∷ insert_sorted s ts

unfoldable pub sort_strings : List String → List String
unfolding insert_sorted
sort_strings [] = []
sort_strings (s ∷ ts) = insert_sorted s (sort_strings ts)

-- How often a text occurs.
unfoldable pub count : String → List String → ℕ
count g [] = 0
count g (s ∷ ts) = (if str_eq s g then 1 else 0) + count g ts

count-insert_sorted :
    (g s : String) (ts : List String)
    → count g (insert_sorted s ts) ≡ (if str_eq s g then 1 else 0) + count g ts
unfolding count insert_sorted
count-insert_sorted g s [] = refl
count-insert_sorted g s (t ∷ ts) = ground (arith, count-insert_sorted g s ts)

-- Sorting keeps each text as often as it was.
pub count-sort_strings : (g : String) (ts : List String) → count g (sort_strings ts) ≡ count g ts
unfolding count sort_strings
count-sort_strings g [] = refl
count-sort_strings g (s ∷ ts) =
    omega (arith, count-insert_sorted g s (sort_strings ts), count-sort_strings g ts)

pub count-append : (g : String) (xs ys : List String) → count g (xs ++ ys) ≡ count g xs + count g ys
unfolding count
count-append g [] ys = omega arith
count-append g (x ∷ xs) ys = omega (arith, count-append g xs ys)
