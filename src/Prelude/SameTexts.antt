-- ===== src/Prelude/SameTexts.antt =====
-- Lists that hold the same texts, as often, are sorted alike: the order in which `range` visits a map
-- does not show in what `sort.Strings` makes of its keys.
use Prim.Native.Nat.{◌+◌, ◌<◌}
use Prim.Native.String.{String}
use mathlib.Core.Path.{◌≡◌, refl, sym, ap, ◌∙◌}
use mathlib.Core.Logic.{inl, inr}
use mathlib.Core.List.{List, [], ◌∷◌}
use native.Mathlib.Omega.{arith}
use anclax.Prelude.Tests.{if◌then◌else◌, Bool-cases}
use anclax.Prelude.Equality.{str_eq, str_eq_iff}
use anclax.Prelude.Sorting.{count, insert_sorted, sort_strings}
use anclax.Prelude.Order.{insert_sorted_comm}

abbrev pub SameTexts : List String → List String → Type 0
SameTexts xs ys = (g : String) → count g xs ≡ count g ys

-- Without the first occurrence.
remove : String → List String → List String
remove x [] = []
remove x (y ∷ ys) = let rest = remove x ys in if str_eq y x then ys else y ∷ rest

count-remove :
    (g x : String) (ys : List String)
    → 0 < count x ys
    → count g ys ≡ (if str_eq x g then 1 else 0) + count g (remove x ys)
unfolding count remove
count-remove g x [] h = absurd (ground (arith, h))
count-remove g x (y ∷ ys) h = elim (Bool-cases (str_eq y x)) [
  | inl e ↦ rw e (ap (λ z. (if str_eq z g then 1 else 0) + count g ys) ((str_eq_iff y x).0 e))
  | inr e ↦ rw e (ground (arith, count-remove g x ys (ground (arith, h, e))))
]

sort_strings-remove :
    (x : String) (ys : List String)
    → 0 < count x ys
    → sort_strings ys ≡ insert_sorted x (sort_strings (remove x ys))
unfolding count remove sort_strings
sort_strings-remove x [] h = absurd (ground (arith, h))
sort_strings-remove x (y ∷ ys) h = elim (Bool-cases (str_eq y x)) [
  | inl e ↦ rw e (ap (λ z. insert_sorted z (sort_strings ys)) ((str_eq_iff y x).0 e))
  | inr e ↦ rw e (
      ap (insert_sorted y) (sort_strings-remove x ys (ground (arith, h, e)))
      ∙ insert_sorted_comm y x (sort_strings (remove x ys)))
]

nil-SameTexts : (ys : List String) → SameTexts [] ys → ys ≡ []
unfolding count
nil-SameTexts [] h = refl
nil-SameTexts (y ∷ ys) h = absurd (ground (arith, h y, str_eq_iff y y))

pub sort_strings-SameTexts :
    (xs ys : List String) → SameTexts xs ys → sort_strings xs ≡ sort_strings ys
unfolding count sort_strings
sort_strings-SameTexts [] ys h = ap sort_strings (sym (nil-SameTexts ys h))
sort_strings-SameTexts (x ∷ xs) ys h =
    let there : 0 < count x ys = ground (arith, h x, str_eq_iff x x) in
    ap (insert_sorted x)
      (sort_strings-SameTexts xs (remove x ys) (λ g. omega (arith, h g, count-remove g x ys there)))
    ∙ sym (sort_strings-remove x ys there)
