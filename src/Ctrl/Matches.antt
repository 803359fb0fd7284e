-- ===== src/Ctrl/Matches.antt =====
-- Which tasks a selector means, as the documentation of pkg/taskcore/ctrl/ctrl.go has it, and the row's
-- condition of the query behind it.
use anclax.Prelude.{
  ◌≡◌, ◌≢◌, ◌↔◌, refl, sym, subst, ◌⊎◌, Bool, true, false, not, ◌&&◌, String, List, [], ◌∷◌, Option,
  none, some, inl, inr, arith, Bool-cases, string_eq, str_eq, str_eq_iff,
}
use anclax.Prelude.Int.{ℤ, ℤ_eq}
use anclax.Prelude.Unique.{contains}
use anclax.Db.{TaskRow}
use anclax.Db.Trees.{has_all, excluded, selected}

-- Of each excepted set, unless it is empty, some tag is missing.
abbrev pub MissesEach : List String → List (List String) → Type 0
MissesEach tags [] = Unit {0}
MissesEach tags (set ∷ sets) =
    (set ≢ [] → (t : String) × (contains set t ≡ true) × (contains tags t ≡ false))
    × MissesEach tags sets

-- What the documentation of PauseTasksByTags asks of a task's tags: every required tag is among them,
-- and of no excepted set all the tags.
abbrev pub Matches : List String → List (List String) → List String → Type 0
Matches required except tags =
    ((t : String) → contains required t ≡ true → contains tags t ≡ true) × MissesEach tags except

-- The row of the task that stores such tags.
abbrev pub IsMatch : List String → List (List String) → ℤ → TaskRow → Type 0
IsMatch required except id r =
    (r.id ≡ id)
    × (tags : List String) × (r.attributes.tags ≡ some (some tags))
    × Matches required except tags

abbrev pub SomeRow : (TaskRow → Type 0) → List TaskRow → Type 0
SomeRow P [] = ⊥
SomeRow P (r ∷ rows) = P r ⊎ SomeRow P rows

abbrev pub is_null : Option (Option (List String)) → Bool
is_null (some none) = true
is_null _ = false

-- No row stores a nil slice of tags.
abbrev pub NoNullTags : List TaskRow → Type 0
NoNullTags [] = Unit {0}
NoNullTags (r ∷ rows) = (is_null r.attributes.tags ≡ false) × NoNullTags rows

contains_self : (t : String) (ts : List String) → contains (t ∷ ts) t ≡ true
unfolding contains
contains_self t ts = ground (arith, str_eq_iff t t)

has_all-contains :
    (tags required : List String)
    → has_all tags required ≡ true
    → (t : String) → contains required t ≡ true
    → contains tags t ≡ true
unfolding has_all contains
has_all-contains tags [] h t k = absurd (ground (arith, k))
has_all-contains tags (x ∷ xs) h t k = elim (Bool-cases (str_eq x t)) [
  | inl e ↦ subst (λ s. contains tags s ≡ true) ((str_eq_iff x t).0 e) (ground (arith, h))
  | inr e ↦ has_all-contains tags xs (ground (arith, h)) t (ground (arith, k, e))
]

contains-has_all :
    (tags required : List String)
    → ((t : String) → contains required t ≡ true → contains tags t ≡ true)
    → has_all tags required ≡ true
unfolding has_all contains
contains-has_all tags [] h = refl
contains-has_all tags (x ∷ xs) h =
    let first = h x (contains_self x xs) in
    let rest = contains-has_all tags xs (λ t k. h t (ground (arith, k))) in
    ground (arith, first, rest)

has_all-misses :
    (tags required : List String)
    → has_all tags required ≡ false
    → (t : String) × (contains required t ≡ true) × (contains tags t ≡ false)
unfolding has_all contains
has_all-misses tags [] h = absurd (ground (arith, h))
has_all-misses tags (x ∷ xs) h = elim (Bool-cases (contains tags x)) [
  | inr e ↦ (x, contains_self x xs, e)
  | inl e ↦
      (let (t, among, missing) = has_all-misses tags xs (ground (arith, h, e)) in
        (t, ground (arith, among), missing))
]

excluded-MissesEach :
    (tags : List String) (sets : List (List String))
    → excluded tags sets ≡ false
    → MissesEach tags sets
unfolding excluded
excluded-MissesEach tags [] h = tt
excluded-MissesEach tags ([] ∷ sets) h =
    (λ filled. absurd (filled refl), excluded-MissesEach tags sets h)
excluded-MissesEach tags ((t ∷ ts) ∷ sets) h = (
  λ filled. has_all-misses tags (t ∷ ts) (ground (arith, h)),
  excluded-MissesEach tags sets (ground (arith, h)),
)

MissesEach-excluded :
    (tags : List String) (sets : List (List String))
    → MissesEach tags sets
    → excluded tags sets ≡ false
unfolding excluded
MissesEach-excluded tags [] h = refl
MissesEach-excluded tags ([] ∷ sets) h = MissesEach-excluded tags sets h.1
MissesEach-excluded tags ((t ∷ ts) ∷ sets) h =
    let (x, among, missing) = h.0 (λ e. absurd (ground (arith, e))) in
    let rest = MissesEach-excluded tags sets h.1 in
    elim (Bool-cases (has_all tags (t ∷ ts))) [
      | inr e ↦ ground (arith, e, rest)
      | inl e ↦ absurd (ground (arith, has_all-contains tags (t ∷ ts) e x among, missing))
    ]

contains_no_tags :
    (tag : String) (ts : List String) → some (some []) ≡ some (some ts) → contains ts tag ≡ true → ⊥
unfolding contains
contains_no_tags tag [] e h = ground (arith, h)
contains_no_tags tag (t ∷ ts) e h = ground (arith, e)

abbrev pub Hits : String → List String → List (List String) → Option (Option (List String)) → Type 0
Hits tag required except stored =
    (tags : List String) × (stored ≡ some (some tags)) × Matches (tag ∷ required) except tags

-- The row's condition agrees with the documentation.
pub selected-Hits :
    (tag : String) (required : List String) (except : List (List String))
    (stored : Option (Option (List String)))
    → is_null stored ≡ false
    → (b : Bool) × (selected (tag ∷ required) except stored ≡ some b)
      × ((b ≡ true) ↔ Hits tag required except stored)
unfolding selected
selected-Hits tag required except none h =
    (false, refl, (λ e. absurd (ground (arith, e)), λ (ts, e, m). absurd (ground (arith, e))))
selected-Hits tag required except (some none) h = absurd (ground (arith, h))
selected-Hits tag required except (some (some [])) h = (
  false,
  refl,
  (
    λ e. absurd (ground (arith, e)),
    λ (ts, e, m). absurd (contains_no_tags tag ts e (m.0 tag (contains_self tag required))),
  ),
)
selected-Hits tag required except (some (some (t ∷ ts))) h = (
  has_all (t ∷ ts) (tag ∷ required) && not (excluded (t ∷ ts) except),
  refl,
  (
    λ e. (
      t ∷ ts,
      refl,
      (
        has_all-contains (t ∷ ts) (tag ∷ required) (ground (arith, e)),
        excluded-MissesEach (t ∷ ts) except (ground (arith, e)),
      ),
    ),
    λ (us, e, m).
        let same : t ∷ ts ≡ us = ground (arith, e) in
        let all : has_all (t ∷ ts) (tag ∷ required) ≡ true =
          subst (λ us. has_all us (tag ∷ required) ≡ true) (sym same)
            (contains-has_all us (tag ∷ required) m.0) in
        let free : excluded (t ∷ ts) except ≡ false =
          subst (λ us. excluded us except ≡ false) (sym same) (MissesEach-excluded us except m.1) in
        ground (arith, all, free),
  ),
)
