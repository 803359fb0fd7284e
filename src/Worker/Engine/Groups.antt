-- ===== src/Worker/Engine/Groups.antt =====
-- The order in which a cycle claims from the groups: `nextNormalClaimGroups`.
use native.Mathlib.Nat.{mod-eq_of_lt, mod-lt, add-mod_right}
use anclax.Prelude.{
  ℕ, zero, suc, ◌+◌, ◌-◌, ◌%◌, ◌<◌, ◌≡◌, refl, ap, ◌∙◌, subst, true, String, List, [], ◌∷◌, arith,
  length, get_or, string_eq, str_eq, str_eq_iff, Bool-ext, Bool-cases, inl, inr, leb,
}
use anclax.Prelude.Unique.{
  contains, append_unique, unique_from, IsDistinct, IsDistinct-unique_from, contains-unique_from,
  unique_from-head, contains-get_or, index_of,
}
use anclax.Worker.Types.{default_weight_group}
use anclax.Worker.State.{groups_from, claim_groups}

-- The position that the loop reads at step `at`.
abbrev position : List String → ℕ → String
position wheel at = get_or wheel (at % length wheel) default_weight_group

-- The positions that the loop goes through, with repetitions.
turn : List String → ℕ → ℕ → List String
turn wheel at zero = []
turn wheel at (suc n) = position wheel at ∷ turn wheel (at + 1) n

groups_from-turn :
    (wheel : List String) (at n : ℕ) (out : List String)
    → groups_from wheel at n out ≡ unique_from out (turn wheel at n)
unfolding groups_from turn unique_from
groups_from-turn wheel at zero out = refl
groups_from-turn wheel at (suc n) out =
    groups_from-turn wheel (at + 1) n (append_unique out (position wheel at))

turn_sound :
    (wheel : List String) (at n : ℕ) (g : String)
    → 0 < length wheel
    → contains (turn wheel at n) g ≡ true
    → contains wheel g ≡ true
unfolding turn contains
turn_sound wheel at zero g p h = ground arith
turn_sound wheel at (suc n) g p h = elim (Bool-cases (str_eq (position wheel at) g)) [
  | inl here ↦
      subst (λ x. contains wheel x ≡ true) ((str_eq_iff (position wheel at) g).0 here)
        (contains-get_or wheel (at % length wheel) default_weight_group (mod-lt at p))
  | inr later ↦ turn_sound wheel (at + 1) n g p (ground arith)
]

turn_complete :
    (wheel : List String) (at n k to : ℕ)
    → k < n
    → at + k ≡ to
    → contains (turn wheel at n) (position wheel to) ≡ true
unfolding turn contains
turn_complete wheel at zero k to h e = elim h [ ]
turn_complete wheel at (suc n) zero to h e =
    let same : at ≡ to = omega arith in
    ground
      (arith, (str_eq_iff (position wheel at) (position wheel to)).1 (ap (position wheel) same))
turn_complete wheel at (suc n) (suc k) to h e =
    ground (arith, turn_complete wheel (at + 1) n k to (omega arith) (omega arith))

-- Every index of the wheel is reached within one turn.
turn_reaches :
    (wheel : List String) (start j : ℕ)
    → start < length wheel
    → j < length wheel
    → contains (turn wheel start (length wheel)) (get_or wheel j default_weight_group) ≡ true
turn_reaches wheel start j s h = elim (Bool-cases (leb start j)) [
  | inl ahead ↦
      subst
        (λ i.
          contains (turn wheel start (length wheel)) (get_or wheel i default_weight_group) ≡ true)
        (mod-eq_of_lt h)
        (turn_complete wheel start (length wheel) (j - start) j (omega arith) (ground arith))
  | inr behind ↦
      subst
        (λ i.
          contains (turn wheel start (length wheel)) (get_or wheel i default_weight_group) ≡ true)
        (add-mod_right j (length wheel) ∙ mod-eq_of_lt h)
        (turn_complete wheel start (length wheel) (j + length wheel - start) (j + length wheel)
          (ground arith) (omega arith))
]

claim_groups_unique :
    (wheel : List String) (start : ℕ)
    → 0 < length wheel
    → claim_groups wheel start ≡ unique_from [] (turn wheel start (length wheel))
unfolding claim_groups
claim_groups_unique [] start h = elim h [ ]
claim_groups_unique (g ∷ gs) start h = groups_from-turn (g ∷ gs) start (length (g ∷ gs)) []

-- With the cursor on the wheel, a cycle claims from each group of the wheel exactly once, and from
-- no other.
claim_groups_complete :
    (wheel : List String) (start : ℕ)
    → start < length wheel
    → IsDistinct (claim_groups wheel start)
      × ((g : String) → contains (claim_groups wheel start) g ≡ contains wheel g)
unfolding contains
claim_groups_complete wheel start h = rw (claim_groups_unique wheel start (omega arith)) (
  IsDistinct-unique_from [] (turn wheel start (length wheel)) tt,
  λ g.
      contains-unique_from [] (turn wheel start (length wheel)) g
      ∙ Bool-ext _ _ (turn_sound wheel start (length wheel) g (omega arith)) (λ c.
        let (j, small, at) = index_of wheel default_weight_group g c in
        subst (λ x. contains (turn wheel start (length wheel)) x ≡ true) at
          (turn_reaches wheel start j h small)),
)

-- With the cursor on the wheel, the first group is the one under the cursor.
claim_groups-first :
    (wheel : List String) (start : ℕ)
    → start < length wheel
    → (rest : List String) × (claim_groups wheel start
        ≡ get_or wheel start default_weight_group ∷ rest)
unfolding turn unique_from append_unique contains
claim_groups-first [] start h = elim h [ ]
claim_groups-first (x ∷ xs) start h =
    rw (claim_groups_unique (x ∷ xs) start (omega arith), mod-eq_of_lt h)
      (unique_from-head (get_or (x ∷ xs) start default_weight_group) []
        (turn (x ∷ xs) (start + 1) (length xs)))
