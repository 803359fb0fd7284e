-- ===== src/Worker/Engine/Cycles.antt =====
-- The map of running cycles: how its size and its strict cycles change, and what holds of each cycle.
use anclax.Prelude.{
  ℕ, suc, ◌+◌, ◌≤◌, ◌≡◌, refl, ◌≢◌, Bool, true, false, not, List, [], ◌∷◌, Option, none, some,
  arith, length, if◌then◌else◌, nat_eq,
}
use anclax.Prelude.Dict.{lookup, insert, erase}
use anclax.Worker.Types.{CycleState, Phase}
use anclax.Worker.State.{is_strict}

abbrev pub Cycles : Type 0
Cycles = List (ℕ × CycleState)

abbrev pub strict_slot : CycleState → ℕ
strict_slot c = if is_strict c.lane then 1 else 0

-- How many cycles hold a slot of the strict lane.
unfoldable pub strict_cycles : Cycles → ℕ
strict_cycles [] = 0
strict_cycles ((k, c) ∷ m) = strict_slot c + strict_cycles m

pub length-insert_new :
    (k : ℕ) (c : CycleState) (m : Cycles)
    → lookup k m ≡ none
    → (length (insert k c m) ≡ suc (length m))
      × (strict_cycles (insert k c m) ≡ strict_slot c + strict_cycles m)
unfolding lookup insert strict_cycles
length-insert_new k c [] h = (refl, refl)
length-insert_new k c ((j, d) ∷ m) h = ground (arith, length-insert_new k c m)

pub length-insert_old :
    (k : ℕ) (c d : CycleState) (m : Cycles)
    → lookup k m ≡ some d
    → (length (insert k c m) ≡ length m)
      × (strict_cycles (insert k c m) + strict_slot d ≡ strict_slot c + strict_cycles m)
unfolding lookup insert strict_cycles
length-insert_old k c d [] h = ground arith
length-insert_old k c d ((j, x) ∷ m) h = ground (arith, length-insert_old k c d m)

pub length-erase :
    (k : ℕ) (d : CycleState) (m : Cycles)
    → lookup k m ≡ some d
    → (suc (length (erase k m)) ≡ length m)
      × (strict_cycles (erase k m) + strict_slot d ≡ strict_cycles m)
unfolding lookup erase strict_cycles
length-erase k d [] h = ground arith
length-erase k d ((j, x) ∷ m) h = ground (arith, length-erase k d m)

abbrev is_some : {A : Type 0} → Option A → Bool
is_some none = false
is_some (some a) = true

-- A claiming cycle is in the lane of its claim; past the claims a cycle has its task.
unfoldable pub is_coherent : CycleState → Bool
is_coherent c = elim c.phase [
  | Phase.claim_strict ↦ is_strict c.lane
  | Phase.claim_normal ↦ not (is_strict c.lane)
  | Phase.executing ↦ is_some c.task
  | Phase.finalizing ↦ is_some c.task
]

abbrev pub CycleOk : CycleState → Type 0
CycleOk c = is_coherent c ≡ true

-- Every cycle stands under its own id, once, at most `top`.
abbrev pub AllCycles : ℕ → Cycles → Type 0
AllCycles top [] = Unit {0}
AllCycles top ((k, c) ∷ m) =
    (k ≤ top) × (c.id ≡ k) × CycleOk c × (lookup k m ≡ none) × AllCycles top m

pub AllCycles-mono : (a b : ℕ) (m : Cycles) → a ≤ b → AllCycles a m → AllCycles b m
AllCycles-mono a b [] h s = tt
AllCycles-mono a b ((k, c) ∷ m) h s = (omega arith, s.1, s.2, s.3, AllCycles-mono a b m h s.4)

pub AllCycles-lookup :
    (top k : ℕ) (c : CycleState) (m : Cycles)
    → AllCycles top m
    → lookup k m ≡ some c
    → (k ≤ top) × (c.id ≡ k) × CycleOk c
unfolding lookup
AllCycles-lookup top k c [] s h = ground arith
AllCycles-lookup top k c ((j, d) ∷ m) s h = ground (arith, AllCycles-lookup top k c m s.4)

pub AllCycles-fresh : (top k : ℕ) (m : Cycles) → AllCycles top m → suc top ≤ k → lookup k m ≡ none
unfolding lookup
AllCycles-fresh top k [] s h = refl
AllCycles-fresh top k ((j, d) ∷ m) s h = ground (arith, AllCycles-fresh top k m s.4)

lookup-insert_other :
    (j k : ℕ) (c : CycleState) (m : Cycles)
    → j ≢ k
    → lookup j m ≡ none
    → lookup j (insert k c m) ≡ none
unfolding lookup insert
lookup-insert_other j k c [] h e = ground arith
lookup-insert_other j k c ((i, d) ∷ m) h e = ground (arith, lookup-insert_other j k c m h)

lookup-erase-none : (j k : ℕ) (m : Cycles) → lookup j m ≡ none → lookup j (erase k m) ≡ none
unfolding lookup erase
lookup-erase-none j k [] e = refl
lookup-erase-none j k ((i, d) ∷ m) e = ground (arith, lookup-erase-none j k m)

pub AllCycles-insert :
    (top k : ℕ) (c : CycleState) (m : Cycles)
    → k ≤ top
    → c.id ≡ k
    → CycleOk c
    → AllCycles top m
    → AllCycles top (insert k c m)
unfolding insert lookup
AllCycles-insert top k c [] h i o s = (h, i, o, refl, tt)
AllCycles-insert top k c ((j, d) ∷ m) h i o s =
    ground (arith, AllCycles-insert top k c m h i o s.4, lookup-insert_other j k c m)

pub AllCycles-erase : (top k : ℕ) (m : Cycles) → AllCycles top m → AllCycles top (erase k m)
unfolding erase lookup
AllCycles-erase top k [] s = tt
AllCycles-erase top k ((j, d) ∷ m) s =
    ground (arith, AllCycles-erase top k m s.4, lookup-erase-none j k m)
