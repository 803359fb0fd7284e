-- ===== src/Worker/Port/Versions.antt =====
-- The versions that the workers have applied: the workers table of sql/queries/workers.sql.
use anclax.Prelude.{
  ℕ, ◌≡◌, refl, Bool, true, false, ◌||◌, ◌&&◌, not, List, [], ◌∷◌, ◌++◌, arith, ◌==◌, nat_eq,
}
use anclax.Prelude.Int.{ℤ, ltb_ℤ, leb_ℤ}
use anclax.Prelude.Unique.{contains}
use anclax.Db.{WorkerRow}
use anclax.Db.Workers.{update_worker, has_worker, lagging_ids, greatest}

-- Every row of the worker has applied the version at least.
unfoldable pub caught_up : ℕ → ℤ → List WorkerRow → Bool
caught_up id version [] = true
caught_up id version (r ∷ rows) =
    (not (r.id == id) || not (ltb_ℤ r.applied_config_version version)) && caught_up id version rows

-- An update that leaves the id, and takes no version back.
abbrev pub IsForward : ℤ → (WorkerRow → WorkerRow) → Type 0
IsForward version f =
    (r : WorkerRow)
    → ((f r).id ≡ r.id)
      × (ltb_ℤ r.applied_config_version version ≡ false
          → ltb_ℤ (f r).applied_config_version version ≡ false)

pub caught_up-update_worker :
    (id j : ℕ) (version : ℤ) (f : WorkerRow → WorkerRow) (rows : List WorkerRow)
    → IsForward version f
    → caught_up id version rows ≡ true
    → caught_up id version (update_worker j f rows) ≡ true
unfolding caught_up update_worker
caught_up-update_worker id j version f [] fwd h = refl
caught_up-update_worker id j version f (r ∷ rows) fwd h =
    ground (arith, fwd r, caught_up-update_worker id j version f rows fwd)

pub has_worker-update_worker :
    (id j : ℕ) (version : ℤ) (f : WorkerRow → WorkerRow) (rows : List WorkerRow)
    → IsForward version f
    → has_worker id (update_worker j f rows) ≡ has_worker id rows
unfolding has_worker update_worker
has_worker-update_worker id j version f [] fwd = refl
has_worker-update_worker id j version f (r ∷ rows) fwd =
    ground (arith, fwd r, has_worker-update_worker id j version f rows fwd)

pub caught_up-greatest :
    (id : ℕ) (version v : ℤ) (rows : List WorkerRow)
    → leb_ℤ version v ≡ true
    → caught_up id version (
        update_worker id
          (λ r. record r { applied_config_version = greatest r.applied_config_version v })
          rows)
      ≡ true
unfolding caught_up update_worker
caught_up-greatest id version v [] h = refl
caught_up-greatest id version v (r ∷ rows) h =
    ground (arith, caught_up-greatest id version v rows h)

pub caught_up-snoc :
    (id : ℕ) (version : ℤ) (rows : List WorkerRow) (r : WorkerRow)
    → (r.id == id) ≡ false
    → caught_up id version rows ≡ true
    → caught_up id version (rows ++ r ∷ []) ≡ true
unfolding caught_up
caught_up-snoc id version [] r n h = ground (arith, n)
caught_up-snoc id version (q ∷ rows) r n h = ground (arith, caught_up-snoc id version rows r n)

pub has_worker-snoc :
    (id : ℕ) (rows : List WorkerRow) (r : WorkerRow)
    → has_worker id rows ≡ true
    → has_worker id (rows ++ r ∷ []) ≡ true
unfolding has_worker
has_worker-snoc id [] r h = absurd (ground (arith, h))
has_worker-snoc id (q ∷ rows) r h = ground (arith, has_worker-snoc id rows r)

pub lagging_ids-caught_up :
    (id cutoff : ℕ) (version : ℤ) (rows : List WorkerRow)
    → caught_up id version rows ≡ true
    → contains (lagging_ids cutoff version rows) id ≡ false
unfolding caught_up lagging_ids contains
lagging_ids-caught_up id cutoff version [] h = refl
lagging_ids-caught_up id cutoff version (r ∷ rows) h =
    ground (arith, lagging_ids-caught_up id cutoff version rows)
