-- ===== src/Broadcast/Targets.antt =====
-- The workers that a broadcast reaches: pkg/asynctask/executor_broadcast_worker.go.
use anclax.Prelude.{
  ℕ, ◌≡◌, refl, sym, ap, ◌∙◌, subst, ◌⊎◌, ==_iff, true, false, ◌||◌, ◌&&◌, not, List, [], ◌∷◌,
  arith, inl, inr, Bool-cases, ◌==◌, nat_eq,
}
use anclax.Prelude.Unique.{contains, append_unique, contains-append_unique}
use anclax.Db.{World, ok, statement}
use anclax.Db.Workers.{alive_ids, list_online_worker_ids}
use anclax.Db.Effects.{calm}
use anclax.Broadcast.{
  normalize_from, normalize_worker_id_snapshot, keep_alive, alive_subset_of_snapshot, alive_subset,
}

contains-normalize_from :
    (out ids : List ℕ) (j : ℕ)
    → contains (normalize_from out ids) j ≡ (contains out j || (not (j == 0) && contains ids j))
unfolding normalize_from contains
contains-normalize_from out [] j = ground arith
contains-normalize_from out (id ∷ ids) j = elim (Bool-cases (id == 0)) [
  | inl e ↦ rw e (ground (arith, e, contains-normalize_from out ids j))
  | inr e ↦ rw e (
      ground (
        arith,
        e,
        contains-normalize_from (append_unique out id) ids j,
        contains-append_unique out id j,
      ))
]

contains-keep_alive :
    (alive ids : List ℕ) (j : ℕ)
    → contains (keep_alive alive ids) j ≡ (contains alive j && contains ids j)
unfolding keep_alive contains
contains-keep_alive alive [] j = ground arith
contains-keep_alive alive (id ∷ ids) j = elim (Bool-cases (contains alive id)) [
  | inl e ↦ rw e (elim (Bool-cases (id == j)) [
    | inl f ↦ ground (
      arith,
      f,
      subst (λ x. contains alive x ≡ true) ((==_iff id j).0 f) e,
      contains-keep_alive alive ids j,
    )
    | inr f ↦ ground (arith, f, contains-keep_alive alive ids j)
  ])
  | inr e ↦ rw e (elim (Bool-cases (id == j)) [
    | inl f ↦ ground (
      arith,
      f,
      subst (λ x. contains alive x ≡ false) ((==_iff id j).0 f) e,
      contains-keep_alive alive ids j,
    )
    | inr f ↦ ground (arith, f, contains-keep_alive alive ids j)
  ])
]

contains-normalized :
    (ids : List ℕ) (j : ℕ)
    → contains (normalize_worker_id_snapshot ids) j ≡ (not (j == 0) && contains ids j)
unfolding normalize_worker_id_snapshot contains
contains-normalized ids j = contains-normalize_from [] ids j

abbrev pub alive_now : (World → ℕ) → World → List ℕ
alive_now cutoff w = alive_ids (cutoff (calm w)) w.db.workers

-- The workers to reach, when no statement fails: without a snapshot, or with one of nil ids only, all
-- that are alive; with one, exactly those in it that are alive, the nil id left out.
alive_subset_of_snapshot-members :
    (cutoff : World → ℕ) (ids : List ℕ) (w : World)
    → (out : List ℕ) × (alive_subset_of_snapshot cutoff ids (calm w) ≡ (calm w, ok out))
      × (((normalize_worker_id_snapshot ids ≡ []) × (out ≡ alive_now cutoff w))
          ⊎ ((j : ℕ)
              → contains out j
                ≡ (contains (alive_now cutoff w) j && (not (j == 0) && contains ids j))))
unfolding alive_subset_of_snapshot list_online_worker_ids statement
alive_subset_of_snapshot-members cutoff ids w = go (normalize_worker_id_snapshot ids) refl
  where
    go :
        (snapshot : List ℕ)
        → normalize_worker_id_snapshot ids ≡ snapshot
        → (out : List ℕ) × (alive_subset cutoff snapshot (calm w) ≡ (calm w, ok out))
          × (((snapshot ≡ []) × (out ≡ alive_now cutoff w))
              ⊎ ((j : ℕ)
                  → contains out j
                    ≡ (contains (alive_now cutoff w) j && (not (j == 0) && contains ids j))))
    go [] e = (alive_now cutoff w, refl, inl (refl, refl))
    go (id ∷ rest) e = (
      keep_alive (alive_now cutoff w) (id ∷ rest),
      refl,
      inr (λ j.
          contains-keep_alive (alive_now cutoff w) (id ∷ rest) j
          ∙ ap (λ c. contains (alive_now cutoff w) j && c)
              (ap (λ (l : List ℕ). contains l j) (sym e) ∙ contains-normalized ids j)),
    )
