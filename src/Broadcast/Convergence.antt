-- ===== src/Broadcast/Convergence.antt =====
-- When a broadcast of a runtime configuration returns: waitForConvergence of
-- pkg/asynctask/executor_broadcast_worker.go.
use anclax.Prelude.{
  ℕ, ◌≡◌, refl, sym, ap, ◌∙◌, subst, ◌⊎◌, inl, inr, true, false, String, List, [], ◌∷◌, arith,
  Bool-cases, if◌then◌else◌, ◌==◌, ==_iff, nat_eq,
}
use anclax.Prelude.Int.{ℤ, ltb_ℤ}
use anclax.Prelude.Unique.{contains}
use anclax.Db.{World, ConfigRow, ok, M, ◌>>=◌, return}
use anclax.Db.Workers.{get_latest_worker_runtime_config, list_lagging_alive_workers}
use anclax.Db.Effects.Succeeding.{after-ok}
use anclax.Store.{wrapped}
use anclax.Broadcast.{Sleeps, list_alive_workers}
use anclax.Broadcast.Safety.{Starts, poll, poll-ok}
use anclax.Broadcast.Update.{count_in, cancel_dead, convergence_round, wait_for_convergence}

count_in-zero :
    (targets ids : List ℕ) (t : ℕ)
    → count_in targets ids ≡ 0
    → contains ids t ≡ true
    → contains targets t ≡ false
unfolding count_in contains
count_in-zero targets [] t h k = absurd (ground (arith, k))
count_in-zero targets (id ∷ ids) t h k = elim (Bool-cases (contains targets id)) [
  | inl f ↦ absurd (ground (arith, rw f at h))
  | inr f ↦ elim (Bool-cases (id == t)) [
    | inl e ↦ subst (λ x. contains targets x ≡ false) ((==_iff id t).0 e) f
    | inr e ↦ count_in-zero targets ids t (ground (arith, rw f at h)) (rw e at k)
  ]
]

abbrev lagging_in : (World → ℕ) → ℤ → M (List ℕ)
lagging_in cutoff version w =
    wrapped "list lagging alive workers" (list_lagging_alive_workers (cutoff w) version) w

-- What the last round read, from the world that it started on: a configuration newer than the one that
-- was sent, or the alive workers that have not applied it yet, of which no target is one.
abbrev pub Converged : (World → ℕ) → ℤ → List ℕ → World → Type 0
Converged cutoff version targets v =
    (u : World) × (latest : ConfigRow) × (wrapped "get latest runtime config"
        get_latest_worker_runtime_config v
      ≡ (u, ok latest))
    × ((ltb_ℤ version latest.version ≡ true)
        ⊎ ((u' : World) × (lagging : List ℕ) × (lagging_in cutoff version u ≡ (u', ok lagging))
            × ((t : ℕ) → contains lagging t ≡ true → contains targets t ≡ false)))

module _ (show_uuid : ℕ → String) (show_int : ℤ → String) (cutoff : World → ℕ) where
  convergence_round-true :
      (request : String) (version : ℤ) (targets : List ℕ) (w w' : World)
      → convergence_round show_uuid show_int cutoff request version targets w ≡ (w', ok true)
      → Converged cutoff version targets w
  unfolding convergence_round
  convergence_round-true request version targets w w' h =
      let (u, latest, read, k) =
        after-ok (wrapped "get latest runtime config" get_latest_worker_runtime_config w)
          (λ latest.
            if ltb_ℤ version latest.version
            then return true
            else (lagging_in cutoff version >>= λ lagging. list_alive_workers cutoff >>= λ alive.
                cancel_dead show_uuid show_int request version alive targets >>= λ done.
                return (count_in targets lagging == 0)))
          w' true h in
      (
        u,
        latest,
        read,
        elim (Bool-cases (ltb_ℤ version latest.version)) [
          | inl newer ↦ inl newer
          | inr same ↦
              (let (u', lagging, listed, k2) =
                  after-ok (lagging_in cutoff version u)
                    (λ lagging. list_alive_workers cutoff >>= λ alive.
                      cancel_dead show_uuid show_int request version alive targets >>= λ done.
                      return (count_in targets lagging == 0))
                    w' true (rw same at k) in
                let (u2, alive, found, k3) =
                  after-ok (list_alive_workers cutoff u')
                    (λ alive.
                      cancel_dead show_uuid show_int request version alive targets >>= λ done.
                      return (count_in targets lagging == 0))
                    w' true k2 in
                let (u3, done, cancelled, k4) =
                  after-ok (cancel_dead show_uuid show_int request version alive targets u2)
                    (λ done. return (count_in targets lagging == 0)) w' true k3 in
                inr (
                  u',
                  lagging,
                  listed,
                  λ t.
                      count_in-zero targets lagging t (
                        (==_iff (count_in targets lagging) 0).0 (ground (arith, ap (λ x. x.1) k4))),
                ))
        ],
      )

  wait_for_convergence-poll :
      (request : String) (version : ℤ) (targets : List ℕ) (sleeps : Sleeps)
      → wait_for_convergence show_uuid show_int cutoff request version targets sleeps
        ≡ poll (convergence_round show_uuid show_int cutoff request version targets) sleeps
  unfolding wait_for_convergence
  wait_for_convergence-poll request version targets [] = refl
  wait_for_convergence-poll request version targets (others ∷ sleeps) =
      ap
        (λ (later : M (Unit {0})).
          convergence_round show_uuid show_int cutoff request version targets >>= λ done.
          if done then return tt else (λ w. later (others w)))
        (wait_for_convergence-poll request version targets sleeps)

  -- The wait of a configuration broadcast, whatever the others do between its rounds and whatever fails:
  -- it returns without an error only after a round that read a newer configuration, or the list of the
  -- alive workers that lag behind and no target in it.
  pub wait_for_convergence-Converged :
      (request : String) (version : ℤ) (targets : List ℕ) (sleeps : Sleeps) (w w' : World)
      → wait_for_convergence show_uuid show_int cutoff request version targets sleeps w
        ≡ (w', ok tt)
      → (v : World) × Starts
          (convergence_round show_uuid show_int cutoff request version targets)
          sleeps
          w
          v
        × Converged cutoff version targets v
  wait_for_convergence-Converged request version targets sleeps w w' h =
      let (v, starts, last) =
        poll-ok (convergence_round show_uuid show_int cutoff request version targets) sleeps w w' (
          ap (λ (m : M (Unit {0})). m w)
            (sym (wait_for_convergence-poll request version targets sleeps))
          ∙ h) in
      (v, starts, convergence_round-true request version targets v w' last)
