-- ===== src/Worker/Port/CaughtUp.antt =====
-- A worker that has acknowledged a configuration is not waited for again:
-- pkg/taskcore/worker/model_port.go and the list of lagging workers of sql/queries/workers.sql.
use anclax.Prelude.{
  ℕ, ◌≡◌, refl, sym, ap, ◌∙◌, subst, inl, inr, true, false, String, List, [], ◌∷◌, Option, none,
  some, arith, Bool-cases, ◌==◌, ==_iff, nat_eq,
}
use anclax.Prelude.Int.{ℤ, leb_ℤ}
use anclax.Prelude.Unique.{contains}
use anclax.Errors.{Err}
use anclax.Db.{WorkerRow, Db, World, Reply, ok, fail, statement, run_statement, recover, throw}
use anclax.Db.Workers.{
  update_worker, has_worker, lagging_ids, heard, greatest, upsert_worker, mark_worker_offline,
  update_worker_heartbeat, update_worker_applied_config_version,
}
use anclax.Db.Effects.Failing.{statement-ok}
use anclax.Db.Effects.Succeeding.{recover-ok, Throws-wrap}
use anclax.Worker.Port.{ModelPort}
use anclax.Worker.Port.Workers.{
  register_worker, mark_offline, heartbeat, ack_runtime_config_applied,
}
use anclax.Worker.Port.Versions.{
  caught_up, IsForward, caught_up-update_worker, has_worker-update_worker, caught_up-greatest,
  caught_up-snoc, has_worker-snoc, lagging_ids-caught_up,
}

abbrev pub IsUpToDate : ℕ → ℤ → Db → Type 0
IsUpToDate id version d = (has_worker id d.workers ≡ true) × (caught_up id version d.workers ≡ true)

statement-keeps :
    {A : Type 0} (Q : Db → Type 0) (act : World → World × Reply A) (w : World)
    → Q w.db
    → ((u : World) → u.db ≡ w.db → Q (act u).0.db)
    → Q (statement act w).0.db
unfolding statement
statement-keeps {A} Q act w q k = go w.faults
  where
    go : (faults : List (Option Err)) → Q (run_statement faults act w).0.db
    go [] = k w refl
    go (none ∷ rest) = k (record w { faults = rest }) refl
    go (some e ∷ rest) = q

wrapped-world :
    {A : Type 0} (what : String) (out : World × Reply A)
    → (recover out (λ e. throw (Err.wrap what e))).0 ≡ out.0
wrapped-world what (w, ok a) = refl
wrapped-world what (w, fail e) = refl

-- What the workers do to their rows, in any order, and what others do to the rest.
pub data PortStep : Type 0 where
  register : ModelPort → ℤ → PortStep
  offline : ModelPort → PortStep
  beat : ModelPort → PortStep
  ack : ModelPort → ℤ → PortStep
  others : (f : World → World) → ((w : World) → (f w).db.workers ≡ w.db.workers) → PortStep

-- Whether the operation succeeds or fails.
unfoldable pub run_step : PortStep → World → World
unfolding register_worker mark_offline heartbeat ack_runtime_config_applied
run_step (PortStep.register p version) w = (register_worker p version w).0
run_step (PortStep.offline p) w = (mark_offline p w).0
run_step (PortStep.beat p) w = (heartbeat p w).0
run_step (PortStep.ack p version) w = (ack_runtime_config_applied p version w).0
run_step (PortStep.others f same) w = f w

unfoldable pub run_steps : List PortStep → World → World
unfolding run_step
run_steps [] w = w
run_steps (s ∷ steps) w = run_steps steps (run_step s w)

-- An update of one row by a worker's statement.
updated :
    (id j : ℕ) (version : ℤ) (f : WorkerRow → WorkerRow) (rows : List WorkerRow)
    → IsForward version f
    → (has_worker id rows ≡ true) × (caught_up id version rows ≡ true)
    → (has_worker id (update_worker j f rows) ≡ true)
      × (caught_up id version (update_worker j f rows) ≡ true)
updated id j version f rows fwd h = (
  has_worker-update_worker id j version f rows fwd ∙ h.0,
  caught_up-update_worker id j version f rows fwd h.1,
)

IsForward-greatest :
    (version v : ℤ)
    → IsForward version
        (λ r. record r { applied_config_version = greatest r.applied_config_version v })
IsForward-greatest version v r = (refl, λ h. ground (arith, h))

run_step-IsUpToDate :
    (s : PortStep) (id : ℕ) (version : ℤ) (w : World)
    → IsUpToDate id version w.db
    → IsUpToDate id version (run_step s w).db
unfolding run_step register_worker mark_offline heartbeat ack_runtime_config_applied upsert_worker
    mark_worker_offline update_worker_heartbeat update_worker_applied_config_version
run_step-IsUpToDate (PortStep.others f same) id version w h =
    (ap (has_worker id) (same w) ∙ h.0, ap (caught_up id version) (same w) ∙ h.1)
run_step-IsUpToDate (PortStep.offline p) id version w h =
    subst (λ (x : World). IsUpToDate id version x.db)
      (sym (wrapped-world "mark worker offline" (mark_worker_offline p.handler.worker_id w)))
      (statement-keeps (IsUpToDate id version) _ w h (λ u e.
        updated id p.handler.worker_id version (λ r. record r { online = false }) u.db.workers
          (λ r. (refl, λ k. k)) (subst (IsUpToDate id version) (sym e) h)))
run_step-IsUpToDate (PortStep.beat p) id version w h =
    subst (λ (x : World). IsUpToDate id version x.db)
      (sym
        (wrapped-world "update worker heartbeat" (update_worker_heartbeat p.handler.worker_id w)))
      (statement-keeps (IsUpToDate id version) _ w h (λ u e.
        updated id p.handler.worker_id version (heard u.now) u.db.workers (λ r. (refl, λ k. k))
          (subst (IsUpToDate id version) (sym e) h)))
run_step-IsUpToDate (PortStep.ack p v) id version w h =
    subst (λ (x : World). IsUpToDate id version x.db)
      (sym (
        wrapped-world "update worker applied config version"
          (update_worker_applied_config_version p.handler.worker_id v w)))
      (statement-keeps (IsUpToDate id version) _ w h (λ u e.
        updated id p.handler.worker_id version
          (λ r. record r { applied_config_version = greatest r.applied_config_version v })
          u.db.workers (IsForward-greatest version v) (subst (IsUpToDate id version) (sym e) h)))
run_step-IsUpToDate (PortStep.register p v) id version w h =
    subst (λ (x : World). IsUpToDate id version x.db)
      (sym (wrapped-world "register worker" (upsert_worker p.handler.worker_id p.labels v w)))
      (statement-keeps (IsUpToDate id version) _ w h (λ u e.
        let k = subst (IsUpToDate id version) (sym e) h in
        elim (Bool-cases (has_worker p.handler.worker_id u.db.workers)) [
          | inl there ↦ rw there (
              updated id p.handler.worker_id version
                (λ r. record (heard u.now r) { labels = p.labels }) u.db.workers
                (λ r. (refl, λ k. k)) k)
          | inr new ↦
              (let other : (p.handler.worker_id == id) ≡ false =
                  elim (Bool-cases (p.handler.worker_id == id)) [
                    | inr ne ↦ ne
                    | inl eq ↦ absurd (
                        ground (
                          arith,
                          k.0,
                          subst (λ i. has_worker i u.db.workers ≡ false)
                              ((==_iff p.handler.worker_id id).0 eq) new,
                        ))
                  ] in
                rw new (
                  has_worker-snoc id u.db.workers _ k.0,
                  caught_up-snoc id version u.db.workers _ other k.1,
                ))
        ]))

pub run_steps-IsUpToDate :
    (steps : List PortStep) (id : ℕ) (version : ℤ) (w : World)
    → IsUpToDate id version w.db
    → IsUpToDate id version (run_steps steps w).db
unfolding run_steps
run_steps-IsUpToDate [] id version w h = h
run_steps-IsUpToDate (s ∷ steps) id version w h =
    run_steps-IsUpToDate steps id version (run_step s w) (run_step-IsUpToDate s id version w h)

ack-IsUpToDate :
    (p : ModelPort) (version v : ℤ) (w w' : World)
    → has_worker p.handler.worker_id w.db.workers ≡ true
    → leb_ℤ version v ≡ true
    → ack_runtime_config_applied p v w ≡ (w', ok tt)
    → IsUpToDate p.handler.worker_id version w'.db
unfolding ack_runtime_config_applied update_worker_applied_config_version
ack-IsUpToDate p version v w w' there low h =
    let f : WorkerRow → WorkerRow =
      λ r. record r { applied_config_version = greatest r.applied_config_version v } in
    let done =
      recover-ok (update_worker_applied_config_version p.handler.worker_id v w) _ w' tt
        (Throws-wrap "update worker applied config version") h in
    let (rest, ran) = statement-ok _ w tt (ap (λ x. x.1) done) in
    subst (λ (x : World). IsUpToDate p.handler.worker_id version x.db)
      (sym (ap (λ x. x.0) ran) ∙ ap (λ x. x.0) done)
      (
        has_worker-update_worker p.handler.worker_id p.handler.worker_id version f w.db.workers
              (IsForward-greatest version v)
            ∙ there,
        caught_up-greatest p.handler.worker_id version v w.db.workers low,
      )

-- A registered worker that has acknowledged a version, whatever the workers then do to their rows,
-- whatever others do to the rest, and whatever fails of it: no list of workers that lag behind that
-- version or an earlier one names it any more.
pub ack_runtime_config_applied-lagging :
    (p : ModelPort) (version v : ℤ) (w w' : World) (steps : List PortStep) (cutoff : ℕ)
    → has_worker p.handler.worker_id w.db.workers ≡ true
    → leb_ℤ version v ≡ true
    → ack_runtime_config_applied p v w ≡ (w', ok tt)
    → contains (lagging_ids cutoff version (run_steps steps w').db.workers) p.handler.worker_id
      ≡ false
ack_runtime_config_applied-lagging p version v w w' steps cutoff there low h =
    lagging_ids-caught_up p.handler.worker_id cutoff version (run_steps steps w').db.workers
      (run_steps-IsUpToDate steps p.handler.worker_id version w'
        (ack-IsUpToDate p version v w w' there low h)).1
