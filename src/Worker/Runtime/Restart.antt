-- ===== src/Worker/Runtime/Restart.antt =====
-- How a worker that has started, pkg/taskcore/worker/runtime.go, stands in the list of lagging workers
-- of sql/queries/workers.sql.
use anclax.Prelude.{
  ℕ, ◌≡◌, refl, sym, ap, ◌∙◌, subst, true, false, inl, inr, List, [], ◌∷◌, ◌++◌, none, some, arith,
  Bool-cases, String, leb, nat_eq,
}
use anclax.Prelude.Int.{ℤ, ltb_ℤ, leb_ℤ}
use anclax.Prelude.Unique.{contains}
use anclax.Db.{WorkerRow, ConfigRow, World, ok, statement}
use anclax.Db.Workers.{
  lagging_ids, has_worker, update_worker, heard, upsert_worker, latest_config,
  get_latest_worker_runtime_config,
}
use anclax.Db.Effects.{calm}
use anclax.Worker.State.{apply_runtime_config}
use anclax.Worker.Runtime.{Runtime, catch_up}
use anclax.Worker.Runtime.Startup.{answer_of, register, start_up}
use anclax.Worker.Port.{ModelPort}
use anclax.Worker.Port.Workers.{register_worker, refresh_runtime_config, config_of}
use anclax.Worker.Port.Versions.{caught_up, lagging_ids-caught_up}
use anclax.Worker.Port.CaughtUp.{PortStep, run_steps, run_steps-IsUpToDate}

catch_up-newest :
    (c : ConfigRow) (r : Runtime)
    → (leb_ℤ c.version
          (catch_up (answer_of (ok (some (config_of c)))) r).0.engine.runtime_config_version
        ≡ true)
      × ((catch_up (answer_of (ok (some (config_of c)))) r).1 ≡ none)
unfolding catch_up apply_runtime_config
catch_up-newest c r = elim (Bool-cases (ltb_ℤ r.engine.runtime_config_version c.version)) [
  | inl newer ↦ rw newer (ground arith, refl)
  | inr older ↦ rw older (ground (arith, older), refl)
]

start_up-calm :
    (p : ModelPort) (r : Runtime) (c : ConfigRow) (w : World)
    → latest_config w.db.configs ≡ some c
    → start_up p none r (calm w)
      ≡ register p (calm w) (catch_up (answer_of (ok (some (config_of c)))) r)
unfolding start_up refresh_runtime_config get_latest_worker_runtime_config statement
start_up-calm p r c w h = rw h refl

register-calm :
    (p : ModelPort) (w : World) (r : Runtime)
    → register p (calm w) (r, none)
      ≡ ((upsert_worker p.handler.worker_id p.labels r.engine.runtime_config_version (calm w)).0, r)
unfolding register_worker upsert_worker statement
register-calm p w r = refl

start_up-registers :
    (p : ModelPort) (r : Runtime) (c : ConfigRow) (w : World)
    → latest_config w.db.configs ≡ some c
    → (start_up p none r (calm w) ≡ (
      (upsert_worker p.handler.worker_id p.labels
          (start_up p none r (calm w)).1.engine.runtime_config_version
          (calm w)).0,
      (start_up p none r (calm w)).1,
    ))
      × (leb_ℤ c.version (start_up p none r (calm w)).1.engine.runtime_config_version ≡ true)
start_up-registers p r c w h =
    let caught = catch_up (answer_of (ok (some (config_of c)))) r in
    let (newest, quiet) = catch_up-newest c r in
    let whole : start_up p none r (calm w) ≡ (
      (upsert_worker p.handler.worker_id p.labels caught.0.engine.runtime_config_version
          (calm w)).0,
      caught.0,
    ) =
      start_up-calm p r c w h
      ∙ ap (λ e. register p (calm w) (caught.0, e)) quiet
      ∙ register-calm p w caught.0 in
    let same : caught.0 ≡ (start_up p none r (calm w)).1 = sym (ap (λ x. x.1) whole) in
    subst
      (λ (x : Runtime).
        (start_up p none r (calm w) ≡ (
          (upsert_worker p.handler.worker_id p.labels x.engine.runtime_config_version (calm w)).0,
          x,
        ))
        × (leb_ℤ c.version x.engine.runtime_config_version ≡ true))
      same (whole, newest)

-- A row that is new, of a worker that has none.
caught_up-new :
    (id : ℕ) (version : ℤ) (rows : List WorkerRow) (r : WorkerRow)
    → has_worker id rows ≡ false
    → leb_ℤ version r.applied_config_version ≡ true
    → caught_up id version (rows ++ r ∷ []) ≡ true
unfolding has_worker caught_up
caught_up-new id version [] r none_there low = ground (arith, low)
caught_up-new id version (q ∷ rows) r none_there low =
    ground (arith, none_there, caught_up-new id version rows r)

has_worker-new :
    (id : ℕ) (rows : List WorkerRow) (r : WorkerRow)
    → r.id ≡ id
    → has_worker id (rows ++ r ∷ []) ≡ true
unfolding has_worker
has_worker-new id [] r e = ground (arith, e)
has_worker-new id (q ∷ rows) r e = ground (arith, has_worker-new id rows r e)

upsert-new :
    (id : ℕ) (labels : List String) (v version : ℤ) (w : World)
    → has_worker id w.db.workers ≡ false
    → leb_ℤ version v ≡ true
    → (has_worker id (upsert_worker id labels v (calm w)).0.db.workers ≡ true)
      × (caught_up id version (upsert_worker id labels v (calm w)).0.db.workers ≡ true)
unfolding upsert_worker statement
upsert-new id labels v version w new low =
    rw new (has_worker-new id w.db.workers _ refl, caught_up-new id version w.db.workers _ new low)

-- A worker that had no row, when no statement fails: after its start, whatever the workers then do to
-- their rows and whatever others do to the rest, it is in no list of the workers that lag behind the
-- configuration that was the latest at the start.
pub start_up-caught_up :
    (p : ModelPort) (r : Runtime) (c : ConfigRow) (w : World) (steps : List PortStep) (cutoff : ℕ)
    → latest_config w.db.configs ≡ some c
    → has_worker p.handler.worker_id w.db.workers ≡ false
    → contains
        (lagging_ids cutoff c.version (run_steps steps (start_up p none r (calm w)).0).db.workers)
        p.handler.worker_id
      ≡ false
start_up-caught_up p r c w steps cutoff latest new =
    let (started, newest) = start_up-registers p r c w latest in
    let current =
      subst
        (λ (x : World).
          (has_worker p.handler.worker_id x.db.workers ≡ true)
          × (caught_up p.handler.worker_id c.version x.db.workers ≡ true))
        (sym (ap (λ x. x.0) started))
        (upsert-new p.handler.worker_id p.labels
          (start_up p none r (calm w)).1.engine.runtime_config_version c.version w new newest) in
    lagging_ids-caught_up p.handler.worker_id cutoff c.version
      (run_steps steps (start_up p none r (calm w)).0).db.workers
      (run_steps-IsUpToDate steps p.handler.worker_id c.version (start_up p none r (calm w)).0
        current).1

-- An update of the heartbeat and the labels leaves a worker behind that was behind.
behind-heard :
    (id cutoff now : ℕ) (version : ℤ) (labels : List String) (rows : List WorkerRow)
    → leb cutoff now ≡ true
    → caught_up id version rows ≡ false
    → contains
        (lagging_ids cutoff version
          (update_worker id (λ r. record (heard now r) { labels = labels }) rows))
        id
      ≡ true
unfolding caught_up lagging_ids contains update_worker
behind-heard id cutoff now version labels [] alive h = absurd (ground (arith, h))
behind-heard id cutoff now version labels (r ∷ rows) alive h =
    ground (arith, alive, h, behind-heard id cutoff now version labels rows alive)

-- A worker that starts again under the id of a row with an older version, when no statement fails: its
-- engine runs the latest configuration, and the row stays in the list of the workers that lag behind it,
-- while its heartbeat of the start counts.
pub start_up-behind :
    (p : ModelPort) (r : Runtime) (c : ConfigRow) (w : World) (cutoff : ℕ)
    → latest_config w.db.configs ≡ some c
    → has_worker p.handler.worker_id w.db.workers ≡ true
    → caught_up p.handler.worker_id c.version w.db.workers ≡ false
    → leb cutoff w.now ≡ true
    → (leb_ℤ c.version (start_up p none r (calm w)).1.engine.runtime_config_version ≡ true)
      × (contains
            (lagging_ids cutoff c.version (start_up p none r (calm w)).0.db.workers)
            p.handler.worker_id
          ≡ true)
unfolding upsert_worker statement
start_up-behind p r c w cutoff latest there behind alive =
    let (started, newest) = start_up-registers p r c w latest in
    (
      newest,
      ap (λ x. contains (lagging_ids cutoff c.version x.0.db.workers) p.handler.worker_id) started
          ∙ rw there (
              behind-heard p.handler.worker_id cutoff w.now c.version p.labels w.db.workers alive
                behind),
    )
