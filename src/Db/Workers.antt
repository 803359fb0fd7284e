-- ===== src/Db/Workers.antt =====
-- The statements of sql/queries/workers.sql, as pkg/zgen/querier/workers.sql.gen.go runs them.
use anclax.Prelude.{
  ℕ, ◌+◌, Bool, true, false, ◌&&◌, ◌||◌, String, List, [], ◌∷◌, ◌++◌, Option, none, some,
  if◌then◌else◌, ◌==◌, leb,
}
use anclax.Prelude.Int.{ℤ, pos, ltb_ℤ}
use anclax.Db.{WorkerRow, ConfigRow, RuntimeConfigPayload, World, Reply, ok, M, statement}
use anclax.Db.Tasks.{no_rows}

abbrev pub is_alive : ℕ → WorkerRow → Bool
is_alive cutoff r = r.online && leb cutoff r.last_heartbeat

unfoldable pub alive_ids : ℕ → List WorkerRow → List ℕ
alive_ids cutoff [] = []
alive_ids cutoff (r ∷ rows) =
    let rest = alive_ids cutoff rows in if is_alive cutoff r then r.id ∷ rest else rest

unfoldable pub list_online_worker_ids : ℕ → M (List ℕ)
unfolding statement alive_ids
list_online_worker_ids cutoff = statement λ w. (w, ok (alive_ids cutoff w.db.workers))

abbrev pub is_lagging : ℕ → ℤ → WorkerRow → Bool
is_lagging cutoff version r = is_alive cutoff r && ltb_ℤ r.applied_config_version version

unfoldable pub lagging_ids : ℕ → ℤ → List WorkerRow → List ℕ
lagging_ids cutoff version [] = []
lagging_ids cutoff version (r ∷ rows) =
    let rest = lagging_ids cutoff version rows in
    if is_lagging cutoff version r then r.id ∷ rest else rest

unfoldable pub list_lagging_alive_workers : ℕ → ℤ → M (List ℕ)
unfolding statement lagging_ids
list_lagging_alive_workers cutoff version =
    statement λ w. (w, ok (lagging_ids cutoff version w.db.workers))

-- UPDATE … WHERE id = $1.
unfoldable pub update_worker : ℕ → (WorkerRow → WorkerRow) → List WorkerRow → List WorkerRow
update_worker id f [] = []
update_worker id f (r ∷ rows) = (if r.id == id then f r else r) ∷ update_worker id f rows

unfoldable pub has_worker : ℕ → List WorkerRow → Bool
has_worker id [] = false
has_worker id (r ∷ rows) = r.id == id || has_worker id rows

abbrev pub with_workers : (List WorkerRow → List WorkerRow) → World → World
with_workers f w = record w { db = record w.db { workers = f w.db.workers } }

abbrev pub heard : ℕ → WorkerRow → WorkerRow
heard now r = record r { last_heartbeat = now; online = true }

-- A worker that is there already keeps the version that it has applied.
unfoldable pub upsert_worker : ℕ → List String → ℤ → M (Unit {0})
unfolding statement update_worker has_worker
upsert_worker id labels version = statement λ w. (
  with_workers
      (λ rows.
        if has_worker id rows
        then update_worker id (λ r. record (heard w.now r) { labels = labels }) rows
        else rows
          ++ record {
            id = id;
            labels = labels;
            online = true;
            last_heartbeat = w.now;
            applied_config_version = version;
          }
            ∷ [])
      w,
  ok tt,
)

unfoldable pub update_worker_heartbeat : ℕ → M (Unit {0})
unfolding statement update_worker has_worker
update_worker_heartbeat id = statement λ w. (
  with_workers (update_worker id (heard w.now)) w,
  if has_worker id w.db.workers then ok tt else no_rows,
)

unfoldable pub mark_worker_offline : ℕ → M (Unit {0})
unfolding statement update_worker
mark_worker_offline id =
    statement λ w. (with_workers (update_worker id (λ r. record r { online = false })) w, ok tt)

-- GREATEST.
abbrev pub greatest : ℤ → ℤ → ℤ
greatest a b = if ltb_ℤ a b then b else a

unfoldable pub update_worker_applied_config_version : ℕ → ℤ → M (Unit {0})
unfolding statement update_worker
update_worker_applied_config_version id version = statement λ w. (
  with_workers
      (update_worker id
        (λ r. record r { applied_config_version = greatest r.applied_config_version version }))
      w,
  ok tt,
)

unfoldable pub create_worker_runtime_config : RuntimeConfigPayload → M ConfigRow
unfolding statement
create_worker_runtime_config payload = statement λ w.
    let row : ConfigRow = record { version = pos w.db.next_config; payload = payload } in
    (
      record w {
        db = record w.db { configs = w.db.configs ++ row ∷ []; next_config = w.db.next_config + 1 };
      },
      ok row,
    )

abbrev newer : ConfigRow → Option ConfigRow → Option ConfigRow
newer c none = some c
newer c (some d) = if ltb_ℤ d.version c.version then some c else some d

-- ORDER BY version DESC LIMIT 1.
unfoldable pub latest_config : List ConfigRow → Option ConfigRow
latest_config [] = none
latest_config (c ∷ configs) = newer c (latest_config configs)

abbrev found_config : Option ConfigRow → Reply ConfigRow
found_config none = no_rows
found_config (some c) = ok c

unfoldable pub get_latest_worker_runtime_config : M ConfigRow
unfolding statement latest_config
get_latest_worker_runtime_config = statement λ w. (w, found_config (latest_config w.db.configs))
