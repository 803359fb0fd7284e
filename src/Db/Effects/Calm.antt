-- ===== src/Db/Effects/Calm.antt =====
-- Worlds in which no statement fails, and what changes in them.
use anclax.Prelude.{◌+◌, ◌++◌, List, [], ◌∷◌}
use anclax.Db.{TaskRow, EventSpec, World}

-- A world in which no statement fails.
abbrev pub calm : World → World
calm w = record w { faults = [] }

abbrev pub with_tasks : (List TaskRow → List TaskRow) → World → World
with_tasks f w = record w { db = record w.db { tasks = f w.db.tasks } }

abbrev pub logged : EventSpec → World → World
logged spec w = record w {
  db = record w.db {
    events = w.db.events ++ record { id = w.db.next_event; spec = spec; created_at = w.now } ∷ [];
    next_event = w.db.next_event + 1;
  };
}
