-- ===== src/Worker/Engine/Reach.antt =====
-- The engines that a worker can reach from its configuration, by any sequence of events.
use anclax.Prelude.{ℕ, suc, ◌^◌, ◌≤◌, ◌<◌, arith}
use anclax.Worker.Types.{Event, EngineConfig}
use anclax.Worker.State.{Engine, new_engine}
use anclax.Worker.Engine.{apply}
use anclax.Worker.Engine.Slots.{Inv, new_engine-Inv}
use anclax.Worker.Engine.Accounting.{apply-Inv}
use anclax.Worker.Engine.Lanes.{next_cycle_id-apply, CursorOk, new_engine-CursorOk, apply-CursorOk}

-- The engine after `n` events.
pub data Reach (cfg : EngineConfig) : ℕ → Engine → Type 0 where
  start : Reach cfg 0 (new_engine cfg)
  next : {n : ℕ} {e : Engine} → Reach cfg n e → (ev : Event) → Reach cfg (suc n) (apply e ev).0

start_id : (cfg : EngineConfig) → (new_engine cfg).next_cycle_id ≤ 0
unfolding new_engine
start_id cfg = omega arith

pub Reach-next_cycle_id :
    {cfg : EngineConfig} {n : ℕ} {e : Engine} → Reach cfg n e → e.next_cycle_id ≤ n
Reach-next_cycle_id {cfg} start = start_id cfg
Reach-next_cycle_id (next {e = e} r ev) =
    omega (arith, Reach-next_cycle_id r, next_cycle_id-apply e ev)

-- An engine that has seen fewer than 2^64 events, whatever they were, counts its cycles right, runs
-- at most `concurrency` of them, and has its cursor on the wheel.
pub Reach-Inv :
    {cfg : EngineConfig} {n : ℕ} {e : Engine} → Reach cfg n e → n < 2 ^ 64 → Inv e × CursorOk e
Reach-Inv {cfg} start h = (new_engine-Inv cfg, new_engine-CursorOk cfg)
Reach-Inv (next {n} {e} r ev) h =
    let (v, c) = Reach-Inv r (omega arith) in
    (apply-Inv e ev (omega (arith, Reach-next_cycle_id r)) v, apply-CursorOk e ev c)
