-- ===== src/Worker/Engine/Lanes.antt =====
-- What single events do to the counters, the wheel's cursor and the stop flag.
use Prim.Native.Nat.{max}
use native.Mathlib.Nat.{mod-lt}
use anclax.Prelude.{
  ℕ, ◌+◌, ◌≤◌, ◌<◌, ◌≡◌, inl, inr, true, String, List, [], ◌∷◌, arith, length, Option-cases,
  Bool-cases,
}
use anclax.Prelude.Int.{ltb_ℤ, ◌≤ℤ◌}
use anclax.Worker.Types.{EventType, Event, RuntimeConfig, EngineConfig}
use anclax.Worker.Config.{build_weights, wheel_of}
use anclax.Worker.Engine.Wheel.{wheel_of-weights}
use anclax.Worker.State.{Engine, apply_runtime_config, new_engine, cursor_in, next_cursor}
use anclax.Worker.Engine.{dispatch, apply, on_runtime_config_loaded}

next_cycle_id-dispatch :
    (t : EventType) (e : Engine) (ev : Event)
    → (dispatch t e ev).0.next_cycle_id ≤ e.next_cycle_id + 1
unfolding dispatch
next_cycle_id-dispatch EventType.poll_tick e ev = ground arith
next_cycle_id-dispatch _ e ev = ground arith

-- An event takes at most one cycle id.
pub next_cycle_id-apply :
    (e : Engine) (ev : Event) → (apply e ev).0.next_cycle_id ≤ e.next_cycle_id + 1
unfolding apply
next_cycle_id-apply e ev = next_cycle_id-dispatch ev.type e ev

-- The cursor stands on the wheel.
abbrev pub CursorOk : Engine → Type 0
CursorOk e = e.normal_claim_cursor < length e.normal_claim_wheel

cursor_in-lt :
    (cursor : ℕ) (wheel : List String) → 0 < length wheel → cursor_in cursor wheel < length wheel
cursor_in-lt cursor [] h = elim h [ ]
cursor_in-lt cursor (g ∷ gs) h = mod-lt cursor h

next_cursor-lt :
    (cursor : ℕ) (wheel : List String)
    → cursor < length wheel
    → next_cursor cursor wheel < length wheel
next_cursor-lt cursor [] h = elim h [ ]
next_cursor-lt cursor (g ∷ gs) h = mod-lt (cursor + 1) (omega arith)

apply_runtime_config-CursorOk :
    (e : Engine) (cfg : RuntimeConfig) → CursorOk (apply_runtime_config e cfg)
unfolding apply_runtime_config
apply_runtime_config-CursorOk e cfg =
    cursor_in-lt e.normal_claim_cursor (wheel_of (build_weights cfg.label_weights))
      (wheel_of-weights cfg.label_weights).2

pub new_engine-CursorOk : (cfg : EngineConfig) → CursorOk (new_engine cfg)
unfolding new_engine
new_engine-CursorOk cfg =
    cursor_in-lt 0 (wheel_of (build_weights cfg.label_weights))
      (wheel_of-weights cfg.label_weights).2

on_runtime_config_loaded-CursorOk :
    (e : Engine) (ev : Event) → CursorOk e → CursorOk (on_runtime_config_loaded e ev).0
unfolding on_runtime_config_loaded
on_runtime_config_loaded-CursorOk e ev h = elim (Option-cases ev.err) [
  | inr (x, failed) ↦ rw (failed, on_runtime_config_loaded) h
  | inl fine ↦ elim (Option-cases ev.config) [
    | inl nothing ↦ rw (fine, nothing, on_runtime_config_loaded) h
    | inr (cfg, loaded) ↦
        rw (fine, loaded, on_runtime_config_loaded)
          (elim (Bool-cases (ltb_ℤ e.runtime_config_version cfg.version)) [
            | inl newer ↦ rw newer (apply_runtime_config-CursorOk e cfg)
            | inr older ↦ rw older h
          ])
  ]
]

dispatch-CursorOk :
    (t : EventType) (e : Engine) (ev : Event) → CursorOk e → CursorOk (dispatch t e ev).0
unfolding dispatch
dispatch-CursorOk EventType.runtime_config_loaded e ev h = on_runtime_config_loaded-CursorOk e ev h
dispatch-CursorOk _ e ev h =
    ground (arith, next_cursor-lt e.normal_claim_cursor e.normal_claim_wheel h)

-- No event moves the cursor off the wheel.
pub apply-CursorOk : (e : Engine) (ev : Event) → CursorOk e → CursorOk (apply e ev).0
unfolding apply
apply-CursorOk e ev h = dispatch-CursorOk ev.type e ev h

strict-dispatch :
    (t : EventType) (e : Engine) (ev : Event)
    → (dispatch t e ev).0.strict_in_flight ≤ max e.strict_in_flight e.strict_cap
unfolding dispatch
strict-dispatch EventType.poll_tick e ev = ground arith
strict-dispatch _ e ev = ground arith

version-dispatch :
    (t : EventType) (e : Engine) (ev : Event)
    → e.runtime_config_version ≤ℤ (dispatch t e ev).0.runtime_config_version
unfolding dispatch
version-dispatch EventType.poll_tick e ev = ground arith
version-dispatch _ e ev = ground arith

single-dispatch : (t : EventType) (e : Engine) (ev : Event) → length (dispatch t e ev).1 ≤ 1
unfolding dispatch
single-dispatch EventType.poll_tick e ev = ground arith
single-dispatch _ e ev = ground arith

-- What one event may change, whatever it holds: the strict lane grows only below its cap, the version
-- of the configuration never goes back, and at most one command is issued.
apply_limits :
    (e : Engine) (ev : Event)
    → ((apply e ev).0.strict_in_flight ≤ max e.strict_in_flight e.strict_cap)
      × (e.runtime_config_version ≤ℤ (apply e ev).0.runtime_config_version)
      × (length (apply e ev).1 ≤ 1)
unfolding apply
apply_limits e ev =
    (strict-dispatch ev.type e ev, version-dispatch ev.type e ev, single-dispatch ev.type e ev)

stopped-dispatch :
    (t : EventType) (e : Engine) (ev : Event)
    → e.stopped ≡ true
    → ((dispatch t e ev).0.stopped ≡ true)
      × ((dispatch t e ev).0.in_flight ≤ e.in_flight)
      × ((dispatch t e ev).0.next_cycle_id ≡ e.next_cycle_id)
unfolding dispatch
stopped-dispatch EventType.poll_tick e ev h = ground arith
stopped-dispatch _ e ev h = ground arith

-- A stopped engine stays stopped, starts no new cycle and only gives slots back.
apply-stopped :
    (e : Engine) (ev : Event)
    → e.stopped ≡ true
    → ((apply e ev).0.stopped ≡ true)
      × ((apply e ev).0.in_flight ≤ e.in_flight)
      × ((apply e ev).0.next_cycle_id ≡ e.next_cycle_id)
unfolding apply
apply-stopped e ev h = stopped-dispatch ev.type e ev h
