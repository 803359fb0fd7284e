-- ===== src/Worker/Types.antt =====
-- The data that the worker's engine and runtime exchange: pkg/taskcore/worker/types.go.
use anclax.Prelude.{ℕ, Bool, String, List, [], Option, none}
use anclax.Prelude.Int.{ℤ}
use anclax.Errors.{Err}
use anclax.Api.{TaskAttributes, TaskSpec}

abbrev pub default_weight_group : String
default_weight_group = "__default__"

abbrev pub default_weight_config_key : String
default_weight_config_key = "default"

pub data Phase : Type 0 where
  claim_strict claim_normal executing finalizing : Phase

pub data Lane : Type 0 where
  strict normal : Lane

-- `unknown` stands for any other text.
pub data EventType : Type 0 where
  poll_tick : EventType
  claim_strict_result : EventType
  claim_normal_result : EventType
  execute_result : EventType
  finalize_result : EventType
  heartbeat_tick : EventType
  runtime_config_tick : EventType
  runtime_config_notify : EventType
  runtime_config_loaded : EventType
  stop : EventType
  unknown : EventType

pub data CommandType : Type 0 where
  claim_strict : CommandType
  claim_normal : CommandType
  execute_task : CommandType
  finalize : CommandType
  heartbeat : CommandType
  refresh_runtime_config : CommandType
  ack_runtime_config : CommandType
  mark_offline : CommandType

pub record Task : Type 0 where
  pub id : ℤ
  pub priority : ℤ
  pub attempts : ℤ
  pub attributes : TaskAttributes
  pub spec : TaskSpec

-- `label_weights` is one order in which Go may visit the map.
pub record RuntimeConfig : Type 0 where
  pub version : ℤ
  pub max_strict_percentage : Option ℤ
  pub label_weights : List (String × ℤ)

pub record Event : Type 0 where
  pub type : EventType
  pub cycle_id : ℕ
  pub task : Option Task
  pub exec_err : Option Err
  pub err : Option Err
  pub request_id : String
  pub config : Option RuntimeConfig

pub record Command : Type 0 where
  pub type : CommandType
  pub cycle_id : ℕ
  pub task : Option Task
  pub exec_err : Option Err
  pub group : String
  pub weighted_labels : List String
  pub request_id : String
  pub applied_version : ℤ

-- The struct literals leave the other fields at Go's zero values.
abbrev pub event : EventType → Event
event t = record {
  type = t;
  cycle_id = 0;
  task = none;
  exec_err = none;
  err = none;
  request_id = "";
  config = none;
}

abbrev pub command : CommandType → Command
command t = record {
  type = t;
  cycle_id = 0;
  task = none;
  exec_err = none;
  group = "";
  weighted_labels = [];
  request_id = "";
  applied_version = ℤ.pos 0;
}

pub record EngineConfig : Type 0 where
  pub worker_id : String
  pub labels : List String
  pub concurrency : ℤ
  pub max_strict_percentage : ℤ
  pub label_weights : List (String × ℤ)

pub record CycleState : Type 0 where
  pub id : ℕ
  pub lane : Lane
  pub phase : Phase
  pub task : Option Task
  pub pending_groups : List String
  pub weighted_labels : List String

pub record Snapshot : Type 0 where
  pub worker_id : String
  pub stopped : Bool
  pub in_flight : ℕ
  pub strict_in_flight : ℕ
  pub strict_cap : ℕ
  pub runtime_config_version : ℤ
  pub max_strict_percentage : ℕ
  pub weighted_labels : List String
  pub normal_claim_wheel : List String
  pub normal_claim_wheel_cursor : ℕ
  pub active_cycles : ℕ
