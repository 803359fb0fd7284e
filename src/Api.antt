-- ===== src/Api.antt =====
-- The task as the API has it: pkg/zgen/apigen/spec_gen.go, of which the other parts use these types.
use anclax.Prelude.{ℕ, String, List, [], Option, none}
use anclax.Prelude.Int.{ℤ}

pub record TaskCronjob : Type 0 where
  pub cron_expression : String

pub record TaskRetryPolicy : Type 0 where
  pub interval : String
  pub max_attempts : ℤ

pub record TaskAttributes : Type 0 where
  pub cronjob : Option TaskCronjob
  pub labels : Option (List String)
  pub priority : Option ℤ
  pub retry_policy : Option TaskRetryPolicy
  pub serial_id : Option ℤ
  pub serial_key : Option String
  -- A pointer to a slice; `some none` points to a nil slice.
  pub tags : Option (Option (List String))
  pub timeout : Option String
  pub weight : Option ℤ

-- The payload is raw JSON, which the code carries and does not look into here.
pub record TaskSpec : Type 0 where
  pub payload : List ℕ
  pub type : String

-- A status outside the five constants is kept as its text.
pub data TaskStatus : Type 0 where
  pending : TaskStatus
  completed : TaskStatus
  failed : TaskStatus
  paused : TaskStatus
  cancelled : TaskStatus
  other : String → TaskStatus

abbrev pub no_attributes : TaskAttributes
no_attributes = record {
  cronjob = none;
  labels = none;
  priority = none;
  retry_policy = none;
  serial_id = none;
  serial_key = none;
  tags = none;
  timeout = none;
  weight = none;
}

-- The fields that Go's zero value of `apigen.Task` fills are given by `no_task`.
pub record ApiTask : Type 0 where
  pub id : ℤ
  pub attempts : ℤ
  pub attributes : TaskAttributes
  pub created_at : ℕ
  pub locked_at : Option ℕ
  pub parent_task_id : Option ℤ
  pub spec : TaskSpec
  pub started_at : Option ℕ
  pub status : TaskStatus
  pub unique_tag : Option String
  pub updated_at : ℕ
  pub worker_id : Option ℕ

abbrev pub no_task : ApiTask
no_task = record {
  id = ℤ.pos 0;
  attempts = ℤ.pos 0;
  attributes = no_attributes;
  created_at = 0;
  locked_at = none;
  parent_task_id = none;
  spec = record { payload = []; type = "" };
  started_at = none;
  status = TaskStatus.other "";
  unique_tag = none;
  updated_at = 0;
  worker_id = none;
}
