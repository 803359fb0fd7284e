-- ===== src/Errors.antt =====
-- Go's `error` values: the sentinels that the packages declare (pkg/taskcore/store/interfaces.go and
-- store.go, pkg/taskcore/worker/types.go, interfaces.go and model_port.go, pkg/zcore/model, pkg/macaroons,
-- pkg/auth, pkg/service, pkg/taskcore/listener, lib/ws), and how `errors.New`, wrapping and `errors.Join` build on them.
use anclax.Prelude.{ℕ, Bool, false, String, ◌||◌, ◌==◌}

pub data Sentinel : Type 0 where
  no_task : Sentinel
  fatal_task : Sentinel
  retry_task_without_error_event : Sentinel
  task_lock_lost : Sentinel
  task_paused : Sentinel
  task_cancelled : Sentinel
  task_interrupted : Sentinel
  skip_finalize : Sentinel
  task_not_found : Sentinel
  task_event_not_found : Sentinel
  unknown_task_type : Sentinel
  no_rows : Sentinel
  already_in_transaction : Sentinel
  canceled : Sentinel
  deadline_exceeded : Sentinel
  malformed_token : Sentinel
  invalid_signature : Sentinel
  key_not_found : Sentinel
  caveat_check_failed : Sentinel
  invalid_refresh_token : Sentinel
  user_identity_not_exist : Sentinel
  unauthorized : Sentinel
  refresh_token_expired : Sentinel
  listener_closed : Sentinel
  user_not_found : Sentinel
  invalid_password : Sentinel
  topic_already_exists : Sentinel
  topic_not_found : Sentinel
  already_subscribed : Sentinel

abbrev index : Sentinel → ℕ
index no_task = 0
index fatal_task = 1
index retry_task_without_error_event = 2
index task_lock_lost = 3
index task_paused = 4
index task_cancelled = 5
index task_interrupted = 6
index skip_finalize = 7
index task_not_found = 8
index task_event_not_found = 9
index unknown_task_type = 10
index no_rows = 11
index already_in_transaction = 12
index canceled = 13
index deadline_exceeded = 14
index malformed_token = 15
index invalid_signature = 16
index key_not_found = 17
index caveat_check_failed = 18
index invalid_refresh_token = 19
index user_identity_not_exist = 20
index unauthorized = 21
index refresh_token_expired = 22
index listener_closed = 23
index user_not_found = 24
index invalid_password = 25
index topic_already_exists = 26
index topic_not_found = 27
index already_subscribed = 28

pub data Err : Type 0 where
  sentinel : Sentinel → Err
  message : String → Err
  wrap : String → Err → Err
  join : Err → Err → Err

-- errors.Is.
unfoldable pub errors_is : Err → Sentinel → Bool
errors_is (sentinel s) t = index s == index t
errors_is (message m) t = false
errors_is (wrap m e) t = errors_is e t
errors_is (join d e) t = errors_is d t || errors_is e t
