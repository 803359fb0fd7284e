-- ===== src/Worker/Runtime/Startup.antt =====
-- How a worker starts: the head of Runtime.Start in pkg/taskcore/worker/runtime.go, over the port of
-- pkg/taskcore/worker/model_port.go.
use anclax.Prelude.{true, [], Option, none, some}
use anclax.Errors.{Err}
use anclax.Db.{World, Reply, ok, fail}
use anclax.Worker.Types.{RuntimeConfig}
use anclax.Worker.Runtime.{Answer, Runtime, handle_error, catch_up}
use anclax.Worker.Port.{ModelPort}
use anclax.Worker.Port.Workers.{register_worker, refresh_runtime_config}

-- `r.handleError(err); return`, with the deferred Close.
unfoldable pub give_up : Err → Runtime → Runtime
unfolding handle_error
give_up err r = record (handle_error (some err) r) { closed = true; inbox = [] }

abbrev pub registered : Runtime → World × Reply (Unit {0}) → World × Runtime
registered r (w, ok done) = (w, r)
registered r (w, fail err) = (w, give_up err r)

abbrev pub register : ModelPort → World → Runtime × Option Err → World × Runtime
register p w (r, some err) = (w, give_up err r)
register p w (r, none) = registered r (register_worker p r.engine.runtime_config_version w)

abbrev pub answer_of : Reply (Option RuntimeConfig) → Answer
answer_of (ok config) = record { task = none; config = config; err = none }
answer_of (fail err) = record { task = none; config = none; err = some err }

abbrev pub loaded : ModelPort → Runtime → World × Reply (Option RuntimeConfig) → World × Runtime
loaded p r (w, reply) = register p w (catch_up (answer_of reply) r)

-- Start up to the tickers; `early` is the error when the context or the loop ends before the catch-up.
unfoldable pub start_up : ModelPort → Option Err → Runtime → World → World × Runtime
unfolding catch_up give_up
start_up p none r w = loaded p r (refresh_runtime_config w)
start_up p (some early) r w = (w, give_up early r)
