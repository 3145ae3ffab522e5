-- ===== src/Pipeline.antt =====
-- src/pipeline_options.rs and src/client/connection.rs: the two ways a pipeline reaches the core.
pub mod Laws
use glide_rust.Base.{
  ℕ, ℤ, Bytes, ascii, Bool, false, Option, none, some, List, [], ◌∷◌, Result, ok, err,
  if◌then◌else◌, map_option, leb,
}
use glide_rust.Base.Io.{Io, ◌>>=◌, lift, map_io_err}
use glide_rust.Redis.{
  Value, nil, array, elems, Redis, RedisError, client_error, response_error, Cmd,
}
use glide_rust.Error.{GlideError, from_redis_error}
use glide_rust.Routes.{RoutingInfo}
use glide_rust.Config.Types.{Duration, as_millis}
use glide_rust.Config.Common.{u32_max}

pub record PipelineOptions : Type 0 where
  pub timeout : Option Duration
  pub retry_server_error : Bool
  pub retry_connection_error : Bool

unfoldable pub new_options : PipelineOptions
new_options = record { timeout = none; retry_server_error = false; retry_connection_error = false }

unfoldable pub with_timeout : Duration → PipelineOptions → PipelineOptions
with_timeout timeout options = record options { timeout = some timeout }

unfoldable pub with_retry_server_error : Bool → PipelineOptions → PipelineOptions
with_retry_server_error retry options = record options { retry_server_error = retry }

unfoldable pub with_retry_connection_error : Bool → PipelineOptions → PipelineOptions
with_retry_connection_error retry options = record options { retry_connection_error = retry }

unfoldable pub timeout_millis : PipelineOptions → Option ℕ
timeout_millis options =
    map_option (λ d. if leb (as_millis d) u32_max then as_millis d else u32_max) options.timeout

-- `redis::PipelineRetryStrategy`
pub record PipelineRetryStrategy : Type 0 where
  pub server_error : Bool
  pub connection_error : Bool

-- What the client calls of `glide_core::client::Client` and of `redis::Pipeline`, which is `Q`; `W`
-- is the state of the world that a call may change.
pub record PipelineCore (F O P Q W : Type 0) : Type 0 where
  pub is_empty : Q → Bool
  pub is_atomic : Q → Bool
  pub send_transaction : Q → Option (RoutingInfo P) → Option ℕ → Bool → Io W RedisError (Value F O)
  pub send_pipeline :
      Q
      → Option (RoutingInfo P)
      → Bool
      → Option ℕ
      → PipelineRetryStrategy
      → Io W RedisError (Value F O)
  -- `PipelineRetryStrategy::default()`
  pub default_retry : PipelineRetryStrategy

abbrev pub unwrap_or : {A : Type 0} → A → Option A → A
unwrap_or a none = a
unwrap_or a (some b) = b

module _ {F O P Q W : Type 0} (core : PipelineCore F O P Q W) where
  -- The last `match` of `run_pipeline`.
  unfoldable pub normalize : Value F O → List (Value F O)
  normalize (array items) = elems items
  normalize nil = []
  normalize value = value ∷ []

  -- The call of the core: as a transaction, or as a pipeline.
  unfoldable pub send :
      Q → Option (RoutingInfo P) → Bool → PipelineOptions → Io W RedisError (Value F O)
  unfolding timeout_millis
  send pipeline routing raise_on_error options =
      if core.is_atomic pipeline
      then core.send_transaction pipeline routing (timeout_millis options) raise_on_error
      else core.send_pipeline pipeline routing raise_on_error (timeout_millis options) (record {
        server_error = options.retry_server_error;
        connection_error = options.retry_connection_error;
      })

  unfoldable pub run_pipeline :
      Q → Option (RoutingInfo P) → Bool → PipelineOptions → Io W GlideError (List (Value F O))
  unfolding normalize send
  run_pipeline pipeline routing raise_on_error options =
      if core.is_empty pipeline
      then lift (ok [])
      else (map_io_err from_redis_error (send pipeline routing raise_on_error options) >>= λ value.
          lift (ok (normalize value)))

  -- The last `match` of `dispatch_pipeline`.
  unfoldable pub expect_array : Redis F O → Value F O → Result RedisError (List (Value F O))
  expect_array redis (array items) = ok (elems items)
  expect_array redis value = err (
      redis.redis_error response_error (ascii "unexpected non-array pipeline reply from glide-core")
        (redis.debug value))

  unfoldable pub dispatch_pipeline :
      Redis F O → Q → Option PipelineRetryStrategy → Io W RedisError (List (Value F O))
  unfolding expect_array
  dispatch_pipeline redis pipeline retry =
      if core.is_atomic pipeline
      then (core.send_transaction pipeline none none Bool.true >>= λ value. lift (ok (value ∷ [])))
      else (core.send_pipeline pipeline none Bool.true none (unwrap_or core.default_retry retry)
          >>= λ value. lift (expect_array redis value))

  -- The adapter `PipelineConn`; the core is shared, so that only the database is its own.
  unfoldable pub req_packed_command : Redis F O → Cmd → Io W RedisError (Value F O)
  req_packed_command redis cmd = lift (
      err (
        redis.redis_error client_error
          (ascii
            "single-command dispatch is not supported on the pipeline adapter; use the unified command API")
          []))

  unfoldable pub req_packed_commands :
      Redis F O → Q → ℕ → ℕ → Option PipelineRetryStrategy → Io W RedisError (List (Value F O))
  unfolding dispatch_pipeline
  req_packed_commands redis pipeline offset count retry = dispatch_pipeline redis pipeline retry
