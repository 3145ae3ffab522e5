-- ===== src/Pipeline/Laws.antt =====
-- How the two ways of sending a pipeline agree, for src/pipeline_options.rs and
-- src/client/connection.rs.
use glide_rust.Base.{
  Bool, true, false, Option, none, List, [], ◌∷◌, Result, ok, err, map_err, ◌≡◌, refl, ap, sym,
  Bool-cases, inl, inr,
}
use glide_rust.Base.Fallible.{map_ok}
use glide_rust.Base.Io.{Io, ◌>>=◌, lift, map_io_err}
use glide_rust.Redis.{Value, array, Values, Redis, RedisError}
use glide_rust.Error.{from_redis_error}
use glide_rust.Routes.{RoutingInfo}
use glide_rust.Pipeline.{
  PipelineOptions, PipelineRetryStrategy, PipelineCore, new_options, with_retry_server_error,
  with_retry_connection_error, timeout_millis, normalize, send, run_pipeline, expect_array,
  dispatch_pipeline,
}

module _ {F O P Q W : Type 0} (core : PipelineCore F O P Q W) where
  -- The retry flags of the options make no difference to an atomic pipeline.
  pub run_pipeline-atomic :
      (pipeline : Q) (routing : Option (RoutingInfo P)) (raise : Bool) (options : PipelineOptions)
      (server connection : Bool) (w : W)
      → core.is_atomic pipeline ≡ true
      → run_pipeline core pipeline routing raise
          (with_retry_server_error server (with_retry_connection_error connection options))
          w
        ≡ run_pipeline core pipeline routing raise options w
  unfolding run_pipeline send with_retry_server_error with_retry_connection_error timeout_millis
  run_pipeline-atomic pipeline routing raise options server connection w atomic = rw atomic refl

  -- What the core promises of a pipeline that is no transaction: an array of replies.
  abbrev pub AnswersArrays : Type 0
  AnswersArrays =
      (pipeline : Q) (retry : PipelineRetryStrategy) (w : W) (value : Value F O)
      → (core.send_pipeline pipeline none true none retry w).0 ≡ ok value
      → (items : Values F O) × (value ≡ array items)

  -- The replies that the caller of `dispatch_pipeline` unwraps by itself.
  abbrev pub unwrap : Bool → List (Value F O) → List (Value F O)
  unwrap true (value ∷ _) = normalize core value
  unwrap _ values = values

  after :
      (value : Value F O) (redis : Redis F O)
      → ((items : Values F O) × (value ≡ array items))
      → map_err from_redis_error (expect_array core redis value) ≡ ok (normalize core value)
  unfolding expect_array normalize
  after value redis (items, shape) = rw shape refl

  -- Two continuations of one call, that agree on what the call answers.
  both :
      (m : Io W RedisError (Value F O)) (w : W) (f : Value F O → List (Value F O))
      (g : Value F O → Result RedisError (List (Value F O)))
      (u : List (Value F O) → List (Value F O))
      → ((value : Value F O)
          → (m w).0 ≡ ok value
          → map_ok u (map_err from_redis_error (g value)) ≡ ok (f value))
      → (map_io_err from_redis_error m >>= λ value. lift (ok (f value))) w ≡ (
        map_ok u (map_err from_redis_error ((m >>= λ value. lift (g value)) w).0),
        ((m >>= λ value. lift (g value)) w).1,
      )
  both m w f g u agree = answered (m w) agree
    where
      answered :
          (p : Result RedisError (Value F O) × W)
          → ((value : Value F O)
              → p.0 ≡ ok value
              → map_ok u (map_err from_redis_error (g value)) ≡ ok (f value))
          → (map_io_err from_redis_error (λ _. p) >>= λ value. lift (ok (f value))) w ≡ (
            map_ok u (map_err from_redis_error (((λ _. p) >>= λ value. lift (g value)) w).0),
            (((λ _. p) >>= λ value. lift (g value)) w).1,
          )
      answered (ok value, w') agree = ap (λ r. (r, w')) (sym (agree value refl))
      answered (err e, w') agree = refl

  -- The two ways of sending agree: with the default options and the default retry strategy, a
  -- pipeline that is not empty has the same effect and the same replies by `run_pipeline` as by
  -- `dispatch_pipeline`, but for the one reply of a transaction, which `run_pipeline` unwraps.
  pub run_pipeline-dispatch_pipeline :
      (redis : Redis F O) (pipeline : Q) (w : W)
      → core.is_empty pipeline ≡ false
      → core.default_retry ≡ record { server_error = false; connection_error = false }
      → AnswersArrays
      → run_pipeline core pipeline none true new_options w ≡ (
        map_ok
            (unwrap (core.is_atomic pipeline))
            (map_err from_redis_error (dispatch_pipeline core redis pipeline none w).0),
        (dispatch_pipeline core redis pipeline none w).1,
      )
  unfolding run_pipeline send dispatch_pipeline new_options timeout_millis
  run_pipeline-dispatch_pipeline redis pipeline w filled no_retry arrays =
      elim (Bool-cases (core.is_atomic pipeline)) [
        | inl atomic ↦
            let m = core.send_transaction pipeline none none true in
            rw (filled, atomic)
              (both m w (normalize core) (λ value. ok (value ∷ [])) (unwrap true) (λ value _. refl))
        | inr plain ↦
            let m = core.send_pipeline pipeline none true none core.default_retry in
            rw (filled, plain, ← no_retry)
              (both m w (normalize core) (expect_array core redis) (unwrap false) (λ value answered.
                let shown =
                  after value redis (arrays pipeline core.default_retry w value answered) in
                rw shown refl))
      ]
