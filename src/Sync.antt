-- ===== src/Sync.antt =====
-- src/sync/mod.rs: the blocking clients, and the blocking calls of src/script.rs and
-- src/commands/core.rs. The runtime drives a call to its end, so that blocking on it gives its
-- result and leaves the world as it does.
pub mod Calls
use glide_rust.Base.{Bytes, Bool, Option, List, ok}
use glide_rust.Base.Io.{Io, ◌>>=◌, lift}
use glide_rust.Redis.{Value, Redis, RedisError, Args, Cmd}
use glide_rust.Error.{GlideError}
use glide_rust.Routes.{Route, Topology}
use glide_rust.Executor.{CommandExecutor, custom_command, custom_command_with_route}
use glide_rust.Config.Standalone.{GlideClientConfiguration}
use glide_rust.Config.Cluster.{GlideClusterClientConfiguration}
use glide_rust.Pipeline.{PipelineOptions, PipelineCore}
use glide_rust.Client.Connect.{
  GlideClient, GlideClusterClient, CoreClient, connect, cluster_connect, execute_command,
  glide_send_owned, update_connection_password, execute_pipeline, cluster_execute_pipeline,
}
use glide_rust.Client.Adapter.{
  ConnectionLike, PipelineTarget, standalone_target, cluster_target, query_glide,
}
use glide_rust.Commands.Connection.{ping}

-- `runtime().block_on(future)`
abbrev pub block_on : {W E A : Type 0} → Io W E A → Io W E A
block_on future = future

pub record SyncGlideClient (F O H : Type 0) : Type 0 where
  pub async_inner : GlideClient F O H

pub record SyncGlideClusterClient (F O H : Type 0) : Type 0 where
  pub async_cluster : GlideClusterClient F O H

unfoldable pub async_client : {F O H : Type 0} → SyncGlideClient F O H → GlideClient F O H
async_client client = client.async_inner

unfoldable pub async_cluster_client :
    {F O H : Type 0} → SyncGlideClusterClient F O H → GlideClusterClient F O H
async_cluster_client client = client.async_cluster

module _ {F O P H D W : Type 0} (core : CoreClient F O P H D W) where
  -- The executor behind a handle, which both clients are.
  abbrev executor : H → CommandExecutor F O P W
  executor handle = record { execute_command = execute_command core handle }

  unfoldable pub sync_connect : GlideClientConfiguration → Io W GlideError (SyncGlideClient F O H)
  unfolding connect
  sync_connect config =
      block_on (connect core config) >>= λ inner. lift (ok (record { async_inner = inner }))

  unfoldable pub run :
      {E T : Type 0} → (GlideClient F O H → Io W E T) → SyncGlideClient F O H → Io W E T
  run f client = block_on (f client.async_inner)

  unfoldable pub sync_update_connection_password :
      SyncGlideClient F O H → Option Bytes → Bool → Io W GlideError (Unit {0})
  unfolding update_connection_password
  sync_update_connection_password client password immediate_auth =
      block_on (update_connection_password core client.async_inner.inner password immediate_auth)

  unfoldable pub sync_custom_command :
      SyncGlideClient F O H → List Args → Io W GlideError (Value F O)
  unfolding execute_command custom_command
  sync_custom_command client args =
      block_on (custom_command (executor client.async_inner.inner) args)

  unfoldable pub sync_ping : Redis F O → SyncGlideClient F O H → Io W GlideError Bytes
  unfolding execute_command ping
  sync_ping redis client = block_on (ping redis (executor client.async_inner.inner))

  unfoldable pub sync_cluster_connect :
      GlideClusterClientConfiguration → Io W GlideError (SyncGlideClusterClient F O H)
  unfolding cluster_connect
  sync_cluster_connect config = block_on (cluster_connect core config) >>= λ inner.
      lift (ok (record { async_cluster = inner }))

  unfoldable pub cluster_run :
      {E T : Type 0}
      → (GlideClusterClient F O H → Io W E T)
      → SyncGlideClusterClient F O H
      → Io W E T
  cluster_run f client = block_on (f client.async_cluster)

  unfoldable pub sync_cluster_custom_command :
      SyncGlideClusterClient F O H → List Args → Io W GlideError (Value F O)
  unfolding execute_command custom_command
  sync_cluster_custom_command client args =
      block_on (custom_command (executor client.async_cluster.cluster_inner) args)

  unfoldable pub sync_custom_command_with_route :
      Topology P → SyncGlideClusterClient F O H → List Args → Route → Io W GlideError (Value F O)
  unfolding execute_command custom_command_with_route
  sync_custom_command_with_route topology client args route =
      block_on (
        custom_command_with_route (executor client.async_cluster.cluster_inner) topology args route)

  unfoldable pub sync_cluster_update_connection_password :
      SyncGlideClusterClient F O H → Option Bytes → Bool → Io W GlideError (Unit {0})
  unfolding update_connection_password
  sync_cluster_update_connection_password client password immediate_auth =
      block_on
        (update_connection_password core client.async_cluster.cluster_inner password immediate_auth)

  unfoldable pub sync_cluster_ping :
      Redis F O → SyncGlideClusterClient F O H → Io W GlideError Bytes
  unfolding execute_command ping
  sync_cluster_ping redis client =
      block_on (ping redis (executor client.async_cluster.cluster_inner))

  -- `glide_send_owned_sync` of both clients, which the macro writes alike.
  unfoldable pub glide_send_owned_sync : SyncGlideClient F O H → Cmd → Io W RedisError (Value F O)
  unfolding glide_send_owned
  glide_send_owned_sync client cmd = block_on (glide_send_owned core client.async_inner.inner cmd)

  unfoldable pub cluster_glide_send_owned_sync :
      SyncGlideClusterClient F O H → Cmd → Io W RedisError (Value F O)
  unfolding glide_send_owned
  cluster_glide_send_owned_sync client cmd =
      block_on (glide_send_owned core client.async_cluster.cluster_inner cmd)

-- `pipelines` is the core behind a handle, and `Q` a pipeline.
module _ {F O P Q H W : Type 0} (pipelines : H → PipelineCore F O P Q W) where
  unfoldable pub sync_execute_pipeline :
      SyncGlideClient F O H → Q → Bool → PipelineOptions → Io W GlideError (List (Value F O))
  unfolding execute_pipeline
  sync_execute_pipeline client pipeline raise_on_error options =
      block_on
        (execute_pipeline (pipelines client.async_inner.inner) pipeline raise_on_error options)

  unfoldable pub sync_cluster_execute_pipeline :
      Topology P
      → SyncGlideClusterClient F O H
      → Q
      → Bool
      → Option Route
      → PipelineOptions
      → Io W GlideError (List (Value F O))
  unfolding cluster_execute_pipeline
  sync_cluster_execute_pipeline topology client pipeline raise_on_error route options = block_on (
      cluster_execute_pipeline (pipelines client.async_cluster.cluster_inner) topology pipeline
        raise_on_error route options)

  -- `async_conn` and the blocking `query_glide`, for the two clients.
  module _ {T : Type 0} (redis : Redis F O)
      (query_async : Q → ConnectionLike F O Q W → Io W RedisError T) where
    unfoldable pub query_glide_sync : Q → SyncGlideClient F O H → Io W RedisError T
    unfolding query_glide standalone_target
    query_glide_sync pipeline client =
        block_on
          (query_glide redis pipelines query_async pipeline (standalone_target client.async_inner))

    unfoldable pub query_glide_sync_cluster : Q → SyncGlideClusterClient F O H → Io W RedisError T
    unfolding query_glide cluster_target
    query_glide_sync_cluster pipeline client =
        block_on
          (query_glide redis pipelines query_async pipeline (cluster_target client.async_cluster))
