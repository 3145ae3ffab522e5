-- ===== src/Client/Adapter.antt =====
-- The adapter of src/client/connection.rs, through which the fork decodes the replies of a pipeline,
-- and the small accessors of the clients in src/client/mod.rs.
use glide_rust.Base.{ℕ, ℤ, pos, Bytes, Bool, false, Option, List}
use glide_rust.Base.Io.{Io}
use glide_rust.Redis.{Value, Redis, RedisError, Cmd}
use glide_rust.Error.{GlideResult}
use glide_rust.Pipeline.{
  PipelineCore, PipelineRetryStrategy, req_packed_command, req_packed_commands,
}
use glide_rust.Client.Connect.{GlideClient, GlideClusterClient}
use glide_rust.Client.PubSub.{PubSubMessage, PushRx, recv_pubsub_message, try_recv_pubsub_message}
use glide_rust.Client.ClusterScan.{ClusterScanCursor}

-- The trait `redis::aio::ConnectionLike`, which the fork's typed decoding of a pipeline runs against;
-- `Q` is a pipeline.
pub record ConnectionLike (F O Q W : Type 0) : Type 0 where
  pub packed_command : Cmd → Io W RedisError (Value F O)
  pub packed_commands :
      Q → ℕ → ℕ → Option PipelineRetryStrategy → Io W RedisError (List (Value F O))
  pub get_db : ℤ
  pub is_closed : Bool

-- `PipelineConn`: it never counts as closed.
unfoldable pub pipeline_conn :
    {F O P Q W : Type 0} → Redis F O → PipelineCore F O P Q W → ℤ → ConnectionLike F O Q W
pipeline_conn redis core db = record {
  packed_command = req_packed_command core redis;
  packed_commands = req_packed_commands core redis;
  get_db = db;
  is_closed = false;
}

-- The trait `GlidePipelineTarget`, and its two instances.
pub record PipelineTarget (H : Type 0) : Type 0 where
  pub core_handle : H
  pub db_index : ℤ

unfoldable pub db : {F O H : Type 0} → GlideClient F O H → ℤ
db client = client.db

unfoldable pub standalone_target : {F O H : Type 0} → GlideClient F O H → PipelineTarget H
unfolding db
standalone_target client = record { core_handle = client.inner; db_index = db client }

-- A cluster always uses the database 0.
unfoldable pub cluster_target : {F O H : Type 0} → GlideClusterClient F O H → PipelineTarget H
cluster_target client = record { core_handle = client.cluster_inner; db_index = pos 0 }

-- `PipelineExt::query_glide`: `query_async` is the fork's decoding of a pipeline on a connection, and
-- `pipelines` the core behind a handle.
unfoldable pub query_glide :
    {F O P Q W H T : Type 0}
    → Redis F O
    → (H → PipelineCore F O P Q W)
    → (Q → ConnectionLike F O Q W → Io W RedisError T)
    → Q
    → PipelineTarget H
    → Io W RedisError T
unfolding pipeline_conn
query_glide redis pipelines query_async pipeline target =
    query_async pipeline (pipeline_conn redis (pipelines target.core_handle) target.db_index)

-- `core` of both clients.
unfoldable pub core : {F O H : Type 0} → GlideClient F O H → H
core client = client.inner

unfoldable pub cluster_core : {F O H : Type 0} → GlideClusterClient F O H → H
cluster_core client = client.cluster_inner

module _ {F O : Type 0} (redis : Redis F O) {H : Type 0} where
  -- `get_pubsub_message` and `try_get_pubsub_message` of the standalone client.
  unfoldable pub get_pubsub_message :
      GlideClient F O H → Option (GlideResult PubSubMessage) × Option (PushRx F O)
  get_pubsub_message client = recv_pubsub_message redis client.pubsub_rx

  unfoldable pub try_get_pubsub_message :
      GlideClient F O H → GlideResult (Option PubSubMessage) × Option (PushRx F O)
  try_get_pubsub_message client = try_recv_pubsub_message redis client.pubsub_rx

  -- The same two of the cluster client.
  unfoldable pub cluster_get_pubsub_message :
      GlideClusterClient F O H → Option (GlideResult PubSubMessage) × Option (PushRx F O)
  cluster_get_pubsub_message client = recv_pubsub_message redis client.cluster_pubsub_rx

  unfoldable pub cluster_try_get_pubsub_message :
      GlideClusterClient F O H → GlideResult (Option PubSubMessage) × Option (PushRx F O)
  cluster_try_get_pubsub_message client = try_recv_pubsub_message redis client.cluster_pubsub_rx

-- `ClusterScanCursor::from_id` and `id`: a cursor is its id.
unfoldable pub from_id : Bytes → ClusterScanCursor
from_id id = id

unfoldable pub id : ClusterScanCursor → Bytes
id cursor = cursor
