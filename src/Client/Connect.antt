-- ===== src/Client/Connect.antt =====
-- The two clients of src/client/mod.rs: how they connect, and the calls that they hand to the core.
pub mod Laws
use glide_rust.Base.{
  ℤ, Bytes, Bool, false, not, ◌||◌, Option, none, some, List, Result, ok, map_option,
}
use glide_rust.Base.Io.{Io, ◌>>=◌, lift, map_io_err}
use glide_rust.Redis.{Value, RedisError, ConnectionError, Cmd}
use glide_rust.Error.{GlideError, from_redis_error, from_connection_error}
use glide_rust.Routes.{Route, RoutingInfo, Topology, to_routing_info}
use glide_rust.Config.Subscriptions.{ChannelMap, has_no_channel}
use glide_rust.Config.Common.{CommonConfig, ConnectionRequest}
use glide_rust.Config.Standalone.{GlideClientConfiguration}
use glide_rust.Config.Cluster.{GlideClusterClientConfiguration}
use glide_rust.Config.Standalone
use glide_rust.Config.Cluster
use glide_rust.Client.PubSub.{PushRx, make_push_channel}
use glide_rust.Pipeline.{PipelineOptions, PipelineCore, run_pipeline}

-- `H` is the handle that `CoreClient::new` gives; a clone of it is the same client.
pub record GlideClient (F O H : Type 0) : Type 0 where
  pub inner : H
  pub pubsub_rx : Option (PushRx F O)
  pub db : ℤ

pub record GlideClusterClient (F O H : Type 0) : Type 0 where
  pub cluster_inner : H
  pub cluster_pubsub_rx : Option (PushRx F O)

-- What the clients call of `glide_core::client::Client`. The sender that `new_core` takes is the
-- other end of the channel.
pub record CoreClient (F O P H D W : Type 0) : Type 0 where
  pub default_request : ConnectionRequest D
  pub new_core : ConnectionRequest D → Option (PushRx F O) → Io W ConnectionError H
  pub send_command : H → Cmd → Option (RoutingInfo P) → Io W RedisError (Value F O)
  pub update_password : H → Option Bytes → Bool → Io W RedisError (Value F O)

-- `config.pubsub_subscriptions.as_ref().is_some_and(|s| !s.is_empty())`
unfoldable pub has_subs : Option ChannelMap → Bool
has_subs none = false
has_subs (some subs) = not (has_no_channel subs)

-- The channel that both `connect` functions make.
unfoldable pub push_channel : {F O : Type 0} → CommonConfig → Option (PushRx F O)
unfolding has_subs
push_channel cfg = make_push_channel (has_subs cfg.pubsub_subscriptions || cfg.force_pubsub_channel)

module _ {F O P H D W : Type 0} (core : CoreClient F O P H D W) where
  unfoldable pub connect : GlideClientConfiguration → Io W GlideError (GlideClient F O H)
  unfolding push_channel
  connect config =
      let request = Standalone.to_request core.default_request config in
      let rx = push_channel config.common in
      map_io_err from_connection_error (core.new_core request rx) >>= λ inner.
      lift (ok (record { inner = inner; pubsub_rx = rx; db = config.database_id }))

  unfoldable pub cluster_connect :
      GlideClusterClientConfiguration → Io W GlideError (GlideClusterClient F O H)
  unfolding push_channel
  cluster_connect config =
      let request = Cluster.to_request core.default_request config in
      let rx = push_channel config.common in
      map_io_err from_connection_error (core.new_core request rx) >>= λ inner.
      lift (ok (record { cluster_inner = inner; cluster_pubsub_rx = rx }))

  -- Both `CommandExecutor` instances, and `route_command`.
  unfoldable pub execute_command : H → Cmd → Option (RoutingInfo P) → Io W GlideError (Value F O)
  execute_command inner cmd routing =
      map_io_err from_redis_error (core.send_command inner cmd routing)

  unfoldable pub route_command : Topology P → H → Cmd → Route → Io W GlideError (Value F O)
  route_command topology inner cmd route =
      let routing = to_routing_info topology route (some cmd) in
      map_io_err from_redis_error (core.send_command inner cmd (some routing))

  -- `glide_send_owned` of both clients.
  unfoldable pub glide_send_owned : H → Cmd → Io W RedisError (Value F O)
  glide_send_owned inner cmd = core.send_command inner cmd none

  unfoldable pub update_connection_password : H → Option Bytes → Bool → Io W GlideError (Unit {0})
  update_connection_password inner password immediate_auth =
      map_io_err from_redis_error (core.update_password inner password immediate_auth) >>= λ _.
      lift (ok tt)

module _ {F O P Q W : Type 0} (core : PipelineCore F O P Q W) where
  -- `execute_pipeline` of the standalone and of the cluster client.
  unfoldable pub execute_pipeline : Q → Bool → PipelineOptions → Io W GlideError (List (Value F O))
  execute_pipeline pipeline raise_on_error options =
      run_pipeline core pipeline none raise_on_error options

  unfoldable pub cluster_execute_pipeline :
      Topology P → Q → Bool → Option Route → PipelineOptions → Io W GlideError (List (Value F O))
  cluster_execute_pipeline topology pipeline raise_on_error route options =
      let routing = map_option (λ r. to_routing_info topology r none) route in
      run_pipeline core pipeline routing raise_on_error options
