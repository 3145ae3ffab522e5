-- ===== src/Config/Common.antt =====
-- src/config/common.rs: what the two configurations share, the builder setters that the macro
-- `impl_common_config_builders` generates for both, and their lowering into a request.
use glide_rust.Base.{
  ℕ, ℤ, ◌-◌, ◌^◌, Bytes, ascii, Bool, true, false, Option, none, some, List, [], ◌∷◌, ◌++◌, map, ok,
  err, if◌then◌else◌, is_empty, leb,
}
use glide_rust.Error.{GlideResult, configuration}
use glide_rust.Config.Types.{
  ProtocolVersion, ReadFrom, NodeAddress, ServerCredentials, ClientIdentity, BackoffStrategy,
  TlsConfig, Duration, CoreProtocol, CoreReadFrom, CoreAddress, AuthenticationInfo,
  ConnectionRetryStrategy, PeriodicCheck, TlsMode, resp2, resp3, primary, no_tls, secure_tls,
  insecure_tls, core_resp2, core_resp3, as_millis, protocol_to_core, read_from_to_core,
  address_to_core, credentials_to_core, strategy_to_core, tls_to_core,
}
use glide_rust.Config.Subscriptions.{ChannelMap, SubscriptionInfo, subscriptions_to_core}

-- The fields that both configurations declare.
pub record CommonConfig : Type 0 where
  pub addresses : List NodeAddress
  pub tls : TlsConfig
  pub credentials : Option ServerCredentials
  pub read_from : ReadFrom
  pub request_timeout : Option Duration
  pub connection_timeout : Option Duration
  pub reconnect_strategy : Option BackoffStrategy
  pub client_name : Option Bytes
  pub protocol : ProtocolVersion
  pub inflight_requests_limit : Option ℕ
  pub lazy_connect : Bool
  pub pubsub_subscriptions : Option ChannelMap
  pub force_pubsub_channel : Bool
  pub root_certs : List Bytes
  pub client_identity : Option ClientIdentity

-- What both `new` functions write into them.
unfoldable pub new_common : List NodeAddress → CommonConfig
new_common addresses = record {
  addresses = addresses;
  tls = no_tls;
  credentials = none;
  read_from = primary;
  request_timeout = none;
  connection_timeout = none;
  reconnect_strategy = none;
  client_name = none;
  protocol = resp3;
  inflight_requests_limit = none;
  lazy_connect = false;
  pubsub_subscriptions = none;
  force_pubsub_channel = false;
  root_certs = [];
  client_identity = none;
}

-- The setters of the macro, on the shared fields.
unfoldable pub with_address : Bytes → ℕ → CommonConfig
unfolding new_common
with_address host port = new_common (record { host = host; port = port } ∷ [])

unfoldable pub set_tls : TlsConfig → CommonConfig → CommonConfig
set_tls tls cfg = record cfg { tls = tls }

unfoldable pub tls_ca_cert : Bytes → CommonConfig → CommonConfig
tls_ca_cert pem cfg = record cfg { root_certs = cfg.root_certs ++ pem ∷ [] }

unfoldable pub set_client_identity : Bytes → Bytes → CommonConfig → CommonConfig
set_client_identity cert_pem key_pem cfg = record cfg {
  client_identity = some (record { cert_pem = cert_pem; key_pem = key_pem });
}

unfoldable pub set_credentials : ServerCredentials → CommonConfig → CommonConfig
set_credentials creds cfg = record cfg { credentials = some creds }

unfoldable pub set_read_from : ReadFrom → CommonConfig → CommonConfig
set_read_from read_from cfg = record cfg { read_from = read_from }

unfoldable pub set_request_timeout : Duration → CommonConfig → CommonConfig
set_request_timeout timeout cfg = record cfg { request_timeout = some timeout }

unfoldable pub set_connection_timeout : Duration → CommonConfig → CommonConfig
set_connection_timeout timeout cfg = record cfg { connection_timeout = some timeout }

unfoldable pub set_inflight_requests_limit : ℕ → CommonConfig → CommonConfig
set_inflight_requests_limit limit cfg = record cfg { inflight_requests_limit = some limit }

unfoldable pub set_client_name : Bytes → CommonConfig → CommonConfig
set_client_name name cfg = record cfg { client_name = some name }

unfoldable pub set_protocol : ProtocolVersion → CommonConfig → CommonConfig
set_protocol protocol cfg = record cfg { protocol = protocol }

unfoldable pub set_lazy_connect : Bool → CommonConfig → CommonConfig
set_lazy_connect is_lazy cfg = record cfg { lazy_connect = is_lazy }

unfoldable pub set_reconnect_strategy : BackoffStrategy → CommonConfig → CommonConfig
set_reconnect_strategy strategy cfg = record cfg { reconnect_strategy = some strategy }

unfoldable pub subscriptions : ChannelMap → CommonConfig → CommonConfig
subscriptions subs cfg = record cfg { pubsub_subscriptions = some subs }

unfoldable pub enable_pubsub : CommonConfig → CommonConfig
enable_pubsub cfg = record cfg { force_pubsub_channel = true }

-- `u32::MAX`, and `u32::try_from(…).unwrap_or(u32::MAX)`.
abbrev pub u32_max : ℕ
u32_max = 2 ^ 32 - 1

unfoldable pub duration_as_millis_u32 : Duration → ℕ
duration_as_millis_u32 d = if leb (as_millis d) u32_max then as_millis d else u32_max

-- `redis::ConnectionAddr`; `C` stands for `TlsConnParams`.
pub data ConnectionAddr (C : Type 0) : Type 0 where
  tcp : Bytes → ℕ → ConnectionAddr C
  tcp_tls : Bytes → ℕ → Bool → Option C → ConnectionAddr C
  unix : Bytes → ConnectionAddr C

-- `redis::RedisConnectionInfo` and `redis::ConnectionInfo`
pub record RedisConnectionInfo : Type 0 where
  pub db : ℤ
  pub username : Option Bytes
  pub password : Option Bytes
  pub info_protocol : CoreProtocol
  pub info_name : Option Bytes

pub record ConnectionInfo (C : Type 0) : Type 0 where
  pub addr : ConnectionAddr C
  pub redis : RedisConnectionInfo

unfoldable pub split_connection_addr :
    {C : Type 0} → ConnectionAddr C → GlideResult (NodeAddress × TlsConfig)
split_connection_addr (tcp host port) = ok (record { host = host; port = port }, no_tls)
split_connection_addr (tcp_tls host port insecure (some params)) = err (
    configuration (
      ascii
        "ConnectionInfo carries TLS certificate parameters (TlsCertificates) that cannot be mapped; configure them via the config's `root_certs` field and `client_identity(cert, key)` instead"))
split_connection_addr (tcp_tls host port insecure none) =
    ok (record { host = host; port = port }, if insecure then insecure_tls else secure_tls)
split_connection_addr (unix _) =
    err (configuration (ascii "unix-socket connections are not supported by glide-core"))

unfoldable pub from_redis_protocol : CoreProtocol → ProtocolVersion
from_redis_protocol core_resp2 = resp2
from_redis_protocol core_resp3 = resp3

unfoldable pub credentials_from_info : Option Bytes → Option Bytes → Option ServerCredentials
credentials_from_info none none = none
credentials_from_info username password =
    some (record { username = username; password = password; iam_config = none })

-- `glide_core::client::ConnectionRequest`, by the fields that the client writes; `D` is the rest.
pub record ConnectionRequest (D : Type 0) : Type 0 where
  pub req_addresses : List CoreAddress
  pub tls_mode : Option TlsMode
  pub req_read_from : Option CoreReadFrom
  pub req_protocol : Option CoreProtocol
  pub req_client_name : Option Bytes
  pub lib_name : Option Bytes
  pub req_lazy_connect : Bool
  pub req_inflight : Option ℕ
  pub tcp_nodelay : Bool
  pub req_root_certs : List Bytes
  pub client_cert : Bytes
  pub client_key : Bytes
  pub req_subscriptions : Option SubscriptionInfo
  pub authentication_info : Option AuthenticationInfo
  pub req_request_timeout : Option ℕ
  pub req_connection_timeout : Option ℕ
  pub connection_retry_strategy : Option ConnectionRetryStrategy
  pub cluster_mode_enabled : Bool
  pub req_database_id : ℤ
  pub req_periodic_checks : Option PeriodicCheck
  pub others : D

-- `if let Some(x) = o { req.field = Some(f(x)); }`, where the field was `old`.
abbrev pub set_if : {A B : Type 0} → Option A → (A → B) → Option B → Option B
set_if none f old = old
set_if (some a) f old = some (f a)

-- `if let Some(x) = o { req.field = f(x); }`
abbrev pub put_if : {A B : Type 0} → Option A → (A → B) → B → B
put_if none f old = old
put_if (some a) f old = f a

-- `default` is `ConnectionRequest::default()`.
unfoldable pub common_request :
    {D : Type 0} → ConnectionRequest D → CommonConfig → ConnectionRequest D
common_request default cfg = record default {
  req_addresses = map address_to_core cfg.addresses;
  tls_mode = some (tls_to_core cfg.tls);
  req_read_from = some (read_from_to_core cfg.read_from);
  req_protocol = some (protocol_to_core cfg.protocol);
  req_client_name = cfg.client_name;
  lib_name = some (ascii "GlideRust");
  req_lazy_connect = cfg.lazy_connect;
  req_inflight = cfg.inflight_requests_limit;
  tcp_nodelay = true;
  req_root_certs = if is_empty cfg.root_certs then default.req_root_certs else cfg.root_certs;
  client_cert = put_if cfg.client_identity (λ i. i.cert_pem) default.client_cert;
  client_key = put_if cfg.client_identity (λ i. i.key_pem) default.client_key;
  req_subscriptions =
      set_if cfg.pubsub_subscriptions subscriptions_to_core default.req_subscriptions;
  authentication_info = set_if cfg.credentials credentials_to_core default.authentication_info;
  req_request_timeout =
      set_if cfg.request_timeout duration_as_millis_u32 default.req_request_timeout;
  req_connection_timeout =
      set_if cfg.connection_timeout duration_as_millis_u32 default.req_connection_timeout;
  connection_retry_strategy =
      set_if cfg.reconnect_strategy strategy_to_core default.connection_retry_strategy;
}
