-- ===== src/Config/Lowering.antt =====
-- What the lowering of a configuration into a request keeps, for src/config/common.rs.
use glide_rust.Base.{
  ◌≤◌, Bytes, Option, none, some, List, [], ◌∷◌, map, ◌≡◌, refl, ap, ◌↔◌, arith, map_option,
  is_empty, if◌then◌else◌,
}
use glide_rust.Config.Types.{
  ProtocolVersion, ReadFrom, NodeAddress, ServerCredentials, BackoffStrategy, TlsConfig, Duration,
  CoreProtocol, CoreReadFrom, CoreAddress, CoreService, CoreIam, AuthenticationInfo,
  ConnectionRetryStrategy, TlsMode, ServiceType, IamAuthConfig, as_millis, protocol_to_core,
  read_from_to_core, address_to_core, credentials_to_core, strategy_to_core, tls_to_core,
  iam_to_core, service_to_core, resp2, resp3, core_resp2, core_resp3, core_primary,
  core_prefer_replica, core_az_affinity, core_az_affinity_replicas_and_primary, core_all_nodes,
  primary, prefer_replica, az_affinity, az_affinity_replicas_and_primary, all_nodes, no_tls,
  secure_tls, insecure_tls, core_no_tls, core_secure_tls, core_insecure_tls, elasti_cache,
  memory_db, core_elasti_cache, core_memory_db,
}
use glide_rust.Config.Common.{
  CommonConfig, ConnectionRequest, common_request, duration_as_millis_u32, u32_max, set_if,
}
use glide_rust.Pipeline.{PipelineOptions, with_timeout, timeout_millis}

-- A timeout is sent as a 32-bit number of milliseconds: exactly as asked for just when that fits, and
-- as the largest number just when it does not, or is that number; so a longer timeout is never sent as
-- a shorter one. The timeout of a pipeline is sent as the same number.
pub duration_as_millis_u32_lem :
    (d longer : Duration) (options : PipelineOptions)
    → as_millis d ≤ as_millis longer
    → ((duration_as_millis_u32 d ≡ as_millis d) ↔ (as_millis d ≤ u32_max))
      × ((duration_as_millis_u32 d ≡ u32_max) ↔ (u32_max ≤ as_millis d))
      × (duration_as_millis_u32 d ≤ duration_as_millis_u32 longer)
      × (timeout_millis (with_timeout d options) ≡ some (duration_as_millis_u32 d))
unfolding duration_as_millis_u32 timeout_millis with_timeout
duration_as_millis_u32_lem d longer options h =
    (ground arith, ground arith, ground (arith, h), refl)

-- The settings that the core's own types stand for.
abbrev pub protocol_of : CoreProtocol → ProtocolVersion
protocol_of core_resp2 = resp2
protocol_of core_resp3 = resp3

abbrev pub read_from_of : CoreReadFrom → ReadFrom
read_from_of core_primary = primary
read_from_of core_prefer_replica = prefer_replica
read_from_of core_all_nodes = all_nodes
read_from_of (core_az_affinity az) = az_affinity az
read_from_of (core_az_affinity_replicas_and_primary az) = az_affinity_replicas_and_primary az

abbrev pub address_of : CoreAddress → NodeAddress
address_of a = record { host = a.core_host; port = a.core_port }

abbrev pub service_of : CoreService → ServiceType
service_of core_elasti_cache = elasti_cache
service_of core_memory_db = memory_db

abbrev pub iam_of : CoreIam → IamAuthConfig
iam_of iam = record {
  cluster_name = iam.core_cluster;
  region = iam.core_region;
  service_type = service_of iam.core_service;
  refresh_interval_seconds = iam.core_refresh;
}

abbrev pub credentials_of : AuthenticationInfo → ServerCredentials
credentials_of auth = record {
  username = auth.auth_username;
  password = auth.auth_password;
  iam_config = map_option iam_of auth.auth_iam;
}

abbrev pub strategy_of : ConnectionRetryStrategy → BackoffStrategy
strategy_of r = record {
  num_of_retries = r.retry_number;
  factor = r.retry_factor;
  exponent_base = r.retry_exponent_base;
  jitter_percent = r.retry_jitter;
}

abbrev pub tls_of : TlsMode → TlsConfig
tls_of core_no_tls = no_tls
tls_of core_secure_tls = secure_tls
tls_of core_insecure_tls = insecure_tls

protocol_of_lem : (p : ProtocolVersion) → protocol_of (protocol_to_core p) ≡ p
unfolding protocol_to_core
protocol_of_lem resp2 = refl
protocol_of_lem resp3 = refl

tls_of_lem : (t : TlsConfig) → tls_of (tls_to_core t) ≡ t
unfolding tls_to_core
tls_of_lem no_tls = refl
tls_of_lem _ = refl

read_from_of_lem : (r : ReadFrom) → read_from_of (read_from_to_core r) ≡ r
unfolding read_from_to_core
read_from_of_lem primary = refl
read_from_of_lem _ = refl

addresses_of_lem : (xs : List NodeAddress) → map address_of (map address_to_core xs) ≡ xs
unfolding address_to_core
addresses_of_lem [] = refl
addresses_of_lem (x ∷ xs) = ap (λ l. x ∷ l) (addresses_of_lem xs)

service_of_lem : (s : ServiceType) → service_of (service_to_core s) ≡ s
unfolding service_to_core
service_of_lem elasti_cache = refl
service_of_lem memory_db = refl

iam_of_lem : (o : Option IamAuthConfig) → map_option iam_of (map_option iam_to_core o) ≡ o
unfolding iam_to_core service_to_core
iam_of_lem none = refl
iam_of_lem (some iam) =
    ap (λ s. some (record iam { service_type = s })) (service_of_lem iam.service_type)

-- `ConnectionRequest::default()` sets none of the optional settings.
pub record IsUnset {D : Type 0} (default : ConnectionRequest D) : Type 0 where
  pub no_certs : default.req_root_certs ≡ []
  pub no_auth : default.authentication_info ≡ none
  pub no_strategy : default.connection_retry_strategy ≡ none
  pub no_request_timeout : default.req_request_timeout ≡ none
  pub no_connection_timeout : default.req_connection_timeout ≡ none

credentials_of_lem :
    (o : Option ServerCredentials)
    → map_option credentials_of (set_if o credentials_to_core none) ≡ o
unfolding credentials_to_core
credentials_of_lem none = refl
credentials_of_lem (some creds) =
    ap (λ i. some (record creds { iam_config = i })) (iam_of_lem creds.iam_config)

strategy_of_lem :
    (o : Option BackoffStrategy) → map_option strategy_of (set_if o strategy_to_core none) ≡ o
unfolding strategy_to_core
strategy_of_lem none = refl
strategy_of_lem (some b) = refl

certs_lem : (certs : List Bytes) → (if is_empty certs then [] else certs) ≡ certs
certs_lem [] = refl
certs_lem (c ∷ certs) = refl

millis_lem :
    (o : Option Duration)
    → set_if o duration_as_millis_u32 none ≡ map_option duration_as_millis_u32 o
millis_lem none = refl
millis_lem (some d) = refl

-- What the request says, read back, is what the configuration says.
abbrev pub IsLowered : {D : Type 0} → ConnectionRequest D → CommonConfig → Type 0
IsLowered req cfg =
    (map address_of req.req_addresses ≡ cfg.addresses)
    × (map_option tls_of req.tls_mode ≡ some cfg.tls)
    × (map_option read_from_of req.req_read_from ≡ some cfg.read_from)
    × (map_option protocol_of req.req_protocol ≡ some cfg.protocol)
    × (req.req_client_name ≡ cfg.client_name)
    × (req.req_lazy_connect ≡ cfg.lazy_connect)
    × (req.req_inflight ≡ cfg.inflight_requests_limit)
    × (req.req_root_certs ≡ cfg.root_certs)
    × (map_option credentials_of req.authentication_info ≡ cfg.credentials)
    × (map_option strategy_of req.connection_retry_strategy ≡ cfg.reconnect_strategy)
    × (req.req_request_timeout ≡ map_option duration_as_millis_u32 cfg.request_timeout)
    × (req.req_connection_timeout ≡ map_option duration_as_millis_u32 cfg.connection_timeout)

-- When the core's own default leaves the optional settings out, the addresses, the TLS mode, the
-- read strategy, the protocol, the client name, the lazy flag, the limit of requests, the CA
-- certificates, the credentials and the backoff strategy can be read back from the request as they
-- were configured, and the two timeouts as their saturated milliseconds.
pub common_request_lem :
    {D : Type 0} (default : ConnectionRequest D) (cfg : CommonConfig)
    → IsUnset default
    → IsLowered (common_request default cfg) cfg
unfolding common_request
common_request_lem default cfg unset = (
  addresses_of_lem cfg.addresses,
  ap some (tls_of_lem cfg.tls),
  ap some (read_from_of_lem cfg.read_from),
  ap some (protocol_of_lem cfg.protocol),
  refl,
  refl,
  refl,
  rw unset.no_certs (certs_lem cfg.root_certs),
  rw unset.no_auth (credentials_of_lem cfg.credentials),
  rw unset.no_strategy (strategy_of_lem cfg.reconnect_strategy),
  rw unset.no_request_timeout (millis_lem cfg.request_timeout),
  rw unset.no_connection_timeout (millis_lem cfg.connection_timeout),
)
