-- ===== src/Config/Types.antt =====
-- The setting types of src/config/common.rs, and the types of `glide_core` and of the fork that they
-- are lowered into.
use glide_rust.Base.{ℕ, Bytes, ascii, Option, none, some, ◌+◌, ◌*◌, ◌/◌, map_option}

pub data ProtocolVersion : Type 0 where
  resp2 resp3 : ProtocolVersion

pub data ReadFrom : Type 0 where
  primary prefer_replica all_nodes : ReadFrom
  az_affinity az_affinity_replicas_and_primary : Bytes → ReadFrom

pub record NodeAddress : Type 0 where
  pub host : Bytes
  pub port : ℕ

-- `NodeAddress::default`
unfoldable pub default_address : NodeAddress
default_address = record { host = ascii "localhost"; port = 6379 }

pub data ServiceType : Type 0 where
  elasti_cache memory_db : ServiceType

pub record IamAuthConfig : Type 0 where
  pub cluster_name : Bytes
  pub region : Bytes
  pub service_type : ServiceType
  pub refresh_interval_seconds : Option ℕ

-- `IamAuthConfig::new` and `with_refresh_interval_seconds`
unfoldable pub new_iam : Bytes → Bytes → ServiceType → IamAuthConfig
new_iam cluster_name region service_type = record {
  cluster_name = cluster_name;
  region = region;
  service_type = service_type;
  refresh_interval_seconds = none;
}

unfoldable pub with_refresh_interval_seconds : ℕ → IamAuthConfig → IamAuthConfig
with_refresh_interval_seconds seconds iam = record iam { refresh_interval_seconds = some seconds }

pub record ServerCredentials : Type 0 where
  pub username : Option Bytes
  pub password : Option Bytes
  pub iam_config : Option IamAuthConfig

-- `ServerCredentials::password`, `new`, `iam` and `with_password`
unfoldable pub password_credentials : Bytes → ServerCredentials
password_credentials password = record {
  username = none;
  password = some password;
  iam_config = none;
}

unfoldable pub new_credentials : Bytes → Bytes → ServerCredentials
new_credentials username password = record {
  username = some username;
  password = some password;
  iam_config = none;
}

unfoldable pub iam_credentials : Bytes → IamAuthConfig → ServerCredentials
iam_credentials username iam = record {
  username = some username;
  password = none;
  iam_config = some iam;
}

unfoldable pub with_password : Bytes → ServerCredentials → ServerCredentials
with_password password creds = record creds { password = some password }

pub record ClientIdentity : Type 0 where
  pub cert_pem : Bytes
  pub key_pem : Bytes

pub record BackoffStrategy : Type 0 where
  pub num_of_retries : ℕ
  pub factor : ℕ
  pub exponent_base : ℕ
  pub jitter_percent : Option ℕ

pub data PeriodicChecks : Type 0 where
  enabled disabled : PeriodicChecks
  manual_interval : ℕ → PeriodicChecks

pub data TlsConfig : Type 0 where
  no_tls secure_tls insecure_tls : TlsConfig

-- `std::time::Duration`; `nanos` is below 1_000_000_000.
pub record Duration : Type 0 where
  pub secs : ℕ
  pub nanos : ℕ

unfoldable pub as_millis : Duration → ℕ
as_millis d = d.secs * 1000 + d.nanos / 1_000_000

unfoldable pub from_secs : ℕ → Duration
from_secs s = record { secs = s; nanos = 0 }

-- The types of `glide_core` and of the fork that the settings are lowered into: the same choices
-- under their own names.
pub data CoreProtocol : Type 0 where
  core_resp2 core_resp3 : CoreProtocol

pub data CoreReadFrom : Type 0 where
  core_primary core_prefer_replica core_all_nodes : CoreReadFrom
  core_az_affinity core_az_affinity_replicas_and_primary : Bytes → CoreReadFrom

pub record CoreAddress : Type 0 where
  pub core_host : Bytes
  pub core_port : ℕ

pub data CoreService : Type 0 where
  core_elasti_cache core_memory_db : CoreService

pub record CoreIam : Type 0 where
  pub core_cluster : Bytes
  pub core_region : Bytes
  pub core_service : CoreService
  pub core_refresh : Option ℕ

pub record AuthenticationInfo : Type 0 where
  pub auth_username : Option Bytes
  pub auth_password : Option Bytes
  pub auth_iam : Option CoreIam

pub record ConnectionRetryStrategy : Type 0 where
  pub retry_exponent_base : ℕ
  pub retry_factor : ℕ
  pub retry_number : ℕ
  pub retry_jitter : Option ℕ

pub data PeriodicCheck : Type 0 where
  core_enabled core_disabled : PeriodicCheck
  core_manual_interval : Duration → PeriodicCheck

pub data TlsMode : Type 0 where
  core_no_tls core_secure_tls core_insecure_tls : TlsMode

-- The `From` conversions and the `to_core` methods.
unfoldable pub protocol_to_core : ProtocolVersion → CoreProtocol
protocol_to_core resp2 = core_resp2
protocol_to_core resp3 = core_resp3

unfoldable pub read_from_to_core : ReadFrom → CoreReadFrom
read_from_to_core primary = core_primary
read_from_to_core prefer_replica = core_prefer_replica
read_from_to_core (az_affinity az) = core_az_affinity az
read_from_to_core (az_affinity_replicas_and_primary az) = core_az_affinity_replicas_and_primary az
read_from_to_core all_nodes = core_all_nodes

unfoldable pub address_to_core : NodeAddress → CoreAddress
address_to_core a = record { core_host = a.host; core_port = a.port }

unfoldable pub service_to_core : ServiceType → CoreService
service_to_core elasti_cache = core_elasti_cache
service_to_core memory_db = core_memory_db

unfoldable pub iam_to_core : IamAuthConfig → CoreIam
iam_to_core iam = record {
  core_cluster = iam.cluster_name;
  core_region = iam.region;
  core_service = service_to_core iam.service_type;
  core_refresh = iam.refresh_interval_seconds;
}

unfoldable pub credentials_to_core : ServerCredentials → AuthenticationInfo
credentials_to_core creds = record {
  auth_username = creds.username;
  auth_password = creds.password;
  auth_iam = map_option iam_to_core creds.iam_config;
}

unfoldable pub strategy_to_core : BackoffStrategy → ConnectionRetryStrategy
strategy_to_core b = record {
  retry_exponent_base = b.exponent_base;
  retry_factor = b.factor;
  retry_number = b.num_of_retries;
  retry_jitter = b.jitter_percent;
}

unfoldable pub checks_to_core : PeriodicChecks → PeriodicCheck
unfolding from_secs
checks_to_core enabled = core_enabled
checks_to_core disabled = core_disabled
checks_to_core (manual_interval secs) = core_manual_interval (from_secs secs)

unfoldable pub tls_to_core : TlsConfig → TlsMode
tls_to_core no_tls = core_no_tls
tls_to_core secure_tls = core_secure_tls
tls_to_core insecure_tls = core_insecure_tls
