-- ===== src/Tests/ConfigTests.antt =====
-- Configurations at concrete inputs.
use glide_rust.Base.{
  arith, ℕ, ◌≤◌, pos, Bytes, ascii, false, none, some, List, [], ◌∷◌, Result, ok, err, ◌≡◌, refl,
  ◌↔◌,
}
use glide_rust.Base.Fallible.{collect}
use glide_rust.Redis.{RedisError}
use glide_rust.Error.{configuration}
use glide_rust.Config.Types.{Duration, as_millis, core_resp3, no_tls, NodeAddress}
use glide_rust.Pipeline.{with_timeout, timeout_millis, new_options}
use glide_rust.Config.Common.{
  CommonConfig, ConnectionRequest, ConnectionInfo, tcp, unix, new_common, set_tls,
  split_connection_addr, credentials_from_info, from_redis_protocol, tls_ca_cert,
  set_request_timeout, common_request, duration_as_millis_u32, u32_max,
}
use glide_rust.Config.Standalone.{GlideClientConfiguration, from_connection_info, to_request}
use glide_rust.Config.Cluster.{
  Settings, GlideClusterClientConfiguration, configured, read_url, from_urls,
}
use glide_rust.Config.Lowering.{IsUnset, IsLowered, duration_as_millis_u32_lem, common_request_lem}
use glide_rust.Config.Connection.{
  IsMappable, IsRequested, from_connection_info-to_request, from_connection_info_refuses,
}
use glide_rust.Config.Urls.{IsAccepted, from_urls-IsAccepted, from_urls_accepts}

-- `ConnectionRequest::default()`, with no further field.
abbrev pub default : ConnectionRequest (Unit {0})
default = record {
  req_addresses = [];
  tls_mode = none;
  req_read_from = none;
  req_protocol = none;
  req_client_name = none;
  lib_name = none;
  req_lazy_connect = false;
  req_inflight = none;
  tcp_nodelay = false;
  req_root_certs = [];
  client_cert = [];
  client_key = [];
  req_subscriptions = none;
  authentication_info = none;
  req_request_timeout = none;
  req_connection_timeout = none;
  connection_retry_strategy = none;
  cluster_mode_enabled = false;
  req_database_id = pos 0;
  req_periodic_checks = none;
  others = tt;
}

default-IsUnset : IsUnset default
default-IsUnset = record {
  no_certs = refl;
  no_auth = refl;
  no_strategy = refl;
  no_request_timeout = refl;
  no_connection_timeout = refl;
}

abbrev sixty_days : Duration
sixty_days = record { secs = 5_184_000; nanos = 0 }

abbrev ninety_days : Duration
ninety_days = record { secs = 7776000; nanos = 0 }

sixty-le-ninety : as_millis sixty_days ≤ as_millis ninety_days
unfolding as_millis
sixty-le-ninety = omega arith

duration_as_millis_u32_example :
    ((duration_as_millis_u32 sixty_days ≡ as_millis sixty_days) ↔ (as_millis sixty_days ≤ u32_max))
    × ((duration_as_millis_u32 sixty_days ≡ u32_max) ↔ (u32_max ≤ as_millis sixty_days))
    × (duration_as_millis_u32 sixty_days ≤ duration_as_millis_u32 ninety_days)
    × (timeout_millis (with_timeout sixty_days new_options)
        ≡ some (duration_as_millis_u32 sixty_days))
duration_as_millis_u32_example =
    duration_as_millis_u32_lem sixty_days ninety_days new_options sixty-le-ninety

abbrev trusting : CommonConfig
trusting = tls_ca_cert (ascii "pem") (set_request_timeout sixty_days (new_common []))

common_request_example : IsLowered (common_request default trusting) trusting
common_request_example = common_request_lem default trusting default-IsUnset

abbrev info : ConnectionInfo ℕ
info = record {
  addr = tcp (ascii "n1") 7000;
  redis = record {
    db = pos 0;
    username = some (ascii "u");
    password = none;
    info_protocol = core_resp3;
    info_name = none;
  };
}

abbrev standalone : GlideClientConfiguration
standalone = record {
  common = record (new_common (record { host = ascii "n1"; port = 7000 } ∷ [])) {
    credentials = some (record { username = some (ascii "u"); password = none; iam_config = none });
  };
  database_id = pos 0;
}

from_connection_info-to_request_example : IsRequested info (to_request default standalone)
unfolding from_connection_info new_common split_connection_addr set_tls credentials_from_info
    from_redis_protocol
from_connection_info-to_request_example =
    from_connection_info-to_request default info standalone refl refl

abbrev local : ConnectionInfo ℕ
local = record info { addr = unix (ascii "/s") }

from_connection_info_refuses_example :
    ((m : Bytes) × (from_connection_info (ok local) ≡ err (configuration m)))
    ↔ (¬ IsMappable local.addr)
from_connection_info_refuses_example = from_connection_info_refuses local

abbrev urls : List (Result RedisError (ConnectionInfo ℕ))
urls = ok info ∷ ok (record info { addr = tcp (ascii "n2") 7001 }) ∷ []

abbrev node : Bytes → ℕ → NodeAddress
node host port = record { host = host; port = port }

abbrev first : Settings
first = (no_tls, info.redis)

abbrev two_nodes : GlideClusterClientConfiguration
two_nodes = configured (node (ascii "n1") 7000 ∷ node (ascii "n2") 7001 ∷ []) first

read_both :
    collect read_url urls
    ≡ ok ((node (ascii "n1") 7000, first) ∷ (node (ascii "n2") 7001, first) ∷ [])
unfolding collect read_url split_connection_addr
read_both = refl

accepted : from_urls urls ≡ ok two_nodes
accepted =
    from_urls_accepts urls (node (ascii "n1") 7000) first ((node (ascii "n2") 7001, first) ∷ [])
      read_both ((refl, refl, refl, refl, refl), tt) refl

from_urls_accepts_example : from_urls urls ≡ ok two_nodes
from_urls_accepts_example =
    from_urls_accepts urls (node (ascii "n1") 7000) first ((node (ascii "n2") 7001, first) ∷ [])
      read_both ((refl, refl, refl, refl, refl), tt) refl

from_urls_example : IsAccepted urls two_nodes
from_urls_example = from_urls-IsAccepted urls two_nodes accepted
