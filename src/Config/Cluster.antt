-- ===== src/Config/Cluster.antt =====
-- src/config/cluster.rs
use glide_rust.Base.{
  Bytes, String, ascii, bytes_eq, Bool, true, false, not, Option, none, some, List, [], ◌∷◌, ◌++◌,
  Result, map_err, if◌then◌else◌,
}
use glide_rust.Base.Fallible.{◌>>=◌}
use glide_rust.Base.Int.{is_zero, ℤ_eq}
use glide_rust.Redis.{RedisError}
use glide_rust.Error.{GlideResult, configuration}
use glide_rust.Config.Types.{
  NodeAddress, TlsConfig, PeriodicChecks, enabled, no_tls, secure_tls, insecure_tls, checks_to_core,
}
use glide_rust.Config.Common.{
  CommonConfig, new_common, set_tls, RedisConnectionInfo, ConnectionInfo, split_connection_addr,
  from_redis_protocol, credentials_from_info, ConnectionRequest, common_request,
}

pub record GlideClusterClientConfiguration : Type 0 where
  pub common : CommonConfig
  pub periodic_checks : PeriodicChecks

unfoldable pub new : List NodeAddress → GlideClusterClientConfiguration
new addresses = record { common = new_common addresses; periodic_checks = enabled }

unfoldable pub set_periodic_checks :
    PeriodicChecks → GlideClusterClientConfiguration → GlideClusterClientConfiguration
set_periodic_checks checks cfg = record cfg { periodic_checks = checks }

-- `==` on `Option<String>` and on `TlsConfig`.
unfoldable pub opt_bytes_eq : Option Bytes → Option Bytes → Bool
opt_bytes_eq none none = true
opt_bytes_eq (some a) (some b) = bytes_eq a b
opt_bytes_eq _ _ = false

unfoldable pub tls_eq : TlsConfig → TlsConfig → Bool
tls_eq no_tls no_tls = true
tls_eq secure_tls secure_tls = true
tls_eq insecure_tls insecure_tls = true
tls_eq _ _ = false

-- `if different { return Err(Configuration(message)); }`
abbrev pub require : Bool → String → GlideResult (Unit {0})
require same message = if same then Result.ok tt else Result.err (configuration (ascii message))

-- What the first URL said, `first` of `from_urls`.
abbrev pub Settings : Type 0
Settings = TlsConfig × RedisConnectionInfo

-- The arm of the `match &first` for a later URL.
unfoldable pub check_first : Settings → Settings → GlideResult (Unit {0})
check_first (first_tls, first_redis) (tls, redis) = do
  _ ←
      require (opt_bytes_eq redis.password first_redis.password)
        "Cannot use different password among initial nodes."
  _ ←
      require (opt_bytes_eq redis.username first_redis.username)
        "Cannot use different username among initial nodes."
  _ ←
      require (opt_bytes_eq redis.info_name first_redis.info_name)
        "Cannot use different client_name among initial nodes."
  _ ← require (ℤ_eq redis.db first_redis.db) "Cannot use different database among initial nodes."
  require (tls_eq tls first_tls) "Cannot use different TLS modes among initial nodes."

-- The whole `match &first`: what `first` is afterwards.
unfoldable pub match_first : Option Settings → Settings → GlideResult Settings
match_first none settings = Result.ok settings
match_first (some first) settings = do _ ← check_first first settings; Result.ok first

-- The head of a turn of the loop: the URL is parsed and its address split.
unfoldable pub read_url :
    {C : Type 0} → Result RedisError (ConnectionInfo C) → GlideResult (NodeAddress × Settings)
read_url parsed = do
  info ← map_err (λ e. configuration e.message) parsed
  (address, tls) ← split_connection_addr info.addr
  Result.ok (address, (tls, info.redis))

-- The loop: `addresses` and `first` are its two variables.
unfoldable pub read_urls :
    {C : Type 0}
    → List NodeAddress
    → Option Settings
    → List (Result RedisError (ConnectionInfo C))
    → GlideResult (List NodeAddress × Option Settings)
read_urls addresses first [] = Result.ok (addresses, first)
read_urls addresses first (url ∷ urls) = do
  (address, settings) ← read_url url
  first' ← match_first first settings
  read_urls (addresses ++ address ∷ []) (some first') urls

-- The last lines: the configuration that the settings of the first URL give.
unfoldable pub configured : List NodeAddress → Settings → GlideClusterClientConfiguration
configured addresses (tls, redis) =
    let base = set_tls tls (new_common addresses) in
    record {
      common = record base {
        protocol = from_redis_protocol redis.info_protocol;
        client_name = redis.info_name;
        credentials = credentials_from_info redis.username redis.password;
      };
      periodic_checks = enabled;
    }

-- What follows the loop.
unfoldable pub finish :
    List NodeAddress × Option Settings → GlideResult GlideClusterClientConfiguration
finish (addresses, none) = Result.err (configuration (ascii "at least one node URL is required"))
finish (addresses, some (tls, redis)) =
    if not (is_zero redis.db)
    then Result.err (configuration (ascii "cluster deployments only support database 0"))
    else Result.ok (configured addresses (tls, redis))

-- The arguments are what `into_connection_info` gives of each URL.
unfoldable pub from_urls :
    {C : Type 0}
    → List (Result RedisError (ConnectionInfo C))
    → GlideResult GlideClusterClientConfiguration
from_urls urls = read_urls [] none urls >>= finish

unfoldable pub to_request :
    {D : Type 0} → ConnectionRequest D → GlideClusterClientConfiguration → ConnectionRequest D
to_request default cfg = record (common_request default cfg.common) {
  cluster_mode_enabled = true;
  req_periodic_checks = some (checks_to_core cfg.periodic_checks);
}
