-- ===== src/Config/Standalone.antt =====
-- src/config/standalone.rs
use glide_rust.Base.{ℤ, pos, Bytes, false, List, [], ◌∷◌, Result, map_err}
use glide_rust.Base.Fallible.{◌>>=◌}
use glide_rust.Redis.{RedisError}
use glide_rust.Error.{GlideResult, configuration}
use glide_rust.Config.Types.{NodeAddress}
use glide_rust.Config.Common.{
  CommonConfig, new_common, set_tls, ConnectionInfo, split_connection_addr, from_redis_protocol,
  credentials_from_info, ConnectionRequest, common_request,
}

pub record GlideClientConfiguration : Type 0 where
  pub common : CommonConfig
  pub database_id : ℤ

unfoldable pub new : List NodeAddress → GlideClientConfiguration
new addresses = record { common = new_common addresses; database_id = pos 0 }

unfoldable pub set_database_id : ℤ → GlideClientConfiguration → GlideClientConfiguration
set_database_id db cfg = record cfg { database_id = db }

-- The argument is what `into_connection_info` gives.
unfoldable pub from_connection_info :
    {C : Type 0} → Result RedisError (ConnectionInfo C) → GlideResult GlideClientConfiguration
from_connection_info parsed = do
  info ← map_err (λ e. configuration e.message) parsed
  (address, tls) ← split_connection_addr info.addr
  let base = set_tls tls (new_common (address ∷ []))
  Result.ok (record {
    common = record base {
      protocol = from_redis_protocol info.redis.info_protocol;
      client_name = info.redis.info_name;
      credentials = credentials_from_info info.redis.username info.redis.password;
    };
    database_id = info.redis.db;
  })

-- `from_url`, over the fork's parser of URLs.
unfoldable pub from_url :
    {C : Type 0}
    → (Bytes → Result RedisError (ConnectionInfo C))
    → Bytes
    → GlideResult GlideClientConfiguration
unfolding from_connection_info
from_url parse url = from_connection_info (parse url)

unfoldable pub to_request :
    {D : Type 0} → ConnectionRequest D → GlideClientConfiguration → ConnectionRequest D
to_request default cfg = record (common_request default cfg.common) {
  cluster_mode_enabled = false;
  req_database_id = cfg.database_id;
}
