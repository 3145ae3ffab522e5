-- ===== src/Client/ClusterScan.antt =====
-- `GlideClusterClient::cluster_scan` and `ClusterScanCursor` of src/client/mod.rs.
pub mod Laws
use glide_rust.Base.{
  ℕ, Bytes, ascii, bytes_eq, Bool, true, false, ◌||◌, Option, none, some, List, [], ◌∷◌, ◌++◌, map,
  Result, ok, err, All, ◌<◌, ◌≡◌, refl, ap, ◌∙◌, if◌then◌else◌, is_empty, map_option,
}
use glide_rust.Base.Fallible.{collect}
use glide_rust.Base.Fallible
use glide_rust.Base.Io.{Io, ◌>>=◌, lift, map_io_err}
use glide_rust.Redis.{
  Value, nil, array, bulk_string, Values, more, end, elems, vec, Redis, IsExact, RedisError,
}
use glide_rust.Error.{GlideError, GlideResult, request, from_redis_error}
use glide_rust.Values.{from_value, to_string, to_bytes}

abbrev pub ClusterScanCursor : Type 0
ClusterScanCursor = Bytes

abbrev pub new : ClusterScanCursor
new = []

unfoldable pub is_finished : ClusterScanCursor → Bool
is_finished cursor = bytes_eq cursor (ascii "finished")

-- `ObjectType` of src/commands/options.rs, and the fork's.
pub data ObjectType : Type 0 where
  string_type list_type set_type zset_type hash_type stream_type : ObjectType

pub data CoreObjectType : Type 0 where
  core_string core_list core_set core_zset core_hash core_stream : CoreObjectType

unfoldable pub to_redis : ObjectType → CoreObjectType
to_redis string_type = core_string
to_redis list_type = core_list
to_redis set_type = core_set
to_redis zset_type = core_zset
to_redis hash_type = core_hash
to_redis stream_type = core_stream

pub record ClusterScanArgs : Type 0 where
  pub match_pattern : Option Bytes
  pub count : Option ℕ
  pub object_type : Option CoreObjectType

-- What the call takes from the core: `S` is its scan state.
pub record ScanCore (F O S W : Type 0) : Type 0 where
  pub new_state : S
  pub get_cluster_scan_cursor : Bytes → Result RedisError S
  pub scan_cluster : S → ClusterScanArgs → Io W RedisError (Value F O)

module _ {F O : Type 0} (redis : Redis F O) where
  -- The last `match`, on the keys.
  unfoldable pub scan_keys : Value F O → GlideResult (List Bytes)
  unfolding to_bytes
  scan_keys (array vs) = collect (to_bytes redis) (elems vs)
  scan_keys nil = ok []
  scan_keys v = Fallible.map_ok (λ key. key ∷ []) (to_bytes redis v)

  -- What is read out of the reply: `[cursor, keys]`. The text of a vector of another length is that
  -- of the array it came from.
  unfoldable pub scan_reply : Value F O → GlideResult (ClusterScanCursor × List Bytes)
  unfolding scan_keys to_string
  scan_reply (array (more cursor (more keys end))) =
      Fallible.◌>>=◌ (to_string redis cursor)
        (λ next. Fallible.map_ok (λ found. (next, found)) (scan_keys keys))
  scan_reply (array items) =
      err (request (ascii "unexpected cluster scan reply arity: " ++ redis.debug (array items)))
  scan_reply v = err (request (ascii "unexpected cluster scan reply: " ++ redis.debug v))

  module _ {S W : Type 0} (core : ScanCore F O S W) where
    unfoldable pub scan_state : ClusterScanCursor → GlideResult S
    scan_state cursor =
        if is_empty cursor || bytes_eq cursor (ascii "0")
        then ok core.new_state
        else from_value (core.get_cluster_scan_cursor cursor)

    unfoldable pub cluster_scan :
        ClusterScanCursor
        → Option Bytes
        → Option ℕ
        → Option ObjectType
        → Io W GlideError (ClusterScanCursor × List Bytes)
    unfolding scan_state scan_reply to_redis
    cluster_scan cursor match_pattern count object_type = lift (scan_state cursor) >>= λ state.
        map_io_err from_redis_error (
          core.scan_cluster state (record {
            match_pattern = match_pattern;
            count = count;
            object_type = map_option to_redis object_type;
          }))
        >>= λ reply. lift (scan_reply reply)
