-- ===== src/Commands/Generic.antt =====
-- src/commands/generic.rs: the commands on keys, and the reading of a scan reply.
pub mod Scanning
pub mod Sorting
use glide_rust.Base.{ℤ, Bytes, ascii, Bool, Option, List, [], ◌++◌, ok, err}
use glide_rust.Base.Fallible.{◌>>=◌, collect}
use glide_rust.Base.Io.{Io}
use glide_rust.Redis.{
  Value, nil, array, more, end, elems, Redis, Args, Cmd, kw, raw, each, opt, flag,
}
use glide_rust.Error.{GlideError, GlideResult, request}
use glide_rust.Values.{to_string, to_bytes, to_opt_bytes, to_i64, to_bool, to_unit}
use glide_rust.Executor.{CommandExecutor, call}
use glide_rust.Client.ClusterScan.{ObjectType, CoreObjectType, to_redis}
use glide_rust.Commands.Options.{
  Limit, MigrateOptions, OrderBy, RestoreOptions, int_of, limit_args, order_word, restore_args,
  migrate_args,
}
use glide_rust.Commands.Replies.{items_or_one, refuse}

module _ {F O : Type 0} (redis : Redis F O) where
  -- The match on the keys.
  unfoldable pub scanned_keys : Value F O → GlideResult (List Bytes)
  scanned_keys (array vs) = collect (to_bytes redis) (elems vs)
  scanned_keys nil = ok []
  scanned_keys v = refuse redis "unexpected SCAN keys shape: " v

  unfoldable pub parse_scan_reply : Value F O → GlideResult (Bytes × List Bytes)
  unfolding scanned_keys
  parse_scan_reply (array (more c (more ks end))) = do
    cursor ← to_string redis c
    keys ← scanned_keys ks
    ok (cursor, keys)
  parse_scan_reply _ = err (request (ascii "unexpected SCAN reply shape"))

  -- `t.to_redis().to_string().to_lowercase()`, where `type_name` is the fork's name in lower case.
  module _ (type_name : CoreObjectType → Bytes) where
    unfoldable pub scan_cursor_cmd : Bytes → Option Bytes → Option ℤ → Option ObjectType → Cmd
    unfolding to_redis
    scan_cursor_cmd cursor pattern count type_filter =
        kw "SCAN"
        ++ raw cursor
        ++ opt pattern (λ p. kw "MATCH" ++ raw p)
        ++ opt count (λ c. kw "COUNT" ++ int_of redis c)
        ++ opt type_filter (λ t. kw "TYPE" ++ raw (type_name (to_redis t)))

    unfoldable pub scan_cursor :
        {P W : Type 0}
        → CommandExecutor F O P W
        → Bytes
        → Option Bytes
        → Option ℤ
        → Option ObjectType
        → Io W GlideError (Bytes × List Bytes)
    unfolding scan_cursor_cmd
    scan_cursor client cursor pattern count type_filter =
        call client (scan_cursor_cmd cursor pattern count type_filter) (parse_scan_reply)

  -- The options that the three sorts write, in their order.
  unfoldable pub sort_args : Option OrderBy → Option Limit → Bool → Args
  unfolding order_word
  sort_args order limit alpha =
      opt limit (limit_args redis) ++ opt order order_word ++ flag alpha "ALPHA"

  module _ {P W : Type 0} (client : CommandExecutor F O P W) where
    unfoldable pub expiretime : Args → Io W GlideError ℤ
    expiretime key = call client (kw "EXPIRETIME" ++ key) (to_i64 redis)

    unfoldable pub pexpiretime : Args → Io W GlideError ℤ
    pexpiretime key = call client (kw "PEXPIRETIME" ++ key) (to_i64 redis)

    unfoldable pub randomkey : Io W GlideError (Option Bytes)
    randomkey = call client (kw "RANDOMKEY") (to_opt_bytes redis)

    unfoldable pub dump : Args → Io W GlideError (Option Bytes)
    dump key = call client (kw "DUMP" ++ key) (to_opt_bytes redis)

    unfoldable pub touch : List Args → Io W GlideError ℤ
    touch keys = call client (kw "TOUCH" ++ each keys) (to_i64 redis)

    unfoldable pub copy : Args → Args → Bool → Io W GlideError Bool
    copy source destination replace =
        call client (kw "COPY" ++ source ++ destination ++ flag replace "REPLACE") (to_bool redis)

    unfoldable pub sort : Args → Option OrderBy → Option Limit → Bool → Io W GlideError (List Bytes)
    unfolding sort_args
    sort key order limit alpha =
        call client (kw "SORT" ++ key ++ sort_args order limit alpha)
          (items_or_one (to_bytes redis))

    unfoldable pub copy_with_options : Args → Args → Option ℤ → Bool → Io W GlideError Bool
    copy_with_options source destination destination_db replace =
        call client
          (kw "COPY"
            ++ source
            ++ destination
            ++ opt destination_db (λ db. kw "DB" ++ int_of redis db)
            ++ flag replace "REPLACE")
          (to_bool redis)

    unfoldable pub restore : Args → ℤ → Args → RestoreOptions → Io W GlideError (Unit {0})
    unfolding restore_args
    restore key ttl_ms serialized options =
        call client
          (kw "RESTORE" ++ key ++ int_of redis ttl_ms ++ serialized ++ restore_args redis options)
          to_unit

    unfoldable pub wait : ℤ → ℤ → Io W GlideError ℤ
    wait numreplicas timeout_ms =
        call client (kw "WAIT" ++ int_of redis numreplicas ++ int_of redis timeout_ms)
          (to_i64 redis)

    unfoldable pub sort_store :
        Args → Args → Option OrderBy → Option Limit → Bool → Io W GlideError ℤ
    unfolding sort_args
    sort_store key destination order limit alpha =
        call client (kw "SORT" ++ key ++ sort_args order limit alpha ++ kw "STORE" ++ destination)
          (to_i64 redis)

    unfoldable pub sort_ro :
        Args → Option OrderBy → Option Limit → Bool → Io W GlideError (List Bytes)
    unfolding sort_args
    sort_ro key order limit alpha =
        call client (kw "SORT_RO" ++ key ++ sort_args order limit alpha)
          (items_or_one (to_bytes redis))

    unfoldable pub move_key : Args → ℤ → Io W GlideError Bool
    move_key key db = call client (kw "MOVE" ++ key ++ int_of redis db) (to_bool redis)

    unfoldable pub migrate : Args → ℤ → Args → ℤ → ℤ → MigrateOptions → Io W GlideError (Unit {0})
    unfolding migrate_args
    migrate host port key destination_db timeout_ms options =
        call client
          (kw "MIGRATE"
            ++ host
            ++ int_of redis port
            ++ key
            ++ int_of redis destination_db
            ++ int_of redis timeout_ms
            ++ migrate_args options)
          to_unit

    unfoldable pub watch : List Args → Io W GlideError (Unit {0})
    watch keys = call client (kw "WATCH" ++ each keys) to_unit

    unfoldable pub unwatch : Io W GlideError (Unit {0})
    unwatch = call client (kw "UNWATCH") to_unit
