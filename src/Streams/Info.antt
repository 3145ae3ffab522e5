-- ===== src/Streams/Info.antt =====
-- The informing and group-managing commands of the trait `StreamCommands` of src/commands/stream.rs.
use glide_rust.Base.{ℤ, Bytes, Bool, Option, List, ◌++◌}
use glide_rust.Base.Io.{Io}
use glide_rust.Redis.{Value, Redis, Args, kw, raw, opt}
use glide_rust.Error.{GlideError}
use glide_rust.Values.{to_i64, to_bool, to_unit}
use glide_rust.Executor.{CommandExecutor, call}
use glide_rust.Streams.Options.{StreamGroupCreateOptions, opt_int, group_create_args}
use glide_rust.Streams.{parse_field_value_map, parse_list_of_maps}

module _ {F O P W : Type 0} (redis : Redis F O) (client : CommandExecutor F O P W) where
  unfoldable pub xinfo_stream : Args → Io W GlideError (List (Bytes × Value F O))
  xinfo_stream key = call client (kw "XINFO" ++ kw "STREAM" ++ key) (parse_field_value_map redis)

  unfoldable pub xinfo_stream_full : Args → Option ℤ → Io W GlideError (List (Bytes × Value F O))
  xinfo_stream_full key count =
      call client
        (kw "XINFO" ++ kw "STREAM" ++ key ++ kw "FULL" ++ opt_int redis count (kw "COUNT"))
        (parse_field_value_map redis)

  unfoldable pub xinfo_groups : Args → Io W GlideError (List (List (Bytes × Value F O)))
  xinfo_groups key = call client (kw "XINFO" ++ kw "GROUPS" ++ key) (parse_list_of_maps redis)

  unfoldable pub xinfo_consumers : Args → Bytes → Io W GlideError (List (List (Bytes × Value F O)))
  xinfo_consumers key group =
      call client (kw "XINFO" ++ kw "CONSUMERS" ++ key ++ raw group) (parse_list_of_maps redis)

  unfoldable pub xsetid : Args → Bytes → Option ℤ → Option Bytes → Io W GlideError (Unit {0})
  xsetid key last_id entries_added max_deleted_id =
      call client
        (kw "XSETID"
          ++ key
          ++ raw last_id
          ++ opt_int redis entries_added (kw "ENTRIESADDED")
          ++ opt max_deleted_id (λ m. kw "MAXDELETEDID" ++ raw m))
        to_unit

  unfoldable pub xgroup_create_options :
      Args → Bytes → Bytes → StreamGroupCreateOptions → Io W GlideError (Unit {0})
  unfolding group_create_args
  xgroup_create_options key group id options =
      call client
        (kw "XGROUP"
          ++ kw "CREATE"
          ++ key
          ++ raw group
          ++ raw id
          ++ group_create_args redis options)
        to_unit

  unfoldable pub xgroup_create_consumer : Args → Bytes → Bytes → Io W GlideError Bool
  xgroup_create_consumer key group consumer =
      call client (kw "XGROUP" ++ kw "CREATECONSUMER" ++ key ++ raw group ++ raw consumer)
        (to_bool redis)

  unfoldable pub xgroup_del_consumer : Args → Bytes → Bytes → Io W GlideError ℤ
  xgroup_del_consumer key group consumer =
      call client (kw "XGROUP" ++ kw "DELCONSUMER" ++ key ++ raw group ++ raw consumer)
        (to_i64 redis)

  unfoldable pub xgroup_set_id : Args → Bytes → Bytes → Option ℤ → Io W GlideError (Unit {0})
  xgroup_set_id key group id entries_read =
      call client
        (kw "XGROUP"
          ++ kw "SETID"
          ++ key
          ++ raw group
          ++ raw id
          ++ opt_int redis entries_read (kw "ENTRIESREAD"))
        to_unit
