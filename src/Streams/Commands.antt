-- ===== src/Streams/Commands.antt =====
-- The commands of the trait `StreamCommands` of src/commands/stream.rs. A key is the arguments that
-- its `ToRedisArgs` writes.
use glide_rust.Base.{ℤ, Bytes, Bool, Option, List, ◌++◌, map}
use glide_rust.Base.Io.{Io}
use glide_rust.Redis.{Redis, Args, Cmd, kw, raw, each, opt, flag}
use glide_rust.Error.{GlideError}
use glide_rust.Values.{to_opt_string, to_i64, to_bool, to_unit}
use glide_rust.Executor.{CommandExecutor, call}
use glide_rust.Streams.Options.{
  StreamAddOptions, StreamReadOptions, StreamReadGroupOptions, StreamClaimOptions, opt_int,
  add_args, read_args, read_group_args, claim_args,
}
use glide_rust.Streams.{
  StreamEntry, XPendingSummary, XPendingEntry, parse_entries, parse_stream_read, collect_strings,
  parse_autoclaim, parse_autoclaim_justid, parse_xpending_summary, parse_xpending_range,
}

-- `for (f, v) in fields { cmd.arg(f).arg(v); }`
abbrev pub field_args : List (Args × Args) → Args
field_args fields = each (map (λ (f, v). f ++ v) fields)

-- The two loops over the keys and the ids.
abbrev pub keys_then_ids : List (Args × Bytes) → Args
keys_then_ids keys_ids = each (map (λ k. k.0) keys_ids) ++ map (λ k. k.1) keys_ids

module _ {F O : Type 0} (redis : Redis F O) where
  -- The command that `xread` builds.
  unfoldable pub xread_cmd : List (Args × Bytes) → Option StreamReadOptions → Cmd
  unfolding read_args
  xread_cmd keys_ids options =
      kw "XREAD" ++ opt options (read_args redis) ++ kw "STREAMS" ++ keys_then_ids keys_ids

  module _ {P W : Type 0} (client : CommandExecutor F O P W) where
    unfoldable pub xadd : Args → Bytes → List (Args × Args) → Io W GlideError (Option Bytes)
    xadd key id fields =
        call client (kw "XADD" ++ key ++ raw id ++ field_args fields) (to_opt_string redis)

    unfoldable pub xlen : Args → Io W GlideError ℤ
    xlen key = call client (kw "XLEN" ++ key) (to_i64 redis)

    unfoldable pub xdel : Args → List Bytes → Io W GlideError ℤ
    xdel key ids = call client (kw "XDEL" ++ key ++ ids) (to_i64 redis)

    unfoldable pub xtrim_maxlen : Args → ℤ → Bool → Io W GlideError ℤ
    xtrim_maxlen key maxlen approximate =
        call client
          (kw "XTRIM" ++ key ++ kw "MAXLEN" ++ flag approximate "~" ++ raw (redis.int_arg maxlen))
          (to_i64 redis)

    unfoldable pub xrange : Args → Bytes → Bytes → Io W GlideError (List StreamEntry)
    xrange key start stop =
        call client (kw "XRANGE" ++ key ++ raw start ++ raw stop) (parse_entries redis)

    unfoldable pub xrevrange : Args → Bytes → Bytes → Io W GlideError (List StreamEntry)
    xrevrange key stop start =
        call client (kw "XREVRANGE" ++ key ++ raw stop ++ raw start) (parse_entries redis)

    unfoldable pub xgroup_create : Args → Bytes → Bytes → Bool → Io W GlideError (Unit {0})
    xgroup_create key group id mkstream =
        call client
          (kw "XGROUP" ++ kw "CREATE" ++ key ++ raw group ++ raw id ++ flag mkstream "MKSTREAM")
          to_unit

    unfoldable pub xgroup_destroy : Args → Bytes → Io W GlideError Bool
    xgroup_destroy key group =
        call client (kw "XGROUP" ++ kw "DESTROY" ++ key ++ raw group) (to_bool redis)

    unfoldable pub xack : Args → Bytes → List Bytes → Io W GlideError ℤ
    xack key group ids = call client (kw "XACK" ++ key ++ raw group ++ ids) (to_i64 redis)

    unfoldable pub xadd_options :
        Args → Bytes → List (Args × Args) → StreamAddOptions → Io W GlideError (Option Bytes)
    unfolding add_args
    xadd_options key id fields options =
        call client (kw "XADD" ++ key ++ add_args redis options ++ raw id ++ field_args fields)
          (to_opt_string redis)

    unfoldable pub xtrim_minid : Args → Bytes → Bool → Io W GlideError ℤ
    xtrim_minid key minid approximate =
        call client (kw "XTRIM" ++ key ++ kw "MINID" ++ flag approximate "~" ++ raw minid)
          (to_i64 redis)

    unfoldable pub xread :
        List (Args × Bytes)
        → Option StreamReadOptions
        → Io W GlideError (List (Bytes × List StreamEntry))
    xread keys_ids options = call client (xread_cmd keys_ids options) (parse_stream_read redis)

    unfoldable pub xreadgroup :
        Bytes
        → Bytes
        → List (Args × Bytes)
        → Option StreamReadGroupOptions
        → Io W GlideError (List (Bytes × List StreamEntry))
    unfolding read_group_args
    xreadgroup group consumer keys_ids options =
        call client
          (kw "XREADGROUP"
            ++ kw "GROUP"
            ++ raw group
            ++ raw consumer
            ++ opt options (read_group_args redis)
            ++ kw "STREAMS"
            ++ keys_then_ids keys_ids)
          (parse_stream_read redis)

    -- What `xclaim` and `xclaim_justid` build alike.
    abbrev claim_cmd : Args → Bytes → Bytes → ℤ → List Bytes → Option StreamClaimOptions → Cmd
    claim_cmd key group consumer min_idle_time_ms ids options =
        kw "XCLAIM"
        ++ key
        ++ raw group
        ++ raw consumer
        ++ raw (redis.int_arg min_idle_time_ms)
        ++ ids
        ++ opt options (claim_args redis)

    unfoldable pub xclaim :
        Args
        → Bytes
        → Bytes
        → ℤ
        → List Bytes
        → Option StreamClaimOptions
        → Io W GlideError (List StreamEntry)
    unfolding claim_args
    xclaim key group consumer min_idle_time_ms ids options =
        call client (claim_cmd key group consumer min_idle_time_ms ids options)
          (parse_entries redis)

    unfoldable pub xclaim_justid :
        Args
        → Bytes
        → Bytes
        → ℤ
        → List Bytes
        → Option StreamClaimOptions
        → Io W GlideError (List Bytes)
    unfolding claim_args
    xclaim_justid key group consumer min_idle_time_ms ids options =
        call client (claim_cmd key group consumer min_idle_time_ms ids options ++ kw "JUSTID")
          (collect_strings redis)

    -- What the two forms of `XAUTOCLAIM` build alike.
    abbrev autoclaim_cmd : Args → Bytes → Bytes → ℤ → Bytes → Option ℤ → Cmd
    autoclaim_cmd key group consumer min_idle_time_ms start count =
        kw "XAUTOCLAIM"
        ++ key
        ++ raw group
        ++ raw consumer
        ++ raw (redis.int_arg min_idle_time_ms)
        ++ raw start
        ++ opt_int redis count (kw "COUNT")

    unfoldable pub xautoclaim :
        Args
        → Bytes
        → Bytes
        → ℤ
        → Bytes
        → Option ℤ
        → Io W GlideError (Bytes × List StreamEntry × List Bytes)
    xautoclaim key group consumer min_idle_time_ms start count =
        call client (autoclaim_cmd key group consumer min_idle_time_ms start count)
          (parse_autoclaim redis)

    unfoldable pub xautoclaim_justid :
        Args
        → Bytes
        → Bytes
        → ℤ
        → Bytes
        → Option ℤ
        → Io W GlideError (Bytes × List Bytes × List Bytes)
    xautoclaim_justid key group consumer min_idle_time_ms start count =
        call client (autoclaim_cmd key group consumer min_idle_time_ms start count ++ kw "JUSTID")
          (parse_autoclaim_justid redis)

    unfoldable pub xpending : Args → Bytes → Io W GlideError XPendingSummary
    xpending key group =
        call client (kw "XPENDING" ++ key ++ raw group) (parse_xpending_summary redis)

    unfoldable pub xpending_range :
        Args
        → Bytes
        → Bytes
        → Bytes
        → ℤ
        → Option ℤ
        → Option Bytes
        → Io W GlideError (List XPendingEntry)
    xpending_range key group start stop count min_idle_time_ms consumer =
        call client
          (kw "XPENDING"
            ++ key
            ++ raw group
            ++ opt_int redis min_idle_time_ms (kw "IDLE")
            ++ raw start
            ++ raw stop
            ++ raw (redis.int_arg count)
            ++ opt consumer raw)
          (parse_xpending_range redis)
