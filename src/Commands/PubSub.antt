-- ===== src/Commands/PubSub.antt =====
-- src/commands/pubsub.rs: subscriptions at run time, publishing, and what the server tells of them.
use glide_rust.Base.{ℤ, Bytes, ascii, Option, List, [], ◌++◌, ok}
use glide_rust.Base.Fallible.{◌>>=◌, collect}
use glide_rust.Base.Io.{Io}
use glide_rust.Redis.{Value, nil, array, map, elems, entries, Redis, Args, kw, raw, each, opt}
use glide_rust.Error.{GlideError, GlideResult}
use glide_rust.Values.{to_bytes, to_i64}
use glide_rust.Executor.{CommandExecutor, call}
use glide_rust.Streams.{two_by_two}
use glide_rust.Commands.Replies.{Pair, items_or_one, refuse}

module _ {F O : Type 0} (redis : Redis F O) where
  -- A channel with its number of subscribers.
  unfoldable pub channel_count : Pair F O → GlideResult (Bytes × ℤ)
  channel_count (c, n) = do
    channel ← to_bytes redis c
    number ← to_i64 redis n
    ok (channel, number)

  unfoldable pub parse_numsub : Value F O → GlideResult (List (Bytes × ℤ))
  unfolding channel_count two_by_two
  parse_numsub nil = ok []
  parse_numsub (map ps) = collect channel_count (entries ps)
  parse_numsub (array vs) = collect channel_count (two_by_two redis (elems vs))
  parse_numsub v = refuse redis "unexpected PUBSUB NUMSUB reply: " v

module _ {F O P W : Type 0} (redis : Redis F O) (client : CommandExecutor F O P W) where
  -- Any reply will do: `self.execute_command(cmd, None).await?; Ok(())`
  unfoldable pub pubsub_subscribe_impl : Bytes → List Args → Io W GlideError (Unit {0})
  pubsub_subscribe_impl keyword channels = call client (raw keyword ++ each channels) (λ _. ok tt)

  unfoldable pub subscribe : List Args → Io W GlideError (Unit {0})
  unfolding pubsub_subscribe_impl
  subscribe channels = pubsub_subscribe_impl (ascii "SUBSCRIBE") channels

  unfoldable pub unsubscribe : List Args → Io W GlideError (Unit {0})
  unfolding pubsub_subscribe_impl
  unsubscribe channels = pubsub_subscribe_impl (ascii "UNSUBSCRIBE") channels

  unfoldable pub psubscribe : List Args → Io W GlideError (Unit {0})
  unfolding pubsub_subscribe_impl
  psubscribe patterns = pubsub_subscribe_impl (ascii "PSUBSCRIBE") patterns

  unfoldable pub punsubscribe : List Args → Io W GlideError (Unit {0})
  unfolding pubsub_subscribe_impl
  punsubscribe patterns = pubsub_subscribe_impl (ascii "PUNSUBSCRIBE") patterns

  unfoldable pub ssubscribe : List Args → Io W GlideError (Unit {0})
  unfolding pubsub_subscribe_impl
  ssubscribe channels = pubsub_subscribe_impl (ascii "SSUBSCRIBE") channels

  unfoldable pub sunsubscribe : List Args → Io W GlideError (Unit {0})
  unfolding pubsub_subscribe_impl
  sunsubscribe channels = pubsub_subscribe_impl (ascii "SUNSUBSCRIBE") channels

  unfoldable pub spublish : Args → Args → Io W GlideError ℤ
  spublish channel message = call client (kw "SPUBLISH" ++ channel ++ message) (to_i64 redis)

  unfoldable pub pubsub_channels_impl : Bytes → Option Bytes → Io W GlideError (List Bytes)
  pubsub_channels_impl sub pattern =
      call client (kw "PUBSUB" ++ raw sub ++ opt pattern raw) (items_or_one (to_bytes redis))

  unfoldable pub pubsub_channels : Option Bytes → Io W GlideError (List Bytes)
  unfolding pubsub_channels_impl
  pubsub_channels pattern = pubsub_channels_impl (ascii "CHANNELS") pattern

  unfoldable pub pubsub_shardchannels : Option Bytes → Io W GlideError (List Bytes)
  unfolding pubsub_channels_impl
  pubsub_shardchannels pattern = pubsub_channels_impl (ascii "SHARDCHANNELS") pattern

  unfoldable pub pubsub_numpat : Io W GlideError ℤ
  pubsub_numpat = call client (kw "PUBSUB" ++ kw "NUMPAT") (to_i64 redis)

  unfoldable pub pubsub_numsub_impl : Bytes → List Args → Io W GlideError (List (Bytes × ℤ))
  unfolding parse_numsub
  pubsub_numsub_impl sub channels =
      call client (kw "PUBSUB" ++ raw sub ++ each channels) (parse_numsub redis)

  unfoldable pub pubsub_numsub : List Args → Io W GlideError (List (Bytes × ℤ))
  unfolding pubsub_numsub_impl
  pubsub_numsub channels = pubsub_numsub_impl (ascii "NUMSUB") channels

  unfoldable pub pubsub_shardnumsub : List Args → Io W GlideError (List (Bytes × ℤ))
  unfolding pubsub_numsub_impl
  pubsub_shardnumsub channels = pubsub_numsub_impl (ascii "SHARDNUMSUB") channels
