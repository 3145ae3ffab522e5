-- ===== src/Commands/Server.antt =====
-- src/commands/server_management.rs: the commands on the server as a whole.
pub mod Laws
use glide_rust.Base.{ℤ, pos, Bytes, Bool, Option, none, some, List, ◌++◌, Result, ok}
use glide_rust.Base.Fallible.{◌>>=◌}
use glide_rust.Base.Int.Parse.{parse_i64}
use glide_rust.Base.Io.{Io}
use glide_rust.Redis.{Value, array, more, end, Redis, RedisError, Args, kw, each, opt, flag}
use glide_rust.Error.{GlideError, GlideResult}
use glide_rust.Values.{from_value, to_string, to_bytes, to_i64, to_unit}
use glide_rust.Executor.{CommandExecutor, call}
use glide_rust.Commands.Options.{
  FlushMode, ClientPauseMode, flush_mode_word, pause_mode_word, int_of,
}
use glide_rust.Commands.Replies.{refuse}

-- `unwrap_or_default` of an `i64`
abbrev or_zero : Option ℤ → ℤ
or_zero none = pos 0
or_zero (some n) = n

-- The words of `failover` for its target: `FORCE` is written with a target only.
abbrev target_args : {F O : Type 0} → Redis F O → Bool → Option (Args × ℤ) → Args
target_args redis force target =
    opt target (λ (host, port). kw "TO" ++ host ++ int_of redis port ++ flag force "FORCE")

module _ {F O : Type 0} (redis : Redis F O) where
  -- The match on the reply in `time`.
  unfoldable pub parse_time : Value F O → GlideResult (ℤ × ℤ)
  unfolding parse_i64
  parse_time (array (more s (more m end))) = do
    micros ← to_string redis m
    secs ← to_string redis s
    ok (or_zero (parse_i64 secs), or_zero (parse_i64 micros))
  parse_time v = refuse redis "unexpected TIME reply: " v

module _ {F O P W : Type 0} (redis : Redis F O) (client : CommandExecutor F O P W) where
  unfoldable pub info : Io W GlideError Bytes
  info = call client (kw "INFO") (to_bytes redis)

  unfoldable pub info_sections : List Args → Io W GlideError Bytes
  info_sections sections = call client (kw "INFO" ++ each sections) (to_bytes redis)

  unfoldable pub dbsize : Io W GlideError ℤ
  dbsize = call client (kw "DBSIZE") (to_i64 redis)

  unfoldable pub flushdb : Option FlushMode → Io W GlideError (Unit {0})
  unfolding flush_mode_word
  flushdb mode = call client (kw "FLUSHDB" ++ opt mode flush_mode_word) to_unit

  unfoldable pub flushall : Option FlushMode → Io W GlideError (Unit {0})
  unfolding flush_mode_word
  flushall mode = call client (kw "FLUSHALL" ++ opt mode flush_mode_word) to_unit

  -- `map_of` is the fork's conversion to a map of type `M`; its values stay the same bytes.
  unfoldable pub config_get :
      {M : Type 0} → (Value F O → Result RedisError M) → Args → Io W GlideError M
  config_get map_of parameter =
      call client (kw "CONFIG" ++ kw "GET" ++ parameter) (λ v. from_value (map_of v))

  unfoldable pub config_set : Args → Args → Io W GlideError (Unit {0})
  config_set parameter value = call client (kw "CONFIG" ++ kw "SET" ++ parameter ++ value) to_unit

  unfoldable pub config_resetstat : Io W GlideError (Unit {0})
  config_resetstat = call client (kw "CONFIG" ++ kw "RESETSTAT") to_unit

  unfoldable pub time : Io W GlideError (ℤ × ℤ)
  unfolding parse_time
  time = call client (kw "TIME") (parse_time redis)

  unfoldable pub lastsave : Io W GlideError ℤ
  lastsave = call client (kw "LASTSAVE") (to_i64 redis)

  unfoldable pub config_rewrite : Io W GlideError (Unit {0})
  config_rewrite = call client (kw "CONFIG" ++ kw "REWRITE") to_unit

  unfoldable pub lolwut : Option ℤ → Io W GlideError Bytes
  lolwut version =
      call client (kw "LOLWUT" ++ opt version (λ v. kw "VERSION" ++ int_of redis v))
        (to_bytes redis)

  unfoldable pub bgrewriteaof : Io W GlideError Bytes
  bgrewriteaof = call client (kw "BGREWRITEAOF") (to_bytes redis)

  unfoldable pub bgsave : Bool → Io W GlideError Bytes
  bgsave schedule = call client (kw "BGSAVE" ++ flag schedule "SCHEDULE") (to_bytes redis)

  unfoldable pub save : Io W GlideError (Unit {0})
  save = call client (kw "SAVE") to_unit

  unfoldable pub replicaof : Args → ℤ → Io W GlideError (Unit {0})
  replicaof host port = call client (kw "REPLICAOF" ++ host ++ int_of redis port) to_unit

  unfoldable pub replicaof_no_one : Io W GlideError (Unit {0})
  replicaof_no_one = call client (kw "REPLICAOF" ++ kw "NO" ++ kw "ONE") to_unit

  unfoldable pub failover : Option (Args × ℤ) → Bool → Option ℤ → Io W GlideError (Unit {0})
  failover target force timeout_ms =
      call client
        (kw "FAILOVER"
          ++ target_args redis force target
          ++ opt timeout_ms (λ t. kw "TIMEOUT" ++ int_of redis t))
        to_unit

  unfoldable pub failover_abort : Io W GlideError (Unit {0})
  failover_abort = call client (kw "FAILOVER" ++ kw "ABORT") to_unit

  unfoldable pub client_pause : ℤ → Option ClientPauseMode → Io W GlideError (Unit {0})
  unfolding pause_mode_word
  client_pause timeout_ms mode =
      call client (kw "CLIENT" ++ kw "PAUSE" ++ int_of redis timeout_ms ++ opt mode pause_mode_word)
        to_unit

  unfoldable pub client_unpause : Io W GlideError (Unit {0})
  client_unpause = call client (kw "CLIENT" ++ kw "UNPAUSE") to_unit

  unfoldable pub latency_history : Args → Io W GlideError (Value F O)
  latency_history event = client.execute_command (kw "LATENCY" ++ kw "HISTORY" ++ event) none

  unfoldable pub latency_latest : Io W GlideError (Value F O)
  latency_latest = client.execute_command (kw "LATENCY" ++ kw "LATEST") none

  unfoldable pub latency_reset : List Args → Io W GlideError ℤ
  latency_reset events = call client (kw "LATENCY" ++ kw "RESET" ++ each events) (to_i64 redis)

  unfoldable pub latency_doctor : Io W GlideError Bytes
  latency_doctor = call client (kw "LATENCY" ++ kw "DOCTOR") (to_bytes redis)

  unfoldable pub latency_graph : Args → Io W GlideError Bytes
  latency_graph event = call client (kw "LATENCY" ++ kw "GRAPH" ++ event) (to_bytes redis)
