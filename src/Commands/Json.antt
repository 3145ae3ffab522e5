-- ===== src/Commands/Json.antt =====
-- src/commands/json.rs: the commands of the JSON module.
use glide_rust.Base.{ℤ, Bytes, Option, none, List, ◌++◌}
use glide_rust.Base.Io.{Io}
use glide_rust.Redis.{Value, Redis, Args, kw, each, opt}
use glide_rust.Error.{GlideError}
use glide_rust.Values.{to_opt_bytes, to_i64, to_unit}
use glide_rust.Executor.{CommandExecutor, call}
use glide_rust.Commands.Options.{int_of, float_of}
use glide_rust.Commands.Replies.{items_or_one}

module _ {F O P W : Type 0} (redis : Redis F O) (client : CommandExecutor F O P W) where
  unfoldable pub json_set : Args → Args → Args → Io W GlideError (Unit {0})
  json_set key path value = call client (kw "JSON.SET" ++ key ++ path ++ value) to_unit

  unfoldable pub json_get : Args → List Args → Io W GlideError (Option Bytes)
  json_get key paths = call client (kw "JSON.GET" ++ key ++ each paths) (to_opt_bytes redis)

  unfoldable pub json_del : Args → Args → Io W GlideError ℤ
  json_del key path = call client (kw "JSON.DEL" ++ key ++ path) (to_i64 redis)

  unfoldable pub json_forget : Args → Args → Io W GlideError ℤ
  json_forget key path = call client (kw "JSON.FORGET" ++ key ++ path) (to_i64 redis)

  unfoldable pub json_type : Args → Args → Io W GlideError (Value F O)
  json_type key path = client.execute_command (kw "JSON.TYPE" ++ key ++ path) none

  unfoldable pub json_numincrby : Args → Args → F → Io W GlideError (Option Bytes)
  json_numincrby key path value =
      call client (kw "JSON.NUMINCRBY" ++ key ++ path ++ float_of redis value) (to_opt_bytes redis)

  unfoldable pub json_nummultby : Args → Args → F → Io W GlideError (Option Bytes)
  json_nummultby key path value =
      call client (kw "JSON.NUMMULTBY" ++ key ++ path ++ float_of redis value) (to_opt_bytes redis)

  unfoldable pub json_strappend : Args → Args → Args → Io W GlideError (Value F O)
  json_strappend key path value =
      client.execute_command (kw "JSON.STRAPPEND" ++ key ++ path ++ value) none

  unfoldable pub json_strlen : Args → Args → Io W GlideError (Value F O)
  json_strlen key path = client.execute_command (kw "JSON.STRLEN" ++ key ++ path) none

  unfoldable pub json_arrappend : Args → Args → List Args → Io W GlideError (Value F O)
  json_arrappend key path values =
      client.execute_command (kw "JSON.ARRAPPEND" ++ key ++ path ++ each values) none

  unfoldable pub json_arrinsert : Args → Args → ℤ → List Args → Io W GlideError (Value F O)
  json_arrinsert key path index values =
      client.execute_command
        (kw "JSON.ARRINSERT" ++ key ++ path ++ int_of redis index ++ each values) none

  unfoldable pub json_arrlen : Args → Args → Io W GlideError (Value F O)
  json_arrlen key path = client.execute_command (kw "JSON.ARRLEN" ++ key ++ path) none

  unfoldable pub json_arrpop : Args → Args → Option ℤ → Io W GlideError (Value F O)
  json_arrpop key path index =
      client.execute_command (kw "JSON.ARRPOP" ++ key ++ path ++ opt index (int_of redis)) none

  unfoldable pub json_arrtrim : Args → Args → ℤ → ℤ → Io W GlideError (Value F O)
  json_arrtrim key path start stop =
      client.execute_command
        (kw "JSON.ARRTRIM" ++ key ++ path ++ int_of redis start ++ int_of redis stop) none

  unfoldable pub json_objkeys : Args → Args → Io W GlideError (Value F O)
  json_objkeys key path = client.execute_command (kw "JSON.OBJKEYS" ++ key ++ path) none

  unfoldable pub json_objlen : Args → Args → Io W GlideError (Value F O)
  json_objlen key path = client.execute_command (kw "JSON.OBJLEN" ++ key ++ path) none

  unfoldable pub json_toggle : Args → Args → Io W GlideError (Value F O)
  json_toggle key path = client.execute_command (kw "JSON.TOGGLE" ++ key ++ path) none

  unfoldable pub json_clear : Args → Args → Io W GlideError ℤ
  json_clear key path = call client (kw "JSON.CLEAR" ++ key ++ path) (to_i64 redis)

  unfoldable pub json_arrindex : Args → Args → Args → Option (ℤ × ℤ) → Io W GlideError (Value F O)
  json_arrindex key path value range =
      client.execute_command
        (kw "JSON.ARRINDEX"
          ++ key
          ++ path
          ++ value
          ++ opt range (λ (start, stop). int_of redis start ++ int_of redis stop))
        none

  unfoldable pub json_mget : List Args → Args → Io W GlideError (List (Option Bytes))
  json_mget keys path =
      call client (kw "JSON.MGET" ++ each keys ++ path) (items_or_one (to_opt_bytes redis))

  unfoldable pub json_resp : Args → Args → Io W GlideError (Value F O)
  json_resp key path = client.execute_command (kw "JSON.RESP" ++ key ++ path) none

  unfoldable pub json_debug_memory : Args → Args → Io W GlideError (Value F O)
  json_debug_memory key path =
      client.execute_command (kw "JSON.DEBUG" ++ kw "MEMORY" ++ key ++ path) none

  unfoldable pub json_debug_fields : Args → Args → Io W GlideError (Value F O)
  json_debug_fields key path =
      client.execute_command (kw "JSON.DEBUG" ++ kw "FIELDS" ++ key ++ path) none
