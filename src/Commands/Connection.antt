-- ===== src/Commands/Connection.antt =====
-- src/commands/connection_management.rs: the commands on the connection itself.
use glide_rust.Base.{ℤ, Bytes, Bool, Option, ◌++◌, if◌then◌else◌}
use glide_rust.Base.Io.{Io}
use glide_rust.Redis.{Redis, Args, kw}
use glide_rust.Error.{GlideError}
use glide_rust.Values.{to_string, to_bytes, to_opt_bytes, to_i64, to_unit}
use glide_rust.Executor.{CommandExecutor, call}
use glide_rust.Commands.Options.{int_of}

module _ {F O P W : Type 0} (redis : Redis F O) (client : CommandExecutor F O P W) where
  unfoldable pub ping : Io W GlideError Bytes
  ping = call client (kw "PING") (to_string redis)

  unfoldable pub ping_message : Args → Io W GlideError Bytes
  ping_message message = call client (kw "PING" ++ message) (to_bytes redis)

  unfoldable pub echo : Args → Io W GlideError Bytes
  echo message = call client (kw "ECHO" ++ message) (to_bytes redis)

  unfoldable pub select : ℤ → Io W GlideError (Unit {0})
  select index = call client (kw "SELECT" ++ int_of redis index) to_unit

  unfoldable pub client_id : Io W GlideError ℤ
  client_id = call client (kw "CLIENT" ++ kw "ID") (to_i64 redis)

  unfoldable pub client_getname : Io W GlideError (Option Bytes)
  client_getname = call client (kw "CLIENT" ++ kw "GETNAME") (to_opt_bytes redis)

  unfoldable pub client_setname : Args → Io W GlideError (Unit {0})
  client_setname name = call client (kw "CLIENT" ++ kw "SETNAME" ++ name) to_unit

  abbrev on_off : Bool → Args
  on_off on = if on then kw "ON" else kw "OFF"

  unfoldable pub client_no_evict : Bool → Io W GlideError (Unit {0})
  client_no_evict on = call client (kw "CLIENT" ++ kw "NO-EVICT" ++ on_off on) to_unit

  unfoldable pub client_no_touch : Bool → Io W GlideError (Unit {0})
  client_no_touch on = call client (kw "CLIENT" ++ kw "NO-TOUCH" ++ on_off on) to_unit

  unfoldable pub reset : Io W GlideError (Unit {0})
  reset = call client (kw "RESET") to_unit
