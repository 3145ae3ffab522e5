-- ===== src/Commands/Scripting.antt =====
-- src/commands/scripting.rs: scripts and functions.
pub mod Laws
use glide_rust.Base.{Bytes, ascii, Bool, Option, none, some, List, ◌++◌}
use glide_rust.Base.Io.{Io}
use glide_rust.Redis.{Value, Redis, Args, Cmd, kw, raw, each, opt, flag}
use glide_rust.Error.{GlideError}
use glide_rust.Values.{to_string, to_bytes, to_bool, to_unit}
use glide_rust.Routes.{Route, Topology, to_routing_info}
use glide_rust.Executor.{CommandExecutor, call}
use glide_rust.Commands.Options.{
  FlushMode, FunctionRestorePolicy, flush_mode_word, restore_policy_word,
}
use glide_rust.Commands.Replies.{items_or_self, counted}

-- The command that the six calls of a script or a function build alike: the name of the command,
-- the script, its hash or the function, the number of the keys, the keys and the arguments.
unfoldable pub invoke_cmd : {F O : Type 0} → Redis F O → Bytes → Bytes → List Args → List Args → Cmd
invoke_cmd redis name callee keys args = raw name ++ raw callee ++ counted redis keys ++ each args

module _ {F O P W : Type 0} (redis : Redis F O) (client : CommandExecutor F O P W) where
  unfoldable pub eval : Bytes → List Args → List Args → Io W GlideError (Value F O)
  unfolding invoke_cmd
  eval script keys args =
      client.execute_command (invoke_cmd redis (ascii "EVAL") script keys args) none

  unfoldable pub evalsha : Bytes → List Args → List Args → Io W GlideError (Value F O)
  unfolding invoke_cmd
  evalsha sha1 keys args =
      client.execute_command (invoke_cmd redis (ascii "EVALSHA") sha1 keys args) none

  unfoldable pub script_load : Bytes → Io W GlideError Bytes
  script_load script = call client (kw "SCRIPT" ++ kw "LOAD" ++ raw script) (to_string redis)

  unfoldable pub script_exists : List Bytes → Io W GlideError (List Bool)
  script_exists sha1s =
      call client (kw "SCRIPT" ++ kw "EXISTS" ++ sha1s) (items_or_self (to_bool redis))

  unfoldable pub script_flush : Io W GlideError (Unit {0})
  script_flush = call client (kw "SCRIPT" ++ kw "FLUSH") to_unit

  unfoldable pub fcall : Bytes → List Args → List Args → Io W GlideError (Value F O)
  unfolding invoke_cmd
  fcall function keys args =
      client.execute_command (invoke_cmd redis (ascii "FCALL") function keys args) none

  unfoldable pub fcall_ro : Bytes → List Args → List Args → Io W GlideError (Value F O)
  unfolding invoke_cmd
  fcall_ro function keys args =
      client.execute_command (invoke_cmd redis (ascii "FCALL_RO") function keys args) none

  module _ (topology : Topology P) where
    unfoldable pub fcall_route : Bytes → List Args → List Args → Route → Io W GlideError (Value F O)
    unfolding invoke_cmd to_routing_info
    fcall_route function keys args route =
        let cmd = invoke_cmd redis (ascii "FCALL") function keys args in
        let routing = to_routing_info topology route (some cmd) in
        client.execute_command cmd (some routing)

    unfoldable pub fcall_ro_route :
        Bytes → List Args → List Args → Route → Io W GlideError (Value F O)
    unfolding invoke_cmd to_routing_info
    fcall_ro_route function keys args route =
        let cmd = invoke_cmd redis (ascii "FCALL_RO") function keys args in
        let routing = to_routing_info topology route (some cmd) in
        client.execute_command cmd (some routing)

  unfoldable pub function_load : Bytes → Bool → Io W GlideError Bytes
  function_load code replace =
      call client (kw "FUNCTION" ++ kw "LOAD" ++ flag replace "REPLACE" ++ raw code)
        (to_string redis)

  unfoldable pub function_delete : Bytes → Io W GlideError (Unit {0})
  function_delete library_name =
      call client (kw "FUNCTION" ++ kw "DELETE" ++ raw library_name) to_unit

  unfoldable pub function_flush : Io W GlideError (Unit {0})
  function_flush = call client (kw "FUNCTION" ++ kw "FLUSH") to_unit

  unfoldable pub function_flush_mode : FlushMode → Io W GlideError (Unit {0})
  unfolding flush_mode_word
  function_flush_mode mode =
      call client (kw "FUNCTION" ++ kw "FLUSH" ++ flush_mode_word mode) to_unit

  unfoldable pub function_list : Option Bytes → Bool → Io W GlideError (Value F O)
  function_list library_name with_code =
      client.execute_command
        (kw "FUNCTION"
          ++ kw "LIST"
          ++ opt library_name (λ n. kw "LIBRARYNAME" ++ raw n)
          ++ flag with_code "WITHCODE")
        none

  unfoldable pub function_dump : Io W GlideError Bytes
  function_dump = call client (kw "FUNCTION" ++ kw "DUMP") (to_bytes redis)

  unfoldable pub function_restore : Args → FunctionRestorePolicy → Io W GlideError (Unit {0})
  unfolding restore_policy_word
  function_restore payload policy =
      call client (kw "FUNCTION" ++ kw "RESTORE" ++ payload ++ restore_policy_word policy) to_unit

  unfoldable pub function_stats : Io W GlideError (Value F O)
  function_stats = client.execute_command (kw "FUNCTION" ++ kw "STATS") none

  unfoldable pub function_kill : Io W GlideError (Unit {0})
  function_kill = call client (kw "FUNCTION" ++ kw "KILL") to_unit

  unfoldable pub script_kill : Io W GlideError (Unit {0})
  script_kill = call client (kw "SCRIPT" ++ kw "KILL") to_unit

  unfoldable pub script_show : Bytes → Io W GlideError Bytes
  script_show sha1 = call client (kw "SCRIPT" ++ kw "SHOW" ++ raw sha1) (to_bytes redis)
