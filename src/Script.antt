-- ===== src/Script.antt =====
-- src/script.rs: `Script`, which tries `EVALSHA` and falls back to `EVAL`.
pub mod Server
pub mod Wire
use glide_rust.Base.{Bytes, List, [], ◌∷◌, ◌++◌, Result, ok, err, length, pos, true, false}
use glide_rust.Base.Io.{Io, ◌>>=◌, lift}
use glide_rust.Redis.{Value, Redis, RedisError, Args, Cmd, kw, raw, is_no_script}

pub record Script : Type 0 where
  pub code : Bytes
  pub hash : Bytes

-- `Script::new`, over the SHA-1 of the `sha1_smol` crate.
unfoldable pub new : (Bytes → Bytes) → Bytes → Script
new sha1 code = record { code = code; hash = sha1 code }

pub record ScriptInvocation : Type 0 where
  pub script : Script
  pub args : List Bytes
  pub keys : List Bytes

unfoldable pub prepare_invoke : Script → ScriptInvocation
prepare_invoke script = record { script = script; args = []; keys = [] }

-- `ScriptInvocation::arg` and `ScriptInvocation::key`
unfoldable pub arg : Args → ScriptInvocation → ScriptInvocation
arg a i = record i { args = i.args ++ a }

unfoldable pub key : Args → ScriptInvocation → ScriptInvocation
key a i = record i { keys = i.keys ++ a }

-- `Script::arg` and `Script::key`
unfoldable pub script_arg : Args → Script → ScriptInvocation
unfolding prepare_invoke arg
script_arg a script = arg a (prepare_invoke script)

unfoldable pub script_key : Args → Script → ScriptInvocation
unfolding prepare_invoke key
script_key a script = key a (prepare_invoke script)

module _ {F O : Type 0} (redis : Redis F O) where
  unfoldable pub evalsha_cmd : ScriptInvocation → Cmd
  evalsha_cmd i =
      kw "EVALSHA"
      ++ raw i.script.hash
      ++ raw (redis.int_arg (pos (length i.keys)))
      ++ i.keys
      ++ i.args

  unfoldable pub eval_cmd : ScriptInvocation → Cmd
  eval_cmd i =
      kw "EVAL"
      ++ raw i.script.code
      ++ raw (redis.int_arg (pos (length i.keys)))
      ++ i.keys
      ++ i.args

-- `send` is the connection's `glide_send_owned`, and `decode` the fork's conversion to the wanted
-- type.
module _ {F O W : Type 0} (redis : Redis F O) (send : Cmd → Io W RedisError (Value F O)) where
  module _ {T : Type 0} (decode : Value F O → Result RedisError T) where
    -- `ScriptInvocation::invoke_async`
    unfoldable pub invoke_async : ScriptInvocation → Io W RedisError T
    invoke_async i w =
        let (first, w') = send (evalsha_cmd redis i) w in
        elim first [
          | ok reply ↦ (decode reply, w')
          | err e ↦ elim (is_no_script e.kind) [
            | true ↦ (send (eval_cmd redis i) >>= λ reply. lift (decode reply)) w'
            | false ↦ (err e, w')
          ]
        ]

    -- `Script::invoke_async`
    unfoldable pub script_invoke_async : Script → Io W RedisError T
    unfolding invoke_async prepare_invoke
    script_invoke_async script = invoke_async (prepare_invoke script)

  -- `Script::load_async`
  unfoldable pub load_async : Script → Io W RedisError Bytes
  load_async script = do
    reply ← send (kw "SCRIPT" ++ kw "LOAD" ++ raw script.code)
    lift (redis.string_of reply)
