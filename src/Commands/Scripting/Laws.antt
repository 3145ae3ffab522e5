-- ===== src/Commands/Scripting/Laws.antt =====
-- The calls of scripts and functions of src/commands/scripting.rs as a server takes them apart, and
-- against the commands of src/script.rs.
use glide_rust.Base.{
  ℕ, pos, Bytes, ascii, List, ◌∷◌, Option, none, some, ◌≡◌, refl, ap, ◌∙◌, ◌++◌, length, take, drop,
  take-append, drop-append,
}
use glide_rust.Base.Io.{Io}
use glide_rust.Error.{GlideError}
use glide_rust.Redis.{Value, Redis, Cmd}
use glide_rust.Routes.{Route, Topology, RoutingInfo, to_routing_info}
use glide_rust.Executor.{CommandExecutor}
use glide_rust.Script.{ScriptInvocation, eval_cmd, evalsha_cmd}
use glide_rust.Commands.Replies.Laws.{singles, each-singles, length-singles}
use glide_rust.Commands.Scripting.{
  invoke_cmd, eval, evalsha, fcall, fcall_ro, fcall_route, fcall_ro_route,
}

-- A call as a server reads it: the command, what is called, the keys and the arguments.
abbrev pub Call : Type 0
Call = Bytes × Bytes × List Bytes × List Bytes

-- A server's reading: after the command and what is called, as many keys as the count says.
unfoldable pub read_call : (Bytes → Option ℕ) → Cmd → Option Call
read_call read_number (name ∷ callee ∷ count ∷ rest) = elim (read_number count) [
  | none ↦ none
  | some n ↦ some (name, callee, take n rest, drop n rest)
]
read_call read_number _ = none

module _ {F O : Type 0} (redis : Redis F O) where
  invoke_cmd-singles :
      (name callee : Bytes) (keys args : List Bytes)
      → invoke_cmd redis name callee (singles keys) (singles args)
        ≡ name ∷ callee ∷ redis.int_arg (pos (length keys)) ∷ (keys ++ args)
  unfolding invoke_cmd
  invoke_cmd-singles name callee keys args =
      rw (each-singles keys, each-singles args, length-singles keys) refl

  -- Evaluating the code of a script, or its hash, sends the very command that invoking the script
  -- builds for `EVAL` and for `EVALSHA`, for the same keys and arguments.
  pub eval-eval_cmd :
      {P W : Type 0} (client : CommandExecutor F O P W) (i : ScriptInvocation)
      → (eval redis client i.script.code (singles i.keys) (singles i.args)
          ≡ client.execute_command (eval_cmd redis i) none)
        × (evalsha redis client i.script.hash (singles i.keys) (singles i.args)
            ≡ client.execute_command (evalsha_cmd redis i) none)
  unfolding eval evalsha eval_cmd evalsha_cmd
  eval-eval_cmd client i = (
    ap (λ cmd. client.execute_command cmd none)
        (invoke_cmd-singles (ascii "EVAL") i.script.code i.keys i.args),
    ap (λ cmd. client.execute_command cmd none)
        (invoke_cmd-singles (ascii "EVALSHA") i.script.hash i.keys i.args),
  )

  read_call-invoke_cmd :
      (read_number : Bytes → Option ℕ) (name callee : Bytes) (keys args : List Bytes)
      → read_number (redis.int_arg (pos (length keys))) ≡ some (length keys)
      → read_call read_number (invoke_cmd redis name callee (singles keys) (singles args))
        ≡ some (name, callee, keys, args)
  unfolding read_call
  read_call-invoke_cmd read_number name callee keys args h =
      ap (read_call read_number) (invoke_cmd-singles name callee keys args)
      ∙ rw (h, read_call) (cc (take-append keys args, drop-append keys args))

  -- A server that answers for the call that it reads.
  abbrev pub calling :
      {P W : Type 0}
      → (Bytes → Option ℕ)
      → (Option Call → Option (RoutingInfo P) → Io W GlideError (Value F O))
      → CommandExecutor F O P W
  calling read_number serve = record {
    execute_command = λ cmd routing. serve (read_call read_number cmd) routing;
  }

  -- Where a server reads back the count that is written, each of the six calls of a script or a
  -- function gives what the server answers to exactly that call: its command, what is called, the
  -- keys and the arguments, and with a route, the routing that the route is lowered to.
  pub calls_lem :
      {P W : Type 0} (topology : Topology P) (read_number : Bytes → Option ℕ)
      (serve : Option Call → Option (RoutingInfo P) → Io W GlideError (Value F O)) (callee : Bytes)
      (keys args : List Bytes) (route : Route)
      → read_number (redis.int_arg (pos (length keys))) ≡ some (length keys)
      → let server = calling read_number serve in
        let routing = λ (name : Bytes).
          to_routing_info topology route
            (some (invoke_cmd redis name callee (singles keys) (singles args))) in
        (eval redis server callee (singles keys) (singles args)
          ≡ serve (some (ascii "EVAL", callee, keys, args)) none)
        × (evalsha redis server callee (singles keys) (singles args)
            ≡ serve (some (ascii "EVALSHA", callee, keys, args)) none)
        × (fcall redis server callee (singles keys) (singles args)
            ≡ serve (some (ascii "FCALL", callee, keys, args)) none)
        × (fcall_ro redis server callee (singles keys) (singles args)
            ≡ serve (some (ascii "FCALL_RO", callee, keys, args)) none)
        × (fcall_route redis server topology callee (singles keys) (singles args) route
            ≡ serve (some (ascii "FCALL", callee, keys, args)) (some (routing (ascii "FCALL"))))
        × (fcall_ro_route redis server topology callee (singles keys) (singles args) route
            ≡ serve
                (some (ascii "FCALL_RO", callee, keys, args))
                (some (routing (ascii "FCALL_RO"))))
  unfolding eval evalsha fcall fcall_ro fcall_route fcall_ro_route
  calls_lem topology read_number serve callee keys args route h =
      let read = λ (name : Bytes). read_call-invoke_cmd read_number name callee keys args h in
      let routing = λ (name : Bytes).
        to_routing_info topology route
          (some (invoke_cmd redis name callee (singles keys) (singles args))) in
      (
        ap (λ c. serve c none) (read (ascii "EVAL")),
        ap (λ c. serve c none) (read (ascii "EVALSHA")),
        ap (λ c. serve c none) (read (ascii "FCALL")),
        ap (λ c. serve c none) (read (ascii "FCALL_RO")),
        ap (λ c. serve c (some (routing (ascii "FCALL")))) (read (ascii "FCALL")),
        ap (λ c. serve c (some (routing (ascii "FCALL_RO")))) (read (ascii "FCALL_RO")),
      )
