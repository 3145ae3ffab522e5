-- ===== src/Script/Wire.antt =====
-- The argument layout of the `EVAL` commands of src/script.rs, as a server takes it apart.
use glide_rust.Base.{
  ℕ, Bytes, List, [], ◌∷◌, ◌++◌, Option, none, some, ◌≡◌, ap, ◌∙◌, length, take, drop, take-append,
  drop-append, append_assoc, append-nil, pos, ascii, bytes_eq, if◌then◌else◌, refl,
}
use glide_rust.Redis.{Redis, Args, Cmd}
use glide_rust.Script.{Script, ScriptInvocation, prepare_invoke, arg, key, evalsha_cmd, eval_cmd}

-- What a server is asked to run: the cached script of a hash, or a script by its code, with the keys
-- and the other arguments.
pub data ScriptCommand : Type 0 where
  by_hash by_code : Bytes → List Bytes → List Bytes → ScriptCommand

abbrev command_of : Bytes → Bytes → List Bytes → List Bytes → Option ScriptCommand
command_of name body keys args =
    if bytes_eq name (ascii "EVALSHA")
    then some (by_hash body keys args)
    else if bytes_eq name (ascii "EVAL")
    then some (by_code body keys args)
    else none

-- A server's reading of `EVALSHA hash n …` and `EVAL code n …`: the first `n` words are the keys.
unfoldable pub read_script : (Bytes → Option ℕ) → Cmd → Option ScriptCommand
read_script read_number (name ∷ body ∷ count ∷ rest) = elim (read_number count) [
  | none ↦ none
  | some n ↦ command_of name body (take n rest) (drop n rest)
]
read_script read_number _ = none

-- The calls of the builder, and the invocation after them.
pub data BuildStep : Type 0 where
  key_step arg_step : Args → BuildStep

abbrev pub apply_steps : List BuildStep → ScriptInvocation → ScriptInvocation
apply_steps [] i = i
apply_steps (key_step a ∷ steps) i = apply_steps steps (key a i)
apply_steps (arg_step a ∷ steps) i = apply_steps steps (arg a i)

abbrev pub keys_of : List BuildStep → List Bytes
keys_of [] = []
keys_of (key_step a ∷ steps) = a ++ keys_of steps
keys_of (arg_step a ∷ steps) = keys_of steps

abbrev pub args_of : List BuildStep → List Bytes
args_of [] = []
args_of (key_step a ∷ steps) = args_of steps
args_of (arg_step a ∷ steps) = a ++ args_of steps

-- The builder keeps the script, and appends keys and arguments in the order of the calls.
apply_steps_lem :
    (steps : List BuildStep) (i : ScriptInvocation)
    → apply_steps steps i
      ≡ record { script = i.script; args = i.args ++ args_of steps; keys = i.keys ++ keys_of steps }
unfolding key arg
apply_steps_lem [] i = simp append-nil
apply_steps_lem (key_step a ∷ steps) i = rw (apply_steps_lem steps (key a i)) (simp append_assoc)
apply_steps_lem (arg_step a ∷ steps) i = rw (apply_steps_lem steps (arg a i)) (simp append_assoc)

module _ {F O : Type 0} (redis : Redis F O) (read_number : Bytes → Option ℕ) where
  read_script-split :
      (name body : Bytes) (keys args : List Bytes)
      → read_number (redis.int_arg (pos (length keys))) ≡ some (length keys)
      → read_script read_number (name ∷ body ∷ redis.int_arg (pos (length keys)) ∷ (keys ++ args))
        ≡ command_of name body keys args
  unfolding read_script
  read_script-split name body keys args h =
      rw (h, read_script) (rw (take-append keys args, drop-append keys args) refl)

  pub read_script-evalsha_cmd :
      (i : ScriptInvocation)
      → read_number (redis.int_arg (pos (length i.keys))) ≡ some (length i.keys)
      → read_script read_number (evalsha_cmd redis i) ≡ some (by_hash i.script.hash i.keys i.args)
  unfolding evalsha_cmd bytes_eq ascii
  read_script-evalsha_cmd i h = read_script-split (ascii "EVALSHA") i.script.hash i.keys i.args h

  pub read_script-eval_cmd :
      (i : ScriptInvocation)
      → read_number (redis.int_arg (pos (length i.keys))) ≡ some (length i.keys)
      → read_script read_number (eval_cmd redis i) ≡ some (by_code i.script.code i.keys i.args)
  unfolding eval_cmd bytes_eq ascii
  read_script-eval_cmd i h = read_script-split (ascii "EVAL") i.script.code i.keys i.args h

  -- Where the server reads back the count that is written, it reads the two commands of an invocation
  -- as an `EVALSHA` of the script's hash and as an `EVAL` of its code, each with the keys of the `key`
  -- calls and the arguments of the `arg` calls in the order of the calls.
  pub read_script-cmd :
      (steps : List BuildStep) (script : Script)
      → let i : ScriptInvocation = apply_steps steps (prepare_invoke script) in
        read_number (redis.int_arg (pos (length (keys_of steps)))) ≡ some (length (keys_of steps))
        → (read_script read_number (evalsha_cmd redis i)
            ≡ some (by_hash script.hash (keys_of steps) (args_of steps)))
          × (read_script read_number (eval_cmd redis i)
              ≡ some (by_code script.code (keys_of steps) (args_of steps)))
  unfolding prepare_invoke
  read_script-cmd steps script h =
      let built = apply_steps_lem steps (prepare_invoke script) in
      let i : ScriptInvocation = record {
        script = script;
        args = args_of steps;
        keys = keys_of steps;
      } in
      (
        ap (λ j. read_script read_number (evalsha_cmd redis j)) built ∙ read_script-evalsha_cmd i h,
        ap (λ j. read_script read_number (eval_cmd redis j)) built ∙ read_script-eval_cmd i h,
      )
