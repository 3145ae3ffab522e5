-- ===== src/Script/Server.antt =====
-- `invoke_async` of src/script.rs against a server with a script cache, which takes commands apart.
use glide_rust.Base.{
  ℕ, Bytes, List, true, false, Option, none, some, Result, ok, err, ◌≡◌, ◌⊎◌, sym, ap, ◌∙◌, arith,
  Bool-cases, inl, inr, Result-cases, length, pos,
}
use glide_rust.Base.Io.{Io, ◌>>=◌, lift}
use glide_rust.Redis.{Value, Redis, RedisError, Cmd, is_no_script}
use glide_rust.Script.{ScriptInvocation, evalsha_cmd, eval_cmd, invoke_async}
use glide_rust.Script.Wire.{
  ScriptCommand, by_hash, by_code, read_script, read_script-evalsha_cmd, read_script-eval_cmd,
}

-- What a server keeps of scripts and does with them: the cached script of a hash, caching a script,
-- running one, the refusal of a hash that is not cached, and its answers to all other commands.
pub record ScriptServer (F O W : Type 0) : Type 0 where
  pub find : Bytes → W → Option Bytes
  pub store : Bytes → W → W
  pub run : Bytes → List Bytes → List Bytes → Io W RedisError (Value F O)
  pub refusal : RedisError
  pub other : Cmd → Io W RedisError (Value F O)

module _ {F O W : Type 0} (server : ScriptServer F O W) where
  -- `EVALSHA` runs a cached script and refuses another with no effect; `EVAL` caches the script and
  -- runs it.
  abbrev by_cache : Option Bytes → List Bytes → List Bytes → Io W RedisError (Value F O)
  by_cache none keys args w = (err server.refusal, w)
  by_cache (some code) keys args w = server.run code keys args w

  abbrev carry_out : Option ScriptCommand → Cmd → Io W RedisError (Value F O)
  carry_out none cmd w = server.other cmd w
  carry_out (some (by_hash hash keys args)) cmd w = by_cache (server.find hash w) keys args w
  carry_out (some (by_code code keys args)) cmd w = server.run code keys args (server.store code w)

  abbrev pub answer : (Bytes → Option ℕ) → Cmd → Io W RedisError (Value F O)
  answer read_number cmd = carry_out (read_script read_number cmd) cmd

  module _ {T : Type 0} (decode : Value F O → Result RedisError T) (i : ScriptInvocation) where
    -- The contract: the script is cached and run where the server did not know it, and is run
    -- otherwise; a run that itself ends with `NOSCRIPT` is followed by another one.
    abbrev cache_and_run : Io W RedisError T
    cache_and_run w =
        (server.run i.script.code i.keys i.args >>= λ reply. lift (decode reply))
          (server.store i.script.code w)

    abbrev after_run : Result RedisError (Value F O) → Io W RedisError T
    after_run (ok v) w = (decode v, w)
    after_run (err e) w = elim (is_no_script e.kind) [ true ↦ cache_and_run w | false ↦ (err e, w) ]

    abbrev contract : Option Bytes → Io W RedisError T
    contract none w = cache_and_run w
    contract (some code) w =
        let (reply, w') = server.run i.script.code i.keys i.args w in after_run reply w'

    abbrev pub runs : Io W RedisError T
    runs w = contract (server.find i.script.hash w) w

    -- A connection that sends the `EVAL` on gives the contract, by what the `EVALSHA` gives.
    module _ (redis : Redis F O) (send : Cmd → Io W RedisError (Value F O))
        (evaluates : (w : W)
          → send (eval_cmd redis i) w
            ≡ server.run i.script.code i.keys i.args (server.store i.script.code w)) where
      invoke_unknown :
          (w : W)
          → is_no_script server.refusal.kind ≡ true
          → send (evalsha_cmd redis i) w ≡ (err server.refusal, w)
          → invoke_async redis send decode i w ≡ cache_and_run w
      unfolding invoke_async
      invoke_unknown w refuses refused = ground (arith, evaluates w)

      invoke_cached :
          (w : W)
          → let ran : Result RedisError (Value F O) × W =
              server.run i.script.code i.keys i.args w in
            send (evalsha_cmd redis i) w ≡ ran
            → invoke_async redis send decode i w ≡ after_run ran.0 ran.1
      unfolding invoke_async
      invoke_cached w sent =
          let ran : Result RedisError (Value F O) × W = server.run i.script.code i.keys i.args w in
          elim (Result-cases ran.0) [
            | inl (v, p) ↦ ground (arith, p)
            | inr (e, p) ↦ elim (Bool-cases (is_no_script e.kind)) [
              | inl t ↦ ground (arith, p, t, evaluates ran.1)
              | inr f ↦ ground (arith, p, f)
            ]
          ]

module _ {F O W T : Type 0} (redis : Redis F O) (server : ScriptServer F O W)
    (decode : Value F O → Result RedisError T) (read_number : Bytes → Option ℕ) where
  -- With a server that refuses an unknown hash with `NOSCRIPT`, caches nothing but the script under
  -- the script's hash and reads back the count that is written, invoking a script gives what running
  -- it gives, decoded, and leaves the server as that run does: the script is cached first if the
  -- server did not know it, and is run once, but that a cached script whose own run ends with
  -- `NOSCRIPT` is cached and run once more, with the result of the second run.
  pub invoke_async-runs :
      (i : ScriptInvocation) (w : W)
      → is_no_script server.refusal.kind ≡ true
      → (server.find i.script.hash w ≡ none) ⊎ (server.find i.script.hash w ≡ some i.script.code)
      → read_number (redis.int_arg (pos (length i.keys))) ≡ some (length i.keys)
      → invoke_async redis (answer server read_number) decode i w ≡ runs server decode i w
  invoke_async-runs i w refuses known reads =
      let by_hash_read = read_script-evalsha_cmd redis read_number i reads in
      let by_code_read = read_script-eval_cmd redis read_number i reads in
      let sent = ap (λ c. carry_out server c (evalsha_cmd redis i) w) by_hash_read in
      let evaluates = λ (v : W). ap (λ c. carry_out server c (eval_cmd redis i) v) by_code_read in
      let found = λ (e : Option Bytes). by_cache server e i.keys i.args w in
      elim known [
        | inl fresh ↦
            invoke_unknown server decode i redis (answer server read_number) evaluates w refuses
              (sent ∙ ap found fresh)
            ∙ ap (λ e. contract server decode i e w) (sym fresh)
        | inr cached ↦
            invoke_cached server decode i redis (answer server read_number) evaluates w
              (sent ∙ ap found cached)
            ∙ ap (λ e. contract server decode i e w) (sym cached)
      ]
