-- ===== src/Sync/Calls.antt =====
-- The traits `AsyncCommands` and `Commands` of src/commands/core.rs by what each generated method
-- does, the blocking scans, and the blocking calls of src/script.rs. `send` and `send_sync` are the
-- one method that an implementation gives.
use glide_rust.Base.{
  ℕ, Bytes, true, false, [], ◌++◌, Result, ok, err, List, ◌≡◌, refl, Result-cases, inl, inr, arith,
}
use glide_rust.Base.Io.{Io, ◌>>=◌, lift}
use glide_rust.Redis.{Value, Redis, RedisError, Args, Cmd, kw, raw, is_no_script}
use glide_rust.Scan.{ScanIter}
use glide_rust.Scan.Blocking.{sync_new}
use glide_rust.Script.{
  Script, ScriptInvocation, prepare_invoke, evalsha_cmd, eval_cmd, invoke_async,
  script_invoke_async,
}

module _ {F O W R : Type 0} (send : Cmd → Io W RedisError (Value F O))
    (from_owned_redis_value : Value F O → Result RedisError R) where
  unfoldable pub glide_send : Cmd → Io W RedisError R
  glide_send cmd = send cmd >>= λ reply. lift (from_owned_redis_value reply)

  -- A generated method, by the command that the fork builds for its arguments.
  unfoldable pub typed_command : {A : Type 0} → (A → Cmd) → A → Io W RedisError R
  typed_command build args =
      let cmd = build args in send cmd >>= λ reply. lift (from_owned_redis_value reply)

module _ {F O W R : Type 0} (send_sync : Cmd → Io W RedisError (Value F O))
    (from_owned_redis_value : Value F O → Result RedisError R) where
  unfoldable pub glide_send_sync : Cmd → Io W RedisError R
  glide_send_sync cmd = send_sync cmd >>= λ reply. lift (from_owned_redis_value reply)

  unfoldable pub typed_command_sync : {A : Type 0} → (A → Cmd) → A → Io W RedisError R
  typed_command_sync build args =
      send_sync (build args) >>= λ reply. lift (from_owned_redis_value reply)

-- The blocking scans of the trait `Commands`.
module _ {F O W R : Type 0} (redis : Redis F O) (send_sync : Cmd → Io W RedisError (Value F O))
    (page_of : Value F O → Result RedisError (ℕ × List R)) where
  abbrev start : List Bytes → List Bytes → Io W RedisError (ScanIter R)
  start prefix suffix = sync_new redis send_sync page_of prefix suffix

  unfoldable pub sync_scan : Io W RedisError (ScanIter R)
  sync_scan = start (kw "SCAN") []

  unfoldable pub sync_scan_match : Args → Io W RedisError (ScanIter R)
  sync_scan_match pattern = start (kw "SCAN") (kw "MATCH" ++ pattern)

  unfoldable pub sync_hscan : Args → Io W RedisError (ScanIter R)
  sync_hscan key = start (kw "HSCAN" ++ key) []

  unfoldable pub sync_hscan_match : Args → Args → Io W RedisError (ScanIter R)
  sync_hscan_match key pattern = start (kw "HSCAN" ++ key) (kw "MATCH" ++ pattern)

  unfoldable pub sync_sscan : Args → Io W RedisError (ScanIter R)
  sync_sscan key = start (kw "SSCAN" ++ key) []

  unfoldable pub sync_sscan_match : Args → Args → Io W RedisError (ScanIter R)
  sync_sscan_match key pattern = start (kw "SSCAN" ++ key) (kw "MATCH" ++ pattern)

  unfoldable pub sync_zscan : Args → Io W RedisError (ScanIter R)
  sync_zscan key = start (kw "ZSCAN" ++ key) []

  unfoldable pub sync_zscan_match : Args → Args → Io W RedisError (ScanIter R)
  sync_zscan_match key pattern = start (kw "ZSCAN" ++ key) (kw "MATCH" ++ pattern)

module _ {F O W T : Type 0} (redis : Redis F O) (send_sync : Cmd → Io W RedisError (Value F O))
    (decode : Value F O → Result RedisError T) where
  -- `ScriptInvocation::invoke`
  unfoldable pub invoke : ScriptInvocation → Io W RedisError T
  invoke i w =
      let (first, w') = send_sync (evalsha_cmd redis i) w in
      elim first [
        | err e ↦ elim (is_no_script e.kind) [
          | true ↦
              let (second, w'') = send_sync (eval_cmd redis i) w' in
              elim second [ ok reply ↦ (decode reply, w'') | err e' ↦ (err e', w'') ]
          | false ↦ (err e, w')
        ]
        | ok reply ↦ (decode reply, w')
      ]

  -- `Script::invoke`
  unfoldable pub script_invoke : Script → Io W RedisError T
  unfolding invoke prepare_invoke
  script_invoke script = invoke (prepare_invoke script)

  same_invocation :
      (i : ScriptInvocation) (w : W) → invoke i w ≡ invoke_async redis send_sync decode i w
  unfolding invoke invoke_async
  same_invocation i w = elim (Result-cases (send_sync (evalsha_cmd redis i) w).0) [
    | inl (v, sent) ↦ rw (sent, invoke) (rw (sent, invoke_async) refl)
    | inr (e, failed) ↦ ground (arith, failed)
  ]

  -- Invoking a script on a blocking connection sends the same requests, gives the same result and
  -- leaves the world as invoking it on an asynchronous one does, for an invocation as for a script,
  -- also where the script is unknown or a request fails.
  pub invoke-invoke_async :
      (i : ScriptInvocation) (script : Script) (w : W)
      → (invoke i w ≡ invoke_async redis send_sync decode i w)
        × (script_invoke script w ≡ script_invoke_async redis send_sync decode script w)
  unfolding script_invoke script_invoke_async
  invoke-invoke_async i script w = (same_invocation i w, same_invocation (prepare_invoke script) w)

-- `Script::load`
unfoldable pub load :
    {F O W : Type 0}
    → Redis F O
    → (Cmd → Io W RedisError (Value F O))
    → Script
    → Io W RedisError Bytes
load redis send_sync script = do
  reply ← send_sync (kw "SCRIPT" ++ kw "LOAD" ++ raw script.code)
  lift (redis.string_of reply)
