-- ===== src/Commands/Strings.antt =====
-- src/commands/string.rs: the longest common subsequence.
use glide_rust.Base.{ℤ, Bytes, Bool, none, Option, ◌++◌}
use glide_rust.Base.Io.{Io}
use glide_rust.Redis.{Value, Redis, Args, kw, opt, flag}
use glide_rust.Error.{GlideError}
use glide_rust.Values.{to_bytes, to_i64}
use glide_rust.Executor.{CommandExecutor, call}
use glide_rust.Commands.Options.{int_of}

module _ {F O P W : Type 0} (redis : Redis F O) (client : CommandExecutor F O P W) where
  unfoldable pub lcs_len : Args → Args → Io W GlideError ℤ
  lcs_len key1 key2 = call client (kw "LCS" ++ key1 ++ key2 ++ kw "LEN") (to_i64 redis)

  unfoldable pub lcs : Args → Args → Io W GlideError Bytes
  lcs key1 key2 = call client (kw "LCS" ++ key1 ++ key2) (to_bytes redis)

  unfoldable pub lcs_idx : Args → Args → Option ℤ → Bool → Io W GlideError (Value F O)
  lcs_idx key1 key2 min_match_len with_match_len =
      client.execute_command
        (kw "LCS"
          ++ key1
          ++ key2
          ++ kw "IDX"
          ++ opt min_match_len (λ m. kw "MINMATCHLEN" ++ int_of redis m)
          ++ flag with_match_len "WITHMATCHLEN")
        none
