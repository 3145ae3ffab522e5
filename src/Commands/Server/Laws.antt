-- ===== src/Commands/Server/Laws.antt =====
-- `time` of src/commands/server_management.rs: the numbers that a server writes are read back.
use glide_rust.Base.{ℕ, ℤ, pos, ok, ◌≡◌, refl, ◌≤◌}
use glide_rust.Base.Int.{show_int}
use glide_rust.Base.Int.Parse.{
  IsI64, i64_limit, parse_i64-show_int, parse_i64_unfit, show_int_ascii,
}
use glide_rust.Redis.{Value, array, more, end, bulk_string, Redis, IsExact}
use glide_rust.Values.Laws.{to_string-bulk_string}
use glide_rust.Executor.{CommandExecutor}
use glide_rust.Commands.Server.{parse_time, time}

module _ {F O : Type 0} (redis : Redis F O) where
  -- A server whose clock shows these two numbers, in decimal, to every command.
  abbrev pub time_reply : ℤ → ℤ → Value F O
  time_reply secs micros =
      array (more (bulk_string (show_int secs)) (more (bulk_string (show_int micros)) end))

  abbrev pub clock : {P W : Type 0} → ℤ → ℤ → CommandExecutor F O P W
  clock secs micros = record { execute_command = λ cmd routing w. (ok (time_reply secs micros), w) }

  -- The seconds and the microseconds of a server's clock are read back when they fit an `i64`; a
  -- number of seconds beyond it is given as 0, and no error tells so.
  pub time_lem :
      IsExact redis
      → (P : Type 0) {W : Type 0} (w : W) (secs micros : ℤ) (large : ℕ) → IsI64 secs
      → IsI64 micros
      → i64_limit ≤ large
      → (time redis (clock {P = P} secs micros) w ≡ (ok (secs, micros), w))
        × (time redis (clock {P = P} (pos large) micros) w ≡ (ok (pos 0, micros), w))
  unfolding time parse_time
  time_lem exact P w secs micros large fit micros_fit too_large = (
    rw
        (
          to_string-bulk_string redis exact (show_int micros) (show_int_ascii micros),
          to_string-bulk_string redis exact (show_int secs) (show_int_ascii secs),
          parse_i64-show_int secs fit,
          parse_i64-show_int micros micros_fit,
        )
        refl,
    rw
        (
          to_string-bulk_string redis exact (show_int micros) (show_int_ascii micros),
          to_string-bulk_string redis exact (show_int (pos large)) (show_int_ascii (pos large)),
          parse_i64_unfit large too_large,
          parse_i64-show_int micros micros_fit,
        )
        refl,
  )
