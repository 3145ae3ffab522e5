-- ===== src/Commands/Sets.antt =====
-- src/commands/set.rs: the commands on sets.
pub mod Laws
use glide_rust.Base.{ℤ, Bytes, bytes_eq, Bool, false, ◌||◌, List, [], ◌∷◌, ◌++◌}
use glide_rust.Base.Fallible.{map_ok}
use glide_rust.Base.Io.{Io}
use glide_rust.Redis.{Value, Redis, Args, kw, raw, each}
use glide_rust.Error.{GlideError, GlideResult}
use glide_rust.Values.{to_bytes, to_i64}
use glide_rust.Executor.{CommandExecutor, call}
use glide_rust.Commands.Options.{int_of}
use glide_rust.Commands.Replies.{members_or_one, counted}

-- A `HashSet<Bytes>` by its membership test, and what a list of members is collected into.
abbrev pub HashSet : Type 0
HashSet = Bytes → Bool

abbrev pub hash_set : List Bytes → HashSet
hash_set [] b = false
hash_set (x ∷ xs) b = bytes_eq x b || hash_set xs b

module _ {F O : Type 0} (redis : Redis F O) where
  unfoldable pub collect_bytes : Value F O → GlideResult (List Bytes)
  collect_bytes v = members_or_one (to_bytes redis) v

  module _ {P W : Type 0} (client : CommandExecutor F O P W) where
    unfoldable pub sintercard : List Args → Io W GlideError ℤ
    sintercard keys = call client (kw "SINTERCARD" ++ counted redis keys) (to_i64 redis)

    unfoldable pub sintercard_limit : List Args → ℤ → Io W GlideError ℤ
    sintercard_limit keys limit =
        call client (kw "SINTERCARD" ++ counted redis keys ++ kw "LIMIT" ++ int_of redis limit)
          (to_i64 redis)

    unfoldable pub set_op : Bytes → List Args → Io W GlideError HashSet
    unfolding collect_bytes
    set_op op keys = call client (raw op ++ each keys) (λ v. map_ok hash_set (collect_bytes v))

    unfoldable pub set_op_store : Bytes → Args → List Args → Io W GlideError ℤ
    set_op_store op destination keys =
        call client (raw op ++ destination ++ each keys) (to_i64 redis)
