-- ===== src/Commands/Options.antt =====
-- src/commands/options.rs: the option types that several command families share, and what each
-- `add_to` and `as_arg` appends. A `u64` is a natural number.
use glide_rust.Base.{ℕ, ℤ, pos, Bytes, Bool, Option, none, some, ◌++◌, []}
use glide_rust.Redis.{Redis, Args, kw, raw, opt, flag}

pub data ConditionalChange : Type 0 where
  only_if_exists only_if_does_not_exist : ConditionalChange

unfoldable pub conditional_change_args : ConditionalChange → Args
conditional_change_args only_if_exists = kw "XX"
conditional_change_args only_if_does_not_exist = kw "NX"

pub data ExpirySet : Type 0 where
  seconds milliseconds unix_seconds unix_milliseconds : ℕ → ExpirySet
  keep_existing persist : ExpirySet

pub data ExpireOptions : Type 0 where
  has_no_expiry has_existing_expiry : ExpireOptions
  new_expiry_greater_than_current new_expiry_less_than_current : ExpireOptions

unfoldable pub expire_args : ExpireOptions → Args
expire_args has_no_expiry = kw "NX"
expire_args has_existing_expiry = kw "XX"
expire_args new_expiry_greater_than_current = kw "GT"
expire_args new_expiry_less_than_current = kw "LT"

pub data FunctionRestorePolicy : Type 0 where
  append flush replace : FunctionRestorePolicy

unfoldable pub restore_policy_word : FunctionRestorePolicy → Args
restore_policy_word append = kw "APPEND"
restore_policy_word flush = kw "FLUSH"
restore_policy_word replace = kw "REPLACE"

pub data ClientPauseMode : Type 0 where
  all_clients writes : ClientPauseMode

unfoldable pub pause_mode_word : ClientPauseMode → Args
pause_mode_word all_clients = kw "ALL"
pause_mode_word writes = kw "WRITE"

pub data HashFieldConditionalChange : Type 0 where
  only_if_all_exist only_if_none_exist : HashFieldConditionalChange

unfoldable pub hash_field_word : HashFieldConditionalChange → Args
hash_field_word only_if_all_exist = kw "FXX"
hash_field_word only_if_none_exist = kw "FNX"

pub record MigrateOptions : Type 0 where
  pub copies : Bool
  pub replaces : Bool
  pub password : Option Bytes
  pub username : Option Bytes

-- The match on the user name and the password.
abbrev auth_args : Option Bytes → Option Bytes → Args
auth_args (some u) (some p) = kw "AUTH2" ++ raw u ++ raw p
auth_args none (some p) = kw "AUTH" ++ raw p
auth_args _ none = []

unfoldable pub migrate_args : MigrateOptions → Args
migrate_args o =
    flag o.copies "COPY" ++ flag o.replaces "REPLACE" ++ auth_args o.username o.password

pub record RestoreOptions : Type 0 where
  pub replace_key : Bool
  pub absttl : Bool
  pub idletime : Option ℤ
  pub frequency : Option ℤ

pub data OrderBy : Type 0 where
  ascending descending : OrderBy

unfoldable pub order_word : OrderBy → Args
order_word ascending = kw "ASC"
order_word descending = kw "DESC"

pub record Limit : Type 0 where
  pub offset : ℤ
  pub count : ℤ

pub data FlushMode : Type 0 where
  sync async : FlushMode

unfoldable pub flush_mode_word : FlushMode → Args
flush_mode_word sync = kw "SYNC"
flush_mode_word async = kw "ASYNC"

module _ {F O : Type 0} (redis : Redis F O) where
  -- `cmd.arg(word).arg(v)`, and `cmd.arg(word).arg(n)` under an `if let Some(n)`
  abbrev pub int_of : ℤ → Args
  int_of n = raw (redis.int_arg n)

  abbrev pub nat_of : ℕ → Args
  nat_of n = raw (redis.int_arg (pos n))

  abbrev pub float_of : F → Args
  float_of x = raw (redis.float_arg x)

  unfoldable pub expiry_args : ExpirySet → Args
  expiry_args (seconds v) = kw "EX" ++ nat_of v
  expiry_args (milliseconds v) = kw "PX" ++ nat_of v
  expiry_args (unix_seconds v) = kw "EXAT" ++ nat_of v
  expiry_args (unix_milliseconds v) = kw "PXAT" ++ nat_of v
  expiry_args keep_existing = kw "KEEPTTL"
  expiry_args persist = kw "PERSIST"

  unfoldable pub restore_args : RestoreOptions → Args
  restore_args o =
      flag o.replace_key "REPLACE"
      ++ flag o.absttl "ABSTTL"
      ++ opt o.idletime (λ n. kw "IDLETIME" ++ int_of n)
      ++ opt o.frequency (λ n. kw "FREQ" ++ int_of n)

  -- `cmd.arg("LIMIT").arg(limit.offset).arg(limit.count)`
  abbrev pub limit_args : Limit → Args
  limit_args l = kw "LIMIT" ++ int_of l.offset ++ int_of l.count
