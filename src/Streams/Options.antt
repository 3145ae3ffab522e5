-- ===== src/Streams/Options.antt =====
-- The option structs of src/commands/stream.rs, and the arguments that they add to a command.
use glide_rust.Base.{ℤ, Bytes, Bool, not, Option, ◌++◌, if◌then◌else◌}
use glide_rust.Base.Int.{show_int}
use glide_rust.Redis.{Redis, Args, kw, raw, opt, flag}

pub data StreamTrimStrategy : Type 0 where
  by_max_len by_min_id : StreamTrimStrategy

pub record StreamTrimOptions : Type 0 where
  pub strategy : StreamTrimStrategy
  pub exact : Bool
  pub threshold : Bytes
  pub limit : Option ℤ

unfoldable pub max_len : Bool → ℤ → Option ℤ → StreamTrimOptions
unfolding show_int
max_len exact threshold limit = record {
  strategy = by_max_len;
  exact = exact;
  threshold = show_int threshold;
  limit = limit;
}

unfoldable pub min_id : Bool → Bytes → Option ℤ → StreamTrimOptions
min_id exact threshold limit = record {
  strategy = by_min_id;
  exact = exact;
  threshold = threshold;
  limit = limit;
}

pub record StreamAddOptions : Type 0 where
  pub make_stream : Bool
  pub trim : Option StreamTrimOptions

pub record StreamReadOptions : Type 0 where
  pub block_ms : Option ℤ
  pub count : Option ℤ

pub record StreamReadGroupOptions : Type 0 where
  pub group_block_ms : Option ℤ
  pub group_count : Option ℤ
  pub no_ack : Bool

pub record StreamGroupCreateOptions : Type 0 where
  pub group_make_stream : Bool
  pub entries_read : Option ℤ

pub record StreamClaimOptions : Type 0 where
  pub idle : Option ℤ
  pub idle_unix_time : Option ℤ
  pub retry_count : Option ℤ
  pub is_force : Bool

module _ {F O : Type 0} (redis : Redis F O) where
  -- `cmd.arg(word).arg(n)` under an `if let Some(n)`
  abbrev pub opt_int : Option ℤ → Args → Args
  opt_int o word = opt o (λ n. word ++ raw (redis.int_arg n))

  abbrev strategy_word : StreamTrimStrategy → Args
  strategy_word by_max_len = kw "MAXLEN"
  strategy_word by_min_id = kw "MINID"

  -- The `add_to` methods: what each appends.
  unfoldable pub trim_args : StreamTrimOptions → Args
  trim_args o =
      strategy_word o.strategy
      ++ (if o.exact then kw "=" else kw "~")
      ++ raw o.threshold
      ++ opt_int o.limit (kw "LIMIT")

  unfoldable pub add_args : StreamAddOptions → Args
  unfolding trim_args
  add_args o = flag (not o.make_stream) "NOMKSTREAM" ++ opt o.trim trim_args

  unfoldable pub read_args : StreamReadOptions → Args
  read_args o = opt_int o.block_ms (kw "BLOCK") ++ opt_int o.count (kw "COUNT")

  unfoldable pub read_group_args : StreamReadGroupOptions → Args
  read_group_args o =
      opt_int o.group_block_ms (kw "BLOCK")
      ++ opt_int o.group_count (kw "COUNT")
      ++ flag o.no_ack "NOACK"

  unfoldable pub group_create_args : StreamGroupCreateOptions → Args
  group_create_args o =
      flag o.group_make_stream "MKSTREAM" ++ opt_int o.entries_read (kw "ENTRIESREAD")

  unfoldable pub claim_args : StreamClaimOptions → Args
  claim_args o =
      opt_int o.idle (kw "IDLE")
      ++ opt_int o.idle_unix_time (kw "TIME")
      ++ opt_int o.retry_count (kw "RETRYCOUNT")
      ++ flag o.is_force "FORCE"
