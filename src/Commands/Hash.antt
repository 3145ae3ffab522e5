-- ===== src/Commands/Hash.antt =====
-- src/commands/hash.rs: the commands on hashes, and the reading of their replies.
pub mod Expiry
pub mod Laws
pub mod Setting
pub mod Fields
use glide_rust.Base.{ℤ, pos, length, Bytes, ascii, Option, none, some, List, [], ◌∷◌, ◌++◌, ok}
use glide_rust.Base.Fallible.{◌>>=◌, map_ok, collect}
use glide_rust.Base.Io.{Io}
use glide_rust.Redis.{Value, nil, array, map, elems, entries, Redis, Args, Cmd, kw, raw, each, opt}
use glide_rust.Error.{GlideError, GlideResult}
use glide_rust.Values.{to_bytes, to_opt_bytes, to_i64}
use glide_rust.Executor.{CommandExecutor, call}
use glide_rust.Streams.Commands.{field_args}
use glide_rust.Commands.Options.{
  ExpireOptions, ExpirySet, HashFieldConditionalChange, expire_args, expiry_args, hash_field_word,
  int_of, nat_of,
}
use glide_rust.Commands.Replies.{Pair, items_or_self, items_or_one, pairs_of_items, counted}
use glide_rust.Commands.Generic.{parse_scan_reply}

module _ {F O : Type 0} (redis : Redis F O) where
  unfoldable pub collect_i64 : Value F O → GlideResult (List ℤ)
  collect_i64 v = items_or_one (to_i64 redis) v

  unfoldable pub collect_bytes : Value F O → GlideResult (List Bytes)
  collect_bytes v = items_or_one (to_bytes redis) v

  -- A nested pair is taken apart from its end.
  unfoldable pub nested_pair : Pair F O → GlideResult (Bytes × Bytes)
  nested_pair (f, v) = do b ← to_bytes redis v; a ← to_bytes redis f; ok (a, b)

  unfoldable pub flat_pair : Pair F O → GlideResult (Bytes × Bytes)
  flat_pair (f, v) = do a ← to_bytes redis f; b ← to_bytes redis v; ok (a, b)

  unfoldable pub collect_pairs : Value F O → GlideResult (List (Bytes × Bytes))
  unfolding nested_pair flat_pair pairs_of_items
  collect_pairs nil = ok []
  collect_pairs (map ps) = collect flat_pair (entries ps)
  collect_pairs (array vs) = pairs_of_items redis nested_pair flat_pair (elems vs)
  collect_pairs v = map_ok (λ b. (b, []) ∷ []) (to_bytes redis v)

  -- The commands that `hfield_expire` and the two calls on fields with an expiry build.
  unfoldable pub hfield_expire_cmd :
      Bytes → Args → Option ℤ → List Args → Option ExpireOptions → Cmd
  unfolding expire_args
  hfield_expire_cmd op key value fields option =
      raw op
      ++ key
      ++ opt value (int_of redis)
      ++ opt option expire_args
      ++ kw "FIELDS"
      ++ counted redis fields

  unfoldable pub hgetex_cmd : Args → List Args → Option ExpirySet → Cmd
  unfolding expiry_args
  hgetex_cmd key fields expiry =
      kw "HGETEX" ++ key ++ opt expiry (expiry_args redis) ++ kw "FIELDS" ++ counted redis fields

  unfoldable pub hsetex_cmd :
      Args → List (Args × Args) → Option HashFieldConditionalChange → Option ExpirySet → Cmd
  unfolding expiry_args hash_field_word
  hsetex_cmd key field_values condition expiry =
      kw "HSETEX"
      ++ key
      ++ opt condition hash_field_word
      ++ opt expiry (expiry_args redis)
      ++ kw "FIELDS"
      ++ nat_of redis (length field_values)
      ++ field_args field_values

  module _ {P W : Type 0} (client : CommandExecutor F O P W) where
    unfoldable pub hmget : Args → List Args → Io W GlideError (List (Option Bytes))
    hmget key fields =
        call client (kw "HMGET" ++ key ++ each fields) (items_or_self (to_opt_bytes redis))

    unfoldable pub hstrlen : Args → Args → Io W GlideError ℤ
    hstrlen key field = call client (kw "HSTRLEN" ++ key ++ field) (to_i64 redis)

    unfoldable pub hrandfield : Args → Io W GlideError (Option Bytes)
    hrandfield key = call client (kw "HRANDFIELD" ++ key) (to_opt_bytes redis)

    unfoldable pub hrandfield_count : Args → ℤ → Io W GlideError (List Bytes)
    unfolding collect_bytes
    hrandfield_count key count =
        call client (kw "HRANDFIELD" ++ key ++ int_of redis count) collect_bytes

    unfoldable pub hrandfield_withvalues : Args → ℤ → Io W GlideError (List (Bytes × Bytes))
    unfolding collect_pairs
    hrandfield_withvalues key count =
        call client (kw "HRANDFIELD" ++ key ++ int_of redis count ++ kw "WITHVALUES") collect_pairs

    unfoldable pub hscan_novalues :
        Args → Bytes → Option Bytes → Option ℤ → Io W GlideError (Bytes × List Bytes)
    hscan_novalues key cursor pattern count =
        call client
          (kw "HSCAN"
            ++ key
            ++ raw cursor
            ++ opt pattern (λ p. kw "MATCH" ++ raw p)
            ++ opt count (λ c. kw "COUNT" ++ int_of redis c)
            ++ kw "NOVALUES")
          (parse_scan_reply redis)

    unfoldable pub hfield_expire :
        Bytes → Args → Option ℤ → List Args → Option ExpireOptions → Io W GlideError (List ℤ)
    unfolding hfield_expire_cmd collect_i64
    hfield_expire op key value fields option =
        call client (hfield_expire_cmd op key value fields option) collect_i64

    unfoldable pub hexpire : Args → ℤ → List Args → Option ExpireOptions → Io W GlideError (List ℤ)
    unfolding hfield_expire
    hexpire key seconds fields option =
        hfield_expire (ascii "HEXPIRE") key (some seconds) fields option

    unfoldable pub hexpireat :
        Args → ℤ → List Args → Option ExpireOptions → Io W GlideError (List ℤ)
    unfolding hfield_expire
    hexpireat key unix_seconds fields option =
        hfield_expire (ascii "HEXPIREAT") key (some unix_seconds) fields option

    unfoldable pub hexpiretime : Args → List Args → Io W GlideError (List ℤ)
    unfolding hfield_expire
    hexpiretime key fields = hfield_expire (ascii "HEXPIRETIME") key none fields none

    unfoldable pub hpexpire : Args → ℤ → List Args → Option ExpireOptions → Io W GlideError (List ℤ)
    unfolding hfield_expire
    hpexpire key milliseconds fields option =
        hfield_expire (ascii "HPEXPIRE") key (some milliseconds) fields option

    unfoldable pub hpexpireat :
        Args → ℤ → List Args → Option ExpireOptions → Io W GlideError (List ℤ)
    unfolding hfield_expire
    hpexpireat key unix_milliseconds fields option =
        hfield_expire (ascii "HPEXPIREAT") key (some unix_milliseconds) fields option

    unfoldable pub hpexpiretime : Args → List Args → Io W GlideError (List ℤ)
    unfolding hfield_expire
    hpexpiretime key fields = hfield_expire (ascii "HPEXPIRETIME") key none fields none

    unfoldable pub httl : Args → List Args → Io W GlideError (List ℤ)
    unfolding hfield_expire
    httl key fields = hfield_expire (ascii "HTTL") key none fields none

    unfoldable pub hpttl : Args → List Args → Io W GlideError (List ℤ)
    unfolding hfield_expire
    hpttl key fields = hfield_expire (ascii "HPTTL") key none fields none

    unfoldable pub hpersist : Args → List Args → Io W GlideError (List ℤ)
    unfolding hfield_expire
    hpersist key fields = hfield_expire (ascii "HPERSIST") key none fields none

    unfoldable pub hgetex :
        Args → List Args → Option ExpirySet → Io W GlideError (List (Option Bytes))
    unfolding hgetex_cmd
    hgetex key fields expiry =
        call client (hgetex_cmd key fields expiry) (items_or_one (to_opt_bytes redis))

    unfoldable pub hsetex :
        Args
        → List (Args × Args)
        → Option HashFieldConditionalChange
        → Option ExpirySet
        → Io W GlideError ℤ
    unfolding hsetex_cmd
    hsetex key field_values condition expiry =
        call client (hsetex_cmd key field_values condition expiry) (to_i64 redis)
