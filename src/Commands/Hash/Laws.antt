-- ===== src/Commands/Hash/Laws.antt =====
-- What the nine commands on the expiry of hash fields give, from a server that answers for the
-- request that it reads.
use glide_rust.Base.{
  ℕ, ℤ, pos, Bytes, ascii, true, false, Option, none, some, List, ◌≡◌, refl, ap, length,
}
use glide_rust.Base.Io.{Io}
use glide_rust.Error.{GlideError}
use glide_rust.Redis.{Value, Redis, raw}
use glide_rust.Commands.Answers.{answering, decoded}
use glide_rust.Commands.Options.{ExpireOptions}
use glide_rust.Commands.Replies.Laws.{singles}
use glide_rust.Commands.Hash.Expiry.{
  ExpiryRequest, takes_value, read_expiry, read_expiry-valued, read_expiry-plain,
}
use glide_rust.Commands.Hash.{
  collect_i64, hfield_expire, hexpire, hexpireat, hexpiretime, hpexpire, hpexpireat, hpexpiretime,
  httl, hpttl, hpersist,
}

module _ (read_int : Bytes → Option ℤ) (read_number : Bytes → Option ℕ) {F O : Type 0}
    (redis : Redis F O) where
  -- Where a server reads back the numbers that are written, each of the nine commands on the expiry
  -- of hash fields gives the codes that the server answers with to exactly its request: its own
  -- command, the key, the new expiry and its condition where the command takes them, and the fields
  -- in order.
  pub hash_expiry_lem :
      (P : Type 0) {W : Type 0} (serve : Option ExpiryRequest → Io W GlideError (Value F O))
      (key : Bytes) (n : ℤ) (option : Option ExpireOptions) (fields : List Bytes)
      → ((m : ℤ) → read_int (redis.int_arg m) ≡ some m)
      → read_number (redis.int_arg (pos (length fields))) ≡ some (length fields)
      → let server = answering P (read_expiry read_int read_number) serve in
        let answer = λ (asked : ExpiryRequest). decoded (collect_i64 redis) serve (some asked) in
        (hexpire redis server (raw key) n (singles fields) option
          ≡ answer (ascii "HEXPIRE", key, some n, option, fields))
        × (hpexpire redis server (raw key) n (singles fields) option
            ≡ answer (ascii "HPEXPIRE", key, some n, option, fields))
        × (hexpireat redis server (raw key) n (singles fields) option
            ≡ answer (ascii "HEXPIREAT", key, some n, option, fields))
        × (hpexpireat redis server (raw key) n (singles fields) option
            ≡ answer (ascii "HPEXPIREAT", key, some n, option, fields))
        × (hexpiretime redis server (raw key) (singles fields)
            ≡ answer (ascii "HEXPIRETIME", key, none, none, fields))
        × (hpexpiretime redis server (raw key) (singles fields)
            ≡ answer (ascii "HPEXPIRETIME", key, none, none, fields))
        × (httl redis server (raw key) (singles fields)
            ≡ answer (ascii "HTTL", key, none, none, fields))
        × (hpttl redis server (raw key) (singles fields)
            ≡ answer (ascii "HPTTL", key, none, none, fields))
        × (hpersist redis server (raw key) (singles fields)
            ≡ answer (ascii "HPERSIST", key, none, none, fields))
  unfolding hexpire hexpireat hexpiretime hpexpire hpexpireat hpexpiretime httl hpttl hpersist
      hfield_expire takes_value
  hash_expiry_lem P serve key n option fields reads_int reads_count =
      let valued = λ (name : Bytes) (h : takes_value name ≡ true).
        ap (decoded (collect_i64 redis) serve) (
          read_expiry-valued read_int read_number redis reads_int fields reads_count name key n
            option h) in
      let plain = λ (name : Bytes) (h : takes_value name ≡ false).
        ap (decoded (collect_i64 redis) serve)
          (read_expiry-plain read_int read_number redis reads_int fields reads_count name key h) in
      (
        valued (ascii "HEXPIRE") refl,
        valued (ascii "HPEXPIRE") refl,
        valued (ascii "HEXPIREAT") refl,
        valued (ascii "HPEXPIREAT") refl,
        plain (ascii "HEXPIRETIME") refl,
        plain (ascii "HPEXPIRETIME") refl,
        plain (ascii "HTTL") refl,
        plain (ascii "HPTTL") refl,
        plain (ascii "HPERSIST") refl,
      )
