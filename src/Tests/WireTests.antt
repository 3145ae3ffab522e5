-- ===== src/Tests/WireTests.antt =====
-- Scripts, bit fields and the expiry of hash fields against servers that take the commands apart.
use glide_rust.Base.{
  ℕ, ℤ, pos, negsuc, Bytes, ascii, Option, none, some, List, [], ◌∷◌, ok, ◌≡◌, refl,
}
use glide_rust.Base.Io.{Io}
use glide_rust.Error.{GlideError}
use glide_rust.Redis.{raw, array, vec, nil, int}
use glide_rust.Routes.{Topology, RoutingInfo, all_primaries, to_routing_info}
use glide_rust.Values.{to_i64, to_opt_bytes}
use glide_rust.Commands.Answers.{answering, decoded}
use glide_rust.Commands.Replies.{items_or_one}
use glide_rust.Commands.Hash.{collect_i64}
use glide_rust.Commands.Options.{ExpireOptions, has_no_expiry}
use glide_rust.Commands.Replies.Laws.{singles}
use glide_rust.Commands.Scripting.{
  invoke_cmd, eval, evalsha, fcall, fcall_ro, fcall_route, fcall_ro_route,
}
use glide_rust.Commands.Scripting.Laws.{Call, calling, calls_lem}
use glide_rust.Commands.Bitmap.{
  BitFieldSubcommand, get, increment_by, overflow, fail, unsigned, signed, bit, multiplier,
  bitfield, bitfield_readonly,
}
use glide_rust.Commands.Bitmap.Laws.{carrying_out, bitfield_lem}
use glide_rust.Commands.Hash.{
  hexpire, hexpireat, hexpiretime, hpexpire, hpexpireat, hpexpiretime, httl, hpttl, hpersist,
}
use glide_rust.Commands.Hash.Expiry.{ExpiryRequest, read_expiry}
use glide_rust.Commands.Hash.Laws.{hash_expiry_lem}
use glide_rust.Commands.Options.{milliseconds, only_if_none_exist}
use glide_rust.Commands.Hash.{hsetex, hgetex}
use glide_rust.Commands.Hash.Setting.{SetRequest, GetRequest, read_hsetex, read_hgetex}
use glide_rust.Commands.Hash.Fields.{raws, hash_fields_lem}
use glide_rust.Tests.CommandTests.{read_int, reads_int, read_one}
use glide_rust.Tests.Samples.{Reply, redis, redis-IsExact}

abbrev two_keys : List Bytes
two_keys = ascii "k" ∷ ascii "l" ∷ []

abbrev one_arg : List Bytes
one_arg = ascii "a" ∷ []

abbrev somewhere : Topology ℕ
somewhere = record { command = λ cmd. none; for_command = λ name. some 1; get_slot = λ key. 7 }

abbrev run_call : Option Call → Option (RoutingInfo ℕ) → Io ℕ GlideError Reply
run_call none routing w = (ok nil, w)
run_call (some asked) routing w = (ok (int (pos 1)), 1)

abbrev lowered : Bytes → RoutingInfo ℕ
lowered name =
    to_routing_info somewhere all_primaries
      (some (invoke_cmd redis name (ascii "f") (singles two_keys) (singles one_arg)))

calls_example :
    (eval redis (calling redis read_one run_call) (ascii "f") (singles two_keys) (singles one_arg)
      ≡ run_call (some (ascii "EVAL", ascii "f", two_keys, one_arg)) none)
    × (evalsha redis
          (calling redis read_one run_call)
          (ascii "f")
          (singles two_keys)
          (singles one_arg)
        ≡ run_call (some (ascii "EVALSHA", ascii "f", two_keys, one_arg)) none)
    × (fcall redis
          (calling redis read_one run_call)
          (ascii "f")
          (singles two_keys)
          (singles one_arg)
        ≡ run_call (some (ascii "FCALL", ascii "f", two_keys, one_arg)) none)
    × (fcall_ro redis
          (calling redis read_one run_call)
          (ascii "f")
          (singles two_keys)
          (singles one_arg)
        ≡ run_call (some (ascii "FCALL_RO", ascii "f", two_keys, one_arg)) none)
    × (fcall_route redis
          (calling redis read_one run_call)
          somewhere
          (ascii "f")
          (singles two_keys)
          (singles one_arg)
          all_primaries
        ≡ run_call
            (some (ascii "FCALL", ascii "f", two_keys, one_arg))
            (some (lowered (ascii "FCALL"))))
    × (fcall_ro_route redis
          (calling redis read_one run_call)
          somewhere
          (ascii "f")
          (singles two_keys)
          (singles one_arg)
          all_primaries
        ≡ run_call
            (some (ascii "FCALL_RO", ascii "f", two_keys, one_arg))
            (some (lowered (ascii "FCALL_RO"))))
calls_example =
    calls_lem redis somewhere read_one run_call (ascii "f") two_keys one_arg all_primaries refl

-- A server whose increments all overflow.
abbrev subcommands : List BitFieldSubcommand
subcommands =
    get (unsigned 8) (multiplier 12)
    ∷ overflow fail
    ∷ increment_by (signed 5) (bit 100) (negsuc 1)
    ∷ []

abbrev carry : Option (Bytes × Bytes × List BitFieldSubcommand) → ℕ → List (Option ℤ) × ℕ
carry none w = ([], w)
carry (some asked) w = (some (pos 4) ∷ none ∷ [], 5)

bitfield_example :
    (bitfield redis
        (carrying_out redis read_int reads_int {P = ℕ} carry)
        (raw (ascii "b"))
        subcommands
        0
      ≡ (ok (some (pos 4) ∷ none ∷ []), 5))
    × (bitfield_readonly redis
          (carrying_out redis read_int reads_int {P = ℕ} carry)
          (raw (ascii "b"))
          subcommands
          0
        ≡ (ok (some (pos 4) ∷ none ∷ []), 5))
bitfield_example =
    bitfield_lem redis read_int reads_int redis-IsExact ℕ carry (ascii "b") subcommands 0

abbrev set_codes : Option ExpiryRequest → Io ℕ GlideError Reply
set_codes none w = (ok nil, w)
set_codes (some asked) w = (ok (array (vec (int (pos 1) ∷ int (negsuc 1) ∷ []))), 3)

abbrev unless_set : Option ExpireOptions
unless_set = some has_no_expiry

hash_expiry_example :
    (hexpire redis
        (answering ℕ (read_expiry read_int read_one) set_codes)
        (raw (ascii "h"))
        (pos 60)
        (singles two_keys)
        unless_set
      ≡ decoded
          (collect_i64 redis)
          set_codes
          (some (ascii "HEXPIRE", ascii "h", some (pos 60), unless_set, two_keys)))
    × (hpexpire redis
          (answering ℕ (read_expiry read_int read_one) set_codes)
          (raw (ascii "h"))
          (pos 60)
          (singles two_keys)
          unless_set
        ≡ decoded
            (collect_i64 redis)
            set_codes
            (some (ascii "HPEXPIRE", ascii "h", some (pos 60), unless_set, two_keys)))
    × (hexpireat redis
          (answering ℕ (read_expiry read_int read_one) set_codes)
          (raw (ascii "h"))
          (pos 60)
          (singles two_keys)
          unless_set
        ≡ decoded
            (collect_i64 redis)
            set_codes
            (some (ascii "HEXPIREAT", ascii "h", some (pos 60), unless_set, two_keys)))
    × (hpexpireat redis
          (answering ℕ (read_expiry read_int read_one) set_codes)
          (raw (ascii "h"))
          (pos 60)
          (singles two_keys)
          unless_set
        ≡ decoded
            (collect_i64 redis)
            set_codes
            (some (ascii "HPEXPIREAT", ascii "h", some (pos 60), unless_set, two_keys)))
    × (hexpiretime redis
          (answering ℕ (read_expiry read_int read_one) set_codes)
          (raw (ascii "h"))
          (singles two_keys)
        ≡ decoded
            (collect_i64 redis)
            set_codes
            (some (ascii "HEXPIRETIME", ascii "h", none, none, two_keys)))
    × (hpexpiretime redis
          (answering ℕ (read_expiry read_int read_one) set_codes)
          (raw (ascii "h"))
          (singles two_keys)
        ≡ decoded
            (collect_i64 redis)
            set_codes
            (some (ascii "HPEXPIRETIME", ascii "h", none, none, two_keys)))
    × (httl redis
          (answering ℕ (read_expiry read_int read_one) set_codes)
          (raw (ascii "h"))
          (singles two_keys)
        ≡ decoded
            (collect_i64 redis)
            set_codes
            (some (ascii "HTTL", ascii "h", none, none, two_keys)))
    × (hpttl redis
          (answering ℕ (read_expiry read_int read_one) set_codes)
          (raw (ascii "h"))
          (singles two_keys)
        ≡ decoded
            (collect_i64 redis)
            set_codes
            (some (ascii "HPTTL", ascii "h", none, none, two_keys)))
    × (hpersist redis
          (answering ℕ (read_expiry read_int read_one) set_codes)
          (raw (ascii "h"))
          (singles two_keys)
        ≡ decoded
            (collect_i64 redis)
            set_codes
            (some (ascii "HPERSIST", ascii "h", none, none, two_keys)))
hash_expiry_example =
    hash_expiry_lem read_int read_one redis ℕ set_codes (ascii "h") (pos 60) unless_set two_keys
      reads_int refl

-- Servers that set and give every field that they are asked for.
abbrev set_all : Option SetRequest → Io ℕ GlideError Reply
set_all none w = (ok nil, w)
set_all (some asked) w = (ok (int (pos 1)), 1)

abbrev give_none : Option GetRequest → Io ℕ GlideError Reply
give_none none w = (ok nil, w)
give_none (some asked) w = (ok (array (vec (nil ∷ []))), w)

abbrev count_of_one : Bytes → Option ℕ
count_of_one (x ∷ []) = some x
count_of_one _ = none

abbrev new_fields : List (Bytes × Bytes)
new_fields = (ascii "f", ascii "v") ∷ (ascii "EX", ascii "FIELDS") ∷ []

hash_fields_example :
    (hsetex redis
        (answering ℕ (read_hsetex count_of_one) set_all)
        (raw (ascii "h"))
        (raws new_fields)
        (some only_if_none_exist)
        (some (milliseconds 1500))
      ≡ decoded
          (to_i64 redis)
          set_all
          (some (ascii "h", some only_if_none_exist, some (milliseconds 1500), new_fields)))
    × (hgetex redis
          (answering ℕ (read_hgetex count_of_one) give_none)
          (raw (ascii "h"))
          (singles two_keys)
          (some (milliseconds 1500))
        ≡ decoded
            (items_or_one (to_opt_bytes redis))
            give_none
            (some (ascii "h", some (milliseconds 1500), two_keys)))
hash_fields_example =
    hash_fields_lem redis count_of_one (λ n. refl) ℕ set_all give_none (ascii "h") new_fields
      two_keys (some only_if_none_exist) (some (milliseconds 1500))
