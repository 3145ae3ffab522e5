-- ===== src/Commands/Bitmap.antt =====
-- src/commands/bitmap.rs: bit encodings, offsets and subcommands, and the commands on bitmaps.
pub mod Reading
pub mod Laws
use glide_rust.Base.{ℕ, ℤ, Bytes, ascii, Option, none, some, List, [], ◌∷◌, ◌++◌, map, ok}
use glide_rust.Base.Fallible.{map_ok, collect}
use glide_rust.Base.Int.{show_nat}
use glide_rust.Base.Io.{Io}
use glide_rust.Redis.{Value, nil, array, elems, Redis, Args, Cmd, kw, raw, each, opt}
use glide_rust.Error.{GlideError, GlideResult}
use glide_rust.Values.{to_i64}
use glide_rust.Executor.{CommandExecutor, call}
use glide_rust.Commands.Options.{int_of, nat_of}

pub data BitmapIndexType : Type 0 where
  bytewise bitwise : BitmapIndexType

unfoldable pub index_type_word : BitmapIndexType → Args
index_type_word bytewise = kw "BYTE"
index_type_word bitwise = kw "BIT"

pub data BitEncoding : Type 0 where
  signed unsigned : ℕ → BitEncoding

unfoldable pub encoding_arg : BitEncoding → Bytes
unfolding show_nat
encoding_arg (signed n) = b'i' ∷ show_nat n
encoding_arg (unsigned n) = b'u' ∷ show_nat n

pub data BitFieldOffset : Type 0 where
  bit multiplier : ℕ → BitFieldOffset

unfoldable pub offset_arg : BitFieldOffset → Bytes
unfolding show_nat
offset_arg (bit n) = show_nat n
offset_arg (multiplier n) = b'#' ∷ show_nat n

pub data BitOverflow : Type 0 where
  wrap saturate fail : BitOverflow

unfoldable pub overflow_word : BitOverflow → Args
overflow_word wrap = kw "WRAP"
overflow_word saturate = kw "SAT"
overflow_word fail = kw "FAIL"

-- The fields of a variant in their order: the encoding, the offset, and the value or increment.
pub data BitFieldSubcommand : Type 0 where
  get : BitEncoding → BitFieldOffset → BitFieldSubcommand
  put increment_by : BitEncoding → BitFieldOffset → ℤ → BitFieldSubcommand
  overflow : BitOverflow → BitFieldSubcommand

module _ {F O : Type 0} (redis : Redis F O) where
  unfoldable pub subcommand_args : BitFieldSubcommand → Args
  unfolding encoding_arg offset_arg overflow_word
  subcommand_args (get encoding offset) =
      kw "GET" ++ raw (encoding_arg encoding) ++ raw (offset_arg offset)
  subcommand_args (put encoding offset value) =
      kw "SET" ++ raw (encoding_arg encoding) ++ raw (offset_arg offset) ++ int_of redis value
  subcommand_args (increment_by encoding offset increment) =
      kw "INCRBY"
      ++ raw (encoding_arg encoding)
      ++ raw (offset_arg offset)
      ++ int_of redis increment
  subcommand_args (overflow o) = kw "OVERFLOW" ++ overflow_word o

  -- The closure in `parse_bitfield`.
  unfoldable pub field_result : Value F O → GlideResult (Option ℤ)
  field_result nil = ok none
  field_result v = map_ok some (to_i64 redis v)

  unfoldable pub parse_bitfield : Value F O → GlideResult (List (Option ℤ))
  unfolding field_result
  parse_bitfield nil = ok []
  parse_bitfield (array vs) = collect field_result (elems vs)
  parse_bitfield v = map_ok (λ n. some n ∷ []) (to_i64 redis v)

  -- The loop over the subcommands after the name and the key.
  unfoldable pub bitfield_cmd : Bytes → Args → List BitFieldSubcommand → Cmd
  unfolding subcommand_args
  bitfield_cmd name key subcommands = raw name ++ key ++ each (map subcommand_args subcommands)

  module _ {P W : Type 0} (client : CommandExecutor F O P W) where
    -- A `u8` is written as a number.
    unfoldable pub bitpos : Args → ℕ → Io W GlideError ℤ
    bitpos key value = call client (kw "BITPOS" ++ key ++ nat_of redis value) (to_i64 redis)

    unfoldable pub bitpos_range : Args → ℕ → ℤ → ℤ → Option BitmapIndexType → Io W GlideError ℤ
    unfolding index_type_word
    bitpos_range key value start stop index_type =
        call client
          (kw "BITPOS"
            ++ key
            ++ nat_of redis value
            ++ int_of redis start
            ++ int_of redis stop
            ++ opt index_type index_type_word)
          (to_i64 redis)

    unfoldable pub bitfield : Args → List BitFieldSubcommand → Io W GlideError (List (Option ℤ))
    unfolding bitfield_cmd parse_bitfield
    bitfield key subcommands =
        call client (bitfield_cmd (ascii "BITFIELD") key subcommands) parse_bitfield

    unfoldable pub bitfield_readonly :
        Args → List BitFieldSubcommand → Io W GlideError (List (Option ℤ))
    unfolding bitfield_cmd parse_bitfield
    bitfield_readonly key subcommands =
        call client (bitfield_cmd (ascii "BITFIELD_RO") key subcommands) parse_bitfield
