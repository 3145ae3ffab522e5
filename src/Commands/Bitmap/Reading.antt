-- ===== src/Commands/Bitmap/Reading.antt =====
-- The bit-field commands of src/commands/bitmap.rs against a server that takes them apart.
use glide_rust.Base.{
  ℤ, Bytes, ascii, bytes_eq, ◌==◌, Option, none, some, List, [], ◌∷◌, ◌++◌, map, ◌≡◌, refl, ap, ◌∙◌,
  arith, if◌then◌else◌, map_option,
}
use glide_rust.Base.Int.{show_nat}
use glide_rust.Base.Int.Parse.{parse_nat, parse_nat-show_nat, StartsWithDigit, show_nat_starts}
use glide_rust.Redis.{Redis, Cmd, raw, each}
use glide_rust.Commands.Bitmap.{
  BitEncoding, signed, unsigned, BitFieldOffset, bit, multiplier, BitOverflow, wrap, saturate, fail,
  BitFieldSubcommand, get, put, increment_by, overflow, encoding_arg, offset_arg, overflow_word,
  subcommand_args, bitfield_cmd,
}

-- A server's reading of an encoding, of an offset and of an overflow policy.
unfoldable pub read_encoding : Bytes → Option BitEncoding
read_encoding [] = none
read_encoding (c ∷ digits) =
    if c == b'i'
    then map_option signed (parse_nat digits)
    else if c == b'u'
    then map_option unsigned (parse_nat digits)
    else none

unfoldable pub read_offset : Bytes → Option BitFieldOffset
read_offset [] = none
read_offset (c ∷ digits) =
    if c == b'#'
    then map_option multiplier (parse_nat digits)
    else map_option bit (parse_nat (c ∷ digits))

unfoldable pub read_overflow : Bytes → Option BitOverflow
read_overflow word =
    if bytes_eq word (ascii "WRAP")
    then some wrap
    else if bytes_eq word (ascii "SAT")
    then some saturate
    else if bytes_eq word (ascii "FAIL")
    then some fail
    else none

-- What is still to come of a subcommand: the two that take a value are told apart by their
-- constructor.
pub data Pending : Type 0 where
  at_start at_overflow get_encoding : Pending
  get_offset : BitEncoding → Pending
  value_encoding : (BitEncoding → BitFieldOffset → ℤ → BitFieldSubcommand) → Pending
  value_offset : (BitEncoding → BitFieldOffset → ℤ → BitFieldSubcommand) → BitEncoding → Pending
  value : (ℤ → BitFieldSubcommand) → Pending

module _ (read_int : Bytes → Option ℤ) where
  -- The words after the key, one at a time.
  unfoldable pub read_words : Pending → List Bytes → Option (List BitFieldSubcommand)
  unfolding read_encoding read_offset read_overflow
  read_words at_start [] = some []
  read_words at_start (word ∷ words) =
      let as_get = read_words get_encoding words in
      let as_put = read_words (value_encoding put) words in
      let as_increment = read_words (value_encoding increment_by) words in
      let as_overflow = read_words at_overflow words in
      if bytes_eq word (ascii "GET")
      then as_get
      else if bytes_eq word (ascii "SET")
      then as_put
      else if bytes_eq word (ascii "INCRBY")
      then as_increment
      else if bytes_eq word (ascii "OVERFLOW")
      then as_overflow
      else none
  read_words at_overflow (word ∷ words) = elim (read_overflow word) [
    | none ↦ none
    | some o ↦ map_option (λ l. overflow o ∷ l) (read_words at_start words)
  ]
  read_words get_encoding (word ∷ words) = elim (read_encoding word) [
    | none ↦ none
    | some e ↦ read_words (get_offset e) words
  ]
  read_words (get_offset e) (word ∷ words) = elim (read_offset word) [
    | none ↦ none
    | some o ↦ map_option (λ l. get e o ∷ l) (read_words at_start words)
  ]
  read_words (value_encoding op) (word ∷ words) = elim (read_encoding word) [
    | none ↦ none
    | some e ↦ read_words (value_offset op e) words
  ]
  read_words (value_offset op e) (word ∷ words) = elim (read_offset word) [
    | none ↦ none
    | some o ↦ read_words (value (op e o)) words
  ]
  read_words (value op) (word ∷ words) = elim (read_int word) [
    | none ↦ none
    | some n ↦ map_option (λ l. op n ∷ l) (read_words at_start words)
  ]
  read_words _ [] = none

  -- The command, the key, and the subcommands.
  unfoldable pub read_bitfield : Cmd → Option (Bytes × Bytes × List BitFieldSubcommand)
  unfolding read_words
  read_bitfield (name ∷ key ∷ words) =
      map_option (λ subcommands. (name, key, subcommands)) (read_words at_start words)
  read_bitfield _ = none

read_encoding-encoding_arg : (e : BitEncoding) → read_encoding (encoding_arg e) ≡ some e
unfolding read_encoding encoding_arg
read_encoding-encoding_arg (signed n) = rw (parse_nat-show_nat n) refl
read_encoding-encoding_arg (unsigned n) = rw (parse_nat-show_nat n) refl

-- What starts with a digit is no multiplier.
unmarked :
    (text : Bytes) → StartsWithDigit text → read_offset text ≡ map_option bit (parse_nat text)
unfolding read_offset
unmarked [] h = absurd h
unmarked (c ∷ digits) (low, high) = ground (arith, low, high)

read_offset-offset_arg : (o : BitFieldOffset) → read_offset (offset_arg o) ≡ some o
unfolding read_offset offset_arg
read_offset-offset_arg (bit n) =
    unmarked (show_nat n) (show_nat_starts n) ∙ rw (parse_nat-show_nat n) refl
read_offset-offset_arg (multiplier n) = rw (parse_nat-show_nat n) refl

module _ {F O : Type 0} (redis : Redis F O) (read_int : Bytes → Option ℤ)
    (reads_int : (n : ℤ) → read_int (redis.int_arg n) ≡ some n) where
  -- A subcommand in front of other words.
  read_words-subcommand_args :
      (s : BitFieldSubcommand) (rest : List Bytes)
      → read_words read_int at_start (subcommand_args redis s ++ rest)
        ≡ map_option (λ l. s ∷ l) (read_words read_int at_start rest)
  unfolding subcommand_args read_words read_overflow overflow_word bytes_eq ascii
  read_words-subcommand_args (get e o) rest =
      rw (read_encoding-encoding_arg e, read_offset-offset_arg o) refl
  read_words-subcommand_args (put e o n) rest =
      rw (read_encoding-encoding_arg e, read_offset-offset_arg o, reads_int n) refl
  read_words-subcommand_args (increment_by e o n) rest =
      rw (read_encoding-encoding_arg e, read_offset-offset_arg o, reads_int n) refl
  read_words-subcommand_args (overflow wrap) rest = refl
  read_words-subcommand_args (overflow saturate) rest = refl
  read_words-subcommand_args (overflow fail) rest = refl

  read_words-each :
      (subcommands : List BitFieldSubcommand)
      → read_words read_int at_start (each (map (subcommand_args redis) subcommands))
        ≡ some subcommands
  unfolding read_words
  read_words-each [] = refl
  read_words-each (s ∷ subcommands) =
      read_words-subcommand_args s (each (map (subcommand_args redis) subcommands))
      ∙ ap (λ r. map_option (λ l. s ∷ l) r) (read_words-each subcommands)

  pub read_bitfield-bitfield_cmd :
      (name key : Bytes) (subcommands : List BitFieldSubcommand)
      → read_bitfield read_int (bitfield_cmd redis name (raw key) subcommands)
        ≡ some (name, key, subcommands)
  unfolding read_bitfield bitfield_cmd
  read_bitfield-bitfield_cmd name key subcommands =
      ap (λ r. map_option (λ l. (name, key, l)) r) (read_words-each subcommands)
