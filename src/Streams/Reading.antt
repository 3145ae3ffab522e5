-- ===== src/Streams/Reading.antt =====
-- `xread` of src/commands/stream.rs against a server that takes the command apart.
use glide_rust.Base.{
  ℤ, ◌/◌, Bytes, ascii, bytes_eq, Option, none, some, List, [], ◌∷◌, ◌++◌, map, ◌≡◌, refl, ◌∙◌,
  length, take, drop, if◌then◌else◌,
}
use glide_rust.Redis.{Redis, Args, Cmd, kw, raw, opt}
use glide_rust.Streams.Options.{StreamReadOptions, opt_int, read_args}

-- What an `XREAD` asks for: how long to wait, how many entries, and the keys and the ids.
abbrev pub Request : Type 0
Request = Option ℤ × Option ℤ × List Bytes × List Bytes

-- The first half of what follows `STREAMS` are the keys.
abbrev pub halves : Option ℤ → Option ℤ → List Bytes → Request
halves block count rest = (block, count, take (length rest / 2) rest, drop (length rest / 2) rest)

-- A server's reading of the words after `XREAD`: options in any order, then `STREAMS`.
unfoldable pub read_words : (Bytes → Option ℤ) → Option ℤ → Option ℤ → List Bytes → Option Request
read_words read_int block count [] = none
read_words read_int block count (word ∷ []) =
    if bytes_eq word (ascii "STREAMS") then some (halves block count []) else none
read_words read_int block count (word ∷ value ∷ rest) =
    let as_block = read_words read_int (read_int value) count rest in
    let as_count = read_words read_int block (read_int value) rest in
    if bytes_eq word (ascii "STREAMS")
    then some (halves block count (value ∷ rest))
    else if bytes_eq word (ascii "BLOCK")
    then as_block
    else if bytes_eq word (ascii "COUNT")
    then as_count
    else none

unfoldable pub read_xread : (Bytes → Option ℤ) → Cmd → Option Request
unfolding read_words
read_xread read_int [] = none
read_xread read_int (name ∷ words) =
    if bytes_eq name (ascii "XREAD") then read_words read_int none none words else none

abbrev pub block_of : Option StreamReadOptions → Option ℤ
block_of none = none
block_of (some o) = o.block_ms

abbrev pub count_of : Option StreamReadOptions → Option ℤ
count_of none = none
count_of (some o) = o.count

-- A key that is one argument.
abbrev pub single : List (Bytes × Bytes) → List (Args × Bytes)
single keys_ids = map (λ k. (raw k.0, k.1)) keys_ids

abbrev pub keys : List (Bytes × Bytes) → List Bytes
keys keys_ids = map (λ k. k.0) keys_ids

abbrev pub ids : List (Bytes × Bytes) → List Bytes
ids keys_ids = map (λ k. k.1) keys_ids

module _ (read_int : Bytes → Option ℤ) where
  at_streams :
      (block count : Option ℤ) (rest : List Bytes)
      → read_words read_int block count (ascii "STREAMS" ∷ rest) ≡ some (halves block count rest)
  unfolding read_words bytes_eq ascii
  at_streams block count [] = refl
  at_streams block count (x ∷ rest) = refl

  at_block :
      (block count : Option ℤ) (value : Bytes) (rest : List Bytes)
      → read_words read_int block count (ascii "BLOCK" ∷ value ∷ rest)
        ≡ read_words read_int (read_int value) count rest
  unfolding read_words bytes_eq ascii
  at_block block count value rest = refl

  at_count :
      (block count : Option ℤ) (value : Bytes) (rest : List Bytes)
      → read_words read_int block count (ascii "COUNT" ∷ value ∷ rest)
        ≡ read_words read_int block (read_int value) rest
  unfolding read_words bytes_eq ascii
  at_count block count value rest = refl

  module _ {F O : Type 0} (redis : Redis F O)
      (reads : (n : ℤ) → read_int (redis.int_arg n) ≡ some n) where
    counted :
        (block count : Option ℤ) (rest : List Bytes)
        → read_words read_int block none (opt_int redis count (kw "COUNT") ++ kw "STREAMS" ++ rest)
          ≡ some (halves block count rest)
    counted block none rest = at_streams block none rest
    counted block (some n) rest =
        at_count block none (redis.int_arg n) (kw "STREAMS" ++ rest)
        ∙ rw (reads n) (at_streams block (some n) rest)

    blocked :
        (block count : Option ℤ) (rest : List Bytes)
        → read_words read_int none none (
            opt_int redis block (kw "BLOCK")
            ++ opt_int redis count (kw "COUNT")
            ++ kw "STREAMS"
            ++ rest)
          ≡ some (halves block count rest)
    blocked none count rest = counted none count rest
    blocked (some n) count rest =
        at_block none none (redis.int_arg n)
          (opt_int redis count (kw "COUNT") ++ kw "STREAMS" ++ rest)
        ∙ rw (reads n) (counted (some n) count rest)

    -- The options, and then the streams.
    read_options :
        (options : Option StreamReadOptions) (rest : List Bytes)
        → read_xread read_int (kw "XREAD" ++ opt options (read_args redis) ++ kw "STREAMS" ++ rest)
          ≡ some (halves (block_of options) (count_of options) rest)
    unfolding read_xread read_args bytes_eq ascii
    read_options none rest = blocked none none rest
    read_options (some o) rest = blocked o.block_ms o.count rest
