-- ===== src/Commands/SortedSet/Ranges.antt =====
-- The stores by range of src/commands/sorted_set.rs against a server that takes the command apart.
use glide_rust.Base.{
  ℤ, Bytes, ascii, String, bytes_eq, bytes_eq_refl, ◌==◌, Bool, true, false, ◌&&◌, Option, none,
  some, List, [], ◌∷◌, ◌≡◌, refl, ap, ◌∙◌, is_empty, if◌then◌else◌,
}
use glide_rust.Base.Io.{Io}
use glide_rust.Error.{GlideError}
use glide_rust.Redis.{Value, Redis, Cmd, raw}
use glide_rust.Values.{to_i64}
use glide_rust.Commands.Answers.{answering, decoded}
use glide_rust.Commands.Options.{Limit}
use glide_rust.Commands.SortedSet.{
  ScoreBound, negative_infinity, positive_infinity, inclusive, exclusive, LexBound,
  lex_negative_infinity, lex_positive_infinity, lex_inclusive, lex_exclusive, lex_arg, score_arg,
  zrangestore_cmd, zrangestore_by_lex, zrangestore_by_score,
}

-- What a store by range asks for.
pub record RangeRequest (B : Type 0) : Type 0 where
  pub destination : Bytes
  pub source : Bytes
  pub low : B
  pub high : B
  pub reversed : Bool
  pub limit : Option Limit

-- A server's reading of a bound of a range by words, and of a range by scores.
unfoldable pub read_lex : Bytes → Option LexBound
read_lex [] = none
read_lex (c ∷ v) =
    if c == b'['
    then some (lex_inclusive v)
    else if c == b'('
    then some (lex_exclusive v)
    else if (c == b'-') && is_empty v
    then some lex_negative_infinity
    else if (c == b'+') && is_empty v
    then some lex_positive_infinity
    else none

abbrev map_bound : {F : Type 0} → (F → ScoreBound F) → Option F → Option (ScoreBound F)
map_bound f none = none
map_bound f (some x) = some (f x)

unfoldable pub read_score : {F : Type 0} → (Bytes → Option F) → Bytes → Option (ScoreBound F)
read_score read_float [] = none
read_score read_float (c ∷ v) =
    if bytes_eq (c ∷ v) (ascii "-inf")
    then some negative_infinity
    else if bytes_eq (c ∷ v) (ascii "+inf")
    then some positive_infinity
    else if c == b'('
    then map_bound exclusive (read_float v)
    else map_bound inclusive (read_float (c ∷ v))

-- The words after the two bounds and `BYLEX` or `BYSCORE`: `REV`, then `LIMIT offset count`.
abbrev read_reversed : List Bytes → Bool × List Bytes
read_reversed [] = (false, [])
read_reversed (word ∷ words) =
    if bytes_eq word (ascii "REV") then (true, words) else (false, word ∷ words)

abbrev both : Option ℤ → Option ℤ → Option (Option Limit)
both (some offset) (some count) = some (some (record { offset = offset; count = count }))
both _ _ = none

abbrev read_limit : (Bytes → Option ℤ) → List Bytes → Option (Option Limit)
read_limit read_int [] = some none
read_limit read_int (word ∷ offset ∷ count ∷ []) =
    if bytes_eq word (ascii "LIMIT") then both (read_int offset) (read_int count) else none
read_limit read_int _ = none

abbrev request :
    {B : Type 0}
    → Bytes
    → Bytes
    → Bool
    → Option B
    → Option B
    → Option (Option Limit)
    → Option (RangeRequest B)
request destination source reversed (some first) (some second) (some limit) = some (record {
  destination = destination;
  source = source;
  low = if reversed then second else first;
  high = if reversed then first else second;
  reversed = reversed;
  limit = limit;
})
request _ _ _ _ _ _ = none

-- A server's reading of `ZRANGESTORE`. With `REV`, the first bound is the high one.
unfoldable pub read_range :
    {B : Type 0} → (Bytes → Option B) → (Bytes → Option ℤ) → String → Cmd → Option (RangeRequest B)
read_range read_bound read_int by (name ∷ dst ∷ src ∷ first ∷ second ∷ word ∷ words) =
    let (reversed, rest) = read_reversed words in
    if bytes_eq name (ascii "ZRANGESTORE") && bytes_eq word (ascii by)
    then request dst src reversed (read_bound first) (read_bound second) (read_limit read_int rest)
    else none
read_range read_bound read_int by _ = none

module _ {F O : Type 0} (redis : Redis F O) (read_int : Bytes → Option ℤ)
    (reads_int : (n : ℤ) → read_int (redis.int_arg n) ≡ some n) where
  module _ {B : Type 0} (to_arg : B → Bytes) (read_bound : Bytes → Option B) (by : String)
      (destination source : Bytes) where
    read_range-cmd :
        (low high : B)
        → read_bound (to_arg low) ≡ some low
        → read_bound (to_arg high) ≡ some high
        → (reversed : Bool) (limit : Option Limit)
        → read_range read_bound read_int by
            (zrangestore_cmd redis to_arg by (raw destination) (raw source) low high reversed limit)
          ≡ some (record {
            destination = destination;
            source = source;
            low = low;
            high = high;
            reversed = reversed;
            limit = limit;
          })
    unfolding read_range zrangestore_cmd bytes_eq ascii
    read_range-cmd low high l h true none = rw (bytes_eq_refl (ascii by), l, h) refl
    read_range-cmd low high l h false none = rw (bytes_eq_refl (ascii by), l, h) refl
    read_range-cmd low high l h true (some limit) =
        rw (bytes_eq_refl (ascii by), l, h, reads_int limit.offset, reads_int limit.count) refl
    read_range-cmd low high l h false (some limit) =
        rw (bytes_eq_refl (ascii by), l, h, reads_int limit.offset, reads_int limit.count) refl

read_lex-lex_arg : (b : LexBound) → read_lex (lex_arg b) ≡ some b
unfolding read_lex lex_arg
read_lex-lex_arg lex_negative_infinity = refl
read_lex-lex_arg lex_positive_infinity = refl
read_lex-lex_arg (lex_inclusive v) = refl
read_lex-lex_arg (lex_exclusive v) = refl

-- A text that is no infinity and no exclusive bound, as that of a finite number.
abbrev IsPlain : Bytes → Type 0
IsPlain [] = ⊥
IsPlain (c ∷ v) =
    (bytes_eq (c ∷ v) (ascii "-inf") ≡ false)
    × (bytes_eq (c ∷ v) (ascii "+inf") ≡ false)
    × ((c == b'(') ≡ false)

-- A bound whose number the server reads back, and which is finite if it is inclusive.
abbrev pub IsReadable : {F O : Type 0} → Redis F O → (Bytes → Option F) → ScoreBound F → Type 0
IsReadable redis read_float (inclusive x) =
    IsPlain (redis.show_float x) × (read_float (redis.show_float x) ≡ some x)
IsReadable redis read_float (exclusive x) = read_float (redis.show_float x) ≡ some x
IsReadable redis read_float _ = Unit

read_score_plain :
    {F : Type 0} (read_float : Bytes → Option F) (text : Bytes)
    → IsPlain text
    → read_score read_float text ≡ map_bound inclusive (read_float text)
unfolding read_score
read_score_plain read_float [] h = absurd h
read_score_plain read_float (c ∷ v) (low, high, opening) = rw (low, high, opening) refl

read_score-score_arg :
    {F O : Type 0} (redis : Redis F O) (read_float : Bytes → Option F) (b : ScoreBound F)
    → IsReadable redis read_float b
    → read_score read_float (score_arg redis b) ≡ some b
unfolding read_score score_arg bytes_eq ascii
read_score-score_arg redis read_float negative_infinity h = refl
read_score-score_arg redis read_float positive_infinity h = refl
read_score-score_arg redis read_float (inclusive x) (plain, h) =
    read_score_plain read_float (redis.show_float x) plain ∙ rw h refl
read_score-score_arg redis read_float (exclusive x) h = rw h refl

module _ (P : Type 0) {F O W : Type 0} (redis : Redis F O) (read_int : Bytes → Option ℤ)
    (read_float : Bytes → Option F)
    (reads_int : (n : ℤ) → read_int (redis.int_arg n) ≡ some n) where
  -- The stores by words and by scores give what a server answers to exactly the request of the call
  -- (destination, source, low and high bound, direction and limit), whose low bound is `low` and
  -- whose high bound is `high` also for a reversed range, where the server takes the high bound
  -- first. The server knows both as `ZRANGESTORE`, and reads back the numbers that are written.
  pub zrangestore_lem :
      (serve_lex : Option (RangeRequest LexBound) → Io W GlideError (Value F O))
      (serve_score : Option (RangeRequest (ScoreBound F)) → Io W GlideError (Value F O))
      (destination source : Bytes) (reversed : Bool) (limit : Option Limit) (l h : LexBound)
      (low high : ScoreBound F) (w : W)
      → IsReadable redis read_float low
      → IsReadable redis read_float high
      → (zrangestore_by_lex redis
            (answering P (read_range read_lex read_int "BYLEX") serve_lex)
            (raw destination)
            (raw source)
            l
            h
            reversed
            limit
            w
          ≡ decoded
              (to_i64 redis)
              serve_lex
              (some (record {
                destination = destination;
                source = source;
                low = l;
                high = h;
                reversed = reversed;
                limit = limit;
              }))
              w)
        × (zrangestore_by_score redis
              (answering P (read_range (read_score read_float) read_int "BYSCORE") serve_score)
              (raw destination)
              (raw source)
              low
              high
              reversed
              limit
              w
            ≡ decoded
                (to_i64 redis)
                serve_score
                (some (record {
                  destination = destination;
                  source = source;
                  low = low;
                  high = high;
                  reversed = reversed;
                  limit = limit;
                }))
                w)
  unfolding zrangestore_by_lex zrangestore_by_score
  zrangestore_lem serve_lex serve_score dst src reversed limit l h low high w low_ok high_ok = (
    ap (λ asked. decoded (to_i64 redis) serve_lex asked w)
        (read_range-cmd redis read_int reads_int lex_arg read_lex "BYLEX" dst src l h
          (read_lex-lex_arg l) (read_lex-lex_arg h) reversed limit),
    ap (λ asked. decoded (to_i64 redis) serve_score asked w)
        (read_range-cmd redis read_int reads_int (score_arg redis) (read_score read_float) "BYSCORE"
          dst src low high (read_score-score_arg redis read_float low low_ok)
          (read_score-score_arg redis read_float high high_ok) reversed limit),
  )
