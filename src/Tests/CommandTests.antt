-- ===== src/Tests/CommandTests.antt =====
-- The commands of the extension traits against small servers.
use glide_rust.Base.{
  List, ℕ, ℤ, pos, negsuc, Bytes, ascii, bytes_eq, true, Option, none, some, [], ◌∷◌, ok, ◌≡◌, refl,
}
use glide_rust.Base.Io.{Io}
use glide_rust.Error.{GlideError}
use glide_rust.Redis.{raw, nil, int}
use glide_rust.Values.{to_i64}
use glide_rust.Commands.Answers.{answering, decoded}
use glide_rust.Commands.Options.{Limit}
use glide_rust.Commands.SortedSet.{
  ScoreBound, inclusive, exclusive, LexBound, lex_inclusive, lex_positive_infinity,
  zrangestore_by_lex, zrangestore_by_score,
}
use glide_rust.Commands.SortedSet.Ranges.{
  RangeRequest, read_lex, read_score, IsReadable, read_range, zrangestore_lem,
}
use glide_rust.Redis.{array, vec}
use glide_rust.Commands.Replies.Laws.{singles}
use glide_rust.Commands.SortedSet.{
  max_score, collect_bytes, collect_member_scores, zdiff, zdiff_withscores, zunion,
  zunion_withscores, zinter, zinter_withscores, zintercard, zdiffstore, zsetop_store,
}
use glide_rust.Commands.SortedSet.Combining.{
  Combination, Storing, plain, with_scores, ending_of, read_combination, read_storing,
}
use glide_rust.Commands.SortedSet.Laws.{combinations_lem}
use glide_rust.Tests.Samples.{Reply, redis}

abbrev pub read_int : Bytes → Option ℤ
read_int (n ∷ []) = some (pos n)
read_int (n ∷ m ∷ []) = some (negsuc n)
read_int _ = none

pub reads_int : (n : ℤ) → read_int (redis.int_arg n) ≡ some n
reads_int (pos n) = refl
reads_int (negsuc n) = refl

abbrev pub read_one : Bytes → Option ℕ
read_one (x ∷ []) = some x
read_one _ = none

-- A server that stores seven members for any range, and nothing for what it cannot read.
abbrev store : {B : Type 0} → Option (RangeRequest B) → Io ℕ GlideError Reply
store none w = (ok nil, w)
store (some asked) w = (ok (int (pos 7)), 7)

abbrev two_of : Option Limit
two_of = some (record { offset = pos 0; count = negsuc 0 })

abbrev low_word : LexBound
low_word = lex_inclusive (ascii "a")

abbrev low_score : ScoreBound ℕ
low_score = inclusive 5

abbrev high_score : ScoreBound ℕ
high_score = exclusive 9

low_score-IsReadable : IsReadable redis read_one low_score
unfolding ascii bytes_eq
low_score-IsReadable = ((refl, refl, refl), refl)

zrangestore_example :
    (zrangestore_by_lex redis
        (answering ℕ (read_range read_lex read_int "BYLEX") store)
        (raw (ascii "d"))
        (raw (ascii "s"))
        low_word
        lex_positive_infinity
        true
        two_of
        0
      ≡ decoded
          (to_i64 redis)
          store
          (some (record {
            destination = ascii "d";
            source = ascii "s";
            low = low_word;
            high = lex_positive_infinity;
            reversed = true;
            limit = two_of;
          }))
          0)
    × (zrangestore_by_score redis
          (answering ℕ (read_range (read_score read_one) read_int "BYSCORE") store)
          (raw (ascii "d"))
          (raw (ascii "s"))
          low_score
          high_score
          true
          two_of
          0
        ≡ decoded
            (to_i64 redis)
            store
            (some (record {
              destination = ascii "d";
              source = ascii "s";
              low = low_score;
              high = high_score;
              reversed = true;
              limit = two_of;
            }))
            0)
zrangestore_example =
    zrangestore_lem ℕ redis read_int read_one reads_int store store (ascii "d") (ascii "s") true
      two_of low_word lex_positive_infinity low_score high_score 0 low_score-IsReadable refl

abbrev three_keys : List Bytes
three_keys = ascii "LIMIT" ∷ ascii "AGGREGATE" ∷ ascii "z" ∷ []

abbrev read_count : Bytes → Option ℕ
read_count text = read_one text

-- A server that finds no member for any combination, and stores none.
abbrev find : Option Combination → Io ℕ GlideError Reply
find none w = (ok nil, w)
find (some asked) w = (ok (array (vec [])), w)

abbrev keep : Option Storing → Io ℕ GlideError Reply
keep none w = (ok nil, w)
keep (some asked) w = (ok (int (pos 0)), 0)

combinations_example :
    (zdiff redis (answering ℕ (read_combination read_int read_count) find) (singles three_keys)
      ≡ decoded (collect_bytes redis) find (some (ascii "ZDIFF", three_keys, none, plain)))
    × (zdiff_withscores redis
          (answering ℕ (read_combination read_int read_count) find)
          (singles three_keys)
        ≡ decoded
            (collect_member_scores redis)
            find
            (some (ascii "ZDIFF", three_keys, none, with_scores)))
    × (zunion redis
          (answering ℕ (read_combination read_int read_count) find)
          (singles three_keys)
          (some max_score)
        ≡ decoded
            (collect_bytes redis)
            find
            (some (ascii "ZUNION", three_keys, some max_score, plain)))
    × (zunion_withscores redis
          (answering ℕ (read_combination read_int read_count) find)
          (singles three_keys)
          (some max_score)
        ≡ decoded
            (collect_member_scores redis)
            find
            (some (ascii "ZUNION", three_keys, some max_score, with_scores)))
    × (zinter redis
          (answering ℕ (read_combination read_int read_count) find)
          (singles three_keys)
          (some max_score)
        ≡ decoded
            (collect_bytes redis)
            find
            (some (ascii "ZINTER", three_keys, some max_score, plain)))
    × (zinter_withscores redis
          (answering ℕ (read_combination read_int read_count) find)
          (singles three_keys)
          (some max_score)
        ≡ decoded
            (collect_member_scores redis)
            find
            (some (ascii "ZINTER", three_keys, some max_score, with_scores)))
    × (zintercard redis
          (answering ℕ (read_combination read_int read_count) find)
          (singles three_keys)
          (some (pos 2))
        ≡ decoded
            (to_i64 redis)
            find
            (some (ascii "ZINTERCARD", three_keys, none, ending_of (some (pos 2)))))
    × (zdiffstore redis
          (answering ℕ (read_storing read_int read_count) keep)
          (raw (ascii "d"))
          (singles three_keys)
        ≡ decoded
            (to_i64 redis)
            keep
            (some (ascii "ZDIFFSTORE", ascii "d", three_keys, none, plain)))
    × (zsetop_store redis
          (answering ℕ (read_storing read_int read_count) keep)
          (ascii "ZUNIONSTORE")
          (raw (ascii "d"))
          (singles three_keys)
          (some max_score)
        ≡ decoded
            (to_i64 redis)
            keep
            (some (ascii "ZUNIONSTORE", ascii "d", three_keys, some max_score, plain)))
combinations_example =
    combinations_lem ℕ redis read_int read_count find keep (ascii "ZUNIONSTORE") (ascii "d")
      three_keys (some max_score) (some (pos 2)) reads_int refl
