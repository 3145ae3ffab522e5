-- ===== src/Commands/SortedSet.antt =====
-- src/commands/sorted_set.rs: the bounds of a range, the reply parsers, and the commands.
pub mod Laws
pub mod Ranges
pub mod Combining
use glide_rust.Base.{
  ℤ, Bytes, ascii, String, Bool, Option, none, some, List, [], ◌∷◌, ◌++◌, ok, if◌then◌else◌,
}
use glide_rust.Base.Fallible.{◌>>=◌, collect}
use glide_rust.Base.Io.{Io}
use glide_rust.Redis.{
  Value, nil, array, map, more, end, elems, entries, Redis, Args, Cmd, kw, raw, each, opt, flag,
}
use glide_rust.Error.{GlideError, GlideResult}
use glide_rust.Values.{to_bytes, to_i64, to_f64, to_opt_f64}
use glide_rust.Executor.{CommandExecutor, call}
use glide_rust.Commands.Options.{Limit, int_of, float_of, limit_args}
use glide_rust.Commands.Replies.{Pair, items_or_one, pairs_of_items, refuse, counted}

pub data ScoreBound (F : Type 0) : Type 0 where
  negative_infinity positive_infinity : ScoreBound F
  inclusive exclusive : F → ScoreBound F

pub data LexBound : Type 0 where
  lex_negative_infinity lex_positive_infinity : LexBound
  lex_inclusive lex_exclusive : Bytes → LexBound

unfoldable pub lex_arg : LexBound → Bytes
lex_arg lex_negative_infinity = b'-' ∷ []
lex_arg lex_positive_infinity = b'+' ∷ []
lex_arg (lex_inclusive v) = b'[' ∷ v
lex_arg (lex_exclusive v) = b'(' ∷ v

pub data AggregationType : Type 0 where
  sum_scores min_score max_score : AggregationType

unfoldable pub aggregation_word : AggregationType → Args
aggregation_word sum_scores = kw "SUM"
aggregation_word min_score = kw "MIN"
aggregation_word max_score = kw "MAX"

-- `if let Some(agg) = aggregate { … }`
unfoldable pub aggregate_args : Option AggregationType → Args
unfolding aggregation_word
aggregate_args o = opt o (λ a. kw "AGGREGATE" ++ aggregation_word a)

module _ {F O : Type 0} (redis : Redis F O) where
  unfoldable pub score_arg : ScoreBound F → Bytes
  score_arg negative_infinity = ascii "-inf"
  score_arg positive_infinity = ascii "+inf"
  score_arg (inclusive v) = redis.show_float v
  score_arg (exclusive v) = b'(' ∷ redis.show_float v

  unfoldable pub collect_bytes : Value F O → GlideResult (List Bytes)
  collect_bytes v = items_or_one (to_bytes redis) v

  -- A member with its score: a nested pair is taken apart from its end, score first.
  unfoldable pub nested_score : Pair F O → GlideResult (Bytes × F)
  nested_score (m, s) = do score ← to_f64 redis s; member ← to_bytes redis m; ok (member, score)

  unfoldable pub flat_score : Pair F O → GlideResult (Bytes × F)
  flat_score (m, s) = do member ← to_bytes redis m; score ← to_f64 redis s; ok (member, score)

  unfoldable pub collect_member_scores : Value F O → GlideResult (List (Bytes × F))
  unfolding nested_score flat_score pairs_of_items
  collect_member_scores nil = ok []
  collect_member_scores (map ps) = collect flat_score (entries ps)
  collect_member_scores (array vs) = pairs_of_items redis nested_score flat_score (elems vs)
  collect_member_scores v = refuse redis "unexpected sorted-set reply: " v

  unfoldable pub parse_rank_withscore : Value F O → GlideResult (Option (ℤ × F))
  parse_rank_withscore nil = ok none
  parse_rank_withscore (array (more r (more s end))) = do
    score ← to_f64 redis s
    rank ← to_i64 redis r
    ok (some (rank, score))
  parse_rank_withscore v = refuse redis "unexpected ZRANK WITHSCORE reply: " v

  -- The match on the reply in `bzpop`.
  unfoldable pub parse_bzpop : Value F O → GlideResult (Option (Bytes × Bytes × F))
  parse_bzpop nil = ok none
  parse_bzpop (array (more k (more m (more s end)))) = do
    score ← to_f64 redis s
    member ← to_bytes redis m
    key ← to_bytes redis k
    ok (some (key, member, score))
  parse_bzpop v = refuse redis "unexpected blocking zpop reply: " v

  -- The commands that the two stores by range build: `word` is `BYSCORE` or `BYLEX`.
  unfoldable pub zrangestore_cmd :
      {B : Type 0} → (B → Bytes) → String → Args → Args → B → B → Bool → Option Limit → Cmd
  zrangestore_cmd to_arg word destination source low high rev limit =
      let (first, second) = if rev then (high, low) else (low, high) in
      kw "ZRANGESTORE"
      ++ destination
      ++ source
      ++ raw (to_arg first)
      ++ raw (to_arg second)
      ++ kw word
      ++ flag rev "REV"
      ++ opt limit (limit_args redis)

  module _ {P W : Type 0} (client : CommandExecutor F O P W) where
    unfoldable pub zadd_incr : Args → Args → F → Io W GlideError (Option F)
    zadd_incr key member increment =
        call client (kw "ZADD" ++ key ++ kw "INCR" ++ float_of redis increment ++ member)
          (to_opt_f64 redis)

    unfoldable pub zrank_withscore : Args → Args → Io W GlideError (Option (ℤ × F))
    zrank_withscore key member =
        call client (kw "ZRANK" ++ key ++ member ++ kw "WITHSCORE") parse_rank_withscore

    unfoldable pub zrevrank_withscore : Args → Args → Io W GlideError (Option (ℤ × F))
    zrevrank_withscore key member =
        call client (kw "ZREVRANK" ++ key ++ member ++ kw "WITHSCORE") parse_rank_withscore

    unfoldable pub bzpop : Bytes → List Args → F → Io W GlideError (Option (Bytes × Bytes × F))
    bzpop op keys timeout = call client (raw op ++ each keys ++ float_of redis timeout) parse_bzpop

    unfoldable pub zrangestore_by_index : Args → Args → ℤ → ℤ → Bool → Io W GlideError ℤ
    zrangestore_by_index destination source start stop rev =
        call client
          (kw "ZRANGESTORE"
            ++ destination
            ++ source
            ++ int_of redis start
            ++ int_of redis stop
            ++ flag rev "REV")
          (to_i64 redis)

    unfoldable pub zrangestore_by_score :
        Args → Args → ScoreBound F → ScoreBound F → Bool → Option Limit → Io W GlideError ℤ
    zrangestore_by_score destination source low high rev limit =
        call client (zrangestore_cmd score_arg "BYSCORE" destination source low high rev limit)
          (to_i64 redis)

    unfoldable pub zrangestore_by_lex :
        Args → Args → LexBound → LexBound → Bool → Option Limit → Io W GlideError ℤ
    zrangestore_by_lex destination source low high rev limit =
        call client (zrangestore_cmd lex_arg "BYLEX" destination source low high rev limit)
          (to_i64 redis)

    unfoldable pub zdiff : List Args → Io W GlideError (List Bytes)
    zdiff keys = call client (kw "ZDIFF" ++ counted redis keys) collect_bytes

    unfoldable pub zdiff_withscores : List Args → Io W GlideError (List (Bytes × F))
    zdiff_withscores keys =
        call client (kw "ZDIFF" ++ counted redis keys ++ kw "WITHSCORES") collect_member_scores

    unfoldable pub zdiffstore : Args → List Args → Io W GlideError ℤ
    zdiffstore destination keys =
        call client (kw "ZDIFFSTORE" ++ destination ++ counted redis keys) (to_i64 redis)

    unfoldable pub zunion : List Args → Option AggregationType → Io W GlideError (List Bytes)
    unfolding aggregate_args
    zunion keys aggregate =
        call client (kw "ZUNION" ++ counted redis keys ++ aggregate_args aggregate) collect_bytes

    unfoldable pub zunion_withscores :
        List Args → Option AggregationType → Io W GlideError (List (Bytes × F))
    unfolding aggregate_args
    zunion_withscores keys aggregate =
        call client
          (kw "ZUNION" ++ counted redis keys ++ aggregate_args aggregate ++ kw "WITHSCORES")
          collect_member_scores

    unfoldable pub zinter : List Args → Option AggregationType → Io W GlideError (List Bytes)
    unfolding aggregate_args
    zinter keys aggregate =
        call client (kw "ZINTER" ++ counted redis keys ++ aggregate_args aggregate) collect_bytes

    unfoldable pub zinter_withscores :
        List Args → Option AggregationType → Io W GlideError (List (Bytes × F))
    unfolding aggregate_args
    zinter_withscores keys aggregate =
        call client
          (kw "ZINTER" ++ counted redis keys ++ aggregate_args aggregate ++ kw "WITHSCORES")
          collect_member_scores

    unfoldable pub zintercard : List Args → Option ℤ → Io W GlideError ℤ
    zintercard keys limit =
        call client
          (kw "ZINTERCARD" ++ counted redis keys ++ opt limit (λ l. kw "LIMIT" ++ int_of redis l))
          (to_i64 redis)

    unfoldable pub zsetop_store :
        Bytes → Args → List Args → Option AggregationType → Io W GlideError ℤ
    unfolding aggregate_args
    zsetop_store op destination keys aggregate =
        call client (raw op ++ destination ++ counted redis keys ++ aggregate_args aggregate)
          (to_i64 redis)
