-- ===== src/Commands/SortedSet/Combining.antt =====
-- The commands of src/commands/sorted_set.rs on several sorted sets, against a server that takes them
-- apart.
use glide_rust.Base.{
  ℕ, ℤ, pos, Bytes, ascii, bytes_eq, Option, none, some, List, [], ◌∷◌, ◌++◌, ◌≡◌, refl, sym, ap,
  ◌∙◌, length, take, drop, take-append, drop-append, if◌then◌else◌, map_option, append_assoc,
  append-nil,
}
use glide_rust.Redis.{Redis, Cmd, kw, opt}
use glide_rust.Commands.Options.{int_of}
use glide_rust.Commands.Replies.{counted}
use glide_rust.Commands.Replies.Laws.{singles, counted-singles}
use glide_rust.Commands.SortedSet.{
  AggregationType, sum_scores, min_score, max_score, aggregation_word, aggregate_args,
}

-- How a command ends: as it is, with the scores, or with a limit.
pub data Ending : Type 0 where
  plain with_scores : Ending
  at_most : ℤ → Ending

abbrev pub ending_of : Option ℤ → Ending
ending_of none = plain
ending_of (some n) = at_most n

-- The command, the keys, the aggregation and the ending; a store has a destination too.
abbrev pub Combination : Type 0
Combination = Bytes × List Bytes × Option AggregationType × Ending

abbrev pub Storing : Type 0
Storing = Bytes × Bytes × List Bytes × Option AggregationType × Ending

unfoldable pub read_aggregation : Bytes → Option AggregationType
read_aggregation word =
    if bytes_eq word (ascii "SUM")
    then some sum_scores
    else if bytes_eq word (ascii "MIN")
    then some min_score
    else if bytes_eq word (ascii "MAX")
    then some max_score
    else none

module _ (read_int : Bytes → Option ℤ) (read_number : Bytes → Option ℕ) where
  unfoldable pub read_ending : List Bytes → Option Ending
  read_ending [] = some plain
  read_ending (word ∷ []) = if bytes_eq word (ascii "WITHSCORES") then some with_scores else none
  read_ending (word ∷ count ∷ []) =
      if bytes_eq word (ascii "LIMIT") then map_option at_most (read_int count) else none
  read_ending _ = none

  abbrev aggregated :
      Option AggregationType → Option Ending → Option (Option AggregationType × Ending)
  aggregated none ending = none
  aggregated (some a) ending = map_option (λ e. (some a, e)) ending

  -- The words after the keys.
  unfoldable pub read_options : List Bytes → Option (Option AggregationType × Ending)
  unfolding read_ending read_aggregation
  read_options (word ∷ name ∷ words) =
      if bytes_eq word (ascii "AGGREGATE")
      then aggregated (read_aggregation name) (read_ending words)
      else map_option (λ e. (none, e)) (read_ending (word ∷ name ∷ words))
  read_options words = map_option (λ e. (none, e)) (read_ending words)

  -- The number of the keys, the keys, and the options.
  unfoldable pub read_keys : List Bytes → Option (List Bytes × Option AggregationType × Ending)
  unfolding read_options
  read_keys (count ∷ words) = elim (read_number count) [
    | none ↦ none
    | some n ↦ map_option (λ (a, e). (take n words, a, e)) (read_options (drop n words))
  ]
  read_keys [] = none

  unfoldable pub read_combination : Cmd → Option Combination
  unfolding read_keys
  read_combination (name ∷ words) =
      map_option (λ (keys, a, e). (name, keys, a, e)) (read_keys words)
  read_combination [] = none

  unfoldable pub read_storing : Cmd → Option Storing
  unfolding read_keys
  read_storing (name ∷ destination ∷ words) =
      map_option (λ (keys, a, e). (name, destination, keys, a, e)) (read_keys words)
  read_storing _ = none

  module _ {F O : Type 0} (redis : Redis F O)
      (reads_int : (n : ℤ) → read_int (redis.int_arg n) ≡ some n) where
    abbrev ending_words : Ending → List Bytes
    ending_words plain = []
    ending_words with_scores = kw "WITHSCORES"
    ending_words (at_most n) = kw "LIMIT" ++ int_of redis n

    read_ending-words : (e : Ending) → read_ending (ending_words e) ≡ some e
    unfolding read_ending bytes_eq ascii
    read_ending-words plain = refl
    read_ending-words with_scores = refl
    read_ending-words (at_most n) = rw (reads_int n) refl

    read_options-words :
        (a : Option AggregationType) (e : Ending)
        → read_options (aggregate_args a ++ ending_words e) ≡ some (a, e)
    unfolding read_options aggregate_args aggregation_word read_aggregation read_ending bytes_eq
        ascii
    read_options-words none plain = refl
    read_options-words none with_scores = refl
    read_options-words none (at_most n) = rw (reads_int n) refl
    read_options-words (some sum_scores) e = ap (aggregated (some sum_scores)) (read_ending-words e)
    read_options-words (some min_score) e = ap (aggregated (some min_score)) (read_ending-words e)
    read_options-words (some max_score) e = ap (aggregated (some max_score)) (read_ending-words e)

    module _ (keys : List Bytes)
        (reads_count : read_number (redis.int_arg (pos (length keys))) ≡ some (length keys)) where
      read_keys-words :
          (words : List Bytes)
          → read_keys (redis.int_arg (pos (length keys)) ∷ (keys ++ words))
            ≡ map_option (λ (a, e). (keys, a, e)) (read_options words)
      unfolding read_keys
      read_keys-words words =
          rw (reads_count, read_keys) (rw (take-append keys words, drop-append keys words) refl)

      -- The counted keys, an aggregation and an ending.
      pub read_keys-counted :
          (a : Option AggregationType) (e : Ending)
          → read_keys (counted redis (singles keys) ++ aggregate_args a ++ ending_words e)
            ≡ some (keys, a, e)
      read_keys-counted a e =
          ap (λ l. read_keys (l ++ aggregate_args a ++ ending_words e)) (counted-singles redis keys)
          ∙ ap (λ l. read_keys (redis.int_arg (pos (length keys)) ∷ l))
              (append_assoc keys (aggregate_args a) (ending_words e))
          ∙ read_keys-words (aggregate_args a ++ ending_words e)
          ∙ ap (map_option (λ (b, f). (keys, b, f))) (read_options-words a e)

      pub read_keys-aggregated :
          (a : Option AggregationType)
          → read_keys (counted redis (singles keys) ++ aggregate_args a) ≡ some (keys, a, plain)
      read_keys-aggregated a =
          ap read_keys (sym (append-nil (counted redis (singles keys) ++ aggregate_args a)))
          ∙ read_keys-counted a plain

      pub read_keys-ended :
          (e : Ending)
          → read_keys (counted redis (singles keys) ++ ending_words e) ≡ some (keys, none, e)
      unfolding aggregate_args
      read_keys-ended e =
          ap (λ l. read_keys (l ++ ending_words e))
            (sym (append-nil (counted redis (singles keys))))
          ∙ read_keys-counted none e

      pub read_keys-bare : read_keys (counted redis (singles keys)) ≡ some (keys, none, plain)
      read_keys-bare =
          ap read_keys (sym (append-nil (counted redis (singles keys)))) ∙ read_keys-ended plain

      pub read_keys-limited :
          (limit : Option ℤ)
          → read_keys
              (counted redis (singles keys) ++ opt limit (λ n. kw "LIMIT" ++ int_of redis n))
            ≡ some (keys, none, ending_of limit)
      read_keys-limited none = read_keys-ended plain
      read_keys-limited (some n) = read_keys-ended (at_most n)
