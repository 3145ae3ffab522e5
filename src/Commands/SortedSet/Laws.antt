-- ===== src/Commands/SortedSet/Laws.antt =====
-- What the commands of src/commands/sorted_set.rs on several sorted sets give, from a server that
-- answers for what it reads.
use glide_rust.Base.{ℕ, ℤ, pos, Bytes, ascii, Option, none, some, List, ◌≡◌, ap, length, map_option}
use glide_rust.Base.Io.{Io}
use glide_rust.Error.{GlideError}
use glide_rust.Redis.{Value, Redis, raw}
use glide_rust.Values.{to_i64}
use glide_rust.Commands.Replies.Laws.{singles}
use glide_rust.Commands.Answers.{answering, decoded}
use glide_rust.Commands.SortedSet.Combining.{
  Ending, plain, with_scores, ending_of, Combination, Storing, read_combination, read_storing,
  read_keys-counted, read_keys-aggregated, read_keys-ended, read_keys-bare, read_keys-limited,
}
use glide_rust.Commands.SortedSet.{
  AggregationType, aggregate_args, collect_bytes, collect_member_scores, zdiff, zdiff_withscores,
  zunion, zunion_withscores, zinter, zinter_withscores, zintercard, zdiffstore, zsetop_store,
}

-- What follows the command, and the destination of a store.
abbrev Counted : Type 0
Counted = List Bytes × Option AggregationType × Ending

abbrev named : Bytes → Option Counted → Option Combination
named name r = map_option (λ (keys, a, e). (name, keys, a, e)) r

abbrev placed : Bytes → Bytes → Option Counted → Option Storing
placed name destination r = map_option (λ (keys, a, e). (name, destination, keys, a, e)) r

-- Where a server reads back the numbers that are written, each of the nine commands on several
-- sorted sets gives what the server answers to exactly its combination: its own command, the
-- destination of a store, all the keys in order, the aggregation if one is given, and the scores or
-- the limit if they are asked for; no key is taken for an option.
pub combinations_lem :
    (P : Type 0) {F O W : Type 0} (redis : Redis F O) (read_int : Bytes → Option ℤ)
    (read_number : Bytes → Option ℕ) (serve : Option Combination → Io W GlideError (Value F O))
    (store : Option Storing → Io W GlideError (Value F O)) (op destination : Bytes)
    (keys : List Bytes) (a : Option AggregationType) (limit : Option ℤ)
    → ((m : ℤ) → read_int (redis.int_arg m) ≡ some m)
    → read_number (redis.int_arg (pos (length keys))) ≡ some (length keys)
    → let server = answering P (read_combination read_int read_number) serve in
      let stores = answering P (read_storing read_int read_number) store in
      let members = λ (asked : Combination). decoded (collect_bytes redis) serve (some asked) in
      let scored =
        λ (asked : Combination). decoded (collect_member_scores redis) serve (some asked) in
      (zdiff redis server (singles keys) ≡ members (ascii "ZDIFF", keys, none, plain))
      × (zdiff_withscores redis server (singles keys)
          ≡ scored (ascii "ZDIFF", keys, none, with_scores))
      × (zunion redis server (singles keys) a ≡ members (ascii "ZUNION", keys, a, plain))
      × (zunion_withscores redis server (singles keys) a
          ≡ scored (ascii "ZUNION", keys, a, with_scores))
      × (zinter redis server (singles keys) a ≡ members (ascii "ZINTER", keys, a, plain))
      × (zinter_withscores redis server (singles keys) a
          ≡ scored (ascii "ZINTER", keys, a, with_scores))
      × (zintercard redis server (singles keys) limit
          ≡ decoded (to_i64 redis) serve (some (ascii "ZINTERCARD", keys, none, ending_of limit)))
      × (zdiffstore redis stores (raw destination) (singles keys)
          ≡ decoded
              (to_i64 redis)
              store
              (some (ascii "ZDIFFSTORE", destination, keys, none, plain)))
      × (zsetop_store redis stores op (raw destination) (singles keys) a
          ≡ decoded (to_i64 redis) store (some (op, destination, keys, a, plain)))
unfolding zdiff zdiff_withscores zunion zunion_withscores zinter zinter_withscores zintercard
    zdiffstore zsetop_store read_combination read_storing aggregate_args
combinations_lem P redis read_int read_number serve store op destination keys a limit reads_int
      reads_count =
    let bare = read_keys-bare read_int read_number redis reads_int keys reads_count in
    let limited = read_keys-limited read_int read_number redis reads_int keys reads_count limit in
    let aggregated = read_keys-aggregated read_int read_number redis reads_int keys reads_count a in
    let ended = read_keys-ended read_int read_number redis reads_int keys reads_count in
    let all =
      read_keys-counted read_int read_number redis reads_int keys reads_count a with_scores in
    let members =
      λ (name : Bytes) (r : Option Counted). decoded (collect_bytes redis) serve (named name r) in
    let scored = λ (name : Bytes) (r : Option Counted).
      decoded (collect_member_scores redis) serve (named name r) in
    let stored = λ (name : Bytes) (r : Option Counted).
      decoded (to_i64 redis) store (placed name destination r) in
    (
      ap (members (ascii "ZDIFF")) bare,
      ap (scored (ascii "ZDIFF")) (ended with_scores),
      ap (members (ascii "ZUNION")) aggregated,
      ap (scored (ascii "ZUNION")) all,
      ap (members (ascii "ZINTER")) aggregated,
      ap (scored (ascii "ZINTER")) all,
      ap (λ r. decoded (to_i64 redis) serve (named (ascii "ZINTERCARD") r)) limited,
      ap (stored (ascii "ZDIFFSTORE")) bare,
      ap (stored op) aggregated,
    )
