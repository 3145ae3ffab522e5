-- ===== src/Commands/Pairs.antt =====
-- What the parsers of src/commands/sorted_set.rs, src/commands/hash.rs and src/commands/pubsub.rs
-- that give pairs read back from the forms in which servers send them.
use glide_rust.Base.{ℤ, Bytes, List, ◌≡◌, refl, ok}
use glide_rust.Redis.{
  Value, array, map, int, double, bulk_string, vec, pairs, elems-vec, Redis, IsExact,
}
use glide_rust.Base.{sym, subst}
use glide_rust.Base.Fallible.{collect}
use glide_rust.Error.{GlideResult}
use glide_rust.Streams.{two_by_two}
use glide_rust.Values.Laws.{to_bytes-bulk_string, to_f64-double, to_i64-int}
use glide_rust.Commands.Replies.Laws.{
  flat, nested, mapped, pairs_of_items-flat, pairs_of_items-nested, collect-entries,
  two_by_two-flat,
}
use glide_rust.Commands.SortedSet.{nested_score, flat_score, collect_member_scores}
use glide_rust.Commands.Hash.{nested_pair, flat_pair, collect_pairs}
use glide_rust.Commands.PubSub.{channel_count, parse_numsub}

-- A parser gives the items back from a flat array, and from a map.
abbrev pub ReadsPairs :
    {F O A : Type 0}
    → (Value F O → GlideResult (List A))
    → (A → Value F O)
    → (A → Value F O)
    → List A
    → Type 0
ReadsPairs parse first second xs =
    (parse (array (vec (flat first second xs))) ≡ ok xs)
    × (parse (map (pairs (mapped first second xs))) ≡ ok xs)

module _ {F O : Type 0} (redis : Redis F O) where
  -- How a server sends a member, a score, a field, a value, a channel and a number of subscribers.
  abbrev pub member : {B : Type 0} → Bytes × B → Value F O
  member x = bulk_string x.0

  abbrev pub score : Bytes × F → Value F O
  score x = double x.1

  abbrev pub field_value : Bytes × Bytes → Value F O
  field_value x = bulk_string x.1

  abbrev pub subscribers : Bytes × ℤ → Value F O
  subscribers x = int x.1

  module _ (exact : IsExact redis) where
    nested_score_lem : (x : Bytes × F) → nested_score redis (member x, score x) ≡ ok x
    unfolding nested_score
    nested_score_lem x = rw (to_f64-double redis exact x.1, to_bytes-bulk_string redis x.0) refl

    flat_score_lem : (x : Bytes × F) → flat_score redis (member x, score x) ≡ ok x
    unfolding flat_score
    flat_score_lem x = rw (to_bytes-bulk_string redis x.0, to_f64-double redis exact x.1) refl

    channel_count_lem : (x : Bytes × ℤ) → channel_count redis (member x, subscribers x) ≡ ok x
    unfolding channel_count
    channel_count_lem x = rw (to_bytes-bulk_string redis x.0, to_i64-int redis exact x.1) refl

    nested_pair_lem : (x : Bytes × Bytes) → nested_pair redis (member x, field_value x) ≡ ok x
    unfolding nested_pair
    nested_pair_lem x = rw (to_bytes-bulk_string redis x.0, to_bytes-bulk_string redis x.1) refl

    flat_pair_lem : (x : Bytes × Bytes) → flat_pair redis (member x, field_value x) ≡ ok x
    unfolding flat_pair
    flat_pair_lem x = rw (to_bytes-bulk_string redis x.0, to_bytes-bulk_string redis x.1) refl

    -- Members with their scores are read back, in order and none mixed with another, from each of
    -- the three forms in which servers send them: a flat array, a map, and an array of pairs.
    pub collect_member_scores_lem :
        (xs : List (Bytes × F))
        → ReadsPairs (collect_member_scores redis) member score xs
          × (collect_member_scores redis (array (vec (nested member score xs))) ≡ ok xs)
    unfolding collect_member_scores
    collect_member_scores_lem xs = (
      (
        pairs_of_items-flat member score redis (nested_score redis) (flat_score redis)
            nested_score_lem flat_score_lem (λ x. refl) xs,
        collect-entries member score redis (flat_score redis) flat_score_lem xs,
      ),
      pairs_of_items-nested member score redis (nested_score redis) (flat_score redis)
          nested_score_lem flat_score_lem (λ x. refl) xs,
    )

    -- Fields with their values, and channels with their numbers of subscribers, are read back in
    -- order from a flat array and from a map; fields with values also from an array of pairs.
    pub collect_pairs_lem :
        (fields : List (Bytes × Bytes)) (channels : List (Bytes × ℤ))
        → ReadsPairs (collect_pairs redis) member field_value fields
          × (collect_pairs redis (array (vec (nested member field_value fields))) ≡ ok fields)
          × ReadsPairs (parse_numsub redis) member subscribers channels
    unfolding collect_pairs parse_numsub
    collect_pairs_lem fields channels = (
      (
        pairs_of_items-flat member field_value redis (nested_pair redis) (flat_pair redis)
            nested_pair_lem flat_pair_lem (λ x. refl) fields,
        collect-entries member field_value redis (flat_pair redis) flat_pair_lem fields,
      ),
      pairs_of_items-nested member field_value redis (nested_pair redis) (flat_pair redis)
          nested_pair_lem flat_pair_lem (λ x. refl) fields,
      (
        subst (λ l. collect (channel_count redis) (two_by_two redis l) ≡ ok channels)
            (sym (elems-vec (flat member subscribers channels)))
            (two_by_two-flat member subscribers redis (channel_count redis) channel_count_lem
              channels),
        collect-entries member subscribers redis (channel_count redis) channel_count_lem channels,
      ),
    )
