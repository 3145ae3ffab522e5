-- ===== src/Streams.antt =====
-- The reply parsers of src/commands/stream.rs.
pub mod Laws
pub mod Options
pub mod Commands
pub mod Info
pub mod Reading
pub mod Adding
pub mod Claiming
use glide_rust.Base.{
  ℤ, pos, Bytes, String, ascii, Bool, true, false, ◌&&◌, Option, none, some, List, [], ◌∷◌, ◌++◌,
  Result, ok, err, all, if◌then◌else◌,
}
use glide_rust.Base.Fallible.{◌>>=◌, map_ok, collect}
use glide_rust.Redis.{Value, nil, array, map, Values, end, more, elems, entries, Redis}
use glide_rust.Error.{GlideResult, request}
use glide_rust.Values.{to_string, to_bytes, to_opt_bytes, to_i64}

-- `StreamEntry`: an id with its field and value pairs.
abbrev pub StreamEntry : Type 0
StreamEntry = Bytes × List (Bytes × Bytes)

pub record XPendingSummary : Type 0 where
  pub count : ℤ
  pub min_id : Option Bytes
  pub max_id : Option Bytes
  pub consumers : List (Bytes × ℤ)

pub record XPendingEntry : Type 0 where
  pub id : Bytes
  pub consumer : Bytes
  pub idle_ms : ℤ
  pub delivery_count : ℤ

module _ {F O : Type 0} (redis : Redis F O) where
  abbrev Pair : Type 0
  Pair = Value F O × Value F O

  -- The loop over a RESP2 array: each item that is an array of two is a pair, any other is skipped.
  unfoldable pub two_element_items : List (Value F O) → List Pair
  two_element_items [] = []
  two_element_items (array (more a (more b end)) ∷ items) = (a, b) ∷ two_element_items items
  two_element_items (_ ∷ items) = two_element_items items

  -- `while let (Some(f), Some(val)) = (iter.next(), iter.next())`
  unfoldable pub two_by_two : List (Value F O) → List Pair
  two_by_two (a ∷ b ∷ items) = (a, b) ∷ two_by_two items
  two_by_two _ = []

  abbrev pub is_two : Value F O → Bool
  is_two (array (more a (more b end))) = true
  is_two _ = false

  abbrev unexpected : {A : Type 0} → String → Value F O → GlideResult A
  unexpected what v = err (request (ascii what ++ redis.debug v))

  -- The two ways a pair of field and value is read: the nested form takes the value first.
  unfoldable pub nested_field : Pair → GlideResult (Bytes × Bytes)
  nested_field (f, v) = do val ← to_bytes redis v; field ← to_bytes redis f; Result.ok (field, val)

  unfoldable pub flat_field : Pair → GlideResult (Bytes × Bytes)
  flat_field (f, v) = do field ← to_bytes redis f; val ← to_bytes redis v; Result.ok (field, val)

  unfoldable pub parse_fields : Value F O → GlideResult (List (Bytes × Bytes))
  unfolding two_element_items two_by_two nested_field flat_field
  parse_fields (array vs) =
      if all is_two (elems vs)
      then collect nested_field (two_element_items (elems vs))
      else collect flat_field (two_by_two (elems vs))
  parse_fields nil = Result.ok []
  parse_fields v = map_ok (λ b. (b, []) ∷ []) (to_bytes redis v)

  unfoldable pub entry : Pair → GlideResult StreamEntry
  unfolding parse_fields
  entry (id_val, fields_val) = do
    id ← to_string redis id_val
    fv ← parse_fields fields_val
    Result.ok (id, fv)

  unfoldable pub parse_entries : Value F O → GlideResult (List StreamEntry)
  unfolding two_element_items entry
  parse_entries nil = Result.ok []
  parse_entries (map ps) = collect entry (entries ps)
  parse_entries (array vs) = collect entry (two_element_items (elems vs))
  parse_entries v = unexpected "unexpected stream reply: " v

  unfoldable pub stream : Pair → GlideResult (Bytes × List StreamEntry)
  unfolding parse_entries
  stream (key_val, entries_val) = do
    key ← to_bytes redis key_val
    found ← parse_entries entries_val
    Result.ok (key, found)

  unfoldable pub parse_stream_read : Value F O → GlideResult (List (Bytes × List StreamEntry))
  unfolding two_element_items stream
  parse_stream_read nil = Result.ok []
  parse_stream_read (map ps) = collect stream (entries ps)
  parse_stream_read (array vs) = collect stream (two_element_items (elems vs))
  parse_stream_read v = unexpected "unexpected XREAD reply: " v

  unfoldable pub collect_strings : Value F O → GlideResult (List Bytes)
  collect_strings nil = Result.ok []
  collect_strings (array vs) = collect (to_string redis) (elems vs)
  collect_strings v = map_ok (λ s. s ∷ []) (to_string redis v)

  unfoldable pub parse_autoclaim : Value F O → GlideResult (Bytes × List StreamEntry × List Bytes)
  unfolding parse_entries collect_strings
  parse_autoclaim (array (more c (more es (more d end)))) = do
    deleted ← collect_strings d
    found ← parse_entries es
    cursor ← to_string redis c
    Result.ok (cursor, found, deleted)
  parse_autoclaim (array (more c (more es end))) = do
    found ← parse_entries es
    cursor ← to_string redis c
    Result.ok (cursor, found, [])
  parse_autoclaim v = unexpected "unexpected XAUTOCLAIM reply: " v

  unfoldable pub parse_autoclaim_justid : Value F O → GlideResult (Bytes × List Bytes × List Bytes)
  unfolding collect_strings
  parse_autoclaim_justid (array (more c (more is (more d end)))) = do
    deleted ← collect_strings d
    ids ← collect_strings is
    cursor ← to_string redis c
    Result.ok (cursor, ids, deleted)
  parse_autoclaim_justid (array (more c (more is end))) = do
    ids ← collect_strings is
    cursor ← to_string redis c
    Result.ok (cursor, ids, [])
  parse_autoclaim_justid v = unexpected "unexpected XAUTOCLAIM JUSTID reply: " v

  unfoldable pub consumer_count : Pair → GlideResult (Bytes × ℤ)
  consumer_count (name_val, count_val) = do
    cnt ← to_i64 redis count_val
    name ← to_bytes redis name_val
    Result.ok (name, cnt)

  unfoldable pub consumer_counts : Value F O → GlideResult (List (Bytes × ℤ))
  unfolding consumer_count two_element_items
  consumer_counts (array vs) = collect consumer_count (two_element_items (elems vs))
  consumer_counts _ = Result.ok []

  unfoldable pub parse_xpending_summary : Value F O → GlideResult XPendingSummary
  unfolding consumer_counts
  parse_xpending_summary (array (more n (more lo (more hi (more cs end))))) = do
    count ← to_i64 redis n
    consumers ← consumer_counts cs
    min_id ← to_opt_bytes redis lo
    max_id ← to_opt_bytes redis hi
    Result.ok (record { count = count; min_id = min_id; max_id = max_id; consumers = consumers })
  parse_xpending_summary nil =
      Result.ok (record { count = pos 0; min_id = none; max_id = none; consumers = [] })
  parse_xpending_summary v = unexpected "unexpected XPENDING summary reply: " v

  -- The loop of `parse_xpending_range`: an item that is no array of four is skipped.
  unfoldable pub pending_entries : List (Value F O) → GlideResult (List XPendingEntry)
  pending_entries [] = Result.ok []
  pending_entries (array (more i (more c (more t (more n end)))) ∷ items) = do
    delivery_count ← to_i64 redis n
    idle_ms ← to_i64 redis t
    consumer ← to_bytes redis c
    id ← to_bytes redis i
    rest ← pending_entries items
    Result.ok (
        record { id = id; consumer = consumer; idle_ms = idle_ms; delivery_count = delivery_count }
        ∷ rest)
  pending_entries (_ ∷ items) = pending_entries items

  unfoldable pub parse_xpending_range : Value F O → GlideResult (List XPendingEntry)
  unfolding pending_entries
  parse_xpending_range nil = Result.ok []
  parse_xpending_range (array vs) = pending_entries (elems vs)
  parse_xpending_range v = unexpected "unexpected XPENDING range reply: " v

  unfoldable pub keyed : Pair → GlideResult (Bytes × Value F O)
  keyed (k, val) = map_ok (λ key. (key, val)) (to_bytes redis k)

  unfoldable pub parse_field_value_map : Value F O → GlideResult (List (Bytes × Value F O))
  unfolding two_by_two keyed
  parse_field_value_map nil = Result.ok []
  parse_field_value_map (map ps) = collect keyed (entries ps)
  parse_field_value_map (array vs) = collect keyed (two_by_two (elems vs))
  parse_field_value_map v = unexpected "unexpected XINFO reply: " v

  unfoldable pub parse_list_of_maps : Value F O → GlideResult (List (List (Bytes × Value F O)))
  unfolding parse_field_value_map
  parse_list_of_maps nil = Result.ok []
  parse_list_of_maps (array vs) = collect parse_field_value_map (elems vs)
  parse_list_of_maps v = unexpected "unexpected XINFO list reply: " v
