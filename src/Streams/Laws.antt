-- ===== src/Streams/Laws.antt =====
-- What the parsers of src/commands/stream.rs read back from the replies that a server sends.
use glide_rust.Base.{
  sym, subst, Bytes, true, List, [], ◌∷◌, Result, ok, All, ◌<◌, ◌≡◌, refl, all, if◌then◌else◌,
}
use glide_rust.Error.{GlideError}
use glide_rust.Base.Fallible.{collect}
use glide_rust.Redis.{
  Value, array, map, bulk_string, end, more, vec, elems-vec, pairs, entries-pairs, Redis, IsExact,
}
use glide_rust.Values.Laws.{to_string-bulk_string, to_bytes-bulk_string}
use glide_rust.Streams.{
  StreamEntry, two_element_items, two_by_two, nested_field, flat_field, parse_fields, entry, is_two,
  parse_entries, stream, parse_stream_read,
}

module _ {F O : Type 0} (redis : Redis F O) where
  -- The replies for some fields: one flat array, or an array of pairs.
  abbrev pub flat_items : List (Bytes × Bytes) → List (Value F O)
  flat_items [] = []
  flat_items ((f, v) ∷ fields) = bulk_string f ∷ bulk_string v ∷ flat_items fields

  abbrev pub pair_items : List (Bytes × Bytes) → List (Value F O)
  pair_items [] = []
  pair_items ((f, v) ∷ fields) =
      array (more (bulk_string f) (more (bulk_string v) end)) ∷ pair_items fields

  flat-two_by_two :
      (fields : List (Bytes × Bytes))
      → collect (flat_field redis) (two_by_two redis (flat_items fields)) ≡ ok fields
  unfolding collect flat_field two_by_two
  flat-two_by_two [] = refl
  flat-two_by_two ((f, v) ∷ fields) =
      rw (to_bytes-bulk_string redis f, to_bytes-bulk_string redis v, flat-two_by_two fields) refl

  nested-two_element_items :
      (fields : List (Bytes × Bytes))
      → collect (nested_field redis) (two_element_items redis (pair_items fields)) ≡ ok fields
  unfolding collect nested_field two_element_items
  nested-two_element_items [] = refl
  nested-two_element_items ((f, v) ∷ fields) =
      rw
        (
          to_bytes-bulk_string redis f,
          to_bytes-bulk_string redis v,
          nested-two_element_items fields,
        )
        refl

  -- How the fields are read, by the items of the array.
  abbrev by_shape : List (Value F O) → Result GlideError (List (Bytes × Bytes))
  by_shape items =
      if all (is_two redis) items
      then collect (nested_field redis) (two_element_items redis items)
      else collect (flat_field redis) (two_by_two redis items)

  all_two : (fields : List (Bytes × Bytes)) → all (is_two redis) (pair_items fields) ≡ true
  all_two [] = refl
  all_two (field ∷ fields) = all_two fields

  flat-by_shape : (fields : List (Bytes × Bytes)) → by_shape (flat_items fields) ≡ ok fields
  unfolding collect two_element_items
  flat-by_shape [] = refl
  flat-by_shape (field ∷ fields) = flat-two_by_two (field ∷ fields)

  -- Fields and values are read back in order from a flat array and from an array of pairs alike,
  -- which are the two forms that servers use.
  pub parse_fields_lem :
      (fields : List (Bytes × Bytes))
      → (parse_fields redis (array (vec (flat_items fields))) ≡ ok fields)
        × (parse_fields redis (array (vec (pair_items fields))) ≡ ok fields)
  unfolding parse_fields
  parse_fields_lem fields = (
    subst (λ l. by_shape l ≡ ok fields) (sym (elems-vec (flat_items fields)))
        (flat-by_shape fields),
    subst (λ l. by_shape l ≡ ok fields) (sym (elems-vec (pair_items fields)))
        (rw (all_two fields) (nested-two_element_items fields)),
  )

  -- The two forms of an answer with entries: a map by id (RESP3), and an array of pairs (RESP2).
  abbrev pub resp3_pairs : List StreamEntry → List (Value F O × Value F O)
  resp3_pairs [] = []
  resp3_pairs ((id, fields) ∷ es) =
      (bulk_string id, array (vec (pair_items fields))) ∷ resp3_pairs es

  abbrev pub resp2_items : List StreamEntry → List (Value F O)
  resp2_items [] = []
  resp2_items ((id, fields) ∷ es) =
      array (more (bulk_string id) (more (array (vec (flat_items fields))) end)) ∷ resp2_items es

  -- Every id is text that the conversion to a string takes as it is.
  abbrev pub HasAsciiIds : List StreamEntry → Type 0
  HasAsciiIds es = All (λ e. All (λ c. c < 128) e.0) es

  -- The reply to a read of several streams, in the two forms.
  abbrev pub resp2_streams : List (Bytes × List StreamEntry) → List (Value F O)
  resp2_streams [] = []
  resp2_streams ((key, es) ∷ streams) =
      array (more (bulk_string key) (more (array (vec (resp2_items es))) end))
      ∷ resp2_streams streams

  abbrev pub resp3_streams : List (Bytes × List StreamEntry) → List (Value F O × Value F O)
  resp3_streams [] = []
  resp3_streams ((key, es) ∷ streams) =
      (bulk_string key, map (pairs (resp3_pairs es))) ∷ resp3_streams streams

  module _ (exact : IsExact redis) where
    resp3_lem :
        (es : List StreamEntry) → HasAsciiIds es → collect (entry redis) (resp3_pairs es) ≡ ok es
    unfolding collect entry
    resp3_lem [] h = refl
    resp3_lem ((id, fields) ∷ es) (is_ascii, h) =
        rw
          (
            to_string-bulk_string redis exact id is_ascii,
            (parse_fields_lem fields).1,
            resp3_lem es h,
          )
          refl

    resp2_lem :
        (es : List StreamEntry)
        → HasAsciiIds es
        → collect (entry redis) (two_element_items redis (resp2_items es)) ≡ ok es
    unfolding collect entry two_element_items
    resp2_lem [] h = refl
    resp2_lem ((id, fields) ∷ es) (is_ascii, h) =
        rw
          (
            to_string-bulk_string redis exact id is_ascii,
            (parse_fields_lem fields).0,
            resp2_lem es h,
          )
          refl

    -- Entries with ASCII ids are read back, in order and with their fields, from the RESP2 and from
    -- the RESP3 form of a reply: none is lost, doubled or mixed with another.
    pub parse_entries_lem :
        (es : List StreamEntry)
        → HasAsciiIds es
        → (parse_entries redis (array (vec (resp2_items es))) ≡ ok es)
          × (parse_entries redis (map (pairs (resp3_pairs es))) ≡ ok es)
    unfolding parse_entries
    parse_entries_lem es h = (
      subst (λ l. collect (entry redis) (two_element_items redis l) ≡ ok es)
          (sym (elems-vec (resp2_items es))) (resp2_lem es h),
      subst (λ l. collect (entry redis) l ≡ ok es) (sym (entries-pairs (resp3_pairs es)))
          (resp3_lem es h),
    )

    resp2_streams_lem :
        (streams : List (Bytes × List StreamEntry))
        → All (λ s. HasAsciiIds s.1) streams
        → collect (stream redis) (two_element_items redis (resp2_streams streams)) ≡ ok streams
    unfolding collect stream two_element_items
    resp2_streams_lem [] h = refl
    resp2_streams_lem ((key, es) ∷ streams) (ids, h) =
        rw
          (
            to_bytes-bulk_string redis key,
            (parse_entries_lem es ids).0,
            resp2_streams_lem streams h,
          )
          refl

    resp3_streams_lem :
        (streams : List (Bytes × List StreamEntry))
        → All (λ s. HasAsciiIds s.1) streams
        → collect (stream redis) (resp3_streams streams) ≡ ok streams
    unfolding collect stream
    resp3_streams_lem [] h = refl
    resp3_streams_lem ((key, es) ∷ streams) (ids, h) =
        rw
          (
            to_bytes-bulk_string redis key,
            (parse_entries_lem es ids).1,
            resp3_streams_lem streams h,
          )
          refl

    -- The reply of a read of several streams gives each key with its entries, in order, in the
    -- RESP2 and in the RESP3 form.
    pub parse_stream_read_lem :
        (streams : List (Bytes × List StreamEntry))
        → All (λ s. HasAsciiIds s.1) streams
        → (parse_stream_read redis (array (vec (resp2_streams streams))) ≡ ok streams)
          × (parse_stream_read redis (map (pairs (resp3_streams streams))) ≡ ok streams)
    unfolding parse_stream_read
    parse_stream_read_lem streams h = (
      subst (λ l. collect (stream redis) (two_element_items redis l) ≡ ok streams)
          (sym (elems-vec (resp2_streams streams))) (resp2_streams_lem streams h),
      subst (λ l. collect (stream redis) l ≡ ok streams)
          (sym (entries-pairs (resp3_streams streams))) (resp3_streams_lem streams h),
    )
