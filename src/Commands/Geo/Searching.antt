-- ===== src/Commands/Geo/Searching.antt =====
-- What the searches of src/commands/geo.rs give, from a server that answers for what it reads.
use glide_rust.Base.{
  ℤ, Bytes, ascii, bytes_eq, Bool, false, Option, none, some, List, ◌++◌, ◌≡◌, sym, ap, ◌∙◌,
  map_option, append_assoc, append-nil,
}
use glide_rust.Base.Io.{Io}
use glide_rust.Error.{GlideError}
use glide_rust.Redis.{Value, Redis, raw, flag}
use glide_rust.Values.{to_i64}
use glide_rust.Commands.Answers.{answering, decoded}
use glide_rust.Commands.Options.{OrderBy}
use glide_rust.Commands.Geo.{
  GeoUnit, GeospatialData, GeoSearchShape, by_radius, shape_args, add_search_tail, collect_bytes,
  geosearch_by_radius_from_member, geosearch_from_member, geosearch_from_coord,
  geosearchstore_from_member, geosearchstore_from_coord,
}
use glide_rust.Commands.Geo.Reading.{
  Origin, from_member, from_position, Ending, Query, counting, read_query, read_search,
  read_search_store, IsReadBack, IsReadOrigin, origin_words, tail_words, read_ending-words,
  read_query-words,
}

module _ {F O : Type 0} (redis : Redis F O) (read_int : Bytes → Option ℤ)
    (read_float : Bytes → Option F)
    (reads_int : (n : ℤ) → read_int (redis.int_arg n) ≡ some n) where
  -- A search is read as it is meant: without and with `STOREDIST`, and one that names a shape only.
  module _ (origin : Origin F) (shape : GeoSearchShape F)
      (starts : IsReadOrigin redis read_float origin) (back : IsReadBack redis read_float shape)
      (order : Option OrderBy) (count : Option ℤ) (any : Bool) where
    abbrev words : List Bytes
    words = origin_words redis origin ++ shape_args redis shape

    read_stored :
        (dist : Bool)
        → read_query read_int read_float
            (words ++ add_search_tail redis order count any ++ flag dist "STOREDIST")
          ≡ some (origin, shape, (order, counting count any, dist))
    read_stored dist =
        ap (read_query read_int read_float)
          (append_assoc words (add_search_tail redis order count any) (flag dist "STOREDIST"))
        ∙ read_query-words read_int read_float redis reads_int origin shape
            (tail_words redis order count any dist) (order, counting count any, dist) starts back
            (read_ending-words read_int read_float redis reads_int order count any dist)

    read_found :
        read_query read_int read_float (words ++ add_search_tail redis order count any)
        ≡ some (origin, shape, (order, counting count any, false))
    read_found =
        ap (read_query read_int read_float)
          (sym (append-nil (words ++ add_search_tail redis order count any)))
        ∙ read_stored false

  -- With nothing after the shape.
  read_plain :
      (origin : Origin F) (shape : GeoSearchShape F)
      → IsReadOrigin redis read_float origin
      → IsReadBack redis read_float shape
      → read_query read_int read_float (origin_words redis origin ++ shape_args redis shape)
        ≡ some (origin, shape, (none, none, false))
  unfolding add_search_tail
  read_plain origin shape starts back =
      ap (read_query read_int read_float)
        (sym (append-nil (origin_words redis origin ++ shape_args redis shape)))
      ∙ read_found origin shape starts back none none false

  -- From a member or from a position, and for a shape, an order, a count and `ANY`, the searches and
  -- the stores of searches give what a server answers to exactly that search of that key (and that
  -- destination, with or without the distances), where `ANY` counts only under a count; the search
  -- by radius is the search by that radius with nothing else asked for. The server reads back the
  -- numbers that are written.
  pub geosearch_lem :
      (P : Type 0) {W : Type 0} (serve : Option (Bytes × Query F) → Io W GlideError (Value F O))
      (store : Option (Bytes × Bytes × Query F) → Io W GlideError (Value F O))
      (key destination member : Bytes) (coord : GeospatialData F) (radius : F) (unit : GeoUnit)
      (shape : GeoSearchShape F) (order : Option OrderBy) (count : Option ℤ) (any store_dist : Bool)
      → IsReadOrigin redis read_float (from_position coord)
      → IsReadBack redis read_float (by_radius radius unit)
      → IsReadBack redis read_float shape
      → let server = answering P (read_search read_int read_float) serve in
        let stores = answering P (read_search_store read_int read_float) store in
        let ending : Bool → Ending = λ dist. (order, counting count any, dist) in
        let found = λ (q : Query F). decoded (collect_bytes redis) serve (some (key, q)) in
        let stored = λ (q : Query F). decoded (to_i64 redis) store (some (destination, key, q)) in
        (geosearch_from_member redis server (raw key) (raw member) shape order count any
          ≡ found (from_member member, shape, ending false))
        × (geosearch_from_coord redis server (raw key) coord shape order count any
            ≡ found (from_position coord, shape, ending false))
        × (geosearchstore_from_member redis stores
              (raw destination)
              (raw key)
              (raw member)
              shape
              order
              count
              any
              store_dist
            ≡ stored (from_member member, shape, ending store_dist))
        × (geosearchstore_from_coord redis stores
              (raw destination)
              (raw key)
              coord
              shape
              order
              count
              any
              store_dist
            ≡ stored (from_position coord, shape, ending store_dist))
        × (geosearch_by_radius_from_member redis server (raw key) (raw member) radius unit
            ≡ found (from_member member, by_radius radius unit, (none, none, false)))
  unfolding geosearch_from_member geosearch_from_coord geosearchstore_from_member
      geosearchstore_from_coord geosearch_by_radius_from_member read_search read_search_store
      collect_bytes shape_args bytes_eq ascii
  geosearch_lem P serve store key destination member coord radius unit shape order count any
        store_dist starts near back =
      let found = λ (r : Option (Query F)).
        decoded (collect_bytes redis) serve (map_option (λ q. (key, q)) r) in
      let stored = λ (r : Option (Query F)).
        decoded (to_i64 redis) store (map_option (λ q. (destination, key, q)) r) in
      (
        ap found (read_found (from_member member) shape tt back order count any),
        ap found (read_found (from_position coord) shape starts back order count any),
        ap stored (read_stored (from_member member) shape tt back order count any store_dist),
        ap stored (read_stored (from_position coord) shape starts back order count any store_dist),
        ap found (read_plain (from_member member) (by_radius radius unit) tt near),
      )
