-- ===== src/Commands/Geo/Reading.antt =====
-- A server's reading of the searches of src/commands/geo.rs.
use glide_rust.Base.{
  ℤ, Bytes, ascii, String, bytes_eq, Bool, true, false, Option, none, some, List, [], ◌∷◌, ◌++◌,
  ◌≡◌, refl, ap, ◌∙◌, if◌then◌else◌, map_option, append_assoc,
}
use glide_rust.Redis.{Redis, Cmd, raw, kw, flag}
use glide_rust.Commands.Options.{float_of, OrderBy, ascending, descending, order_word}
use glide_rust.Commands.Geo.{
  GeoUnit, meters, kilometers, miles, feet, unit_word, GeospatialData, GeoSearchShape, by_radius,
  by_box, shape_args, add_search_tail,
}

-- Where a search starts.
pub data Origin (F : Type 0) : Type 0 where
  from_member : Bytes → Origin F
  from_position : GeospatialData F → Origin F

-- What follows the shape: the order, the count with `ANY` or without, and `STOREDIST`.
abbrev pub Ending : Type 0
Ending = Option OrderBy × Option (ℤ × Bool) × Bool

abbrev pub Query : Type 0 → Type 0
Query F = Origin F × GeoSearchShape F × Ending

-- The count as a server sees it: without one, there is no `ANY`.
abbrev pub counting : Option ℤ → Bool → Option (ℤ × Bool)
counting none any = none
counting (some n) any = some (n, any)

module _ {F O : Type 0} (redis : Redis F O) where
  -- The words of a search from its origin on.
  abbrev pub origin_words : Origin F → List Bytes
  origin_words (from_member member) = kw "FROMMEMBER" ++ raw member
  origin_words (from_position p) =
      kw "FROMLONLAT" ++ float_of redis p.longitude ++ float_of redis p.latitude

  abbrev pub tail_words : Option OrderBy → Option ℤ → Bool → Bool → List Bytes
  tail_words order count any dist = add_search_tail redis order count any ++ flag dist "STOREDIST"

  module _ (read_float : Bytes → Option F) where
    -- The server reads back the numbers of a shape, and of a position.
    abbrev pub IsReadBack : GeoSearchShape F → Type 0
    IsReadBack (by_radius r u) = read_float (redis.float_arg r) ≡ some r
    IsReadBack (by_box w h u) =
        (read_float (redis.float_arg w) ≡ some w) × (read_float (redis.float_arg h) ≡ some h)

    abbrev pub IsReadOrigin : Origin F → Type 0
    IsReadOrigin (from_member member) = Unit
    IsReadOrigin (from_position p) =
        (read_float (redis.float_arg p.longitude) ≡ some p.longitude)
        × (read_float (redis.float_arg p.latitude) ≡ some p.latitude)

unfoldable pub read_unit : Bytes → Option GeoUnit
read_unit word =
    if bytes_eq word (ascii "m")
    then some meters
    else if bytes_eq word (ascii "km")
    then some kilometers
    else if bytes_eq word (ascii "mi")
    then some miles
    else if bytes_eq word (ascii "ft")
    then some feet
    else none

abbrev read_flag : String → List Bytes → Bool × List Bytes
read_flag word [] = (false, [])
read_flag word (w ∷ words) = if bytes_eq w (ascii word) then (true, words) else (false, w ∷ words)

abbrev read_end : List Bytes → Option Bool
read_end [] = some false
read_end (w ∷ []) = if bytes_eq w (ascii "STOREDIST") then some true else none
read_end _ = none

unfoldable read_order : List Bytes → Option OrderBy × List Bytes
read_order [] = (none, [])
read_order (w ∷ words) =
    if bytes_eq w (ascii "ASC")
    then (some ascending, words)
    else if bytes_eq w (ascii "DESC")
    then (some descending, words)
    else (none, w ∷ words)

module _ {F : Type 0} (read_int : Bytes → Option ℤ) (read_float : Bytes → Option F) where
  -- The words after `COUNT`, the words from `COUNT` on, and the words from the order on.
  abbrev counted : List Bytes → Option (Option (ℤ × Bool) × Bool)
  counted [] = none
  counted (n ∷ words) = elim (read_int n) [
    | none ↦ none
    | some i ↦
        let (any, rest) = read_flag "ANY" words in
        map_option (λ d. (some (i, any), d)) (read_end rest)
  ]

  unfoldable read_count : List Bytes → Option (Option (ℤ × Bool) × Bool)
  read_count [] = some (none, false)
  read_count (w ∷ words) =
      if bytes_eq w (ascii "COUNT")
      then counted words
      else map_option (λ d. (none, d)) (read_end (w ∷ words))

  unfoldable pub read_ending : List Bytes → Option Ending
  unfolding read_order read_count
  read_ending words =
      let (order, rest) = read_order words in map_option (λ (c, d). (order, c, d)) (read_count rest)

  abbrev radius : Option F → Option GeoUnit → Option (GeoSearchShape F)
  radius (some r) (some u) = some (by_radius r u)
  radius _ _ = none

  abbrev box : Option F → Option F → Option GeoUnit → Option (GeoSearchShape F)
  box (some w) (some h) (some u) = some (by_box w h u)
  box _ _ _ = none

  abbrev shaped : Option (GeoSearchShape F) → Option Ending → Option (GeoSearchShape F × Ending)
  shaped (some s) (some e) = some (s, e)
  shaped _ _ = none

  abbrev boxed : Bytes → Bytes → List Bytes → Option (GeoSearchShape F × Ending)
  boxed w h [] = none
  boxed w h (u ∷ words) =
      shaped (box (read_float w) (read_float h) (read_unit u)) (read_ending words)

  unfoldable pub read_shape : List Bytes → Option (GeoSearchShape F × Ending)
  unfolding read_ending read_unit
  read_shape (word ∷ a ∷ b ∷ words) =
      if bytes_eq word (ascii "BYRADIUS")
      then shaped (radius (read_float a) (read_unit b)) (read_ending words)
      else if bytes_eq word (ascii "BYBOX")
      then boxed a b words
      else none
  read_shape _ = none

  abbrev position : Option F → Option F → Option (Origin F)
  position (some lon) (some lat) = some (from_position (record { longitude = lon; latitude = lat }))
  position _ _ = none

  abbrev started : Option (Origin F) → Option (GeoSearchShape F × Ending) → Option (Query F)
  started (some o) (some (s, e)) = some (o, s, e)
  started _ _ = none

  abbrev positioned : Bytes → List Bytes → Option (Query F)
  positioned lon [] = none
  positioned lon (lat ∷ words) =
      started (position (read_float lon) (read_float lat)) (read_shape words)

  unfoldable pub read_query : List Bytes → Option (Query F)
  unfolding read_shape
  read_query (word ∷ a ∷ words) =
      if bytes_eq word (ascii "FROMMEMBER")
      then started (some (from_member a)) (read_shape words)
      else if bytes_eq word (ascii "FROMLONLAT")
      then positioned a words
      else none
  read_query _ = none

  unfoldable pub read_search : Cmd → Option (Bytes × Query F)
  unfolding read_query
  read_search (name ∷ key ∷ words) =
      if bytes_eq name (ascii "GEOSEARCH")
      then map_option (λ q. (key, q)) (read_query words)
      else none
  read_search _ = none

  unfoldable pub read_search_store : Cmd → Option (Bytes × Bytes × Query F)
  unfolding read_query
  read_search_store (name ∷ destination ∷ source ∷ words) =
      if bytes_eq name (ascii "GEOSEARCHSTORE")
      then map_option (λ q. (destination, source, q)) (read_query words)
      else none
  read_search_store _ = none

  module _ {O : Type 0} (redis : Redis F O)
      (reads_int : (n : ℤ) → read_int (redis.int_arg n) ≡ some n) where
    read_count-words :
        (count : Option ℤ) (any dist : Bool)
        → read_count (tail_words redis none count any dist) ≡ some (counting count any, dist)
    unfolding read_count add_search_tail bytes_eq ascii
    read_count-words none any true = refl
    read_count-words none any false = refl
    read_count-words (some n) true true = rw (reads_int n) refl
    read_count-words (some n) true false = rw (reads_int n) refl
    read_count-words (some n) false true = rw (reads_int n) refl
    read_count-words (some n) false false = rw (reads_int n) refl

    read_order-words :
        (order : Option OrderBy) (count : Option ℤ) (any dist : Bool)
        → read_order (tail_words redis order count any dist)
          ≡ (order, tail_words redis none count any dist)
    unfolding read_order add_search_tail order_word bytes_eq ascii
    read_order-words (some ascending) count any dist = refl
    read_order-words (some descending) count any dist = refl
    read_order-words none none any true = refl
    read_order-words none none any false = refl
    read_order-words none (some n) any dist = refl

    pub read_ending-words :
        (order : Option OrderBy) (count : Option ℤ) (any dist : Bool)
        → read_ending (tail_words redis order count any dist)
          ≡ some (order, counting count any, dist)
    unfolding read_ending
    read_ending-words order count any dist =
        rw (read_order-words order count any dist, read_count-words count any dist) refl

    pub read_shape-args :
        (shape : GeoSearchShape F) (words : List Bytes)
        → IsReadBack redis read_float shape
        → read_shape (shape_args redis shape ++ words) ≡ shaped (some shape) (read_ending words)
    unfolding read_shape shape_args unit_word read_unit bytes_eq ascii
    read_shape-args (by_radius r meters) words h = rw h refl
    read_shape-args (by_radius r kilometers) words h = rw h refl
    read_shape-args (by_radius r miles) words h = rw h refl
    read_shape-args (by_radius r feet) words h = rw h refl
    read_shape-args (by_box x y meters) words (wide, high) = rw (wide, high) refl
    read_shape-args (by_box x y kilometers) words (wide, high) = rw (wide, high) refl
    read_shape-args (by_box x y miles) words (wide, high) = rw (wide, high) refl
    read_shape-args (by_box x y feet) words (wide, high) = rw (wide, high) refl

    read_query-origin :
        (origin : Origin F) (words : List Bytes)
        → IsReadOrigin redis read_float origin
        → read_query (origin_words redis origin ++ words) ≡ started (some origin) (read_shape words)
    unfolding read_query bytes_eq ascii
    read_query-origin (from_member member) words h = refl
    read_query-origin (from_position p) words (lon, lat) = rw (lon, lat) refl

    -- A search as it is written, up to the words after the shape.
    pub read_query-words :
        (origin : Origin F) (shape : GeoSearchShape F) (words : List Bytes) (ending : Ending)
        → IsReadOrigin redis read_float origin
        → IsReadBack redis read_float shape
        → read_ending words ≡ some ending
        → read_query (origin_words redis origin ++ shape_args redis shape ++ words)
          ≡ some (origin, shape, ending)
    read_query-words origin shape words ending starts back ends =
        ap read_query (append_assoc (origin_words redis origin) (shape_args redis shape) words)
        ∙ read_query-origin origin (shape_args redis shape ++ words) starts
        ∙ ap (started (some origin)) (read_shape-args shape words back)
        ∙ ap (λ e. started (some origin) (shaped (some shape) e)) ends
