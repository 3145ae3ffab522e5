-- ===== src/Commands/Geo.antt =====
-- src/commands/geo.rs: the search areas, the commands and the reading of their replies.
pub mod Laws
pub mod Reading
pub mod Searching
use glide_rust.Base.{ℤ, Bytes, Bool, Option, none, some, List, [], ◌∷◌, ◌++◌, map, ok}
use glide_rust.Base.Fallible.{◌>>=◌}
use glide_rust.Base.Io.{Io}
use glide_rust.Redis.{Value, array, more, end, elems, Redis, Args, kw, each, opt, flag}
use glide_rust.Error.{GlideError, GlideResult}
use glide_rust.Values.{to_bytes, to_opt_bytes, to_i64, to_f64, to_opt_f64}
use glide_rust.Executor.{CommandExecutor, call}
use glide_rust.Commands.Options.{
  ConditionalChange, conditional_change_args, OrderBy, order_word, int_of, float_of,
}
use glide_rust.Commands.Replies.{items_or_self, items_or_one}

pub data GeoUnit : Type 0 where
  meters kilometers miles feet : GeoUnit

unfoldable pub unit_word : GeoUnit → Args
unit_word meters = kw "m"
unit_word kilometers = kw "km"
unit_word miles = kw "mi"
unit_word feet = kw "ft"

pub record GeospatialData (F : Type 0) : Type 0 where
  pub longitude : F
  pub latitude : F

-- The fields of a variant in their order: `radius` and `unit`; `width`, `height` and `unit`.
pub data GeoSearchShape (F : Type 0) : Type 0 where
  by_radius : F → GeoUnit → GeoSearchShape F
  by_box : F → F → GeoUnit → GeoSearchShape F

module _ {F O : Type 0} (redis : Redis F O) where
  unfoldable pub shape_args : GeoSearchShape F → Args
  unfolding unit_word
  shape_args (by_radius radius unit) = kw "BYRADIUS" ++ float_of redis radius ++ unit_word unit
  shape_args (by_box width height unit) =
      kw "BYBOX" ++ float_of redis width ++ float_of redis height ++ unit_word unit

  -- `ANY` is written under `COUNT` only.
  unfoldable pub add_search_tail : Option OrderBy → Option ℤ → Bool → Args
  unfolding order_word
  add_search_tail order count any =
      opt order order_word ++ opt count (λ c. kw "COUNT" ++ int_of redis c ++ flag any "ANY")

  unfoldable pub collect_bytes : Value F O → GlideResult (List Bytes)
  collect_bytes v = items_or_one (to_bytes redis) v

  -- The loop of `geopos`: an item that is no array of two is no position.
  unfoldable pub positions : List (Value F O) → GlideResult (List (Option (F × F)))
  positions [] = ok []
  positions (array (more x (more y end)) ∷ items) = do
    lat ← to_f64 redis y
    lon ← to_f64 redis x
    rest ← positions items
    ok (some (lon, lat) ∷ rest)
  positions (_ ∷ items) = do rest ← positions items; ok (none ∷ rest)

  unfoldable pub parse_geopos : Value F O → GlideResult (List (Option (F × F)))
  unfolding positions
  parse_geopos (array vs) = positions (elems vs)
  parse_geopos _ = ok []

  -- The two words of a coordinate, and the loop over the members with their positions.
  abbrev coord_args : GeospatialData F → Args
  coord_args p = float_of redis p.longitude ++ float_of redis p.latitude

  abbrev positioned : List (Args × GeospatialData F) → Args
  positioned members = each (map (λ (m, p). coord_args p ++ m) members)

  module _ {P W : Type 0} (client : CommandExecutor F O P W) where
    unfoldable pub geoadd : Args → List (Args × GeospatialData F) → Io W GlideError ℤ
    geoadd key members_positions =
        call client (kw "GEOADD" ++ key ++ positioned members_positions) (to_i64 redis)

    unfoldable pub geodist : Args → Args → Args → Option GeoUnit → Io W GlideError (Option F)
    unfolding unit_word
    geodist key member1 member2 unit =
        call client (kw "GEODIST" ++ key ++ member1 ++ member2 ++ opt unit unit_word)
          (to_opt_f64 redis)

    unfoldable pub geohash : Args → List Args → Io W GlideError (List (Option Bytes))
    geohash key members =
        call client (kw "GEOHASH" ++ key ++ each members) (items_or_self (to_opt_bytes redis))

    unfoldable pub geopos : Args → List Args → Io W GlideError (List (Option (F × F)))
    unfolding parse_geopos
    geopos key members = call client (kw "GEOPOS" ++ key ++ each members) parse_geopos

    unfoldable pub geosearch_by_radius_from_member :
        Args → Args → F → GeoUnit → Io W GlideError (List Bytes)
    unfolding unit_word
    geosearch_by_radius_from_member key member radius unit =
        call client
          (kw "GEOSEARCH"
            ++ key
            ++ kw "FROMMEMBER"
            ++ member
            ++ kw "BYRADIUS"
            ++ float_of redis radius
            ++ unit_word unit)
          (items_or_one (to_bytes redis))

    unfoldable pub geoadd_options :
        Args → List (Args × GeospatialData F) → Option ConditionalChange → Bool → Io W GlideError ℤ
    unfolding conditional_change_args
    geoadd_options key members_positions conditional_change changed =
        call client
          (kw "GEOADD"
            ++ key
            ++ opt conditional_change conditional_change_args
            ++ flag changed "CH"
            ++ positioned members_positions)
          (to_i64 redis)

    unfoldable pub geosearch_from_member :
        Args
        → Args
        → GeoSearchShape F
        → Option OrderBy
        → Option ℤ
        → Bool
        → Io W GlideError (List Bytes)
    unfolding shape_args add_search_tail collect_bytes
    geosearch_from_member key member shape order count any =
        call client
          (kw "GEOSEARCH"
            ++ key
            ++ kw "FROMMEMBER"
            ++ member
            ++ shape_args shape
            ++ add_search_tail order count any)
          collect_bytes

    unfoldable pub geosearch_from_coord :
        Args
        → GeospatialData F
        → GeoSearchShape F
        → Option OrderBy
        → Option ℤ
        → Bool
        → Io W GlideError (List Bytes)
    unfolding shape_args add_search_tail collect_bytes
    geosearch_from_coord key coord shape order count any =
        call client
          (kw "GEOSEARCH"
            ++ key
            ++ kw "FROMLONLAT"
            ++ coord_args coord
            ++ shape_args shape
            ++ add_search_tail order count any)
          collect_bytes

    unfoldable pub geosearchstore_from_member :
        Args
        → Args
        → Args
        → GeoSearchShape F
        → Option OrderBy
        → Option ℤ
        → Bool
        → Bool
        → Io W GlideError ℤ
    unfolding shape_args add_search_tail
    geosearchstore_from_member destination source member shape order count any store_dist =
        call client
          (kw "GEOSEARCHSTORE"
            ++ destination
            ++ source
            ++ kw "FROMMEMBER"
            ++ member
            ++ shape_args shape
            ++ add_search_tail order count any
            ++ flag store_dist "STOREDIST")
          (to_i64 redis)

    unfoldable pub geosearchstore_from_coord :
        Args
        → Args
        → GeospatialData F
        → GeoSearchShape F
        → Option OrderBy
        → Option ℤ
        → Bool
        → Bool
        → Io W GlideError ℤ
    unfolding shape_args add_search_tail
    geosearchstore_from_coord destination source coord shape order count any store_dist =
        call client
          (kw "GEOSEARCHSTORE"
            ++ destination
            ++ source
            ++ kw "FROMLONLAT"
            ++ coord_args coord
            ++ shape_args shape
            ++ add_search_tail order count any
            ++ flag store_dist "STOREDIST")
          (to_i64 redis)
