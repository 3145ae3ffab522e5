-- ===== src/Commands/Geo/Laws.antt =====
-- What `geopos` and `geohash` of src/commands/geo.rs give for the members of a server.
use glide_rust.Base.{
  map, ascii, bytes_eq, if◌then◌else◌, ◌∙◌, Bytes, Option, none, some, List, [], ◌∷◌, ok, ◌≡◌, refl,
  ap,
}
use glide_rust.Base.Fallible.{collect}
use glide_rust.Redis.{
  Value, nil, double, bulk_string, array, more, end, vec, elems-vec, Redis, IsExact, Cmd, raw,
  elems,
}
use glide_rust.Values.{to_opt_bytes, to_bytes}
use glide_rust.Values.Laws.{to_f64-double}
use glide_rust.Base.Io.{Io}
use glide_rust.Error.{GlideError}
use glide_rust.Commands.Replies.Laws.{singles, each-singles}
use glide_rust.Executor.{CommandExecutor}
use glide_rust.Commands.Geo.{positions, parse_geopos, geopos, geohash}

module _ {F O : Type 0} (redis : Redis F O) where
  -- How a server sends the positions and the hashes of members, some of which it does not know.
  abbrev pub placed : List (Option (F × F)) → List (Value F O)
  placed [] = []
  placed (none ∷ ps) = nil ∷ placed ps
  placed (some (lon, lat) ∷ ps) = array (more (double lon) (more (double lat) end)) ∷ placed ps

  abbrev pub hashed : List (Option Bytes) → List (Value F O)
  hashed [] = []
  hashed (none ∷ hs) = nil ∷ hashed hs
  hashed (some h ∷ hs) = bulk_string h ∷ hashed hs

  abbrev reply :
      {W : Type 0}
      → (Bytes → Bytes → W → Option (F × F))
      → (Bytes → Bytes → W → Option Bytes)
      → Cmd
      → Io W GlideError (Value F O)
  reply position hash (name ∷ key ∷ members) w =
      if bytes_eq name (ascii "GEOPOS")
      then (ok (array (vec (placed (map (λ m. position key m w) members)))), w)
      else if bytes_eq name (ascii "GEOHASH")
      then (ok (array (vec (hashed (map (λ m. hash key m w) members)))), w)
      else (ok nil, w)
  reply position hash _ w = (ok nil, w)

  -- A server with positions and hashes of the members of keys, which takes the commands apart.
  abbrev pub locating :
      {P W : Type 0}
      → (Bytes → Bytes → W → Option (F × F))
      → (Bytes → Bytes → W → Option Bytes)
      → CommandExecutor F O P W
  locating position hash = record { execute_command = λ cmd routing. reply position hash cmd }

  hashes_read : (hs : List (Option Bytes)) → collect (to_opt_bytes redis) (hashed hs) ≡ ok hs
  unfolding collect to_opt_bytes to_bytes
  hashes_read [] = refl
  hashes_read (none ∷ hs) = rw (hashes_read hs) refl
  hashes_read (some h ∷ hs) = rw (hashes_read hs) refl

  module _ (exact : IsExact redis) where
    positions_read : (ps : List (Option (F × F))) → positions redis (placed ps) ≡ ok ps
    unfolding positions
    positions_read [] = refl
    positions_read (none ∷ ps) = rw (positions_read ps) refl
    positions_read (some (lon, lat) ∷ ps) =
        rw (to_f64-double redis exact lat, to_f64-double redis exact lon, positions_read ps) refl

    -- `geopos` gives the positions, longitude first, and `geohash` the hashes that the server has of
    -- the members of the call under the key of the call, one for each member in their order, and
    -- nothing in the place of a member that the server does not know.
    pub geopos_lem :
        (P : Type 0) {W : Type 0} (position : Bytes → Bytes → W → Option (F × F))
        (hash : Bytes → Bytes → W → Option Bytes) (key : Bytes) (members : List Bytes) (w : W)
        → let server = locating {P = P} position hash in
          (geopos redis server (raw key) (singles members) w
            ≡ (ok (map (λ m. position key m w) members), w))
          × (geohash redis server (raw key) (singles members) w
              ≡ (ok (map (λ m. hash key m w) members), w))
    unfolding geopos parse_geopos geohash bytes_eq ascii
    geopos_lem P position hash key members w =
        let positions_of = λ (ms : List Bytes). map (λ m. position key m w) ms in
        let hashes_of = λ (ms : List Bytes). map (λ m. hash key m w) ms in
        (
          ap (λ ms. (positions redis (elems (vec (placed (positions_of ms)))), w))
                (each-singles members)
              ∙ ap (λ r. (r, w))
                  (ap (positions redis) (elems-vec (placed (positions_of members)))
                    ∙ positions_read (positions_of members)),
          ap (λ ms. (collect (to_opt_bytes redis) (elems (vec (hashed (hashes_of ms)))), w))
                (each-singles members)
              ∙ ap (λ r. (r, w))
                  (ap (collect (to_opt_bytes redis)) (elems-vec (hashed (hashes_of members)))
                    ∙ hashes_read (hashes_of members)),
        )
