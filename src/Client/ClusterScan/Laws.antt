-- ===== src/Client/ClusterScan/Laws.antt =====
-- What `cluster_scan` of src/client/mod.rs reads out of a reply, and where it goes on.
use glide_rust.Base.{
  ℕ, Bytes, Option, List, [], ◌∷◌, map, ok, All, ◌<◌, ◌≡◌, refl, ap, ◌∙◌, map_option,
}
use glide_rust.Base.Io.{io_ok}
use glide_rust.Redis.{Value, array, bulk_string, vec, elems-vec, Redis, IsExact}
use glide_rust.Error.{from_redis_error}
use glide_rust.Values.Laws.{collect-bulk_strings}
use glide_rust.Client.ClusterScan.{
  ClusterScanCursor, ClusterScanArgs, ObjectType, to_redis, ScanCore, scan_keys, scan_reply,
  scan_state, cluster_scan,
}

module _ {F O : Type 0} (redis : Redis F O) where
  -- The reply that carries a cursor and some keys.
  abbrev pub page : ClusterScanCursor → List Bytes → Value F O
  page next keys = array (vec (bulk_string next ∷ array (vec (map bulk_string keys)) ∷ []))

  scan_reply-page :
      (next : ClusterScanCursor) (keys : List Bytes)
      → IsExact redis
      → All (λ c. c < 128) next
      → scan_reply redis (page next keys) ≡ ok (next, keys)
  unfolding scan_reply scan_keys
  scan_reply-page next keys exact is_ascii =
      rw (exact.string_of-bulk_string next is_ascii)
        (rw (elems-vec (map bulk_string keys), collect-bulk_strings redis keys) refl)

  module _ {S W : Type 0} (core : ScanCore F O S W) where
    -- One call hands back exactly the cursor and the keys of the core's reply, whatever the filters
    -- are, and leaves the world as the core's call does.
    pub cluster_scan_lem :
        (cursor next : ClusterScanCursor) (keys : List Bytes) (state : S)
        (match_pattern : Option Bytes) (count : Option ℕ) (object_type : Option ObjectType)
        (w w' : W)
        → IsExact redis
        → All (λ c. c < 128) next
        → scan_state redis core cursor ≡ ok state
        → core.scan_cluster state
            (record {
              match_pattern = match_pattern;
              count = count;
              object_type = map_option to_redis object_type;
            })
            w
          ≡ (ok (page next keys), w')
        → cluster_scan redis core cursor match_pattern count object_type w ≡ (ok (next, keys), w')
    unfolding cluster_scan
    cluster_scan_lem cursor next keys state match_pattern count object_type w w' exact is_ascii
          started answered =
        let args : ClusterScanArgs = record {
          match_pattern = match_pattern;
          count = count;
          object_type = map_option to_redis object_type;
        } in
        let called =
          io_ok from_redis_error (core.scan_cluster state args) (scan_reply redis) w answered in
        rw started (called ∙ ap (λ r. (r, w')) (scan_reply-page next keys exact is_ascii))
