-- ===== src/Commands/Generic/Scanning.antt =====
-- `scan_cursor` of src/commands/generic.rs against a server that takes the command apart.
use glide_rust.Base.{
  ℤ, Bytes, ascii, bytes_eq, Option, none, some, List, [], ◌∷◌, map, ok, ◌<◌, All, ◌≡◌, refl, ap,
  ◌∙◌, if◌then◌else◌,
}
use glide_rust.Base.Io.{Io}
use glide_rust.Error.{GlideError}
use glide_rust.Redis.{
  Value, nil, bulk_string, array, more, end, vec, elems-vec, Redis, IsExact, Cmd,
}
use glide_rust.Values.Laws.{collect-bulk_strings, to_string-bulk_string}
use glide_rust.Client.ClusterScan.{ObjectType, CoreObjectType, to_redis}
use glide_rust.Commands.Answers.{answering, decoded}
use glide_rust.Commands.Generic.{parse_scan_reply, scan_cursor_cmd, scan_cursor}

-- What a scan asks for: the cursor, the pattern, the count and the type.
abbrev pub ScanRequest : Type 0
ScanRequest = Bytes × Option Bytes × Option ℤ × Option ObjectType

module _ (read_int : Bytes → Option ℤ) (read_type : Bytes → Option ObjectType) where
  -- The options after the cursor, in any order.
  unfoldable pub read_scan_options :
      Bytes → Option Bytes → Option ℤ → Option ObjectType → List Bytes → Option ScanRequest
  read_scan_options cursor pattern count kind [] = some (cursor, pattern, count, kind)
  read_scan_options cursor pattern count kind (word ∷ value ∷ words) =
      let as_pattern = read_scan_options cursor (some value) count kind words in
      let as_count = read_scan_options cursor pattern (read_int value) kind words in
      let as_type = read_scan_options cursor pattern count (read_type value) words in
      if bytes_eq word (ascii "MATCH")
      then as_pattern
      else if bytes_eq word (ascii "COUNT")
      then as_count
      else if bytes_eq word (ascii "TYPE")
      then as_type
      else none
  read_scan_options cursor pattern count kind _ = none

  unfoldable pub read_scan : Cmd → Option ScanRequest
  unfolding read_scan_options
  read_scan (name ∷ cursor ∷ words) =
      if bytes_eq name (ascii "SCAN") then read_scan_options cursor none none none words else none
  read_scan _ = none

-- A server by the page that it finds, the next cursor and the keys.
abbrev pub paging :
    {F O W : Type 0}
    → (ScanRequest → W → Bytes × List Bytes)
    → Option ScanRequest
    → Io W GlideError (Value F O)
paging find none w = (ok nil, w)
paging find (some asked) w =
    let (next, keys) = find asked w in
    (ok (array (more (bulk_string next) (more (array (vec (map bulk_string keys))) end))), w)

module _ {F O : Type 0} (redis : Redis F O) where
  module _ (type_name : CoreObjectType → Bytes) (read_int : Bytes → Option ℤ)
      (read_type : Bytes → Option ObjectType)
      (reads_int : (n : ℤ) → read_int (redis.int_arg n) ≡ some n)
      (reads_type : (t : ObjectType) → read_type (type_name (to_redis t)) ≡ some t) where
    read_scan-cursor_cmd :
        (cursor : Bytes) (pattern : Option Bytes) (count : Option ℤ) (kind : Option ObjectType)
        → read_scan read_int read_type (scan_cursor_cmd redis type_name cursor pattern count kind)
          ≡ some (cursor, pattern, count, kind)
    unfolding read_scan scan_cursor_cmd bytes_eq ascii
    read_scan-cursor_cmd cursor none none none = refl
    read_scan-cursor_cmd cursor (some p) none none = refl
    read_scan-cursor_cmd cursor none (some n) none = rw (reads_int n) refl
    read_scan-cursor_cmd cursor (some p) (some n) none = rw (reads_int n) refl
    read_scan-cursor_cmd cursor none none (some t) = rw (reads_type t) refl
    read_scan-cursor_cmd cursor (some p) none (some t) = rw (reads_type t) refl
    read_scan-cursor_cmd cursor none (some n) (some t) = rw (reads_int n, reads_type t) refl
    read_scan-cursor_cmd cursor (some p) (some n) (some t) = rw (reads_int n, reads_type t) refl

    module _ (exact : IsExact redis) where
      parse_scan_reply-page :
          (next : Bytes) (keys : List Bytes)
          → All (λ c. c < 128) next
          → parse_scan_reply redis
              (array (more (bulk_string next) (more (array (vec (map bulk_string keys))) end)))
            ≡ ok (next, keys)
      unfolding parse_scan_reply
      parse_scan_reply-page next keys is_ascii =
          rw (to_string-bulk_string redis exact next is_ascii)
            (rw (elems-vec (map bulk_string keys), collect-bulk_strings redis keys) refl)

      -- With a server that answers a scan with the page that it finds for what it reads, whose cursors
      -- are ASCII texts, `scan_cursor` gives exactly the next cursor and the keys that are found for
      -- its cursor, pattern, count and type, each option given or not, and leaves the world as it is.
      -- The server reads back the numbers and the types that are written.
      pub scan_cursor_lem :
          (P : Type 0) {W : Type 0} (find : ScanRequest → W → Bytes × List Bytes) (cursor : Bytes)
          (pattern : Option Bytes) (count : Option ℤ) (kind : Option ObjectType) (w : W)
          → All (λ c. c < 128) (find (cursor, pattern, count, kind) w).0
          → scan_cursor redis type_name
              (answering P (read_scan read_int read_type) (paging find))
              cursor
              pattern
              count
              kind
              w
            ≡ (ok (find (cursor, pattern, count, kind) w), w)
      unfolding scan_cursor
      scan_cursor_lem P find cursor pattern count kind w is_ascii =
          ap (λ asked. decoded (parse_scan_reply redis) (paging find) asked w)
            (read_scan-cursor_cmd cursor pattern count kind)
          ∙ ap (λ r. (r, w))
              (parse_scan_reply-page (find (cursor, pattern, count, kind) w).0
                (find (cursor, pattern, count, kind) w).1 is_ascii)
