-- ===== src/Tests/KeyTests.antt =====
-- The scans and the sorts of the keys against small servers.
use glide_rust.Base.{
  if◌then◌else◌, arith, List, [], ◌∷◌, bytes_eq, ℕ, pos, Bytes, ascii, true, Option, none, some, ok,
  ◌≡◌, refl,
}
use glide_rust.Base.Io.{Io}
use glide_rust.Error.{GlideError}
use glide_rust.Redis.{raw, nil, bulk_string}
use glide_rust.Values.{to_bytes, to_i64}
use glide_rust.Commands.Answers.{answering, decoded}
use glide_rust.Commands.Options.{OrderBy, descending}
use glide_rust.Client.ClusterScan.{
  ObjectType, string_type, list_type, set_type, zset_type, hash_type, stream_type, CoreObjectType,
  core_string, core_list, core_set, core_zset, core_hash, core_stream, to_redis,
}
use glide_rust.Commands.Options.{Limit}
use glide_rust.Commands.Replies.{items_or_one}
use glide_rust.Commands.Generic.{scan_cursor, sort, sort_ro, sort_store}
use glide_rust.Commands.Generic.Scanning.{ScanRequest, read_scan, paging, scan_cursor_lem}
use glide_rust.Commands.Generic.Sorting.{SortRequest, read_sort, sort_lem}
use glide_rust.Tests.CommandTests.{read_int, reads_int}
use glide_rust.Tests.Samples.{Reply, redis, redis-IsExact}

abbrev type_name : CoreObjectType → Bytes
type_name core_string = ascii "string"
type_name core_list = ascii "list"
type_name core_set = ascii "set"
type_name core_zset = ascii "zset"
type_name core_hash = ascii "hash"
type_name core_stream = ascii "stream"

abbrev read_type : Bytes → Option ObjectType
read_type word =
    if bytes_eq word (ascii "string")
    then some string_type
    else if bytes_eq word (ascii "list")
    then some list_type
    else if bytes_eq word (ascii "set")
    then some set_type
    else if bytes_eq word (ascii "zset")
    then some zset_type
    else if bytes_eq word (ascii "hash")
    then some hash_type
    else if bytes_eq word (ascii "stream")
    then some stream_type
    else none

reads_type : (t : ObjectType) → read_type (type_name (to_redis t)) ≡ some t
unfolding to_redis bytes_eq ascii
reads_type string_type = refl
reads_type list_type = refl
reads_type set_type = refl
reads_type zset_type = refl
reads_type hash_type = refl
reads_type stream_type = refl

abbrev page_of : ScanRequest → ℕ → Bytes × List Bytes
page_of asked w = (53 ∷ [], ascii "user" ∷ asked.0 ∷ [])

scan_cursor_example :
    scan_cursor redis type_name
      (answering ℕ (read_scan read_int read_type) (paging page_of))
      (ascii "0")
      (some (ascii "u*"))
      (some (pos 9))
      (some hash_type)
      3
    ≡ (ok (page_of (ascii "0", some (ascii "u*"), some (pos 9), some hash_type) 3), 3)
scan_cursor_example =
    scan_cursor_lem redis type_name read_int read_type reads_int reads_type redis-IsExact ℕ page_of
      (ascii "0") (some (ascii "u*")) (some (pos 9)) (some hash_type) 3 (omega arith, tt)

abbrev sort_answer : Option SortRequest → Io ℕ GlideError Reply
sort_answer none w = (ok nil, w)
sort_answer (some asked) w = (ok (bulk_string asked.1), 1)

abbrev farthest : Option OrderBy
farthest = some descending

abbrev top_two : Option Limit
top_two = some (record { offset = pos 0; count = pos 2 })

sort_example :
    (sort redis
        (answering ℕ (read_sort read_int) sort_answer)
        (raw (ascii "l"))
        farthest
        top_two
        true
      ≡ decoded
          (items_or_one (to_bytes redis))
          sort_answer
          (some (ascii "SORT", ascii "l", (top_two, farthest, true, none))))
    × (sort_ro redis
          (answering ℕ (read_sort read_int) sort_answer)
          (raw (ascii "l"))
          farthest
          top_two
          true
        ≡ decoded
            (items_or_one (to_bytes redis))
            sort_answer
            (some (ascii "SORT_RO", ascii "l", (top_two, farthest, true, none))))
    × (sort_store redis
          (answering ℕ (read_sort read_int) sort_answer)
          (raw (ascii "l"))
          (raw (ascii "d"))
          farthest
          top_two
          true
        ≡ decoded
            (to_i64 redis)
            sort_answer
            (some (ascii "SORT", ascii "l", (top_two, farthest, true, some (ascii "d")))))
sort_example =
    sort_lem redis read_int reads_int ℕ sort_answer (ascii "l") (ascii "d") farthest top_two true
