-- ===== src/Tests/SearchTests.antt =====
-- The searches and the streams of the extension traits against small servers.
use glide_rust.Base.{
  List, Bool, [], ◌∷◌, bytes_eq, ℕ, ℤ, pos, Bytes, ascii, true, false, Option, none, some, ok, ◌≡◌,
  refl,
}
use glide_rust.Base.Io.{Io}
use glide_rust.Error.{GlideError}
use glide_rust.Redis.{raw, nil, int, array, more, end, bulk_string}
use glide_rust.Values.{to_i64, to_opt_string}
use glide_rust.Commands.Answers.{answering, decoded}
use glide_rust.Commands.Options.{OrderBy, descending}
use glide_rust.Commands.Geo.{
  GeospatialData, GeoSearchShape, kilometers, by_radius, by_box, collect_bytes,
  geosearch_by_radius_from_member, geosearch_from_member, geosearch_from_coord,
  geosearchstore_from_member, geosearchstore_from_coord,
}
use glide_rust.Commands.Geo.Reading.{
  Query, from_member, from_position, read_search, read_search_store,
}
use glide_rust.Commands.Geo.Searching.{geosearch_lem}
use glide_rust.Streams.Options.{StreamTrimOptions, by_max_len, by_min_id, StreamAddOptions}
use glide_rust.Streams.Commands.{xadd, xadd_options, xtrim_maxlen, xtrim_minid}
use glide_rust.Streams.Adding.{
  AddRequest, TrimRequest, singles, IsId, IsThreshold, trim_by, read_xadd, read_xtrim,
}
use glide_rust.Streams.Adding.Laws.{xadd_lem}
use glide_rust.Tests.CommandTests.{read_int, reads_int, read_one}
use glide_rust.Tests.Samples.{Reply, redis}

-- A server that finds one member for any search, and one that stores as many as the world counts.
abbrev find : Option (Bytes × Query ℕ) → Io ℕ GlideError Reply
find none w = (ok nil, w)
find (some asked) w = (ok (array (more (bulk_string asked.0) end)), w)

abbrev keep : Option (Bytes × Bytes × Query ℕ) → Io ℕ GlideError Reply
keep none w = (ok nil, w)
keep (some asked) w = (ok (int (pos w)), 1)

abbrev wide : GeoSearchShape ℕ
wide = by_box 30 20 kilometers

abbrev town : GeospatialData ℕ
town = record { longitude = 15; latitude = 37 }

abbrev farthest : Option OrderBy
farthest = some descending

abbrev three : Option ℤ
three = some (pos 3)

geosearch_example :
    (geosearch_from_member redis
        (answering ℕ (read_search read_int read_one) find)
        (raw (ascii "k"))
        (raw (ascii "m"))
        wide
        farthest
        three
        true
      ≡ decoded (collect_bytes redis) find (
          some (ascii "k", (from_member (ascii "m"), wide, (farthest, some (pos 3, true), false)))))
    × (geosearch_from_coord redis
          (answering ℕ (read_search read_int read_one) find)
          (raw (ascii "k"))
          town
          wide
          farthest
          three
          true
        ≡ decoded
            (collect_bytes redis)
            find
            (some (ascii "k", (from_position town, wide, (farthest, some (pos 3, true), false)))))
    × (geosearchstore_from_member redis
          (answering ℕ (read_search_store read_int read_one) keep)
          (raw (ascii "d"))
          (raw (ascii "k"))
          (raw (ascii "m"))
          wide
          farthest
          three
          true
          true
        ≡ decoded (to_i64 redis) keep (
            some (
              ascii "d",
              ascii "k",
              (from_member (ascii "m"), wide, (farthest, some (pos 3, true), true)),
            )))
    × (geosearchstore_from_coord redis
          (answering ℕ (read_search_store read_int read_one) keep)
          (raw (ascii "d"))
          (raw (ascii "k"))
          town
          wide
          farthest
          three
          true
          true
        ≡ decoded (to_i64 redis) keep (
            some (
              ascii "d",
              ascii "k",
              (from_position town, wide, (farthest, some (pos 3, true), true)),
            )))
    × (geosearch_by_radius_from_member redis
          (answering ℕ (read_search read_int read_one) find)
          (raw (ascii "k"))
          (raw (ascii "m"))
          9
          kilometers
        ≡ decoded (collect_bytes redis) find (
            some
              (ascii "k", (from_member (ascii "m"), by_radius 9 kilometers, (none, none, false)))))
geosearch_example =
    geosearch_lem redis read_int read_one reads_int ℕ find keep (ascii "k") (ascii "d") (ascii "m")
      town 9 kilometers wide farthest three true true (refl, refl) refl (refl, refl)

abbrev note : Option AddRequest → Io ℕ GlideError Reply
note none w = (ok nil, w)
note (some asked) w = (ok (bulk_string asked.id), 2)

abbrev cut : Option TrimRequest → Io ℕ GlideError Reply
cut none w = (ok nil, w)
cut (some asked) w = (ok (int (pos 4)), 0)

abbrev temperatures : List (Bytes × Bytes)
temperatures = (ascii "c", ascii "21") ∷ (ascii "f", ascii "70") ∷ []

abbrev last_ten : StreamTrimOptions
last_ten = record {
  strategy = by_max_len;
  exact = false;
  threshold = ascii "10";
  limit = some (pos 2);
}

abbrev appending : StreamAddOptions
appending = record { make_stream = false; trim = some last_ten }

star-IsId : IsId (ascii "*")
unfolding ascii bytes_eq
star-IsId = (refl, refl, refl, refl)

seven-IsThreshold : IsThreshold (redis.int_arg (pos 7))
unfolding ascii bytes_eq
seven-IsThreshold = (refl, refl)

start-IsThreshold : IsThreshold (ascii "0-1")
unfolding ascii bytes_eq
start-IsThreshold = (refl, refl)

abbrev added : Bool → Option StreamTrimOptions → Option AddRequest
added creating trim = some (record {
  key = ascii "s";
  creating = creating;
  trimming = trim;
  id = ascii "*";
  fields = temperatures;
})

xadd_example :
    (xadd redis
        (answering ℕ (read_xadd read_int) note)
        (raw (ascii "s"))
        (ascii "*")
        (singles temperatures)
      ≡ decoded (to_opt_string redis) note (added true none))
    × (xadd_options redis
          (answering ℕ (read_xadd read_int) note)
          (raw (ascii "s"))
          (ascii "*")
          (singles temperatures)
          appending
        ≡ decoded (to_opt_string redis) note (added false (some last_ten)))
    × (xtrim_maxlen redis (answering ℕ (read_xtrim read_int) cut) (raw (ascii "s")) (pos 7) true
        ≡ decoded
            (to_i64 redis)
            cut
            (some (ascii "s", trim_by by_max_len false (redis.int_arg (pos 7)) none)))
    × (xtrim_minid redis
          (answering ℕ (read_xtrim read_int) cut)
          (raw (ascii "s"))
          (ascii "0-1")
          true
        ≡ decoded (to_i64 redis) cut (some (ascii "s", trim_by by_min_id false (ascii "0-1") none)))
xadd_example =
    xadd_lem ℕ redis read_int reads_int note cut (ascii "s") (ascii "*") temperatures appending
      (pos 7) (ascii "0-1") true star-IsId seven-IsThreshold start-IsThreshold
