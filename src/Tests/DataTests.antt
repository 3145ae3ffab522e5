-- ===== src/Tests/DataTests.antt =====
-- Errors, values, routes and streams at concrete inputs.
use glide_rust.Base.{
  ℕ, pos, Bytes, ascii, true, none, some, List, [], ◌∷◌, ok, ◌≡◌, ◌↔◌, ◌≢◌, arith,
}
use glide_rust.Redis.{RedisError, io_error, nil, int, array, map, vec, pairs}
use glide_rust.Error.{timeout, message, from_redis_error}
use glide_rust.Error.Laws.{IsSpecial, from_redis_error_lem}
use glide_rust.Routes.{Topology, slot_key, slot_id, replica, to_routing_info}
use glide_rust.Routes.Laws.{
  Cluster, sent_to, policy_of, meant, expected_policy, resolve, to_routing_info_lem,
}
use glide_rust.Streams.{parse_entries, parse_stream_read, StreamEntry}
use glide_rust.Streams.Laws.{
  resp2_items, resp3_pairs, resp2_streams, resp3_streams, HasAsciiIds, parse_entries_lem,
  parse_stream_read_lem,
}
use glide_rust.Tests.Samples.{Reply, redis, redis-IsExact}

abbrev slow : RedisError
slow = record { kind = io_error; message = ascii "timed out"; is_timeout = true }

from_redis_error_example :
    (message (from_redis_error slow) ≡ ascii "timed out")
    × ((from_redis_error slow ≡ timeout (ascii "timed out"))
        ↔ ((¬ IsSpecial io_error) × (true ≡ true)))
from_redis_error_example = from_redis_error_lem slow

abbrev three : Reply
three = int (pos 3)

int-nil : three ≢ nil
int-nil e = cc

-- Every key has slot 7, and every command one policy.
abbrev topology : Topology ℕ
topology = record { command = λ cmd. none; for_command = λ name. some 1; get_slot = λ key. 7 }

-- Three nodes, the first of which is the primary of every slot.
abbrev cluster : Cluster ℕ
cluster = record {
  nodes = 1 ∷ 2 ∷ 3 ∷ [];
  primaries = 1 ∷ [];
  primary_of = λ slot. 1;
  replica_of = λ slot. 2;
  node_at = λ host port. some 3;
}

to_routing_info_example :
    (sent_to cluster (to_routing_info topology (slot_key (ascii "k") replica) none)
      ≡ meant topology cluster (slot_key (ascii "k") replica))
    × (policy_of (to_routing_info topology (slot_key (ascii "k") replica) none)
        ≡ expected_policy topology (slot_key (ascii "k") replica) none)
    × ((to_routing_info topology (slot_key (ascii "k") replica) none
          ≡ to_routing_info topology (slot_id 7 replica) none)
        ↔ (resolve topology (slot_key (ascii "k") replica) ≡ resolve topology (slot_id 7 replica)))
to_routing_info_example =
    to_routing_info_lem topology cluster (slot_key (ascii "k") replica) (slot_id 7 replica) none

abbrev fields : List (Bytes × Bytes)
fields = (ascii "f", ascii "1") ∷ (ascii "g", ascii "2") ∷ []

abbrev log : List StreamEntry
log = (ascii "1-0", fields) ∷ (ascii "2-0", []) ∷ []

log-HasAsciiIds : HasAsciiIds redis log
unfolding ascii
log-HasAsciiIds = (
  (omega arith, (omega arith, (omega arith, tt))),
  ((omega arith, (omega arith, (omega arith, tt))), tt),
)

parse_entries_example :
    (parse_entries redis (array (vec (resp2_items redis log))) ≡ ok log)
    × (parse_entries redis (map (pairs (resp3_pairs redis log))) ≡ ok log)
parse_entries_example = parse_entries_lem redis redis-IsExact log log-HasAsciiIds

parse_stream_read_example :
    (parse_stream_read redis (array (vec (resp2_streams redis ((ascii "s", log) ∷ []))))
      ≡ ok ((ascii "s", log) ∷ []))
    × (parse_stream_read redis (map (pairs (resp3_streams redis ((ascii "s", log) ∷ []))))
        ≡ ok ((ascii "s", log) ∷ []))
parse_stream_read_example =
    parse_stream_read_lem redis redis-IsExact ((ascii "s", log) ∷ []) (log-HasAsciiIds, tt)
