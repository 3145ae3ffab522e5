-- ===== src/Tests/ClientTests.antt =====
-- The clients, their channel and their pipelines at concrete inputs.
use glide_rust.Base.{
  zero, bytes_eq, ℕ, pos, Bytes, ascii, true, false, none, some, List, [], ◌∷◌, ok, map_err, ◌≡◌,
  refl, ◌↔◌, arith, sym, suc, ◌+◌, ◌==◌, leb,
}
use glide_rust.Base.Fallible.{map_ok, ok_injective}
use glide_rust.Redis.{bulk_string, int, array, Values, end, more}
use glide_rust.Error.{from_redis_error}
use glide_rust.Config.Common.{new_common, enable_pubsub}
use glide_rust.Config.Standalone.{GlideClientConfiguration}
use glide_rust.Client.PubSub.{
  PushInfo, message_push, other_push, PushRx, recv_pubsub_message, try_recv_pubsub_message,
}
use glide_rust.Client.PubSub.Order.{
  first, rest, messages, or_nothing, recv_pubsub_message_lem, Session, send, Reach, here, next,
  InOrder, Reach-InOrder,
}
use glide_rust.Client.Connect.{GlideClient, CoreClient, connect, push_channel}
use glide_rust.Client.Connect.Laws.{AsksNothing, connect_lem}
use glide_rust.Client.ClusterScan.{ScanCore, scan_state, cluster_scan}
use glide_rust.Client.ClusterScan.Laws.{page, cluster_scan_lem}
use glide_rust.Pipeline.{PipelineCore, new_options, run_pipeline, dispatch_pipeline}
use glide_rust.Pipeline.Laws.{AnswersArrays, unwrap, run_pipeline-dispatch_pipeline}
use glide_rust.Tests.ConfigTests.{default}
use glide_rust.Tests.Samples.{redis, redis-IsExact}

abbrev push : PushInfo ℕ ℕ
push = record {
  kind = message_push;
  values = bulk_string (ascii "c") ∷ bulk_string (ascii "hi") ∷ [];
}

abbrev noise : PushInfo ℕ ℕ
noise = record { kind = other_push 3; values = [] }

abbrev rx : PushRx ℕ ℕ
rx = record { queue = noise ∷ push ∷ []; closed = false }

recv_pubsub_message_example :
    ((recv_pubsub_message redis (some rx)).0
      ≡ first redis false (messages redis (noise ∷ push ∷ [])))
    × ((queue : List (PushInfo ℕ ℕ)) × ((recv_pubsub_message redis (some rx)).1
          ≡ some (record rx { queue = queue }))
        × (messages redis queue ≡ rest redis (messages redis (noise ∷ push ∷ []))))
    × (try_recv_pubsub_message redis (some rx) ≡ (
      or_nothing redis (recv_pubsub_message redis (some rx)).0,
      (recv_pubsub_message redis (some rx)).1,
    ))
recv_pubsub_message_example = recv_pubsub_message_lem redis rx

abbrev fresh : Session redis
fresh = record { rx = record { queue = []; closed = false }; sent = []; received = [] }

abbrev pushed : Session redis
pushed = record {
  rx = record { queue = push ∷ []; closed = false };
  sent = push ∷ [];
  received = [];
}

one_push : Reach redis fresh pushed
one_push = next here (send fresh push refl)

Reach-InOrder_example : InOrder redis pushed
Reach-InOrder_example = Reach-InOrder redis refl one_push

-- A core that connects, and answers every command with 1; the world counts the calls.
abbrev core : CoreClient ℕ ℕ ℕ ℕ (Unit {0}) ℕ
core = record {
  default_request = default;
  new_core = λ request sender w. (ok 9, w + 1);
  send_command = λ inner cmd routing w. (ok (int (pos 1)), w + 1);
  update_password = λ inner password now w. (ok (int (pos 1)), w + 1);
}

abbrev config : GlideClientConfiguration
config = record { common = enable_pubsub (new_common []); database_id = pos 2 }

abbrev client : GlideClient ℕ ℕ ℕ
client = record { inner = 9; pubsub_rx = push_channel config.common; db = pos 2 }

connect_example :
    (client.db ≡ config.database_id) × ((client.pubsub_rx ≡ none) ↔ AsksNothing config.common)
unfolding connect
connect_example = connect_lem core config client 0 1 refl

abbrev keys : List Bytes
keys = ascii "a" ∷ ascii "b" ∷ []

abbrev scan_core : ScanCore ℕ ℕ ℕ ℕ
scan_core = record {
  new_state = 0;
  get_cluster_scan_cursor = λ id. ok 1;
  scan_cluster = λ state args w. (ok (page redis (ascii "7") keys), w + 1);
}

cluster_scan_example :
    cluster_scan redis scan_core (ascii "0") none (some 10) none 0 ≡ (ok (ascii "7", keys), 1)
unfolding scan_state ascii bytes_eq
cluster_scan_example =
    cluster_scan_lem redis scan_core (ascii "0") (ascii "7") keys 0 none (some 10) none 0 1
      redis-IsExact (omega arith, tt) refl refl

-- A pipeline is the number of its commands, and a transaction is one with more than ten.
abbrev replies : ℕ → Values ℕ ℕ
replies zero = end
replies (suc n) = more (int (pos n)) (replies n)

abbrev pipes : PipelineCore ℕ ℕ ℕ ℕ ℕ
pipes = record {
  is_empty = λ n. n == 0;
  is_atomic = λ n. leb 10 n;
  send_transaction = λ n routing timeout raise w. (ok (array (replies n)), w + 1);
  send_pipeline = λ n routing raise timeout retry w. (ok (array (replies n)), w + 1);
  default_retry = record { server_error = false; connection_error = false };
}

pipes-AnswersArrays : AnswersArrays pipes
pipes-AnswersArrays n retry w value answered = (replies n, sym (ok_injective answered))

run_pipeline_dispatch_example : run_pipeline pipes 2 none true new_options 0 ≡ (
  map_ok (unwrap pipes false) (map_err from_redis_error (dispatch_pipeline pipes redis 2 none 0).0),
  (dispatch_pipeline pipes redis 2 none 0).1,
)
run_pipeline_dispatch_example =
    run_pipeline-dispatch_pipeline pipes redis 2 0 refl refl pipes-AnswersArrays
