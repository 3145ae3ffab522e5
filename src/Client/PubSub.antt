-- ===== src/Client/PubSub.antt =====
-- The Pub/Sub receiver of src/client/mod.rs: pushes from the core wait in an unbounded channel, and
-- the two receiving calls skip those that are no messages.
pub mod Order
use glide_rust.Base.{
  ℕ, Bytes, ascii, Bool, true, false, Option, none, some, List, [], ◌∷◌, ok, err, if◌then◌else◌,
}
use glide_rust.Redis.{Value, bulk_string, simple_string, Redis}
use glide_rust.Error.{request, GlideResult}

-- `redis::PushKind`, by the kinds that the client names, and `redis::PushInfo`.
pub data PushKind : Type 0 where
  message_push pmessage_push smessage_push : PushKind
  other_push : ℕ → PushKind

pub record PushInfo (F O : Type 0) : Type 0 where
  pub kind : PushKind
  pub values : List (Value F O)

pub data PubSubMessageKind : Type 0 where
  message pmessage smessage : PubSubMessageKind

pub record PubSubMessage : Type 0 where
  pub kind : PubSubMessageKind
  pub channel : Bytes
  pub payload : Bytes
  pub pattern : Option Bytes

-- `PushRx`: the pushes that wait, and whether every sender is gone.
pub record PushRx (F O : Type 0) : Type 0 where
  pub queue : List (PushInfo F O)
  pub closed : Bool

-- `make_push_channel`: the two ends are one channel.
unfoldable pub make_push_channel : {F O : Type 0} → Bool → Option (PushRx F O)
make_push_channel has_subscriptions =
    if has_subscriptions then some (record { queue = []; closed = false }) else none

-- `pubsub_rx`
unfoldable pub pubsub_rx : {F O : Type 0} → Option (PushRx F O) → GlideResult (PushRx F O)
pubsub_rx none = err (request (ascii "client has no configured pub/sub subscriptions"))
pubsub_rx (some rx) = ok rx

module _ {F O : Type 0} (redis : Redis F O) where
  unfoldable pub value_to_bytes : Value F O → Bytes
  value_to_bytes (bulk_string b) = b
  value_to_bytes (simple_string s) = s
  value_to_bytes v = redis.debug v

  -- The two shapes of `push_to_message`, by `has_pattern`; a push with too few values is none.
  unfoldable pub plain_message : PubSubMessageKind → List (Value F O) → Option PubSubMessage
  unfolding value_to_bytes
  plain_message kind (channel ∷ payload ∷ _) = some (record {
    kind = kind;
    channel = value_to_bytes channel;
    payload = value_to_bytes payload;
    pattern = none;
  })
  plain_message kind _ = none

  unfoldable pub pattern_message : List (Value F O) → Option PubSubMessage
  unfolding value_to_bytes
  pattern_message (pattern ∷ channel ∷ payload ∷ _) = some (record {
    kind = pmessage;
    channel = value_to_bytes channel;
    payload = value_to_bytes payload;
    pattern = some (value_to_bytes pattern);
  })
  pattern_message _ = none

  unfoldable pub push_to_message : PushInfo F O → Option PubSubMessage
  unfolding plain_message pattern_message
  push_to_message push = elim push.kind [
    | message_push ↦ plain_message message push.values
    | smessage_push ↦ plain_message smessage push.values
    | pmessage_push ↦ pattern_message push.values
    | other_push _ ↦ none
  ]

  -- The loop of `recv_pubsub_message` over the pushes that wait: the answer, or `none` where the
  -- call goes on waiting, and the pushes that are left.
  unfoldable pub recv_from :
      Bool → List (PushInfo F O) → Option (GlideResult PubSubMessage) × List (PushInfo F O)
  recv_from closed [] =
      (if closed then some (err (request (ascii "pub/sub channel closed"))) else none, [])
  recv_from closed (push ∷ queue) = elim (push_to_message push) [
    | some msg ↦ (some (ok msg), queue)
    | none ↦ recv_from closed queue
  ]

  -- The loop of `try_recv_pubsub_message`.
  unfoldable pub try_recv_from :
      Bool → List (PushInfo F O) → GlideResult (Option PubSubMessage) × List (PushInfo F O)
  try_recv_from closed [] =
      (if closed then err (request (ascii "pub/sub channel closed")) else ok none, [])
  try_recv_from closed (push ∷ queue) = elim (push_to_message push) [
    | some msg ↦ (ok (some msg), queue)
    | none ↦ try_recv_from closed queue
  ]

  -- `recv_pubsub_message`, which is `get_pubsub_message` of both clients.
  unfoldable pub recv_pubsub_message :
      Option (PushRx F O) → Option (GlideResult PubSubMessage) × Option (PushRx F O)
  unfolding recv_from pubsub_rx
  recv_pubsub_message rx = elim (pubsub_rx rx) [
    | err e ↦ (some (err e), rx)
    | ok guard ↦
        let (answer, queue) = recv_from guard.closed guard.queue in
        (answer, some (record guard { queue = queue }))
  ]

  -- `try_recv_pubsub_message`, which is `try_get_pubsub_message` of both clients.
  unfoldable pub try_recv_pubsub_message :
      Option (PushRx F O) → GlideResult (Option PubSubMessage) × Option (PushRx F O)
  unfolding try_recv_from pubsub_rx
  try_recv_pubsub_message rx = elim (pubsub_rx rx) [
    | err e ↦ (err e, rx)
    | ok guard ↦
        let (answer, queue) = try_recv_from guard.closed guard.queue in
        (answer, some (record guard { queue = queue }))
  ]
