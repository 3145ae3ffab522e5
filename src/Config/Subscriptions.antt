-- ===== src/Config/Subscriptions.antt =====
-- The Pub/Sub subscriptions of src/config/common.rs: a hash map from the three modes to sets of
-- channels, here a function of the mode, and a set as a list.
pub mod Laws
use glide_rust.Base.{
  Bytes, bytes_eq, Bool, true, false, ◌&&◌, ◌||◌, Option, none, some, List, [], ◌∷◌, if◌then◌else◌,
  is_empty,
}

pub data PubSubChannelMode : Type 0 where
  exact pattern sharded : PubSubChannelMode

-- `redis::PubSubSubscriptionKind`
pub data SubscriptionKind : Type 0 where
  core_exact core_pattern core_sharded : SubscriptionKind

unfoldable pub mode_to_core : PubSubChannelMode → SubscriptionKind
mode_to_core exact = core_exact
mode_to_core pattern = core_pattern
mode_to_core sharded = core_sharded

-- The derived `PartialEq` of the two.
abbrev pub mode_eq : PubSubChannelMode → PubSubChannelMode → Bool
mode_eq exact exact = true
mode_eq pattern pattern = true
mode_eq sharded sharded = true
mode_eq _ _ = false

abbrev pub kind_eq : SubscriptionKind → SubscriptionKind → Bool
kind_eq core_exact core_exact = true
kind_eq core_pattern core_pattern = true
kind_eq core_sharded core_sharded = true
kind_eq _ _ = false

-- `HashSet::contains`, `HashSet::insert` and `or_default`.
unfoldable pub contains : Bytes → List Bytes → Bool
contains channel [] = false
contains channel (x ∷ xs) = bytes_eq channel x || contains channel xs

unfoldable pub insert : Bytes → List Bytes → List Bytes
insert channel xs = if contains channel xs then xs else channel ∷ xs

abbrev pub or_default : Option (List Bytes) → List Bytes
or_default none = []
or_default (some xs) = xs

abbrev pub ChannelMap : Type 0
ChannelMap = PubSubChannelMode → Option (List Bytes)

abbrev pub SubscriptionInfo : Type 0
SubscriptionInfo = SubscriptionKind → Option (List Bytes)

unfoldable pub new_subscriptions : ChannelMap
new_subscriptions mode = none

unfoldable pub subscribe : PubSubChannelMode → Bytes → ChannelMap → ChannelMap
subscribe mode channel subs m =
    if mode_eq m mode then some (insert channel (or_default (subs mode))) else subs m

-- `PubSubSubscriptions::is_empty`, over the values of the three keys.
unfoldable pub has_no_channel : ChannelMap → Bool
has_no_channel subs =
    is_empty (or_default (subs exact))
    && is_empty (or_default (subs pattern))
    && is_empty (or_default (subs sharded))

-- One turn of the loop of `to_core`, for a key that may be absent; `HashMap::insert` overwrites.
abbrev pub copy : SubscriptionKind → Option (List Bytes) → SubscriptionInfo → SubscriptionInfo
copy kind none info k = info k
copy kind (some xs) info k = if kind_eq k kind then some xs else info k

unfoldable pub subscriptions_to_core : ChannelMap → SubscriptionInfo
unfolding mode_to_core
subscriptions_to_core subs = copy (mode_to_core exact) (subs exact) (
    copy (mode_to_core pattern) (subs pattern)
      (copy (mode_to_core sharded) (subs sharded) (λ k. none)))
