-- ===== src/Config/Subscriptions/Laws.antt =====
-- What a set of subscriptions holds, for `PubSubSubscriptions` of src/config/common.rs.
use glide_rust.Base.{
  Bytes, bytes_eq, bytes_eq_refl, bytes_eq_sound, Bool, Bool-cases, true, false, ◌&&◌, ◌||◌, List,
  [], ◌∷◌, ◌≡◌, refl, ◌↔◌, inl, inr, arith, is_empty,
}
use glide_rust.Config.Subscriptions.{
  PubSubChannelMode, exact, pattern, sharded, mode_to_core, mode_eq, contains, insert, or_default,
  ChannelMap, subscribe, has_no_channel, subscriptions_to_core,
}

-- Whether the channel is subscribed to in the mode.
abbrev pub has : ChannelMap → PubSubChannelMode → Bytes → Bool
has subs mode channel = contains channel (or_default (subs mode))

insert_lem :
    (x c : Bytes) (xs : List Bytes) → contains x (insert c xs) ≡ (bytes_eq x c || contains x xs)
unfolding insert contains
insert_lem x c xs = elim (Bool-cases (contains c xs)) [
  | inr fresh ↦ rw fresh refl
  | inl known ↦ elim (Bool-cases (bytes_eq x c)) [
    | inl same ↦ rw (known, same, bytes_eq_sound x c same) known
    | inr distinct ↦ rw (known, distinct) refl
  ]
]

-- After `subscribe` exactly the channels of before are subscribed to, and the new one in its mode.
pub subscribe_lem :
    (subs : ChannelMap) (mode m : PubSubChannelMode) (channel c : Bytes)
    → has (subscribe mode channel subs) m c
      ≡ ((mode_eq m mode && bytes_eq c channel) || has subs m c)
unfolding subscribe
subscribe_lem subs exact exact channel c = insert_lem c channel (or_default (subs exact))
subscribe_lem subs pattern pattern channel c = insert_lem c channel (or_default (subs pattern))
subscribe_lem subs sharded sharded channel c = insert_lem c channel (or_default (subs sharded))
subscribe_lem subs exact pattern channel c = refl
subscribe_lem subs exact sharded channel c = refl
subscribe_lem subs pattern exact channel c = refl
subscribe_lem subs pattern sharded channel c = refl
subscribe_lem subs sharded exact channel c = refl
subscribe_lem subs sharded pattern channel c = refl

is_empty_iff : (xs : List Bytes) → (is_empty xs ≡ true) ↔ ((c : Bytes) → contains c xs ≡ false)
unfolding contains
is_empty_iff [] = (λ _ c. refl, λ _. refl)
is_empty_iff (x ∷ xs) =
    (λ h c. cc, λ h. let hit = bytes_eq_refl x in let miss = h x in ground arith)

all_modes :
    (P : PubSubChannelMode → Type 0)
    → P exact
    → P pattern
    → P sharded
    → (mode : PubSubChannelMode) → P mode
all_modes P e p s exact = e
all_modes P e p s pattern = p
all_modes P e p s sharded = s

-- The subscriptions are reported empty exactly when no channel is subscribed to in any mode.
pub has_no_channel_lem :
    (subs : ChannelMap)
    → (has_no_channel subs ≡ true)
      ↔ ((mode : PubSubChannelMode) (channel : Bytes) → has subs mode channel ≡ false)
unfolding has_no_channel
has_no_channel_lem subs =
    let (e, e') = is_empty_iff (or_default (subs exact)) in
    let (p, p') = is_empty_iff (or_default (subs pattern)) in
    let (s, s') = is_empty_iff (or_default (subs sharded)) in
    (
      λ h.
          let he = e (ground arith) in
          let hp = p (ground arith) in
          let hs = s (ground arith) in
          all_modes (λ mode. (channel : Bytes) → has subs mode channel ≡ false) he hp hs,
      λ h.
          let he = e' (h exact) in
          let hp = p' (h pattern) in let hs = s' (h sharded) in ground arith,
    )

-- The core is given the same set of channels under the kind of each mode.
pub subscriptions_to_core_lem :
    (subs : ChannelMap) (mode : PubSubChannelMode)
    → subscriptions_to_core subs (mode_to_core mode) ≡ subs mode
unfolding subscriptions_to_core mode_to_core
subscriptions_to_core_lem subs exact = ground arith
subscriptions_to_core_lem subs _ = ground arith
