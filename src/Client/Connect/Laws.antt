-- ===== src/Client/Connect/Laws.antt =====
-- When a connected client can receive messages, for both `connect` functions of src/client/mod.rs.
use glide_rust.Base.{
  ℤ, Bytes, Bool, true, false, ◌||◌, Option, none, some, Result, ok, err, ◌≡◌, refl, ap, sym, ◌↔◌,
  arith,
}
use glide_rust.Base.Fallible.{ok_injective}
use glide_rust.Base.Io.{◌>>=◌, lift, map_io_err}
use glide_rust.Error.{GlideError, from_connection_error}
use glide_rust.Config.Subscriptions.{PubSubChannelMode, ChannelMap}
use glide_rust.Config.Subscriptions.Laws.{has, has_no_channel_lem}
use glide_rust.Config.Common.{CommonConfig}
use glide_rust.Config.Standalone.{GlideClientConfiguration}
use glide_rust.Config.Standalone
use glide_rust.Client.PubSub.{PushRx, make_push_channel}
use glide_rust.Client.Connect.{GlideClient, CoreClient, has_subs, push_channel, connect}

-- Whether the configuration subscribes to the channel.
abbrev pub wants : Option ChannelMap → PubSubChannelMode → Bytes → Bool
wants none mode channel = false
wants (some subs) mode channel = has subs mode channel

has_subs_lem :
    (o : Option ChannelMap)
    → (has_subs o ≡ false)
      ↔ ((mode : PubSubChannelMode) (channel : Bytes) → wants o mode channel ≡ false)
unfolding has_subs
has_subs_lem none = (λ _ mode channel. refl, λ _. refl)
has_subs_lem (some subs) =
    let (there, back) = has_no_channel_lem subs in
    (λ h. there (ground arith), λ h. rw (back h) refl)

-- No channel is made exactly when none is forced and no channel is subscribed to.
abbrev pub AsksNothing : CommonConfig → Type 0
AsksNothing cfg =
    (cfg.force_pubsub_channel ≡ false)
    × ((mode : PubSubChannelMode) (channel : Bytes)
        → wants cfg.pubsub_subscriptions mode channel ≡ false)

module _ {F O : Type 0} where
  made :
      (a b : Bool)
      → (make_push_channel {F = F} {O = O} (a || b) ≡ none) ↔ ((b ≡ false) × (a ≡ false))
  unfolding make_push_channel
  made true b = (λ h. cc, λ (_, h). cc)
  made false true = (λ h. cc, λ (h, _). cc)
  made false false = (λ _. (refl, refl), λ _. refl)

  push_channel_lem :
      (cfg : CommonConfig) → (push_channel {F = F} {O = O} cfg ≡ none) ↔ AsksNothing cfg
  unfolding push_channel
  push_channel_lem cfg =
      let (there, back) = made (has_subs cfg.pubsub_subscriptions) cfg.force_pubsub_channel in
      let (empty, full) = has_subs_lem cfg.pubsub_subscriptions in
      (λ h. let (b, a) = there h in (b, empty a), λ (b, a). back (b, full a))

module _ {F O P H D W : Type 0} (core : CoreClient F O P H D W) where
  -- A client is what its three parts were when the core answered.
  built :
      (p : Result GlideError H × W) (rx : Option (PushRx F O)) (db : ℤ) (client : GlideClient F O H)
      (w w' : W)
      → ((λ _. p) >>= λ inner. lift (ok (record { inner = inner; pubsub_rx = rx; db = db }))) w
        ≡ (ok client, w')
      → (client.db ≡ db) × (rx ≡ client.pubsub_rx)
  built (ok inner, w'') rx db client w w' h =
      let same : record { inner = inner; pubsub_rx = rx; db = db } ≡ client =
        ok_injective (ap (λ r. r.0) h) in
      (ap (λ c. c.db) (sym same), ap (λ c. c.pubsub_rx) same)
  built (err e, w'') rx db client w w' h = let refused = ap (λ r. r.0) h in cc

  -- A standalone client that has connected holds the database of its configuration, and has no
  -- channel to receive messages from exactly when the configuration neither forces one nor
  -- subscribes to any channel in any mode.
  pub connect_lem :
      (config : GlideClientConfiguration) (client : GlideClient F O H) (w w' : W)
      → connect core config w ≡ (ok client, w')
      → (client.db ≡ config.database_id) × ((client.pubsub_rx ≡ none) ↔ AsksNothing config.common)
  unfolding connect
  connect_lem config client w w' h =
      let rx = push_channel config.common in
      let request = Standalone.to_request core.default_request config in
      let answer = map_io_err from_connection_error (core.new_core request rx) w in
      let (db, same) = built answer rx config.database_id client w w' h in
      (db, rw (← same) (push_channel_lem config.common))
