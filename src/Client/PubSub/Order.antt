-- ===== src/Client/PubSub/Order.antt =====
-- No message is lost, doubled or reordered on the way through the receiver of src/client/mod.rs.
use glide_rust.Base.{
  ascii, Bool, true, false, Option, none, some, List, [], ◌∷◌, ◌++◌, ok, err, ◌≡◌, refl, ap, sym,
  ◌∙◌, append_assoc, Option-cases, inl, inr, if◌then◌else◌,
}
use glide_rust.Redis.{Redis}
use glide_rust.Error.{request, GlideResult}
use glide_rust.Client.PubSub.{
  PushInfo, PubSubMessage, PushRx, push_to_message, recv_from, try_recv_from, recv_pubsub_message,
  try_recv_pubsub_message, pubsub_rx,
}

module _ {F O : Type 0} (redis : Redis F O) where
  -- The messages among some pushes, in order.
  abbrev pub keep : Option PubSubMessage → List PubSubMessage → List PubSubMessage
  keep none ms = ms
  keep (some m) ms = m ∷ ms

  abbrev pub messages : List (PushInfo F O) → List PubSubMessage
  messages [] = []
  messages (push ∷ queue) = keep (push_to_message redis push) (messages queue)

  keep-append :
      (o : Option PubSubMessage) (xs ys : List PubSubMessage) → keep o (xs ++ ys) ≡ keep o xs ++ ys
  keep-append none xs ys = refl
  keep-append (some m) xs ys = refl

  messages-append : (ps qs : List (PushInfo F O)) → messages (ps ++ qs) ≡ messages ps ++ messages qs
  messages-append [] qs = refl
  messages-append (p ∷ ps) qs =
      ap (keep (push_to_message redis p)) (messages-append ps qs)
      ∙ keep-append (push_to_message redis p) (messages ps) (messages qs)

  -- What a queue of messages answers when it is not, or is, empty: the first message, and else the
  -- end of a closed channel.
  abbrev pub first : Bool → List PubSubMessage → Option (GlideResult PubSubMessage)
  first closed [] = if closed then some (err (request (ascii "pub/sub channel closed"))) else none
  first closed (m ∷ ms) = some (ok m)

  abbrev pub rest : List PubSubMessage → List PubSubMessage
  rest [] = []
  rest (m ∷ ms) = ms

  recv_from_lem :
      (closed : Bool) (queue : List (PushInfo F O))
      → ((recv_from redis closed queue).0 ≡ first closed (messages queue))
        × (messages (recv_from redis closed queue).1 ≡ rest (messages queue))
  unfolding recv_from
  recv_from_lem closed [] = (refl, refl)
  recv_from_lem closed (p ∷ queue) = elim (Option-cases (push_to_message redis p)) [
    | inl skipped ↦ rw (skipped, recv_from) (recv_from_lem closed queue)
    | inr (m, found) ↦ rw (found, recv_from) (refl, refl)
  ]

  -- `try_recv` answers as `recv` does, with "nothing yet" where `recv` waits.
  abbrev pub or_nothing : Option (GlideResult PubSubMessage) → GlideResult (Option PubSubMessage)
  or_nothing none = ok none
  or_nothing (some (ok m)) = ok (some m)
  or_nothing (some (err e)) = err e

  try_recv_from_lem :
      (closed : Bool) (queue : List (PushInfo F O))
      → try_recv_from redis closed queue
        ≡ (or_nothing (recv_from redis closed queue).0, (recv_from redis closed queue).1)
  unfolding recv_from try_recv_from
  try_recv_from_lem true [] = refl
  try_recv_from_lem false [] = refl
  try_recv_from_lem closed (p ∷ queue) = elim (Option-cases (push_to_message redis p)) [
    | inl skipped ↦ rw (skipped, try_recv_from, recv_from) (try_recv_from_lem closed queue)
    | inr (m, found) ↦ rw (found, try_recv_from, recv_from) refl
  ]

  -- On a client with a channel, `get_pubsub_message` gives the first message of the channel, skipping
  -- other pushes, and takes it and no other; without a message it reports the closed channel, or goes
  -- on waiting. `try_get_pubsub_message` leaves the same channel and gives the same answer, with "no
  -- message" where the other waits.
  pub recv_pubsub_message_lem :
      (rx : PushRx F O)
      → let answer = (recv_pubsub_message redis (some rx)).0 in
        let after = (recv_pubsub_message redis (some rx)).1 in
        (answer ≡ first rx.closed (messages rx.queue))
        × ((queue : List (PushInfo F O)) × (after ≡ some (record rx { queue = queue }))
            × (messages queue ≡ rest (messages rx.queue)))
        × (try_recv_pubsub_message redis (some rx) ≡ (or_nothing answer, after))
  unfolding recv_pubsub_message try_recv_pubsub_message pubsub_rx
  recv_pubsub_message_lem rx =
      let (answer, left) = recv_from_lem rx.closed rx.queue in
      let same = try_recv_from_lem rx.closed rx.queue in
      (answer, ((recv_from redis rx.closed rx.queue).1, refl, left), rw same refl)

  -- A client with a channel, the pushes that its core has sent, and the messages that its callers
  -- have been given.
  pub record Session : Type 0 where
    pub rx : PushRx F O
    pub sent : List (PushInfo F O)
    pub received : List PubSubMessage

  abbrev pub given : Option (GlideResult PubSubMessage) → List PubSubMessage
  given (some (ok m)) = m ∷ []
  given _ = []

  abbrev pub given_now : GlideResult (Option PubSubMessage) → List PubSubMessage
  given_now (ok (some m)) = m ∷ []
  given_now _ = []

  -- The core sends a push or goes away, or a caller makes one of the two receiving calls; the lock
  -- lets one call run at a time.
  pub data Step : Session → Session → Type 0 where
    send :
        (s : Session) (push : PushInfo F O)
        → s.rx.closed ≡ false
        → Step s (record s {
          rx = record (s.rx) { queue = s.rx.queue ++ push ∷ [] };
          sent = s.sent ++ push ∷ [];
        })
    close : (s : Session) → Step s (record s { rx = record (s.rx) { closed = true } })
    get :
        (s : Session) (rx : PushRx F O)
        → (recv_pubsub_message redis (some (s.rx))).1 ≡ some rx
        → Step s (record s {
          rx = rx;
          received = s.received ++ given (recv_pubsub_message redis (some (s.rx))).0;
        })
    try_get :
        (s : Session) (rx : PushRx F O)
        → (try_recv_pubsub_message redis (some (s.rx))).1 ≡ some rx
        → Step s (record s {
          rx = rx;
          received = s.received ++ given_now (try_recv_pubsub_message redis (some (s.rx))).0;
        })

  pub data Reach (s : Session) : Session → Type 0 where
    here : Reach s s
    next : {t u : Session} → Reach s t → Step t u → Reach s u

  abbrev pub InOrder : Session → Type 0
  InOrder s = messages s.sent ≡ s.received ++ messages s.rx.queue

  given-first : (closed : Bool) (ms : List PubSubMessage) → given (first closed ms) ++ rest ms ≡ ms
  given-first true [] = refl
  given-first false [] = refl
  given-first closed (m ∷ ms) = refl

  given_now-or_nothing :
      (a : Option (GlideResult PubSubMessage)) → given_now (or_nothing a) ≡ given a
  given_now-or_nothing none = refl
  given_now-or_nothing (some (ok m)) = refl
  given_now-or_nothing (some (err e)) = refl

  -- The messages that wait after a receiving call.
  waiting : Option (PushRx F O) → List PubSubMessage
  waiting none = []
  waiting (some rx) = messages rx.queue

  waiting_after :
      (rx rx' : PushRx F O)
      → (recv_pubsub_message redis (some rx)).1 ≡ some rx'
      → messages rx'.queue ≡ rest (messages rx.queue)
  unfolding waiting
  waiting_after rx rx' e =
      let (_, (queue, after, left), _) = recv_pubsub_message_lem rx in
      ap waiting (sym e ∙ after) ∙ left

  -- What a call gives and what it leaves make up what was there.
  given_and_waiting :
      (rx rx' : PushRx F O)
      → (recv_pubsub_message redis (some rx)).1 ≡ some rx'
      → given (recv_pubsub_message redis (some rx)).0 ++ messages rx'.queue ≡ messages rx.queue
  given_and_waiting rx rx' e =
      let (answer, _, _) = recv_pubsub_message_lem rx in
      rw (answer, waiting_after rx rx' e) (given-first rx.closed (messages rx.queue))

  Step-InOrder : {s t : Session} → Step s t → InOrder s → InOrder t
  Step-InOrder (send s push open_yet) h =
      messages-append s.sent (push ∷ [])
      ∙ ap (λ l. l ++ messages (push ∷ [])) h
      ∙ append_assoc s.received (messages s.rx.queue) (messages (push ∷ []))
      ∙ ap (λ l. s.received ++ l) (sym (messages-append s.rx.queue (push ∷ [])))
  Step-InOrder (close s) h = h
  Step-InOrder (get s rx e) h =
      h
      ∙ ap (λ l. s.received ++ l) (sym (given_and_waiting s.rx rx e))
      ∙ sym (append_assoc s.received _ (messages rx.queue))
  Step-InOrder (try_get s rx e) h =
      let (_, _, same) = recv_pubsub_message_lem s.rx in
      let answer = (recv_pubsub_message redis (some (s.rx))).0 in
      h
      ∙ ap (λ l. s.received ++ l) (sym (given_and_waiting s.rx rx (rw same at e)))
      ∙ sym (append_assoc s.received (given answer) (messages rx.queue))
      ∙ ap (λ l. (s.received ++ l) ++ messages rx.queue)
          (sym (ap (λ o. given_now o.0) same ∙ given_now-or_nothing answer))

  -- From a session in which it holds, under any interleaving of pushes, closing and receiving calls: the messages
  -- that callers were given, followed by those that wait, are the messages that the core sent, in
  -- order. None is lost, doubled or overtaken.
  pub Reach-InOrder : {s t : Session} → InOrder s → Reach s t → InOrder t
  Reach-InOrder h here = h
  Reach-InOrder h (next r st) = Step-InOrder st (Reach-InOrder h r)
