-- ===== src/Streams/Handlers/Tests.antt =====
-- A stream of one group, with a replay, a message that is there twice, and one that cannot be sent.
use mathlib.Core.Option.{some_inj}
use xmtp_node_go.Subscribe.Frames.{GroupMessage, WelcomeMessage}
use xmtp_node_go.Base.{
  All, Bool, Bytes, List, Option, [], false, length, ltb, member, none, refl, some, subst, true, ℕ,
  ◌==◌, ◌∷◌, ◌≡◌, nat_eq, bytes_eq,
}
use xmtp_node_go.Streams.Handlers.{
  LiveEvent, LiveStream, ReplayEvent, StreamEnd, aborted, dispatches, reads, replays, serve_topics,
  dispatched, cutover_tick, subscribe_group_messages, subscribe_welcome_messages, has_key,
  GroupMessage, SubscriptionDispatcher, keys_of, WelcomeMessage, refused, invalid_argument,
  unavailable,
}
use xmtp_node_go.Streams.Handlers.Rising.{RisingIds}
use xmtp_node_go.Streams.Handlers.Leaving.{serve_topics-leaves, Calm, CalmReplay, CalmLive}
use xmtp_node_go.Subscriptions.{Envelope, new_subscription_dispatcher}
use xmtp_node_go.Subscriptions.Delivery.{Inv}
use xmtp_node_go.Subscriptions.Invariant.{start, Reach-Inv}

-- A message is its group and its id.
abbrev pair_of : Bytes × ℕ → Option (Bytes × ℕ)
pair_of m = some m

abbrev parse_time : Envelope → Option (Bytes × ℕ)
parse_time env = some (env.content_topic, env.timestamp_ns)

abbrev at_most_two : List (Bytes × ℕ) → Bytes × ℕ → Bool
at_most_two sent m = ltb (length sent) 2

abbrev history : List (ReplayEvent (Bytes × ℕ))
history =
    dispatched (some (record { content_topic = 7 ∷ []; timestamp_ns = 2; message = [] }))
    ∷ replays ((7 ∷ [], 1) ∷ (7 ∷ [], 2) ∷ [])
    ∷ []

abbrev events : List LiveEvent
events =
    reads
    ∷ cutover_tick false
    ∷ dispatches (some (record { content_topic = 7 ∷ []; timestamp_ns = 3; message = [] }))
    ∷ reads
    ∷ []

-- A message with the id 0 panics.
abbrev is_zero : Bytes × ℕ → Bool
is_zero m = m.1 == 0

parse_time-Calm :
    (env : Envelope)
    → (env.timestamp_ns == 0) ≡ false
    → Calm pair_of is_zero parse_time at_most_two aborted env
parse_time-Calm env later m parsed =
    subst (λ (z : Bytes × ℕ). is_zero z ≡ false) (some_inj.0 parsed) later

history_calm : All (CalmReplay pair_of is_zero parse_time at_most_two aborted) history
history_calm = (
  parse_time-Calm (record { content_topic = 7 ∷ []; timestamp_ns = 2; message = [] }) refl,
  ((refl, (refl, tt)), tt),
)

events_calm : All (CalmLive pair_of is_zero parse_time at_most_two aborted) events
events_calm = (
  tt,
  (
    tt,
    (
      parse_time-Calm (record { content_topic = 7 ∷ []; timestamp_ns = 3; message = [] }) refl,
      (tt, tt),
    ),
  ),
)

serve_topics-leaves_example :
    (end : Option StreamEnd) × (s : LiveStream (Bytes × ℕ)) × (serve_topics pair_of is_zero
        parse_time at_most_two aborted
        ((7 ∷ []) ∷ [])
        history
        events
        new_subscription_dispatcher
      ≡ some (end, s))
    × RisingIds pair_of s.sent
    × Inv s.dispatcher
    × ((q : ℕ)
        → member q s.dispatcher.subscriptions ≡ true
        → member q new_subscription_dispatcher.subscriptions ≡ true)
serve_topics-leaves_example =
    serve_topics-leaves pair_of is_zero parse_time at_most_two aborted ((7 ∷ []) ∷ []) history
      events new_subscription_dispatcher (Reach-Inv start) history_calm events_calm

-- A nil filter ends the handler before it subscribes, and so does the end of streaming.
nil_filter_refused :
    (parse : Envelope → Option (Option WelcomeMessage))
    (can_send : List (Option WelcomeMessage) → Option WelcomeMessage → Bool)
    (d : SubscriptionDispatcher)
    → subscribe_welcome_messages parse can_send false (some (some (7 ∷ []) ∷ none ∷ [])) [] [] d
      ≡ refused invalid_argument d
unfolding subscribe_welcome_messages has_key keys_of
nil_filter_refused parse can_send d = refl

disabled_refused :
    (parse : Envelope → Option (Option GroupMessage))
    (can_send : List (Option GroupMessage) → Option GroupMessage → Bool)
    (d : SubscriptionDispatcher)
    → subscribe_group_messages parse can_send true ((7 ∷ []) ∷ []) [] [] d ≡ refused unavailable d
unfolding subscribe_group_messages
disabled_refused parse can_send d = refl
