-- ===== src/Streams/Handlers.antt =====
-- The handlers SubscribeGroupMessages and SubscribeWelcomeMessages of pkg/mls/api/v1/service.go: their
-- checks, the subscription, the replay, the live loop and its ends.
--
-- What the select takes is a list of events, in the order taken; a dispatch by the worker is one. The
-- pages that fetchHistorical queries come as events too. A failed Send of a page goes to errChan,
-- which the loop may take at any time.
pub mod Rising
pub mod Leaving
mod Tests
use xmtp_node_go.Base.{
  Bool, Bytes, List, Option, [], empty, false, get_or, if◌then◌else◌, insert, keep, length, ltb,
  map, none, not, some, true, ℕ, ◌++◌, ◌==◌, ◌||◌, ◌∷◌, nat_eq, bytes_eq,
}
use mathlib.Core.Option
use xmtp_node_go.CatchUp.{group_row}
use xmtp_node_go.MessageApi.{topics_of}
use xmtp_node_go.Streams.{metadata_of, get_metadata_from_welcome_message}
use xmtp_node_go.Subscribe.Frames.{GroupMessage, WelcomeMessage}
use xmtp_node_go.Subscriptions.{
  Envelope, SubscriptionDispatcher, Received, subscribe, unsubscribe, receive, handle_envelope,
}
use xmtp_node_go.Topic.{build_mlsv1_group_topic, build_mlsv1_welcome_topic}

-- What a handler returns.
pub data StreamEnd : Type 0 where
  returned : StreamEnd
  invalid_argument : StreamEnd
  unavailable : StreamEnd
  aborted : StreamEnd
  query_failed : StreamEnd
  send_failed : StreamEnd

pub data ReplayEvent (M : Type 0) : Type 0 where
  replays : List M → ReplayEvent M
  dispatched : Option Envelope → ReplayEvent M

pub data LiveEvent : Type 0 where
  replay_failed : LiveEvent
  stream_done : LiveEvent
  service_done : LiveEvent
  cutover_tick : Bool → LiveEvent
  reads : LiveEvent
  dispatches : Option Envelope → LiveEvent

pub record LiveStream (M : Type 0) : Type 0 where
  pub dispatcher : SubscriptionDispatcher
  pub high_water_marks : Bytes → Option ℕ
  pub sent : List M

-- What a message is, whether reading it dereferences nil, how an envelope is parsed, whether the
-- stream sends a message after those sent, and what a closed channel returns. `none` is a panic.
module _ {M : Type 0} (metadata : M → Option (Bytes × ℕ)) (panics : M → Bool)
    (parse : Envelope → Option M) (can_send : List M → M → Bool) (closed : StreamEnd) where
  -- sendToStream: false if a Send fails.
  pub send_all : List M → LiveStream M → Option (Bool × LiveStream M)
  send_all [] s = some (true, s)
  send_all (m ∷ ms) s =
      let skipped = send_all ms s in
      if panics m then none else elim (metadata m) [
        | none ↦ skipped
        | some (key, id) ↦
            let marked = record s { high_water_marks = insert key id s.high_water_marks } in
            let sent = send_all ms (record marked { sent = s.sent ++ m ∷ [] }) in
            if ltb (get_or s.high_water_marks key 0) id
            then (if can_send s.sent m then sent else some (false, marked))
            else skipped
      ]

  pub dispatch : Option Envelope → LiveStream M → Option (LiveStream M)
  dispatch env s = Option.map (λ d. record s { dispatcher = d }) (handle_envelope env s.dispatcher)

  pub replay : List (ReplayEvent M) → LiveStream M → Option (LiveStream M)
  unfolding send_all dispatch
  replay [] s = some s
  replay (replays page ∷ es) s = elim (send_all page s) [
    | none ↦ none
    | some (sent, s') ↦ replay es s'
  ]
  replay (dispatched env ∷ es) s = elim (dispatch env s) [ none ↦ none | some s' ↦ replay es s' ]

  -- The case of the subscription's channel; an envelope that is not parsed is skipped.
  pub take_received : Received → LiveStream M → Option (Option StreamEnd × LiveStream M)
  unfolding send_all
  take_received (Received.message env) s = elim (parse env) [
    | none ↦ some (none, s)
    | some m ↦
        Option.map (λ (sent, s'). (if sent then none else some send_failed, s'))
          (send_all (m ∷ []) s)
  ]
  take_received Received.ended s = some (some closed, s)
  take_received Received.waits s = some (none, s)

  -- One turn of the select, on the subscription at a pointer: the end it returns, if it does.
  pub take_event : ℕ → LiveEvent → LiveStream M → Option (Option StreamEnd × LiveStream M)
  unfolding take_received dispatch
  take_event p replay_failed s = some (some query_failed, s)
  take_event p stream_done s = some (some returned, s)
  take_event p service_done s = some (some unavailable, s)
  take_event p (cutover_tick disabled) s = some (if disabled then some unavailable else none, s)
  take_event p reads s = elim (receive p s.dispatcher) [
    | none ↦ none
    | some (r, d) ↦ take_received r (record s { dispatcher = d })
  ]
  take_event p (dispatches env) s = Option.map (λ s'. (none, s')) (dispatch env s)

  -- The loop, until it returns or the events end.
  pub live_loop : ℕ → List LiveEvent → LiveStream M → Option (Option StreamEnd × LiveStream M)
  unfolding take_event
  live_loop p [] s = some (none, s)
  live_loop p (e ∷ es) s = elim (take_event p e s) [
    | none ↦ none
    | some (some end, s') ↦ some (some end, s')
    | some (none, s') ↦ live_loop p es s'
  ]

  -- A handler after its checks, with the deferred Unsubscribe.
  pub serve_topics :
      List Bytes
      → List (ReplayEvent M)
      → List LiveEvent
      → SubscriptionDispatcher
      → Option (Option StreamEnd × LiveStream M)
  unfolding replay live_loop
  serve_topics topics history events d =
      let (p, d1) = subscribe (topics_of topics) d in
      elim (replay history (record { dispatcher = d1; high_water_marks = empty; sent = [] })) [
        | none ↦ none
        | some s ↦
            Option.map (λ (end, s'). (end, record s' { dispatcher = unsubscribe p s'.dispatcher }))
              (live_loop p events s)
      ]

-- A handler that its checks end before it subscribes.
pub refused :
    {M : Type 0} → StreamEnd → SubscriptionDispatcher → Option (Option StreamEnd × LiveStream M)
refused end d = some (some end, record { dispatcher = d; high_water_marks = empty; sent = [] })

-- A group message is `none` where it has no version: reading its group or id then dereferences nil.
pub without_version : Option GroupMessage → Bool
without_version none = true
without_version (some m) = false

pub group_metadata : Option GroupMessage → Option (Bytes × ℕ)
group_metadata none = none
group_metadata (some m) = metadata_of group_row m

pub subscribe_group_messages :
    (Envelope → Option (Option GroupMessage))
    → (List (Option GroupMessage) → Option GroupMessage → Bool)
    → Bool
    → List Bytes
    → List (ReplayEvent (Option GroupMessage))
    → List LiveEvent
    → SubscriptionDispatcher
    → Option (Option StreamEnd × LiveStream (Option GroupMessage))
unfolding serve_topics refused without_version group_metadata
subscribe_group_messages parse can_send streaming_disabled group_ids history events d =
    let served =
      serve_topics group_metadata without_version parse can_send aborted
        (map build_mlsv1_group_topic group_ids) history events d in
    if streaming_disabled then refused unavailable d else served

-- A filter is its installation key; `none` is a nil filter, and a nil request is `none` too.
pub has_key : Option Bytes → Bool
has_key none = false
has_key (some key) = not (length key == 0)

pub keys_of : List (Option Bytes) → List Bytes
keys_of [] = []
keys_of (none ∷ fs) = keys_of fs
keys_of (some key ∷ fs) = key ∷ keys_of fs

pub subscribe_welcome_messages :
    (Envelope → Option (Option WelcomeMessage))
    → (List (Option WelcomeMessage) → Option WelcomeMessage → Bool)
    → Bool
    → Option (List (Option Bytes))
    → List (ReplayEvent (Option WelcomeMessage))
    → List LiveEvent
    → SubscriptionDispatcher
    → Option (Option StreamEnd × LiveStream (Option WelcomeMessage))
unfolding serve_topics refused has_key keys_of
subscribe_welcome_messages parse can_send streaming_disabled filters history events d =
    elim filters [
      | none ↦ refused (if streaming_disabled then unavailable else invalid_argument) d
      | some fs ↦
          let served =
            serve_topics get_metadata_from_welcome_message (λ m. false) parse can_send returned
              (map build_mlsv1_welcome_topic (keys_of fs)) history events d in
          if streaming_disabled
          then refused unavailable d
          else if length fs == 0 || ltb 0 (length (keep (λ f. not (has_key f)) fs))
          then refused invalid_argument d
          else served
    ]
