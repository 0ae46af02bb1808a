-- ===== src/MessageApi.antt =====
-- The older message API, pkg/api/message/v1/service.go: the queries and the two subscriptions.
--
-- A stream is its state and the events that its loop takes, in their order; the dispatch of an
-- envelope by the worker is one of them. An error of the stream's Send is only logged.
pub mod Bounds
pub mod Streams
mod Tests
use xmtp_node_go.Base.{
  Bool, Bytes, List, Option, Result, [], err, fail_if, false, if◌then◌else◌, keep, length, ltb, map,
  member, none, not, ok, ok_or, some, true, ℕ, ◌++◌, ◌+◌, ◌-◌, ◌==◌, ◌>>=◌, ◌>>◌, ◌∷◌, nat_eq,
  bytes_eq,
}
use mathlib.Core.Option
use xmtp_node_go.MessageStore.{QueryRequest, QueryResponse}
use xmtp_node_go.MessageStore as store
use xmtp_node_go.MlsService.{ServiceError, unavailable, invalid_argument, internal, panicked}
use xmtp_node_go.Subscriptions.{
  Envelope, SubscriptionDispatcher, Received, wildcard_topic, subscribe, unsubscribe, receive,
  handle_envelope,
}
use xmtp_node_go.Topic.{is_user_preferences}

pub max_queries_per_batch : ℕ
max_queries_per_batch = 50

pub max_rows_per_query : ℕ
max_rows_per_query = 100

pub max_user_preferences_rows_per_query : ℕ
max_user_preferences_rows_per_query = 500

pub get_max_rows : List Bytes → ℕ
unfolding max_rows_per_query max_user_preferences_rows_per_query
get_max_rows (topic ∷ []) =
    if is_user_preferences topic then max_user_preferences_rows_per_query else max_rows_per_query
get_max_rows _ = max_rows_per_query

pub publish : List Envelope → Result ServiceError (Unit {0})
publish envelopes = err unavailable

-- The hash of the store.
module _ (sha256 : Bytes → Bytes) where
  pub query : QueryRequest → List store.MessageRow → Result ServiceError QueryResponse
  query req table =
      fail_if (length req.content_topics == 0) invalid_argument
      >> fail_if
          (elim req.paging_info [
            | none ↦ false
            | some p ↦ ltb (get_max_rows req.content_topics) p.limit
          ])
          invalid_argument
      >> ok_or panicked (store.query sha256 req table)

  -- An error of a query is an internal one of the batch; a panic is none of the errors.
  pub query_in_batch : QueryRequest → List store.MessageRow → Result ServiceError QueryResponse
  query_in_batch req table = elim (query req table) [
    | ok response ↦ ok response
    | err panicked ↦ err panicked
    | err _ ↦ err internal
  ]

  pub query_each :
      List QueryRequest → List store.MessageRow → Result ServiceError (List QueryResponse)
  query_each [] table = ok []
  query_each (req ∷ reqs) table = query_in_batch req table >>= λ response.
      query_each reqs table >>= λ responses. ok (response ∷ responses)

  pub batch_query :
      List QueryRequest → List store.MessageRow → Result ServiceError (List QueryResponse)
  batch_query reqs table =
      fail_if (ltb max_queries_per_batch (length reqs)) invalid_argument >> query_each reqs table

-- The keys of a map of topics.
pub topics_of : List Bytes → List (Bytes × Bool)
topics_of [] = []
topics_of (t ∷ ts) = let rest = topics_of ts in if member t ts then rest else (t, true) ∷ rest

-- A stream: the dispatcher it shares, its subscription, the topics it counts, the gauge of subscribed
-- topics, what it has sent, and whether its loop runs.
pub record Stream : Type 0 where
  pub dispatcher : SubscriptionDispatcher
  pub current_subscription : Option ℕ
  pub subscribed_topic_count : ℕ
  pub topics_gauge : ℕ
  pub sent : List Envelope
  pub is_open : Bool

-- `requests none` is a nil request, as a closed request channel gives without end.
pub data StreamEvent : Type 0 where
  requests : Option (List Bytes) → StreamEvent
  reads : StreamEvent
  dispatches : Option Envelope → StreamEvent
  closes : StreamEvent

-- The deferred Unsubscribe, and the one before a new subscription.
pub drop_subscription : Option ℕ → SubscriptionDispatcher → SubscriptionDispatcher
drop_subscription none d = d
drop_subscription (some p) d = unsubscribe p d

-- The case of a request. The subscription is set to nil before the test that would tell the first
-- request from the later ones, so that the gauge always grows by all the topics.
pub update_subscription : List Bytes → Stream → Stream
unfolding topics_of drop_subscription
update_subscription content_topics s =
    let topics = topics_of content_topics in
    let (next, d) = subscribe topics (drop_subscription s.current_subscription s.dispatcher) in
    record s {
      dispatcher = d;
      current_subscription = some next;
      subscribed_topic_count = length topics;
      topics_gauge = s.topics_gauge + length topics;
    }

-- The case of the subscription's channel; before the first request there is nothing to read.
pub take_received : Received → SubscriptionDispatcher → Stream → Stream
take_received (Received.message env) d s = record s { dispatcher = d; sent = s.sent ++ env ∷ [] }
take_received Received.ended d s = record s { dispatcher = d; is_open = false }
take_received Received.waits d s = record s { dispatcher = d }

pub read_message : Stream → Option Stream
unfolding take_received
read_message s = elim s.current_subscription [
  | none ↦ some s
  | some p ↦ (elim (receive p s.dispatcher) [
    | none ↦ none
    | some (r, d) ↦ some (take_received r d s)
  ])
]

pub take_event : StreamEvent → Stream → Option Stream
unfolding update_subscription read_message
take_event (requests none) s = some s
take_event (requests (some content_topics)) s = some (update_subscription content_topics s)
take_event reads s = read_message s
take_event (dispatches env) s = elim (handle_envelope env s.dispatcher) [
  | none ↦ none
  | some d ↦ some (record s { dispatcher = d })
]
take_event closes s = some (record s { is_open = false })

-- The loop, until it ends or the events do.
pub take_events : List StreamEvent → Stream → Option Stream
unfolding take_event
take_events [] s = some s
take_events (e ∷ es) s =
    if s.is_open
    then (elim (take_event e s) [ none ↦ none | some s' ↦ take_events es s' ])
    else some s

-- The deferred end of a stream.
pub end_stream : Stream → Stream
unfolding drop_subscription
end_stream s = record s {
  dispatcher = drop_subscription s.current_subscription s.dispatcher;
  topics_gauge = s.topics_gauge - s.subscribed_topic_count;
}

pub subscribe2 : List StreamEvent → SubscriptionDispatcher → Option Stream
unfolding take_events end_stream
subscribe2 events d = Option.map end_stream (
    take_events events (record {
      dispatcher = d;
      current_subscription = none;
      subscribed_topic_count = 0;
      topics_gauge = 0;
      sent = [];
      is_open = true;
    }))

is_request : StreamEvent → Bool
is_request (requests topics) = true
is_request _ = false

-- Subscribe takes no requests after its own. It counts its topics with their repeats.
pub subscribe_topics : List Bytes → List StreamEvent → SubscriptionDispatcher → Option Stream
unfolding take_events end_stream topics_of is_request
subscribe_topics content_topics events d =
    let (p, d1) = subscribe (topics_of content_topics) d in
    Option.map end_stream (
      take_events (keep (λ e. not (is_request e)) events) (record {
        dispatcher = d1;
        current_subscription = some p;
        subscribed_topic_count = length content_topics;
        topics_gauge = length content_topics;
        sent = [];
        is_open = true;
      }))

pub subscribe_all : List StreamEvent → SubscriptionDispatcher → Option Stream
unfolding subscribe_topics
subscribe_all = subscribe_topics (wildcard_topic ∷ [])
