-- ===== src/MessageApi/Tests.antt =====
-- A batch of two queries, and a stream that changes its topics.
use xmtp_node_go.Base.{Bytes, List, [], member, none, some, true, ℕ, ◌∷◌, ◌≡◌, nat_eq, bytes_eq}
use xmtp_node_go.MessageStore.{MessageRow, QueryRequest}
use xmtp_node_go.MessageApi.{
  StreamEvent, requests, reads, dispatches, closes, Stream, subscribe2, batch_query,
}
use xmtp_node_go.MessageApi.Bounds.{SmallBatch, batch_query-SmallBatch}
use xmtp_node_go.MessageApi.Streams.{subscribe2-leaves}
use xmtp_node_go.Subscriptions.{Envelope, new_subscription_dispatcher}
use xmtp_node_go.Subscriptions.Delivery.{Inv}
use xmtp_node_go.Subscriptions.Invariant.{start, Reach-Inv}

abbrev same_bytes : Bytes → Bytes
same_bytes bytes = bytes

abbrev query_of : ℕ → QueryRequest
query_of topic = record {
  content_topics = (topic ∷ []) ∷ [];
  start_time_ns = 0;
  end_time_ns = 0;
  paging_info = none;
}

abbrev one_message : List MessageRow
one_message =
    record {
      id = 1 ∷ 2 ∷ [];
      receiver_timestamp = 5;
      sender_timestamp = 5;
      content_topic = 1 ∷ [];
      payload = 2 ∷ [];
      should_expire = true;
    }
    ∷ []

batch_query-SmallBatch_example :
    SmallBatch same_bytes
      (query_of 1 ∷ query_of 7 ∷ [])
      (batch_query same_bytes (query_of 1 ∷ query_of 7 ∷ []) one_message)
batch_query-SmallBatch_example =
    batch_query-SmallBatch same_bytes (query_of 1 ∷ query_of 7 ∷ []) one_message

abbrev envelope_on : ℕ → Envelope
envelope_on topic = record { content_topic = topic ∷ []; timestamp_ns = 3; message = [] }

abbrev changing : List StreamEvent
changing =
    requests (some ((1 ∷ []) ∷ (2 ∷ []) ∷ []))
    ∷ dispatches (some (envelope_on 2))
    ∷ reads
    ∷ requests none
    ∷ requests (some ((3 ∷ []) ∷ (3 ∷ []) ∷ []))
    ∷ dispatches (some (envelope_on 1))
    ∷ reads
    ∷ closes
    ∷ []

subscribe2-leaves_example :
    (s : Stream) × (subscribe2 changing new_subscription_dispatcher ≡ some s)
    × Inv s.dispatcher
    × ((p : ℕ)
        → member p s.dispatcher.subscriptions ≡ true
        → member p new_subscription_dispatcher.subscriptions ≡ true)
subscribe2-leaves_example = subscribe2-leaves changing new_subscription_dispatcher (Reach-Inv start)
