-- ===== src/Subscriptions/Tests.antt =====
-- A dispatcher with one subscription.
use xmtp_node_go.Base.{Bool, Bytes, List, [], codes, some, true, ◌∷◌, ◌≡◌}
use xmtp_node_go.Subscriptions.{
  Envelope, SubscriptionDispatcher, new_subscription_dispatcher, subscribe, handle_envelope,
  is_valid_subscribe_all_topic,
}
use xmtp_node_go.Subscriptions.Delivery.{Dispatched, Inv, handle_envelope-Dispatched}
use xmtp_node_go.Subscriptions.Invariant.{Step-Inv, Reach-Inv, handle_envelope_total, Reach, Step}

abbrev group_topic : Bytes
group_topic = codes "/xmtp/mls/1/g-ab/proto"

abbrev two_topics : List (Bytes × Bool)
two_topics = (group_topic, true) ∷ (codes "/xmtp/0/m-1/proto", true) ∷ []

abbrev one_subscription : SubscriptionDispatcher
one_subscription = (subscribe two_topics new_subscription_dispatcher).1

abbrev group_envelope : Envelope
group_envelope = record { content_topic = group_topic; timestamp_ns = 5; message = 1 ∷ [] }

one_subscription-Reach : Reach one_subscription
one_subscription-Reach = Reach.next Reach.start (Step.subscribes two_topics)

handle_envelope-Dispatched_example :
    (d' : SubscriptionDispatcher) × (handle_envelope (some group_envelope) one_subscription
      ≡ some d')
    × Dispatched group_envelope
        (is_valid_subscribe_all_topic group_topic)
        one_subscription.subscriptions
        one_subscription
        d'
handle_envelope-Dispatched_example =
    handle_envelope-Dispatched group_envelope one_subscription (Reach-Inv one_subscription-Reach)

Step-Inv_example : Inv one_subscription
Step-Inv_example = Step-Inv (Step.subscribes two_topics) (Reach-Inv Reach.start)

handle_envelope_total_example :
    (d' : SubscriptionDispatcher) × (handle_envelope (some group_envelope) one_subscription
      ≡ some d')
handle_envelope_total_example = handle_envelope_total one_subscription-Reach (some group_envelope)
