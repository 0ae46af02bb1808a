-- ===== src/Subscriptions.antt =====
-- pkg/subscriptions/dispatcher.go and subscription.go: the dispatcher of live messages.
--
-- A `*Subscription` is a number, the place of the subscription on a heap, so that the consumer's
-- pointer and the dispatcher's map keys alias one object. A Go channel is its buffer, its capacity
-- and whether it is closed; a send on a closed channel, a second close and a nil dereference panic,
-- and a panic is `none`. Each method runs under the dispatcher's mutex, so it is one step.
pub mod Capacity
pub mod Delivery
pub mod Invariant
pub mod Consumers
pub mod Queues
mod Tests
use xmtp_node_go.Base.{
  Bool, Bytes, List, Option, [], codes, delete, empty, false, get_or, if◌then◌else◌, insert, keep,
  length, ltb, none, not, some, suc, true, zero, ℕ, ◌&&◌, ◌++◌, ◌+◌, ◌/◌, ◌==◌, ◌||◌, ◌∷◌, nat_eq,
  bytes_eq,
}
use xmtp_node_go.Topic.{is_mlsv1, has_prefix}

abbrev pub all_topics_backlog_length : ℕ
all_topics_backlog_length = 4096

abbrev pub min_backlog_buffer_length : ℕ
min_backlog_buffer_length = 1024

abbrev pub wildcard_topic : Bytes
wildcard_topic = codes "*"

abbrev pub v2_topic_prefix : Bytes
v2_topic_prefix = codes "/xmtp/0/"

pub record Envelope : Type 0 where
  pub content_topic : Bytes
  pub timestamp_ns : ℕ
  pub message : Bytes

-- `chan *Envelope`, the oldest element first.
pub record Channel : Type 0 where
  pub buffer : List Envelope
  pub capacity : ℕ
  pub closed : Bool

pub record Subscription : Type 0 where
  pub messages_ch : Channel
  pub topics : Bytes → Option Bool
  pub all : Bool

-- `subscriptions` holds the keys of the map of active subscriptions.
pub record SubscriptionDispatcher : Type 0 where
  pub heap : ℕ → Option Subscription
  pub next : ℕ
  pub subscriptions : List ℕ

pub new_subscription_dispatcher : SubscriptionDispatcher
new_subscription_dispatcher = record { heap = empty; next = 0; subscriptions = [] }

make_chan : ℕ → Channel
make_chan capacity = record { buffer = []; capacity = capacity; closed = false }

-- The two arms of the non-blocking send, and the panic on a closed channel.
pub data Sent : Type 0 where
  sent : Channel → Sent
  full : Sent
  panic : Sent

pub try_send : Channel → Envelope → Sent
try_send ch env =
    if ch.closed
    then panic
    else (if ltb (length ch.buffer) ch.capacity
        then sent (record ch { buffer = ch.buffer ++ env ∷ [] })
        else full)

pub close : Channel → Option Channel
close ch = if ch.closed then none else some (record ch { closed = true })

remove_key : ℕ → List ℕ → List ℕ
remove_key p = keep (λ q. not (p == q))

-- The test of the loop body: whether the subscription takes the envelope.
pub wants : Subscription → Envelope → Bool → Bool
wants s env xmtp_topic =
    if s.all && not xmtp_topic then false else s.all || get_or s.topics env.content_topic false

-- The `select` of the loop body.
offer : Envelope → ℕ → Subscription → SubscriptionDispatcher → Option SubscriptionDispatcher
unfolding try_send close remove_key
offer env p s d = elim (try_send s.messages_ch env) [
  | sent ch ↦ some (record d { heap = insert p (record s { messages_ch = ch }) d.heap })
  | full ↦ elim (close s.messages_ch) [
    | some ch ↦ some (record d {
      heap = insert p (record s { messages_ch = ch }) d.heap;
      subscriptions = remove_key p d.subscriptions;
    })
    | none ↦ none
  ]
  | panic ↦ none
]

-- One turn of the loop over `d.subscriptions`.
dispatch_to : Envelope → Bool → ℕ → SubscriptionDispatcher → Option SubscriptionDispatcher
dispatch_to env xmtp_topic p d = elim (d.heap p) [
  | none ↦ none
  | some s ↦ if wants s env xmtp_topic then offer env p s d else some d
]

dispatch_loop : Envelope → Bool → List ℕ → SubscriptionDispatcher → Option SubscriptionDispatcher
dispatch_loop env xmtp_topic [] d = some d
dispatch_loop env xmtp_topic (p ∷ ps) d = elim (dispatch_to env xmtp_topic p d) [
  | none ↦ none
  | some d' ↦ dispatch_loop env xmtp_topic ps d'
]

unfoldable pub is_valid_subscribe_all_topic : Bytes → Bool
is_valid_subscribe_all_topic content_topic =
    has_prefix v2_topic_prefix content_topic || is_mlsv1 content_topic

-- `none` as an envelope is nil.
pub handle_envelope : Option Envelope → SubscriptionDispatcher → Option SubscriptionDispatcher
handle_envelope none d = some d
handle_envelope (some env) d =
    dispatch_loop env (is_valid_subscribe_all_topic env.content_topic) d.subscriptions d

-- The shifting loop of log2, on fuel; a `uint` has 64 bits, and 64 rounds are enough.
log2_loop : ℕ → ℕ → ℕ → ℕ
log2_loop zero n log2 = log2
log2_loop (suc fuel) n log2 =
    let rest = log2_loop fuel (n / 2) (log2 + 1) in if ltb 1 n then rest else log2

pub log2 : ℕ → ℕ
log2 n = if n == 0 then 0 else log2_loop 64 n 0

-- A map literal of topics, by its entries.
map_of : List (Bytes × Bool) → Bytes → Option Bool
map_of [] t = none
map_of ((k, v) ∷ m) t = if k == t then some v else map_of m t

pub has_wildcard : List (Bytes × Bool) → Bool
has_wildcard [] = false
has_wildcard ((k, v) ∷ m) = wildcard_topic == k || has_wildcard m

-- Allocates a subscription and enters it in the map.
register : Subscription → SubscriptionDispatcher → ℕ × SubscriptionDispatcher
register s d = (
  d.next,
  record d {
    heap = insert d.next s d.heap;
    next = d.next + 1;
    subscriptions = d.next ∷ d.subscriptions;
  },
)

backlog_buffer_size : ℕ → ℕ
backlog_buffer_size n =
    let size = log2 n + 1 in
    if ltb size min_backlog_buffer_length then min_backlog_buffer_length else size

pub subscribe : List (Bytes × Bool) → SubscriptionDispatcher → ℕ × SubscriptionDispatcher
unfolding make_chan map_of has_wildcard register backlog_buffer_size
subscribe topics d =
    if has_wildcard topics
    then register
        (record { messages_ch = make_chan all_topics_backlog_length; topics = empty; all = true }) d
    else register
        (record {
          messages_ch = make_chan (backlog_buffer_size (length topics));
          topics = map_of topics;
          all = false;
        })
        d

pub new_subscription : ℕ → SubscriptionDispatcher → ℕ × SubscriptionDispatcher
unfolding make_chan register
new_subscription buffer_size d =
    let size =
      if ltb buffer_size min_backlog_buffer_length
      then min_backlog_buffer_length
      else buffer_size in
    register (record { messages_ch = make_chan size; topics = empty; all = false }) d

pub unsubscribe : ℕ → SubscriptionDispatcher → SubscriptionDispatcher
unfolding remove_key
unsubscribe p d = record d { subscriptions = remove_key p d.subscriptions }

add_topics : List Bytes → (Bytes → Option Bool) → Bytes → Option Bool
add_topics [] m = m
add_topics (t ∷ ts) m = add_topics ts (insert t true m)

remove_topics : List Bytes → (Bytes → Option Bool) → Bytes → Option Bool
remove_topics [] m = m
remove_topics (t ∷ ts) m = remove_topics ts (delete t m)

pub add : List Bytes → ℕ → SubscriptionDispatcher → Option SubscriptionDispatcher
unfolding add_topics
add ts p d = elim (d.heap p) [
  | none ↦ none
  | some s ↦
      if s.all
      then some d
      else some (record d { heap = insert p (record s { topics = add_topics ts s.topics }) d.heap })
]

pub remove : List Bytes → ℕ → SubscriptionDispatcher → Option SubscriptionDispatcher
unfolding remove_topics
remove ts p d = elim (d.heap p) [
  | none ↦ none
  | some s ↦
      some (record d { heap = insert p (record s { topics = remove_topics ts s.topics }) d.heap })
]

-- What a consumer reads: the oldest message, the end of a closed channel, or it waits.
pub data Received : Type 0 where
  message : Envelope → Received
  ended : Received
  waits : Received

receive_from :
    ℕ → Subscription → List Envelope → SubscriptionDispatcher → Received × SubscriptionDispatcher
receive_from p s (env ∷ rest) d = (
  message env,
  record d {
    heap = insert p (record s { messages_ch = record s.messages_ch { buffer = rest } }) d.heap;
  },
)
receive_from p s [] d = (if s.messages_ch.closed then ended else waits, d)

pub receive : ℕ → SubscriptionDispatcher → Option (Received × SubscriptionDispatcher)
unfolding receive_from
receive p d = elim (d.heap p) [
  | none ↦ none
  | some s ↦ some (receive_from p s s.messages_ch.buffer d)
]
