-- ===== src/Worker.antt =====
-- The database worker of pkg/mls/api/v1/worker.go: listenForGroupMessages and
-- listenForWelcomeMessages, which poll their tables from a cursor and hand each row to the dispatcher.
-- The two differ in their rows and in the envelope made of one.
--
-- A tick is `poll`, at the table that the query sees; `none` is a panic of the dispatcher. A failed
-- query leaves the worker as it is. proto.Marshal is a parameter.
pub mod Cursor
pub mod Polls
mod Tests
use xmtp_node_go.Base.{
  Bool, Bytes, List, Option, [], false, if◌then◌else◌, keep, ltb, none, some, take, true, ℕ, ◌∷◌,
}
use xmtp_node_go.CatchUp.{RowReader, group_row, welcome_row, parse_welcome_row, WelcomeRow}
use xmtp_node_go.Subscribe.Frames.{GroupMessage, WelcomeMessage}
use xmtp_node_go.Subscriptions.{Envelope, SubscriptionDispatcher, handle_envelope}
use xmtp_node_go.Topic.{build_mlsv1_group_topic, build_mlsv1_welcome_topic}
use xmtp_node_go.ReadStore.{last_id}

-- What becomes of a row: an unknown type is passed over, and marshalling may fail.
pub data Made : Type 0 where
  skipped : Made
  failed : Made
  made : Envelope → Made

abbrev pub numrows : ℕ
numrows = 500

-- GetLatestGroupMessageID and GetLatestWelcomeMessageID.
unfoldable pub latest_id : {R : Type 0} → RowReader R → List R → ℕ
latest_id row table = last_id row table 0

-- GetAllGroupMessagesWithCursor and GetAllWelcomeMessagesWithCursor.
unfoldable pub get_all_with_cursor : {R : Type 0} → RowReader R → List R → ℕ → List R
get_all_with_cursor row table cursor = take numrows (keep (λ m. ltb cursor (row.id m)) table)

-- The rows of a page, up to the first that fails; true if none does.
unfoldable pub hand_over :
    {R : Type 0}
    → (R → Made)
    → List R
    → SubscriptionDispatcher
    → Option (SubscriptionDispatcher × Bool)
hand_over make [] d = some (d, true)
hand_over make (r ∷ rows) d = elim (make r) [
  | skipped ↦ hand_over make rows d
  | failed ↦ some (d, false)
  | made env ↦ (elim (handle_envelope (some env) d) [
    | none ↦ none
    | some d' ↦ hand_over make rows d'
  ])
]

-- The cursor moves only past a page that was handed over.
unfoldable pub poll :
    {R : Type 0}
    → RowReader R
    → (R → Made)
    → List R
    → ℕ
    → SubscriptionDispatcher
    → Option (ℕ × SubscriptionDispatcher)
poll row make table current_id d =
    let rows = get_all_with_cursor row table current_id in
    elim (hand_over make rows d) [
      | none ↦ none
      | some (d', all) ↦ some (if all then last_id row rows current_id else current_id, d')
    ]

module _ (marshal_group : GroupMessage → Option Bytes)
    (marshal_welcome : WelcomeMessage → Option Bytes) (created_ns : ℕ → ℕ) where
  -- The creation times of the rows, by id, are a parameter too.
  group_envelope : GroupMessage → Made
  group_envelope m = elim (marshal_group m) [
    | none ↦ failed
    | some bytes ↦ made (record {
      content_topic = build_mlsv1_group_topic m.group_id;
      timestamp_ns = created_ns m.id;
      message = bytes;
    })
  ]

  welcome_envelope : WelcomeRow → Made
  welcome_envelope r = elim (parse_welcome_row r) [
    | none ↦ skipped
    | some m ↦ (elim (marshal_welcome m) [
      | none ↦ failed
      | some bytes ↦ made (record {
        content_topic = build_mlsv1_welcome_topic r.installation_key;
        timestamp_ns = created_ns r.id;
        message = bytes;
      })
    ])
  ]

  pub listen_for_group_messages :
      List GroupMessage → ℕ → SubscriptionDispatcher → Option (ℕ × SubscriptionDispatcher)
  unfolding group_envelope
  listen_for_group_messages = poll group_row group_envelope

  pub listen_for_welcome_messages :
      List WelcomeRow → ℕ → SubscriptionDispatcher → Option (ℕ × SubscriptionDispatcher)
  unfolding welcome_envelope
  listen_for_welcome_messages = poll welcome_row welcome_envelope
