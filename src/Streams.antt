-- ===== src/Streams.antt =====
-- The high-water marks of the older subscriptions of pkg/mls/api/v1/service.go,
-- SubscribeGroupMessages and SubscribeWelcomeMessages: sendToStream, which both declare, and the order
-- in which the handlers call it, the pages of the replays before the live messages.
--
-- Here every envelope is parsed and the stream sends every message; the checks of a handler, what it
-- skips and how it ends are in Handlers.
pub mod Marks
pub mod Whole
pub mod Handlers
mod Tests
use xmtp_node_go.Base.{
  Bytes, List, Option, [], empty, get_or, if◌then◌else◌, insert, ltb, none, some, ℕ, ◌++◌, ◌∷◌,
  nat_eq, bytes_eq,
}
use xmtp_node_go.CatchUp.{RowReader}
use xmtp_node_go.Subscribe.Frames.{WelcomeMessage, v1, welcome_pointer}

-- getMetadataFromWelcomeMessage: `none` is an invalid message.
pub get_metadata_from_welcome_message : Option WelcomeMessage → Option (Bytes × ℕ)
get_metadata_from_welcome_message none = none
get_metadata_from_welcome_message (some (v1 id key payload)) = some (key, id)
get_metadata_from_welcome_message (some (welcome_pointer id key pointer)) = some (key, id)

-- What SubscribeGroupMessages reads of a message that has a version: its key and its id. `group_row`
-- reads them of a group message. Streams/Handlers has the message without a version too.
pub metadata_of : {R : Type 0} → RowReader R → R → Option (Bytes × ℕ)
metadata_of row m = some (row.key m, row.id m)

module _ {M : Type 0} (metadata : M → Option (Bytes × ℕ)) where
  -- What sendToStream sends of one message, and the marks after it. A mark that is missing is 0.
  pub send_one : M → (Bytes → Option ℕ) → List M × (Bytes → Option ℕ)
  send_one m marks = elim (metadata m) [
    | none ↦ ([], marks)
    | some (key, id) ↦
        if ltb (get_or marks key 0) id then (m ∷ [], insert key id marks) else ([], marks)
  ]

  pub send_to_stream : List M → (Bytes → Option ℕ) → List M × (Bytes → Option ℕ)
  send_to_stream [] marks = ([], marks)
  send_to_stream (m ∷ ms) marks =
      let (first, marks1) = send_one m marks in
      let (rest, marks2) = send_to_stream ms marks1 in (first ++ rest, marks2)

  -- Pages sent one after the other, those of several filters mixed as their routines come to the
  -- lock.
  pub send_batches : List (List M) → (Bytes → Option ℕ) → List M × (Bytes → Option ℕ)
  send_batches [] marks = ([], marks)
  send_batches (batch ∷ batches) marks =
      let (first, marks1) = send_to_stream batch marks in
      let (rest, marks2) = send_batches batches marks1 in (first ++ rest, marks2)

  -- The pages of the replays, then the live messages.
  pub deliver : List (List M) → List M → List M
  deliver history live =
      let (replayed, marks) = send_batches history empty in
      replayed ++ (send_to_stream live marks).0
