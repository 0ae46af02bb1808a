-- ===== src/Streams/Tests.antt =====
-- Two topics, the replay of one of which overlaps with what is live, and welcomes, one of them invalid.
use xmtp_node_go.Base.{List, [], arith, none, refl, some, ℕ, ◌++◌, ◌∷◌, ◌≡◌}
use xmtp_node_go.Subscribe.Frames.{GroupMessage, v1, welcome_pointer}
use xmtp_node_go.CatchUp.{group_row}
use xmtp_node_go.CatchUp.Query.{rows_of}
use xmtp_node_go.Streams.{deliver, metadata_of, get_metadata_from_welcome_message, send_one}
use xmtp_node_go.Streams.Marks.{mark_after}
use xmtp_node_go.Streams.Whole.{above, deliver-seamless}

abbrev message : ℕ → ℕ → GroupMessage
message id group = record { id = id; group_id = group ∷ []; body = [] }

abbrev two_pages : List (List GroupMessage)
two_pages = (message 1 5 ∷ message 3 5 ∷ []) ∷ (message 2 6 ∷ []) ∷ []

abbrev live_messages : List GroupMessage
live_messages = message 3 5 ∷ message 4 6 ∷ message 5 5 ∷ []

deliver-seamless_example :
    rows_of group_row (5 ∷ []) (deliver (metadata_of group_row) two_pages live_messages)
    ≡ (message 1 5 ∷ message 3 5 ∷ [])
      ++ above group_row
          (mark_after group_row 0 (message 1 5 ∷ message 3 5 ∷ []))
          (message 3 5 ∷ message 5 5 ∷ [])
deliver-seamless_example =
    deliver-seamless group_row (5 ∷ []) two_pages live_messages (omega arith, (omega arith, tt))
      (omega arith, (omega arith, tt))

groups_run :
    deliver (metadata_of group_row) two_pages live_messages
    ≡ message 1 5 ∷ message 3 5 ∷ message 2 6 ∷ message 4 6 ∷ message 5 5 ∷ []
unfolding deliver metadata_of send_one xmtp_node_go.Streams.send_batches
    xmtp_node_go.Streams.send_to_stream
groups_run = refl

welcomes_run :
    deliver get_metadata_from_welcome_message
      ((some (v1 2 (7 ∷ []) []) ∷ none ∷ []) ∷ [])
      (some (welcome_pointer 2 (7 ∷ []) []) ∷ some (welcome_pointer 3 (7 ∷ []) []) ∷ [])
    ≡ some (v1 2 (7 ∷ []) []) ∷ some (welcome_pointer 3 (7 ∷ []) []) ∷ []
unfolding deliver get_metadata_from_welcome_message send_one xmtp_node_go.Streams.send_batches
    xmtp_node_go.Streams.send_to_stream
welcomes_run = refl
