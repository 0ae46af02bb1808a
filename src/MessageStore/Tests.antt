-- ===== src/MessageStore/Tests.antt =====
-- Four messages on two topics, in pages of two, and a turn of the cleaner.
use xmtp_node_go.Base.{
  Bool, Bytes, List, [], arith, false, keep, map, none, refl, some, true, ℕ, ◌∷◌, ◌≡◌,
}
use xmtp_node_go.ReadStore.{ascending}
use xmtp_node_go.MessageStore.{MessageRow, QueryRequest, PagingInfo, to_envelope}
use xmtp_node_go.MessageStore.Pages.{answers}
use xmtp_node_go.MessageStore.Paging.{follow}
use xmtp_node_go.MessageStore.Following.{follow-all}
use xmtp_node_go.MessageStore.Inserts.{
  insert_message, IsMessageTable, Inserted, insert_message-Inserted,
}
use xmtp_node_go.MessageStore.Cleaner.{cleaner_loop, is_safe, cleaner_loop-safe}

-- A hash that is its argument.
abbrev plain : Bytes → Bytes
plain bytes = bytes

abbrev stored : ℕ → ℕ → ℕ → Bool → MessageRow
stored time topic body expires = record {
  id = topic ∷ body ∷ [];
  receiver_timestamp = time;
  sender_timestamp = time;
  content_topic = topic ∷ [];
  payload = body ∷ [];
  should_expire = expires;
}

abbrev four_messages : List MessageRow
four_messages = stored 9 1 3 true ∷ stored 5 1 8 false ∷ stored 5 1 2 true ∷ stored 7 2 4 true ∷ []

abbrev topic_one : QueryRequest
topic_one = record {
  content_topics = (1 ∷ []) ∷ [];
  start_time_ns = 0;
  end_time_ns = 0;
  paging_info = none;
}

abbrev by_two : PagingInfo
by_two = record { limit = 2; cursor = none; direction = ascending }

follow-all_example :
    follow plain 5 (record topic_one { paging_info = some by_two }) four_messages
    ≡ some (map to_envelope (answers topic_one ascending four_messages))
unfolding xmtp_node_go.MessageStore.get_direction xmtp_node_go.MessageStore.compute_digest
    to_envelope
follow-all_example =
    follow-all plain topic_one by_two four_messages 5
      ((refl, (refl, (refl, tt))), ((refl, (refl, tt)), ((refl, tt), (tt, tt))))
      (refl, (refl, (refl, (refl, tt)))) (refl, (refl, (refl, (refl, tt)))) refl (omega arith)

insert_message-Inserted_example :
    IsMessageTable plain (insert_message plain 4 (to_envelope (stored 9 1 3 true)) four_messages).1
    × Inserted plain 4
        (to_envelope (stored 9 1 3 true))
        four_messages
        (insert_message plain 4 (to_envelope (stored 9 1 3 true)) four_messages)
unfolding xmtp_node_go.MessageStore.compute_digest to_envelope
insert_message-Inserted_example =
    insert_message-Inserted plain 4 (to_envelope (stored 9 1 3 true)) four_messages (
      ((refl, (refl, (refl, tt))), ((refl, (refl, tt)), ((refl, tt), (tt, tt)))),
      (refl, (refl, (refl, (refl, tt)))),
    )

cleaner_loop-safe_example :
    keep (is_safe 8) (cleaner_loop 2 (8 ∷ 6 ∷ []) four_messages).1 ≡ keep (is_safe 8) four_messages
cleaner_loop-safe_example =
    cleaner_loop-safe 8 2 (8 ∷ 6 ∷ []) four_messages (omega arith, (omega arith, tt))
