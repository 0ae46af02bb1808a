-- ===== src/MlsService/Newest.antt =====
-- GetNewestGroupMessage of pkg/mls/api/v1/service.go, with GetNewestGroupMessage and
-- GetNewestGroupMessageMetadata of pkg/mls/store/readStore.go, whose queries differ in their columns.
--
-- A table lists its rows in the order of their ids. The times of creation, by id, are a parameter.
pub mod Groups
use xmtp_node_go.Base.{
  Bool, Bytes, List, Option, Result, [], empty, fail_if, false, if◌then◌else◌, insert, length, map,
  member, not, ok, ℕ, ◌&&◌, ◌==◌, ◌>>◌, ◌∷◌, nat_eq, bytes_eq,
}
use mathlib.Core.Option
use xmtp_node_go.MlsService.{ServiceError, invalid_argument}
use xmtp_node_go.Store.{GroupMessageRow}

-- DISTINCT ON group_id by descending id: of each group asked for, the row that no later row of the
-- group follows.
pub newest_rows : List Bytes → List GroupMessageRow → List GroupMessageRow
newest_rows ids [] = []
newest_rows ids (m ∷ ms) =
    let rest = newest_rows ids ms in
    if member m.group_id ids && not (member m.group_id (map (λ r. r.group_id) ms))
    then m ∷ rest
    else rest

-- The loop that fills resultMap.
pub result_map :
    List GroupMessageRow → (Bytes → Option GroupMessageRow) → Bytes → Option GroupMessageRow
result_map [] found = found
result_map (m ∷ ms) found = result_map ms (insert m.group_id m found)

pub get_newest_rows : List Bytes → List GroupMessageRow → List (Option GroupMessageRow)
get_newest_rows ids table = map (result_map (newest_rows ids table) empty) ids

-- A message of the answer.
pub record NewestMessage : Type 0 where
  pub id : ℕ
  pub group_id : Bytes
  pub created_ns : ℕ
  pub payload : Bytes
  pub should_push : Bool
  pub sender_hmac : Bytes
  pub is_commit : Bool

module _ (created_ns : ℕ → ℕ) where
  pub convert_newest_message_to_proto : GroupMessageRow → NewestMessage
  convert_newest_message_to_proto r = record {
    id = r.id;
    group_id = r.group_id;
    created_ns = created_ns r.id;
    payload = r.payload;
    should_push = r.should_push;
    sender_hmac = r.sender_hmac;
    is_commit = r.is_commit;
  }

  pub convert_newest_message_metadata_to_proto : GroupMessageRow → NewestMessage
  convert_newest_message_metadata_to_proto r = record {
    id = r.id;
    group_id = r.group_id;
    created_ns = created_ns r.id;
    payload = [];
    should_push = false;
    sender_hmac = [];
    is_commit = r.is_commit;
  }

  -- `none` is a response without a message.
  pub get_newest_group_message :
      List Bytes → Bool → List GroupMessageRow → Result ServiceError (List (Option NewestMessage))
  get_newest_group_message ids include_content table =
      fail_if (length ids == 0) invalid_argument
      >> ok (
          map
            (Option.map (
              if include_content
              then convert_newest_message_to_proto
              else convert_newest_message_metadata_to_proto))
            (get_newest_rows ids table))
