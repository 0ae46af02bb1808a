-- ===== src/MlsService/Tests.antt =====
-- A send of two group messages of which one repeats, and of a welcome.
use mathlib.Core.Option.{some_inj}
use xmtp_node_go.Base.{
  All, Bytes, List, Option, [], ap, arith, codes, false, length, map, none, ok, refl, some, sym,
  true, ℕ, ◌++◌, ◌+◌, ◌∷◌, ◌≡◌,
}
use xmtp_node_go.Store.{
  GroupMessageRow, WelcomeMessageRow, Table, unspecified, group_hash, has_hash, welcome_to_proto,
  new_welcome_message,
}
use xmtp_node_go.MlsService.{
  GroupMessageInput, GroupMessageValidation, WelcomeMessageInput, input_v1, send_group_messages,
  present, insert_welcome, decode_string, hex_value,
}
use xmtp_node_go.MlsService.Installations.{Installation, fetch_key_packages}
use xmtp_node_go.MlsService.KeyPackages.{package_of, fetch_key_packages-each}
use xmtp_node_go.MlsService.CommitLog.{batch_publish_commit_log, batch_query_commit_log}
use xmtp_node_go.MlsService.CommitLog.Published.{
  Codec, Entry, request_of, entries_from, batch_publish_commit_log-round_trip,
}
use xmtp_node_go.ReadStore.{CommitLogRow}
use xmtp_node_go.ReadStore.Pages.{from_cursor}
use mathlib.Core.Option
use xmtp_node_go.MlsService.Newest.{get_newest_group_message}
use xmtp_node_go.MlsService.Newest.Groups.{last_row, shown, get_newest_group_message-each}
use xmtp_node_go.MlsService.Sends.{
  IsGroupTable, Stored, send_group_messages-Stored, HasWidth, Hashed, has_message,
}
use xmtp_node_go.MlsService.Welcomes.{seen_as, insert_welcome-round_trip}

abbrev no_hash : Bytes → Bytes
no_hash bytes = bytes

abbrev message_of : ℕ → GroupMessageInput
message_of n = record { payload = n ∷ []; sender_hmac = []; should_push = false }

abbrev two_messages : List (Option GroupMessageInput)
two_messages = some (message_of 7) ∷ some (message_of 7) ∷ []

abbrev valid_group : GroupMessageValidation
valid_group = record { group_id = codes "0a"; is_commit = false }

abbrev both_valid : List GroupMessageInput → Option (List GroupMessageValidation)
both_valid messages = some (valid_group ∷ valid_group ∷ [])

abbrev empty_groups : Table GroupMessageRow
empty_groups = record { rows = []; next_id = 1 }

valid_group-HasWidth : HasWidth no_hash 1 valid_group
unfolding decode_string hex_value
valid_group-HasWidth group_id decoded =
    let here : some (10 ∷ []) ≡ some group_id = decoded in sym (ap length (some_inj.0 here))

send_group_messages-Stored_example :
    IsGroupTable (send_group_messages no_hash both_valid false two_messages empty_groups).1
    × ((h : Bytes)
        → has_hash group_hash h [] ≡ true
        → has_hash group_hash h
            (send_group_messages no_hash both_valid false two_messages empty_groups).1.rows
          ≡ true)
    × ((g p : Bytes)
        → has_message no_hash 1 g p [] ≡ true
        → has_message no_hash 1 g p
            (send_group_messages no_hash both_valid false two_messages empty_groups).1.rows
          ≡ true)
    × All
        (Hashed no_hash 1)
        (send_group_messages no_hash both_valid false two_messages empty_groups).1.rows
    × ((send_group_messages no_hash both_valid false two_messages empty_groups).0 ≡ ok tt
        → Stored no_hash 1
            (valid_group ∷ valid_group ∷ [])
            (present two_messages)
            (send_group_messages no_hash both_valid false two_messages empty_groups).1.rows)
unfolding present
send_group_messages-Stored_example =
    send_group_messages-Stored no_hash 1 both_valid (valid_group ∷ valid_group ∷ []) false
      two_messages empty_groups refl refl (record { rising = omega arith; unique = tt }) tt
      (valid_group-HasWidth, (valid_group-HasWidth, tt)) (λ x y same. same)

abbrev no_welcomes : Table WelcomeMessageRow
no_welcomes = record { rows = []; next_id = 1 }

abbrev welcome_input : WelcomeMessageInput
welcome_input = input_v1 (1 ∷ []) (2 ∷ []) (3 ∷ []) unspecified []

abbrev welcome_row_one : WelcomeMessageRow
welcome_row_one = new_welcome_message (1 ∷ 2 ∷ []) (1 ∷ []) (2 ∷ []) (3 ∷ []) 0 [] 0 1

insert_welcome-round_trip_example :
    (welcome_row_one ∷ [] ≡ [] ++ welcome_row_one ∷ [])
    × (welcome_row_one.id ≡ 1)
    × (welcome_to_proto welcome_row_one ≡ seen_as welcome_input 1)
unfolding insert_welcome xmtp_node_go.Store.insert_welcome_message xmtp_node_go.Store.insert_row
    has_hash xmtp_node_go.Store.wrapper_algorithm_from_proto
insert_welcome-round_trip_example =
    insert_welcome-round_trip no_hash welcome_input no_welcomes
      (record { rows = welcome_row_one ∷ []; next_id = 2 }) welcome_row_one refl

abbrev installation_of : ℕ → Installation
installation_of n = record { id = n ∷ []; key_package = n ∷ n ∷ [] }

fetch_key_packages-each_example :
    fetch_key_packages ((3 ∷ []) ∷ (8 ∷ []) ∷ []) (installation_of 8 ∷ installation_of 5 ∷ [])
    ≡ ok (map (package_of (installation_of 8 ∷ installation_of 5 ∷ [])) ((3 ∷ []) ∷ (8 ∷ []) ∷ []))
fetch_key_packages-each_example =
    fetch_key_packages-each ((3 ∷ []) ∷ (8 ∷ []) ∷ []) (installation_of 8 ∷ installation_of 5 ∷ [])
      (refl, (refl, tt)) (refl, (refl, tt))

-- A signature is its own encoding.
abbrev plain_codec : Codec {S = Bytes} some some
plain_codec s = (s, refl, refl)

abbrev log_entry : ℕ → ℕ → Entry Bytes
log_entry group n = record { group_id = group ∷ []; body = n ∷ []; signature = n ∷ [] }

abbrev two_more : List (Entry Bytes)
two_more = log_entry 6 8 ∷ log_entry 5 9 ∷ []

abbrev old_log : Table CommitLogRow
old_log = record {
  rows =
      record { id = 1; group_id = 5 ∷ []; serialized_entry = []; serialized_signature = [] } ∷ [];
  next_id = 3;
}

batch_publish_commit_log-round_trip_example :
    ((batch_publish_commit_log some false (map request_of (log_entry 5 7 ∷ two_more)) old_log).0
      ≡ ok tt)
    × (batch_query_commit_log some
          (batch_publish_commit_log some false
            (map request_of (log_entry 5 7 ∷ two_more))
            old_log).1.rows
          (some (record { key = 5 ∷ []; paging_info = some (from_cursor 2 0) }) ∷ [])
        ≡ ok (
            record {
              messages = entries_from (5 ∷ []) (2 + 1) (log_entry 5 7 ∷ two_more);
              paging_info = from_cursor 0 100;
            }
            ∷ []))
batch_publish_commit_log-round_trip_example =
    batch_publish_commit_log-round_trip some some plain_codec (log_entry 5 7) two_more old_log
      (5 ∷ []) 2 ((refl, refl), ((refl, refl), ((refl, refl), tt))) (omega arith) (omega arith, tt)
      refl (omega arith) refl

abbrev stored_message : ℕ → ℕ → GroupMessageRow
stored_message id group = record {
  id = id;
  group_id = group ∷ [];
  payload = id ∷ [];
  group_id_data_hash = [];
  is_commit = true;
  sender_hmac = [];
  should_push = true;
}

abbrev three_stored : List GroupMessageRow
three_stored = stored_message 1 5 ∷ stored_message 2 6 ∷ stored_message 3 5 ∷ []

abbrev three_groups : List Bytes
three_groups = (5 ∷ []) ∷ (7 ∷ []) ∷ (5 ∷ []) ∷ []

get_newest_group_message-each_example :
    get_newest_group_message (λ id. id) three_groups false three_stored
    ≡ ok
        (map (λ g. Option.map (shown (λ id. id) false) (last_row g three_stored none)) three_groups)
get_newest_group_message-each_example =
    get_newest_group_message-each (λ id. id) three_groups false three_stored refl
