-- ===== src/Store/Tests.antt =====
-- Two inserts into an empty table of group messages.
use xmtp_node_go.Base.{Bytes, [], arith, err, false, refl, true, ◌∷◌, ◌≡◌}
use xmtp_node_go.Store.{GroupMessageRow, Table, already_exists, group_hash, insert_group_message}
use xmtp_node_go.Store.Inserts.{
  IsTable, Inserted, insert_group_message-Inserted, insert_group_message-joined,
}

abbrev same_bytes : Bytes → Bytes
same_bytes bytes = bytes

abbrev no_rows : Table GroupMessageRow
no_rows = record { rows = []; next_id = 1 }

no_rows-IsTable : IsTable (λ r. r.id) group_hash no_rows
no_rows-IsTable = record { rising = omega arith; unique = tt }

insert_group_message-Inserted_example :
    Inserted same_bytes
      (1 ∷ [])
      (2 ∷ [])
      []
      true
      false
      no_rows
      (insert_group_message same_bytes (1 ∷ []) (2 ∷ []) [] true false no_rows)
    × IsTable
        (λ r. r.id)
        group_hash
        (insert_group_message same_bytes (1 ∷ []) (2 ∷ []) [] true false no_rows).1
insert_group_message-Inserted_example =
    insert_group_message-Inserted same_bytes (1 ∷ []) (2 ∷ []) [] true false no_rows no_rows-IsTable

insert_group_message-joined_example :
    (insert_group_message same_bytes
      (1 ∷ 2 ∷ [])
      (3 ∷ [])
      []
      true
      false
      (insert_group_message same_bytes (1 ∷ []) (2 ∷ 3 ∷ []) [] true false no_rows).1).0
    ≡ err already_exists
insert_group_message-joined_example =
    insert_group_message-joined same_bytes (1 ∷ []) (2 ∷ 3 ∷ []) (1 ∷ 2 ∷ []) (3 ∷ []) [] [] true
      false true false no_rows refl
