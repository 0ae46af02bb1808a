-- ===== src/ReadStore/Tests.antt =====
-- A replay of two groups' table, and a page of the commit log.
use xmtp_node_go.Base.{List, [], arith, none, refl, some, ℕ, ◌^◌, ◌∷◌, ◌≡◌}
use xmtp_node_go.CatchUp.{group_row, parse_rows}
use xmtp_node_go.Subscribe.Frames.{GroupMessage}
use xmtp_node_go.ReadStore.{ascending, query_messages, fetch_historical, filter_paging}
use xmtp_node_go.ReadStore.Pages.{above, query_messages-wrapped_cursor}
use xmtp_node_go.ReadStore.Historical.{fetch_historical-all}

abbrev message : ℕ → ℕ → GroupMessage
message id group = record { id = id; group_id = group ∷ []; body = [] }

abbrev three_rows : List GroupMessage
three_rows = message 1 5 ∷ message 2 6 ∷ message 4 5 ∷ []

fetch_historical-all_example :
    fetch_historical group_row some 3 three_rows (5 ∷ []) (filter_paging 0)
    ≡ some (parse_rows some (above group_row three_rows (5 ∷ []) 0), none)
fetch_historical-all_example =
    fetch_historical-all group_row some three_rows (5 ∷ []) 0 3 refl
      (omega arith, (omega arith, (omega arith, tt)))
      (omega arith, (omega arith, (omega arith, tt)))
      ((message 1 5, refl), ((message 2 6, refl), ((message 4 5, refl), tt))) (omega arith)
      (omega arith)

query_messages-wrapped_cursor_example :
    (above group_row three_rows (5 ∷ []) (2 ^ 63) ≡ [])
    × (query_messages group_row some three_rows (record {
      key = 5 ∷ [];
      paging_info = some (record { direction = ascending; limit = 2; id_cursor = 2 ^ 63 });
    })
        ≡ query_messages group_row some three_rows (record {
          key = 5 ∷ [];
          paging_info = some (record { direction = ascending; limit = 2; id_cursor = 0 });
        }))
query_messages-wrapped_cursor_example =
    query_messages-wrapped_cursor group_row some three_rows (5 ∷ []) ascending 2 (2 ^ 63)
      (omega arith, (omega arith, (omega arith, tt))) (omega arith)
