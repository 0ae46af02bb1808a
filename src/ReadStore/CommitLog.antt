-- ===== src/ReadStore/CommitLog.antt =====
-- A query of the commit log that fits one page.
use xmtp_node_go.Base.{
  Bytes, List, Option, [], ap, arith, false, if◌then◌else◌, leb, length, ltb, negsuc, ok, pos, refl,
  some, suc, take, zero, ℕ, ◌-◌, ◌<◌, ◌==◌, ◌^◌, ◌∷◌, ◌≡◌, ◌≤◌, nat_eq, bytes_eq,
}
use xmtp_node_go.ReadStore.{
  CommitLogRow, CommitLogEntry, commit_log_row, query_commit_log, to_entries, query_with_cursor_asc,
  next_page, commit_page_size, cursor_of, int64_cursor, is_descending,
}
use xmtp_node_go.ReadStore.Pages.{above, from_cursor, max_id}

take-whole {ℓ} : {A : Type ℓ} (n : ℕ) (xs : List A) → length xs ≤ n → take n xs ≡ xs
take-whole zero [] h = refl
take-whole zero (x ∷ xs) h = ground (arith, h)
take-whole (suc n) [] h = refl
take-whole (suc n) (x ∷ xs) h = ap (◌∷◌ x) (take-whole n xs (omega (arith, h)))

module _ {S : Type 0} (unmarshal : Bytes → Option S) where
  pub query_commit_log-short :
      (table : List CommitLogRow) (key : Bytes) (cursor : ℕ) (entries : List (CommitLogEntry S))
      → (length key == 0) ≡ false
      → cursor ≤ max_id
      → length (above commit_log_row table key cursor) < 100
      → to_entries unmarshal (above commit_log_row table key cursor) ≡ ok entries
      → query_commit_log unmarshal table
          (record { key = key; paging_info = some (from_cursor cursor 0) })
        ≡ ok (record { messages = entries; paging_info = from_cursor 0 100 })
  unfolding query_commit_log query_with_cursor_asc cursor_of int64_cursor commit_page_size next_page
      is_descending
  query_commit_log-short table key cursor entries named small short decoded =
      let rows = above commit_log_row table key cursor in
      let kept : (if ltb cursor (2 ^ 63) then pos cursor else negsuc (2 ^ 64 - 1 - cursor))
          ≡ pos cursor =
        ground (arith, small) in
      let page : leb 100 (length rows) ≡ false = ground (arith, short) in
      rw (named, kept, take-whole 100 rows (omega (arith, short)), decoded, page) refl
