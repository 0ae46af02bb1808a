-- ===== src/MessageStore/Following.antt =====
-- The whole of a query: what a client gets that follows the cursors to their end.
use mathlib.Core.List.{append_assoc, map-append}
use xmtp_node_go.MessageStore.Pages.{answers, select_page-after, select_page-first}
use xmtp_node_go.CatchUp.Due.{take-short, length-take-full}
use xmtp_node_go.Sorting.{Rising, after, sort_by-All}
use xmtp_node_go.Base.{
  All-middle, Bool-cases, Bytes, List, [], ap, arith, drop, inl, inr, keep, keep-All, length,
  length-drop, length-keep-le, ltb, map, none, refl, some, subst, suc, sym, take, zero, ℕ, ◌++◌,
  ◌<◌, ◌∙◌, ◌∷◌, ◌≡◌, ◌≤◌,
}
use mathlib.Core.Option
use xmtp_node_go.ReadStore.{SortDirection}
use xmtp_node_go.Sorting.Pages.{self, after-rest, sort_by-Rising, keep-Apart, length-sort_by}
use xmtp_node_go.MessageStore.{
  MessageRow, QueryRequest, PagingInfo, order_before, matches_query, select_page, get_page_size,
  get_direction, to_envelope,
}
use xmtp_node_go.MessageStore.Order.{order_before-TotalPreorder, cursor_of_row}
use xmtp_node_go.MessageStore.Paging.{
  Keyed, Dated, Keyed-Apart, get_direction_again, split_last, Digested, follow, page_size_positive,
  paging-short, next_paging, paging-full, follow-last, follow-more,
}

module _ (sha256 : Bytes → Bytes) where
  module _ (q : QueryRequest) (d : SortDirection) (table : List MessageRow)
      (dated : Dated (answers q d table)) (digested : Digested sha256 (answers q d table))
      (rising : Rising (order_before d) (answers q d table)) where
    -- The page after a row.
    select-rest :
        (p : PagingInfo) (done rest : List MessageRow) (c : MessageRow)
        → get_direction p ≡ d
        → answers q d table ≡ done ++ c ∷ rest
        → select_page (record q { paging_info = some (next_paging sha256 p c) }) table
          ≡ some (take (get_page_size (next_paging sha256 p c)) rest)
    unfolding next_paging
    select-rest p done rest c same whole =
        let row_dated = All-middle _ done c rest (subst Dated whole dated) in
        let again : get_direction (next_paging sha256 p c) ≡ d = get_direction_again p _ _ ∙ same in
        select_page-after q (next_paging sha256 p c) c table row_dated
        ∙ ap
            (λ e. some (
              take (get_page_size (next_paging sha256 p c))
                (after (order_before e) c (answers q e table))))
            again
        ∙ ap
            (λ l. some (take (get_page_size (next_paging sha256 p c)) (after (order_before d) c l)))
            whole
        ∙ ap (λ l. some (take (get_page_size (next_paging sha256 p c)) l))
            (after-rest (order_before d) done c rest
              (self (order_before d) (order_before-TotalPreorder d) c)
              (subst (Rising (order_before d)) whole rising))

    follow-full :
        (fuel : ℕ) (p : PagingInfo) (done init rest : List MessageRow) (c : MessageRow)
        → answers q d table ≡ done ++ init ++ c ∷ rest
        → get_page_size p ≤ length (init ++ c ∷ [])
        → select_page (record q { paging_info = some p }) table ≡ some (init ++ c ∷ [])
        → follow sha256 fuel (record q { paging_info = some (next_paging sha256 p c) }) table
          ≡ some (map to_envelope rest)
        → follow sha256 (suc fuel) (record q { paging_info = some p }) table
          ≡ some (map to_envelope (init ++ c ∷ rest))
    unfolding next_paging
    follow-full fuel p done init rest c whole full page later =
        let digest = All-middle _ (done ++ init) c rest (subst (Digested sha256) whole digested) in
        follow-more sha256 fuel q p (next_paging sha256 p c) (some (cursor_of_row c)) table
          (init ++ c ∷ []) page (paging-full sha256 p init c digest full) refl
        ∙ ap (Option.map (λ more. map to_envelope (init ++ c ∷ []) ++ more)) later
        ∙ ap some (
            sym (map-append to_envelope (init ++ c ∷ []) rest)
            ∙ ap (map to_envelope) (append_assoc init (c ∷ []) rest))

    -- Pages sent and rows to come make up the whole answer.
    follow-rest :
        (fuel : ℕ) (p : PagingInfo) (done rows : List MessageRow)
        → get_direction p ≡ d
        → answers q d table ≡ done ++ rows
        → select_page (record q { paging_info = some p }) table ≡ some (take (get_page_size p) rows)
        → length rows < fuel
        → follow sha256 fuel (record q { paging_info = some p }) table ≡ some (map to_envelope rows)
    unfolding next_paging
    follow-rest zero p done rows same whole page enough = ground (arith, enough)
    follow-rest (suc fuel) p done rows same whole page enough =
        let n = get_page_size p in
        elim (Bool-cases (ltb (length (take n rows)) n)) [
          | inl short ↦
              let all : take n rows ≡ rows = take-short n rows (ground (arith, short)) in
              follow-last sha256 fuel q p table rows (page ∙ ap some all)
                (paging-short sha256 p rows (ground (arith, short, ap length all)))
          | inr full ↦
              let more : n ≤ length rows = length-take-full n rows (ground (arith, full)) in
              let (init, c, last, split) = split_last n rows (page_size_positive sha256 p) more in
              let parts : answers q d table ≡ done ++ init ++ c ∷ drop n rows =
                whole
                ∙ ap (λ l. done ++ l) split
                ∙ sym (append_assoc done init (c ∷ drop n rows)) in
              let next =
                follow-rest fuel (next_paging sha256 p c) (done ++ init ++ c ∷ []) (drop n rows)
                  (get_direction_again p _ _ ∙ same)
                  (parts ∙ sym (append_assoc (done ++ init) (c ∷ []) (drop n rows)))
                  (select-rest p (done ++ init) (drop n rows) c same parts)
                  (omega (arith, enough, more, page_size_positive sha256 p, length-drop n rows)) in
              follow-full fuel p done init (drop n rows) c parts
                (ground (arith, full, ap length last)) (page ∙ ap some last) next
              ∙ ap (λ l. some (map to_envelope l)) (sym split)
        ]

  -- If no two rows have the same timestamp and id, every id is the digest of its row, and no timestamp
  -- is 0, then a client that starts without a cursor and follows the cursors of the answers gets
  -- every row that its query asks for, each once and in the order of the query's direction, and the
  -- pages end, on fuel of a unit for each row and one more.
  pub follow-all :
      (q : QueryRequest) (p : PagingInfo) (table : List MessageRow) (fuel : ℕ)
      → Keyed table
      → Digested sha256 table
      → Dated table
      → p.cursor ≡ none
      → length table < fuel
      → follow sha256 fuel (record q { paging_info = some p }) table
        ≡ some (map to_envelope (answers q (get_direction p) table))
  follow-all q p table fuel keyed digested dated first enough =
      let d = get_direction p in
      let order = order_before-TotalPreorder d in
      let found = keep (matches_query q) table in
      let fits : length (answers q d table) < fuel = omega (
        arith,
        enough,
        length-sort_by (order_before d) order found,
        length-keep-le (matches_query q) table,
      ) in
      follow-rest q d table
        (sort_by-All (order_before d) _ found (keep-All _ (matches_query q) table dated))
        (sort_by-All (order_before d) _ found (keep-All _ (matches_query q) table digested))
        (sort_by-Rising (order_before d) order found
          (keep-Apart (order_before d) order (matches_query q) table (Keyed-Apart d table keyed)))
        fuel p [] (answers q d table) refl refl (select_page-first q p table first) fits
