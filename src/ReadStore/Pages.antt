-- ===== src/ReadStore/Pages.antt =====
-- An ascending page of the rows of a key: its rows are the first above the cursor, and its last id
-- leaves the others.
use xmtp_node_go.Base.{
  All, Bool, Bool-cases, Bytes, List, Option, [], ap, arith, drop, false, if◌then◌else◌, inl, inr,
  keep, length, ltb, negsuc, pos, refl, some, subst, suc, sym, take, zero, ℕ, ◌&&◌, ◌-◌, ◌==◌, ◌^◌,
  ◌∙◌, ◌∷◌, ◌≡◌, ◌≤◌, nat_eq, bytes_eq,
}
use xmtp_node_go.CatchUp.{RowReader, probe_matches}
use xmtp_node_go.CatchUp.Query.{Ascending}
use xmtp_node_go.CatchUp.Skip.{last_of, last_of-most, keep-after, last_of-above}
use xmtp_node_go.ReadStore.{
  SortDirection, query_messages, next_page, PagingInfo, ascending, last_id, page_size_of,
  select_rows, int64_cursor, cursor_of, query_with_cursor_asc, query_first, sort_desc_of,
  is_ascending,
}

abbrev pub max_id : ℕ
max_id = 2 ^ 63 - 1

-- The paging of an ascending query.
abbrev pub from_cursor : ℕ → ℕ → PagingInfo
from_cursor cursor limit = record { direction = ascending; limit = limit; id_cursor = cursor }

module _ {R : Type 0} (row : RowReader R) where
  -- Ids fit a positive int64.
  abbrev pub InRange : List R → Type 0
  InRange = All (λ r. row.id r ≤ max_id)

  -- The rows of a key above a cursor.
  abbrev pub above : List R → Bytes → ℕ → List R
  above table key cursor = keep (λ m. row.key m == key && ltb cursor (row.id m)) table

  above-probe :
      (table : List R) (key : Bytes) (cursor : ℕ)
      → InRange table
      → above table key cursor ≡ keep (probe_matches row key cursor max_id) table
  unfolding probe_matches
  above-probe [] key cursor h = refl
  above-probe (x ∷ xs) key cursor h = ground (arith, h, above-probe xs key cursor h.1)

  above-zero :
      (b : ℕ) (table : List R) (key : Bytes)
      → Ascending row b table
      → keep (λ m. row.key m == key) table ≡ above table key 0
  above-zero b [] key h = refl
  above-zero b (x ∷ xs) key h = ground (arith, h, above-zero (row.id x) xs key h.1)

  pub page-first :
      (table : List R) (key : Bytes) (cursor limit : ℕ)
      → Ascending row 0 table
      → cursor ≤ max_id
      → select_rows row table (record { key = key; paging_info = some (from_cursor cursor limit) })
        ≡ take (page_size_of (some (from_cursor cursor limit))) (above table key cursor)
  unfolding select_rows cursor_of int64_cursor query_with_cursor_asc query_first sort_desc_of
      is_ascending
  page-first table key cursor limit ordered small = elim (Bool-cases (ltb 0 cursor)) [
    | inl later ↦
        let kept : (if ltb cursor (2 ^ 63) then pos cursor else negsuc (2 ^ 64 - 1 - cursor))
            ≡ pos cursor =
          ground arith in
        rw (kept, later) refl
    | inr first ↦
        let zero_cursor : cursor ≡ 0 = ground (arith, first) in
        subst
          (λ c.
            select_rows row table (record { key = key; paging_info = some (from_cursor c limit) })
            ≡ take (page_size_of (some (from_cursor c limit))) (above table key c))
          (sym zero_cursor)
          (ap (take (page_size_of (some (from_cursor 0 limit)))) (above-zero 0 table key ordered))
  ]

  pub last_id-take : (n d : ℕ) (xs : List R) → last_id row (take n xs) d ≡ last_of row n xs d
  unfolding last_id
  last_id-take zero d xs = refl
  last_id-take (suc n) d [] = refl
  last_id-take (suc n) d (x ∷ xs) = last_id-take n (row.id x) xs

  -- After a full page, the rows above its last id are the others.
  pub above-next :
      (table : List R) (key : Bytes) (cursor n : ℕ)
      → Ascending row 0 table
      → InRange table
      → suc n ≤ length (above table key cursor)
      → above table key (last_id row (take (suc n) (above table key cursor)) 0)
        ≡ drop (suc n) (above table key cursor)
  above-next table key cursor n ordered fits more =
      let same = above-probe table key cursor fits in
      let page = keep (probe_matches row key cursor max_id) table in
      above-probe table key (last_id row (take (suc n) (above table key cursor)) 0) fits
      ∙ ap (λ rows. keep (probe_matches row key (last_id row (take (suc n) rows) 0) max_id) table)
          same
      ∙ ap (λ last. keep (probe_matches row key last max_id) table) (last_id-take (suc n) 0 page)
      ∙ keep-after row key cursor max_id n 0 table ordered
          (subst (λ rows. suc n ≤ length rows) same more)
      ∙ sym (ap (drop (suc n)) same)

  keep-InRange : (p : R → Bool) (xs : List R) → InRange xs → InRange (keep p xs)
  keep-InRange p [] h = tt
  keep-InRange p (x ∷ xs) h = ground (arith, h, keep-InRange p xs h.1)

  pub last_id-small :
      (table : List R) (key : Bytes) (cursor n : ℕ)
      → InRange table
      → last_id row (take n (above table key cursor)) 0 ≤ max_id
  last_id-small table key cursor n fits = rw (last_id-take n 0 (above table key cursor)) (
      last_of-most row n 0 max_id (above table key cursor) (omega arith)
        (keep-InRange _ table fits))

  pub last_id-positive :
      (n b : ℕ) (xs : List R)
      → Ascending row b xs
      → suc n ≤ length xs
      → (last_id row (take (suc n) xs) 0 == 0) ≡ false
  last_id-positive n b [] h more = ground (arith, more)
  last_id-positive n b (x ∷ xs) h more =
      ground (arith, last_id-take (suc n) 0 (x ∷ xs), last_of-above row n (row.id x) xs h.1, h.0)

module _ {R M : Type 0} (row : RowReader R) (parse : R → Option M) where
  -- No row is above a cursor past the ids.
  above-none :
      (table : List R) (key : Bytes) (cursor : ℕ)
      → InRange row table
      → 2 ^ 63 ≤ cursor
      → above row table key cursor ≡ []
  above-none [] key cursor fits large = refl
  above-none (x ∷ xs) key cursor fits large =
      ground (arith, fits.0, large, above-none xs key cursor fits.1 large)

  -- Where ids are int64, no row is above a cursor of 2 ^ 63 or more; and yet a query with that cursor
  -- is answered, whatever its direction and limit, as if its cursor were 0.
  pub query_messages-wrapped_cursor :
      (table : List R) (key : Bytes) (direction : SortDirection) (limit cursor : ℕ)
      → InRange row table
      → 2 ^ 63 ≤ cursor
      → (above row table key cursor ≡ [])
        × (query_messages row parse table (record {
          key = key;
          paging_info = some (record { direction = direction; limit = limit; id_cursor = cursor });
        })
            ≡ query_messages row parse table (record {
              key = key;
              paging_info = some (record { direction = direction; limit = limit; id_cursor = 0 });
            }))
  unfolding query_messages select_rows cursor_of int64_cursor sort_desc_of page_size_of next_page
  query_messages-wrapped_cursor table key direction limit cursor fits large =
      let wrapped : ltb cursor (2 ^ 63) ≡ false = ground (arith, large) in
      (above-none table key cursor fits large, rw wrapped refl)
