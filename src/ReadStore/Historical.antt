-- ===== src/ReadStore/Historical.antt =====
-- The replay of a subscription filter: it sends every row of the filter above its cursor, and ends.
use xmtp_node_go.Base.{
  All, Bool, Bool-cases, Bytes, List, Option, Option-cases, [], ap, arith, drop, false,
  if◌then◌else◌, inl, inr, keep, leb, length, length-drop, none, ok, refl, some, suc, sym, take,
  take-append-drop, true, zero, ℕ, ◌++◌, ◌<◌, ◌==◌, ◌||◌, ◌∙◌, ◌∷◌, ◌≡◌, ◌≤◌, nat_eq, bytes_eq,
}
use xmtp_node_go.CatchUp.{RowReader, parse_rows}
use xmtp_node_go.CatchUp.Due.{take-short, length-take-full}
use xmtp_node_go.CatchUp.Query.{Ascending, keep-Ascending}
use xmtp_node_go.ReadStore.{
  fetch_historical, filter_paging, query_messages, page_size_of, next_page, sort_desc_of,
  QueryResponse, is_ascending, last_id,
}
use xmtp_node_go.ReadStore.Pages.{
  max_id, above, InRange, from_cursor, page-first, above-next, last_id-small, last_id-positive,
}
use mathlib.Core.Option

or_true : (b : Bool) → (b || true) ≡ true
or_true b = ground arith

module _ {R M : Type 0} (row : RowReader R) (parse : R → Option M) where
  -- Every row has a message.
  abbrev pub Readable : List R → Type 0
  Readable = All (λ r. (m : M) × (parse r ≡ some m))

  parse_rows-append :
      (xs ys : List R) → parse_rows parse (xs ++ ys) ≡ parse_rows parse xs ++ parse_rows parse ys
  unfolding parse_rows
  parse_rows-append [] ys = refl
  parse_rows-append (x ∷ xs) ys = elim (Option-cases (parse x)) [
    | inl skipped ↦ rw (parse_rows, skipped) (parse_rows-append xs ys)
    | inr (m, read) ↦ rw (parse_rows, read) (ap (◌∷◌ m) (parse_rows-append xs ys))
  ]

  parse_rows-some :
      (n : ℕ) (xs : List R)
      → Readable xs
      → suc n ≤ length xs
      → (length (parse_rows parse (take (suc n) xs)) == 0) ≡ false
  unfolding parse_rows
  parse_rows-some n [] h more = ground (arith, more)
  parse_rows-some n (x ∷ xs) h more = rw (h.0.1) (ground arith)

  keep-Readable : (p : R → Bool) (xs : List R) → Readable xs → Readable (keep p xs)
  keep-Readable p [] h = tt
  keep-Readable p (x ∷ xs) h = elim (Bool-cases (p x)) [
    | inl kept ↦ rw kept (h.0, keep-Readable p xs h.1)
    | inr skipped ↦ rw skipped (keep-Readable p xs h.1)
  ]

  -- The answer to an ascending query.
  abbrev page_of : ℕ → List R → QueryResponse M
  page_of n rows = record {
    messages = parse_rows parse rows;
    paging_info = from_cursor (if leb n (length rows) then last_id row rows 0 else 0) n;
  }

  query-page :
      (cursor limit n : ℕ) (table : List R) (key : Bytes)
      → (length key == 0) ≡ false
      → Ascending row 0 table
      → cursor ≤ max_id
      → page_size_of (some (from_cursor cursor limit)) ≡ n
      → query_messages row parse table
          (record { key = key; paging_info = some (from_cursor cursor limit) })
        ≡ ok (page_of n (take n (above row table key cursor)))
  unfolding query_messages sort_desc_of is_ascending next_page
  query-page cursor limit n table key named ordered small size =
      rw (named, page-first row table key cursor limit ordered small, size) refl

  size-again :
      (limit n : ℕ)
      → page_size_of (some (from_cursor 0 limit)) ≡ n
      → page_size_of (some (from_cursor 0 n)) ≡ n
  unfolding page_size_of
  size-again limit n h = ground (arith, h)

  replay :
      (fuel cursor limit n : ℕ) (table : List R) (key : Bytes)
      → (length key == 0) ≡ false
      → Ascending row 0 table
      → InRange row table
      → Readable table
      → cursor ≤ max_id
      → page_size_of (some (from_cursor 0 limit)) ≡ suc n
      → length (above row table key cursor) < fuel
      → fetch_historical row parse fuel table key (from_cursor cursor limit)
        ≡ some (parse_rows parse (above row table key cursor), none)
  unfolding fetch_historical page_size_of
  replay zero cursor limit n table key named ordered fits readable small size enough =
      ground (arith, enough)
  replay (suc fuel) cursor limit n table key named ordered fits readable small size enough =
      let rows = above row table key cursor in
      let page = take (suc n) rows in
      rw (fetch_historical, query-page cursor limit (suc n) table key named ordered small size)
        (elim (Bool-cases (leb (suc n) (length page))) [
          | inl full ↦
              let more : suc n ≤ length rows =
                length-take-full (suc n) rows (ground (arith, full)) in
              let last = last_id row page 0 in
              let next = above-next row table key cursor n ordered fits more in
              let rest =
                replay fuel last (suc n) n table key named ordered fits readable
                  (last_id-small row table key cursor (suc n) fits) (size-again limit (suc n) size)
                  (rw next (omega (arith, length-drop (suc n) rows, enough))) in
              rw
                (
                  full,
                  parse_rows-some n rows (keep-Readable _ table readable) more,
                  last_id-positive row n 0 rows (keep-Ascending row _ 0 table ordered) more,
                )
                (ap (Option.map (λ (sent, stop). (parse_rows parse page ++ sent, stop))) rest
                  ∙ ap (λ sent. some (sent, none))
                      (ap (λ others. parse_rows parse page ++ parse_rows parse others) next
                        ∙ sym (parse_rows-append page (drop (suc n) rows))
                        ∙ ap (parse_rows parse) (take-append-drop (suc n) rows)))
          | inr short ↦
              rw (short, or_true (length (parse_rows parse page) == 0))
                (ap (λ found. some (parse_rows parse found, none))
                  (take-short (suc n) rows (ground (arith, short))))
        ])

  -- A filter with a key and a cursor within int64, over a table in the order of ids whose rows all
  -- have a message: on fuel of one more than the rows above the cursor, the replay sends the messages
  -- of those rows, each once and in order, over as many pages as it takes, and ends without an error.
  pub fetch_historical-all :
      (table : List R) (key : Bytes) (cursor fuel : ℕ)
      → (length key == 0) ≡ false
      → Ascending row 0 table
      → InRange row table
      → Readable table
      → cursor ≤ max_id
      → length (above row table key cursor) < fuel
      → fetch_historical row parse fuel table key (filter_paging cursor)
        ≡ some (parse_rows parse (above row table key cursor), none)
  unfolding filter_paging page_size_of
  fetch_historical-all table key cursor fuel named ordered fits readable small enough =
      replay fuel cursor 0 99 table key named ordered fits readable small refl enough
