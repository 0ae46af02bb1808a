-- ===== src/MessageStore/Paging.antt =====
-- A client that follows the cursors of Query from page to page.

use xmtp_node_go.Base.{
  All, All-map, Bytes, List, Option, [], ap, arith, drop, false, length, ltb, map, min, none, refl,
  some, suc, sym, take, true, zero, ℕ, ◌&&◌, ◌++◌, ◌<◌, ◌==◌, ◌∙◌, ◌∷◌, ◌≡◌, ◌≤◌, nat_eq, bytes_eq,
}
use mathlib.Core.Option
use xmtp_node_go.ReadStore.{SortDirection, unspecified, ascending, descending}
use xmtp_node_go.Sorting.Pages.{Apart}
use xmtp_node_go.Subscriptions.{Envelope}
use xmtp_node_go.MessageStore.{
  MessageRow, QueryRequest, PagingInfo, order_before, matches_query, select_page, get_page_size,
  get_direction, paging_of, query, to_envelope, find_next_cursor, build_cursor, compute_digest,
  build_paging_info, build_response, rising_by, IndexCursor,
}
use xmtp_node_go.MessageStore.Order.{
  order_before-TotalPreorder, order_before_antisymm, cursor_of_row,
}

-- The primary key: no two rows have the same timestamp and id.
abbrev pub Keyed : List MessageRow → Type 0
Keyed [] = Unit
Keyed (x ∷ xs) =
    All (λ y. (x.sender_timestamp == y.sender_timestamp && x.id == y.id) ≡ false) xs × Keyed xs

-- No timestamp is 0.
abbrev pub Dated : List MessageRow → Type 0
Dated = All (λ r. (r.sender_timestamp == 0) ≡ false)

pub Keyed-Apart :
    (d : SortDirection) (rows : List MessageRow)
    → Keyed rows
    → Apart (order_before d) (order_before-TotalPreorder d) rows
Keyed-Apart d [] h = tt
Keyed-Apart d (x ∷ xs) h =
    (All-map (λ y other. order_before_antisymm d x y other) xs h.0, Keyed-Apart d xs h.1)

pub get_direction_again :
    (p : PagingInfo) (l : ℕ) (c : Option (Option xmtp_node_go.MessageStore.IndexCursor))
    → get_direction (record { limit = l; cursor = c; direction = get_direction p })
      ≡ get_direction p
unfolding get_direction
get_direction_again p l c = by_direction p.direction
  where
    by_direction :
        (d : SortDirection)
        → get_direction (record {
          limit = l;
          cursor = c;
          direction = get_direction (record p { direction = d });
        })
          ≡ get_direction (record p { direction = d })
    by_direction unspecified = refl
    by_direction ascending = refl
    by_direction descending = refl

-- A full page ends in a row.
pub split_last :
    {A : Type 0} (n : ℕ) (xs : List A)
    → 1 ≤ n
    → n ≤ length xs
    → (init : List A) × (c : A) × (take n xs ≡ init ++ c ∷ []) × (xs ≡ init ++ c ∷ drop n xs)
split_last zero xs some_there h = ground (arith, some_there)
split_last (suc n) [] some_there h = ground (arith, h)
split_last (suc zero) (x ∷ xs) some_there h = ([], x, refl, refl)
split_last (suc (suc n)) (x ∷ xs) some_there h =
    let (init, c, page, all) = split_last (suc n) xs (omega arith) (omega (arith, h)) in
    (x ∷ init, c, ap (◌∷◌ x) page, ap (◌∷◌ x) all)

module _ (sha256 : Bytes → Bytes) where
  -- Every id is the digest of its row.
  abbrev pub Digested : List MessageRow → Type 0
  Digested = All (λ r. r.id ≡ compute_digest sha256 (to_envelope r))

  find_next_cursor-last :
      (init : List MessageRow) (c : MessageRow)
      → c.id ≡ compute_digest sha256 (to_envelope c)
      → find_next_cursor sha256 (map to_envelope (init ++ c ∷ [])) ≡ some (some (cursor_of_row c))
  unfolding find_next_cursor build_cursor to_envelope
  find_next_cursor-last [] c digest =
      ap (λ i. some (some (record { digest = some i; sender_time_ns = c.sender_timestamp })))
        (sym digest)
  find_next_cursor-last (x ∷ []) c digest = find_next_cursor-last [] c digest
  find_next_cursor-last (x ∷ y ∷ init) c digest = find_next_cursor-last (y ∷ init) c digest

  -- Query again and again, each time with the paging of the last answer, until it has no cursor.
  -- `none` is out of fuel, or a panic.
  abbrev pub follow : ℕ → QueryRequest → List MessageRow → Option (List Envelope)
  follow zero q table = none
  follow (suc fuel) q table = elim (query sha256 q table) [
    | none ↦ none
    | some response ↦
        let rest = follow fuel (record q { paging_info = some response.paging_info }) table in
        elim response.paging_info.cursor [
          | none ↦ some response.envelopes
          | some c ↦ Option.map (λ more. response.envelopes ++ more) rest
        ]
  ]

  pub page_size_positive : (p : PagingInfo) → 1 ≤ get_page_size p
  unfolding get_page_size
  page_size_positive p = ground arith

  length-map : (xs : List MessageRow) → length (map to_envelope xs) ≡ length xs
  length-map [] = refl
  length-map (x ∷ xs) = omega (arith, length-map xs)

  -- The paging after a page that is not full, and after a full one.
  pub paging-short :
      (p : PagingInfo) (rows : List MessageRow)
      → length rows < get_page_size p
      → (build_paging_info sha256 (map to_envelope rows) p).cursor ≡ none
  unfolding build_paging_info get_page_size
  paging-short p rows h =
      let short : ltb (length (map to_envelope rows)) (get_page_size p) ≡ true =
        ground (arith, h, length-map rows) in
      rw short refl

  unfoldable pub next_paging : PagingInfo → MessageRow → PagingInfo
  next_paging p c = record {
    limit = min (get_page_size p) 100;
    cursor = some (some (cursor_of_row c));
    direction = get_direction p;
  }

  pub paging-full :
      (p : PagingInfo) (init : List MessageRow) (c : MessageRow)
      → c.id ≡ compute_digest sha256 (to_envelope c)
      → get_page_size p ≤ length (init ++ c ∷ [])
      → build_paging_info sha256 (map to_envelope (init ++ c ∷ [])) p ≡ next_paging p c
  unfolding build_paging_info next_paging get_page_size get_direction
  paging-full p init c digest h =
      let full : ltb (length (map to_envelope (init ++ c ∷ []))) (get_page_size p) ≡ false =
        ground (arith, h, length-map (init ++ c ∷ [])) in
      rw (full, find_next_cursor-last init c digest) refl

  pub follow-last :
      (fuel : ℕ) (q : QueryRequest) (p : PagingInfo) (table page : List MessageRow)
      → select_page (record q { paging_info = some p }) table ≡ some page
      → (build_paging_info sha256 (map to_envelope page) p).cursor ≡ none
      → follow (suc fuel) (record q { paging_info = some p }) table ≡ some (map to_envelope page)
  unfolding query build_response paging_of
  follow-last fuel q p table page selected end = rw (follow, query, selected) (rw end refl)

  pub follow-more :
      (fuel : ℕ) (q : QueryRequest) (p next : PagingInfo) (c : Option IndexCursor)
      (table page : List MessageRow)
      → select_page (record q { paging_info = some p }) table ≡ some page
      → build_paging_info sha256 (map to_envelope page) p ≡ next
      → next.cursor ≡ some c
      → follow (suc fuel) (record q { paging_info = some p }) table
        ≡ Option.map
            (λ more. map to_envelope page ++ more)
            (follow fuel (record q { paging_info = some next }) table)
  unfolding query build_response paging_of
  follow-more fuel q p next c table page selected paging more =
      rw (follow, query, selected)
        (rw (ap (λ (x : PagingInfo). x.cursor) paging ∙ more) (
          ap
            (λ (x : PagingInfo).
              Option.map (λ more. map to_envelope page ++ more)
                (follow fuel (record q { paging_info = some x }) table))
            paging))
