-- ===== src/MessageStore/Pages.antt =====
-- A page of a query: the two selects and their union are the rows after the cursor.
use xmtp_node_go.Base.{
  All, All-every, All-map, Bool, Bool-cases, Bytes, List, Option, Option-cases, [], ap, arith,
  false, inl, inr, keep, keep_everything, keep-ext, keep-keep, keep-kept, length, ltb, map, none,
  not, refl, some, subst, suc, sym, take, take-All, true, zero, ℕ, ◌&&◌, ◌++◌, ◌==◌, ◌∙◌, ◌∷◌, ◌≡◌,
  ◌≤◌, nat_eq, bytes_eq,
}
use mathlib.Core.Path.{ap₂}
use xmtp_node_go.ReadStore.{SortDirection}
use xmtp_node_go.Sorting.{sort_by, Sorted, after, sort_by-keep, sort_by-Sorted}
use xmtp_node_go.Sorting.Pages.{keep-Sorted, take-Sorted, take-cap, sort_by-swap, keep-parts}
use xmtp_node_go.MessageStore.{
  MessageRow, QueryRequest, PagingInfo, order_before, first_select, second_select, union_rows,
  in_rows, matches_query, select_page, get_page_size, get_direction, paging_of, QueryResponse,
  query, build_response, to_envelope, no_paging,
}
use xmtp_node_go.MessageStore.Order.{
  order_before-TotalPreorder, cursor_of_row, selects-after, selects-apart, order_before-same,
}

-- Every row that a query asks for, in its order.
abbrev pub answers : QueryRequest → SortDirection → List MessageRow → List MessageRow
answers q d table = sort_by (order_before d) (keep (matches_query q) table)

-- The rows of one select.
select-keep :
    (q : QueryRequest) (d : SortDirection) (p : MessageRow → Bool) (table : List MessageRow)
    → sort_by (order_before d) (keep (λ r. matches_query q r && p r) table)
      ≡ keep p (answers q d table)
select-keep q d p table =
    ap (sort_by (order_before d)) (keep-keep (matches_query q) p table)
    ∙ sort_by-keep (order_before d) (order_before-TotalPreorder d) p (keep (matches_query q) table)

module _ (d : SortDirection) (c : MessageRow) (dated : (c.sender_timestamp == 0) ≡ false) where
  in_rows-apart :
      (y : MessageRow) (xs : List MessageRow)
      → All (λ x. first_select d (cursor_of_row c) x ≡ true) xs
      → second_select d (cursor_of_row c) y ≡ true
      → in_rows y xs ≡ false
  unfolding in_rows
  in_rows-apart y [] h k = refl
  in_rows-apart y (x ∷ xs) h k =
      let apart = selects-apart d c x y dated h.0 k in
      elim (Bool-cases (x.sender_timestamp == y.sender_timestamp && x.id == y.id)) [
        | inl same ↦ ground (arith, apart, order_before-same d x y same)
        | inr other ↦ rw other (in_rows-apart y xs h.1 k)
      ]

  union_rows-apart :
      (xs ys : List MessageRow)
      → All (λ x. first_select d (cursor_of_row c) x ≡ true) xs
      → All (λ y. second_select d (cursor_of_row c) y ≡ true) ys
      → union_rows xs ys ≡ xs ++ ys
  unfolding union_rows
  union_rows-apart xs ys h k =
      ap (λ rest. xs ++ rest)
        (keep_everything (λ y. not (in_rows y xs)) ys
          (All-map (λ y late. ap not (in_rows-apart y xs h late)) ys k))

  -- The ordered union of what the two selects take of a list in order.
  union-after :
      (n : ℕ) (rows : List MessageRow)
      → Sorted (order_before d) rows
      → take n (
          sort_by (order_before d) (
            union_rows
              (take n (keep (first_select d (cursor_of_row c)) rows))
              (take n (keep (second_select d (cursor_of_row c)) rows))))
        ≡ take n (after (order_before d) c rows)
  union-after n rows sorted =
      let p1 = first_select d (cursor_of_row c) in
      let p2 = second_select d (cursor_of_row c) in
      let xs = take n (keep p1 rows) in
      let ys = take n (keep p2 rows) in
      let firsts : All (λ x. p1 x ≡ true) xs = take-All _ n (keep p1 rows) (keep-kept p1 rows) in
      let seconds : All (λ y. p2 y ≡ true) ys = take-All _ n (keep p2 rows) (keep-kept p2 rows) in
      ap (λ l. take n (sort_by (order_before d) l)) (union_rows-apart xs ys firsts seconds)
      ∙ ap (take n) (
          sort_by-swap (order_before d) (order_before-TotalPreorder d) xs ys
            (take-Sorted (order_before d) n (keep p1 rows)
              (keep-Sorted (order_before d) p1 rows sorted))
            (take-Sorted (order_before d) n (keep p2 rows)
              (keep-Sorted (order_before d) p2 rows sorted))
            (All-map
              (λ x early. All-map (λ y late. selects-apart d c x y dated early late) ys seconds) xs
              firsts))
      ∙ take-cap n n n (keep p2 rows) (keep p1 rows) (omega arith) (omega arith)
      ∙ ap (take n) (
          sym (
            keep-parts (order_before d) (order_before-TotalPreorder d) p2 p1
              (λ x y early late. selects-apart d c x y dated early late) rows sorted)
          ∙ keep-ext _ _ rows (All-every _ rows (λ r. selects-after d c r dated)))

-- The request for the page after a row.
abbrev pub after_row : QueryRequest → PagingInfo → MessageRow → QueryRequest
after_row q p c = record q {
  paging_info = some (record p { cursor = some (some (cursor_of_row c)) });
}

pub select_page-after :
    (q : QueryRequest) (p : PagingInfo) (c : MessageRow) (table : List MessageRow)
    → (c.sender_timestamp == 0) ≡ false
    → select_page (after_row q p c) table
      ≡ some (
          take
            (get_page_size p)
            (after (order_before (get_direction p)) c (answers q (get_direction p) table)))
unfolding select_page paging_of get_page_size get_direction matches_query
select_page-after q p c table dated =
    let d = get_direction p in
    let n = get_page_size p in
    ap some (
      ap₂ (λ xs ys. take n (sort_by (order_before d) (union_rows (take n xs) (take n ys))))
        (select-keep q d (first_select d (cursor_of_row c)) table)
        (select-keep q d (second_select d (cursor_of_row c)) table)
      ∙ union-after d c dated n (answers q d table) (
          sort_by-Sorted (order_before d) (order_before-TotalPreorder d)
            (keep (matches_query q) table)))

pub select_page-first :
    (q : QueryRequest) (p : PagingInfo) (table : List MessageRow)
    → p.cursor ≡ none
    → select_page (record q { paging_info = some p }) table
      ≡ some (take (get_page_size p) (answers q (get_direction p) table))
unfolding select_page paging_of get_page_size get_direction matches_query
select_page-first q p table first = rw first refl

-- A page that there is has at most so many rows.
abbrev AtMost : ℕ → Option (List MessageRow) → Type 0
AtMost n none = Unit
AtMost n (some rows) = length rows ≤ n

abbrev pub Fits : ℕ → Option QueryResponse → Type 0
Fits n none = Unit
Fits n (some response) = length response.envelopes ≤ n

length-take-le : {A : Type 0} (n : ℕ) (xs : List A) → length (take n xs) ≤ n
length-take-le zero xs = omega arith
length-take-le (suc n) [] = omega arith
length-take-le (suc n) (x ∷ xs) = omega (arith, length-take-le n xs)

select_page-AtMost :
    (q : QueryRequest) (table : List MessageRow)
    → AtMost (get_page_size (paging_of q.paging_info)) (select_page q table)
unfolding select_page get_page_size paging_of
select_page-AtMost q table = elim (Option-cases (paging_of q.paging_info).cursor) [
  | inl first ↦ rw (select_page, first) (length-take-le _ _)
  | inr (c, later) ↦ elim (Option-cases c) [
    | inl no_index ↦ rw (select_page, later, no_index) tt
    | inr (index, there) ↦ rw (select_page, later, there) (length-take-le _ _)
  ]
]

length-map : {A B : Type 0} (f : A → B) (xs : List A) → length (map f xs) ≡ length xs
length-map f [] = refl
length-map f (x ∷ xs) = omega (arith, length-map f xs)

pub query-Fits :
    (sha256 : Bytes → Bytes) (q : QueryRequest) (table : List MessageRow)
    → Fits (get_page_size (paging_of q.paging_info)) (query sha256 q table)
unfolding query build_response
query-Fits sha256 q table =
    let small = select_page-AtMost q table in
    elim (Option-cases (select_page q table)) [
      | inl panics ↦ rw (query, panics) tt
      | inr (rows, page) ↦
          rw (query, page)
            (omega (
              arith,
              length-map to_envelope rows,
              subst (AtMost (get_page_size (paging_of q.paging_info))) page small,
            ))
    ]

pub page_size-limited :
    (paging : Option PagingInfo) (most : ℕ)
    → 100 ≤ most
    → (elim paging [ none ↦ false | some p ↦ ltb most p.limit ]) ≡ false
    → get_page_size (paging_of paging) ≤ most
unfolding get_page_size paging_of no_paging
page_size-limited none most enough h = ground (arith, enough)
page_size-limited (some p) most enough h = ground (arith, enough, h)
