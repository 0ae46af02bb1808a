-- ===== src/MessageStore/Order.antt =====
-- The order of a query, and what its two selects keep of a list in that order.
use xmtp_node_go.Base.{
  Bytes, [], arith, eq_iff, false, not, refl, some, true, ◌&&◌, ◌==◌, ◌||◌, ◌∷◌, ◌≡◌, nat_eq,
  bytes_eq,
}
use xmtp_node_go.ReadStore.{SortDirection, unspecified, ascending, descending}
use xmtp_node_go.Sorting.{TotalPreorder}
use xmtp_node_go.Sorting.Lexicographic.{
  rising_by, falling_by, rising_by-TotalPreorder, falling_by-TotalPreorder, bytes_leb_antisymm,
}
use xmtp_node_go.MessageStore.{
  MessageRow, IndexCursor, row_key, order_before, first_select, second_select, beyond, later_than,
  bytes_leb,
}

pub order_before-TotalPreorder : (d : SortDirection) → TotalPreorder (order_before d)
unfolding order_before
order_before-TotalPreorder ascending = rising_by-TotalPreorder row_key
order_before-TotalPreorder unspecified = falling_by-TotalPreorder row_key
order_before-TotalPreorder descending = falling_by-TotalPreorder row_key

-- The cursor of a row.
abbrev pub cursor_of_row : MessageRow → IndexCursor
cursor_of_row c = record { digest = some c.id; sender_time_ns = c.sender_timestamp }

pub selects-after :
    (d : SortDirection) (c r : MessageRow)
    → (c.sender_timestamp == 0) ≡ false
    → (first_select d (cursor_of_row c) r || second_select d (cursor_of_row c) r)
      ≡ not (order_before d r c)
unfolding order_before first_select second_select beyond later_than rising_by falling_by
selects-after ascending c r h = rw h (ground arith)
selects-after unspecified c r h = rw h (ground arith)
selects-after descending c r h = rw h (ground arith)

pub selects-apart :
    (d : SortDirection) (c x y : MessageRow)
    → (c.sender_timestamp == 0) ≡ false
    → first_select d (cursor_of_row c) x ≡ true
    → second_select d (cursor_of_row c) y ≡ true
    → order_before d x y ≡ false
unfolding order_before first_select second_select beyond later_than rising_by falling_by
selects-apart ascending c x y h = rw h (ground arith)
selects-apart unspecified c x y h = rw h (ground arith)
selects-apart descending c x y h = rw h (ground arith)

same_leb : (xs ys : Bytes) → (xs == ys) ≡ true → bytes_leb xs ys ≡ true
same_leb [] ys h = refl
same_leb (x ∷ xs) [] h = absurd (cc h)
same_leb (x ∷ xs) (y ∷ ys) h = ground (arith, h, same_leb xs ys)

pub order_before-same :
    (d : SortDirection) (x y : MessageRow)
    → (x.sender_timestamp == y.sender_timestamp && x.id == y.id) ≡ true
    → order_before d x y ≡ true
unfolding order_before rising_by falling_by
order_before-same ascending x y h = ground (arith, h, same_leb x.id y.id)
order_before-same unspecified x y h =
    ground (arith, h, same_leb y.id x.id, eq_iff x.id y.id, eq_iff y.id x.id)
order_before-same descending x y h =
    ground (arith, h, same_leb y.id x.id, eq_iff x.id y.id, eq_iff y.id x.id)

-- Two rows of which each stands before the other have the same key.
pub order_before_antisymm :
    (d : SortDirection) (x y : MessageRow)
    → (x.sender_timestamp == y.sender_timestamp && x.id == y.id) ≡ false
    → (order_before d x y && order_before d y x) ≡ false
unfolding order_before rising_by falling_by
order_before_antisymm ascending x y h = ground (arith, h, bytes_leb_antisymm x.id y.id)
order_before_antisymm unspecified x y h = ground (arith, h, bytes_leb_antisymm x.id y.id)
order_before_antisymm descending x y h = ground (arith, h, bytes_leb_antisymm x.id y.id)
