-- ===== src/MessageStore.antt =====
-- The store of the older message API, pkg/store/query.go: Query with its paging.
--
-- A table is the list of its rows, in any order. The hash of a message is a parameter. Times and the
-- bytes of ids are compared as numbers and byte by byte; a failed SQL query is left out.
pub mod Order
pub mod Pages
pub mod Paging
pub mod Following
pub mod Inserts
pub mod Cleaner
mod Tests
use xmtp_node_go.Base.{
  Bool, Bytes, List, Option, [], false, if◌then◌else◌, keep, leb, length, ltb, map, member, min,
  none, not, some, take, true, ℕ, ◌&&◌, ◌++◌, ◌==◌, ◌||◌, ◌∷◌, nat_eq, bytes_eq,
}
use mathlib.Core.Option
use xmtp_node_go.ReadStore.{SortDirection, unspecified, ascending, descending}
use xmtp_node_go.Sorting.{sort_by}
use xmtp_node_go.Subscriptions.{Envelope}
use xmtp_node_go.Topic.{has_prefix}
use xmtp_node_go.Sorting.Lexicographic.{bytes_leb, rising_by, falling_by}

pub record MessageRow : Type 0 where
  pub id : Bytes
  pub receiver_timestamp : ℕ
  pub sender_timestamp : ℕ
  pub content_topic : Bytes
  pub payload : Bytes
  pub should_expire : Bool

-- An index cursor; `none` is a nil digest.
pub record IndexCursor : Type 0 where
  pub digest : Option Bytes
  pub sender_time_ns : ℕ

-- A cursor without an index is `some none`.
pub record PagingInfo : Type 0 where
  pub limit : ℕ
  pub cursor : Option (Option IndexCursor)
  pub direction : SortDirection

pub record QueryRequest : Type 0 where
  pub content_topics : List Bytes
  pub start_time_ns : ℕ
  pub end_time_ns : ℕ
  pub paging_info : Option PagingInfo

pub record QueryResponse : Type 0 where
  pub envelopes : List Envelope
  pub paging_info : PagingInfo

abbrev pub max_page_size : ℕ
max_page_size = 100

-- A request without paging has the paging of zero values.
pub no_paging : PagingInfo
no_paging = record { limit = 0; cursor = none; direction = unspecified }

pub paging_of : Option PagingInfo → PagingInfo
unfolding no_paging
paging_of none = no_paging
paging_of (some p) = p

pub get_direction : PagingInfo → SortDirection
get_direction p = elim p.direction [
  | unspecified ↦ descending
  | ascending ↦ ascending
  | descending ↦ descending
]

pub get_page_size : PagingInfo → ℕ
get_page_size p = if p.limit == 0 then max_page_size else p.limit

-- The primary key of a row, less the pubsub topic, which is empty in every row.
abbrev pub row_key : MessageRow → ℕ × Bytes
row_key r = (r.sender_timestamp, r.id)

-- The ORDER BY of a direction.
pub order_before : SortDirection → MessageRow → MessageRow → Bool
order_before ascending = rising_by row_key
order_before unspecified = falling_by row_key
order_before descending = falling_by row_key

-- The WHERE of buildSqlQueryWithoutCursor.
pub matches_query : QueryRequest → MessageRow → Bool
matches_query q r =
    (length q.content_topics == 0 || member r.content_topic q.content_topics)
    && ((q.start_time_ns == 0 || leb q.start_time_ns r.sender_timestamp)
        && (q.end_time_ns == 0 || leb r.sender_timestamp q.end_time_ns))

-- A comparison with a column of a row, strict, in the direction of the query.
beyond : SortDirection → Bytes → Bytes → Bool
beyond ascending digest id = not (bytes_leb id digest)
beyond unspecified digest id = not (bytes_leb digest id)
beyond descending digest id = not (bytes_leb digest id)

later_than : SortDirection → ℕ → ℕ → Bool
later_than ascending time t = ltb time t
later_than unspecified time t = ltb t time
later_than descending time t = ltb t time

-- What the cursor adds to the first select, and to the second.
pub first_select : SortDirection → IndexCursor → MessageRow → Bool
unfolding beyond later_than
first_select direction c r = elim c.digest [
  | none ↦ true
  | some digest ↦
      if c.sender_time_ns == 0
      then beyond direction digest r.id
      else later_than direction c.sender_time_ns r.sender_timestamp
]

pub second_select : SortDirection → IndexCursor → MessageRow → Bool
unfolding beyond
second_select direction c r = elim c.digest [
  | none ↦ true
  | some digest ↦
      if c.sender_time_ns == 0
      then beyond direction digest r.id
      else r.sender_timestamp == c.sender_time_ns && beyond direction digest r.id
]

pub in_rows : MessageRow → List MessageRow → Bool
in_rows r [] = false
in_rows r (x ∷ xs) = (x.sender_timestamp == r.sender_timestamp && x.id == r.id) || in_rows r xs

-- UNION drops the rows that are there already.
pub union_rows : List MessageRow → List MessageRow → List MessageRow
unfolding in_rows
union_rows xs ys = xs ++ keep (λ r. not (in_rows r xs)) ys

-- The rows that buildSqlQuery selects. A cursor without an index is dereferenced, which panics: `none`.
pub select_page : QueryRequest → List MessageRow → Option (List MessageRow)
unfolding first_select second_select union_rows get_page_size get_direction paging_of order_before
    matches_query
select_page q table =
    let paging = paging_of q.paging_info in
    let direction = get_direction paging in
    let size = get_page_size paging in
    let order = order_before direction in
    elim paging.cursor [
      | none ↦ some (take size (sort_by order (keep (matches_query q) table)))
      | some none ↦ none
      | some (some c) ↦
          let sb1 =
            take size
              (sort_by order (keep (λ r. matches_query q r && first_select direction c r) table)) in
          let sb2 =
            take size (
              sort_by order (keep (λ r. matches_query q r && second_select direction c r) table)) in
          some (take size (sort_by order (union_rows sb1 sb2)))
    ]

pub to_envelope : MessageRow → Envelope
to_envelope r = record {
  timestamp_ns = r.sender_timestamp;
  content_topic = r.content_topic;
  message = r.payload;
}

-- The hash of the messages.
module _ (sha256 : Bytes → Bytes) where
  pub compute_digest : Envelope → Bytes
  compute_digest env = sha256 (env.content_topic ++ env.message)

  pub build_cursor : Envelope → IndexCursor
  unfolding compute_digest
  build_cursor env = record {
    digest = some (compute_digest env);
    sender_time_ns = env.timestamp_ns;
  }

  pub find_next_cursor : List Envelope → Option (Option IndexCursor)
  unfolding build_cursor
  find_next_cursor [] = none
  find_next_cursor (env ∷ []) = some (some (build_cursor env))
  find_next_cursor (env ∷ next ∷ envs) = find_next_cursor (next ∷ envs)

  -- Paging ends at a page that is not full.
  pub build_paging_info : List Envelope → PagingInfo → PagingInfo
  unfolding find_next_cursor get_page_size get_direction
  build_paging_info envs paging =
      let current_page_size = get_page_size paging in
      if ltb (length envs) current_page_size
      then record { limit = 0; cursor = none; direction = get_direction paging }
      else record {
        limit = min current_page_size max_page_size;
        cursor = find_next_cursor envs;
        direction = get_direction paging;
      }

  build_response : QueryRequest → List MessageRow → QueryResponse
  unfolding build_paging_info paging_of to_envelope
  build_response q rows =
      let envelopes = map to_envelope rows in
      record {
        envelopes = envelopes;
        paging_info = build_paging_info envelopes (paging_of q.paging_info);
      }

  -- `none` is a panic.
  pub query : QueryRequest → List MessageRow → Option QueryResponse
  unfolding select_page build_response
  query q table = Option.map (build_response q) (select_page q table)
