-- ===== src/ReadStore.antt =====
-- The paged queries of pkg/mls/store/readStore.go: QueryGroupMessagesV1 and QueryWelcomeMessagesV1,
-- which differ in their rows and in the messages made of them, QueryCommitLog, and the loop
-- fetchHistorical of pkg/mls/api/v1/service.go that follows their pages.
--
-- A table is the list of its rows in the order of their ids. A failed SQL query is left out.
pub mod Pages
pub mod Historical
pub mod CommitLog
mod Tests
use xmtp_node_go.Base.{
  Bool, Bytes, List, Option, Result, [], err, fail_if, false, if◌then◌else◌, keep, leb, length, ltb,
  ltb_int, map, negsuc, none, not, ok, pos, some, suc, take, true, zero, ℕ, ℤ, ◌%◌, ◌&&◌, ◌++◌, ◌-◌,
  ◌==◌, ◌>>=◌, ◌>>◌, ◌^◌, ◌||◌, ◌∷◌, nat_eq, bytes_eq,
}
use xmtp_node_go.CatchUp.{
  RowReader, group_row, welcome_row, parse_rows, parse_welcome_row, WelcomeRow,
}
use xmtp_node_go.Subscribe.Frames.{GroupMessage, WelcomeMessage}
use mathlib.Core.List.{reverse}
use mathlib.Core.Option

pub data SortDirection : Type 0 where
  unspecified : SortDirection
  ascending : SortDirection
  descending : SortDirection

pub record PagingInfo : Type 0 where
  pub direction : SortDirection
  pub limit : ℕ
  pub id_cursor : ℕ

pub record QueryRequest : Type 0 where
  pub key : Bytes
  pub paging_info : Option PagingInfo

pub record QueryResponse (M : Type 0) : Type 0 where
  pub messages : List M
  pub paging_info : PagingInfo

pub data QueryError : Type 0 where
  key_is_required : QueryError
  descending_not_supported : QueryError
  bad_signature : QueryError

abbrev pub max_page_size : ℕ
max_page_size = 100

is_ascending : SortDirection → Bool
is_ascending ascending = true
is_ascending unspecified = false
is_ascending descending = false

is_descending : SortDirection → Bool
is_descending ascending = false
is_descending unspecified = false
is_descending descending = true

sort_desc_of : Option PagingInfo → Bool
unfolding is_ascending
sort_desc_of none = true
sort_desc_of (some p) = not (is_ascending p.direction)

pub page_size_of : Option PagingInfo → ℕ
page_size_of none = max_page_size
page_size_of (some p) =
    if ltb 0 p.limit && leb p.limit max_page_size then p.limit else max_page_size

-- The conversion of a uint64 to int64, which leaves 2 ^ 63 and more negative.
unfoldable pub int64_cursor : ℕ → ℤ
int64_cursor c = if ltb c (2 ^ 63) then pos c else negsuc (2 ^ 64 - 1 - c)

pub cursor_of : Option PagingInfo → ℤ
unfolding int64_cursor
cursor_of none = pos 0
cursor_of (some p) = int64_cursor p.id_cursor

-- The id of the last row of a page, or `last` before any.
unfoldable pub last_id : {R : Type 0} → RowReader R → List R → ℕ → ℕ
last_id row [] last = last
last_id row (x ∷ xs) last = last_id row xs (row.id x)

module _ {R : Type 0} (row : RowReader R) (table : List R) where
  query_with_cursor_asc : Bytes → ℤ → ℕ → List R
  query_with_cursor_asc key cursor numrows =
      take numrows (keep (λ m. row.key m == key && ltb_int cursor (pos (row.id m))) table)

  query_with_cursor_desc : Bytes → ℤ → ℕ → List R
  query_with_cursor_desc key cursor numrows =
      take numrows (reverse (keep (λ m. row.key m == key && ltb_int (pos (row.id m)) cursor) table))

  query_first : Bytes → ℕ → Bool → List R
  query_first key numrows sort_desc =
      let rows = keep (λ m. row.key m == key) table in
      take numrows (if sort_desc then reverse rows else rows)

  -- The rows of a page.
  pub select_rows : QueryRequest → List R
  unfolding query_with_cursor_asc query_with_cursor_desc query_first cursor_of sort_desc_of
      page_size_of
  select_rows req =
      let id_cursor = cursor_of req.paging_info in
      let sort_desc = sort_desc_of req.paging_info in
      let page_size = page_size_of req.paging_info in
      if ltb_int (pos 0) id_cursor
      then (if sort_desc
          then query_with_cursor_desc req.key id_cursor page_size
          else query_with_cursor_asc req.key id_cursor page_size)
      else query_first req.key page_size sort_desc

-- Only a full page has a cursor to go on from.
next_page : {R : Type 0} → RowReader R → SortDirection → ℕ → List R → PagingInfo
unfolding last_id
next_page row direction page_size rows = record {
  direction = direction;
  limit = page_size;
  id_cursor = if leb page_size (length rows) then last_id row rows 0 else 0;
}

module _ {R M : Type 0} (row : RowReader R) (parse : R → Option M) where
  -- What the two queries share.
  pub query_messages : List R → QueryRequest → Result QueryError (QueryResponse M)
  unfolding select_rows next_page
  query_messages table req =
      let direction = if sort_desc_of req.paging_info then descending else ascending in
      let rows = select_rows row table req in
      fail_if (length req.key == 0) key_is_required
      >> ok (record {
        messages = parse_rows parse rows;
        paging_info = next_page row direction (page_size_of req.paging_info) rows;
      })

  -- fetchHistorical, on fuel: what it sends, and the error that stopped it. `none` is out of fuel.
  pub fetch_historical : ℕ → List R → Bytes → PagingInfo → Option (List M × Option QueryError)
  unfolding query_messages
  fetch_historical zero table key paging = none
  fetch_historical (suc fuel) table key paging =
      elim (query_messages table (record { key = key; paging_info = some paging })) [
        | err e ↦ some ([], some e)
        | ok resp ↦
            let rest = fetch_historical fuel table key resp.paging_info in
            if length resp.messages == 0 || resp.paging_info.id_cursor == 0
            then some (resp.messages, none)
            else Option.map (λ (sent, stop). (resp.messages ++ sent, stop)) rest
      ]

pub query_group_messages_v1 :
    List GroupMessage → QueryRequest → Result QueryError (QueryResponse GroupMessage)
query_group_messages_v1 = query_messages group_row some

pub query_welcome_messages_v1 :
    List WelcomeRow → QueryRequest → Result QueryError (QueryResponse WelcomeMessage)
query_welcome_messages_v1 = query_messages welcome_row parse_welcome_row

-- The paging a subscription filter starts from.
pub filter_paging : ℕ → PagingInfo
filter_paging id_cursor = record { direction = ascending; limit = 0; id_cursor = id_cursor }

-- A row of the commit log.
pub record CommitLogRow : Type 0 where
  pub id : ℕ
  pub group_id : Bytes
  pub serialized_entry : Bytes
  pub serialized_signature : Bytes

pub record CommitLogEntry (S : Type 0) : Type 0 where
  pub sequence_id : ℕ
  pub serialized_commit_log_entry : Bytes
  pub signature : S

abbrev pub commit_log_row : RowReader CommitLogRow
commit_log_row = record { key = λ r. r.group_id; id = λ r. r.id }

-- The decoder of a stored signature.
module _ {S : Type 0} (unmarshal : Bytes → Option S) where
  unfoldable pub to_entries : List CommitLogRow → Result QueryError (List (CommitLogEntry S))
  to_entries [] = ok []
  to_entries (r ∷ rows) = elim (unmarshal r.serialized_signature) [
    | none ↦ err bad_signature
    | some s ↦ to_entries rows >>= λ entries. ok (
        record {
          sequence_id = r.id;
          serialized_commit_log_entry = r.serialized_entry;
          signature = s;
        }
        ∷ entries)
  ]

  -- The conversion of the limit to int32 leaves 2 ^ 31 and more negative.
  commit_page_size : Option PagingInfo → ℕ
  commit_page_size none = max_page_size
  commit_page_size (some p) =
      let limit = p.limit % 2 ^ 32 in
      if limit == 0 || leb (2 ^ 31) limit || ltb max_page_size limit then max_page_size else limit

  pub query_commit_log :
      List CommitLogRow → QueryRequest → Result QueryError (QueryResponse (CommitLogEntry S))
  unfolding query_with_cursor_asc to_entries next_page commit_page_size cursor_of is_descending
  query_commit_log table req =
      let rows =
        query_with_cursor_asc commit_log_row table req.key (cursor_of req.paging_info)
          (commit_page_size req.paging_info) in
      fail_if (length req.key == 0) key_is_required
      >> fail_if (elim req.paging_info [ none ↦ false | some p ↦ is_descending p.direction ])
          descending_not_supported
      >> (to_entries rows >>= λ entries. ok (record {
        messages = entries;
        paging_info = next_page commit_log_row ascending (commit_page_size req.paging_info) rows;
      }))
