-- ===== src/Identity.antt =====
-- Identity updates: PublishIdentityUpdate of pkg/mls/store/store.go with its transaction and its
-- retries, and GetInboxIds and GetInboxLogs of pkg/mls/store/readStore.go, which
-- pkg/identity/api/v1/identity_service.go serves.
--
-- An update is of any type `U`; its encoding, the validation service and the times are parameters. The
-- tables hold an inbox id as bytes, which the queries read from hex and write in hex; a row here has
-- the hex that they write, `canonical` of the text that came, and `none` is text that is not hex. A
-- transaction that fails leaves the tables as they were. The other failures of
-- the database are left out.
pub mod Written
pub mod Publish
pub mod Addresses
pub mod Logs
mod Tests
use xmtp_node_go.Base.{
  Bool, Bytes, List, Option, Result, [], err, fail_if, false, if◌then◌else◌, keep, leb, length, ltb,
  ltb_int, map, member, none, ok, ok_or, pos, some, suc, true, zero, ℕ, ◌&&◌, ◌++◌, ◌+◌, ◌==◌,
  ◌>>=◌, ◌>>◌, ◌∷◌, nat_eq, bytes_eq,
}
use xmtp_node_go.ReadStore.{int64_cursor}

pub data MemberIdentifier : Type 0 where
  ethereum_address : Bytes → MemberIdentifier
  other_member : Bytes → MemberIdentifier

pub record StateDiff : Type 0 where
  pub new_members : List MemberIdentifier
  pub removed_members : List MemberIdentifier

pub record InboxLogRow : Type 0 where
  pub sequence_id : ℕ
  pub inbox_id : Bytes
  pub server_timestamp_ns : ℕ
  pub identity_update_proto : Bytes

pub record AddressLogRow : Type 0 where
  pub address : Bytes
  pub inbox_id : Bytes
  pub association_sequence_id : ℕ
  pub revocation_sequence_id : Option ℕ

-- The tables, and the sequence of the inbox log.
pub record Tables : Type 0 where
  pub inbox_log : List InboxLogRow
  pub address_log : List AddressLogRow
  pub next_sequence_id : ℕ

pub data IdentityError : Type 0 where
  publish_unavailable : IdentityError
  update_is_required : IdentityError
  inbox_log_is_full : IdentityError
  invalid_hex : IdentityError
  bad_proto : IdentityError
  invalid_update : IdentityError

unfoldable pub entries_of : Bytes → List InboxLogRow → List InboxLogRow
entries_of inbox_id = keep (λ r. r.inbox_id == inbox_id)

-- InsertAddressLog for the new members.
unfoldable pub insert_addresses :
    Bytes → ℕ → List MemberIdentifier → List AddressLogRow → List AddressLogRow
insert_addresses inbox_id sequence_id [] log = log
insert_addresses inbox_id sequence_id (ethereum_address a ∷ members) log =
    insert_addresses inbox_id sequence_id members (
      log
      ++ record {
        address = a;
        inbox_id = inbox_id;
        association_sequence_id = sequence_id;
        revocation_sequence_id = none;
      }
        ∷ [])
insert_addresses inbox_id sequence_id (other_member m ∷ members) log =
    insert_addresses inbox_id sequence_id members log

-- The MAX of a subselect; 0 stands for no row.
unfoldable pub last_association : Bytes → Bytes → List AddressLogRow → ℕ
last_association address inbox_id [] = 0
last_association address inbox_id (r ∷ log) =
    let rest = last_association address inbox_id log in
    if r.address == address && r.inbox_id == inbox_id && ltb rest r.association_sequence_id
    then r.association_sequence_id
    else rest

-- RevokeAddressFromLog.
unfoldable pub revoke_rows : Bytes → Bytes → ℕ → ℕ → List AddressLogRow → List AddressLogRow
revoke_rows address inbox_id last sequence_id [] = []
revoke_rows address inbox_id last sequence_id (r ∷ log) =
    let rest = revoke_rows address inbox_id last sequence_id log in
    if r.address == address && r.inbox_id == inbox_id && r.association_sequence_id == last
    then record r { revocation_sequence_id = some sequence_id } ∷ rest
    else r ∷ rest

unfoldable pub revoke_addresses :
    Bytes → ℕ → List MemberIdentifier → List AddressLogRow → List AddressLogRow
revoke_addresses inbox_id sequence_id [] log = log
revoke_addresses inbox_id sequence_id (ethereum_address a ∷ members) log =
    revoke_addresses inbox_id sequence_id members
      (revoke_rows a inbox_id (last_association a inbox_id log) sequence_id log)
revoke_addresses inbox_id sequence_id (other_member m ∷ members) log =
    revoke_addresses inbox_id sequence_id members log

unfoldable pub unmarshal_all :
    {U : Type 0} → (Bytes → Option U) → List InboxLogRow → Result IdentityError (List U)
unmarshal_all unmarshal [] = ok []
unmarshal_all unmarshal (r ∷ rows) = ok_or bad_proto (unmarshal r.identity_update_proto) >>= λ u.
    (unmarshal_all unmarshal rows >>= λ us. ok (u ∷ us))

-- What the transaction writes.
unfoldable pub write_update : ℕ → Bytes → Bytes → StateDiff → Tables → Tables
write_update now inbox_id proto diff db = record {
  inbox_log =
      db.inbox_log
      ++ record {
        sequence_id = db.next_sequence_id;
        inbox_id = inbox_id;
        server_timestamp_ns = now;
        identity_update_proto = proto;
      }
        ∷ [];
  address_log =
      revoke_addresses inbox_id db.next_sequence_id diff.removed_members
        (insert_addresses inbox_id db.next_sequence_id diff.new_members db.address_log);
  next_sequence_id = db.next_sequence_id + 1;
}

-- RunInRepeatableReadTx, with its retries, where no other transaction comes between.
unfoldable pub run_in_repeatable_read_tx :
    ℕ
    → Result IdentityError (Unit {0})
    → (Tables → Result IdentityError Tables)
    → Tables
    → Result IdentityError (Unit {0}) × Tables
run_in_repeatable_read_tx zero last fn db = (last, db)
run_in_repeatable_read_tx (suc n) last fn db = elim (fn db) [
  | ok db' ↦ (ok tt, db')
  | err e ↦ run_in_repeatable_read_tx n (err e) fn db
]

-- decode(text, 'hex') of the database, and encode(bytes, 'hex') after it.
module _ {U : Type 0} (canonical : Bytes → Option Bytes) (marshal : U → Option Bytes)
    (unmarshal : Bytes → Option U) (get_association_state : List U → U → Option StateDiff)
    (now : ℕ) where
  -- The body of the transaction, on the inbox of some text.
  unfoldable pub publish_in_tx : Bytes → U → Tables → Result IdentityError Tables
  publish_in_tx text update db = ok_or invalid_hex (canonical text) >>= λ inbox_id.
      (fail_if (leb 256 (length (entries_of inbox_id db.inbox_log))) inbox_log_is_full
        >> (unmarshal_all unmarshal (entries_of inbox_id db.inbox_log) >>= λ updates.
            (ok_or invalid_update (get_association_state updates update) >>= λ diff.
            (ok_or bad_proto (marshal update) >>= λ proto.
            ok (write_update now inbox_id proto diff db)))))

  unfoldable pub publish_identity_update :
      Bool → Bytes → Option U → Tables → Result IdentityError (Unit {0}) × Tables
  publish_identity_update publish_disabled inbox_id none db =
      (if publish_disabled then err publish_unavailable else err update_is_required, db)
  publish_identity_update publish_disabled inbox_id (some update) db =
      if publish_disabled
      then (err publish_unavailable, db)
      else run_in_repeatable_read_tx 3 (ok tt) (publish_in_tx inbox_id update) db

unfoldable pub unrevoked : AddressLogRow → Bool
unrevoked r = elim r.revocation_sequence_id [ none ↦ true | some s ↦ false ]

unfoldable pub max_of : Option ℕ → ℕ → ℕ
max_of none n = n
max_of (some m) n = if ltb m n then n else m

-- The MAX over the associations of an address that stand.
unfoldable pub max_association : Bytes → List AddressLogRow → Option ℕ
max_association address [] = none
max_association address (r ∷ log) =
    let rest = max_association address log in
    if r.address == address && unrevoked r
    then some (max_of rest r.association_sequence_id)
    else rest

unfoldable pub is_max : AddressLogRow → Option ℕ → Bool
is_max r none = false
is_max r (some s) = r.association_sequence_id == s

-- GetAddressLogs: of each address, the rows with that number, revoked or not.
unfoldable pub get_address_logs :
    List Bytes → List AddressLogRow → List AddressLogRow → List AddressLogRow
get_address_logs addresses whole [] = []
get_address_logs addresses whole (r ∷ log) =
    let rest = get_address_logs addresses whole log in
    if member r.address addresses && is_max r (max_association r.address whole)
    then r ∷ rest
    else rest

-- The last entry of an identifier.
unfoldable pub find_inbox : Bytes → List AddressLogRow → Option Bytes → Option Bytes
find_inbox identifier [] found = found
find_inbox identifier (r ∷ rows) found =
    find_inbox identifier rows (if r.address == identifier then some r.inbox_id else found)

unfoldable pub get_inbox_ids : List Bytes → Tables → List (Bytes × Option Bytes)
get_inbox_ids identifiers db =
    map
      (λ identifier. (
        identifier,
        find_inbox identifier (get_address_logs identifiers db.address_log db.address_log) none,
      ))
      identifiers

pub record InboxLogFilter : Type 0 where
  pub inbox_id : Bytes
  pub sequence_id : ℕ

-- The filters with their inbox ids read from hex.
unfoldable pub canonical_filters :
    (Bytes → Option Bytes) → List InboxLogFilter → Result IdentityError (List InboxLogFilter)
canonical_filters canonical [] = ok []
canonical_filters canonical (f ∷ filters) = ok_or invalid_hex (canonical f.inbox_id) >>= λ inbox_id.
    (canonical_filters canonical filters >>= λ rest. ok (record f { inbox_id = inbox_id } ∷ rest))

-- GetInboxLogFiltered: a row once for each filter that it passes.
unfoldable pub join_row : InboxLogRow → List InboxLogFilter → List InboxLogRow
join_row r [] = []
join_row r (f ∷ filters) =
    let rest = join_row r filters in
    if f.inbox_id == r.inbox_id && ltb_int (int64_cursor f.sequence_id) (pos r.sequence_id)
    then r ∷ rest
    else rest

unfoldable pub get_inbox_log_filtered : List InboxLogFilter → List InboxLogRow → List InboxLogRow
get_inbox_log_filtered filters [] = []
get_inbox_log_filtered filters (r ∷ log) = join_row r filters ++ get_inbox_log_filtered filters log

-- An update of an answer: its sequence number, its server timestamp and itself.
module _ {U : Type 0} (canonical : Bytes → Option Bytes) (unmarshal : Bytes → Option U) where
  unfoldable pub to_updates : List InboxLogRow → Result IdentityError (List (ℕ × ℕ × U))
  to_updates [] = ok []
  to_updates (r ∷ rows) = elim (unmarshal r.identity_update_proto) [
    | none ↦ err bad_proto
    | some u ↦ to_updates rows >>= λ us. ok ((r.sequence_id, r.server_timestamp_ns, u) ∷ us)
  ]

  -- The responses, from the rows of all filters, which are looked up by the text of the request.
  unfoldable pub to_responses :
      List InboxLogFilter
      → List InboxLogRow
      → Result IdentityError (List (Bytes × List (ℕ × ℕ × U)))
  to_responses [] rows = ok []
  to_responses (f ∷ reqs) rows = to_updates (entries_of f.inbox_id rows) >>= λ us.
      (to_responses reqs rows >>= λ rest. ok ((f.inbox_id, us) ∷ rest))

  unfoldable pub get_inbox_logs :
      List InboxLogFilter → Tables → Result IdentityError (List (Bytes × List (ℕ × ℕ × U)))
  get_inbox_logs reqs db = canonical_filters canonical reqs >>= λ filters.
      to_responses reqs (get_inbox_log_filtered filters db.inbox_log)
