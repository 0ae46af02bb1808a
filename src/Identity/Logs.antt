-- ===== src/Identity/Logs.antt =====
-- GetInboxLogs: each request of a batch against its answer alone.
use xmtp_node_go.Base.{
  Bytes, List, Option, Result, [], keep, ltb, ok, some, ℕ, ◌&&◌, ◌<◌, ◌==◌, ◌>>=◌, ◌^◌, ◌∷◌, ◌≡◌,
  nat_eq, bytes_eq,
}
use xmtp_node_go.Identity.{InboxLogRow, InboxLogFilter, IdentityError, to_updates}

abbrev pub inboxes_of : List InboxLogFilter → List Bytes
inboxes_of [] = []
inboxes_of (f ∷ fs) = f.inbox_id ∷ inboxes_of fs

-- The entries of one inbox above a sequence number.
abbrev pub entries_above : InboxLogFilter → List InboxLogRow → List InboxLogRow
entries_above f = keep (λ r. r.inbox_id == f.inbox_id && ltb f.sequence_id r.sequence_id)

-- The request writes its inbox id as the database does, and its sequence number is an int64.
abbrev pub Plain : (Bytes → Option Bytes) → InboxLogFilter → Type 0
Plain canonical f = (canonical f.inbox_id ≡ some f.inbox_id) × (f.sequence_id < 2 ^ 63)

module _ {U : Type 0} (canonical : Bytes → Option Bytes) (unmarshal : Bytes → Option U) where
  -- Each request answered alone, from the log itself.
  abbrev pub answers_alone :
      List InboxLogFilter
      → List InboxLogRow
      → Result IdentityError (List (Bytes × List (ℕ × ℕ × U)))
  answers_alone [] log = ok []
  answers_alone (f ∷ reqs) log = to_updates canonical unmarshal (entries_above f log) >>= λ us.
      (answers_alone reqs log >>= λ rest. ok ((f.inbox_id, us) ∷ rest))
