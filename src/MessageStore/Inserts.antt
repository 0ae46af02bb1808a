-- ===== src/MessageStore/Inserts.antt =====
-- InsertMessage of pkg/store/store.go, and the table it keeps.
use xmtp_node_go.Base.{
  All-append, Bool, Bool-cases, Bytes, List, [], arith, codes, false, if◌then◌else◌, inl, inr, not,
  refl, true, ℕ, ◌++◌, ◌∷◌, ◌≡◌,
}
use xmtp_node_go.Topic.{has_prefix}
use xmtp_node_go.Subscriptions.{Envelope}
use xmtp_node_go.MessageStore.{MessageRow, in_rows, compute_digest, to_envelope}
use xmtp_node_go.MessageStore.Paging.{Keyed, Digested}

is_xmtp : Bytes → Bool
is_xmtp topic = has_prefix (codes "/xmtp/") topic

module _ (sha256 : Bytes → Bytes) where
  -- InsertMessage: the answer says whether a row was stored. A row with the key of another violates
  -- the primary key, which is no error.
  pub insert_message : ℕ → Envelope → List MessageRow → Bool × List MessageRow
  unfolding is_xmtp
  insert_message now env table =
      let r : MessageRow = record {
        id = compute_digest sha256 env;
        receiver_timestamp = now;
        sender_timestamp = env.timestamp_ns;
        content_topic = env.content_topic;
        payload = env.message;
        should_expire = not (is_xmtp env.content_topic);
      } in
      if in_rows r table then (false, table) else (true, table ++ r ∷ [])

  Keyed-snoc :
      (rows : List MessageRow) (r : MessageRow)
      → Keyed rows
      → in_rows r rows ≡ false
      → Keyed (rows ++ r ∷ [])
  unfolding in_rows
  Keyed-snoc [] r h new = (tt, tt)
  Keyed-snoc (x ∷ rows) r h new = (
    All-append _ rows (r ∷ []) h.0 (ground (arith, new), tt),
    Keyed-snoc rows r h.1 (ground (arith, new)),
  )

  abbrev pub IsMessageTable : List MessageRow → Type 0
  IsMessageTable table = Keyed table × Digested sha256 table

  -- The row of a message.
  abbrev pub row_of : ℕ → Envelope → MessageRow
  row_of now env = record {
    id = compute_digest sha256 env;
    receiver_timestamp = now;
    sender_timestamp = env.timestamp_ns;
    content_topic = env.content_topic;
    payload = env.message;
    should_expire = not (has_prefix (codes "/xmtp/") env.content_topic);
  }

  refl_digest :
      (now : ℕ) (env : Envelope)
      → (row_of now env).id ≡ compute_digest sha256 (to_envelope (row_of now env))
  unfolding to_envelope compute_digest
  refl_digest now env = refl

  -- What InsertMessage promises, of its answer and the table after it.
  abbrev pub Inserted : ℕ → Envelope → List MessageRow → Bool × List MessageRow → Type 0
  Inserted now env table (true, after) =
      (in_rows (row_of now env) table ≡ false) × (after ≡ table ++ row_of now env ∷ [])
  Inserted now env table (false, after) = (in_rows (row_of now env) table ≡ true) × (after ≡ table)

  -- On a table whose keys are distinct and whose ids are the digests of their rows, InsertMessage
  -- keeps both. It answers that it stored the message exactly if no row had its timestamp and
  -- digest, and then the message is the last row of the table, marked to expire unless its topic is
  -- an XMTP one; otherwise the table is as it was.
  pub insert_message-Inserted :
      (now : ℕ) (env : Envelope) (table : List MessageRow)
      → IsMessageTable table
      → IsMessageTable (insert_message now env table).1
        × Inserted now env table (insert_message now env table)
  unfolding insert_message is_xmtp
  insert_message-Inserted now env table h = elim (Bool-cases (in_rows (row_of now env) table)) [
    | inl there ↦ rw there (h, (there, refl))
    | inr new ↦ rw new (
      (
        Keyed-snoc table (row_of now env) h.0 new,
        All-append _ table (row_of now env ∷ []) h.1 (refl_digest now env, tt),
      ),
      (new, refl),
    )
  ]
