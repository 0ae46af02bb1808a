-- ===== src/MlsService/CommitLog/Published.antt =====
-- What BatchPublishCommitLog stores, as BatchQueryCommitLog reads it.
use xmtp_node_go.Base.{
  All, Bool-cases, Bytes, List, Option, [], ap, arith, false, if◌then◌else◌, inl, inr, keep-append,
  length, length-keep-le, ltb, map, ok, refl, some, sym, true, ℕ, ◌&&◌, ◌++◌, ◌+◌, ◌<◌, ◌==◌, ◌∙◌,
  ◌∷◌, ◌≡◌, ◌≤◌, nat_eq, bytes_eq,
}
use mathlib.Core.List.{append_assoc, append-nil}
use xmtp_node_go.MlsService.CommitLog.{
  PublishCommitLogRequest, batch_publish_commit_log, batch_query_commit_log, publish_each,
  query_one, query_each, validate_batch, max_batch_inserts, max_batch_queries, insert_commit_log,
}
use xmtp_node_go.ReadStore.{QueryRequest, CommitLogRow, CommitLogEntry, commit_log_row, to_entries}
use xmtp_node_go.ReadStore.Pages.{above, from_cursor, max_id}
use xmtp_node_go.ReadStore.CommitLog.{query_commit_log-short}
use xmtp_node_go.Store.{Table}

-- An entry with all its parts.
pub record Entry (S : Type 0) : Type 0 where
  pub group_id : Bytes
  pub body : Bytes
  pub signature : S

module _ {S : Type 0} where
  abbrev pub request_of : Entry S → Option (PublishCommitLogRequest S)
  request_of e = some (record {
    group_id = e.group_id;
    serialized_commit_log_entry = e.body;
    signature = some e.signature;
  })

  abbrev pub Complete : Entry S → Type 0
  Complete e = ((length e.group_id == 0) ≡ false) × ((length e.body == 0) ≡ false)

  -- The entries of a group among those that are numbered from an id on.
  abbrev pub entries_from : Bytes → ℕ → List (Entry S) → List (CommitLogEntry S)
  entries_from g n [] = []
  entries_from g n (e ∷ es) =
      let rest = entries_from g (n + 1) es in
      if e.group_id == g
      then record { sequence_id = n; serialized_commit_log_entry = e.body; signature = e.signature }
        ∷ rest
      else rest

module _ {S : Type 0} (marshal : S → Option Bytes) (unmarshal : Bytes → Option S) where
  -- What is encoded is decoded again.
  abbrev pub Codec : Type 0
  Codec = (s : S) → (b : Bytes) × (marshal s ≡ some b) × (unmarshal b ≡ some s)

  abbrev row_of : Codec → ℕ → Entry S → CommitLogRow
  row_of codec n e = record {
    id = n;
    group_id = e.group_id;
    serialized_entry = e.body;
    serialized_signature = (codec e.signature).0;
  }

  abbrev rows_from : Codec → ℕ → List (Entry S) → List CommitLogRow
  rows_from codec n [] = []
  rows_from codec n (e ∷ es) = row_of codec n e ∷ rows_from codec (n + 1) es

  length-rows_from :
      (codec : Codec) (n : ℕ) (es : List (Entry S)) → length (rows_from codec n es) ≡ length es
  length-rows_from codec n [] = refl
  length-rows_from codec n (e ∷ es) = omega (arith, length-rows_from codec (n + 1) es)

  publish_each-rows :
      (codec : Codec) (es : List (Entry S)) (t : Table CommitLogRow)
      → All Complete es
      → ((publish_each marshal (map request_of es) t).0 ≡ ok tt)
        × ((publish_each marshal (map request_of es) t).1.rows
            ≡ t.rows ++ rows_from codec t.next_id es)
  unfolding publish_each insert_commit_log
  publish_each-rows codec [] t h = (refl, sym (append-nil t.rows))
  publish_each-rows codec (e ∷ es) t h =
      let (bytes, encoded, decoded) = codec e.signature in
      let next = insert_commit_log e.group_id e.body bytes t in
      let (done, rows) = publish_each-rows codec es next h.1 in
      rw (publish_each, encoded, h.0.0, h.0.1)
        (
          done,
          rows
              ∙ append_assoc t.rows (row_of codec t.next_id e ∷ [])
                  (rows_from codec (t.next_id + 1) es),
        )

  old-above :
      (rows : List CommitLogRow) (g : Bytes) (c : ℕ)
      → All (λ r. r.id ≤ c) rows
      → above commit_log_row rows g c ≡ []
  old-above [] g c h = refl
  old-above (r ∷ rows) g c h = ground (arith, h.0, old-above rows g c h.1)

  to_entries-from :
      (codec : Codec) (g : Bytes) (c n : ℕ) (es : List (Entry S))
      → c < n
      → to_entries unmarshal (above commit_log_row (rows_from codec n es) g c)
        ≡ ok (entries_from g n es)
  unfolding to_entries
  to_entries-from codec g c n [] h = refl
  to_entries-from codec g c n (e ∷ es) h =
      let rest = to_entries-from codec g c (n + 1) es (omega (arith, h)) in
      let (bytes, encoded, decoded) = codec e.signature in
      let later : ltb c n ≡ true = ground (arith, h) in
      elim (Bool-cases (e.group_id == g)) [
        | inl same ↦ rw (same, later) (rw (to_entries, decoded, rest) refl)
        | inr other ↦ rw other rest
      ]

  validate_batch-ok :
      {A : Type 0} (most : ℕ) (xs : List A)
      → 1 ≤ length xs
      → length xs ≤ most
      → validate_batch most xs ≡ ok tt
  unfolding validate_batch
  validate_batch-ok most xs some_there few = ground (arith, some_there, few)

  length-requests : (es : List (Entry S)) → length (map request_of es) ≡ length es
  length-requests [] = refl
  length-requests (e ∷ es) = omega (arith, length-requests es)

  -- If signatures are decoded as they were encoded, up to ten complete entries are published, every
  -- row stored before has an id up to the cursor and the next id is the one after it, then the
  -- publication succeeds, and a query of a group from that cursor answers with exactly the published
  -- entries of that group, in their order, numbered by their places in the batch, and no further
  -- page.
  pub batch_publish_commit_log-round_trip :
      Codec
      → (e : Entry S) (es : List (Entry S)) (t : Table CommitLogRow) (g : Bytes) (c : ℕ)
      → All Complete (e ∷ es)
      → length (e ∷ es) ≤ 10
      → All (λ r. r.id ≤ c) t.rows
      → t.next_id ≡ c + 1
      → c ≤ max_id
      → (length g == 0) ≡ false
      → ((batch_publish_commit_log marshal false (map request_of (e ∷ es)) t).0 ≡ ok tt)
        × (batch_query_commit_log unmarshal
              (batch_publish_commit_log marshal false (map request_of (e ∷ es)) t).1.rows
              (some (record { key = g; paging_info = some (from_cursor c 0) }) ∷ [])
            ≡ ok (
                record {
                  messages = entries_from g (c + 1) (e ∷ es);
                  paging_info = from_cursor 0 100;
                }
                ∷ []))
  unfolding batch_publish_commit_log batch_query_commit_log query_each query_one max_batch_inserts
      max_batch_queries
  batch_publish_commit_log-round_trip codec e es t g c complete few old next small named =
      let valid =
        validate_batch-ok 10 (map request_of (e ∷ es)) (omega arith)
          (omega (arith, few, length-requests es)) in
      let (done, rows) = publish_each-rows codec (e ∷ es) t complete in
      let after = (publish_each marshal (map request_of (e ∷ es)) t).1.rows in
      let fresh : above commit_log_row after g c
          ≡ above commit_log_row (rows_from codec (c + 1) (e ∷ es)) g c =
        ap (λ r. above commit_log_row r g c)
          (rows ∙ ap (λ n. t.rows ++ rows_from codec n (e ∷ es)) next)
        ∙ keep-append _ t.rows (rows_from codec (c + 1) (e ∷ es))
        ∙ ap (λ r. r ++ above commit_log_row (rows_from codec (c + 1) (e ∷ es)) g c)
            (old-above t.rows g c old) in
      let short : length (above commit_log_row after g c) < 100 = omega (
        arith,
        few,
        ap length fresh,
        length-rows_from codec (c + 1) (e ∷ es),
        length-keep-le (λ m. m.group_id == g && ltb c m.id) (rows_from codec (c + 1) (e ∷ es)),
      ) in
      let request : List (Option QueryRequest) =
        some (record { key = g; paging_info = some (from_cursor c 0) }) ∷ [] in
      let asked = validate_batch-ok 20 request (omega arith) (omega arith) in
      let answer =
        query_commit_log-short unmarshal after g c (entries_from g (c + 1) (e ∷ es)) named small
          short
          (ap (to_entries unmarshal) fresh
            ∙ to_entries-from codec g c (c + 1) (e ∷ es) (omega arith)) in
      rw valid (done, rw (asked, named, answer) refl)
