-- ===== src/MlsService/CommitLog.antt =====
-- BatchPublishCommitLog and BatchQueryCommitLog of pkg/mls/api/v1/service.go, with InsertCommitLog of
-- pkg/mls/store/store.go.
--
-- Signatures are encoded and decoded by parameters; `none` is an error of theirs. A nil pointer of a
-- request is `none`, and a nil slice is an empty one.
pub mod Published
use xmtp_node_go.Base.{
  Bool, Bytes, List, Option, Result, [], err, fail_if, if◌then◌else◌, length, ltb, none, ok, some,
  ℕ, ◌++◌, ◌+◌, ◌==◌, ◌>>=◌, ◌>>◌, ◌||◌, ◌∷◌, nat_eq, bytes_eq,
}
use xmtp_node_go.MlsService.{ServiceError, unavailable, invalid_argument, internal}
use xmtp_node_go.ReadStore.{
  CommitLogRow, CommitLogEntry, QueryRequest, QueryResponse, query_commit_log,
}
use xmtp_node_go.Store.{Table}

pub record PublishCommitLogRequest (S : Type 0) : Type 0 where
  pub group_id : Bytes
  pub serialized_commit_log_entry : Bytes
  pub signature : Option S

pub max_batch_inserts : ℕ
max_batch_inserts = 10

pub max_batch_queries : ℕ
max_batch_queries = 20

-- InsertCommitLog.
pub insert_commit_log : Bytes → Bytes → Bytes → Table CommitLogRow → Table CommitLogRow
insert_commit_log group_id entry signature t = record {
  rows =
      t.rows
      ++ record {
        id = t.next_id;
        group_id = group_id;
        serialized_entry = entry;
        serialized_signature = signature;
      }
        ∷ [];
  next_id = t.next_id + 1;
}

-- The checks of both batches: their number of requests.
pub validate_batch : {A : Type 0} → ℕ → List A → Result ServiceError (Unit {0})
validate_batch most requests =
    fail_if (length requests == 0) invalid_argument
    >> fail_if (ltb most (length requests)) invalid_argument

module _ {S : Type 0} (marshal : S → Option Bytes) where
  -- The loop of BatchPublishCommitLog: what it inserts before an invalid entry stays.
  pub publish_each :
      List (Option (PublishCommitLogRequest S))
      → Table CommitLogRow
      → Result ServiceError (Unit {0}) × Table CommitLogRow
  publish_each [] t = (ok tt, t)
  publish_each (none ∷ entries) t = (err invalid_argument, t)
  publish_each (some e ∷ entries) t = elim e.signature [
    | none ↦ (err invalid_argument, t)
    | some s ↦ (elim (marshal s) [
      | none ↦ (err invalid_argument, t)
      | some signature ↦
          let rest =
            publish_each entries
              (insert_commit_log e.group_id e.serialized_commit_log_entry signature t) in
          if length e.group_id == 0 || length e.serialized_commit_log_entry == 0
          then (err invalid_argument, t)
          else rest
    ])
  ]

  pub batch_publish_commit_log :
      Bool
      → List (Option (PublishCommitLogRequest S))
      → Table CommitLogRow
      → Result ServiceError (Unit {0}) × Table CommitLogRow
  batch_publish_commit_log publish_disabled requests t =
      if publish_disabled
      then (err unavailable, t)
      else (elim (validate_batch max_batch_inserts requests) [
        | err e ↦ (err e, t)
        | ok _ ↦ publish_each requests t
      ])

module _ {S : Type 0} (unmarshal : Bytes → Option S) where
  -- One request of BatchQueryCommitLog.
  pub query_one :
      List CommitLogRow
      → Option QueryRequest
      → Result ServiceError (QueryResponse (CommitLogEntry S))
  query_one table none = err invalid_argument
  query_one table (some request) =
      fail_if (length request.key == 0) invalid_argument
      >> (elim (query_commit_log unmarshal table request) [
        | err e ↦ err internal
        | ok response ↦ ok response
      ])

  pub query_each :
      List CommitLogRow
      → List (Option QueryRequest)
      → Result ServiceError (List (QueryResponse (CommitLogEntry S)))
  query_each table [] = ok []
  query_each table (request ∷ requests) = query_one table request >>= λ response.
      query_each table requests >>= λ responses. ok (response ∷ responses)

  pub batch_query_commit_log :
      List CommitLogRow
      → List (Option QueryRequest)
      → Result ServiceError (List (QueryResponse (CommitLogEntry S)))
  batch_query_commit_log table requests =
      validate_batch max_batch_queries requests >> query_each table requests
