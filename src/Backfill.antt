-- ===== src/Backfill.antt =====
-- The backfill of is_commit: pkg/mls/store/backfiller_group_messages.go, with RunInTx of
-- pkg/mls/store/transactions.go.
--
-- The validation service and the size of a message on the wire are parameters. No row is locked by
-- another backfiller, and a failed SQL query is left out. A sleep between cycles changes no state.
pub mod Classify
pub mod Cycles
mod Tests
use xmtp_node_go.Base.{
  Bool, Bytes, List, Option, Result, [], err, false, if◌then◌else◌, keep, length, ltb, map, none,
  ok, some, suc, take, true, zero, ℕ, ◌*◌, ◌++◌, ◌+◌, ◌==◌, ◌>>=◌, ◌∷◌, nat_eq, bytes_eq,
}
use mathlib.Core.Option
use xmtp_node_go.MlsService.{GroupMessageValidation}

pub record BackfillGroupMessage : Type 0 where
  pub id : ℕ
  pub message : Bytes
  pub is_commit : Bool

pub data BackfillError : Type 0 where
  message_too_large : BackfillError
  validation_failed : BackfillError

abbrev pub max_payload_size : ℕ
max_payload_size = 4 * 1024 * 1024

-- The results are written into the messages at their places.
pub set_results :
    List BackfillGroupMessage → List GroupMessageValidation → List BackfillGroupMessage
set_results (m ∷ ms) (r ∷ rs) = record m { is_commit = r.is_commit } ∷ set_results ms rs
set_results ms _ = ms

module _ (size : Bytes → ℕ)
    (validate_group_messages : List Bytes → Option (List GroupMessageValidation)) where
  pub classify_message_batch :
      List BackfillGroupMessage → Result BackfillError (List BackfillGroupMessage)
  unfolding set_results
  classify_message_batch messages = elim (validate_group_messages (map (λ m. m.message) messages)) [
    | none ↦ err validation_failed
    | some results ↦
        if length results == length messages
        then ok (set_results messages results)
        else err validation_failed
  ]

  -- The loop over the messages, with the open batch and its size.
  pub classify_loop :
      List BackfillGroupMessage
      → List BackfillGroupMessage
      → ℕ
      → Result BackfillError (List BackfillGroupMessage)
  unfolding classify_message_batch
  classify_loop [] current_batch current_batch_size =
      if ltb 0 (length current_batch) then classify_message_batch current_batch else ok []
  classify_loop (m ∷ ms) current_batch current_batch_size =
      let message_size = size m.message in
      let on_its_own = classify_loop ms (m ∷ []) message_size in
      let in_batch =
        classify_loop ms (current_batch ++ m ∷ []) (current_batch_size + message_size) in
      let next_batch = classify_message_batch current_batch >>= λ validated.
      on_its_own >>= λ rest. ok (validated ++ rest) in
      if ltb max_payload_size message_size
      then err message_too_large
      else if ltb max_payload_size (current_batch_size + message_size)
      then next_batch
      else in_batch

  pub classify_messages :
      List BackfillGroupMessage → Result BackfillError (List BackfillGroupMessage)
  unfolding classify_loop
  classify_messages messages = classify_loop messages [] 0

-- RunInTx: what fails leaves the tables as they were.
pub run_in_tx : {T E : Type 0} → (T → Result E T) → T → Result E (Unit {0}) × T
run_in_tx fn tables = elim (fn tables) [ ok after ↦ (ok tt, after) | err e ↦ (err e, tables) ]

-- A row of group_messages; `none` is NULL.
pub record BackfillRow : Type 0 where
  pub id : ℕ
  pub payload : Bytes
  pub is_commit : Option Bool

pub is_unset : BackfillRow → Bool
is_unset r = elim r.is_commit [ none ↦ true | some _ ↦ false ]

-- SelectEnvelopesForIsCommitBackfill, on a table in the order of its ids.
pub select_envelopes : List BackfillRow → List BackfillRow
unfolding is_unset
select_envelopes table = take 100 (keep is_unset table)

pub update_is_commit_status : ℕ → Bool → List BackfillRow → List BackfillRow
update_is_commit_status id is_commit =
    map (λ r. if r.id == id then record r { is_commit = some is_commit } else r)

pub update_all : List BackfillGroupMessage → List BackfillRow → List BackfillRow
unfolding update_is_commit_status
update_all [] table = table
update_all (m ∷ ms) table = update_all ms (update_is_commit_status m.id m.is_commit table)

module _ (size : Bytes → ℕ)
    (validate_group_messages : List Bytes → Option (List GroupMessageValidation)) where
  -- What a cycle does with the messages that it selected.
  pub classify_rows :
      List BackfillRow → List BackfillGroupMessage → Result BackfillError (List BackfillRow)
  unfolding update_all classify_messages
  classify_rows table messages =
      let updated = classify_messages size validate_group_messages messages >>= λ classified.
      ok (update_all classified table) in
      if length messages == 0 then ok table else updated

  -- One cycle of Run.
  pub is_commit_cycle : List BackfillRow → Result BackfillError (Unit {0}) × List BackfillRow
  unfolding select_envelopes classify_rows run_in_tx
  is_commit_cycle = run_in_tx λ table. classify_rows table (
      map (λ (r : BackfillRow). record { id = r.id; message = r.payload; is_commit = false })
        (select_envelopes table))

  pub is_commit_cycles : ℕ → List BackfillRow → List BackfillRow
  unfolding is_commit_cycle
  is_commit_cycles zero table = table
  is_commit_cycles (suc n) table = is_commit_cycles n (is_commit_cycle table).1
