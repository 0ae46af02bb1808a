-- ===== src/Prune.antt =====
-- The pruning of old rows: pkg/prune with its four pruners.
--
-- A table lists its rows in the order of their ids. Ages are tests of a row, since the time of the
-- database does not move in a run. No row is locked by another transaction, and a failed SQL query is
-- left out, less the two counts that always fail. The constructors panic at a batch size below 100.
pub mod Cycles
pub mod Messages
mod Tests
use xmtp_node_go.Base.{
  Bool, Bytes, List, Option, Result, err, false, if◌then◌else◌, keep, length, ltb, map, member,
  none, not, ok, some, suc, take, zero, ℕ, ◌&&◌, ◌+◌, ◌-◌, ◌==◌, ◌>>=◌, ◌||◌, nat_eq, bytes_eq,
}
use xmtp_node_go.Batches.{delete_first, count_of_rows}

pub data PruneError : Type 0 where
  operator_does_not_exist : PruneError

-- The interface of the four pruners, over a table.
pub record Pruner (T : Type 0) : Type 0 where
  pub count : T → Result PruneError ℕ
  pub prune_cycle : T → ℕ × T

pub record PruneConfig : Type 0 where
  pub batch_size : ℕ
  pub count_deletable : Bool
  pub dry_run : Bool
  pub max_cycles : ℕ

-- DELETE of the rows of one select by their own ids, ORDER BY id LIMIT batch_size: the rows deleted
-- are counted.
pub delete_old : {R : Type 0} → (R → Bool) → ℕ → List R → ℕ × List R
delete_old old batch_size rows =
    let rest = delete_first old batch_size rows in (length rows - length rest, rest)

-- A message that is a commit, or not known not to be one, is kept.
pub is_deletable : {R : Type 0} → (R → Bool) → (R → Option Bool) → R → Bool
is_deletable old is_commit r =
    (elim (is_commit r) [ none ↦ false | some commit ↦ not commit ]) && old r

module _ {R : Type 0} (old : R → Bool) (batch_size : ℕ) where
  pub welcome_pruner : Pruner (List R)
  unfolding delete_old
  welcome_pruner = record {
    count = λ rows. ok (count_of_rows old rows);
    prune_cycle = delete_old old batch_size;
  }

  pub group_messages_pruner : (R → Option Bool) → Pruner (List R)
  unfolding delete_old is_deletable
  group_messages_pruner is_commit = record {
    count = λ rows. ok (count_of_rows (is_deletable old is_commit) rows);
    prune_cycle = delete_old (is_deletable old is_commit) batch_size;
  }

  -- The count compares the creation, a number, with a timestamp, which the database refuses.
  pub installations_pruner : Pruner (List R)
  unfolding delete_old
  installations_pruner = record {
    count = λ rows. err operator_does_not_exist;
    prune_cycle = delete_old old batch_size;
  }

  -- The rows to delete are found by their installations, so that every key package of an installation
  -- goes with an old one of it. The rows are in the order of their installations.
  pub key_packages_pruner : (R → Bytes) → Pruner (List R)
  key_packages_pruner installation_id = record {
    count = λ rows. err operator_does_not_exist;
    prune_cycle = λ rows.
        let to_delete = map installation_id (take batch_size (keep old rows)) in
        let rest = keep (λ r. not (member (installation_id r) to_delete)) rows in
        (length rows - length rest, rest);
  }

-- The loop of a run: `left` cycles may follow the first.
module _ {T : Type 0} (pruner : Pruner T) (batch_size : ℕ) where
  pub prune_loop : ℕ → T → ℕ × T
  prune_loop zero table = pruner.prune_cycle table
  prune_loop (suc left) table =
      let (deleted, table1) = pruner.prune_cycle table in
      let (more, table2) = prune_loop left table1 in
      if ltb deleted batch_size then (deleted, table1) else (deleted + more, table2)

  -- One pruner of a run: how many rows it deleted.
  pub run_pruner : PruneConfig → T → Result PruneError ℕ × T
  run_pruner config table =
      let count = if config.count_deletable then pruner.count table else ok 1 in
      let (total, after) = prune_loop (config.max_cycles - 1) table in
      elim count [
        | err e ↦ (err e, table)
        | ok n ↦ if n == 0 || config.dry_run then (ok 0, table) else (ok total, after)
      ]

-- The four tables, the tests of their rows, and Run: the pruners run beside each other, each on its
-- own table, and the run fails if one of them does.
module _ {W G I K : Type 0} (old_welcome : W → Bool) (old_message : G → Bool)
    (is_commit : G → Option Bool) (old_installation : I → Bool) (old_package : K → Bool)
    (installation_id : K → Bytes) where
  pub run :
      PruneConfig
      → List W × List G × List I × List K
      → Result PruneError (Unit {0}) × (List W × List G × List I × List K)
  run config (ws, gs, is, ks) =
      let size = config.batch_size in
      let (rw, ws1) = run_pruner (welcome_pruner old_welcome size) size config ws in
      let (rg, gs1) =
        run_pruner (group_messages_pruner old_message size is_commit) size config gs in
      let (ri, is1) = run_pruner (installations_pruner old_installation size) size config is in
      let (rk, ks1) =
        run_pruner (key_packages_pruner old_package size installation_id) size config ks in
      (rw >>= λ w. rg >>= λ g. ri >>= λ i. rk >>= λ k. ok tt, (ws1, gs1, is1, ks1))
