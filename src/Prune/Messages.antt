-- ===== src/Prune/Messages.antt =====
-- A run of the group messages pruner.
use xmtp_node_go.Base.{
  Bool, Bool-cases, List, Option, Result, ap, arith, empty, false, inl, inr, keep, min, not, ok,
  refl, ℕ, ◌*◌, ◌+◌, ◌-◌, ◌==◌, ◌≡◌, ◌≤◌, nat_eq, bytes_eq,
}
use xmtp_node_go.Batches.{count_of_rows, keep-delete_first, count-delete_first}
use xmtp_node_go.Prune.{
  PruneConfig, PruneError, run_pruner, group_messages_pruner, is_deletable, prune_loop,
}
use xmtp_node_go.Prune.Cycles.{prune_loop-at_once}

module _ {R : Type 0} (old : R → Bool) (is_commit : R → Option Bool) where
  -- How a table is pruned, with room for so many rows: the answer, what stays, and what is left.
  abbrev pub Pruned : ℕ → List R → Result PruneError ℕ × List R → Type 0
  Pruned room rows (answer, after) =
      (answer ≡ ok (min room (count_of_rows (is_deletable old is_commit) rows)))
      × (keep (λ r. not (is_deletable old is_commit r)) after
          ≡ keep (λ r. not (is_deletable old is_commit r)) rows)
      × (count_of_rows (is_deletable old is_commit) after
          ≡ count_of_rows (is_deletable old is_commit) rows - room)

  cycles-Pruned :
      (config : PruneConfig) (rows : List R)
      → 1 ≤ config.batch_size
      → Pruned ((config.max_cycles - 1 + 1) * config.batch_size) rows (
          let (total, after) =
            prune_loop
              (group_messages_pruner old config.batch_size is_commit)
              config.batch_size
              (config.max_cycles - 1)
              rows in
          (ok total, after))
  unfolding group_messages_pruner
  cycles-Pruned config rows some_size =
      let p = is_deletable old is_commit in
      let room = (config.max_cycles - 1 + 1) * config.batch_size in
      rw
        (prune_loop-at_once p config.batch_size
          (group_messages_pruner old config.batch_size is_commit) (λ rows. refl) some_size
          (config.max_cycles - 1) rows)
        (refl, keep-delete_first p room rows, count-delete_first p room rows)

  none-Pruned :
      (room : ℕ) (rows : List R)
      → count_of_rows (is_deletable old is_commit) rows ≡ 0
      → Pruned room rows (ok 0, rows)
  none-Pruned room rows none_there =
      (ap ok (omega (arith, none_there)), refl, omega (arith, none_there))

  -- A run that is not dry, with a batch of at least one row, deletes old messages that are known not
  -- to be commits, and no other row: as many as its cycles have room for (a run without a cycle has
  -- one), or all of them if they are fewer. It answers how many it deleted, whether or not it counts
  -- them first.
  pub run_pruner-Pruned :
      (config : PruneConfig) (rows : List R)
      → 1 ≤ config.batch_size
      → config.dry_run ≡ false
      → Pruned ((config.max_cycles - 1 + 1) * config.batch_size) rows (
          run_pruner
            (group_messages_pruner old config.batch_size is_commit)
            config.batch_size
            config
            rows)
  unfolding run_pruner group_messages_pruner
  run_pruner-Pruned config rows some_size wet = elim (Bool-cases config.count_deletable) [
    | inl counted ↦ elim (Bool-cases (count_of_rows (is_deletable old is_commit) rows == 0)) [
      | inl empty ↦ rw (counted, empty) (none-Pruned _ rows (ground (arith, empty)))
      | inr more ↦ rw (counted, more, wet) (cycles-Pruned config rows some_size)
    ]
    | inr uncounted ↦ rw (uncounted, wet) (cycles-Pruned config rows some_size)
  ]
