-- ===== src/Prune/Tests.antt =====
-- A run over the messages of a group, and key packages of one installation.
use xmtp_node_go.Base.{
  Bool, Bytes, List, Option, [], arith, false, ltb, none, ok, refl, some, true, ℕ, ◌*◌, ◌+◌, ◌-◌,
  ◌∷◌, ◌≡◌,
}
use xmtp_node_go.Prune.{
  PruneConfig, run_pruner, group_messages_pruner, key_packages_pruner, delete_old,
}
use xmtp_node_go.Prune.Messages.{Pruned, run_pruner-Pruned}

-- A message is its age in days and whether it is a commit.
abbrev is_old : ℕ × Option Bool → Bool
is_old (age, commit) = ltb 30 age

abbrev commit_of : ℕ × Option Bool → Option Bool
commit_of (age, commit) = commit

abbrev five_messages : List (ℕ × Option Bool)
five_messages =
    (40, some false) ∷ (40, some true) ∷ (50, none) ∷ (45, some false) ∷ (3, some false) ∷ []

abbrev small_config : PruneConfig
small_config = record { batch_size = 1; count_deletable = true; dry_run = false; max_cycles = 5 }

run_pruner-Pruned_example :
    Pruned is_old commit_of
      ((5 - 1 + 1) * 1)
      five_messages
      (run_pruner (group_messages_pruner is_old 1 commit_of) 1 small_config five_messages)
run_pruner-Pruned_example =
    run_pruner-Pruned is_old commit_of small_config five_messages (omega arith) refl

messages_run :
    run_pruner (group_messages_pruner is_old 1 commit_of) 1 small_config five_messages
    ≡ (ok 2, (40, some true) ∷ (50, none) ∷ (3, some false) ∷ [])
unfolding run_pruner group_messages_pruner delete_old xmtp_node_go.Prune.prune_loop
    xmtp_node_go.Prune.is_deletable xmtp_node_go.Batches.delete_first
messages_run = refl

-- The fresh key package of an installation goes with its old one.
packages_run :
    (key_packages_pruner (λ (r : Bytes × ℕ). ltb 90 r.1) 100 (λ r. r.0)).prune_cycle
      ((7 ∷ [], 100) ∷ (7 ∷ [], 1) ∷ (8 ∷ [], 2) ∷ [])
    ≡ (2, (8 ∷ [], 2) ∷ [])
unfolding key_packages_pruner
packages_run = refl
