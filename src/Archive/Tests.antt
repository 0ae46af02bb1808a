-- ===== src/Archive/Tests.antt =====
-- An installation from before the archive, with a second key package, and a new one.
use xmtp_node_go.Base.{List, [], arith, false, none, refl, true, ◌∷◌, ◌≡◌}
use xmtp_node_go.Archive.{Tables, is_archived, create_or_update_installation, backfill_cycle}
use xmtp_node_go.Archive.Invariant.{
  Action, upload, backfill, act_all, IsTables, act_all-IsTables, uploaded-archived,
}

abbrev old_tables : Tables
old_tables = record {
  installations =
      record {
        id = 7 ∷ [];
        created_at = 1;
        updated_at = 1;
        key_package = 1 ∷ [];
        is_appended = none;
      }
      ∷ [];
  key_packages = [];
}

abbrev three_actions : List Action
three_actions = upload (8 ∷ []) (3 ∷ []) 4 ∷ backfill ∷ upload (7 ∷ []) (5 ∷ []) 6 ∷ []

act_all-IsTables_example : IsTables (act_all three_actions old_tables)
act_all-IsTables_example =
    act_all-IsTables three_actions old_tables ((refl, tt), (λ e. ground (arith, e), tt))

uploaded-archived_example :
    is_archived
      (7 ∷ [])
      (2 ∷ [])
      (act_all three_actions
        (create_or_update_installation (7 ∷ []) (2 ∷ []) 3 old_tables)).key_packages
    ≡ true
uploaded-archived_example = uploaded-archived (7 ∷ []) (2 ∷ []) 3 three_actions old_tables

-- An upload leaves the mark of an old installation unset, and its old key package is not archived.
old_package_lost :
    is_archived
      (7 ∷ [])
      (1 ∷ [])
      (backfill_cycle (create_or_update_installation (7 ∷ []) (2 ∷ []) 3 old_tables)).key_packages
    ≡ false
unfolding is_archived backfill_cycle create_or_update_installation xmtp_node_go.Sorting.insert_by
old_package_lost = refl
