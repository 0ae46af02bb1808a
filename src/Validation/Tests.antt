-- ===== src/Validation/Tests.antt =====
-- One response that is not ok fails the whole call.
use xmtp_node_go.Base.{[], false, none, refl, some, true, ◌∷◌, ◌≡◌}
use xmtp_node_go.Validation.{
  KeyPackageResponse, ValidationResponse, validate_group_message_payloads,
  validate_inbox_id_key_packages,
}

one_refused :
    validate_group_message_payloads
      (λ payloads. some (
        record { is_ok = true; group_id = 1 ∷ []; is_commit = true }
        ∷ record { is_ok = false; group_id = []; is_commit = false }
        ∷ []))
      ((5 ∷ []) ∷ (6 ∷ []) ∷ [])
    ≡ none
unfolding validate_group_message_payloads xmtp_node_go.Validation.group_results
one_refused = refl

one_package :
    validate_inbox_id_key_packages
      (λ packages.
        some (record { is_ok = true; installation_public_key = 3 ∷ []; expiration = 9 } ∷ []))
      ((5 ∷ []) ∷ [])
    ≡ some (record { installation_key = 3 ∷ []; expiration = 9 } ∷ [])
unfolding validate_inbox_id_key_packages xmtp_node_go.Validation.key_package_results
one_package = refl
