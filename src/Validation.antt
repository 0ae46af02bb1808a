-- ===== src/Validation.antt =====
-- The client of the validation service, pkg/mlsvalidate/service.go.
--
-- The remote calls are parameters, and `none` is an error of theirs, as is a response that is not ok.
mod Tests
use xmtp_node_go.Base.{Bool, Bytes, List, Option, [], if◌then◌else◌, map, none, some, true, ℕ, ◌∷◌}
use mathlib.Core.Option
use xmtp_node_go.MlsService.{GroupMessageValidation}

-- A response of the service to one message, and to one key package.
pub record ValidationResponse : Type 0 where
  pub is_ok : Bool
  pub group_id : Bytes
  pub is_commit : Bool

pub record KeyPackageResponse : Type 0 where
  pub is_ok : Bool
  pub installation_public_key : Bytes
  pub expiration : ℕ

pub record InboxIdValidationResult : Type 0 where
  pub installation_key : Bytes
  pub expiration : ℕ

unfoldable pub group_results : List ValidationResponse → Option (List GroupMessageValidation)
group_results [] = some []
group_results (r ∷ rs) =
    let rest = group_results rs in
    if r.is_ok
    then Option.map (λ out. record { group_id = r.group_id; is_commit = r.is_commit } ∷ out) rest
    else none

pub key_package_results : List KeyPackageResponse → Option (List InboxIdValidationResult)
key_package_results [] = some []
key_package_results (r ∷ rs) =
    let rest = key_package_results rs in
    if r.is_ok
    then Option.map
        (λ out.
          record { installation_key = r.installation_public_key; expiration = r.expiration } ∷ out)
        rest
    else none

-- The call of ValidateGroupMessages: the bytes of each message, in order.
module _ (call : List Bytes → Option (List ValidationResponse)) where
  unfoldable pub validate_group_message_payloads : List Bytes → Option (List GroupMessageValidation)
  validate_group_message_payloads payloads = elim (call payloads) [
    | none ↦ none
    | some responses ↦ group_results responses
  ]

-- The call of ValidateInboxIdKeyPackages: the bytes of each key package, with the mark that its
-- credential is an inbox id.
module _ (call : List (Bytes × Bool) → Option (List KeyPackageResponse)) where
  pub validate_inbox_id_key_packages : List Bytes → Option (List InboxIdValidationResult)
  unfolding key_package_results
  validate_inbox_id_key_packages key_packages =
      elim (call (map (λ bytes. (bytes, true)) key_packages)) [
        | none ↦ none
        | some responses ↦ key_package_results responses
      ]
