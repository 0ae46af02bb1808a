-- ===== src/MlsService/Installations.antt =====
-- UploadKeyPackage, RegisterInstallation and FetchKeyPackages of pkg/mls/api/v1/service.go, with
-- CreateOrUpdateInstallation of pkg/mls/store/store.go.
use xmtp_node_go.Base.{
  Bool, Bytes, List, Option, Result, [], empty, err, if◌then◌else◌, insert, keep, member, none, ok,
  some, suc, zero, ℕ, ◌+◌, ◌==◌, ◌∷◌, nat_eq, bytes_eq,
}
use xmtp_node_go.MlsService.{ServiceError, unavailable, invalid_argument, internal, panicked}

-- A row of the table of installations.
pub record Installation : Type 0 where
  pub id : Bytes
  pub key_package : Bytes

-- The query CreateOrUpdateInstallation, less its times; the archive of key packages is in Archive.
unfoldable pub create_or_update_installation : Bytes → Bytes → List Installation → List Installation
create_or_update_installation id key_package [] = record { id = id; key_package = key_package } ∷ []
create_or_update_installation id key_package (i ∷ is) =
    let rest = create_or_update_installation id key_package is in
    if i.id == id then record i { key_package = key_package } ∷ is else i ∷ rest

-- The validation of a list of key packages: their installation keys, or its error.
module _ (validate_key_packages : List Bytes → Option (List Bytes)) where
  -- The first result is read without a test of their number.
  pub upload_key_package :
      Bool → Option Bytes → List Installation → Result ServiceError (Unit {0}) × List Installation
  upload_key_package publish_disabled key_package is =
      if publish_disabled then (err unavailable, is) else (elim key_package [
        | none ↦ (err invalid_argument, is)
        | some bytes ↦ (elim (validate_key_packages (bytes ∷ [])) [
          | none ↦ (err invalid_argument, is)
          | some [] ↦ (err panicked, is)
          | some (key ∷ _) ↦ (ok tt, create_or_update_installation key bytes is)
        ])
      ])

  pub register_installation :
      Bool → Option Bytes → List Installation → Result ServiceError Bytes × List Installation
  register_installation publish_disabled key_package is =
      if publish_disabled then (err unavailable, is) else (elim key_package [
        | none ↦ (err invalid_argument, is)
        | some bytes ↦ (elim (validate_key_packages (bytes ∷ [])) [
          | none ↦ (err invalid_argument, is)
          | some [] ↦ (err internal, is)
          | some (key ∷ []) ↦ (ok key, create_or_update_installation key bytes is)
          | some (key ∷ _ ∷ _) ↦ (err internal, is)
        ])
      ])

-- The place of each key, the last of equal ones.
unfoldable pub key_package_map : List Bytes → ℕ → (Bytes → Option ℕ) → Bytes → Option ℕ
key_package_map [] at places = places
key_package_map (id ∷ ids) at places = key_package_map ids (at + 1) (insert id at places)

unfoldable pub set_at {ℓ} : {A : Type ℓ} → ℕ → A → List A → List A
set_at at a [] = []
set_at zero a (x ∷ xs) = a ∷ xs
set_at (suc at) a (x ∷ xs) = x ∷ set_at at a xs

unfoldable pub blank : List Bytes → List (Option Bytes)
blank [] = []
blank (id ∷ ids) = none ∷ blank ids

unfoldable pub place_packages :
    (Bytes → Option ℕ)
    → List Installation
    → List (Option Bytes)
    → Result ServiceError (List (Option Bytes))
place_packages places [] out = ok out
place_packages places (i ∷ is) out = elim (places i.id) [
  | none ↦ err internal
  | some at ↦ place_packages places is (set_at at (some i.key_package) out)
]

-- The query selects the installations that are asked for.
unfoldable pub fetch_key_packages :
    List Bytes → List Installation → Result ServiceError (List (Option Bytes))
fetch_key_packages ids is =
    place_packages (key_package_map ids 0 empty) (keep (λ i. member i.id ids) is) (blank ids)
