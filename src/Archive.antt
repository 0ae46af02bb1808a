-- ===== src/Archive.antt =====
-- The archive of key packages: CreateOrUpdateInstallation of pkg/mls/store/store.go and the cycles of
-- pkg/mls/store/backfiller_installations.go, on the tables installations and key_packages.
--
-- A failed SQL query is left out, and no row is locked by another backfiller. Times are arguments.
pub mod Invariant
mod Rows
mod Tests
use xmtp_node_go.Base.{
  Bool, Bytes, List, Option, [], false, if◌then◌else◌, keep, map, none, some, take, true, ℕ, ◌&&◌,
  ◌++◌, ◌==◌, ◌∷◌, nat_eq, bytes_eq,
}
use xmtp_node_go.Sorting.{sort_by}
use xmtp_node_go.Sorting.Lexicographic.{bytes_leb}

-- A row of the table of installations; an `is_appended` of `none` is NULL.
pub record Installation : Type 0 where
  pub id : Bytes
  pub created_at : ℕ
  pub updated_at : ℕ
  pub key_package : Bytes
  pub is_appended : Option Bool

pub record KeyPackage : Type 0 where
  pub installation_id : Bytes
  pub key_package : Bytes
  pub created_at : ℕ

pub record Tables : Type 0 where
  pub installations : List Installation
  pub key_packages : List KeyPackage

-- The conflict target of InsertKeyPackage.
pub is_archived : Bytes → Bytes → List KeyPackage → Bool
is_archived id key_package [] = false
is_archived id key_package (p ∷ ps) =
    let rest = is_archived id key_package ps in
    if p.installation_id == id && p.key_package == key_package then true else rest

pub insert_key_package : Bytes → Bytes → ℕ → List KeyPackage → List KeyPackage
unfolding is_archived
insert_key_package id key_package created_at ps =
    if is_archived id key_package ps
    then ps
    else ps
      ++ record { installation_id = id; key_package = key_package; created_at = created_at } ∷ []

-- The query CreateOrUpdateInstallation; on a conflict the key package and its time are set, and no
-- other column.
pub upsert_installation : Bytes → Bytes → ℕ → List Installation → List Installation
upsert_installation id key_package now [] =
    record {
      id = id;
      created_at = now;
      updated_at = now;
      key_package = key_package;
      is_appended = some true;
    }
    ∷ []
upsert_installation id key_package now (i ∷ is) =
    let rest = upsert_installation id key_package now is in
    if i.id == id then record i { key_package = key_package; updated_at = now } ∷ is else i ∷ rest

pub create_or_update_installation : Bytes → Bytes → ℕ → Tables → Tables
unfolding upsert_installation insert_key_package
create_or_update_installation id key_package now t = record {
  installations = upsert_installation id key_package now t.installations;
  key_packages = insert_key_package id key_package now t.key_packages;
}

pub is_unappended : Installation → Bool
is_unappended i = elim i.is_appended [ none ↦ true | some _ ↦ false ]

pub select_installations_to_backfill : List Installation → List Installation
unfolding is_unappended sort_by
select_installations_to_backfill is =
    take 100 (sort_by (λ i j. bytes_leb i.id j.id) (keep is_unappended is))

pub update_is_appended_status : Bytes → List Installation → List Installation
update_is_appended_status id =
    map (λ i. if i.id == id then record i { is_appended = some true } else i)

pub append_each : List Installation → Tables → Tables
unfolding insert_key_package update_is_appended_status
append_each [] t = t
append_each (i ∷ is) t = append_each is (record {
  installations = update_is_appended_status i.id t.installations;
  key_packages = insert_key_package i.id i.key_package i.created_at t.key_packages;
})

-- One cycle of Run.
pub backfill_cycle : Tables → Tables
unfolding select_installations_to_backfill append_each
backfill_cycle t = append_each (select_installations_to_backfill t.installations) t
