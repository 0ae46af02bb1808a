-- ===== src/Store.antt =====
-- The inserts of pkg/mls/store/store.go and the wrapper algorithms of pkg/types/wrapperAlgorithm.go,
-- over the tables of messages with their unique index of hashes and their sequence of ids
-- (pkg/migrations/mls). A sequence moves on when an insert fails, too.
--
-- sha256 is a parameter. Creation times, which the database sets, and its other failures are left out.
pub mod Inserts
mod Tests
use xmtp_node_go.Base.{
  Bool, Bytes, List, Option, Result, [], err, false, if◌then◌else◌, length, none, ok, some, ℕ, ◌++◌,
  ◌+◌, ◌==◌, ◌||◌, ◌∷◌, nat_eq, bytes_eq,
}
use xmtp_node_go.CatchUp.{RowReader}

-- An int16 as the database holds it.
abbrev pub algorithm_curve25519 : ℕ
algorithm_curve25519 = 0

abbrev pub algorithm_xwing_mlkem768_draft6 : ℕ
algorithm_xwing_mlkem768_draft6 = 1

abbrev pub algorithm_symmetric_key : ℕ
algorithm_symmetric_key = 2

-- The enumerations on the wire are open: `other` is a value that the schema does not name.
pub data WelcomeWrapperAlgorithm : Type 0 where
  unspecified : WelcomeWrapperAlgorithm
  curve25519 : WelcomeWrapperAlgorithm
  xwing_mlkem_768_draft_6 : WelcomeWrapperAlgorithm
  symmetric_key : WelcomeWrapperAlgorithm
  other : ℕ → WelcomeWrapperAlgorithm

pub data WelcomePointerWrapperAlgorithm : Type 0 where
  pointer_unspecified : WelcomePointerWrapperAlgorithm
  pointer_xwing_mlkem_768_draft_6 : WelcomePointerWrapperAlgorithm
  pointer_other : ℕ → WelcomePointerWrapperAlgorithm

unfoldable pub wrapper_algorithm_from_proto : WelcomeWrapperAlgorithm → ℕ
wrapper_algorithm_from_proto curve25519 = algorithm_curve25519
wrapper_algorithm_from_proto xwing_mlkem_768_draft_6 = algorithm_xwing_mlkem768_draft6
wrapper_algorithm_from_proto symmetric_key = algorithm_symmetric_key
wrapper_algorithm_from_proto unspecified = algorithm_curve25519
wrapper_algorithm_from_proto (other n) = algorithm_curve25519

unfoldable pub wrapper_algorithm_to_proto : ℕ → WelcomeWrapperAlgorithm
wrapper_algorithm_to_proto algorithm =
    if algorithm == algorithm_curve25519
    then curve25519
    else if algorithm == algorithm_xwing_mlkem768_draft6
    then xwing_mlkem_768_draft_6
    else if algorithm == algorithm_symmetric_key
    then symmetric_key
    else curve25519

-- `none` is the error.
unfoldable pub welcome_pointer_wrapper_algorithm_from_proto :
    WelcomePointerWrapperAlgorithm → Option ℕ
welcome_pointer_wrapper_algorithm_from_proto pointer_xwing_mlkem_768_draft_6 =
    some algorithm_xwing_mlkem768_draft6
welcome_pointer_wrapper_algorithm_from_proto pointer_unspecified = none
welcome_pointer_wrapper_algorithm_from_proto (pointer_other n) = none

unfoldable pub wrapper_algorithm_to_welcome_pointer_wrapper_algorithm :
    ℕ → WelcomePointerWrapperAlgorithm
wrapper_algorithm_to_welcome_pointer_wrapper_algorithm algorithm =
    if algorithm == algorithm_xwing_mlkem768_draft6
    then pointer_xwing_mlkem_768_draft_6
    else pointer_unspecified

pub record GroupMessageRow : Type 0 where
  pub id : ℕ
  pub group_id : Bytes
  pub payload : Bytes
  pub group_id_data_hash : Bytes
  pub is_commit : Bool
  pub sender_hmac : Bytes
  pub should_push : Bool

pub record WelcomeMessageRow : Type 0 where
  pub id : ℕ
  pub installation_key : Bytes
  pub payload : Bytes
  pub installation_key_data_hash : Bytes
  pub hpke_public_key : Bytes
  pub wrapper_algorithm : ℕ
  pub welcome_metadata : Bytes
  pub message_type : ℕ

-- A table with its sequence.
pub record Table (R : Type 0) : Type 0 where
  pub rows : List R
  pub next_id : ℕ

pub data StoreError : Type 0 where
  already_exists : StoreError
  hpke_public_key_is_required : StoreError

module _ {R : Type 0} (hash_of : R → Bytes) where
  unfoldable pub has_hash : Bytes → List R → Bool
  has_hash hash [] = false
  has_hash hash (r ∷ rs) = hash_of r == hash || has_hash hash rs

  -- An INSERT under the unique index; `at` is the row with its id.
  unfoldable pub insert_row : Bytes → (ℕ → R) → Table R → Result StoreError R × Table R
  insert_row hash at t =
      let next = record t { next_id = t.next_id + 1 } in
      if has_hash hash t.rows
      then (err already_exists, next)
      else (ok (at t.next_id), record next { rows = t.rows ++ at t.next_id ∷ [] })

abbrev pub group_hash : GroupMessageRow → Bytes
group_hash r = r.group_id_data_hash

abbrev pub welcome_hash : WelcomeMessageRow → Bytes
welcome_hash r = r.installation_key_data_hash

-- The rows of the insert functions, given the hash.
unfoldable pub new_group_message : Bytes → Bytes → Bytes → Bytes → Bool → Bool → ℕ → GroupMessageRow
new_group_message hash group_id payload sender_hmac should_push is_commit id = record {
  id = id;
  group_id = group_id;
  payload = payload;
  group_id_data_hash = hash;
  is_commit = is_commit;
  sender_hmac = sender_hmac;
  should_push = should_push;
}

unfoldable pub new_welcome_message :
    Bytes → Bytes → Bytes → Bytes → ℕ → Bytes → ℕ → ℕ → WelcomeMessageRow
new_welcome_message hash installation_key payload hpke_public_key algorithm metadata message_type
      id =
    record {
      id = id;
      installation_key = installation_key;
      payload = payload;
      installation_key_data_hash = hash;
      hpke_public_key = hpke_public_key;
      wrapper_algorithm = algorithm;
      welcome_metadata = metadata;
      message_type = message_type;
    }

module _ (sha256 : Bytes → Bytes) where
  unfoldable pub insert_group_message :
      Bytes
      → Bytes
      → Bytes
      → Bool
      → Bool
      → Table GroupMessageRow
      → Result StoreError GroupMessageRow × Table GroupMessageRow
  insert_group_message group_id payload sender_hmac should_push is_commit =
      let hash = sha256 (group_id ++ payload) in
      insert_row group_hash hash
        (new_group_message hash group_id payload sender_hmac should_push is_commit)

  unfoldable pub insert_welcome_message :
      Bytes
      → Bytes
      → Bytes
      → ℕ
      → Bytes
      → Table WelcomeMessageRow
      → Result StoreError WelcomeMessageRow × Table WelcomeMessageRow
  insert_welcome_message installation_id payload hpke_public_key algorithm metadata =
      let hash = sha256 (installation_id ++ payload) in
      insert_row welcome_hash hash
        (new_welcome_message hash installation_id payload hpke_public_key algorithm metadata 0)

  unfoldable pub insert_welcome_pointer_message :
      Bytes
      → Bytes
      → Bytes
      → ℕ
      → Table WelcomeMessageRow
      → Result StoreError WelcomeMessageRow × Table WelcomeMessageRow
  insert_welcome_pointer_message installation_key pointer hpke_public_key algorithm t =
      let hash = sha256 (installation_key ++ pointer) in
      if length hpke_public_key == 0
      then (err hpke_public_key_is_required, t)
      else insert_row welcome_hash hash
          (new_welcome_message hash installation_key pointer hpke_public_key algorithm [] 1) t

-- A welcome on the wire.
pub data WelcomeProto : Type 0 where
  welcome_v1 : ℕ → Bytes → Bytes → Bytes → WelcomeWrapperAlgorithm → Bytes → WelcomeProto
  welcome_pointer : ℕ → Bytes → Bytes → Bytes → WelcomePointerWrapperAlgorithm → WelcomeProto

-- The message made of a row, by its type; the readers skip an unknown one.
unfoldable pub welcome_to_proto : WelcomeMessageRow → Option WelcomeProto
welcome_to_proto r =
    if r.message_type == 0
    then some (
        welcome_v1 r.id r.installation_key r.payload r.hpke_public_key
          (wrapper_algorithm_to_proto r.wrapper_algorithm) r.welcome_metadata)
    else if r.message_type == 1
    then some (
        welcome_pointer r.id r.installation_key r.payload r.hpke_public_key
          (wrapper_algorithm_to_welcome_pointer_wrapper_algorithm r.wrapper_algorithm))
    else none
