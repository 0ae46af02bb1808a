-- ===== src/MlsService.antt =====
-- The unary handlers of pkg/mls/api/v1/service.go: the validation of requests, SendGroupMessages and
-- SendWelcomeMessages.
--
-- The validation service is a parameter, and `none` is its error; so is sha256. A nil pointer of a
-- request is `none`. A panic is an outcome of its own.
pub mod Sends
pub mod Welcomes
pub mod Installations
pub mod KeyPackages
pub mod CommitLog
pub mod Newest
mod Tests
use xmtp_node_go.Base.{
  Bool, Bytes, List, Option, Result, [], err, fail_if, false, if◌then◌else◌, leb, length, map, none,
  not, ok, some, true, ℕ, ◌&&◌, ◌*◌, ◌+◌, ◌-◌, ◌==◌, ◌>>◌, ◌||◌, ◌∷◌, nat_eq, bytes_eq,
}
use xmtp_node_go.Store.{
  GroupMessageRow, WelcomeMessageRow, StoreError, Table, WelcomeWrapperAlgorithm,
  WelcomePointerWrapperAlgorithm, symmetric_key, already_exists, insert_group_message,
  insert_welcome_message, insert_welcome_pointer_message, wrapper_algorithm_from_proto,
  welcome_pointer_wrapper_algorithm_from_proto,
}
use mathlib.Core.Option

pub data ServiceError : Type 0 where
  unavailable : ServiceError
  invalid_argument : ServiceError
  internal : ServiceError
  panicked : ServiceError

pub record GroupMessageInput : Type 0 where
  pub payload : Bytes
  pub sender_hmac : Bytes
  pub should_push : Bool

pub data WelcomeMessageInput : Type 0 where
  input_v1 : Bytes → Bytes → Bytes → WelcomeWrapperAlgorithm → Bytes → WelcomeMessageInput
  input_pointer : Bytes → Bytes → Bytes → WelcomePointerWrapperAlgorithm → WelcomeMessageInput
  missing_version : WelcomeMessageInput

-- The group id is in hexadecimal.
pub record GroupMessageValidation : Type 0 where
  pub group_id : Bytes
  pub is_commit : Bool

hex_value : ℕ → Option ℕ
hex_value c =
    if leb 48 c && leb c 57
    then some (c - 48)
    else if leb 97 c && leb c 102
    then some (c - 87)
    else if leb 65 c && leb c 70
    then some (c - 55)
    else none

-- hex.DecodeString.
pub decode_string : Bytes → Option Bytes
decode_string [] = some []
decode_string (a ∷ []) = none
decode_string (a ∷ b ∷ text) = elim (hex_value a) [
  | none ↦ none
  | some x ↦ (elim (hex_value b) [
    | none ↦ none
    | some y ↦ Option.map (λ rest. (x * 16 + y) ∷ rest) (decode_string text)
  ])
]

all_present : {A : Type 0} → List (Option A) → Bool
all_present [] = true
all_present (none ∷ xs) = false
all_present (some x ∷ xs) = all_present xs

-- The values of a request without nil pointers.
pub present : {A : Type 0} → List (Option A) → List A
present [] = []
present (none ∷ xs) = present xs
present (some x ∷ xs) = x ∷ present xs

pub validate_send_group_messages_request :
    List (Option GroupMessageInput) → Result ServiceError (Unit {0})
unfolding all_present
validate_send_group_messages_request messages =
    fail_if (length messages == 0) invalid_argument
    >> fail_if (not (all_present messages)) invalid_argument

pub require_ready_to_send : Bytes → Bytes → Result ServiceError (Unit {0})
require_ready_to_send group_id message =
    fail_if (length group_id == 0) invalid_argument
    >> fail_if (length message == 0) invalid_argument

is_symmetric : WelcomeWrapperAlgorithm → Bool
is_symmetric symmetric_key = true
is_symmetric _ = false

validate_welcome : Option WelcomeMessageInput → Result ServiceError (Unit {0})
unfolding is_symmetric
validate_welcome none = err invalid_argument
validate_welcome (some (input_v1 key payload hpke algorithm metadata)) =
    fail_if
      (length payload == 0
        || (length key == 0 || (length hpke == 0 && not (is_symmetric algorithm))))
      invalid_argument
validate_welcome (some (input_pointer key pointer hpke algorithm)) =
    fail_if (length key == 0 || (length pointer == 0 || length hpke == 0)) invalid_argument
    >> (elim (welcome_pointer_wrapper_algorithm_from_proto algorithm) [
      | none ↦ err invalid_argument
      | some a ↦ ok tt
    ])
validate_welcome (some missing_version) = err invalid_argument

validate_welcomes : List (Option WelcomeMessageInput) → Result ServiceError (Unit {0})
unfolding validate_welcome
validate_welcomes [] = ok tt
validate_welcomes (m ∷ ms) = validate_welcome m >> validate_welcomes ms

pub validate_send_welcome_messages_request :
    List (Option WelcomeMessageInput) → Result ServiceError (Unit {0})
unfolding validate_welcomes
validate_send_welcome_messages_request messages =
    fail_if (length messages == 0) invalid_argument >> validate_welcomes messages

-- What follows the insert of one message: a duplicate is passed over.
unfoldable pub after_insert {ℓ} :
    {R : Type ℓ} {T : Type ℓ}
    → Result StoreError R
    → T
    → Result ServiceError (Unit {0}) × T
    → Result ServiceError (Unit {0}) × T
after_insert (ok row) t rest = rest
after_insert (err already_exists) t rest = rest
after_insert (err _) t rest = (err internal, t)

-- The checks before a step, and the answer that it needs: `none` is an invalid argument.
unfoldable pub if_ready {ℓ} :
    {A : Type ℓ} {T : Type ℓ}
    → Result ServiceError (Unit {0})
    → Option A
    → T
    → (A → Result ServiceError (Unit {0}) × T)
    → Result ServiceError (Unit {0}) × T
if_ready (err e) answer t go = (err e, t)
if_ready (ok _) none t go = (err invalid_argument, t)
if_ready (ok _) (some a) t go = go a

module _ (sha256 : Bytes → Bytes) where
  -- The loop over the results of the validation, which indexes the messages. What was inserted before
  -- an error stays.
  unfoldable pub insert_each :
      List GroupMessageValidation
      → List GroupMessageInput
      → Table GroupMessageRow
      → Result ServiceError (Unit {0}) × Table GroupMessageRow
  insert_each [] messages t = (ok tt, t)
  insert_each (r ∷ results) [] t = (err panicked, t)
  insert_each (r ∷ results) (m ∷ messages) t =
      if_ready (require_ready_to_send r.group_id m.payload) (decode_string r.group_id) t
        (λ group_id.
          let (inserted, t') =
            insert_group_message sha256 group_id m.payload m.sender_hmac m.should_push r.is_commit
              t in
          after_insert inserted t' (insert_each results messages t'))

  pub send_group_messages :
      (List GroupMessageInput → Option (List GroupMessageValidation))
      → Bool
      → List (Option GroupMessageInput)
      → Table GroupMessageRow
      → Result ServiceError (Unit {0}) × Table GroupMessageRow
  unfolding insert_each validate_send_group_messages_request present
  send_group_messages validate_group_messages publish_disabled messages t =
      if_ready
        (fail_if publish_disabled unavailable >> validate_send_group_messages_request messages)
        (validate_group_messages (present messages)) t
        (λ results. insert_each results (present messages) t)

  -- What one goroutine of SendWelcomeMessages inserts.
  unfoldable pub insert_welcome :
      WelcomeMessageInput
      → Table WelcomeMessageRow
      → Result ServiceError (Result StoreError WelcomeMessageRow) × Table WelcomeMessageRow
  insert_welcome (input_v1 key payload hpke algorithm metadata) t =
      let (inserted, t') =
        insert_welcome_message sha256 key payload hpke (wrapper_algorithm_from_proto algorithm)
          metadata t in
      (ok inserted, t')
  insert_welcome (input_pointer key pointer hpke algorithm) t =
      elim (welcome_pointer_wrapper_algorithm_from_proto algorithm) [
        | none ↦ (err invalid_argument, t)
        | some a ↦
            let (inserted, t') = insert_welcome_pointer_message sha256 key pointer hpke a t in
            (ok inserted, t')
      ]
  insert_welcome missing_version t = (err internal, t)

  -- The goroutines in the order in which their inserts reach the database; a duplicate is no error.
  -- The first error ends the call, as the group cancels the others.
  pub insert_welcomes :
      List WelcomeMessageInput
      → Table WelcomeMessageRow
      → Result ServiceError (Unit {0}) × Table WelcomeMessageRow
  insert_welcomes [] t = (ok tt, t)
  insert_welcomes (m ∷ ms) t =
      let (outcome, t') = insert_welcome m t in
      elim outcome [
        | err e ↦ (err e, t')
        | ok inserted ↦ after_insert inserted t' (insert_welcomes ms t')
      ]

  -- `order` is the messages as the scheduler orders them.
  pub send_welcome_messages :
      Bool
      → List (Option WelcomeMessageInput)
      → List WelcomeMessageInput
      → Table WelcomeMessageRow
      → Result ServiceError (Unit {0}) × Table WelcomeMessageRow
  unfolding insert_welcomes validate_send_welcome_messages_request
  send_welcome_messages publish_disabled messages order t =
      elim (fail_if publish_disabled unavailable
        >> validate_send_welcome_messages_request messages) [
          | err e ↦ (err e, t)
          | ok _ ↦ insert_welcomes order t
        ]
