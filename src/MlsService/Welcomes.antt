-- ===== src/MlsService/Welcomes.antt =====
-- A welcome from its input to a row, and from the row to what a reader sees.
use xmtp_node_go.Base.{
  Bool-cases, Bytes, Option, Result, [], ap, err, false, inl, inr, length, none, ok, refl, some,
  sym, true, ℕ, ◌++◌, ◌+◌, ◌==◌, ◌∙◌, ◌∷◌, ◌≡◌, nat_eq, bytes_eq,
}
use xmtp_node_go.Store.{
  StoreError, Table, WelcomeMessageRow, WelcomeProto, WelcomeWrapperAlgorithm, curve25519, has_hash,
  hpke_public_key_is_required, insert_row, insert_welcome_message, insert_welcome_pointer_message,
  new_welcome_message, other, pointer_other, pointer_unspecified, pointer_xwing_mlkem_768_draft_6,
  symmetric_key, unspecified, welcome_hash, welcome_pointer, welcome_to_proto, welcome_v1,
  wrapper_algorithm_from_proto, wrapper_algorithm_to_proto, xwing_mlkem_768_draft_6,
}
use xmtp_node_go.MlsService.{
  ServiceError, invalid_argument, WelcomeMessageInput, already_exists, input_pointer, input_v1,
  insert_welcome, missing_version,
}
use mathlib.Core.Path.{ap₂}

-- An algorithm that the schema does not name, or none, is read as Curve25519.
abbrev pub named_or_curve25519 : WelcomeWrapperAlgorithm → WelcomeWrapperAlgorithm
named_or_curve25519 curve25519 = curve25519
named_or_curve25519 xwing_mlkem_768_draft_6 = xwing_mlkem_768_draft_6
named_or_curve25519 symmetric_key = symmetric_key
named_or_curve25519 unspecified = curve25519
named_or_curve25519 (other n) = curve25519

-- The message that a reader sees of an input, under its id.
abbrev pub seen_as : WelcomeMessageInput → ℕ → Option WelcomeProto
seen_as (input_v1 key payload hpke algorithm metadata) id =
    some (welcome_v1 id key payload hpke (named_or_curve25519 algorithm) metadata)
seen_as (input_pointer key pointer hpke algorithm) id =
    some (welcome_pointer id key pointer hpke algorithm)
seen_as missing_version id = none

wrapper_algorithm_round_trip :
    (a : WelcomeWrapperAlgorithm)
    → wrapper_algorithm_to_proto (wrapper_algorithm_from_proto a) ≡ named_or_curve25519 a
unfolding wrapper_algorithm_to_proto wrapper_algorithm_from_proto
wrapper_algorithm_round_trip unspecified = refl
wrapper_algorithm_round_trip curve25519 = refl
wrapper_algorithm_round_trip xwing_mlkem_768_draft_6 = refl
wrapper_algorithm_round_trip symmetric_key = refl
wrapper_algorithm_round_trip (other n) = refl

pair_ok {ℓ κ μ} :
    {E : Type κ} {A : Type ℓ} {T : Type μ} (x y : A) (t u : T)
    → ◌≡◌ {A = Result E A × T} (ok x, t) (ok y, u)
    → (x ≡ y) × (t ≡ u)
pair_ok x y t u h = (ap (λ s. (elim s.0 [ ok a ↦ a | err e ↦ x ])) h, ap (λ s. s.1) h)

insert_row-ok :
    (hash : Bytes) (at : ℕ → WelcomeMessageRow) (t t' : Table WelcomeMessageRow)
    (row : WelcomeMessageRow)
    → insert_row welcome_hash hash at t ≡ (ok row, t')
    → (row ≡ at t.next_id) × (t'.rows ≡ t.rows ++ row ∷ [])
unfolding insert_row
insert_row-ok hash at t t' row h = elim (Bool-cases (has_hash welcome_hash hash t.rows)) [
  | inl taken ↦ absurd (cc (ap (λ s. s.0) (sym (refused taken) ∙ h)))
  | inr free ↦
      let (same, table) = pair_ok _ row _ t' (sym (stored free) ∙ h) in
      (sym same, ap (λ u. u.rows) (sym table) ∙ ap (λ r. t.rows ++ r ∷ []) same)
]
  where
    refused :
        has_hash welcome_hash hash t.rows ≡ true
        → insert_row welcome_hash hash at t
          ≡ (err already_exists, record t { next_id = t.next_id + 1 })
    refused taken = rw (insert_row, taken) refl

    stored :
        has_hash welcome_hash hash t.rows ≡ false
        → insert_row welcome_hash hash at t ≡ (
          ok (at t.next_id),
          record { rows = t.rows ++ at t.next_id ∷ []; next_id = t.next_id + 1 },
        )
    stored free = rw (insert_row, free) refl

pointer-row :
    (sha256 : Bytes → Bytes) (key pointer hpke : Bytes) (algorithm : ℕ)
    (t t' : Table WelcomeMessageRow) (row : WelcomeMessageRow)
    → insert_welcome_pointer_message sha256 key pointer hpke algorithm t ≡ (ok row, t')
    → insert_row welcome_hash
        (sha256 (key ++ pointer))
        (new_welcome_message (sha256 (key ++ pointer)) key pointer hpke algorithm [] 1)
        t
      ≡ (ok row, t')
unfolding insert_welcome_pointer_message
pointer-row sha256 key pointer hpke algorithm t t' row h = elim (Bool-cases (length hpke == 0)) [
  | inl missing ↦ absurd (cc (ap (λ s. s.0) (sym (if_true missing) ∙ h)))
  | inr given ↦ sym (if_false given) ∙ h
]
  where
    if_true :
        (length hpke == 0) ≡ true
        → insert_welcome_pointer_message sha256 key pointer hpke algorithm t
          ≡ (err hpke_public_key_is_required, t)
    if_true missing = rw (insert_welcome_pointer_message, missing) refl

    if_false :
        (length hpke == 0) ≡ false
        → insert_welcome_pointer_message sha256 key pointer hpke algorithm t
          ≡ insert_row welcome_hash
              (sha256 (key ++ pointer))
              (new_welcome_message (sha256 (key ++ pointer)) key pointer hpke algorithm [] 1)
              t
    if_false given = rw (insert_welcome_pointer_message, given) refl

never_ok :
    (row : WelcomeMessageRow)
    → ◌≡◌ {A = Result ServiceError (Result StoreError WelcomeMessageRow)}
        (err invalid_argument)
        (ok (ok row))
    → ⊥
never_ok row h = cc h

-- If the insert of a welcome succeeds, its row is added at the end under the next id, and a reader
-- makes of that row the input again, with every field, except that an algorithm of a plain welcome
-- that is unspecified or unknown is read as Curve25519.
pub insert_welcome-round_trip :
    (sha256 : Bytes → Bytes) (input : WelcomeMessageInput) (t t' : Table WelcomeMessageRow)
    (row : WelcomeMessageRow)
    → insert_welcome sha256 input t ≡ (ok (ok row), t')
    → (t'.rows ≡ t.rows ++ row ∷ [])
      × (row.id ≡ t.next_id)
      × (welcome_to_proto row ≡ seen_as input t.next_id)
unfolding insert_welcome insert_welcome_message insert_welcome_pointer_message new_welcome_message
    welcome_to_proto xmtp_node_go.Store.welcome_pointer_wrapper_algorithm_from_proto
    xmtp_node_go.Store.wrapper_algorithm_to_welcome_pointer_wrapper_algorithm
insert_welcome-round_trip sha256 (input_v1 key payload hpke algorithm metadata) t t' row h =
    let inserted =
      insert_welcome_message sha256 key payload hpke (wrapper_algorithm_from_proto algorithm)
        metadata t in
    let (done, table) = pair_ok inserted.0 (ok row) inserted.1 t' h in
    let hash = sha256 (key ++ payload) in
    let at =
      new_welcome_message hash key payload hpke (wrapper_algorithm_from_proto algorithm) metadata
        0 in
    let (same, rows) = insert_row-ok hash at t t' row (ap₂ (λ a b. (a, b)) done table) in
    (
      rows,
      ap (λ r. r.id) same,
      ap welcome_to_proto same
          ∙ ap (λ a. some (welcome_v1 t.next_id key payload hpke a metadata))
              (wrapper_algorithm_round_trip algorithm),
    )
insert_welcome-round_trip sha256 (input_pointer key pointer hpke pointer_unspecified) t t' row h =
    absurd (never_ok row (ap (λ s. s.0) h))
insert_welcome-round_trip sha256 (input_pointer key pointer hpke (pointer_other n)) t t' row h =
    absurd (never_ok row (ap (λ s. s.0) h))
insert_welcome-round_trip sha256 (input_pointer key pointer hpke pointer_xwing_mlkem_768_draft_6) t
      t' row h =
    let inserted = insert_welcome_pointer_message sha256 key pointer hpke 1 t in
    let (done, table) = pair_ok inserted.0 (ok row) inserted.1 t' h in
    let hash = sha256 (key ++ pointer) in
    let at = new_welcome_message hash key pointer hpke 1 [] 1 in
    let (same, rows) =
      insert_row-ok hash at t t' row
        (pointer-row sha256 key pointer hpke 1 t t' row (ap₂ (λ a b. (a, b)) done table)) in
    (rows, ap (λ r. r.id) same, ap welcome_to_proto same)
insert_welcome-round_trip sha256 missing_version t t' row h = absurd (cc (ap (λ s. s.0) h))
