-- ===== src/MlsService/Sends.antt =====
-- What a send leaves in the tables, on every outcome.
use xmtp_node_go.Base.{
  All, All-append, Bool, Bool-cases, Bytes, List, Option, Result, [], arith, eq_iff, eq_self, err,
  fail_if, false, inl, inr, length, none, ok, refl, some, subst, sym, true, ℕ, ◌&&◌, ◌++◌, ◌==◌,
  ◌>>◌, ◌||◌, ◌∙◌, ◌∷◌, ◌≡◌, nat_eq, bytes_eq,
}
use mathlib.Core.Option.{some_inj}
use xmtp_node_go.Store.{
  already_exists, hpke_public_key_is_required, hpke_public_key_is_required, GroupMessageRow, Table,
  group_hash, has_hash, insert_group_message, insert_row, new_group_message,
}
use xmtp_node_go.Store.Inserts.{IsTable, has_hash-append, insert_group_message-IsTable}
use xmtp_node_go.MlsService.{
  unavailable, after_insert, if_ready, invalid_argument, internal, ServiceError, GroupMessageInput,
  GroupMessageValidation, decode_string, insert_each, panicked, require_ready_to_send, StoreError,
  send_group_messages, present, validate_send_group_messages_request,
}

abbrev pub IsGroupTable : Table GroupMessageRow → Type 0
IsGroupTable = IsTable (λ r. r.id) group_hash

if_ready-cases {ℓ κ} :
    {A : Type ℓ} {T : Type ℓ} (P : Result ServiceError (Unit {0}) × T → Type κ)
    (ready : Result ServiceError (Unit {0})) (answer : Option A) (t : T)
    (go : A → Result ServiceError (Unit {0}) × T)
    → ((e : ServiceError) → P (err e, t))
    → ((a : A) → answer ≡ some a → P (go a))
    → P (if_ready ready answer t go)
unfolding if_ready
if_ready-cases P (err e) answer t go stopped gone = stopped e
if_ready-cases P (ok _) none t go stopped gone = stopped invalid_argument
if_ready-cases P (ok _) (some a) t go stopped gone = gone a refl

-- Where two first parts have one length, joined parts that are equal are equal each.
split_at : (a b c e : Bytes) → length a ≡ length c → a ++ b ≡ c ++ e → (a ≡ c) × (b ≡ e)
split_at [] b [] e width same = (refl, same)
split_at [] b (y ∷ c) e width same = absurd (omega (arith, width))
split_at (x ∷ a) b [] e width same = absurd (omega (arith, width))
split_at (x ∷ a) b (y ∷ c) e width same =
    let (front, back) = split_at a b c e (omega (arith, width)) (cc same) in
    let heads : x ≡ y = cc same in (cc (front, heads), back)

module _ (sha256 : Bytes → Bytes) (width : ℕ) where
  -- A row has this group and this payload.
  abbrev pub has_message : Bytes → Bytes → List GroupMessageRow → Bool
  has_message group_id payload [] = false
  has_message group_id payload (r ∷ rs) =
      (r.group_id == group_id && r.payload == payload) || has_message group_id payload rs

  -- Each message is there with its payload, under the group that its validation names.
  abbrev pub Stored :
      List GroupMessageValidation → List GroupMessageInput → List GroupMessageRow → Type 0
  Stored [] [] rows = Unit
  Stored [] (m ∷ messages) rows = ⊥
  Stored (r ∷ results) [] rows = ⊥
  Stored (r ∷ results) (m ∷ messages) rows =
      ((group_id : Bytes) × (decode_string r.group_id ≡ some group_id)
        × (has_message group_id m.payload rows ≡ true))
      × Stored results messages rows

  -- The hash has no collision, every row has the hash of its group and payload joined, and the groups
  -- have ids of one length.
  abbrev pub NoCollision : Type 0
  NoCollision = (x y : Bytes) → sha256 x ≡ sha256 y → x ≡ y

  abbrev pub Hashed : GroupMessageRow → Type 0
  Hashed r = (r.group_id_data_hash ≡ sha256 (r.group_id ++ r.payload)) × (length r.group_id ≡ width)

  abbrev pub HasWidth : GroupMessageValidation → Type 0
  HasWidth r =
      (group_id : Bytes) → decode_string r.group_id ≡ some group_id → length group_id ≡ width

  -- What holds after the loop.
  Left :
      List GroupMessageValidation
      → List GroupMessageInput
      → Table GroupMessageRow
      → Result ServiceError (Unit {0}) × Table GroupMessageRow
      → Type 0
  Left results messages t (outcome, t') =
      (IsGroupTable t → IsGroupTable t')
      × ((h : Bytes) → has_hash group_hash h t.rows ≡ true → has_hash group_hash h t'.rows ≡ true)
      × ((g p : Bytes) → has_message g p t.rows ≡ true → has_message g p t'.rows ≡ true)
      × (All Hashed t.rows → All HasWidth results → All Hashed t'.rows)
      × (NoCollision
          → All Hashed t.rows
          → All HasWidth results
          → outcome ≡ ok tt
          → length results ≡ length messages
          → Stored results messages t'.rows)

  has_message-append :
      (g p : Bytes) (rows more : List GroupMessageRow)
      → has_message g p (rows ++ more) ≡ (has_message g p rows || has_message g p more)
  has_message-append g p [] more = refl
  has_message-append g p (r ∷ rows) more = ground (arith, has_message-append g p rows more)

  -- A row with the hash of a message is a row of that message.
  has_hash-has_message :
      (g p : Bytes) (rows : List GroupMessageRow)
      → NoCollision
      → All Hashed rows
      → length g ≡ width
      → has_hash group_hash (sha256 (g ++ p)) rows ≡ true
      → has_message g p rows ≡ true
  unfolding has_hash
  has_hash-has_message g p [] apart hashed w there = cc there
  has_hash-has_message g p (r ∷ rows) apart hashed w there =
      elim (Bool-cases (group_hash r == sha256 (g ++ p))) [
        | inl same ↦
            let joined =
              apart (r.group_id ++ r.payload) (g ++ p)
                (sym hashed.0.0 ∙ (eq_iff (group_hash r) (sha256 (g ++ p))).0 same) in
            let (group, payload) = split_at r.group_id r.payload g p (hashed.0.1 ∙ sym w) joined in
            ground (arith, eq_iff r.group_id g, eq_iff r.payload p, group, payload)
        | inr other ↦ ground (
          arith,
          has_hash-has_message g p rows apart hashed.1 w,
          eq_iff (group_hash r) (sha256 (g ++ p)),
          eq_iff (sha256 (g ++ p)) (group_hash r),
          there,
          other,
        )
      ]

  module _ (group_id payload hmac : Bytes) (push commit : Bool) (t : Table GroupMessageRow) where
    insert-has_message_kept :
        (g p : Bytes)
        → has_message g p t.rows ≡ true
        → has_message g p (insert_group_message sha256 group_id payload hmac push commit t).1.rows
          ≡ true
    unfolding insert_group_message insert_row
    insert-has_message_kept g p there =
        elim (Bool-cases (has_hash group_hash (sha256 (group_id ++ payload)) t.rows)) [
          | inl taken ↦ rw (insert_group_message, insert_row, taken) there
          | inr free ↦
              rw (insert_group_message, insert_row, free)
                (has_message-append g p t.rows _ ∙ rw there refl)
        ]

    insert-Hashed :
        length group_id ≡ width
        → All Hashed t.rows
        → All Hashed (insert_group_message sha256 group_id payload hmac push commit t).1.rows
    unfolding insert_group_message insert_row new_group_message
    insert-Hashed w hashed =
        elim (Bool-cases (has_hash group_hash (sha256 (group_id ++ payload)) t.rows)) [
          | inl taken ↦ rw (insert_group_message, insert_row, taken) hashed
          | inr free ↦
              rw (insert_group_message, insert_row, free)
                (All-append Hashed t.rows _ hashed ((refl, w), tt))
        ]

    insert-has_message :
        NoCollision
        → All Hashed t.rows
        → length group_id ≡ width
        → has_message group_id payload
            (insert_group_message sha256 group_id payload hmac push commit t).1.rows
          ≡ true
    unfolding insert_group_message insert_row new_group_message
    insert-has_message apart hashed w =
        elim (Bool-cases (has_hash group_hash (sha256 (group_id ++ payload)) t.rows)) [
          | inl taken ↦
              rw (insert_group_message, insert_row, taken)
                (has_hash-has_message group_id payload t.rows apart hashed w taken)
          | inr free ↦
              rw (insert_group_message, insert_row, free)
                (has_message-append group_id payload t.rows _
                  ∙ ground (arith, eq_self group_id, eq_self payload))
        ]

  insert-keeps :
      (h group_id payload hmac : Bytes) (push commit : Bool) (t : Table GroupMessageRow)
      → has_hash group_hash h t.rows ≡ true
      → has_hash group_hash h
          (insert_group_message sha256 group_id payload hmac push commit t).1.rows
        ≡ true
  unfolding insert_group_message insert_row
  insert-keeps h group_id payload hmac push commit t there =
      elim (Bool-cases (has_hash group_hash (sha256 (group_id ++ payload)) t.rows)) [
        | inl taken ↦ rw (insert_group_message, insert_row, taken) there
        | inr free ↦
            rw (insert_group_message, insert_row, free)
              (has_hash-append (λ r. r.id) group_hash h t.rows _ ∙ rw there refl)
      ]

  stops :
      (results : List GroupMessageValidation) (messages : List GroupMessageInput)
      (t t' : Table GroupMessageRow) (e : ServiceError)
      → (IsGroupTable t → IsGroupTable t')
      → ((h : Bytes) → has_hash group_hash h t.rows ≡ true → has_hash group_hash h t'.rows ≡ true)
      → ((g p : Bytes) → has_message g p t.rows ≡ true → has_message g p t'.rows ≡ true)
      → (All Hashed t.rows → All Hashed t'.rows)
      → Left results messages t (err e, t')
  unfolding Left
  stops results messages t t' e valid keeps kept hashed =
      (valid, keeps, kept, λ h w. hashed h, λ a h w fine same. absurd (cc fine))

  stops_here :
      (results : List GroupMessageValidation) (messages : List GroupMessageInput)
      (t : Table GroupMessageRow) (e : ServiceError)
      → Left results messages t (err e, t)
  stops_here results messages t e =
      stops results messages t t e (λ v. v) (λ h there. there) (λ g p there. there) (λ h. h)

  goes_on :
      (r : GroupMessageValidation) (results : List GroupMessageValidation) (m : GroupMessageInput)
      (messages : List GroupMessageInput) (group_id : Bytes) (t : Table GroupMessageRow)
      (after : Result ServiceError (Unit {0}) × Table GroupMessageRow)
      → decode_string r.group_id ≡ some group_id
      → Left results messages
          (insert_group_message sha256 group_id m.payload m.sender_hmac m.should_push r.is_commit
            t).1
          after
      → Left (r ∷ results) (m ∷ messages) t after
  unfolding Left
  goes_on r results m messages group_id t after decoded (valid, keeps, kept, hashed, stored) = (
    λ v. valid (
        insert_group_message-IsTable sha256 group_id m.payload m.sender_hmac m.should_push
          r.is_commit t v),
    λ h there.
        keeps h (insert-keeps h group_id m.payload m.sender_hmac m.should_push r.is_commit t there),
    λ g p there. kept g p (
        insert-has_message_kept group_id m.payload m.sender_hmac m.should_push r.is_commit t g p
          there),
    λ h w.
        hashed
          (insert-Hashed group_id m.payload m.sender_hmac m.should_push r.is_commit t
            (w.0 group_id decoded) h)
          w.1,
    λ apart h w fine same. (
      (
        group_id,
        decoded,
        kept group_id m.payload (
            insert-has_message group_id m.payload m.sender_hmac m.should_push r.is_commit t apart h
              (w.0 group_id decoded)),
      ),
      stored apart
          (insert-Hashed group_id m.payload m.sender_hmac m.should_push r.is_commit t
            (w.0 group_id decoded) h)
          w.1 fine (omega (arith, same)),
    ),
  )

  after_insert-Left :
      (results : List GroupMessageValidation) (messages : List GroupMessageInput)
      (t : Table GroupMessageRow) (inserted : Result StoreError GroupMessageRow)
      (rest : Result ServiceError (Unit {0}) × Table GroupMessageRow)
      → Left results messages t rest
      → Left results messages t (after_insert inserted t rest)
  unfolding after_insert
  after_insert-Left results messages t (ok row) rest h = h
  after_insert-Left results messages t (err already_exists) rest h = h
  after_insert-Left results messages t (err hpke_public_key_is_required) rest h =
      stops_here results messages t internal

  insert_each-Left :
      (results : List GroupMessageValidation) (messages : List GroupMessageInput)
      (t : Table GroupMessageRow)
      → Left results messages t (insert_each sha256 results messages t)
  unfolding insert_each Left
  insert_each-Left [] [] t =
      (λ v. v, λ h there. there, λ g p there. there, λ h w. h, λ a h w fine same. tt)
  insert_each-Left [] (m ∷ messages) t = (
    λ v. v,
    λ h there. there,
    λ g p there. there,
    λ h w. h,
    λ a h w fine same. absurd (omega (arith, same)),
  )
  insert_each-Left (r ∷ results) [] t = stops_here (r ∷ results) [] t panicked
  insert_each-Left (r ∷ results) (m ∷ messages) t =
      if_ready-cases (Left (r ∷ results) (m ∷ messages) t)
        (require_ready_to_send r.group_id m.payload) (decode_string r.group_id) t _
        (λ e. stops_here (r ∷ results) (m ∷ messages) t e)
        (λ group_id decoded.
          let (inserted, t') =
            insert_group_message sha256 group_id m.payload m.sender_hmac m.should_push r.is_commit
              t in
          goes_on r results m messages group_id t _ decoded (
            after_insert-Left results messages t' inserted _
              (insert_each-Left results messages t')))

  -- Let the rows have the hashes of their groups and payloads joined, the group ids, the validation's
  -- too, be of one length, the hash have no collision, and the validation give a result for each
  -- message. Whatever a send of group messages comes to, the table stays sound, keeps the hashes and
  -- the messages it had, and its rows still have those hashes. If the send succeeds, every message of
  -- the request is there in a row of its payload and of the group that the validation names.
  pub send_group_messages-Stored :
      (validate : List GroupMessageInput → Option (List GroupMessageValidation))
      (results : List GroupMessageValidation) (publish_disabled : Bool)
      (messages : List (Option GroupMessageInput)) (t : Table GroupMessageRow)
      → validate (present messages) ≡ some results
      → length results ≡ length (present messages)
      → IsGroupTable t
      → All Hashed t.rows
      → All HasWidth results
      → NoCollision
      → IsGroupTable (send_group_messages sha256 validate publish_disabled messages t).1
        × ((h : Bytes)
            → has_hash group_hash h t.rows ≡ true
            → has_hash group_hash h
                (send_group_messages sha256 validate publish_disabled messages t).1.rows
              ≡ true)
        × ((g p : Bytes)
            → has_message g p t.rows ≡ true
            → has_message g p
                (send_group_messages sha256 validate publish_disabled messages t).1.rows
              ≡ true)
        × All Hashed (send_group_messages sha256 validate publish_disabled messages t).1.rows
        × ((send_group_messages sha256 validate publish_disabled messages t).0 ≡ ok tt
            → Stored results
                (present messages)
                (send_group_messages sha256 validate publish_disabled messages t).1.rows)
  unfolding send_group_messages Left
  send_group_messages-Stored validate results publish_disabled messages t validated each valid
        hashed widths apart =
      let all =
        if_ready-cases (Left results (present messages) t)
          (fail_if publish_disabled unavailable >> validate_send_group_messages_request messages)
          (validate (present messages)) t (λ found. insert_each sha256 found (present messages) t)
          (λ e. stops_here results (present messages) t e)
          (λ found at.
            subst
              (λ vs. Left results (present messages) t (insert_each sha256 vs (present messages) t))
              (some_inj.0 (sym validated ∙ at)) (insert_each-Left results (present messages) t)) in
      (all.0 valid, all.1, all.2, all.3 hashed widths, λ fine. all.4 apart hashed widths fine each)
