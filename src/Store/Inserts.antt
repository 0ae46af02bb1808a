-- ===== src/Store/Inserts.antt =====
-- The tables of messages: ids rise in the order of the rows, no hash occurs twice, and an insert
-- keeps this.
use xmtp_node_go.Base.{
  Bool, Bool-cases, Bytes, List, Result, [], arith, eq_iff, err, false, inl, inr, ok, refl, subst,
  suc, true, ℕ, ◌++◌, ◌+◌, ◌||◌, ◌∙◌, ◌∷◌, ◌≡◌, ◌≤◌, ◌⊎◌, nat_eq, bytes_eq,
}
use xmtp_node_go.Store.{
  StoreError, new_group_message, GroupMessageRow, Table, already_exists, group_hash, has_hash,
  insert_row, insert_group_message,
}

module _ {R : Type 0} (id_of : R → ℕ) (hash_of : R → Bytes) where
  -- Rising ids from a bound on, and the bound after them.
  abbrev pub RisesTo : ℕ → List R → ℕ → Type 0
  RisesTo b [] top = b ≤ top
  RisesTo b (r ∷ rs) top = (b ≤ id_of r) × RisesTo (suc (id_of r)) rs top

  abbrev pub Unique : List R → Type 0
  Unique [] = Unit
  Unique (r ∷ rs) = (has_hash hash_of (hash_of r) rs ≡ false) × Unique rs

  pub record IsTable (t : Table R) : Type 0 where
    pub rising : RisesTo 1 t.rows t.next_id
    pub unique : Unique t.rows

  RisesTo-append :
      (b : ℕ) (rs : List R) (r : R) (top : ℕ)
      → RisesTo b rs top
      → id_of r ≡ top
      → RisesTo b (rs ++ r ∷ []) (top + 1)
  RisesTo-append b [] r top h e = (omega arith, omega arith)
  RisesTo-append b (x ∷ rs) r top h e = (h.0, RisesTo-append (suc (id_of x)) rs r top h.1 e)

  RisesTo-weaken : (b : ℕ) (rs : List R) (top : ℕ) → RisesTo b rs top → RisesTo b rs (top + 1)
  RisesTo-weaken b [] top h = omega arith
  RisesTo-weaken b (x ∷ rs) top h = (h.0, RisesTo-weaken (suc (id_of x)) rs top h.1)

  pub has_hash-append :
      (h : Bytes) (rs ss : List R)
      → has_hash hash_of h (rs ++ ss) ≡ (has_hash hash_of h rs || has_hash hash_of h ss)
  unfolding has_hash
  has_hash-append h [] ss = refl
  has_hash-append h (x ∷ rs) ss = ground (arith, has_hash-append h rs ss)

  Unique-append :
      (rs : List R) (r : R)
      → has_hash hash_of (hash_of r) rs ≡ false
      → Unique rs
      → Unique (rs ++ r ∷ [])
  unfolding has_hash
  Unique-append [] r fresh u = (refl, tt)
  Unique-append (x ∷ rs) r fresh u = (
    ground (
      arith,
      has_hash-append (hash_of x) rs (r ∷ []),
      eq_iff (hash_of r) (hash_of x),
      eq_iff (hash_of x) (hash_of r),
      fresh,
      u.0,
    ),
    Unique-append rs r (ground (arith, fresh)) u.1,
  )

  pub insert_row-IsTable :
      (hash : Bytes) (at : ℕ → R) (t : Table R)
      → ((n : ℕ) → id_of (at n) ≡ n)
      → ((n : ℕ) → hash_of (at n) ≡ hash)
      → IsTable t
      → IsTable (insert_row hash_of hash at t).1
  unfolding insert_row
  insert_row-IsTable hash at t ids hashes v = elim (Bool-cases (has_hash hash_of hash t.rows)) [
    | inl taken ↦
        rw taken (record { rising = RisesTo-weaken 1 t.rows t.next_id v.rising; unique = v.unique })
    | inr free ↦ rw free (record {
      rising = RisesTo-append 1 t.rows (at t.next_id) t.next_id v.rising (ids t.next_id);
      unique = Unique-append t.rows (at t.next_id) (rw (hashes t.next_id) free) v.unique;
    })
  ]

  -- After an insert its hash is present, whether it was refused or not.
  pub insert_row-has_hash :
      (hash : Bytes) (at : ℕ → R) (t : Table R)
      → ((n : ℕ) → hash_of (at n) ≡ hash)
      → has_hash hash_of hash (insert_row hash_of hash at t).1.rows ≡ true
  unfolding insert_row has_hash
  insert_row-has_hash hash at t hashes = elim (Bool-cases (has_hash hash_of hash t.rows)) [
    | inl taken ↦ rw (insert_row, taken) taken
    | inr free ↦
        rw (insert_row, free)
          (has_hash-append hash t.rows (at t.next_id ∷ [])
            ∙ ground (arith, hashes t.next_id, eq_iff (hash_of (at t.next_id)) hash))
  ]

  pub insert_row-refused :
      (hash : Bytes) (at : ℕ → R) (t : Table R)
      → has_hash hash_of hash t.rows ≡ true
      → (insert_row hash_of hash at t).0 ≡ err already_exists
  unfolding insert_row
  insert_row-refused hash at t taken = rw (insert_row, taken) refl

pub insert_group_message-IsTable :
    (sha256 : Bytes → Bytes) (group_id payload sender_hmac : Bytes) (should_push is_commit : Bool)
    (t : Table GroupMessageRow)
    → IsTable (λ r. r.id) group_hash t
    → IsTable
        (λ r. r.id)
        group_hash
        (insert_group_message sha256 group_id payload sender_hmac should_push is_commit t).1
unfolding insert_group_message new_group_message
insert_group_message-IsTable sha256 group_id payload sender_hmac should_push is_commit t =
    insert_row-IsTable (λ r. r.id) group_hash (sha256 (group_id ++ payload))
      (new_group_message (sha256 (group_id ++ payload)) group_id payload sender_hmac should_push
        is_commit)
      t (λ n. refl) (λ n. refl)

-- The answer and the table after an insert that finds the hash there, and after one that does not:
-- the row then has the next id, its group and payload, and the hash of the two joined.
abbrev pub Inserted :
    (Bytes → Bytes)
    → Bytes
    → Bytes
    → Bytes
    → Bool
    → Bool
    → Table GroupMessageRow
    → Result StoreError GroupMessageRow × Table GroupMessageRow
    → Type 0
Inserted sha256 group_id payload sender_hmac should_push is_commit t (answer, t') =
    let row : GroupMessageRow = record {
      id = t.next_id;
      group_id = group_id;
      payload = payload;
      group_id_data_hash = sha256 (group_id ++ payload);
      is_commit = is_commit;
      sender_hmac = sender_hmac;
      should_push = should_push;
    } in
    ((has_hash group_hash (sha256 (group_id ++ payload)) t.rows ≡ true)
      × (answer ≡ err already_exists)
      × (t'.rows ≡ t.rows))
    ⊎ ((has_hash group_hash (sha256 (group_id ++ payload)) t.rows ≡ false)
        × (answer ≡ ok row)
        × (t'.rows ≡ t.rows ++ row ∷ []))

-- An insert finds whether a row has the hash of its group and payload joined. If one has, it is
-- refused as a duplicate and the rows stay; if none has, the row of exactly this message, with that
-- hash and the next id, is answered and is the last one. Either way the ids still rise, and no hash
-- occurs twice.
pub insert_group_message-Inserted :
    (sha256 : Bytes → Bytes) (group_id payload sender_hmac : Bytes) (should_push is_commit : Bool)
    (t : Table GroupMessageRow)
    → IsTable (λ r. r.id) group_hash t
    → Inserted sha256 group_id payload sender_hmac should_push is_commit t
        (insert_group_message sha256 group_id payload sender_hmac should_push is_commit t)
      × IsTable
          (λ r. r.id)
          group_hash
          (insert_group_message sha256 group_id payload sender_hmac should_push is_commit t).1
unfolding insert_group_message new_group_message insert_row
insert_group_message-Inserted sha256 group_id payload sender_hmac should_push is_commit t v = (
  elim (Bool-cases (has_hash group_hash (sha256 (group_id ++ payload)) t.rows)) [
    | inl taken ↦ inl (
      taken,
      rw (insert_group_message, insert_row, taken) refl,
      rw (insert_group_message, insert_row, taken) refl,
    )
    | inr free ↦ inr (
      free,
      rw (insert_group_message, insert_row, free) refl,
      rw (insert_group_message, insert_row, free) refl,
    )
  ],
  insert_group_message-IsTable sha256 group_id payload sender_hmac should_push is_commit t v,
)

pub insert_group_message-has_hash :
    (sha256 : Bytes → Bytes) (group_id payload sender_hmac : Bytes) (should_push is_commit : Bool)
    (t : Table GroupMessageRow)
    → has_hash group_hash
        (sha256 (group_id ++ payload))
        (insert_group_message sha256 group_id payload sender_hmac should_push is_commit t).1.rows
      ≡ true
unfolding insert_group_message new_group_message
insert_group_message-has_hash sha256 group_id payload sender_hmac should_push is_commit t =
    insert_row-has_hash (λ r. r.id) group_hash (sha256 (group_id ++ payload))
      (new_group_message (sha256 (group_id ++ payload)) group_id payload sender_hmac should_push
        is_commit)
      t (λ n. refl)

insert_group_message-refused :
    (sha256 : Bytes → Bytes) (group_id payload sender_hmac : Bytes) (should_push is_commit : Bool)
    (t : Table GroupMessageRow)
    → has_hash group_hash (sha256 (group_id ++ payload)) t.rows ≡ true
    → (insert_group_message sha256 group_id payload sender_hmac should_push is_commit t).0
      ≡ err already_exists
unfolding insert_group_message new_group_message
insert_group_message-refused sha256 group_id payload sender_hmac should_push is_commit t taken =
    insert_row-refused (λ r. r.id) group_hash (sha256 (group_id ++ payload))
      (new_group_message (sha256 (group_id ++ payload)) group_id payload sender_hmac should_push
        is_commit)
      t taken

-- Two pairs of a group and a payload that join to the same bytes have the same hash: once one is
-- stored, an insert of the other is refused as a duplicate.
pub insert_group_message-joined :
    (sha256 : Bytes → Bytes) (a b c e hmac hmac' : Bytes) (push commit push' commit' : Bool)
    (t : Table GroupMessageRow)
    → a ++ b ≡ c ++ e
    → (insert_group_message sha256 c e hmac' push' commit'
        (insert_group_message sha256 a b hmac push commit t).1).0
      ≡ err already_exists
insert_group_message-joined sha256 a b c e hmac hmac' push commit push' commit' t same =
    let first = (insert_group_message sha256 a b hmac push commit t).1 in
    insert_group_message-refused sha256 c e hmac' push' commit' first (
      subst (λ bytes. has_hash group_hash (sha256 bytes) first.rows ≡ true) same
        (insert_group_message-has_hash sha256 a b hmac push commit t))
