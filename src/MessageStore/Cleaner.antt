-- ===== src/MessageStore/Cleaner.antt =====
-- The cleaner of pkg/store/cleaner.go: one batch, and a run of turns.
--
-- Which rows the LIMIT takes is open; here they are the first. No row is locked by another
-- transaction.
use native.Mathlib.Nat.{zero-mul, suc-mul, add-mul, one-mul}
use xmtp_node_go.Base.{
  All, Bool, Bool-cases, List, [], arith, if◌then◌else◌, inl, inr, keep, leb, length, ltb, not,
  refl, suc, zero, ℕ, ◌&&◌, ◌*◌, ◌+◌, ◌-◌, ◌<◌, ◌||◌, ◌∙◌, ◌∷◌, ◌≡◌, ◌≤◌,
}
use xmtp_node_go.Batches.{delete_first, count_of_rows, count-delete_first}
use xmtp_node_go.MessageStore.{MessageRow}

unfoldable pub is_expired : ℕ → MessageRow → Bool
is_expired threshold r = ltb r.receiver_timestamp threshold && r.should_expire

pub delete_non_xmtp_messages_batch : ℕ → ℕ → List MessageRow → ℕ × List MessageRow
unfolding is_expired
delete_non_xmtp_messages_batch threshold batch_size rows =
    let rest = delete_first (is_expired threshold) batch_size rows in
    if ltb (count_of_rows (is_expired threshold) rows) batch_size
    then (0, rows)
    else (length rows - length rest, rest)

-- Whether the next turn comes after the active period, not the passive one.
pub is_active : ℕ → ℕ → Bool
is_active batch_size count = leb (batch_size - 10) count

-- Turns of cleanerLoop, at their thresholds: whether each was an active one, and the table after
-- them.
pub cleaner_loop : ℕ → List ℕ → List MessageRow → List Bool × List MessageRow
unfolding delete_non_xmtp_messages_batch is_active
cleaner_loop batch_size [] rows = ([], rows)
cleaner_loop batch_size (threshold ∷ thresholds) rows =
    let (count, rows1) = delete_non_xmtp_messages_batch threshold batch_size rows in
    let (periods, rows2) = cleaner_loop batch_size thresholds rows1 in
    (is_active batch_size count ∷ periods, rows2)

-- What is marked never to expire, and what came at a time or later.
abbrev pub is_safe : ℕ → MessageRow → Bool
is_safe time r = not r.should_expire || leb time r.receiver_timestamp

safe_stays :
    (time threshold n : ℕ) (rows : List MessageRow)
    → threshold ≤ time
    → keep (is_safe time) (delete_first (is_expired threshold) n rows) ≡ keep (is_safe time) rows
unfolding delete_first is_expired
safe_stays time threshold n [] early = refl
safe_stays time threshold n (r ∷ rows) early = ground (
  arith,
  early,
  safe_stays time threshold (n - 1) rows early,
  safe_stays time threshold n rows early,
)

batch-safe :
    (time threshold batch_size : ℕ) (rows : List MessageRow)
    → threshold ≤ time
    → keep (is_safe time) (delete_non_xmtp_messages_batch threshold batch_size rows).1
      ≡ keep (is_safe time) rows
unfolding delete_non_xmtp_messages_batch
batch-safe time threshold batch_size rows early =
    elim (Bool-cases (ltb (count_of_rows (is_expired threshold) rows) batch_size)) [
      | inl few ↦ rw few refl
      | inr enough ↦ rw enough (safe_stays time threshold batch_size rows early)
    ]

-- However many turns the cleaner makes, the messages not marked to expire and those that came at or after
-- every threshold are all kept, in their order.
pub cleaner_loop-safe :
    (time batch_size : ℕ) (thresholds : List ℕ) (rows : List MessageRow)
    → All (λ t. t ≤ time) thresholds
    → keep (is_safe time) (cleaner_loop batch_size thresholds rows).1 ≡ keep (is_safe time) rows
unfolding cleaner_loop
cleaner_loop-safe time batch_size [] rows early = refl
cleaner_loop-safe time batch_size (t ∷ thresholds) rows early =
    cleaner_loop-safe time batch_size thresholds
      (delete_non_xmtp_messages_batch t batch_size rows).1 early.1
    ∙ batch-safe time t batch_size rows early.0

abbrev pub times : ℕ → ℕ → List ℕ
times zero threshold = []
times (suc n) threshold = threshold ∷ times n threshold

batch-left :
    (threshold batch_size : ℕ) (rows : List MessageRow)
    → count_of_rows
        (is_expired threshold)
        (delete_non_xmtp_messages_batch threshold batch_size rows).1
      ≡ (if ltb (count_of_rows (is_expired threshold) rows) batch_size
          then count_of_rows (is_expired threshold) rows
          else count_of_rows (is_expired threshold) rows - batch_size)
unfolding delete_non_xmtp_messages_batch
batch-left threshold batch_size rows =
    elim (Bool-cases (ltb (count_of_rows (is_expired threshold) rows) batch_size)) [
      | inl few ↦ rw few refl
      | inr enough ↦ rw enough (count-delete_first (is_expired threshold) batch_size rows)
    ]

next_batch : (n size : ℕ) → ((suc n + 1) * size ≡ (n + 1) * size + size) × (size ≤ (n + 1) * size)
next_batch n size = (
  omega (arith, add-mul n 1 size, add-mul (suc n) 1 size, suc-mul n size, one-mul size),
  omega (arith, add-mul n 1 size, one-mul size),
)

-- If the expired messages at a threshold are fewer than n + 1 batches, n turns at that threshold
-- leave fewer of them than one batch.
pub cleaner_loop-clears :
    (n threshold batch_size : ℕ) (rows : List MessageRow)
    → count_of_rows (is_expired threshold) rows < (n + 1) * batch_size
    → count_of_rows (is_expired threshold) (cleaner_loop batch_size (times n threshold) rows).1
      < batch_size
unfolding cleaner_loop
cleaner_loop-clears zero threshold batch_size rows enough =
    omega (arith, enough, add-mul 0 1 batch_size, zero-mul batch_size, one-mul batch_size)
cleaner_loop-clears (suc n) threshold batch_size rows enough =
    let left = batch-left threshold batch_size rows in
    let rows1 = (delete_non_xmtp_messages_batch threshold batch_size rows).1 in
    let fewer : count_of_rows (is_expired threshold) rows1 < (n + 1) * batch_size =
      ground (arith, enough, left, next_batch n batch_size) in
    cleaner_loop-clears n threshold batch_size rows1 fewer
