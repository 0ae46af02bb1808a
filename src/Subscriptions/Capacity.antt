-- ===== src/Subscriptions/Capacity.antt =====
-- log2 and the size of a subscription's backlog, of pkg/subscriptions/dispatcher.go.
use xmtp_node_go.Base.{
  Bool, Bool-cases, Bytes, List, [], arith, false, if◌then◌else◌, inl, inr, insert_self, length,
  ltb, refl, some, suc, zero, ℕ, ◌+◌, ◌/◌, ◌<◌, ◌==◌, ◌^◌, ◌≡◌, ◌≤◌, nat_eq, bytes_eq,
}
use native.Mathlib.Nat.{pow-suc}
use xmtp_node_go.Subscriptions.{
  SubscriptionDispatcher, log2, log2_loop, backlog_buffer_size, min_backlog_buffer_length,
  all_topics_backlog_length, subscribe, has_wildcard, Subscription,
}

log2_loop_bounds :
    (fuel n acc : ℕ)
    → 0 < n
    → n < 2 ^ fuel
    → (k : ℕ) × (log2_loop fuel n acc ≡ acc + k) × (2 ^ k ≤ n) × (n < 2 ^ (suc k)) × (k < fuel)
unfolding log2_loop
log2_loop_bounds zero n acc p h = absurd (omega arith)
log2_loop_bounds (suc fuel) n acc p h = elim (Bool-cases (ltb 1 n)) [
  | inr last ↦ (0, rw last (omega arith), omega arith, ground (arith, last), omega arith)
  | inl more ↦
      let (k, e, low, high, few) =
        log2_loop_bounds fuel (n / 2) (acc + 1) (ground (arith, more))
          (omega (arith, pow-suc 2 fuel)) in
      (
        suc k,
        rw more (omega (arith, e)),
        omega (arith, pow-suc 2 k, low),
        omega (arith, pow-suc 2 (suc k), high),
        omega (arith, few),
      )
]

-- On every nonzero `uint` the shifting loop ends within its fuel with the floor of the base-2
-- logarithm, which is below 64.
pub log2_bounds :
    (n : ℕ) → 0 < n → n < 2 ^ 64 → (2 ^ log2 n ≤ n) × (n < 2 ^ suc (log2 n)) × (log2 n < 64)
unfolding log2
log2_bounds n p h =
    let (k, e, low, high, few) = log2_loop_bounds 64 n 0 p h in
    let value : log2 n ≡ k = ground (arith, e) in rw value (low, high, few)

log2-small : (n : ℕ) → n < 2 ^ 64 → log2 n < 64
log2-small n h = elim (Bool-cases (n == 0)) [
  | inl nothing ↦ unfold log2 in rw nothing (omega arith)
  | inr nonzero ↦ (log2_bounds n (ground (arith, nonzero)) h).2
]

backlog_buffer_size_constant :
    (n : ℕ) → n < 2 ^ 64 → backlog_buffer_size n ≡ min_backlog_buffer_length
unfolding backlog_buffer_size
backlog_buffer_size_constant n h = ground (arith, log2-small n h)

-- With fewer than 2^64 topics, Subscribe returns a fresh, open, empty subscription whose capacity
-- is 4096 if a topic is the wildcard, and otherwise 1024, however many topics it lists.
pub subscribe_capacity :
    (topics : List (Bytes × Bool)) (d : SubscriptionDispatcher)
    → length topics < 2 ^ 64
    → (s : Subscription) × ((subscribe topics d).1.heap (subscribe topics d).0 ≡ some s)
      × (s.all ≡ has_wildcard topics)
      × (s.messages_ch.buffer ≡ [])
      × (s.messages_ch.closed ≡ false)
      × (s.messages_ch.capacity
          ≡ (if has_wildcard topics then all_topics_backlog_length else min_backlog_buffer_length))
unfolding subscribe
subscribe_capacity topics d h = elim (Bool-cases (has_wildcard topics)) [
  | inl all ↦ rw all (_, insert_self d.next _ d.heap, refl, refl, refl, refl)
  | inr listed ↦ rw listed (
    _,
    insert_self d.next _ d.heap,
    refl,
    refl,
    refl,
    backlog_buffer_size_constant (length topics) h,
  )
]
