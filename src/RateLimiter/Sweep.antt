-- ===== src/RateLimiter/Sweep.antt =====
-- The janitor's sweepAndSwap of pkg/ratelimiter, on the limiter as a map from buckets to entries.
use xmtp_node_go.Base.{
  Bool, Bool-cases, Bytes, Distinct, List, Option, Option-cases, [], arith, bytes_eq, eq_iff, erase,
  false, if◌then◌else◌, inl, inr, lookup, lookup-erase, ltb, map, member, none, refl, some, sym,
  true, ℕ, ◌&&◌, ◌+◌, ◌-◌, ◌∙◌, ◌∷◌, ◌≡◌, ◌⊎◌, nat_eq,
}
use xmtp_node_go.RateLimiter.{
  Entry, TokenBucketRateLimiter, is_expired, still_expired, expired_keys, delete_keys,
  delete_expired, sweep_and_swap, Seen,
}
use xmtp_node_go.RateLimiter.Refinement.{Inv, pointer_of, entry_at}

lookup-delete_keys :
    (checked : Bytes → Seen) (expires_after : ℕ) (keys : List Bytes) (m : List (Bytes × ℕ))
    (deleted : ℕ) (b : Bytes)
    → lookup b (delete_keys checked expires_after keys m deleted).0 ≡ (
        if member b keys
          && still_expired (checked b).time expires_after (checked b).entries (lookup b m)
        then none
        else lookup b m)
unfolding delete_keys
lookup-delete_keys checked expires_after [] m deleted b = refl
lookup-delete_keys checked expires_after (k ∷ keys) m deleted b =
    let seen = checked k in
    let gone = still_expired seen.time expires_after seen.entries (lookup k m) in
    ground (
      arith,
      lookup-delete_keys checked expires_after keys (if gone then erase k m else m)
          (if gone then deleted + 1 else deleted) b,
      lookup-erase k b m,
      eq_iff k b,
    )

expired_keys-member :
    (now expires_after : ℕ) (entries : ℕ → Option Entry) (m : List (Bytes × ℕ)) (b : Bytes)
    → still_expired now expires_after entries (lookup b m) ≡ true
    → member b (expired_keys now expires_after entries m) ≡ true
unfolding expired_keys still_expired lookup
expired_keys-member now expires_after entries [] b h = cc
expired_keys-member now expires_after entries ((k, p) ∷ m) b h =
    ground (arith, expired_keys-member now expires_after entries m b, eq_iff k b)

expired_keys-listed :
    (now expires_after : ℕ) (entries : ℕ → Option Entry) (m : List (Bytes × ℕ)) (b : Bytes)
    → member b (map (λ e. e.0) m) ≡ false
    → member b (expired_keys now expires_after entries m) ≡ false
unfolding expired_keys
expired_keys-listed now expires_after entries [] b h = refl
expired_keys-listed now expires_after entries ((k, p) ∷ m) b h =
    ground (arith, expired_keys-listed now expires_after entries m b, h)

expired_keys-absent :
    (now expires_after : ℕ) (entries : ℕ → Option Entry) (m : List (Bytes × ℕ)) (b : Bytes)
    → Distinct ⦃key = bytes_eq⦄ (map (λ e. e.0) m)
    → still_expired now expires_after entries (lookup b m) ≡ false
    → member b (expired_keys now expires_after entries m) ≡ false
unfolding expired_keys still_expired lookup
expired_keys-absent now expires_after entries [] b d h = refl
expired_keys-absent now expires_after entries ((k, p) ∷ m) b d h = ground (
  arith,
  expired_keys-absent now expires_after entries m b d.1,
  expired_keys-listed now expires_after entries m k d.0,
  eq_iff k b,
  h,
)

module _ (scanned : Seen) (checked : Bytes → Seen) (expires_after : ℕ) (rl : TokenBucketRateLimiter)
    (v : Inv rl) where
  abbrev pub swept : TokenBucketRateLimiter
  swept = (sweep_and_swap scanned checked expires_after rl).0

  -- At a look at the entries, a bucket is in the old map and its entry was last used longer ago than
  -- the expiry time.
  abbrev pub unused : Seen → Bytes → Bool
  unused seen b = elim (entry_at seen.entries (lookup b rl.old_buckets.buckets)) [
    | none ↦ false
    | some e ↦ ltb expires_after (seen.time - e.last_seen)
  ]

  still_expired-unused :
      (seen : Seen) (b : Bytes)
      → still_expired seen.time expires_after seen.entries (lookup b rl.old_buckets.buckets)
        ≡ unused seen b
  unfolding still_expired is_expired
  still_expired-unused seen b = elim (Option-cases (lookup b rl.old_buckets.buckets)) [
    | inl missing ↦ rw (unused, missing) refl
    | inr (p, at) ↦ rw (unused, at) refl
  ]

  collected :
      (b : Bytes)
      → Distinct ⦃key = bytes_eq⦄ (map (λ e. e.0) rl.old_buckets.buckets)
      → member b (expired_keys scanned.time expires_after scanned.entries rl.old_buckets.buckets)
        ≡ unused scanned b
  collected b d = elim (Bool-cases (unused scanned b)) [
    | inl both ↦
        expired_keys-member scanned.time expires_after scanned.entries rl.old_buckets.buckets b
          (still_expired-unused scanned b ∙ both)
        ∙ sym both
    | inr other ↦
        expired_keys-absent scanned.time expires_after scanned.entries rl.old_buckets.buckets b d
          (still_expired-unused scanned b ∙ other)
        ∙ sym other
  ]

  lookup-swept :
      (b : Bytes)
      → Distinct ⦃key = bytes_eq⦄ (map (λ e. e.0) rl.old_buckets.buckets)
      → lookup b swept.new_buckets.buckets ≡ (
          if unused scanned b && unused (checked b) b
          then none
          else lookup b rl.old_buckets.buckets)
  unfolding sweep_and_swap delete_expired
  lookup-swept b d =
      lookup-delete_keys checked expires_after
        (expired_keys scanned.time expires_after scanned.entries rl.old_buckets.buckets)
        rl.old_buckets.buckets 0 b
      ∙ rw (collected b d, still_expired-unused (checked b) b) refl

  old_kept : (b : Bytes) → lookup b swept.old_buckets.buckets ≡ lookup b rl.new_buckets.buckets
  unfolding sweep_and_swap
  old_kept b = refl

  entries_kept : swept.entries ≡ rl.entries
  unfolding sweep_and_swap
  entries_kept = refl

  next_kept : swept.next ≡ rl.next
  unfolding sweep_and_swap
  next_kept = refl

  disjoint_cases :
      (b : Bytes)
      → (lookup b rl.old_buckets.buckets ≡ none) ⊎ (lookup b rl.new_buckets.buckets ≡ none)
  disjoint_cases b = elim (Option-cases (lookup b rl.old_buckets.buckets)) [
    | inl missing ↦ inl missing
    | inr (p, at) ↦ inr (v.disjoint b p at)
  ]

  module _ (d : Distinct ⦃key = bytes_eq⦄ (map (λ e. e.0) rl.old_buckets.buckets)) where
    -- The sweep takes pointers away, and hands out none.
    pointer_of-swept :
        (b : Bytes) → (pointer_of swept b ≡ none) ⊎ (pointer_of swept b ≡ pointer_of rl b)
    pointer_of-swept b = elim (Bool-cases (unused scanned b && unused (checked b) b)) [
      | inl both ↦ ground (arith, lookup-swept b d, old_kept b, disjoint_cases b, both)
      | inr kept ↦ ground (arith, lookup-swept b d, old_kept b, disjoint_cases b, kept)
    ]

    swept-Inv : Inv swept
    swept-Inv = record {
      disjoint = λ b p h. ground (arith, lookup-swept b d, old_kept b, disjoint_cases b, h);
      injective = λ b c p h k.
          v.injective b c p (ground (arith, h, pointer_of-swept b))
            (ground (arith, k, pointer_of-swept c));
      live = λ b p h.
          rw (entries_kept, next_kept) (v.live b p (ground (arith, h, pointer_of-swept b)));
    }

    -- On a limiter that meets the invariant when the two maps are swapped, the keys of whose old map
    -- are distinct: after the janitor's turn the old map is what the new map was; the new map is what
    -- the old map was, less exactly the buckets whose entry was unused for longer than the expiry time
    -- both at the scan and at its own check; the entries are as they were; and the invariant is kept.
    pub sweep_and_swap_view :
        (b : Bytes)
        → (lookup b swept.old_buckets.buckets ≡ lookup b rl.new_buckets.buckets)
          × (lookup b swept.new_buckets.buckets ≡ (
              if unused scanned b && unused (checked b) b
              then none
              else lookup b rl.old_buckets.buckets))
          × (swept.entries ≡ rl.entries)
          × Inv swept
    sweep_and_swap_view b = (old_kept b, lookup-swept b d, entries_kept, swept-Inv)
