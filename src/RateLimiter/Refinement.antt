-- ===== src/RateLimiter/Refinement.antt =====
-- The limiter of pkg/ratelimiter as a map from buckets to entries: what Spend does to it, and that
-- the two maps and the shared heap do not show.
use xmtp_node_go.Base.{
  Bool, Bool-cases, Bytes, Option, Option-cases, ap, arith, eq_iff, eq_self, false, if◌then◌else◌,
  inl, inr, insert, lookup, lookup-cons, none, refl, some, sym, ℕ, ◌+◌, ◌<◌, ◌==◌, ◌∙◌, ◌∷◌, ◌≡◌,
  nat_eq, bytes_eq,
}
use xmtp_node_go.RateLimiter.{
  Entry, Limit, TokenBucketRateLimiter, refill, fresh_entry, get_limit, multiplier_of,
  fill_and_return_entry, spend, spend_from, new_token_bucket_rate_limiter,
}

-- The pointer of a bucket, in the old map or the new one.
abbrev pub pointer_of : TokenBucketRateLimiter → Bytes → Option ℕ
pointer_of rl b = elim (lookup b rl.old_buckets.buckets) [
  | some p ↦ some p
  | none ↦ lookup b rl.new_buckets.buckets
]

abbrev pub entry_at : (ℕ → Option Entry) → Option ℕ → Option Entry
entry_at entries none = none
entry_at entries (some p) = entries p

-- The entry of a bucket.
abbrev pub view : TokenBucketRateLimiter → Bytes → Option Entry
view rl b = entry_at rl.entries (pointer_of rl b)

-- No bucket is in both maps, no two buckets share an entry, and every pointer is one handed out.
pub record Inv (rl : TokenBucketRateLimiter) : Type 0 where
  pub disjoint :
      (b : Bytes) (p : ℕ)
      → lookup b rl.old_buckets.buckets ≡ some p
      → lookup b rl.new_buckets.buckets ≡ none
  pub injective :
      (b c : Bytes) (p : ℕ) → pointer_of rl b ≡ some p → pointer_of rl c ≡ some p → b ≡ c
  pub live :
      (b : Bytes) (p : ℕ)
      → pointer_of rl b ≡ some p
      → (e : Entry) × (rl.entries p ≡ some e) × (p < rl.next)

pub new_token_bucket_rate_limiter-Inv : Inv new_token_bucket_rate_limiter
unfolding new_token_bucket_rate_limiter lookup
new_token_bucket_rate_limiter-Inv = record {
  disjoint = λ b p h. refl;
  injective = λ b c p h k. absurd (cc);
  live = λ b p h. absurd (cc);
}

-- The entry that a call finds: refilled, or made full.
pub touched : Limit → ℕ → ℕ → Option Entry → Entry
touched l multiplier now none = fresh_entry l multiplier now
touched l multiplier now (some e) = refill l multiplier now e

-- A call of Spend on a bucket, seen from outside.
pub record Spent (bucket : Bytes) (r : Bool × Entry) (rl : TokenBucketRateLimiter) (allowed : Bool)
    (rl' : TokenBucketRateLimiter) : Type 0 where
  pub answer : allowed ≡ r.0
  pub views : (b : Bytes) → view rl' b ≡ (if bucket == b then some r.1 else view rl b)
  pub limits : rl'.limits ≡ rl.limits
  pub valid : Inv rl'

-- Writing the entry of a bucket that has one.
write_entry :
    (rl : TokenBucketRateLimiter) (bucket : Bytes) (p : ℕ) (e : Entry)
    → Inv rl
    → pointer_of rl bucket ≡ some p
    → let rl' = record rl { entries = insert p e rl.entries } in
      (view rl' bucket ≡ some e)
      × ((b : Bytes) → (bucket == b) ≡ false → view rl' b ≡ view rl b)
      × Inv rl'
write_entry rl bucket p e v at = (
  ground (arith, at),
  λ b other. ground (arith, at, v.injective bucket b p at, eq_iff bucket b, other),
  record {
    disjoint = v.disjoint;
    injective = v.injective;
    live = λ b q h. elim (Bool-cases (p == q)) [
      | inl same ↦ (e, ground (arith, same), (v.live b q h).2)
      | inr other ↦
          let (e', there, below) = v.live b q h in (e', ground (arith, other, there), below)
    ];
  },
)

-- The limiter with a new entry, in the new map.
abbrev pub created : TokenBucketRateLimiter → Bytes → Entry → TokenBucketRateLimiter
created rl bucket e = record rl {
  entries = insert rl.next e rl.entries;
  next = rl.next + 1;
  new_buckets = record rl.new_buckets { buckets = (bucket, rl.next) ∷ rl.new_buckets.buckets };
}

module _ (rl : TokenBucketRateLimiter) (bucket : Bytes) (e : Entry) (v : Inv rl)
    (at : pointer_of rl bucket ≡ none) where
  pointer_of-created :
      (b : Bytes)
      → pointer_of (created rl bucket e) b ≡ (if bucket == b then some rl.next else pointer_of rl b)
  pointer_of-created b =
      ground (arith, at, eq_iff bucket b, lookup-cons bucket b rl.next rl.new_buckets.buckets)

  below_next : (b : Bytes) (p : ℕ) → pointer_of rl b ≡ some p → p < rl.next
  below_next b p h = (v.live b p h).2

  view-created :
      (b : Bytes) → view (created rl bucket e) b ≡ (if bucket == b then some e else view rl b)
  view-created b = elim (Option-cases (pointer_of rl b)) [
    | inl missing ↦ rw pointer_of-created (ground (arith, missing))
    | inr (p, there) ↦ rw pointer_of-created (ground (arith, there, below_next b p there))
  ]

  pub created-Inv : Inv (created rl bucket e)
  created-Inv = record {
    disjoint = λ b p old. ground (
      arith,
      at,
      v.disjoint b p old,
      eq_iff bucket b,
      old,
      lookup-cons bucket b rl.next rl.new_buckets.buckets,
    );
    injective = λ b c p h k. ground (
      arith,
      rw pointer_of-created at h,
      rw pointer_of-created at k,
      eq_iff bucket b,
      eq_iff bucket c,
      below_next b p,
      below_next c p,
      v.injective b c p,
    );
    live = λ b p h. elim (Bool-cases (bucket == b)) [
      | inl this ↦ (
        e,
        ground (arith, rw pointer_of-created at h, this),
        ground (arith, rw pointer_of-created at h, this),
      )
      | inr other ↦
          let (e', there, below) = v.live b p (ground (arith, rw pointer_of-created at h, other)) in
          (e', ground (arith, there, below), omega (arith, below))
    ];
  }

-- Spend in two steps at a bucket that has an entry.
module _ (limit_type bucket : Bytes) (cost now : ℕ) (is_priority : Bool)
    (rl : TokenBucketRateLimiter) (l : Limit) (known : get_limit rl limit_type ≡ some l)
    (v : Inv rl) where
  abbrev pub multiplier : ℕ
  multiplier = multiplier_of rl limit_type is_priority

  fill_old :
      (p : ℕ) (e : Entry)
      → lookup bucket rl.old_buckets.buckets ≡ some p
      → rl.entries p ≡ some e
      → fill_and_return_entry limit_type bucket is_priority now rl
        ≡ some (p, record rl { entries = insert p (refill l multiplier now e) rl.entries })
  unfolding fill_and_return_entry
  fill_old p e at there = ground (arith, known, at, there)

  fill_existing :
      (p : ℕ) (e : Entry)
      → lookup bucket rl.old_buckets.buckets ≡ none
      → lookup bucket rl.new_buckets.buckets ≡ some p
      → rl.entries p ≡ some e
      → fill_and_return_entry limit_type bucket is_priority now rl
        ≡ some (p, record rl { entries = insert p (refill l multiplier now e) rl.entries })
  unfolding fill_and_return_entry
  fill_existing p e no_old at there = ground (arith, known, no_old, at, there)

  fill_missing :
      lookup bucket rl.old_buckets.buckets ≡ none
      → lookup bucket rl.new_buckets.buckets ≡ none
      → fill_and_return_entry limit_type bucket is_priority now rl
        ≡ some (rl.next, created rl bucket (fresh_entry l multiplier now))
  unfolding fill_and_return_entry
  fill_missing no_old no_new = ground (arith, known, no_old, no_new)

  abbrev pub turn : Bool × Entry
  turn = spend_from cost (touched l multiplier now (view rl bucket))

  -- The second step, from what the first one leaves.
  spend_at-Spent :
      (p : ℕ) (rl' : TokenBucketRateLimiter)
      → fill_and_return_entry limit_type bucket is_priority now rl ≡ some (p, rl')
      → pointer_of rl' bucket ≡ some p
      → rl'.entries p ≡ some (touched l multiplier now (view rl bucket))
      → ((b : Bytes) → (bucket == b) ≡ false → view rl' b ≡ view rl b)
      → rl'.limits ≡ rl.limits
      → Inv rl'
      → (allowed : Bool) × (rl'' : TokenBucketRateLimiter) × (spend limit_type bucket cost
            is_priority now rl
          ≡ some (allowed, rl''))
        × Spent bucket turn rl allowed rl''
  unfolding spend
  spend_at-Spent p rl' filled at there others limits v' =
      let (this, rest, v'') = write_entry rl' bucket p turn.1 v' at in
      (
        turn.0,
        record rl' { entries = insert p turn.1 rl'.entries },
        ground (arith, filled, there),
        record {
          answer = refl;
          views = λ b. elim (Bool-cases (bucket == b)) [
            | inl same ↦ rw same (
                ap (view (record rl' { entries = insert p turn.1 rl'.entries }))
                  (sym ((eq_iff bucket b).0 same))
                ∙ this)
            | inr other ↦ rw other (rest b other ∙ others b other)
          ];
          limits = limits;
          valid = v'';
        },
      )

  -- For a limit type with a limit, on a limiter that meets the invariant, Spend is one turn of the
  -- bucket's own entry, whichever map holds it: the entry is refilled (a bucket that has none gets
  -- a full one), and it is charged if it has the tokens. Spend answers so, changes no other
  -- bucket, keeps the invariant, and meets no nil pointer.
  pub spend-Spent :
      (allowed : Bool) × (rl' : TokenBucketRateLimiter) × (spend limit_type bucket cost is_priority
          now rl
        ≡ some (allowed, rl'))
      × Spent bucket turn rl allowed rl'
  unfolding touched
  spend-Spent = elim (Option-cases (lookup bucket rl.old_buckets.buckets)) [
    | inr (p, old) ↦
        let (e, there, _) = v.live bucket p (ground (arith, old)) in
        let (this, rest, v') =
          write_entry rl bucket p (refill l multiplier now e) v (ground (arith, old)) in
        spend_at-Spent p _ (fill_old p e old there) (ground (arith, old))
          (ground (arith, old, there)) rest refl v'
    | inl no_old ↦ elim (Option-cases (lookup bucket rl.new_buckets.buckets)) [
      | inr (p, new) ↦
          let (e, there, _) = v.live bucket p (ground (arith, no_old, new)) in
          let (this, rest, v') =
            write_entry rl bucket p (refill l multiplier now e) v (ground (arith, no_old, new)) in
          spend_at-Spent p _ (fill_existing p e no_old new there) (ground (arith, no_old, new))
            (ground (arith, no_old, new, there)) rest refl v'
      | inl no_new ↦
          let nowhere : pointer_of rl bucket ≡ none = ground (arith, no_old, no_new) in
          let e : Entry = fresh_entry l multiplier now in
          spend_at-Spent rl.next _ (fill_missing no_old no_new)
            (ground (arith, pointer_of-created rl bucket e v nowhere bucket, eq_self bucket))
            (ground (arith, no_old, no_new))
            (λ b other. ground (arith, view-created rl bucket e v nowhere b, other)) refl
            (created-Inv rl bucket e v nowhere)
    ]
  ]
