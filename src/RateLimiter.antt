-- ===== src/RateLimiter.antt =====
-- pkg/ratelimiter/rate_limiter.go and buckets.go: token buckets for the callers of the API.
--
-- A `*Entry` is a number, the place of the entry on a heap that the two maps of buckets share.
-- Times are nanoseconds; each call is given the time that it reads. A nil dereference is `none`.
-- A call of Spend is two steps, as the source locks: one refills the entry and returns its pointer,
-- the other spends from it. A uint16 keeps its wrap-around.
pub mod Entries
pub mod Budget
pub mod Refinement
pub mod Sweep
pub mod Interceptor
mod Tests
use xmtp_node_go.Base.{
  Bool, Bytes, List, Option, [], codes, empty, erase, false, if◌then◌else◌, insert, leb, lookup,
  ltb, map, none, not, some, true, ℕ, ◌%◌, ◌*◌, ◌+◌, ◌-◌, ◌/◌, ◌==◌, ◌∷◌, nat_eq, bytes_eq,
}
use mathlib.Core.Option

abbrev pub u16_mod : ℕ
u16_mod = 65536

abbrev pub u16 : ℕ → ℕ
u16 n = n % u16_mod

abbrev pub max_uint_16 : ℕ
max_uint_16 = 65535

abbrev pub default : Bytes
default = codes "DEF"

abbrev pub publish : Bytes
publish = codes "PUB"

pub record Entry : Type 0 where
  pub last_seen : ℕ
  pub tokens : ℕ

pub record Limit : Type 0 where
  pub max_tokens : ℕ
  pub rate_per_minute : ℕ

abbrev pub minute : ℕ
minute = 60000000000

min_uint16 : ℕ → ℕ → ℕ
min_uint16 x y = if leb x y then x else y

-- `int(d.Minutes())`. The float division is exact to the minute for every duration below 90 days.
unfoldable pub whole_minutes : ℕ → ℕ
whole_minutes d = d / minute

-- Refill, at the time `now`.
pub refill : Limit → ℕ → ℕ → Entry → Entry
unfolding min_uint16 whole_minutes
refill l multiplier now entry =
    let rate_per_minute = u16 (l.rate_per_minute * multiplier) in
    let max_tokens = u16 (l.max_tokens * multiplier) in
    if ltb entry.last_seen now
    then (let earned = rate_per_minute * whole_minutes (now - entry.last_seen) in
        let additional_tokens =
          if ltb max_uint_16 (earned + entry.tokens) then max_uint_16 - entry.tokens else earned in
        record {
          last_seen = now;
          tokens = min_uint16 (u16 (entry.tokens + u16 additional_tokens)) max_tokens;
        })
    else entry

pub record Buckets : Type 0 where
  pub name : Bytes
  pub buckets : List (Bytes × ℕ)

pub record TokenBucketRateLimiter : Type 0 where
  pub entries : ℕ → Option Entry
  pub next : ℕ
  pub new_buckets : Buckets
  pub old_buckets : Buckets
  pub priority_multiplier : ℕ
  pub publish_priority_multiplier : ℕ
  pub limits : Bytes → Option Limit

new_buckets_named : Bytes → Buckets
new_buckets_named name = record { name = name; buckets = [] }

unfoldable pub default_limits : Bytes → Option Limit
default_limits limit_type =
    if default == limit_type
    then some (record { max_tokens = 20000; rate_per_minute = 4000 })
    else if publish == limit_type
    then some (record { max_tokens = 3000; rate_per_minute = 600 })
    else none

pub new_token_bucket_rate_limiter : TokenBucketRateLimiter
unfolding new_buckets_named default_limits
new_token_bucket_rate_limiter = record {
  entries = empty;
  next = 0;
  new_buckets = new_buckets_named (codes "buckets1");
  old_buckets = new_buckets_named (codes "buckets2");
  priority_multiplier = 2;
  publish_priority_multiplier = 4;
  limits = default_limits;
}

-- The fallback reads the key "default", which is not the value of the constant DEFAULT.
pub get_limit : TokenBucketRateLimiter → Bytes → Option Limit
get_limit rl limit_type = elim (rl.limits limit_type) [
  | some l ↦ some l
  | none ↦ rl.limits (codes "default")
]

fresh_entry : Limit → ℕ → ℕ → Entry
fresh_entry l multiplier now = record { last_seen = now; tokens = u16 (l.max_tokens * multiplier) }

-- What the source returns beside the map: a nil pointer, or a pointer to the entry.
record Found : Type 0 where
  entry : Option ℕ
  entries : ℕ → Option Entry
  next : ℕ
  buckets : List (Bytes × ℕ)

get_and_refill :
    Bytes → Option Limit → ℕ → Bool → ℕ → (ℕ → Option Entry) → ℕ → List (Bytes × ℕ) → Option Found
unfolding fresh_entry
get_and_refill bucket limit multiplier create_if_missing now entries next buckets =
    elim (lookup bucket buckets) [
      | none ↦
          if not create_if_missing
          then some (record { entry = none; entries = entries; next = next; buckets = buckets })
          else elim limit [
            | none ↦ none
            | some l ↦ some (record {
              entry = some next;
              entries = insert next (fresh_entry l multiplier now) entries;
              next = next + 1;
              buckets = (bucket, next) ∷ buckets;
            })
          ]
      | some p ↦ elim limit [
        | none ↦ none
        | some l ↦ elim (entries p) [
          | none ↦ none
          | some e ↦ some (record {
            entry = some p;
            entries = insert p (refill l multiplier now e) entries;
            next = next;
            buckets = buckets;
          })
        ]
      ]
    ]

pub multiplier_of : TokenBucketRateLimiter → Bytes → Bool → ℕ
multiplier_of rl limit_type is_priority =
    if is_priority
    then (if limit_type == publish then rl.publish_priority_multiplier else rl.priority_multiplier)
    else 1

with_new : TokenBucketRateLimiter → Found → TokenBucketRateLimiter
with_new rl f = record rl {
  entries = f.entries;
  next = f.next;
  new_buckets = record rl.new_buckets { buckets = f.buckets };
}

fill_new :
    TokenBucketRateLimiter → Option Limit → ℕ → Bytes → ℕ → Option (ℕ × TokenBucketRateLimiter)
unfolding get_and_refill with_new
fill_new rl limit multiplier bucket now =
    elim (get_and_refill bucket limit multiplier true now rl.entries rl.next
      rl.new_buckets.buckets) [
        | none ↦ none
        | some f ↦ Option.map (λ p. (p, with_new rl f)) f.entry
      ]

-- The entry, refilled; `none` is a nil dereference.
pub fill_and_return_entry :
    Bytes → Bytes → Bool → ℕ → TokenBucketRateLimiter → Option (ℕ × TokenBucketRateLimiter)
unfolding get_limit get_and_refill multiplier_of fill_new
fill_and_return_entry limit_type bucket is_priority now rl =
    let limit = get_limit rl limit_type in
    let multiplier = multiplier_of rl limit_type is_priority in
    elim (get_and_refill bucket limit multiplier false now rl.entries rl.next
      rl.old_buckets.buckets) [
        | none ↦ none
        | some f ↦ elim f.entry [
          | some p ↦ some (p, record rl { entries = f.entries })
          | none ↦ fill_new rl limit multiplier bucket now
        ]
      ]

-- The check and the subtraction, under the entry's mutex; `false` is the error.
pub spend_from : ℕ → Entry → Bool × Entry
spend_from cost e =
    if ltb e.tokens cost then (false, e) else (true, record e { tokens = e.tokens - cost })

spend_at : ℕ → ℕ → TokenBucketRateLimiter → Option (Bool × TokenBucketRateLimiter)
spend_at cost p rl = elim (rl.entries p) [
  | none ↦ none
  | some e ↦
      let (allowed, e') = spend_from cost e in
      some (allowed, record rl { entries = insert p e' rl.entries })
]

pub spend :
    Bytes → Bytes → ℕ → Bool → ℕ → TokenBucketRateLimiter → Option (Bool × TokenBucketRateLimiter)
unfolding spend_at
spend limit_type bucket cost is_priority now rl =
    elim (fill_and_return_entry limit_type bucket is_priority now rl) [
      | none ↦ none
      | some (p, rl') ↦ spend_at cost p rl'
    ]

-- time.Since(entry.lastSeen) > expiresAfter, at a pointer that a map holds.
is_expired : ℕ → ℕ → (ℕ → Option Entry) → ℕ → Bool
is_expired now expires_after entries p = elim (entries p) [
  | none ↦ false
  | some e ↦ ltb expires_after (now - e.last_seen)
]

-- The first loop, which collects the keys.
expired_keys : ℕ → ℕ → (ℕ → Option Entry) → List (Bytes × ℕ) → List Bytes
unfolding is_expired
expired_keys now expires_after entries [] = []
expired_keys now expires_after entries ((bucket, p) ∷ m) =
    let rest = expired_keys now expires_after entries m in
    if is_expired now expires_after entries p then bucket ∷ rest else rest

-- The test under the lock, with the entry looked up again.
pub still_expired : ℕ → ℕ → (ℕ → Option Entry) → Option ℕ → Bool
unfolding is_expired
still_expired now expires_after entries none = false
still_expired now expires_after entries (some p) = is_expired now expires_after entries p

-- What one check of the second loop sees: the time, and the entries.
pub record Seen : Type 0 where
  time : ℕ
  entries : ℕ → Option Entry

-- The second loop, which checks each key again, at its own time and on the entries of then.
delete_keys : (Bytes → Seen) → ℕ → List Bytes → List (Bytes × ℕ) → ℕ → List (Bytes × ℕ) × ℕ
delete_keys checked expires_after [] m deleted = (m, deleted)
delete_keys checked expires_after (bucket ∷ keys) m deleted =
    let seen = checked bucket in
    let expired = still_expired seen.time expires_after seen.entries (lookup bucket m) in
    delete_keys checked expires_after keys (if expired then erase bucket m else m)
      (if expired then deleted + 1 else deleted)

delete_expired : Seen → (Bytes → Seen) → ℕ → List (Bytes × ℕ) → List (Bytes × ℕ) × ℕ
unfolding expired_keys delete_keys
delete_expired scanned checked expires_after m =
    delete_keys checked expires_after (expired_keys scanned.time expires_after scanned.entries m) m
      0

-- The janitor's turn: sweep the old buckets, then swap the two. Calls go on meanwhile: `rl` is the
-- limiter at the swap, and only the janitor writes to the map of the old buckets.
pub sweep_and_swap : Seen → (Bytes → Seen) → ℕ → TokenBucketRateLimiter → TokenBucketRateLimiter × ℕ
unfolding delete_expired
sweep_and_swap scanned checked expires_after rl =
    let (swept, deleted) = delete_expired scanned checked expires_after rl.old_buckets.buckets in
    (
      record rl {
        new_buckets = record rl.old_buckets { buckets = swept };
        old_buckets = rl.new_buckets;
      },
      deleted,
    )
