-- ===== src/RateLimiter/Tests.antt =====
-- A limiter with one bucket.
use xmtp_node_go.Base.{
  Bool, Bytes, List, [], arith, bytes_eq, codes, false, if◌then◌else◌, lookup, none, refl, some, ℕ,
  ◌&&◌, ◌*◌, ◌+◌, ◌-◌, ◌∷◌, ◌≡◌, ◌≤◌,
}
use xmtp_node_go.RateLimiter.{
  Entry, Limit, TokenBucketRateLimiter, default, spend, new_token_bucket_rate_limiter, get_limit,
  default_limits, whole_minutes, Seen, sweep_and_swap, delete_expired, expired_keys, delete_keys,
}
use xmtp_node_go.Authz.{unspecified}
use xmtp_node_go.RateLimiter.Entries.{rate_of}
use xmtp_node_go.RateLimiter.Budget.{spend_all, spend_all_budget, spend_all-Hurried}
use xmtp_node_go.RateLimiter.Refinement.{
  Inv, Spent, turn, created, created-Inv, new_token_bucket_rate_limiter-Inv, spend-Spent,
}
use xmtp_node_go.RateLimiter.Sweep.{swept, sweep_and_swap_view, unused}
use xmtp_node_go.RateLimiter.Interceptor.{
  Request, handled, apply_limits, apply_limits_free, cost_of,
}

abbrev example_limit : Limit
example_limit = record { max_tokens = 20000; rate_per_minute = 4000 }

abbrev example_entry : Entry
example_entry = record { last_seen = 1000; tokens = 7 }

-- A minute and a half, in nanoseconds.
abbrev later : ℕ
later = 90000000000

abbrev example_calls : List (ℕ × ℕ)
example_calls = (2000, 3) ∷ (later, 5) ∷ []

spend_all_budget_example :
    ((spend_all example_limit 1 example_calls example_entry).0
        + (spend_all example_limit 1 example_calls example_entry).1.tokens
      ≤ 7
        + rate_of example_limit 1
          * whole_minutes
              ((spend_all example_limit 1 example_calls example_entry).1.last_seen - 1000))
    × (1000 ≤ (spend_all example_limit 1 example_calls example_entry).1.last_seen)
spend_all_budget_example =
    spend_all_budget example_limit 1 example_calls example_entry (omega arith)

abbrev hurried_calls : List (ℕ × ℕ)
hurried_calls = (30000000000, 3) ∷ (80000000000, 5) ∷ []

spend_all-Hurried_example :
    (spend_all example_limit 1 hurried_calls example_entry).0
      + (spend_all example_limit 1 hurried_calls example_entry).1.tokens
    ≤ 7
spend_all-Hurried_example =
    spend_all-Hurried example_limit 1 hurried_calls example_entry (omega arith)
      (omega arith, omega arith, (omega arith, omega arith, tt))

abbrev example_bucket : Bytes
example_bucket = codes "R1.2.3.4DEF"

abbrev one_bucket : TokenBucketRateLimiter
one_bucket = created new_token_bucket_rate_limiter example_bucket example_entry

one_bucket-Inv : Inv one_bucket
unfolding new_token_bucket_rate_limiter lookup
one_bucket-Inv =
    created-Inv new_token_bucket_rate_limiter example_bucket example_entry
      new_token_bucket_rate_limiter-Inv refl

get_limit_example : get_limit one_bucket default ≡ some example_limit
unfolding get_limit new_token_bucket_rate_limiter default_limits
get_limit_example = refl

spend-Spent_example :
    (allowed : Bool) × (rl' : TokenBucketRateLimiter) × (spend default example_bucket 3 false later
        one_bucket
      ≡ some (allowed, rl'))
    × Spent example_bucket
        (turn default example_bucket 3 later false one_bucket example_limit get_limit_example
          one_bucket-Inv)
        one_bucket
        allowed
        rl'
spend-Spent_example =
    spend-Spent default example_bucket 3 later false one_bucket example_limit get_limit_example
      one_bucket-Inv

abbrev test_seen : Seen
test_seen = record { time = later; entries = one_bucket.entries }

-- The bucket is in the old map.
abbrev old_bucket : TokenBucketRateLimiter
old_bucket = record one_bucket {
  old_buckets = one_bucket.new_buckets;
  new_buckets = one_bucket.old_buckets;
}

old_bucket-Inv : Inv old_bucket
unfolding sweep_and_swap delete_expired expired_keys delete_keys new_token_bucket_rate_limiter
old_bucket-Inv =
    (sweep_and_swap_view test_seen (λ b. test_seen) 60000000000 one_bucket one_bucket-Inv tt
      example_bucket).3

sweep_and_swap_view_example :
    (lookup ⦃key = bytes_eq⦄ example_bucket
        (swept test_seen (λ b. test_seen) 60000000000 old_bucket old_bucket-Inv).old_buckets.buckets
      ≡ lookup ⦃key = bytes_eq⦄ example_bucket old_bucket.new_buckets.buckets)
    × (lookup ⦃key = bytes_eq⦄ example_bucket
          (swept test_seen
            (λ b. test_seen)
            60000000000
            old_bucket
            old_bucket-Inv).new_buckets.buckets
        ≡ (if unused test_seen
                (λ b. test_seen)
                60000000000
                old_bucket
                old_bucket-Inv
                test_seen
                example_bucket
              && unused test_seen
                  (λ b. test_seen)
                  60000000000
                  old_bucket
                  old_bucket-Inv
                  test_seen
                  example_bucket
            then none
            else lookup ⦃key = bytes_eq⦄ example_bucket old_bucket.old_buckets.buckets))
    × ((swept test_seen (λ b. test_seen) 60000000000 old_bucket old_bucket-Inv).entries
        ≡ old_bucket.entries)
    × Inv (swept test_seen (λ b. test_seen) 60000000000 old_bucket old_bucket-Inv)
unfolding new_token_bucket_rate_limiter
sweep_and_swap_view_example =
    sweep_and_swap_view test_seen (λ b. test_seen) 60000000000 old_bucket old_bucket-Inv (refl, tt)
      example_bucket

configured_example : one_bucket.limits ≡ default_limits
unfolding new_token_bucket_rate_limiter
configured_example = refl

apply_limits_free_example :
    (rl' : TokenBucketRateLimiter) × (apply_limits unspecified
        (codes "1.2.3.4")
        (Request.publish_envelopes 65536)
        later
        one_bucket
      ≡ some (handled, rl'))
unfolding cost_of
apply_limits_free_example =
    apply_limits_free (codes "1.2.3.4") (Request.publish_envelopes 65536) later one_bucket
      one_bucket-Inv configured_example unspecified (λ same. absurd (cc)) refl
