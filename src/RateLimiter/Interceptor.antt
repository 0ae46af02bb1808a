-- ===== src/RateLimiter/Interceptor.antt =====
-- applyLimits of pkg/api/interceptor.go: the permission and the rate limit of a call. The caller's
-- address and its permission are arguments.
use xmtp_node_go.Base.{
  Bool, Bytes, Option, [], ap, arith, codes, eq_iff, false, if◌then◌else◌, inl, inr, length,
  length-append, none, refl, some, sym, true, ℕ, ◌%◌, ◌++◌, ◌==◌, ◌∙◌, ◌∷◌, ◌≡◌, ◌≢◌, ◌⊎◌, nat_eq,
  bytes_eq,
}
use xmtp_node_go.Authz.{Permission, unspecified, allow_all, priority, denied}
use xmtp_node_go.RateLimiter.{
  Entry, TokenBucketRateLimiter, default, publish, u16, spend, get_limit, default_limits,
  spend_from, Limit,
}
use xmtp_node_go.RateLimiter.Refinement.{Inv, view, spend-Spent}

-- The request types that the interceptor tells apart, with the number of their messages.
pub data Request : Type 0 where
  register_installation upload_key_package publish_identity_update : Request
  send_welcome_messages send_group_messages publish_envelopes batch_query : ℕ → Request
  other_request : Request

pub data Verdict : Type 0 where
  handled permission_denied resource_exhausted : Verdict

unfoldable pub cost_of : Request → ℕ
cost_of (send_welcome_messages n) = n
cost_of (send_group_messages n) = n
cost_of (publish_envelopes n) = n
cost_of (batch_query n) = n
cost_of _ = 1

abbrev pub limit_type_of : Request → Bytes
limit_type_of (batch_query n) = default
limit_type_of other_request = default
limit_type_of _ = publish

pub bucket_of : Bool → Bytes → Bytes → Bytes
bucket_of is_priority ip limit_type =
    if is_priority then codes "P" ++ (ip ++ limit_type) else codes "R" ++ (ip ++ limit_type)

abbrev pub ip_or_unknown : Bytes → Bytes
ip_or_unknown ip = if length ip == 0 then codes "ip_unknown" else ip

charge_call :
    Bool → Bytes → Request → ℕ → TokenBucketRateLimiter → Option (Verdict × TokenBucketRateLimiter)
unfolding cost_of bucket_of
charge_call is_priority ip req now rl =
    elim (spend (limit_type_of req) (bucket_of is_priority ip (limit_type_of req))
      (u16 (cost_of req)) is_priority now rl) [
        | none ↦ none
        | some (allowed, rl') ↦ some (if allowed then handled else resource_exhausted, rl')
      ]

pub apply_limits :
    Permission
    → Bytes
    → Request
    → ℕ
    → TokenBucketRateLimiter
    → Option (Verdict × TokenBucketRateLimiter)
unfolding charge_call
apply_limits denied ip req now rl = some (permission_denied, rl)
apply_limits allow_all ip req now rl = some (handled, rl)
apply_limits priority ip req now rl = charge_call true (ip_or_unknown ip) req now rl
apply_limits unspecified ip req now rl = charge_call false (ip_or_unknown ip) req now rl

append-codes-injective :
    (a b s t : Bytes) → length s ≡ length t → a ++ s ≡ b ++ t → (a ≡ b) × (s ≡ t)
append-codes-injective [] [] s t n h = (refl, h)
append-codes-injective [] (y ∷ b) s t n h =
    absurd (omega (arith, n, ap length h, length-append b t))
append-codes-injective (x ∷ a) [] s t n h =
    absurd (omega (arith, n, ap length h, length-append a s))
append-codes-injective (x ∷ a) (y ∷ b) s t n h =
    let (p, q) = append-codes-injective a b s t n (cc) in (cc, q)

length-limit_type_of : (r : Request) → length (limit_type_of r) ≡ 3
length-limit_type_of (send_welcome_messages n) = refl
length-limit_type_of (batch_query n) = refl
length-limit_type_of other_request = refl
length-limit_type_of _ = refl

-- Two calls with one bucket have the same class, address and limit type.
pub bucket_of-injective :
    (p q : Bool) (ip jp : Bytes) (r s : Request)
    → bucket_of p ip (limit_type_of r) ≡ bucket_of q jp (limit_type_of s)
    → (p ≡ q) × (ip ≡ jp) × (limit_type_of r ≡ limit_type_of s)
unfolding bucket_of
bucket_of-injective true true ip jp r s h =
    let (same_ip, same_type) =
      append-codes-injective ip jp (limit_type_of r) (limit_type_of s)
        (length-limit_type_of r ∙ sym (length-limit_type_of s)) (cc) in
    (refl, same_ip, same_type)
bucket_of-injective false false ip jp r s h =
    let (same_ip, same_type) =
      append-codes-injective ip jp (limit_type_of r) (limit_type_of s)
        (length-limit_type_of r ∙ sym (length-limit_type_of s)) (cc) in
    (refl, same_ip, same_type)
bucket_of-injective true false ip jp r s h = absurd (ground arith)
bucket_of-injective false true ip jp r s h = absurd (ground arith)

limit_type_of-cases : (r : Request) → (limit_type_of r ≡ default) ⊎ (limit_type_of r ≡ publish)
limit_type_of-cases (send_welcome_messages n) = inr refl
limit_type_of-cases (batch_query n) = inl refl
limit_type_of-cases other_request = inl refl
limit_type_of-cases _ = inr refl

-- The limits that the interceptor's types name are configured.
limit_known :
    (rl : TokenBucketRateLimiter) (r : Request)
    → rl.limits ≡ default_limits
    → (l : Limit) × (get_limit rl (limit_type_of r) ≡ some l)
unfolding default_limits get_limit
limit_known rl r configured = elim (limit_type_of-cases r) [
  | inl e ↦ rw e (
    record { max_tokens = 20000; rate_per_minute = 4000 },
    ground (arith, ap (λ (f : Bytes → Option Limit). f default) configured),
  )
  | inr e ↦ rw e (
    record { max_tokens = 3000; rate_per_minute = 600 },
    ground (arith, ap (λ (f : Bytes → Option Limit). f publish) configured),
  )
]

abbrev pub is_priority_of : Permission → Bool
is_priority_of priority = true
is_priority_of _ = false

verdict_cases :
    (allowed : Bool)
    → ((if allowed then handled else resource_exhausted) ≡ handled)
      ⊎ ((if allowed then handled else resource_exhausted) ≡ resource_exhausted)
verdict_cases true = inl refl
verdict_cases false = inr refl

spend_from_zero : (cost : ℕ) (e : Entry) → cost ≡ 0 → (spend_from cost e).0 ≡ true
unfolding spend_from
spend_from_zero cost e h = ground arith

not_eq : (a b : Bytes) → a ≢ b → (a == b) ≡ false
not_eq a b h = ground (arith, eq_iff a b)

-- A call that is limited, seen from outside.
pub record Limited (mine : Bytes) (rl : TokenBucketRateLimiter) (verdict : Verdict)
    (rl' : TokenBucketRateLimiter) : Type 0 where
  pub answer : (verdict ≡ handled) ⊎ (verdict ≡ resource_exhausted)
  pub others : (b : Bytes) → (mine == b) ≡ false → view rl' b ≡ view rl b
  pub limits : rl'.limits ≡ rl.limits
  pub valid : Inv rl'

module _ (ip : Bytes) (req : Request) (now : ℕ) (rl : TokenBucketRateLimiter) (v : Inv rl)
    (configured : rl.limits ≡ default_limits) where
  charge_call-Limited :
      (is_priority : Bool)
      → (verdict : Verdict) × (rl' : TokenBucketRateLimiter) × (charge_call is_priority ip req now
            rl
          ≡ some (verdict, rl'))
        × Limited (bucket_of is_priority ip (limit_type_of req)) rl verdict rl'
  unfolding charge_call
  charge_call-Limited is_priority =
      let (l, known) = limit_known rl req configured in
      let mine = bucket_of is_priority ip (limit_type_of req) in
      let (allowed, rl', e, spent) =
        spend-Spent (limit_type_of req) mine (u16 (cost_of req)) now is_priority rl l known v in
      (
        if allowed then handled else resource_exhausted,
        rl',
        rw (e, charge_call),
        record {
          answer = verdict_cases allowed;
          others = λ b other. rw other at (spent.views b);
          limits = spent.limits;
          valid = spent.valid;
        },
      )

  charge_call-free :
      (is_priority : Bool)
      → cost_of req % 65536 ≡ 0
      → (rl' : TokenBucketRateLimiter) × (charge_call is_priority ip req now rl
          ≡ some (handled, rl'))
  unfolding charge_call
  charge_call-free is_priority h =
      let (l, known) = limit_known rl req configured in
      let mine = bucket_of is_priority ip (limit_type_of req) in
      let (allowed, rl', e, spent) =
        spend-Spent (limit_type_of req) mine (u16 (cost_of req)) now is_priority rl l known v in
      let zero_cost : u16 (cost_of req) ≡ 0 = h in
      let passes : allowed ≡ true =
        spent.answer ∙ spend_from_zero (u16 (cost_of req)) _ zero_cost in
      (rl', rw (e, passes, charge_call))

module _ (ip : Bytes) (req : Request) (now : ℕ) (rl : TokenBucketRateLimiter) (v : Inv rl)
    (configured : rl.limits ≡ default_limits) where
  isolated :
      (is_priority q : Bool) (jp : Bytes) (s : Request)
      → ¬ ((is_priority ≡ q) × (ip_or_unknown ip ≡ jp) × (limit_type_of req ≡ limit_type_of s))
      → (verdict : Verdict) × (rl' : TokenBucketRateLimiter) × (charge_call is_priority
            (ip_or_unknown ip)
            req
            now
            rl
          ≡ some (verdict, rl'))
        × (view rl' (bucket_of q jp (limit_type_of s)) ≡ view rl (bucket_of q jp (limit_type_of s)))
        × (rl'.limits ≡ default_limits)
        × Inv rl'
  isolated is_priority q jp s different =
      let mine = bucket_of is_priority (ip_or_unknown ip) (limit_type_of req) in
      let theirs = bucket_of q jp (limit_type_of s) in
      let (verdict, rl', e, r) =
        charge_call-Limited (ip_or_unknown ip) req now rl v configured is_priority in
      let apart : (mine == theirs) ≡ false =
        not_eq mine theirs (λ same.
          different (bucket_of-injective is_priority q (ip_or_unknown ip) jp req s same)) in
      (verdict, rl', e, r.others theirs apart, r.limits ∙ configured, r.valid)

  -- On a limiter with the default limits that meets the invariant, a call meets no nil limit or
  -- entry; it keeps the limits and the invariant, and it leaves the entry of any bucket of another
  -- class, address or limit type as it was.
  pub apply_limits_isolated :
      (p : Permission) (q : Bool) (jp : Bytes) (s : Request)
      → ¬ ((is_priority_of p ≡ q) × (ip_or_unknown ip ≡ jp) × (limit_type_of req ≡ limit_type_of s))
      → (verdict : Verdict) × (rl' : TokenBucketRateLimiter) × (apply_limits p ip req now rl
          ≡ some (verdict, rl'))
        × (view rl' (bucket_of q jp (limit_type_of s)) ≡ view rl (bucket_of q jp (limit_type_of s)))
        × (rl'.limits ≡ default_limits)
        × Inv rl'
  unfolding apply_limits
  apply_limits_isolated denied q jp s different = (permission_denied, rl, refl, refl, configured, v)
  apply_limits_isolated allow_all q jp s different = (handled, rl, refl, refl, configured, v)
  apply_limits_isolated priority q jp s different = isolated true q jp s different
  apply_limits_isolated unspecified q jp s different = isolated false q jp s different

  -- On a limiter with the default limits that meets the invariant, a call of a caller that is not
  -- denied, with a number of messages that is a multiple of 65536, is handled, however few tokens
  -- its bucket has: the cost is cut to 16 bits.
  pub apply_limits_free :
      (p : Permission)
      → p ≢ denied
      → cost_of req % 65536 ≡ 0
      → (rl' : TokenBucketRateLimiter) × (apply_limits p ip req now rl ≡ some (handled, rl'))
  unfolding apply_limits
  apply_limits_free denied allowed h = absurd (allowed refl)
  apply_limits_free allow_all allowed h = (rl, refl)
  apply_limits_free priority allowed h =
      charge_call-free (ip_or_unknown ip) req now rl v configured true h
  apply_limits_free unspecified allowed h =
      charge_call-free (ip_or_unknown ip) req now rl v configured false h
