-- ===== src/RateLimiter/Entries.antt =====
-- Refill and the subtraction of Spend, on one entry of pkg/ratelimiter.
use xmtp_node_go.Base.{Bool, arith, if◌then◌else◌, min, ℕ, ◌*◌, ◌+◌, ◌-◌, ◌/◌, ◌<◌, ◌≡◌, ◌≤◌}
use xmtp_node_go.RateLimiter.{Entry, Limit, refill, spend_from, whole_minutes, u16, u16_mod}

-- The rate and the cap of a caller's class, as the source computes them.
abbrev pub rate_of : Limit → ℕ → ℕ
rate_of l multiplier = u16 (l.rate_per_minute * multiplier)

abbrev pub cap_of : Limit → ℕ → ℕ
cap_of l multiplier = u16 (l.max_tokens * multiplier)

-- On an entry whose balance is a uint16, Refill at a later time is the ideal refill: the time is
-- now, each whole minute since the last one earns the rate, and the sum is cut at the cap. The
-- conversion and the addition in uint16 do not wrap.
pub refill_ideal :
    (l : Limit) (multiplier now : ℕ) (e : Entry)
    → e.tokens < u16_mod
    → e.last_seen < now
    → refill l multiplier now e ≡ record {
      last_seen = now;
      tokens =
          min
            (e.tokens + rate_of l multiplier * ((now - e.last_seen) / 60000000000))
            (cap_of l multiplier);
    }
unfolding refill
refill_ideal l multiplier now e small later = ground arith

pub refill_same :
    (l : Limit) (multiplier now : ℕ) (e : Entry) → now ≤ e.last_seen → refill l multiplier now e ≡ e
unfolding refill
refill_same l multiplier now e h = ground arith

-- One call of Spend on an entry.
pub entry_turn : Limit → ℕ → ℕ → ℕ → Entry → Bool × Entry
entry_turn l multiplier now cost e = spend_from cost (refill l multiplier now e)

pub entry_turn-small :
    (l : Limit) (multiplier now cost : ℕ) (e : Entry)
    → e.tokens < u16_mod
    → (entry_turn l multiplier now cost e).1.tokens < u16_mod
unfolding entry_turn refill spend_from
entry_turn-small l multiplier now cost e h = ground arith

abbrev pub charge : Bool → ℕ → ℕ
charge allowed cost = if allowed then cost else 0

-- What one call takes and leaves is what was there and what was earned since.
pub entry_turn_balance :
    (l : Limit) (multiplier now cost : ℕ) (e : Entry)
    → e.tokens < u16_mod
    → let (allowed, e') = entry_turn l multiplier now cost e in
      (charge allowed cost + e'.tokens
        ≤ e.tokens + rate_of l multiplier * whole_minutes (e'.last_seen - e.last_seen))
      × (e.last_seen ≤ e'.last_seen)
unfolding entry_turn refill spend_from
entry_turn_balance l multiplier now cost e h = ground arith

-- A call less than a minute after the one before earns nothing, and moves the time all the same.
pub entry_turn_hurried :
    (l : Limit) (multiplier now cost : ℕ) (e : Entry)
    → e.tokens < u16_mod
    → e.last_seen ≤ now
    → now < e.last_seen + 60000000000
    → let (allowed, e') = entry_turn l multiplier now cost e in
      (charge allowed cost + e'.tokens ≤ e.tokens) × (e'.last_seen ≡ now)
unfolding entry_turn refill spend_from
entry_turn_hurried l multiplier now cost e small p q = ground arith
