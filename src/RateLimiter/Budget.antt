-- ===== src/RateLimiter/Budget.antt =====
-- What a bucket of pkg/ratelimiter gives out over a run of Spend calls.
use xmtp_node_go.Base.{List, [], arith, subst, sym, ℕ, ◌*◌, ◌+◌, ◌-◌, ◌<◌, ◌∷◌, ◌≤◌}
use native.Mathlib.Nat.{mul-le-mul_left}
use xmtp_node_go.RateLimiter.{Entry, Limit, whole_minutes, u16_mod}
use xmtp_node_go.RateLimiter.Entries.{
  rate_of, entry_turn, entry_turn-small, entry_turn_balance, entry_turn_hurried, charge,
}

-- The calls, each with its time and its cost: what was allowed in all, and the entry at the end.
pub spend_all : Limit → ℕ → List (ℕ × ℕ) → Entry → ℕ × Entry
spend_all l multiplier [] e = (0, e)
spend_all l multiplier ((now, cost) ∷ calls) e =
    let (allowed, e') = entry_turn l multiplier now cost e in
    let (total, last) = spend_all l multiplier calls e' in (charge allowed cost + total, last)

mul-add-le : (r x y z : ℕ) → x + y ≤ z → r * x + r * y ≤ r * z
mul-add-le r x y z h = omega (arith, mul-le-mul_left r h)

-- The whole minutes of two spans are at most those of the span that they make up.
whole_minutes-add :
    (rate a b c : ℕ)
    → a ≤ b
    → b ≤ c
    → rate * whole_minutes (b - a) + rate * whole_minutes (c - b) ≤ rate * whole_minutes (c - a)
unfolding whole_minutes
whole_minutes-add rate a b c h k = mul-add-le rate _ _ _ (omega arith)

-- From a uint16 balance, whatever the calls and their times, what a bucket allows in all, with what it has left, is at
-- most what it had and the rate for each whole minute between its first and its last time.
pub spend_all_budget :
    (l : Limit) (multiplier : ℕ) (calls : List (ℕ × ℕ)) (e : Entry)
    → e.tokens < u16_mod
    → let (total, last) = spend_all l multiplier calls e in
      (total + last.tokens
        ≤ e.tokens + rate_of l multiplier * whole_minutes (last.last_seen - e.last_seen))
      × (e.last_seen ≤ last.last_seen)
unfolding spend_all
spend_all_budget l multiplier [] e small = omega arith
spend_all_budget l multiplier ((now, cost) ∷ calls) e small =
    let e' = (entry_turn l multiplier now cost e).1 in
    let (balance, later) = entry_turn_balance l multiplier now cost e small in
    let (rest, latest) =
      spend_all_budget l multiplier calls e' (entry_turn-small l multiplier now cost e small) in
    omega (
      arith,
      balance,
      later,
      rest,
      latest,
      whole_minutes-add (rate_of l multiplier) e.last_seen e'.last_seen
          (spend_all l multiplier calls e').1.last_seen later latest,
    )

-- Calls less than a minute apart, from the time `seen` on.
abbrev pub Hurried : ℕ → List (ℕ × ℕ) → Type 0
Hurried seen [] = Unit
Hurried seen ((now, cost) ∷ calls) = (seen ≤ now) × (now < seen + 60000000000) × Hurried now calls

-- From a uint16 balance, calls that are each less than a minute after the one before, allowed or
-- not, never earn a token: what they take in all, with what is left, is at most what there was.
pub spend_all-Hurried :
    (l : Limit) (multiplier : ℕ) (calls : List (ℕ × ℕ)) (e : Entry)
    → e.tokens < u16_mod
    → Hurried e.last_seen calls
    → let (total, last) = spend_all l multiplier calls e in total + last.tokens ≤ e.tokens
unfolding spend_all
spend_all-Hurried l multiplier [] e small h = omega arith
spend_all-Hurried l multiplier ((now, cost) ∷ calls) e small (p, q, h) =
    let e' = (entry_turn l multiplier now cost e).1 in
    let (balance, seen) = entry_turn_hurried l multiplier now cost e small p q in
    omega (
      arith,
      balance,
      spend_all-Hurried l multiplier calls e' (entry_turn-small l multiplier now cost e small)
          (subst (λ s. Hurried s calls) (sym seen) h),
    )
