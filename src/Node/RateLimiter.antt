-- ===== src/Node/RateLimiter.antt =====
-- The limiter of accepted connections: newRateLimiter and allow of node/node.go. Times are in
-- nanoseconds. The refill, which the code computes in float64 and then truncates, is the exact quotient:
-- for the node's limiter, of 10 in a second, the two agree below 2^53 / 10 nanoseconds, some ten days,
-- and above both exceed the maximum at which the tokens are cut.
use native.Mathlib.Nat.{mul-le-mul_right, add-mul}
use magic_tun.Base.{
  ℕ, ◌+◌, ◌-◌, ◌*◌, ◌/◌, ◌≤◌, ◌<◌, ◌≡◌, refl, ◌∙◌, Bool, true, false, List, [], ◌∷◌, arith, inl,
  inr, if◌then◌else◌, ltb, Bool-cases,
}

pub record RateLimiter : Type 0 where
  pub tokens : ℕ
  pub max : ℕ
  pub interval : ℕ
  pub last : ℕ

abbrev pub new_rate_limiter : ℕ → ℕ → ℕ → RateLimiter
new_rate_limiter now max_per_interval interval = record {
  tokens = max_per_interval;
  max = max_per_interval;
  interval = interval;
  last = now;
}

-- The tokens after the refill
unfoldable pub refilled : ℕ → RateLimiter → ℕ
refilled now rl =
    let tokens = rl.tokens + rl.max * (now - rl.last) / rl.interval in
    if ltb rl.max tokens then rl.max else tokens

unfoldable pub allow : ℕ → RateLimiter → Bool × RateLimiter
allow now rl =
    let tokens = refilled now rl in
    if ltb 0 tokens
    then (true, record rl { tokens = tokens - 1; last = now })
    else (false, record rl { tokens = tokens; last = now })

-- How many of the connections that come in at these times are admitted
unfoldable pub admitted : List ℕ → RateLimiter → ℕ
admitted [] rl = 0
admitted (now ∷ times) rl =
    let (ok, rl') = allow now rl in (if ok then 1 else 0) + admitted times rl'

-- The times do not fall, from `last` on, and `final` is the last of them.
abbrev pub IsTimeline : ℕ → ℕ → List ℕ → Type 0
IsTimeline last final [] = last ≤ final
IsTimeline last final (now ∷ times) = (last ≤ now) × IsTimeline now final times

refill-mul-le : (a b : ℕ) → a / b * b ≤ a
refill-mul-le a b = grind arith

scaled_le : (r t q g i : ℕ) → r ≤ t + q → q * i ≤ g → r * i ≤ t * i + g
scaled_le r t q g i h k = omega (arith, mul-le-mul_right i h, add-mul t q i)

refilled_sum :
    (now : ℕ) (rl : RateLimiter)
    → refilled now rl ≤ rl.tokens + rl.max * (now - rl.last) / rl.interval
unfolding refilled
refilled_sum now rl = ground arith

refilled_le :
    (now : ℕ) (rl : RateLimiter)
    → refilled now rl * rl.interval ≤ rl.tokens * rl.interval + rl.max * (now - rl.last)
refilled_le now rl =
    let gained = rl.max * (now - rl.last) in
    scaled_le (refilled now rl) rl.tokens (gained / rl.interval) gained rl.interval
      (refilled_sum now rl) (refill-mul-le gained rl.interval)

refilled_cap : (now : ℕ) (rl : RateLimiter) → refilled now rl ≤ rl.max
unfolding refilled
refilled_cap now rl = ground arith

-- One call, with what the rest of the calls admits.
bound_step :
    (t t' i m gap gap' rest : ℕ)
    → t' * i ≤ t * i + m * gap
    → rest * i ≤ (t' - 1) * i + m * gap'
    → 0 < t'
    → (1 + rest) * i ≤ t * i + m * (gap + gap')
bound_step t t' i m gap gap' rest p q pos = grind arith

split_gap : (a b c : ℕ) → a ≤ b → b ≤ c → c - a ≡ (b - a) + (c - b)
split_gap a b c p q = omega arith

last-le-final : (last final : ℕ) (times : List ℕ) → IsTimeline last final times → last ≤ final
last-le-final last final [] h = h
last-le-final last final (now ∷ times) (h, hs) = omega (arith, last-le-final now final times hs)

admitted_budget :
    (final : ℕ) (times : List ℕ) (rl : RateLimiter)
    → IsTimeline rl.last final times
    → admitted times rl * rl.interval ≤ rl.tokens * rl.interval + rl.max * (final - rl.last)
unfolding admitted allow
admitted_budget final [] rl h = grind arith
admitted_budget final (now ∷ times) rl (h, hs) =
    let t = refilled now rl in
    let after = last-le-final now final times hs in
    let gaps = split_gap rl.last now final h after in
    elim (Bool-cases (ltb 0 t)) [
      | inl some_left ↦
          let ih = admitted_budget final times (record rl { tokens = t - 1; last = now }) hs in
          rw (some_left, gaps)
            (bound_step rl.tokens t rl.interval rl.max (now - rl.last) (final - now) _
              (refilled_le now rl) ih (ground arith))
      | inr empty ↦
          let ih = admitted_budget final times (record rl { tokens = t; last = now }) hs in
          rw (empty, gaps) (grind (arith, refilled_le now rl))
    ]

-- The limiter after connections that came in at these times
abbrev pub after : List ℕ → RateLimiter → RateLimiter
after [] rl = rl
after (now ∷ times) rl = after times (allow now rl).1

fixed-after :
    (times : List ℕ) (rl : RateLimiter)
    → ((after times rl).max ≡ rl.max) × ((after times rl).interval ≡ rl.interval)
unfolding allow
fixed-after [] rl = (refl, refl)
fixed-after (now ∷ times) rl =
    let (m, i) = fixed-after times (allow now rl).1 in (m ∙ ground arith, i ∙ ground arith)

no_gap : (gap : ℕ) → 0 + gap ≡ gap
no_gap gap = omega arith

-- The first connection of a period, with what the rest admits.
full_step :
    (t i m gap rest : ℕ)
    → t ≤ m
    → rest * i ≤ (t - 1) * i + m * gap
    → 0 < t
    → (1 + rest) * i ≤ m * i + m * gap
full_step t i m gap rest cap h pos =
    rw (no_gap gap) at (bound_step m t i m 0 gap rest (omega (arith, mul-le-mul_right i cap)) h pos)

empty_step :
    (t i m gap rest : ℕ) → t ≤ m → rest * i ≤ t * i + m * gap → (0 + rest) * i ≤ m * i + m * gap
empty_step t i m gap rest cap h = grind (arith, mul-le-mul_right i cap)

-- In any state, from the first connection of a period on.
period_budget :
    (first final : ℕ) (times : List ℕ) (rl : RateLimiter)
    → IsTimeline first final times
    → admitted (first ∷ times) rl * rl.interval ≤ rl.max * rl.interval + rl.max * (final - first)
unfolding admitted allow
period_budget first final times rl h =
    let t = refilled first rl in
    let cap = refilled_cap first rl in
    elim (Bool-cases (ltb 0 t)) [
      | inl some_left ↦
          let ih = admitted_budget final times (record rl { tokens = t - 1; last = first }) h in
          rw some_left (full_step t rl.interval rl.max (final - first) _ cap ih (ground arith))
      | inr empty ↦
          let ih = admitted_budget final times (record rl { tokens = t; last = first }) h in
          rw empty (empty_step t rl.interval rl.max (final - first) _ cap ih)
    ]

-- Whatever came in before: of the connections in any period, the number of those that are admitted,
-- times the interval, is at most the maximum times the interval and the length of the period. So at
-- most the maximum are admitted at once, and beyond those at most that many for each interval. The
-- period begins with a connection, and its times do not fall.
pub admitted_le :
    (start first final max interval : ℕ) (before times : List ℕ)
    → IsTimeline first final times
    → admitted (first ∷ times) (after before (new_rate_limiter start max interval)) * interval
      ≤ max * interval + max * (final - first)
admitted_le start first final max interval before times h =
    let rl = after before (new_rate_limiter start max interval) in
    let (m, i) = fixed-after before (new_rate_limiter start max interval) in
    rw (m, i) at (period_budget first final times rl h)

-- Each of the times comes sooner after the one before it than it takes to gain a token.
abbrev pub IsFrequent : ℕ → ℕ → ℕ → List ℕ → Type 0
IsFrequent max interval last [] = Unit
IsFrequent max interval last (now ∷ times) =
    (max * (now - last) < interval) × IsFrequent max interval now times

quotient_zero : (a b : ℕ) → a < b → a / b ≡ 0
quotient_zero a b h = grind arith

refilled_frequent :
    (now : ℕ) (rl : RateLimiter)
    → rl.max * (now - rl.last) < rl.interval
    → refilled now rl ≤ rl.tokens
unfolding refilled
refilled_frequent now rl h =
    omega (arith, refilled_sum now rl, quotient_zero (rl.max * (now - rl.last)) rl.interval h)

starves :
    (times : List ℕ) (rl : RateLimiter)
    → IsFrequent rl.max rl.interval rl.last times
    → admitted times rl ≤ rl.tokens
unfolding admitted allow
starves [] rl h = omega arith
starves (now ∷ times) rl (h, hs) =
    let t = refilled now rl in
    let few = refilled_frequent now rl h in
    elim (Bool-cases (ltb 0 t)) [
      | inl some_left ↦
          let ih = starves times (record rl { tokens = t - 1; last = now }) hs in
          rw some_left (ground (arith, few, ih))
      | inr empty ↦
          let ih = starves times (record rl { tokens = t; last = now }) hs in
          rw empty (omega (arith, few, ih))
    ]

-- If the connections come in so often that no gap between two of them suffices for a token, then a new
-- limiter admits no more than its maximum of them altogether, however many there are and however long
-- they go on: every call starts the wait for the next token anew.
pub admitted_frequent :
    (start max interval : ℕ) (times : List ℕ)
    → IsFrequent max interval start times
    → admitted times (new_rate_limiter start max interval) ≤ max
admitted_frequent start max interval times h = starves times (new_rate_limiter start max interval) h
