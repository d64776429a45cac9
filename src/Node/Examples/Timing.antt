-- ===== src/Node/Examples/Timing.antt =====
-- Connections that come in, and attempts that fail.
use magic_tun.Base.{ℕ, ◌+◌, ◌-◌, ◌*◌, ◌≤◌, true, false, List, [], ◌∷◌, ◌++◌, arith, replicate}
use magic_tun.Node.RateLimiter.{new_rate_limiter, admitted, after, admitted_le, admitted_frequent}
use magic_tun.Node.Backoff.{
  Attempt, fails, succeeds, second, bootstrap_max_backoff, reconnect_max_backoff, bootstrap_delays,
  reconnect_delays, backoffs, AreJittered, delays_lem,
}

-- Ten connections in a second, and then one each 50 milliseconds
abbrev arrivals : List ℕ
arrivals = replicate 12 0 ++ (50000000 ∷ 100000000 ∷ [])

-- The first second after those
abbrev later_arrivals : List ℕ
later_arrivals = replicate 11 2000000000 ++ (2500000000 ∷ 3000000000 ∷ [])

admitted_le_example :
    admitted (2000000000 ∷ later_arrivals) (after arrivals (new_rate_limiter 0 10 1000000000))
      * 1000000000
    ≤ 10 * 1000000000 + 10 * (3000000000 - 2000000000)
admitted_le_example =
    admitted_le 0 2000000000 3000000000 10 1000000000 arrivals later_arrivals (omega arith)

admitted_frequent_example : admitted arrivals (new_rate_limiter 0 10 1000000000) ≤ 10
admitted_frequent_example = admitted_frequent 0 10 1000000000 arrivals (omega arith)

abbrev attempts : List Attempt
attempts = fails ∷ fails ∷ succeeds ∷ fails ∷ []

delays_lem_example :
    AreJittered
      (backoffs false bootstrap_max_backoff 0 attempts)
      (bootstrap_delays (λ i k. k - 1) 0 second attempts)
    × AreJittered
        (backoffs true reconnect_max_backoff 0 attempts)
        (reconnect_delays (λ i k. k - 1) 0 second attempts)
delays_lem_example = delays_lem (λ i k. k - 1) attempts (λ i k h. omega arith)
