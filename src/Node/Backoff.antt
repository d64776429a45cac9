-- ===== src/Node/Backoff.antt =====
-- The waits between attempts to connect: jitterDuration and the loops of bootstrapPeer and reconnectPeer
-- of node/node.go. Durations are in nanoseconds. `rand i k` is what the i-th call of rand.Int63n(k)
-- returns.
use Prim.Native.Nat.{min}
use native.Mathlib.Nat.{pow-succ'}
use magic_tun.Base.{
  ℕ, suc, ◌+◌, ◌*◌, ◌/◌, ◌^◌, ◌≤◌, ◌<◌, ◌≡◌, Bool, true, false, List, [], ◌∷◌, arith, if◌then◌else◌,
  ltb, eqb,
}

abbrev pub second : ℕ
second = 1000000000

abbrev pub bootstrap_max_backoff : ℕ
bootstrap_max_backoff = 30 * second

abbrev pub reconnect_max_backoff : ℕ
reconnect_max_backoff = 60 * second

-- jitterDuration, of a duration that is not negative
unfoldable pub jitter_duration : (ℕ → ℕ) → ℕ → ℕ
jitter_duration rand base =
    let half = base / 2 in
    if eqb base 0 then 0 else if eqb half 0 then base else half + rand (half + 1)

-- `backoff *= 2; if backoff > maxBackoff { backoff = maxBackoff }`
unfoldable pub next_backoff : ℕ → ℕ → ℕ
next_backoff max_backoff backoff =
    if ltb max_backoff (backoff * 2) then max_backoff else backoff * 2

-- An attempt fails where the code takes its `continue`: at the dial, and in bootstrapPeer also at the
-- first read or at the identification. A reconnection that succeeds is lost again later.
pub data Attempt : Type 0 where
  fails succeeds : Attempt

-- The waits of bootstrapPeer, from the `i`-th draw on; it ends with the first success.
unfoldable pub bootstrap_delays : (ℕ → ℕ → ℕ) → ℕ → ℕ → List Attempt → List ℕ
bootstrap_delays rand i backoff [] = []
bootstrap_delays rand i backoff (succeeds ∷ attempts) = []
bootstrap_delays rand i backoff (fails ∷ attempts) =
    jitter_duration (rand i) backoff
    ∷ bootstrap_delays rand (i + 1) (next_backoff bootstrap_max_backoff backoff) attempts

-- The waits of reconnectPeer, which begins again after a success
unfoldable pub reconnect_delays : (ℕ → ℕ → ℕ) → ℕ → ℕ → List Attempt → List ℕ
reconnect_delays rand i backoff [] = []
reconnect_delays rand i backoff (succeeds ∷ attempts) = reconnect_delays rand i second attempts
reconnect_delays rand i backoff (fails ∷ attempts) =
    jitter_duration (rand i) backoff
    ∷ reconnect_delays rand (i + 1) (next_backoff reconnect_max_backoff backoff) attempts

-- A duration is at least half of the other, rounded down, and at most the whole.
abbrev pub IsJittered : ℕ → ℕ → Type 0
IsJittered base d = (base / 2 ≤ d) × (d ≤ base)

jitter_duration_bounds :
    (rand : ℕ → ℕ) (base : ℕ)
    → ((k : ℕ) → 0 < k → rand k < k)
    → IsJittered base (jitter_duration rand base)
unfolding jitter_duration
jitter_duration_bounds rand base h =
    let draw : rand (base / 2 + 1) < base / 2 + 1 = h (base / 2 + 1) (omega arith) in ground arith

-- The backoff before the attempt after `k` failures in a row.
abbrev pub doubled : ℕ → ℕ → ℕ
doubled cap k = min (2 ^ k * second) cap

next_backoff-doubled : (cap k : ℕ) → next_backoff cap (doubled cap k) ≡ doubled cap (suc k)
unfolding next_backoff
next_backoff-doubled cap k = ground (arith, pow-succ' 2 k)

-- The ideal waits, without chance: 1 s, doubled with each failure, at most the cap; they begin again
-- after a success if the loop goes on then.
abbrev pub backoffs : Bool → ℕ → ℕ → List Attempt → List ℕ
backoffs restarts cap k [] = []
backoffs restarts cap k (succeeds ∷ attempts) =
    let rest = backoffs restarts cap 0 attempts in if restarts then rest else []
backoffs restarts cap k (fails ∷ attempts) = doubled cap k ∷ backoffs restarts cap (suc k) attempts

-- As many waits as ideal ones, each between the half and the whole of its ideal one.
abbrev pub AreJittered : List ℕ → List ℕ → Type 0
AreJittered [] [] = Unit
AreJittered [] (d ∷ delays) = ⊥
AreJittered (b ∷ bases) [] = ⊥
AreJittered (b ∷ bases) (d ∷ delays) = IsJittered b d × AreJittered bases delays

-- What rand.Int63n is documented to return.
abbrev pub IsRand : (ℕ → ℕ → ℕ) → Type 0
IsRand rand = (i k : ℕ) → 0 < k → rand i k < k

bootstrap_delays_from :
    (rand : ℕ → ℕ → ℕ) (i k : ℕ) (attempts : List Attempt)
    → IsRand rand
    → AreJittered
        (backoffs false bootstrap_max_backoff k attempts)
        (bootstrap_delays rand i (doubled bootstrap_max_backoff k) attempts)
unfolding bootstrap_delays
bootstrap_delays_from rand i k [] h = tt
bootstrap_delays_from rand i k (succeeds ∷ attempts) h = tt
bootstrap_delays_from rand i k (fails ∷ attempts) h = (
  jitter_duration_bounds (rand i) (doubled bootstrap_max_backoff k) (h i),
  rw (next_backoff-doubled bootstrap_max_backoff k)
      (bootstrap_delays_from rand (i + 1) (suc k) attempts h),
)

reconnect_delays_from :
    (rand : ℕ → ℕ → ℕ) (i k : ℕ) (attempts : List Attempt)
    → IsRand rand
    → AreJittered
        (backoffs true reconnect_max_backoff k attempts)
        (reconnect_delays rand i (doubled reconnect_max_backoff k) attempts)
unfolding reconnect_delays
reconnect_delays_from rand i k [] h = tt
reconnect_delays_from rand i k (succeeds ∷ attempts) h = reconnect_delays_from rand i 0 attempts h
reconnect_delays_from rand i k (fails ∷ attempts) h = (
  jitter_duration_bounds (rand i) (doubled reconnect_max_backoff k) (h i),
  rw (next_backoff-doubled reconnect_max_backoff k)
      (reconnect_delays_from rand (i + 1) (suc k) attempts h),
)

-- Whatever the outcomes of the attempts and the draws of chance: before the attempt that follows `k`
-- failures in a row, bootstrapPeer waits between half and the whole of the smaller of 2^(k - 1) and 30
-- seconds, and stops with the first success; reconnectPeer does so with 60 seconds, and after a success
-- that is lost again it begins anew with 1 second. There is no other wait.
pub delays_lem :
    (rand : ℕ → ℕ → ℕ) (attempts : List Attempt)
    → IsRand rand
    → AreJittered
        (backoffs false bootstrap_max_backoff 0 attempts)
        (bootstrap_delays rand 0 second attempts)
      × AreJittered
          (backoffs true reconnect_max_backoff 0 attempts)
          (reconnect_delays rand 0 second attempts)
delays_lem rand attempts h =
    (bootstrap_delays_from rand 0 0 attempts h, reconnect_delays_from rand 0 0 attempts h)
