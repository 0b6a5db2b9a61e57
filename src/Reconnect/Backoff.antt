-- ===== src/Reconnect/Backoff.antt =====
-- nextBackoff and jittered of internal/homeconnect/reconnect.go.
use go_homeconnect2mqtt.Base.{ℕ, zero, suc, ◌+◌, ◌^◌, ◌<◌, ◌≡◌, arith}
use go_homeconnect2mqtt.Base.Int.{
  ℤ, pos, ◌+ℤ◌, ◌-ℤ◌, ◌≤ℤ◌, ◌<ℤ◌, ◌+64◌, ◌-64◌, +64_lem, -64_lem, +ℤ_parts, -ℤ_parts,
}
use go_homeconnect2mqtt.Reconnect.{ReconnectConfig, next_backoff, jittered}
use Prim.Native.Nat.{min}

abbrev pub nanos_limit : ℕ
nanos_limit = 2 ^ 62

double_lem : (n : ℕ) → n < nanos_limit → pos n +64 pos n ≡ pos (n + n)
unfolding ◌+64◌ ◌+ℤ◌
double_lem n h = ground (arith, +64_lem (pos n) (pos n))

-- Within the range in which doubling fits a duration, the next backoff is twice the last one, cut off at the maximum.
pub next_backoff_lem :
    (c : ReconnectConfig) (n top : ℕ)
    → c.max_backoff ≡ pos top
    → n < nanos_limit
    → next_backoff c (pos n) ≡ pos (min (n + n) top)
unfolding next_backoff
next_backoff_lem c n top e h = rw (double_lem n h) (ground arith)

-- rand.Int63n: for a positive bound, a number from 0 up to the bound.
abbrev pub IsRandom : (ℤ → ℤ) → Type 0
IsRandom f = (n : ℤ) → pos 0 <ℤ n → (pos 0 ≤ℤ f n) × (f n <ℤ n)

-- No wrap-around happens to the sum of a backoff and a jitter in range.
jitter_sum :
    (n j : ℕ) (v : ℤ)
    → pos 0 ≤ℤ v
    → v <ℤ pos (j + j)
    → n < nanos_limit
    → j < nanos_limit
    → pos n +64 (v -64 pos j) ≡ pos n +ℤ (v -ℤ pos j)
jitter_sum n j v lo hi hn hj =
    let inner : v -64 pos j ≡ v -ℤ pos j =
      -64_lem v (pos j) (omega (arith, -ℤ_parts v (pos j)), omega (arith, -ℤ_parts v (pos j))) in
    rw inner (
      +64_lem (pos n) (v -ℤ pos j) (
        omega (arith, -ℤ_parts v (pos j), +ℤ_parts (pos n) (v -ℤ pos j)),
        omega (arith, -ℤ_parts v (pos j), +ℤ_parts (pos n) (v -ℤ pos j)),
      ))

-- A wait is never negative and lies within the jitter of the backoff.
pub jittered_bounds :
    (c : ReconnectConfig) (rand_int : ℤ → ℤ) (n j : ℕ)
    → IsRandom rand_int
    → c.jitter ≡ pos j
    → n < nanos_limit
    → j < nanos_limit
    → (pos 0 ≤ℤ jittered c rand_int (pos n))
      × (pos n ≤ℤ jittered c rand_int (pos n) +ℤ pos j)
      × (jittered c rand_int (pos n) ≤ℤ pos n +ℤ pos j)
unfolding jittered
jittered_bounds c rand_int n zero r e hn hj = rw e (omega (arith, +ℤ_parts (pos n) (pos 0)))
jittered_bounds c rand_int n (suc j) r e hn hj =
    let w = r (pos (suc j + suc j)) (omega arith) in
    let v = rand_int (pos (suc j + suc j)) in
    rw (e, double_lem (suc j) hj, jitter_sum n (suc j) v w.0 w.1 hn hj)
      (ground (
        arith,
        w,
        -ℤ_parts v (pos (suc j)),
        +ℤ_parts (pos n) (v -ℤ pos (suc j)),
        +ℤ_parts (pos n +ℤ (v -ℤ pos (suc j))) (pos (suc j)),
        +ℤ_parts (pos 0) (pos (suc j)),
        +ℤ_parts (pos n) (pos (suc j)),
      ))
