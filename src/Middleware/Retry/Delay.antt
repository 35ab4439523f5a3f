-- ===== src/Middleware/Retry/Delay.antt =====
-- How long a retry waits (secondsToDelay of middleware_retry.go and its conversion to a Duration).
use native.Mathlib.Nat.{pow-le-pow_left, mul-le-mul}
use go_workers.Prelude.{ℕ, ◌+◌, ◌*◌, ◌-◌, ◌^◌, ◌≤◌, ◌<◌, ◌≡◌, arith}
use go_workers.Prelude.Int.{pos, negsuc, ◌+ℤ◌, ◌*ℤ◌, wrap64, wrap64_pos}
use go_workers.External.Platform.{Platform, Lawful}
use go_workers.Middleware.Retry.{seconds_to_delay, seconds_duration}

pos-+ℤ : (a b : ℕ) → pos a +ℤ pos b ≡ pos (a + b)
unfolding ◌+ℤ◌
pos-+ℤ a b = ground arith

pos-*ℤ : (a b : ℕ) → pos a *ℤ pos b ≡ pos (a * b)
unfolding ◌*ℤ◌
pos-*ℤ a b = ground arith

fourth_bound : (c m : ℕ) → c ≤ m → c ^ 4 ≤ m ^ 4
fourth_bound c m h = pow-le-pow_left h 4

random_bound : (c r : ℕ) → c ≤ 9741 → r < 30 → r * (c + 1) ≤ 300000
random_bound c r h k = grind arith

total :
    (k c r : ℕ)
    → k ≤ 2 ^ 53
    → c ≤ 9741
    → r < 30
    → wrap64 (pos k +ℤ pos 15 +ℤ wrap64 (pos r *ℤ wrap64 (pos c +ℤ pos 1)))
      ≡ pos (k + 15 + r * (c + 1))
total k c r hk hc hr =
    rw
      (
        pos-+ℤ c 1,
        wrap64_pos (c + 1) (omega arith),
        pos-*ℤ r (c + 1),
        wrap64_pos (r * (c + 1)) (omega (arith, random_bound c r hc hr)),
        pos-+ℤ k 15,
        pos-+ℤ (k + 15) (r * (c + 1)),
      )
      (wrap64_pos _ (omega (arith, random_bound c r hc hr)))

-- For every count up to 9741 the delay is count ^ 4 + 15 seconds and the random part, exactly.
pub seconds_to_delay_exact :
    {p : Platform} (l : Lawful p) (c r : ℕ)
    → c ≤ 9741
    → r < 30
    → seconds_to_delay p (pos c) r ≡ pos (c ^ 4 + 15 + r * (c + 1))
unfolding seconds_to_delay
seconds_to_delay_exact l c r hc hr =
    rw (l.pow_exact c 4 (omega (arith, fourth_bound c 9741 hc)))
      (total (c ^ 4) c r (omega (arith, fourth_bound c 9741 hc)) hc hr)

random_part : (c r m : ℕ) → c ≤ m → r < 30 → r * (c + 1) ≤ 29 * (m + 1)
random_part c r m hc hr = mul-le-mul (omega arith) (omega arith)

-- Up to a count of 309 the wait is that many seconds in nanoseconds: the product does not wrap.
pub wait_exact :
    {p : Platform} (l : Lawful p) (c r : ℕ)
    → c ≤ 309
    → r < 30
    → seconds_duration (seconds_to_delay p (pos c) r) ≡ pos ((c ^ 4 + 15 + r * (c + 1)) * 10 ^ 9)
unfolding seconds_duration
wait_exact l c r hc hr =
    rw (seconds_to_delay_exact l c r (omega arith) hr, pos-*ℤ (c ^ 4 + 15 + r * (c + 1)) (10 ^ 9))
      (wrap64_pos _ (omega (arith, fourth_bound c 309 hc, random_part c r 309 hc hr)))

wrapped : (n : ℕ) → 2 ^ 63 ≤ n → n < 2 ^ 64 → (k : ℕ) × (wrap64 (pos n) ≡ negsuc k)
unfolding wrap64
wrapped n h k = (2 ^ 64 - 1 - n, ground arith)

-- From 310 to 368 it does: the Duration is negative, and the retry is due before now.
pub wait_overflows :
    {p : Platform} (l : Lawful p) (c r : ℕ)
    → 310 ≤ c
    → c ≤ 368
    → r < 30
    → (k : ℕ) × (seconds_duration (seconds_to_delay p (pos c) r) ≡ negsuc k)
unfolding seconds_duration
wait_overflows l c r lo hc hr =
    rw (seconds_to_delay_exact l c r (omega arith) hr, pos-*ℤ (c ^ 4 + 15 + r * (c + 1)) (10 ^ 9))
      (wrapped _ (omega (arith, fourth_bound 310 c lo))
        (omega (arith, fourth_bound c 368 hc, random_part c r 368 hc hr)))
