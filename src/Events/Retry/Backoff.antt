-- ===== src/Events/Retry/Backoff.antt =====
-- The exponential backoff of events/retry.go on 64-bit durations. A base of 2 ^ 48 nanoseconds is over
-- three days.
use dfl.Base.{ℕ, suc, ◌-◌, ◌*◌, ◌^◌, ◌<◌, ◌≤◌, ◌≡◌, sym, ap, ◌∙◌, arith}
use native.Mathlib.Nat.{mod-eq_of_lt, mul-le-mul_left, pow-le-pow_right, pow-suc}
use dfl.Events.Retry.{Duration, clamp_attempt, exponential_backoff}

clamp_range : (n : ℕ) → (1 ≤ clamp_attempt n) × (clamp_attempt n ≤ 16)
clamp_range n = ground arith

next_exponent : (n : ℕ) → 1 ≤ n → n < 16 → clamp_attempt (suc n) - 1 ≡ suc (clamp_attempt n - 1)
next_exponent n low high = ground arith

clamp_top : (n : ℕ) → 16 ≤ n → clamp_attempt n ≡ clamp_attempt 16
clamp_top n high = ground arith

twice : (b x : ℕ) → b * (x * 2) ≡ 2 * (b * x)
twice b x = omega arith

-- The factor is at least 1 and at most 2 ^ 15.
factor_range : (c : ℕ) → c ≤ 16 → (1 ≤ 2 ^ (c - 1)) × (2 ^ (c - 1) ≤ 32768)
factor_range c h = (
  pow-le-pow_right {n = 2} (omega arith) {i = 0} {j = c - 1} (omega arith),
  pow-le-pow_right {n = 2} (omega arith) {i = c - 1} {j = 15} (omega arith),
)

module _ (base : Duration) (small : base < 281474976710656) where
  product_range :
      (n : ℕ)
      → (base ≤ base * 2 ^ (clamp_attempt n - 1))
        × (base * 2 ^ (clamp_attempt n - 1) < 9223372036854775808)
  product_range n =
      let (low, high) = factor_range (clamp_attempt n) (clamp_range n).1 in
      let below = mul-le-mul_left base low in
      let above = mul-le-mul_left base high in (omega (arith, below), omega (arith, above))

  pub backoff-product : (n : ℕ) → exponential_backoff base n ≡ base * 2 ^ (clamp_attempt n - 1)
  unfolding exponential_backoff
  backoff-product n = mod-eq_of_lt (omega (arith, (product_range n).1))

  -- With a base below 2 ^ 48 nanoseconds, no wait is shorter than the base or overflows to a negative
  -- duration; the wait doubles from each of the first fifteen attempts to the next, and stays the
  -- same from the sixteenth on.
  pub exponential_backoff_lem :
      (n : ℕ)
      → (base ≤ exponential_backoff base n)
        × (exponential_backoff base n < 9223372036854775808)
        × (1 ≤ n → n < 16 → exponential_backoff base (suc n) ≡ 2 * exponential_backoff base n)
        × (16 ≤ n → exponential_backoff base n ≡ exponential_backoff base 16)
  exponential_backoff_lem n = (
    omega (arith, backoff-product n, (product_range n).0),
    omega (arith, backoff-product n, (product_range n).1),
    λ low high.
        backoff-product (suc n)
        ∙ ap (λ k. base * 2 ^ k) (next_exponent n low high)
        ∙ ap (λ x. base * x) (pow-suc 2 (clamp_attempt n - 1))
        ∙ twice base (2 ^ (clamp_attempt n - 1))
        ∙ ap (λ d. 2 * d) (sym (backoff-product n)),
    λ high.
        backoff-product n
        ∙ ap (λ c. base * 2 ^ (c - 1)) (clamp_top n high)
        ∙ sym (backoff-product 16),
  )
