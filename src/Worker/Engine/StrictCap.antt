-- ===== src/Worker/Engine/StrictCap.antt =====
-- The strict lane's share of the concurrency: `strictCapForPercentage`.
use anclax.Prelude.{ℕ, ◌+◌, ◌*◌, ◌^◌, ◌≤◌, ◌<◌, ◌≡◌, refl, arith}
use anclax.Worker.Config.{strict_cap_for_percentage}

-- Whatever the 64-bit product wraps to.
strict_cap-le-concurrency :
    (concurrency percentage : ℕ) → strict_cap_for_percentage concurrency percentage ≤ concurrency
unfolding strict_cap_for_percentage
strict_cap-le-concurrency concurrency percentage = ground arith

product_upper : (c p : ℕ) → p ≤ 100 → c * p ≤ c * 100
product_upper c p h = grind arith

product_lower : (c p : ℕ) → 0 < c → 0 < p → 0 < c * p
product_lower c p h k = grind arith

product_at :
    (c p : ℕ) → p ≤ 100 → (c ≡ 0 → c * p ≡ 0) × (p ≡ 0 → c * p ≡ 0) × (100 ≤ p → c * p ≡ c * 100)
product_at c p h = (
  λ e. rw e (omega arith),
  λ e. rw e (omega arith),
  λ k. let e : p ≡ 100 = omega arith in rw e refl,
)

strict_cap_rounded :
    (concurrency percentage : ℕ)
    → percentage ≤ 100
    → concurrency * 100 + 99 < 2 ^ 63
    → let cap = strict_cap_for_percentage concurrency percentage in
      (concurrency * percentage ≤ 100 * cap) × (100 * cap < concurrency * percentage + 100)
unfolding strict_cap_for_percentage
strict_cap_rounded c p h fits =
    ground (arith, product_upper c p h, product_lower c p, product_at c p h)

-- Where the percentage is at most 100, and a hundred times the concurrency fits an int64 with 99 to
-- spare, the cap is the percentage of the concurrency, rounded up: of the numbers whose hundredfold
-- reaches the product it is the least, and it is at most the concurrency.
pub strict_cap_ceiling :
    (concurrency percentage : ℕ)
    → percentage ≤ 100
    → concurrency * 100 + 99 < 2 ^ 63
    → let cap = strict_cap_for_percentage concurrency percentage in
      (concurrency * percentage ≤ 100 * cap)
      × (100 * cap < concurrency * percentage + 100)
      × ((n : ℕ) → concurrency * percentage ≤ 100 * n → cap ≤ n)
      × (cap ≤ concurrency)
strict_cap_ceiling c p h fits =
    let (upper, lower) = strict_cap_rounded c p h fits in
    (upper, lower, λ n k. omega arith, strict_cap-le-concurrency c p)
