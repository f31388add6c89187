-- ===== src/Prelude/Sums.antt =====
-- Sums of a function over the numbers below a bound.
use Prim.Native.Nat.{ℕ, zero, suc, ◌+◌, ◌≤◌, ◌<◌}
use mathlib.Core.Path.{◌≡◌, refl, ap}
use mathlib.Core.Logic.{◌≢◌, inl, inr}
use native.Mathlib.Omega.{arith}
use os_labs.Prelude.Tests.{◌==◌, Bool-cases}

unfoldable pub sum : ℕ → (ℕ → ℕ) → ℕ
sum zero f = 0
sum (suc n) f = f n + sum n f

pub sum-same : (n : ℕ) (f g : ℕ → ℕ) → ((j : ℕ) → j < n → g j ≡ f j) → sum n g ≡ sum n f
unfolding sum
sum-same zero f g h = refl
sum-same (suc n) f g h =
    omega (arith, h n (omega arith), sum-same n f g (λ j l. h j (omega (arith, l))))

-- Where one value changes, the sum changes by it.
pub sum-change :
    (n : ℕ) (f g : ℕ → ℕ) (i : ℕ)
    → i < n
    → ((j : ℕ) → j ≢ i → g j ≡ f j)
    → sum n g + f i ≡ sum n f + g i
unfolding sum
sum-change zero f g i h o = absurd (omega (arith, h))
sum-change (suc n) f g i h o = elim (Bool-cases (i == n)) [
  | inl e ↦
      let same : i ≡ n = ground (arith, e) in
      let rest = sum-same n f g (λ j l. o j (λ z. omega (arith, l, z, same))) in
      omega (arith, rest, ap f same, ap g same)
  | inr e ↦
      let below : i < n = ground (arith, e, h) in
      let last : g n ≡ f n = o n (λ z. ground (arith, e, z)) in
      omega (arith, last, sum-change n f g i below o)
]

-- One value is not more than the sum.
pub sum-at : (n : ℕ) (f : ℕ → ℕ) (i : ℕ) → i < n → f i ≤ sum n f
unfolding sum
sum-at zero f i h = absurd (omega (arith, h))
sum-at (suc n) f i h = elim (Bool-cases (i == n)) [
  | inl e ↦ let same : i ≡ n = ground (arith, e) in omega (arith, ap f same)
  | inr e ↦ let below : i < n = ground (arith, e, h) in omega (arith, sum-at n f i below)
]

-- Two values are not more than the sum.
pub sum-two : (n : ℕ) (f : ℕ → ℕ) (i j : ℕ) → i < n → j < n → i ≢ j → f i + f j ≤ sum n f
unfolding sum
sum-two zero f i j h k ne = absurd (omega (arith, h))
sum-two (suc n) f i j h k ne = elim (Bool-cases (i == n)) [
  | inl e ↦
      let same : i ≡ n = ground (arith, e) in
      let below : j < n = omega (arith, k, ne, same) in omega (arith, ap f same, sum-at n f j below)
  | inr e ↦ elim (Bool-cases (j == n)) [
    | inl e' ↦
        let same : j ≡ n = ground (arith, e') in
        let below : i < n = ground (arith, e, h) in omega (arith, ap f same, sum-at n f i below)
    | inr e' ↦
        let bi : i < n = ground (arith, e, h) in
        let bj : j < n = ground (arith, e', k) in omega (arith, sum-two n f i j bi bj ne)
  ]
]

-- A sum that is not zero has a value that is not zero.
pub sum-positive : (n : ℕ) (f : ℕ → ℕ) → 0 < sum n f → (i : ℕ) × (i < n) × (0 < f i)
unfolding sum
sum-positive zero f h = absurd (omega (arith, h))
sum-positive (suc n) f h = elim (Bool-cases (f n == 0)) [
  | inl e ↦
      let z : f n ≡ 0 = ground (arith, e) in
      let (i, l, p) = sum-positive n f (omega (arith, h, z)) in (i, omega (arith, l), p)
  | inr e ↦ (n, omega arith, ground (arith, e))
]

pub sum-zero : (n : ℕ) → sum n (λ j. 0) ≡ 0
unfolding sum
sum-zero zero = refl
sum-zero (suc n) = omega (arith, sum-zero n)
