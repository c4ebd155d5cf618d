-- ===== src/Prelude/Wrap.antt =====
-- Indices that go round a buffer: `(h + i) % n`.
use Prim.Native.Nat.{ℕ, ◌+◌, ◌-◌, ◌%◌, ◌<◌, ◌≤◌}
use mathlib.Core.Path.{◌≡◌}
use mathlib.Core.Logic.{◌≢◌, ◌⊎◌, inl, inr}
use native.Mathlib.Nat.{mod-eq_of_lt, mod-eq-sub-mod}
use native.Mathlib.Decide.{dec_lt}
use native.Mathlib.Omega.{arith}

-- Below two rounds the index is the sum, or the sum less one round.
pub wrap_cases :
    (h i n : ℕ)
    → h < n
    → i ≤ n
    → ((h + i < n) × ((h + i) % n ≡ h + i)) ⊎ ((n ≤ h + i) × ((h + i) % n + n ≡ h + i))
wrap_cases h i n p q = elim (dec_lt (h + i) n) [
  | yes r ↦ inl (r, mod-eq_of_lt r)
  | no r ↦ inr (
    omega arith,
    omega (
      arith,
      mod-eq-sub-mod {n = h + i} {m = n} (omega arith),
      mod-eq_of_lt {n = h + i - n} {m = n} (omega arith),
    ),
  )
]

pub wrap-lt : (h i n : ℕ) → h < n → i ≤ n → (h + i) % n < n
wrap-lt h i n p q = omega (arith, wrap_cases h i n p q)

pub wrap-ne : (h i j n : ℕ) → h < n → i < n → j < n → i ≢ j → (h + i) % n ≢ (h + j) % n
wrap-ne h i j n p q r s =
    omega (arith, wrap_cases h i n p (omega arith), wrap_cases h j n p (omega arith))

-- From the index one before `h`, the next steps are those from `h`.
pub wrap_back : (h j n : ℕ) → h < n → j < n → ((h + n - 1) % n + (j + 1)) % n ≡ (h + j) % n
wrap_back h j n p q = rw sum (
    omega (
      arith,
      wrap_cases h (n - 1) n p (omega arith),
      wrap_cases ((h + (n - 1)) % n) (j + 1) n (omega arith) (omega arith),
      wrap_cases h j n p (omega arith),
    ))
  where
    sum : h + n - 1 ≡ h + (n - 1)
    sum = omega arith

-- From the index one after `h`.
pub wrap_forward : (h j n : ℕ) → h < n → j < n → ((h + 1) % n + j) % n ≡ (h + (j + 1)) % n
wrap_forward h j n p q = omega (
  arith,
  wrap_cases h 1 n p (omega arith),
  wrap_cases ((h + 1) % n) j n (omega arith) (omega arith),
  wrap_cases h (j + 1) n p (omega arith),
)
