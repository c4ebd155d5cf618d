-- ===== src/TimeSeries/Tests.antt =====
-- Time series at concrete samples. The values are numbers here.
use vole.Prelude.{
  ℕ, ◌+◌, ◌/◌, ◌-◌, ◌^◌, ◌≡◌, refl, [], ◌∷◌, some, none, if◌then◌else◌, ltb, arith, inr,
}
use vole.Prelude.Int.{ℤ, pos}
use vole.TimeSeries.{Floats, TimeSeries, add, eq_ℤ, downsample}
use vole.TimeSeries.Sorted.{Sorted, value_at, value_at-add}
use vole.TimeSeries.Buckets.{bucketed, downsample-bucketed}
use vole.TimeSeries.Overflow.{downsample-none}

instance numbers : Floats ℕ
numbers = record {
  zero_value = 0;
  infinity = 1000;
  minus_infinity = 0;
  plus = λ a b. a + b;
  divided = λ a b. a / b;
  less = ltb;
  of_count = λ n. n;
}

abbrev metrics : TimeSeries ℕ
metrics = record {
  samples =
      record { timestamp = pos 10; value = 4 }
      ∷ record { timestamp = pos 11; value = 6 }
      ∷ record { timestamp = pos 25; value = 9 }
      ∷ [];
  labels = [];
}

metrics-Sorted : Sorted metrics.samples
metrics-Sorted = ((refl, (refl, tt)), ((refl, tt), (tt, tt)))

value_at-add_example :
    Sorted (add (pos 11) 7 metrics).samples
    × ((u : ℤ)
        → value_at u (add (pos 11) 7 metrics).samples
          ≡ (if eq_ℤ (pos 11) u then some 7 else value_at u metrics.samples))
value_at-add_example = value_at-add (pos 11) 7 metrics metrics-Sorted

downsample-bucketed_example :
    downsample 3 metrics (pos 0) (pos 30) (pos 10) (b's' ∷ b'u' ∷ b'm' ∷ [])
    ≡ some (bucketed 3 metrics.samples (pos 0) 10 (b's' ∷ b'u' ∷ b'm' ∷ []))
downsample-bucketed_example =
    downsample-bucketed 3 3 metrics (pos 0) (pos 30) 10 (b's' ∷ b'u' ∷ b'm' ∷ []) metrics-Sorted
      (omega arith) (omega arith) (omega arith, inr (omega arith)) (omega arith) (omega arith)

downsample-none_example : downsample 50 metrics (pos 0) (pos (2 ^ 63 - 1)) (pos 2) [] ≡ none
downsample-none_example = downsample-none 50 metrics (pos 0) [] (refl, omega arith) (omega arith)
