-- ===== src/TimeSeries/Overflow.antt =====
-- `Downsample` up to the largest timestamp: the start of the bucket wraps round and never gets there.
use vole.Prelude.{
  ℕ, zero, suc, ◌+◌, ◌-◌, ◌^◌, ◌%◌, ◌<◌, ◌≤◌, ◌≡◌, refl, true, false, none, length, ltb, ◌==◌,
  arith, Bool-cases, inl, inr,
}
use native.Mathlib.Nat.{mod-eq_of_lt}
use vole.Prelude.Text.{Text}
use vole.Prelude.Int.{ℤ, pos, negsuc, ltb_ℤ, ◌+ℤ◌}
use vole.TimeSeries.{Floats, TimeSeries, wrap64, bucket_loop, downsample}

-- An even 64-bit number.
abbrev pub IsEven : ℤ → Type 0
IsEven (pos n) = (n % 2 ≡ 0) × (n < 2 ^ 63)
IsEven (negsuc n) = (n % 2 ≡ 1) × (n < 2 ^ 63)

wrap64-pos : (n : ℕ) → n % 2 ≡ 0 → n ≤ 2 ^ 63 → IsEven (wrap64 (pos n))
unfolding wrap64
wrap64-pos n e h =
    let small : n % 2 ^ 64 ≡ n = mod-eq_of_lt (omega arith) in
    elim (Bool-cases (ltb n (2 ^ 63))) [
      | inl below ↦ rw (small, below) (e, ground arith)
      | inr above ↦ rw (small, above) (ground arith, ground arith)
    ]

wrap64-negsuc : (n : ℕ) → n % 2 ≡ 1 → n < 2 ^ 63 → IsEven (wrap64 (negsuc n))
unfolding wrap64
wrap64-negsuc n e h =
    let small : n % 2 ^ 64 ≡ n = mod-eq_of_lt (omega arith) in
    let below : ltb n (2 ^ 63) ≡ true = ground arith in rw (small, below) (e, h)

wrap64-IsEven : (i : ℤ) → IsEven i → IsEven (wrap64 (i +ℤ pos 2))
unfolding ◌+ℤ◌
wrap64-IsEven (pos n) (e, h) =
    let sum : pos n +ℤ pos 2 ≡ pos (n + 2) = ground arith in
    rw sum (wrap64-pos (n + 2) (omega arith) (omega arith))
wrap64-IsEven (negsuc zero) (e, h) = absurd (omega arith)
wrap64-IsEven (negsuc (suc zero)) (e, h) = wrap64-pos 0 refl (omega arith)
wrap64-IsEven (negsuc (suc (suc n))) (e, h) =
    let sum : negsuc (suc (suc n)) +ℤ pos 2 ≡ negsuc n = ground arith in
    rw sum (wrap64-negsuc n (omega arith) (omega arith))

IsEven-below : (i : ℤ) → IsEven i → ltb_ℤ i (pos (2 ^ 63 - 1)) ≡ true
IsEven-below (pos n) (e, h) = ground arith
IsEven-below (negsuc n) (e, h) = ground arith

module _ {F : Type 0} ⦃o : Floats F⦄ where
  bucket_loop-none :
      (fuel : ℕ) (s : TimeSeries F) (kind : Text) (start : ℤ)
      → IsEven start
      → bucket_loop fuel s (pos (2 ^ 63 - 1)) (pos 2) kind start ≡ none
  unfolding bucket_loop
  bucket_loop-none zero s kind start e = rw (IsEven-below start e)
  bucket_loop-none (suc fuel) s kind start e = rw (
    IsEven-below start e,
    bucket_loop-none fuel s kind (wrap64 (start +ℤ pos 2)) (wrap64-IsEven start e),
  )

  -- `Downsample` from an even 64-bit timestamp to the largest `int64` in buckets of 2 never ends,
  -- if there is any sample: no number of rounds is enough.
  pub downsample-none :
      (fuel : ℕ) (s : TimeSeries F) (from : ℤ) (kind : Text)
      → IsEven from
      → 0 < length s.samples
      → downsample fuel s from (pos (2 ^ 63 - 1)) (pos 2) kind ≡ none
  unfolding downsample
  downsample-none fuel s from kind e h =
      let held : (length s.samples == 0) ≡ false = ground arith in
      rw held (bucket_loop-none fuel s kind from e)
