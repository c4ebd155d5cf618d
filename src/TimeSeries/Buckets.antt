-- ===== src/TimeSeries/Buckets.antt =====
-- `Downsample` against the buckets that it means: as many as the interval takes, side by side.
use vole.Prelude.{
  ℕ, zero, suc, ◌+◌, ◌*◌, ◌^◌, ◌<◌, ◌≤◌, ◌≡◌, refl, sym, ap, true, false, List, [], ◌∷◌, ◌++◌, some,
  if◌then◌else◌, length, ◌==◌, arith, Bool-cases, inl, inr, ◌⊎◌,
}
use native.Mathlib.Nat.{mod-eq_of_lt}
use vole.Prelude.Text.{Text, text_eq}
use vole.Prelude.Int.{ℤ, pos, negsuc, pos_part, neg_part, ltb_ℤ, ◌+ℤ◌, ◌-ℤ◌, int_laws}
use vole.Prelude.Decimal.{IsInt64}
use vole.Prelude.Limit.{keep}
use vole.TimeSeries.{
  Floats, Sample, TimeSeries, wrap64, summarise, sum_from, min_from, max_from, last_value,
  aggregate, bucket_loop, downsample,
}
use vole.TimeSeries.Sorted.{Sorted, between, range-keep}

wrap64-IsInt64 : (i : ℤ) → IsInt64 i → wrap64 i ≡ i
unfolding wrap64
wrap64-IsInt64 (pos n) h = ground (arith, mod-eq_of_lt {n = n} {m = 2 ^ 64} (omega (arith, h.0)))
wrap64-IsInt64 (negsuc n) h = ground (arith, mod-eq_of_lt {n = n} {m = 2 ^ 64} (omega (arith, h.1)))

IsInt64-parts :
    (i : ℤ) → pos_part i < 2 ^ 63 + neg_part i → neg_part i ≤ 2 ^ 63 + pos_part i → IsInt64 i
IsInt64-parts (pos n) h k = (omega arith, omega arith)
IsInt64-parts (negsuc n) h k = (omega arith, omega arith)

-- `n` is how many steps of `size` it takes from the first timestamp to reach the second.
abbrev pub Rounds : ℕ → ℤ → ℤ → ℕ → Type 0
Rounds n from to size =
    (pos_part to + neg_part from ≤ pos_part from + neg_part to + n * size)
    × ((n ≡ 0) ⊎ (pos_part from + neg_part to + n * size < pos_part to + neg_part from + size))

-- The interval is open while a round is left, and a round takes `size` off it.
Rounds-suc :
    (n : ℕ) (from to : ℤ) (size : ℕ)
    → Rounds (suc n) from to size
    → (pos_part from + neg_part to < pos_part to + neg_part from)
      × Rounds n (from +ℤ pos size) to size
Rounds-suc n from to size (enough, inl z) = absurd (omega arith)
Rounds-suc n from to size (enough, inr h) =
    let step : suc n * size ≡ n * size + size = omega arith in
    (omega (arith, step), (omega (int_laws, step), inr (omega (int_laws, step))))

abbrev fold {ℓ ℓ'} : {A : Type ℓ} {B : Type ℓ'} → (B → A → B) → B → List A → B
fold f b [] = b
fold f b (x ∷ xs) = fold f (f b x) xs

abbrev values : {F : Type 0} → List (Sample F) → List F
values [] = []
values (x ∷ xs) = x.value ∷ values xs

-- the words of the aggregates
abbrev avg_word : Text
avg_word = b'a' ∷ b'v' ∷ b'g' ∷ []

abbrev sum_word : Text
sum_word = b's' ∷ b'u' ∷ b'm' ∷ []

abbrev min_word : Text
min_word = b'm' ∷ b'i' ∷ b'n' ∷ []

abbrev max_word : Text
max_word = b'm' ∷ b'a' ∷ b'x' ∷ []

abbrev count_word : Text
count_word = b'c' ∷ b'o' ∷ b'u' ∷ b'n' ∷ b't' ∷ []

abbrev last_word : Text
last_word = b'l' ∷ b'a' ∷ b's' ∷ b't' ∷ []

module _ {F : Type 0} ⦃o : Floats F⦄ where
  -- What an aggregate of numbers is, for the first and those behind it: their sum from the left, the sum
  -- over their count, the least and the greatest from infinity on, their count, the last one, and for any
  -- other word the first one.
  abbrev pub total : List F → F
  total vs = fold o.plus o.zero_value vs

  abbrev pub aggregate_of : Text → F → List F → F
  aggregate_of kind v vs =
      if text_eq kind avg_word
      then o.divided (total (v ∷ vs)) (o.of_count (length (v ∷ vs)))
      else (if text_eq kind sum_word
          then total (v ∷ vs)
          else (if text_eq kind min_word
              then fold (λ a b. if o.less b a then b else a) o.infinity (v ∷ vs)
              else (if text_eq kind max_word
                  then fold (λ a b. if o.less a b then b else a) o.minus_infinity (v ∷ vs)
                  else (if text_eq kind count_word
                      then o.of_count (length (v ∷ vs))
                      else (if text_eq kind last_word then fold (λ a b. b) v vs else v)))))

  -- the sample of a bucket: none where the bucket holds none, else one at its start
  abbrev pub point : ℤ → Text → List (Sample F) → List (Sample F)
  point start kind [] = []
  point start kind (x ∷ xs) =
      record { timestamp = start; value = aggregate_of kind x.value (values xs) } ∷ []

  sum_from-fold : (acc : F) (xs : List (Sample F)) → sum_from acc xs ≡ fold o.plus acc (values xs)
  unfolding sum_from
  sum_from-fold acc [] = refl
  sum_from-fold acc (x ∷ xs) = sum_from-fold (o.plus acc x.value) xs

  min_from-fold :
      (acc : F) (xs : List (Sample F))
      → min_from acc xs ≡ fold (λ a b. if o.less b a then b else a) acc (values xs)
  unfolding min_from
  min_from-fold acc [] = refl
  min_from-fold acc (x ∷ xs) = min_from-fold (if o.less x.value acc then x.value else acc) xs

  max_from-fold :
      (acc : F) (xs : List (Sample F))
      → max_from acc xs ≡ fold (λ a b. if o.less a b then b else a) acc (values xs)
  unfolding max_from
  max_from-fold acc [] = refl
  max_from-fold acc (x ∷ xs) = max_from-fold (if o.less acc x.value then x.value else acc) xs

  last_value-fold :
      (x : Sample F) (xs : List (Sample F)) → last_value x xs ≡ fold (λ a b. b) x.value (values xs)
  unfolding last_value
  last_value-fold x [] = refl
  last_value-fold x (y ∷ xs) = last_value-fold y xs

  length-values : (xs : List (Sample F)) → length (values xs) ≡ length xs
  length-values [] = refl
  length-values (x ∷ xs) = ap suc (length-values xs)

  summarise-point :
      (start : ℤ) (kind : Text) (xs : List (Sample F))
      → summarise start kind xs ≡ point start kind xs
  unfolding summarise aggregate
  summarise-point start kind [] = refl
  summarise-point start kind (x ∷ xs) =
      rw
        (
          sum_from-fold o.zero_value (x ∷ xs),
          min_from-fold o.infinity (x ∷ xs),
          max_from-fold o.minus_infinity (x ∷ xs),
          last_value-fold x xs,
          length-values xs,
        )
        refl

  -- `n` buckets side by side: each holds the samples from its start to the next one's, and is left
  -- out when it holds none.
  abbrev pub bucketed : ℕ → List (Sample F) → ℤ → ℕ → Text → List (Sample F)
  bucketed zero xs start size kind = []
  bucketed (suc n) xs start size kind =
      point start kind (keep (between start (start +ℤ pos size -ℤ pos 1)) xs)
      ++ bucketed n xs (start +ℤ pos size) size kind

  bucket_loop-bucketed :
      (fuel n : ℕ) (s : TimeSeries F) (start to : ℤ) (size : ℕ) (kind : Text)
      → Sorted s.samples
      → n ≤ fuel
      → 0 < size
      → Rounds n start to size
      → neg_part start ≤ 2 ^ 63 + pos_part start
      → pos_part to + size < 2 ^ 63 + neg_part to
      → bucket_loop fuel s to (pos size) kind start ≡ some (bucketed n s.samples start size kind)
  unfolding bucket_loop
  bucket_loop-bucketed zero zero s start to size kind sorted e p r lo hi =
      let done : ltb_ℤ start to ≡ false = ground arith in rw done
  bucket_loop-bucketed zero (suc n) s start to size kind sorted e p r lo hi = absurd (omega arith)
  bucket_loop-bucketed (suc fuel) zero s start to size kind sorted e p r lo hi =
      let done : ltb_ℤ start to ≡ false = ground arith in rw done
  bucket_loop-bucketed (suc fuel) (suc n) s start to size kind sorted e p r lo hi =
      let (open_yet, left) = Rounds-suc n start to size r in
      let more : ltb_ℤ start to ≡ true = ground arith in
      let end : wrap64 (start +ℤ pos size) ≡ start +ℤ pos size =
        wrap64-IsInt64 (start +ℤ pos size)
          (IsInt64-parts (start +ℤ pos size) (omega int_laws) (omega int_laws)) in
      let before : wrap64 (start +ℤ pos size -ℤ pos 1) ≡ start +ℤ pos size -ℤ pos 1 =
        wrap64-IsInt64 (start +ℤ pos size -ℤ pos 1)
          (IsInt64-parts (start +ℤ pos size -ℤ pos 1) (omega int_laws) (omega int_laws)) in
      let rest =
        bucket_loop-bucketed fuel n s (start +ℤ pos size) to size kind sorted (omega arith) p left
          (omega int_laws) hi in
      rw (
        more,
        end,
        rest,
        end,
        before,
        range-keep s start (start +ℤ pos size -ℤ pos 1) (pos 0) sorted,
        summarise-point start kind (keep (between start (start +ℤ pos size -ℤ pos 1)) s.samples),
      )

  bucketed_empty :
      (size : ℕ) (kind : Text) (n : ℕ) (xs : List (Sample F)) (start : ℤ)
      → (length xs == 0) ≡ true
      → bucketed n xs start size kind ≡ []
  unfolding keep
  bucketed_empty size kind zero xs start h = refl
  bucketed_empty size kind (suc n) [] start h = bucketed_empty size kind n [] (start +ℤ pos size) h
  bucketed_empty size kind (suc n) (x ∷ xs) start h = absurd (ground arith)

  -- `Downsample` of samples in order ends, and gives the buckets of `size` that the interval takes,
  -- side by side from `from`: one sample at the start of each bucket that holds samples, with their
  -- aggregate. The size is positive, and the end of the last bucket is a 64-bit number; a unit of
  -- fuel for each bucket is enough.
  pub downsample-bucketed :
      (fuel n : ℕ) (s : TimeSeries F) (from to : ℤ) (size : ℕ) (kind : Text)
      → Sorted s.samples
      → n ≤ fuel
      → 0 < size
      → Rounds n from to size
      → neg_part from ≤ 2 ^ 63
      → pos_part to + size < 2 ^ 63 + neg_part to
      → downsample fuel s from to (pos size) kind ≡ some (bucketed n s.samples from size kind)
  unfolding downsample
  downsample-bucketed fuel n s from to size kind sorted e p r lo hi =
      let positive : ltb_ℤ (pos 0) (pos size) ≡ true = ground arith in
      elim (Bool-cases (length s.samples == 0)) [
        | inl none_held ↦
            rw (positive, none_held)
              (sym (ap some (bucketed_empty size kind n s.samples from none_held)))
        | inr held ↦
            rw (positive, held)
              (bucket_loop-bucketed fuel n s from to size kind sorted e p r (omega arith) hi)
      ]
