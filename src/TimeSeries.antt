-- ===== src/TimeSeries.antt =====
-- internal/store/timeseries.go: samples in the order of their timestamps, one for each timestamp.
-- A timestamp is an `int64`; a value is a `float64`, of which the model takes the operations.
pub mod Sorted
pub mod Buckets
pub mod Overflow
mod Tests
use vole.Prelude.{
  ℕ, zero, suc, ◌+◌, ◌-◌, ◌*◌, ◌^◌, ◌%◌, ◌≡◌, Bool, true, false, not, ◌&&◌, ◌||◌, List, [], ◌∷◌,
  ◌++◌, Option, some, none, length, drop, ltb, leb, ◌==◌, if◌then◌else◌,
}
use vole.Prelude.Text.{Text, text_eq}
use vole.Prelude.Int.{ℤ, pos, negsuc, pos_part, neg_part, ltb_ℤ, ◌+ℤ◌, ◌-ℤ◌}
use vole.Prelude.Map.{Map}
use vole.Prelude.Search.{search}
use vole.Prelude.Slices.{insert_at, at_index}

-- the operations of `float64` that the code uses
pub record Floats (F : Type 0) : Type 0 where
  pub zero_value : F
  pub infinity : F
  pub minus_infinity : F
  pub plus : F → F → F
  pub divided : F → F → F
  pub less : F → F → Bool
  pub of_count : ℕ → F

pub record Sample (F : Type 0) : Type 0 where
  pub timestamp : ℤ
  pub value : F

pub record TimeSeries (F : Type 0) : Type 0 where
  pub samples : List (Sample F)
  pub labels : Map Text

-- two's complement: the value of an `int64` sum
unfoldable pub wrap64 : ℤ → ℤ
wrap64 (pos n) = let r = n % 2 ^ 64 in if ltb r (2 ^ 63) then pos r else negsuc (2 ^ 64 - 1 - r)
wrap64 (negsuc n) = let r = n % 2 ^ 64 in if ltb r (2 ^ 63) then negsuc r else pos (2 ^ 64 - 1 - r)

abbrev pub eq_ℤ : ℤ → ℤ → Bool
eq_ℤ a b = pos_part a + neg_part b == pos_part b + neg_part a

module _ {F : Type 0} where
  -- `NewTimeSeries`
  pub new : TimeSeries F
  new = record { samples = []; labels = [] }

  -- `ts.Samples[i].Timestamp >= timestamp`
  abbrev pub reaches : ℤ → Sample F → Bool
  reaches t x = not (ltb_ℤ x.timestamp t)

  -- `ts.Samples[idx].Timestamp == timestamp`
  abbrev pub stands_at : ℤ → Sample F → Bool
  stands_at t x = eq_ℤ x.timestamp t

  -- `ts.Samples[idx].Value = value`
  unfoldable pub set_value : ℕ → F → List (Sample F) → List (Sample F)
  set_value i v [] = []
  set_value zero v (x ∷ xs) = record { timestamp = x.timestamp; value = v } ∷ xs
  set_value (suc i) v (x ∷ xs) = x ∷ set_value i v xs

  -- the body of `Add` behind the search
  unfoldable pub add_at : ℕ → ℤ → F → List (Sample F) → List (Sample F)
  unfolding set_value
  add_at i t v xs =
      if at_index (stands_at t) xs i
      then set_value i v xs
      else insert_at i (record { timestamp = t; value = v }) xs

  -- `Add`
  unfoldable pub add : ℤ → F → TimeSeries F → TimeSeries F
  unfolding add_at
  add t v s = record {
    samples = add_at (search (length s.samples) (at_index (reaches t) s.samples)) t v s.samples;
    labels = s.labels;
  }

  -- the loop of `Range`
  unfoldable pub range_loop : ℤ → ℤ → ℕ → List (Sample F) → List (Sample F)
  range_loop to count gathered [] = []
  range_loop to count gathered (x ∷ xs) =
      let more = range_loop to count (suc gathered) xs in
      if ltb_ℤ to x.timestamp
      then []
      else (if ltb_ℤ (pos 0) count && not (ltb_ℤ (pos (suc gathered)) count)
          then x ∷ []
          else x ∷ more)

  -- `Range`
  unfoldable pub range : TimeSeries F → ℤ → ℤ → ℤ → List (Sample F)
  unfolding range_loop
  range s from to count =
      let start = search (length s.samples) (at_index (reaches from) s.samples) in
      range_loop to count 0 (drop start s.samples)

  -- `Last`
  unfoldable pub last : List (Sample F) → Option (Sample F)
  last [] = none
  last (x ∷ []) = some x
  last (x ∷ y ∷ xs) = last (y ∷ xs)

  -- `Len`
  pub len : TimeSeries F → ℕ
  len s = length s.samples

module _ {F : Type 0} ⦃o : Floats F⦄ where
  -- the loops of the switch of `Downsample`
  unfoldable pub sum_from : F → List (Sample F) → F
  sum_from acc [] = acc
  sum_from acc (x ∷ xs) = sum_from (o.plus acc x.value) xs

  unfoldable pub min_from : F → List (Sample F) → F
  min_from acc [] = acc
  min_from acc (x ∷ xs) = min_from (if o.less x.value acc then x.value else acc) xs

  unfoldable pub max_from : F → List (Sample F) → F
  max_from acc [] = acc
  max_from acc (x ∷ xs) = max_from (if o.less acc x.value then x.value else acc) xs

  -- `samples[len(samples)-1].Value`
  unfoldable pub last_value : Sample F → List (Sample F) → F
  last_value x [] = x.value
  last_value x (y ∷ xs) = last_value y xs

  -- the switch on the kind of aggregate, on samples that are not empty
  unfoldable pub aggregate : Text → Sample F → List (Sample F) → F
  unfolding sum_from min_from max_from last_value
  aggregate kind x xs =
      if text_eq kind (b'a' ∷ b'v' ∷ b'g' ∷ [])
      then o.divided (sum_from o.zero_value (x ∷ xs)) (o.of_count (length (x ∷ xs)))
      else (if text_eq kind (b's' ∷ b'u' ∷ b'm' ∷ [])
          then sum_from o.zero_value (x ∷ xs)
          else (if text_eq kind (b'm' ∷ b'i' ∷ b'n' ∷ [])
              then min_from o.infinity (x ∷ xs)
              else (if text_eq kind (b'm' ∷ b'a' ∷ b'x' ∷ [])
                  then max_from o.minus_infinity (x ∷ xs)
                  else (if text_eq kind (b'c' ∷ b'o' ∷ b'u' ∷ b'n' ∷ b't' ∷ [])
                      then o.of_count (length (x ∷ xs))
                      else (if text_eq kind (b'l' ∷ b'a' ∷ b's' ∷ b't' ∷ [])
                          then last_value x xs
                          else x.value)))))

  -- one bucket: `if len(samples) > 0`
  unfoldable pub summarise : ℤ → Text → List (Sample F) → List (Sample F)
  unfolding aggregate
  summarise start kind [] = []
  summarise start kind (x ∷ xs) = record { timestamp = start; value = aggregate kind x xs } ∷ []

  -- the loop of `Downsample`, with a bound on its rounds: `none` if they do not suffice
  unfoldable pub bucket_loop : ℕ → TimeSeries F → ℤ → ℤ → Text → ℤ → Option (List (Sample F))
  unfolding wrap64 summarise range
  bucket_loop zero s to size kind start = if ltb_ℤ start to then none else some []
  bucket_loop (suc fuel) s to size kind start =
      let end = wrap64 (start +ℤ size) in
      let rest = bucket_loop fuel s to size kind end in
      let bucket = summarise start kind (range s start (wrap64 (end -ℤ pos 1)) (pos 0)) in
      if ltb_ℤ start to
      then elim rest [ some more ↦ some (bucket ++ more) | none ↦ none ]
      else some []

  -- `Downsample`
  unfoldable pub downsample : ℕ → TimeSeries F → ℤ → ℤ → ℤ → Text → Option (List (Sample F))
  unfolding bucket_loop
  downsample fuel s from to size kind =
      if not (ltb_ℤ (pos 0) size) || length s.samples == 0
      then some []
      else bucket_loop fuel s to size kind from
