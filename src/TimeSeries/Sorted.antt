-- ===== src/TimeSeries/Sorted.antt =====
-- `Add`, `Range` and `Last` on samples whose timestamps rise.
use vole.Prelude.{
  ℕ, suc, ◌<◌, ◌≡◌, refl, sym, ap, subst, ◌∙◌, Bool, true, false, not, ◌&&◌, List, [], ◌∷◌, Option,
  some, none, drop, if◌then◌else◌, arith, Bool-cases, inl, inr, ◌⊎◌,
}
use vole.Prelude.Int.{ℤ, pos_part, ltb_ℤ}
use vole.Prelude.Slices.{at_index, first_index, Every, Rises, search-first_index}
use vole.Prelude.Limit.{
  keep, limited, rest, rest-nil, rest_take, rest_last, rest_start, stop, stops,
}
use vole.TimeSeries.{Sample, TimeSeries, reaches, eq_ℤ, set_value, add_at, add, range_loop, range}

module _ {F : Type 0} where
  abbrev pub Sorted : List (Sample F) → Type 0
  Sorted [] = Unit {0}
  Sorted (x ∷ xs) = Every (λ y. ltb_ℤ x.timestamp y.timestamp) xs × Sorted xs

  -- The value at a timestamp, looked for from the front.
  abbrev pub value_at : ℤ → List (Sample F) → Option F
  value_at t [] = none
  value_at t (x ∷ xs) = if eq_ℤ x.timestamp t then some x.value else value_at t xs

  -- A sample put where its timestamp belongs.
  placed : ℤ → F → List (Sample F) → List (Sample F)
  placed t v [] = record { timestamp = t; value = v } ∷ []
  placed t v (x ∷ xs) =
      let later = placed t v xs in
      if ltb_ℤ x.timestamp t
      then x ∷ later
      else (if eq_ℤ x.timestamp t
          then record { timestamp = x.timestamp; value = v } ∷ xs
          else record { timestamp = t; value = v } ∷ x ∷ xs)

  add_at-placed :
      (t : ℤ) (v : F) (xs : List (Sample F))
      → add_at (first_index (reaches t) xs) t v xs ≡ placed t v xs
  unfolding add_at placed first_index at_index set_value
  add_at-placed t v [] = refl
  add_at-placed t v (x ∷ xs) = ground (arith, add_at-placed t v xs)

  Sorted-Rises : (t : ℤ) (xs : List (Sample F)) → Sorted xs → Rises (reaches t) xs
  Sorted-Rises t [] s = tt
  Sorted-Rises t (x ∷ xs) s = (λ h. later xs s.0 h, Sorted-Rises t xs s.1)
    where
      later :
          (zs : List (Sample F))
          → Every (λ y. ltb_ℤ x.timestamp y.timestamp) zs
          → reaches t x ≡ true
          → Every (reaches t) zs
      later [] e h = tt
      later (z ∷ zs) e h = (ground arith, later zs e.1 h)

  add-placed :
      (t : ℤ) (v : F) (s : TimeSeries F)
      → Sorted s.samples
      → (add t v s).samples ≡ placed t v s.samples
  unfolding add
  add-placed t v s h =
      ap (λ i. add_at i t v s.samples)
        (search-first_index (reaches t) s.samples (Sorted-Rises t s.samples h))
      ∙ add_at-placed t v s.samples

  value_at-placed :
      (t u : ℤ) (v : F) (xs : List (Sample F))
      → Sorted xs
      → value_at u (placed t v xs) ≡ (if eq_ℤ t u then some v else value_at u xs)
  unfolding placed
  value_at-placed t u v [] s = refl
  value_at-placed t u v (x ∷ xs) s = ground (arith, value_at-placed t u v xs s.1)

  Every-placed :
      (x : Sample F) (t : ℤ) (v : F) (xs : List (Sample F))
      → Every (λ y. ltb_ℤ x.timestamp y.timestamp) xs
      → ltb_ℤ x.timestamp t ≡ true
      → Every (λ y. ltb_ℤ x.timestamp y.timestamp) (placed t v xs)
  unfolding placed
  Every-placed x t v [] e h = (h, tt)
  Every-placed x t v (y ∷ ys) e h = ground (arith, Every-placed x t v ys e.1 h)

  Every-above :
      (x : Sample F) (t : ℤ) (xs : List (Sample F))
      → Every (λ y. ltb_ℤ x.timestamp y.timestamp) xs
      → ltb_ℤ x.timestamp t ≡ false
      → Every (λ y. ltb_ℤ t y.timestamp) xs
  Every-above x t [] e h = tt
  Every-above x t (y ∷ ys) e h = ground (arith, Every-above x t ys e.1 h)

  placed-Sorted : (t : ℤ) (v : F) (xs : List (Sample F)) → Sorted xs → Sorted (placed t v xs)
  unfolding placed
  placed-Sorted t v [] s = (tt, tt)
  placed-Sorted t v (x ∷ xs) s =
      ground (arith, placed-Sorted t v xs s.1, Every-placed x t v xs s.0, Every-above x t xs s.0)

  -- `Add` keeps the timestamps in order, each once. Afterwards the timestamp holds the new value,
  -- whether it had one or not, and every other timestamp holds what it held.
  pub value_at-add :
      (t : ℤ) (v : F) (s : TimeSeries F)
      → Sorted s.samples
      → Sorted (add t v s).samples
        × ((u : ℤ)
            → value_at u (add t v s).samples ≡ (if eq_ℤ t u then some v else value_at u s.samples))
  value_at-add t v s h =
      subst
        (λ xs.
          Sorted xs
          × ((u : ℤ) → value_at u xs ≡ (if eq_ℤ t u then some v else value_at u s.samples)))
        (sym (add-placed t v s h))
        (placed-Sorted t v s.samples h, λ u. value_at-placed t u v s.samples h)

  -- The timestamp lies between the two, inclusive.
  abbrev pub between : ℤ → ℤ → Sample F → Bool
  between from to x = reaches from x && not (ltb_ℤ to x.timestamp)

  -- The samples up to the first one after `to`.
  up_to : ℤ → List (Sample F) → List (Sample F)
  up_to to [] = []
  up_to to (x ∷ xs) = let more = up_to to xs in if ltb_ℤ to x.timestamp then [] else x ∷ more

  keep_none :
      (from to : ℤ) (x : Sample F) (xs : List (Sample F))
      → Every (λ y. ltb_ℤ x.timestamp y.timestamp) xs
      → ltb_ℤ to x.timestamp ≡ true
      → keep (between from to) xs ≡ []
  unfolding keep
  keep_none from to x [] e h = refl
  keep_none from to x (y ∷ ys) e h = ground (arith, keep_none from to x ys e.1 h)

  first_index-Every :
      (f : Sample F → Bool) (xs : List (Sample F)) → Every f xs → first_index f xs ≡ 0
  unfolding first_index
  first_index-Every f [] e = refl
  first_index-Every f (x ∷ xs) e = rw e.0

  -- In order, the samples between the two timestamps are one stretch.
  keep-up_to :
      (from to : ℤ) (xs : List (Sample F))
      → Sorted xs
      → up_to to (drop (first_index (reaches from) xs) xs) ≡ keep (between from to) xs
  unfolding keep up_to first_index
  keep-up_to from to [] s = refl
  keep-up_to from to (x ∷ xs) s = elim (Bool-cases (ltb_ℤ x.timestamp from)) [
    | inl below ↦ rw below (keep-up_to from to xs s.1)
    | inr reached ↦ elim (Bool-cases (ltb_ℤ to x.timestamp)) [
      | inl above ↦ rw (reached, above) (sym (keep_none from to x xs s.0 above))
      | inr within ↦
          rw (reached, within)
            (ap (◌∷◌ x) (
              subst (λ i. up_to to (drop i xs) ≡ keep (between from to) xs)
                (first_index-Every (reaches from) xs
                  ((Sorted-Rises from (x ∷ xs) s).0 (rw reached)))
                (keep-up_to from to xs s.1)))
    ]
  ]

  range_loop-rest :
      (to count : ℤ) (gathered : ℕ) (xs : List (Sample F))
      → (gathered < pos_part count) ⊎ (pos_part count ≡ 0)
      → range_loop to count gathered xs ≡ rest 0 (pos_part count) 0 gathered (up_to to xs)
  unfolding range_loop up_to
  range_loop-rest to count gathered [] k = sym (rest-nil 0 (pos_part count) 0 gathered)
  range_loop-rest to count gathered (x ∷ xs) k = elim (Bool-cases (ltb_ℤ to x.timestamp)) [
    | inl above ↦ rw above (sym (rest-nil 0 (pos_part count) 0 gathered))
    | inr within ↦ elim (Bool-cases (stop (pos_part count) gathered)) [
      | inl last_one ↦
          rw (within, stops count gathered, last_one)
            (sym (
              rest_last 0 (pos_part count) 0 gathered x (up_to to xs) (omega arith) (ground arith)))
      | inr more ↦
          rw (within, stops count gathered, more)
            (ap (◌∷◌ x) (range_loop-rest to count (suc gathered) xs (ground arith))
              ∙ sym (
                  rest_take 0 (pos_part count) 0 gathered x (up_to to xs) (omega arith)
                    (ground arith)))
    ]
  ]

  -- `Range` of samples in order: those with a timestamp between the two, in order, at most `count`
  -- of them (all of them if `count` is not positive).
  pub range-keep :
      (s : TimeSeries F) (from to count : ℤ)
      → Sorted s.samples
      → range s from to count ≡ limited 0 (pos_part count) (keep (between from to) s.samples)
  unfolding range
  range-keep s from to count h =
      ap (λ i. range_loop to count 0 (drop i s.samples))
        (search-first_index (reaches from) s.samples (Sorted-Rises from s.samples h))
      ∙ range_loop-rest to count 0 (drop (first_index (reaches from) s.samples) s.samples)
          (ground arith)
      ∙ rest_start 0 (pos_part count)
          (up_to to (drop (first_index (reaches from) s.samples) s.samples))
      ∙ ap (limited 0 (pos_part count)) (keep-up_to from to s.samples h)
