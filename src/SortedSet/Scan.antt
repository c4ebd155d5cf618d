-- ===== src/SortedSet/Scan.antt =====
-- `RangeByScore` and `CountByScore` against a filter.
use vole.Prelude.{
  ℕ, suc, ◌<◌, ◌≡◌, refl, Bool, true, not, ◌&&◌, List, [], ◌∷◌, if◌then◌else◌, arith, Bool-cases,
  inl, inr, ◌⊎◌, ◌∙◌, sym, ap, subst, length, drop, ltb,
}
use vole.Prelude.Int.{ℤ, pos_part}
use vole.Prelude.Slices.{Rises, Every, first_index, search-first_index}
use vole.SortedSet.{
  Scores, SortedSet, ZMember, ge, score_loop, count_loop, range_by_score, count_by_score,
}
use vole.Prelude.Limit.{
  keep, limited, rest, rest-nil, rest_skip, rest_take, rest_last, rest_start, stop, skips, stops,
}
use vole.SortedSet.Order.{precedes, Sorted}

module _ {S : Type 0} ⦃o : Scores S⦄ where
  -- The score lies between `min` and `max`, inclusive.
  abbrev pub between : S → S → ZMember S → Bool
  between min max x = ge x.score min && not (o.lt max x.score)

  -- The members up to the first score above `max`.
  up_to : S → List (ZMember S) → List (ZMember S)
  up_to max [] = []
  up_to max (x ∷ xs) = if o.lt max x.score then [] else x ∷ up_to max xs

  abbrev reaches_min : S → ZMember S → Bool
  reaches_min min x = ge x.score min

  -- Scores do not fall along a sorted slice.
  ge-precedes :
      (x y : ZMember S) (c : S)
      → precedes x y ≡ true
      → o.lt y.score c ≡ true
      → o.lt x.score c ≡ true
  ge-precedes x y c h k = ground (arith, o.eq_iff x.score y.score, o.lt_trans x.score y.score c)

  lt-precedes :
      (x y : ZMember S) (c : S)
      → precedes x y ≡ true
      → o.lt c x.score ≡ true
      → o.lt c y.score ≡ true
  lt-precedes x y c h k = ground (arith, o.eq_iff x.score y.score, o.lt_trans c x.score y.score)

  Sorted-Rises_min : (min : S) (xs : List (ZMember S)) → Sorted xs → Rises (reaches_min min) xs
  Sorted-Rises_min min [] s = tt
  Sorted-Rises_min min (x ∷ xs) s = (λ h. later xs s.0 h, Sorted-Rises_min min xs s.1)
    where
      later :
          (zs : List (ZMember S))
          → Every (precedes x) zs
          → reaches_min min x ≡ true
          → Every (reaches_min min) zs
      later [] e h = tt
      later (z ∷ zs) e h = (ground (arith, ge-precedes x z min e.0), later zs e.1 h)

  keep_none :
      (min max : S) (x : ZMember S) (xs : List (ZMember S))
      → Every (precedes x) xs
      → o.lt max x.score ≡ true
      → keep (between min max) xs ≡ []
  unfolding keep
  keep_none min max x [] e h = refl
  keep_none min max x (y ∷ ys) e h =
      ground (arith, lt-precedes x y max e.0 h, keep_none min max x ys e.1 h)

  first_index-Every :
      (f : ZMember S → Bool) (xs : List (ZMember S)) → Every f xs → first_index f xs ≡ 0
  unfolding first_index
  first_index-Every f [] e = refl
  first_index-Every f (x ∷ xs) e = rw e.0

  -- In a sorted slice the members between the two scores are one stretch.
  keep-up_to :
      (min max : S) (xs : List (ZMember S))
      → Sorted xs
      → up_to max (drop (first_index (reaches_min min) xs) xs) ≡ keep (between min max) xs
  unfolding keep up_to first_index
  keep-up_to min max [] s = refl
  keep-up_to min max (x ∷ xs) s = elim (Bool-cases (o.lt x.score min)) [
    | inl below ↦ rw below (keep-up_to min max xs s.1)
    | inr reaches ↦ elim (Bool-cases (o.lt max x.score)) [
      | inl above ↦ rw (reaches, above) (sym (keep_none min max x xs s.0 above))
      | inr within ↦
          rw (reaches, within)
            (ap (◌∷◌ x) (
              subst (λ i. up_to max (drop i xs) ≡ keep (between min max) xs)
                (first_index-Every (reaches_min min) xs
                  ((Sorted-Rises_min min (x ∷ xs) s).0 (rw reaches)))
                (keep-up_to min max xs s.1)))
    ]
  ]

  -- The loop with its two counters.
  score_loop-rest :
      (max : S) (offset count : ℤ) (skipped gathered : ℕ) (xs : List (ZMember S))
      → (gathered < pos_part count) ⊎ (pos_part count ≡ 0)
      → score_loop max offset count skipped gathered xs
        ≡ rest (pos_part offset) (pos_part count) skipped gathered (up_to max xs)
  unfolding score_loop up_to
  score_loop-rest max offset count skipped gathered [] k =
      sym (rest-nil (pos_part offset) (pos_part count) skipped gathered)
  score_loop-rest max offset count skipped gathered (x ∷ xs) k =
      elim (Bool-cases (o.lt max x.score)) [
        | inl above ↦ rw above (sym (rest-nil (pos_part offset) (pos_part count) skipped gathered))
        | inr within ↦ elim (Bool-cases (ltb skipped (pos_part offset))) [
          | inl skip ↦
              rw (within, skips offset skipped, skip)
                (score_loop-rest max offset count (suc skipped) gathered xs k
                  ∙ sym (
                      rest_skip (pos_part offset) (pos_part count) skipped gathered x (up_to max xs)
                        (ground arith)))
          | inr go ↦ elim (Bool-cases (stop (pos_part count) gathered)) [
            | inl last ↦
                rw (within, skips offset skipped, go, stops count gathered, last)
                  (sym (
                    rest_last (pos_part offset) (pos_part count) skipped gathered x (up_to max xs)
                      (ground arith) (ground arith)))
            | inr more ↦
                rw (within, skips offset skipped, go, stops count gathered, more)
                  (ap (◌∷◌ x)
                      (score_loop-rest max offset count skipped (suc gathered) xs (ground arith))
                    ∙ sym (
                        rest_take (pos_part offset) (pos_part count) skipped gathered x
                          (up_to max xs) (ground arith) (ground arith)))
          ]
        ]
      ]

  -- `RangeByScore` of a sorted set: the members whose score lies between the bounds, in order,
  -- the first `offset` left out and at most `count` of the rest (all of them if `count` is not
  -- positive).
  pub range_by_score-limited :
      (z : SortedSet S) (min max : S) (offset count : ℤ)
      → Sorted z.ordered
      → range_by_score z min max offset count
        ≡ limited (pos_part offset) (pos_part count) (keep (between min max) z.ordered)
  unfolding range_by_score
  range_by_score-limited z min max offset count s =
      ap (λ i. score_loop max offset count 0 0 (drop i z.ordered))
        (search-first_index (reaches_min min) z.ordered (Sorted-Rises_min min z.ordered s))
      ∙ score_loop-rest max offset count 0 0
          (drop (first_index (reaches_min min) z.ordered) z.ordered) (ground arith)
      ∙ rest_start (pos_part offset) (pos_part count)
          (up_to max (drop (first_index (reaches_min min) z.ordered) z.ordered))
      ∙ ap (limited (pos_part offset) (pos_part count)) (keep-up_to min max z.ordered s)

  count_loop-up_to : (max : S) (xs : List (ZMember S)) → count_loop max xs ≡ length (up_to max xs)
  unfolding count_loop up_to
  count_loop-up_to max [] = refl
  count_loop-up_to max (x ∷ xs) = ground (arith, count_loop-up_to max xs)

  -- `CountByScore` of a sorted set counts the members whose score lies between the bounds.
  pub count_by_score-keep :
      (z : SortedSet S) (min max : S)
      → Sorted z.ordered
      → count_by_score z min max ≡ length (keep (between min max) z.ordered)
  unfolding count_by_score
  count_by_score-keep z min max s =
      count_loop-up_to max _
      ∙ ap length (
          ap (λ i. up_to max (drop i z.ordered))
            (search-first_index (reaches_min min) z.ordered (Sorted-Rises_min min z.ordered s))
          ∙ keep-up_to min max z.ordered s)
