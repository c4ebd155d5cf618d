-- ===== src/Prelude/Limit.antt =====
-- The two counters of a range query, LIMIT offset count, and the filter that a query is held against.
use vole.Prelude.{
  ℕ, zero, suc, ◌-◌, ◌<◌, ◌≤◌, ◌≡◌, refl, Bool, false, not, ◌&&◌, List, [], ◌∷◌, if◌then◌else◌,
  arith, ◌∙◌, sym, ap, take, drop, ◌==◌, ltb, ◌⊎◌,
}
use vole.Prelude.Int.{ℤ, pos, negsuc, pos_part, ltb_ℤ}

-- LIMIT: what is left after the first `offset` values, at most `count` of them, or all if `count`
-- is 0.
abbrev pub limited : {A : Type 0} → ℕ → ℕ → List A → List A
limited offset count xs = if count == 0 then drop offset xs else take count (drop offset xs)

-- The tests of the loops, on the parts of the two `int` that count.
pub skips :
    (offset : ℤ) (n : ℕ) → (ltb_ℤ (pos 0) offset && ltb_ℤ (pos n) offset) ≡ ltb n (pos_part offset)
skips (pos a) n = ground arith
skips (negsuc a) n = ground arith

pub stops :
    (count : ℤ) (n : ℕ)
    → (ltb_ℤ (pos 0) count && not (ltb_ℤ (pos (suc n)) count))
      ≡ (if pos_part count == 0 then false else not (ltb (suc n) (pos_part count)))
stops (pos a) n = ground arith
stops (negsuc a) n = ground arith

drop-pos : {A : Type 0} (n : ℕ) (x : A) (xs : List A) → 0 < n → drop n (x ∷ xs) ≡ drop (n - 1) xs
drop-pos zero x xs h = absurd (omega arith)
drop-pos (suc n) x xs h = ap (λ k. drop k xs) (omega arith)

take-pos :
    {A : Type 0} (n : ℕ) (x : A) (xs : List A) → 0 < n → take n (x ∷ xs) ≡ x ∷ take (n - 1) xs
take-pos zero x xs h = absurd (omega arith)
take-pos (suc n) x xs h = ap (λ k. x ∷ take k xs) (omega arith)

drop-nil : (A : Type 0) (n : ℕ) → drop {A = A} n [] ≡ []
drop-nil A zero = refl
drop-nil A (suc n) = refl

take-nil : (A : Type 0) (n : ℕ) → take {A = A} n [] ≡ []
take-nil A zero = refl
take-nil A (suc n) = refl

-- What the loops still return when `skipped` values are passed over and `gathered` are returned.
module _ {A : Type 0} (offset count : ℕ) where
  abbrev pub rest : ℕ → ℕ → List A → List A
  rest skipped gathered xs =
      if count == 0
      then drop (offset - skipped) xs
      else take (count - gathered) (drop (offset - skipped) xs)

  pub rest-nil : (skipped gathered : ℕ) → rest skipped gathered [] ≡ []
  rest-nil skipped gathered =
      ground (arith, drop-nil A (offset - skipped), take-nil A (count - gathered))

  pub rest_start : (xs : List A) → rest 0 0 xs ≡ limited offset count xs
  rest_start xs =
      let a : offset - 0 ≡ offset = omega arith in
      let b : count - 0 ≡ count = omega arith in rw (a, b)

  module _ (skipped gathered : ℕ) (x : A) (xs : List A) where
    pub rest_skip :
        skipped < offset → rest skipped gathered (x ∷ xs) ≡ rest (suc skipped) gathered xs
    rest_skip h = rw (drop-pos (offset - skipped) x xs (omega arith), less) refl
      where
        less : offset - skipped - 1 ≡ offset - suc skipped
        less = omega arith

    none_skipped :
        offset ≤ skipped → drop (offset - skipped) (x ∷ xs) ≡ x ∷ drop (offset - skipped) xs
    none_skipped h = ap (λ n. drop n (x ∷ xs)) zero_left ∙ ap (λ n. x ∷ drop n xs) (sym zero_left)
      where
        zero_left : offset - skipped ≡ 0
        zero_left = omega arith

    pub rest_take :
        offset ≤ skipped
        → (suc gathered < count) ⊎ (count ≡ 0)
        → rest skipped gathered (x ∷ xs) ≡ x ∷ rest skipped (suc gathered) xs
    rest_take h k =
        ground (arith, none_skipped h, take-pos (count - gathered) x (drop (offset - skipped) xs))

    pub rest_last :
        offset ≤ skipped → suc gathered ≡ count → rest skipped gathered (x ∷ xs) ≡ x ∷ []
    rest_last h k =
        ground (
          arith,
          none_skipped h,
          take-pos (count - gathered) x (drop (offset - skipped) xs),
          nothing,
        )
      where
        nothing : take (count - gathered - 1) (drop (offset - skipped) xs) ≡ []
        nothing = let none_left : count - gathered - 1 ≡ 0 = omega arith in rw none_left

-- The test that stops a loop, and what it says of the numbers.
abbrev pub stop : ℕ → ℕ → Bool
stop count gathered = if count == 0 then false else not (ltb (suc gathered) count)

-- The values of which a condition holds, in order.
unfoldable pub keep : {A : Type 0} → (A → Bool) → List A → List A
keep f [] = []
keep f (x ∷ xs) = let rest_kept = keep f xs in if f x then x ∷ rest_kept else rest_kept
