-- ===== src/Ranges/Bounds.antt =====
-- What `normalizeRange` returns.
use vole.Prelude.{ℕ, ◌≤◌, ◌<◌, ◌≡◌, ◌↔◌, some, none, arith, refl, sym, ◌∙◌, subst}
use vole.Prelude.Int.{ℤ, pos, ◌≤ℤ◌, ◌+ℤ◌, ◌-ℤ◌}
use vole.Ranges.{normalize_range, from_end, low, high, checked}

low_lem :
    (n : ℕ) (start : ℤ) (i : ℕ)
    → (pos 0 ≤ℤ low n start) × ((low n start ≤ℤ pos i) ↔ (from_end n start ≤ℤ pos i))
unfolding low
low_lem n start i = ground arith

high_lem :
    (n : ℕ) (stop : ℤ) (i : ℕ)
    → (high n stop +ℤ pos 1 ≤ℤ pos n)
      × (i < n → (pos i ≤ℤ high n stop) ↔ (pos i ≤ℤ from_end n stop))
unfolding high ◌+ℤ◌ ◌-ℤ◌
high_lem n stop i = ground arith

checked-some :
    (n : ℕ) (from to : ℤ) (a b : ℕ)
    → checked n from to ≡ some (a, b)
    → pos 0 ≤ℤ from
    → (from ≡ pos a) × (to ≡ pos b) × (a ≤ b) × (a < n)
unfolding checked
checked-some n from to a b h low = ground arith

checked-none :
    (n : ℕ) (from to : ℤ) (i : ℕ)
    → checked n from to ≡ none
    → i < n
    → from ≤ℤ pos i
    → pos i ≤ℤ to
    → ⊥
unfolding checked
checked-none n from to i h p q r = ground arith

normalize_range-checked :
    (start stop : ℤ) (n : ℕ) → normalize_range start stop n ≡ checked n (low n start) (high n stop)
unfolding normalize_range
normalize_range-checked start stop n = refl

below : (a b : ℕ) → pos a ≤ℤ pos b → a ≤ b
below a b h = omega arith

plus_one : (a n : ℕ) → pos a +ℤ pos 1 ≤ℤ pos n → a < n
unfolding ◌+ℤ◌
plus_one a n h = ground arith

-- The indices that `normalizeRange` allows lie in order and inside the sequence.
pub normalize_range_bounds :
    (start stop : ℤ) (n from to : ℕ)
    → normalize_range start stop n ≡ some (from, to)
    → (from ≤ to) × (to < n)
normalize_range_bounds start stop n from to h =
    let (e, f, p, q) =
      checked-some n (low n start) (high n stop) from to
        (sym (normalize_range-checked start stop n) ∙ h) (low_lem n start 0).0 in
    let top = (high_lem n stop 0).0 in (p, plus_one to n (subst (λ z. z +ℤ pos 1 ≤ℤ pos n) f top))

-- The two ends that `normalizeRange` returns enclose exactly those indices of the sequence that
-- lie between `start` and `stop`, each of the two counted from the end of the sequence if it is
-- negative.
pub normalize_range-some :
    (start stop : ℤ) (n from to i : ℕ)
    → normalize_range start stop n ≡ some (from, to)
    → i < n
    → ((from ≤ i) × (i ≤ to)) ↔ ((from_end n start ≤ℤ pos i) × (pos i ≤ℤ from_end n stop))
normalize_range-some start stop n from to i h p =
    let (e, f, _, _) =
      checked-some n (low n start) (high n stop) from to
        (sym (normalize_range-checked start stop n) ∙ h) (low_lem n start 0).0 in
    let a = (low_lem n start i).1 in
    let b = (high_lem n stop i).1 p in
    (
      λ (r, s). (
        a.0 (subst (λ z. z ≤ℤ pos i) (sym e) (omega arith)),
        b.0 (subst (λ z. pos i ≤ℤ z) (sym f) (omega arith)),
      ),
      λ (r, s). (
        below from i (subst (λ z. z ≤ℤ pos i) e (a.1 r)),
        below i to (subst (λ z. pos i ≤ℤ z) f (b.1 s)),
      ),
    )

-- Where it refuses, no index of the sequence lies between the two ends.
pub normalize_range-none :
    (start stop : ℤ) (n i : ℕ)
    → normalize_range start stop n ≡ none
    → i < n
    → from_end n start ≤ℤ pos i
    → pos i ≤ℤ from_end n stop
    → ⊥
normalize_range-none start stop n i h p q r =
    checked-none n (low n start) (high n stop) i (sym (normalize_range-checked start stop n) ∙ h) p
      ((low_lem n start i).1.1 q) (((high_lem n stop i).1 p).1 r)
