-- ===== src/Prelude/Slices.antt =====
-- Go slices searched by `sort.Search`, and values put in and taken out at an index.
use Prim.Native.Nat.{ℕ, zero, suc, ◌<◌, ◌≤◌}
use mathlib.Core.Path.{◌≡◌}
use mathlib.Core.Bool.{Bool, true, false}
use mathlib.Core.List.{List, [], ◌∷◌, ◌++◌}
use mathlib.Core.Logic.{inl, inr}
use native.Mathlib.Omega.{arith}
use vole.Prelude.Tests.{if◌then◌else◌, Bool-cases}
use vole.Prelude.Lists.{length, take, drop}
use vole.Prelude.Search.{search, Monotone, search-FirstTrue, FirstTrue-unique}

-- `a[:i]`, then the value, then `a[i:]`: `append`, `copy(a[i+1:], a[i:])`, `a[i] = x`
abbrev pub insert_at {ℓ} : {A : Type ℓ} → ℕ → A → List A → List A
insert_at i x xs = take i xs ++ x ∷ drop i xs

-- `append(a[:i], a[i+1:]...)`
abbrev pub remove_at {ℓ} : {A : Type ℓ} → ℕ → List A → List A
remove_at i xs = take i xs ++ drop (suc i) xs

-- the value of a condition at an index of a slice; no call of the source is out of range
unfoldable pub at_index {ℓ} : {A : Type ℓ} → (A → Bool) → List A → ℕ → Bool
at_index f [] i = false
at_index f (x ∷ xs) zero = f x
at_index f (x ∷ xs) (suc i) = at_index f xs i

module _ {ℓ} {A : Type ℓ} where
  -- the first index of a slice where a condition holds, or its length
  unfoldable pub first_index : (A → Bool) → List A → ℕ
  first_index f [] = 0
  first_index f (x ∷ xs) = let rest = first_index f xs in if f x then 0 else suc rest

  -- A condition holds of every value.
  abbrev pub Every : (A → Bool) → List A → Type 0
  Every f [] = Unit {0}
  Every f (x ∷ xs) = (f x ≡ true) × Every f xs

  -- Where a condition holds, it holds from there on.
  abbrev pub Rises : (A → Bool) → List A → Type 0
  Rises f [] = Unit {0}
  Rises f (x ∷ xs) = (f x ≡ true → Every f xs) × Rises f xs

  at_index-Every :
      (f : A → Bool) (xs : List A) (i : ℕ) → Every f xs → i < length xs → at_index f xs i ≡ true
  unfolding at_index
  at_index-Every f [] i e h = absurd (omega arith)
  at_index-Every f (x ∷ xs) zero e h = e.0
  at_index-Every f (x ∷ xs) (suc i) e h = at_index-Every f xs i e.1 (omega arith)

  Rises-Monotone : (f : A → Bool) (xs : List A) → Rises f xs → Monotone (length xs) (at_index f xs)
  unfolding at_index
  Rises-Monotone f [] r a b p q h = absurd (omega arith)
  Rises-Monotone f (x ∷ xs) r zero zero p q h = h
  Rises-Monotone f (x ∷ xs) r zero (suc b) p q h = at_index-Every f xs b (r.0 h) (omega arith)
  Rises-Monotone f (x ∷ xs) r (suc a) zero p q h = absurd (omega arith)
  Rises-Monotone f (x ∷ xs) r (suc a) (suc b) p q h =
      Rises-Monotone f xs r.1 a b (omega arith) (omega arith) h

  first_index-le : (f : A → Bool) (xs : List A) → first_index f xs ≤ length xs
  unfolding first_index
  first_index-le f [] = omega arith
  first_index-le f (x ∷ xs) = ground (arith, first_index-le f xs)

  first_index_before :
      (f : A → Bool) (xs : List A) (k : ℕ) → k < first_index f xs → at_index f xs k ≡ false
  unfolding first_index at_index
  first_index_before f [] k h = absurd (omega arith)
  first_index_before f (x ∷ xs) zero h = ground arith
  first_index_before f (x ∷ xs) (suc k) h = elim (Bool-cases (f x)) [
    | inl e ↦ absurd (ground arith)
    | inr e ↦ first_index_before f xs k (ground arith)
  ]

  first_index_after :
      (f : A → Bool) (xs : List A) (k : ℕ)
      → Rises f xs
      → first_index f xs ≤ k
      → k < length xs
      → at_index f xs k ≡ true
  unfolding first_index at_index
  first_index_after f [] k r p q = absurd (omega arith)
  first_index_after f (x ∷ xs) zero r p q = ground arith
  first_index_after f (x ∷ xs) (suc k) r p q = elim (Bool-cases (f x)) [
    | inl e ↦ at_index-Every f xs k (r.0 e) (omega arith)
    | inr e ↦ first_index_after f xs k r.1 (ground arith) (omega arith)
  ]

  -- On a slice where the condition rises, the binary search finds the first index.
  pub search-first_index :
      (f : A → Bool) (xs : List A)
      → Rises f xs
      → search (length xs) (at_index f xs) ≡ first_index f xs
  search-first_index f xs r =
      FirstTrue-unique (length xs) (at_index f xs) _ _
        (search-FirstTrue (length xs) (at_index f xs) (Rises-Monotone f xs r))
        (record {
          within = first_index-le f xs;
          before = first_index_before f xs;
          after = λ k p q. first_index_after f xs k r p q;
        })
