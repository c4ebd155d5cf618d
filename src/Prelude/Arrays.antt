-- ===== src/Prelude/Arrays.antt =====
-- Go slices filled and read by index: the list of the values of a function at consecutive indices.
use Prim.Native.Nat.{ℕ, zero, suc, ◌+◌, ◌<◌, ◌≤◌}
use mathlib.Core.Path.{◌≡◌, refl, ap, ap₂, ◌∙◌}
use mathlib.Core.Logic.{◌≢◌}
use mathlib.Core.List.{List, [], ◌∷◌, ◌++◌}
use native.Mathlib.Nat.{add-zero, zero-add}
use native.Mathlib.Omega.{arith}
use vole.Prelude.Lists.{length, get_or, set, take, drop}

module _ {ℓ} {A : Type ℓ} where
  pub get_or-set_self :
      (xs : List A) (i : ℕ) (v d : A) → i < length xs → get_or (set xs i v) i d ≡ v
  get_or-set_self [] i v d h = absurd (omega arith)
  get_or-set_self (x ∷ xs) zero v d h = refl
  get_or-set_self (x ∷ xs) (suc i) v d h = get_or-set_self xs i v d (omega arith)

  pub get_or-set_ne :
      (xs : List A) (i j : ℕ) (v d : A) → i ≢ j → get_or (set xs i v) j d ≡ get_or xs j d
  get_or-set_ne [] i j v d h = refl
  get_or-set_ne (x ∷ xs) zero zero v d h = absurd (h refl)
  get_or-set_ne (x ∷ xs) zero (suc j) v d h = refl
  get_or-set_ne (x ∷ xs) (suc i) zero v d h = refl
  get_or-set_ne (x ∷ xs) (suc i) (suc j) v d h = get_or-set_ne xs i j v d (λ e. h (ap suc e))

  -- `for k := i; k < i+n; k++ { out = append(out, f(k)) }`
  unfoldable pub collect : ℕ → ℕ → (ℕ → A) → List A
  collect zero i f = []
  collect (suc n) i f = f i ∷ collect n (i + 1) f

  pub length-collect : (n i : ℕ) (f : ℕ → A) → length (collect n i f) ≡ n
  unfolding collect
  length-collect zero i f = refl
  length-collect (suc n) i f = ap suc (length-collect n (i + 1) f)

  -- Two slices agree when their functions agree on the range.
  pub collect_ext :
      (n i j : ℕ) (f g : ℕ → A)
      → ((k : ℕ) → k < n → f (i + k) ≡ g (j + k))
      → collect n i f ≡ collect n j g
  unfolding collect
  collect_ext zero i j f g h = refl
  collect_ext (suc n) i j f g h = ap₂ ◌∷◌ (simp add-zero at (h 0 (omega arith))) (
      collect_ext n (i + 1) (j + 1) f g
        (λ k p. rw (shift i k, shift j k) (h (suc k) (omega arith))))
    where
      shift : (a k : ℕ) → a + 1 + k ≡ a + suc k
      shift a k = omega arith

  pub collect_zero_ext :
      (n : ℕ) (f g : ℕ → A) → ((k : ℕ) → k < n → f k ≡ g k) → collect n 0 f ≡ collect n 0 g
  collect_zero_ext n f g h = collect_ext n 0 0 f g (λ k p. simp zero-add (h k p))

  -- A slice with one more value: `g` is `f` below `i`, `v` at `i`, and `f` one later above.
  pub collect_insert :
      (i n a : ℕ) (f g : ℕ → A) (v : A)
      → i ≤ n
      → ((k : ℕ) → k < i → g (a + k) ≡ f (a + k))
      → g (a + i) ≡ v
      → ((k : ℕ) → i ≤ k → k < n → g (a + suc k) ≡ f (a + k))
      → collect (suc n) a g ≡ take i (collect n a f) ++ v ∷ drop i (collect n a f)
  unfolding collect
  collect_insert zero n a f g v h below here above =
      ap₂ ◌∷◌ (rw add-zero at here)
        (collect_ext n (a + 1) a g f (λ k p. rw (shift k) (above k (omega arith) p)))
    where
      shift : (k : ℕ) → a + 1 + k ≡ a + suc k
      shift k = omega arith
  collect_insert (suc i) zero a f g v h below here above = absurd (omega arith)
  collect_insert (suc i) (suc n) a f g v h below here above =
      ap₂ ◌∷◌ (simp add-zero at (below 0 (omega arith))) (
        collect_insert i n (a + 1) f g v (omega arith)
          (λ k p. rw (shift k) (below (suc k) (omega arith))) (rw (shift i) here)
          (λ k p q. rw (shift k, shift (suc k)) (above (suc k) (omega arith) (omega arith))))
    where
      shift : (k : ℕ) → a + 1 + k ≡ a + suc k
      shift k = omega arith

  -- A part of a slice.
  pub take-drop-collect :
      (m n a i : ℕ) (f : ℕ → A) → i + m ≤ n → take m (drop i (collect n a f)) ≡ collect m (a + i) f
  unfolding collect
  take-drop-collect zero n a i f h = refl
  take-drop-collect (suc m) zero a i f h = absurd (omega arith)
  take-drop-collect (suc m) (suc n) a zero f h =
      ap₂ ◌∷◌ (ap f (omega arith))
        (take-drop-collect m n (a + 1) 0 f (omega arith) ∙ ap (λ k. collect m k f) (omega arith))
  take-drop-collect (suc m) (suc n) a (suc i) f h =
      take-drop-collect (suc m) n (a + 1) i f (omega arith)
      ∙ ap (λ k. collect (suc m) k f) (omega arith)

  -- A slice with one value replaced.
  pub collect-set :
      (n a i : ℕ) (f g : ℕ → A)
      → i < n
      → ((k : ℕ) → k < n → k ≢ i → g (a + k) ≡ f (a + k))
      → collect n a g ≡ set (collect n a f) i (g (a + i))
  unfolding collect
  collect-set zero a i f g h same = absurd (omega arith)
  collect-set (suc n) a zero f g h same = ap₂ ◌∷◌ (rw add-zero) (
      collect_ext n (a + 1) (a + 1) g f
        (λ k p. rw (shift k) (same (suc k) (omega arith) (omega arith))))
    where
      shift : (k : ℕ) → a + 1 + k ≡ a + suc k
      shift k = omega arith
  collect-set (suc n) a (suc i) f g h same =
      ap₂ ◌∷◌ (simp add-zero at (same 0 (omega arith) (omega arith))) (
        collect-set n (a + 1) i f g (omega arith)
          (λ k p q. rw (shift k) (same (suc k) (omega arith) (omega arith)))
        ∙ ap (λ k. set (collect n (a + 1) f) i (g k)) (shift i))
    where
      shift : (k : ℕ) → a + 1 + k ≡ a + suc k
      shift k = omega arith

  pub get_or-collect :
      (n i j : ℕ) (f : ℕ → A) (d : A) → j < n → get_or (collect n i f) j d ≡ f (i + j)
  unfolding collect
  get_or-collect zero i j f d h = absurd (omega arith)
  get_or-collect (suc n) i zero f d h = rw add-zero
  get_or-collect (suc n) i (suc j) f d h =
      rw (← shift) (get_or-collect n (i + 1) j f d (omega arith))
    where
      shift : i + 1 + j ≡ i + suc j
      shift = omega arith
