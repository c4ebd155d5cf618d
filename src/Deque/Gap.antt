-- ===== src/Deque/Gap.antt =====
-- The two shifts of `Insert`, read at each logical index.
use vole.Prelude.{
  ℕ, zero, suc, ◌+◌, ◌-◌, ◌%◌, ◌≤◌, ◌<◌, ◌≡◌, refl, ◌∙◌, subst, ap, List, [], length, get_or, set,
  arith, get_or-set_self, get_or-set_ne, length-set, wrap-ne, wrap-lt, dec_lt, ◌≢◌, ◌⊎◌,
}
use vole.Prelude.Text.{Text}
use vole.Deque.{shift_left, shift_right}

pub length-shift_left : (h n j : ℕ) (buf : List Text) → length (shift_left h n j buf) ≡ length buf
unfolding shift_left
length-shift_left h zero j buf = refl
length-shift_left h (suc n) j buf =
    length-shift_left h n (j + 1) (set buf ((h + j) % length buf) v)
    ∙ length-set buf ((h + j) % length buf) v
  where
    v : Text
    v = get_or buf ((h + 1 + j) % length buf) []

-- the value at the logical index `k` of a buffer whose first slot is `h`
abbrev pub cell : List Text → ℕ → ℕ → Text
cell buf h k = get_or buf ((h + k) % length buf) []

-- One assignment between two slots, read at a logical index.
module _ (buf : List Text) (h i : ℕ) (v : Text) (hh : h < length buf) (hi : i < length buf) where
  abbrev buf' : List Text
  buf' = set buf ((h + i) % length buf) v

  cell-set_ne : (k : ℕ) → k < length buf → i ≢ k → cell buf' h k ≡ cell buf h k
  cell-set_ne k hk ne =
      ap (λ n. get_or buf' ((h + k) % n) []) (length-set buf ((h + i) % length buf) v)
      ∙ get_or-set_ne buf ((h + i) % length buf) ((h + k) % length buf) v []
          (wrap-ne h i k (length buf) hh hi hk ne)

  cell-set_self : cell buf' h i ≡ v
  cell-set_self =
      ap (λ n. get_or buf' ((h + i) % n) []) (length-set buf ((h + i) % length buf) v)
      ∙ get_or-set_self buf ((h + i) % length buf) v [] (wrap-lt h i (length buf) hh (omega arith))

-- One round of the left shift.
abbrev left_round : ℕ → ℕ → List Text → List Text
left_round h j buf = set buf ((h + j) % length buf) (get_or buf ((h + 1 + j) % length buf) [])

pub shift_left_keeps :
    (h n j : ℕ) (buf : List Text)
    → h < length buf
    → j + n < length buf
    → (k : ℕ) → k < length buf
    → (k < j) ⊎ (j + n ≤ k)
    → cell (shift_left h n j buf) h k ≡ cell buf h k
unfolding shift_left
shift_left_keeps h zero j buf p q k r out = refl
shift_left_keeps h (suc n) j buf p q k r out =
    shift_left_keeps h n (j + 1) (left_round h j buf) (omega (arith, same)) (omega (arith, same)) k
      (omega (arith, same)) (omega arith)
    ∙ cell-set_ne buf h j (get_or buf ((h + 1 + j) % length buf) []) p (omega arith) k r
        (omega arith)
  where
    same : length (left_round h j buf) ≡ length buf
    same = length-set buf ((h + j) % length buf) (get_or buf ((h + 1 + j) % length buf) [])

-- The left shift moves the `n` elements after `j` one index down, and no others.
pub shift_left_moves :
    (h n j : ℕ) (buf : List Text)
    → h < length buf
    → j + n < length buf
    → (k : ℕ) → j ≤ k
    → k < j + n
    → cell (shift_left h n j buf) h k ≡ cell buf h (suc k)
unfolding shift_left
shift_left_moves h zero j buf p q k r s = absurd (omega arith)
shift_left_moves h (suc n) j buf p q k r s = elim (dec_lt j k) [
  | yes l ↦
      shift_left_moves h n (j + 1) (left_round h j buf) (omega (arith, same)) (omega (arith, same))
        k (omega arith) (omega arith)
      ∙ cell-set_ne buf h j v p (omega arith) (suc k) (omega arith) (omega arith)
  | no l ↦
      shift_left_keeps h n (j + 1) (left_round h j buf) (omega (arith, same)) (omega (arith, same))
        k (omega (arith, same)) (omega arith)
      ∙ first (omega arith)
]
  where
    v : Text
    v = get_or buf ((h + 1 + j) % length buf) []

    same : length (left_round h j buf) ≡ length buf
    same = length-set buf ((h + j) % length buf) v

    first : j ≡ k → cell (left_round h j buf) h k ≡ cell buf h (suc k)
    first e =
        subst (λ i. cell (left_round h j buf) h i ≡ cell buf h (suc i)) e
          (cell-set_self buf h j v p (omega arith)
            ∙ ap (λ i. get_or buf (i % length buf) []) (omega arith))

-- One round of the right shift.
abbrev right_round : ℕ → ℕ → List Text → List Text
right_round h j buf = set buf ((h + j) % length buf) (get_or buf ((h + j - 1) % length buf) [])

pub length-shift_right : (h n i : ℕ) (buf : List Text) → length (shift_right h n i buf) ≡ length buf
unfolding shift_right
length-shift_right h zero i buf = refl
length-shift_right h (suc n) i buf =
    length-shift_right h n i (right_round h (i + suc n) buf)
    ∙ length-set buf ((h + (i + suc n)) % length buf)
        (get_or buf ((h + (i + suc n) - 1) % length buf) [])

pub shift_right_keeps :
    (h n i : ℕ) (buf : List Text)
    → h < length buf
    → i + n < length buf
    → (k : ℕ) → k < length buf
    → (k ≤ i) ⊎ (i + n < k)
    → cell (shift_right h n i buf) h k ≡ cell buf h k
unfolding shift_right
shift_right_keeps h zero i buf p q k r out = refl
shift_right_keeps h (suc n) i buf p q k r out =
    shift_right_keeps h n i (right_round h (i + suc n) buf) (omega (arith, same))
      (omega (arith, same)) k (omega (arith, same)) (omega arith)
    ∙ cell-set_ne buf h (i + suc n) (get_or buf ((h + (i + suc n) - 1) % length buf) []) p
        (omega arith) k r (omega arith)
  where
    same : length (right_round h (i + suc n) buf) ≡ length buf
    same =
        length-set buf ((h + (i + suc n)) % length buf)
          (get_or buf ((h + (i + suc n) - 1) % length buf) [])

-- The right shift moves the `n` elements from `i` on one index up, and no others.
pub shift_right_moves :
    (h n i : ℕ) (buf : List Text)
    → h < length buf
    → i + n < length buf
    → (k : ℕ) → i ≤ k
    → k < i + n
    → cell (shift_right h n i buf) h (suc k) ≡ cell buf h k
unfolding shift_right
shift_right_moves h zero i buf p q k r s = absurd (omega arith)
shift_right_moves h (suc n) i buf p q k r s = elim (dec_lt k (i + n)) [
  | yes l ↦
      shift_right_moves h n i (right_round h (i + suc n) buf) (omega (arith, same))
        (omega (arith, same)) k r l
      ∙ cell-set_ne buf h (i + suc n) v p (omega arith) k (omega arith) (omega arith)
  | no l ↦
      shift_right_keeps h n i (right_round h (i + suc n) buf) (omega (arith, same))
        (omega (arith, same)) (suc k) (omega (arith, same)) (omega arith)
      ∙ last (omega arith)
]
  where
    v : Text
    v = get_or buf ((h + (i + suc n) - 1) % length buf) []

    same : length (right_round h (i + suc n) buf) ≡ length buf
    same = length-set buf ((h + (i + suc n)) % length buf) v

    last : k ≡ i + n → cell (right_round h (i + suc n) buf) h (suc k) ≡ cell buf h k
    last e =
        subst (λ m. cell (right_round h (i + suc n) buf) h m ≡ cell buf h k) (omega arith)
          (cell-set_self buf h (i + suc n) v p (omega arith)
            ∙ ap (λ m. get_or buf (m % length buf) []) (omega arith))
