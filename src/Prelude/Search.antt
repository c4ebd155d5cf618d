-- ===== src/Prelude/Search.antt =====
-- `sort.Search` of Go's library, as it is written there, and the point that it finds.
use Prim.Native.Nat.{ℕ, zero, suc, ◌+◌, ◌/◌, ◌<◌, ◌≤◌}
use mathlib.Core.Path.{◌≡◌}
use mathlib.Core.Bool.{Bool, true, false}
use mathlib.Core.Logic.{inl, inr}
use native.Mathlib.Decide.{dec_lt}
use native.Mathlib.Omega.{arith}
use vole.Prelude.Tests.{ltb, Bool-cases}

-- `for i < j { h := (i+j)/2; if !f(h) { i = h+1 } else { j = h } }; return i`, with a bound on the
-- number of rounds
unfoldable pub search_loop : ℕ → ℕ → ℕ → (ℕ → Bool) → ℕ
search_loop zero i j f = i
search_loop (suc fuel) i j f =
    let h = (i + j) / 2 in
    elim (ltb i j) [
      | true ↦ elim (f h) [ true ↦ search_loop fuel i h f | false ↦ search_loop fuel (h + 1) j f ]
      | false ↦ i
    ]

-- `sort.Search(n, f)`: the loop shortens `j - i` in each round, so `n` rounds are enough.
unfoldable pub search : ℕ → (ℕ → Bool) → ℕ
unfolding search_loop
search n f = search_loop n 0 n f

-- `r` is the first index of `[i, n)` where `f` holds, or `n`.
pub record FirstTrue (n : ℕ) (f : ℕ → Bool) (r : ℕ) : Type 0 where
  pub within : r ≤ n
  pub before : (k : ℕ) → k < r → f k ≡ false
  pub after : (k : ℕ) → r ≤ k → k < n → f k ≡ true

-- `f` changes once, from false to true.
abbrev pub Monotone : ℕ → (ℕ → Bool) → Type 0
Monotone n f = (a b : ℕ) → a ≤ b → b < n → f a ≡ true → f b ≡ true

search_loop-FirstTrue :
    (fuel i j n : ℕ) (f : ℕ → Bool)
    → Monotone n f
    → j ≤ i + fuel
    → i ≤ j
    → j ≤ n
    → ((k : ℕ) → k < i → f k ≡ false)
    → ((k : ℕ) → j ≤ k → k < n → f k ≡ true)
    → FirstTrue n f (search_loop fuel i j f)
unfolding search_loop
search_loop-FirstTrue zero i j n f mono enough le top lo hi = record {
  within = omega arith;
  before = lo;
  after = λ k p q. hi k (omega arith) q;
}
search_loop-FirstTrue (suc fuel) i j n f mono enough le top lo hi = elim (Bool-cases (ltb i j)) [
  | inr done ↦
      rw (done, search_loop)
        (record { within = omega arith; before = lo; after = λ k p q. hi k (ground arith) q })
  | inl more ↦ elim (Bool-cases (f ((i + j) / 2))) [
    | inl yes_here ↦
        rw (more, search_loop, yes_here)
          (search_loop-FirstTrue fuel i ((i + j) / 2) n f mono (ground arith) (ground arith)
            (ground arith) lo (λ k p q. mono ((i + j) / 2) k p q yes_here))
    | inr not_here ↦
        rw (more, search_loop, not_here)
          (search_loop-FirstTrue fuel ((i + j) / 2 + 1) j n f mono (ground arith) (ground arith) top
            (λ k p. below k (ground arith) (omega arith) not_here) hi)
  ]
]
  where
    below : (k : ℕ) → (i + j) / 2 < n → k ≤ (i + j) / 2 → f ((i + j) / 2) ≡ false → f k ≡ false
    below k b p e = elim (Bool-cases (f k)) [
      | inr no_k ↦ no_k
      | inl yes_k ↦ cc (mono k ((i + j) / 2) p b yes_k)
    ]

-- On a predicate that changes once, `sort.Search` finds where.
pub search-FirstTrue : (n : ℕ) (f : ℕ → Bool) → Monotone n f → FirstTrue n f (search n f)
unfolding search
search-FirstTrue n f mono =
    search_loop-FirstTrue n 0 n n f mono (omega arith) (omega arith) (omega arith)
      (λ k p. absurd (omega arith)) (λ k p q. absurd (omega arith))

-- There is one such index.
pub FirstTrue-unique : (n : ℕ) (f : ℕ → Bool) (r s : ℕ) → FirstTrue n f r → FirstTrue n f s → r ≡ s
FirstTrue-unique n f r s p q = elim (dec_lt r s) [
  | yes l ↦ cc (p.after r (omega arith) (omega (arith, q.within)), q.before r l)
  | no l ↦ elim (dec_lt s r) [
    | yes m ↦ cc (q.after s (omega arith) (omega (arith, p.within)), p.before s m)
    | no m ↦ omega arith
  ]
]
