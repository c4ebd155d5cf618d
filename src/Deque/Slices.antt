-- ===== src/Deque/Slices.antt =====
-- What a deque holds as a list, from what it holds at each logical index.
use native.Mathlib.Nat.{zero-add}
use vole.Prelude.{
  ℕ, suc, ◌+◌, ◌≤◌, ◌<◌, ◌≡◌, ◌∙◌, ap, ap₂, ◌∷◌, [], ◌++◌, length, arith, take, drop,
  collect_insert, length-collect, take_all, drop_all,
}
use vole.Prelude.Text.{Text}
use vole.Deque.{Deque, at, to_slice}
use vole.Deque.Valid.{to_slice-collect}

pub length-to_slice : (d : Deque) → length (to_slice d) ≡ d.count
length-to_slice d = ap length (to_slice-collect d) ∙ length-collect d.count 0 (at d)

-- `e` is `d` with `v` at the logical index `i`, the later elements one further on.
pub record Inserted (d e : Deque) (i : ℕ) (v : Text) : Type 0 where
  pub one_more : e.count ≡ d.count + 1
  pub index_in : i ≤ d.count
  pub below : (k : ℕ) → k < i → at e k ≡ at d k
  pub here : at e i ≡ v
  pub above : (k : ℕ) → i ≤ k → k < d.count → at e (suc k) ≡ at d k

pub to_slice-Inserted :
    (d e : Deque) (i : ℕ) (v : Text)
    → Inserted d e i v
    → to_slice e ≡ take i (to_slice d) ++ v ∷ drop i (to_slice d)
unfolding at
to_slice-Inserted d e i v h =
    rw (to_slice-collect e, to_slice-collect d, more)
      (collect_insert i d.count 0 (at d) (at e) v h.index_in (λ k p. simp zero-add (h.below k p))
        (rw zero-add h.here) (λ k p q. simp zero-add (h.above k p q)))
  where
    more : e.count ≡ suc d.count
    more = omega (arith, h.one_more)

-- At the front and at the back.
pub to_slice-cons : (d e : Deque) (v : Text) → Inserted d e 0 v → to_slice e ≡ v ∷ to_slice d
to_slice-cons d e v h = to_slice-Inserted d e 0 v h

pub to_slice-snoc :
    (d e : Deque) (v : Text) → Inserted d e d.count v → to_slice e ≡ to_slice d ++ v ∷ []
to_slice-snoc d e v h =
    to_slice-Inserted d e d.count v h
    ∙ ap₂ (λ xs ys. xs ++ v ∷ ys) (take_all d.count (to_slice d) (omega (arith, length-to_slice d)))
        (drop_all d.count (to_slice d) (omega (arith, length-to_slice d)))
