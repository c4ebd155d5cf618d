-- ===== src/Deque/Access.antt =====
-- `Range`, `Get`, `Set` and `Len` against lists.
use native.Mathlib.Nat.{zero-add}
use vole.Prelude.{
  ℕ, ◌+◌, ◌-◌, ◌≤◌, ◌<◌, ◌≡◌, sym, ◌∙◌, ap, ap₂, [], length, set, take, drop, get_or, arith, some,
  none, collect, collect-set, take-drop-collect, get_or-collect, Option-cases, inl, inr,
}
use vole.Prelude.Int.{ℤ}
use vole.Prelude.Text.{Text}
use vole.Ranges.{normalize_range}
use vole.Ranges.Bounds.{normalize_range_bounds}
use vole.Deque.{Deque, at, get, set_at, range, len, to_slice}
use vole.Deque.Valid.{IsValid, to_slice-collect}
use vole.Deque.Slices.{length-to_slice}
use vole.Deque.Push.{written, at-written_self, at-written_ne, written-IsValid}

-- `Get` at an index below `Len` reads the element at that place of the list, and `Len` is the
-- list's length.
pub get-to_slice :
    (d : Deque) (i : ℕ)
    → i < len d
    → (get d i ≡ get_or (to_slice d) i []) × (len d ≡ length (to_slice d))
unfolding get len
get-to_slice d i h = (
  unfold at in
      sym (rw to_slice-collect (get_or-collect d.count 0 i (at d) [] h ∙ ap (at d) (zero-add i))),
  sym (length-to_slice d),
)

-- `Set` at an index below `Len` keeps the deque valid and replaces that element and no other.
pub to_slice-set_at :
    (d : Deque) (i : ℕ) (v : Text)
    → IsValid d
    → i < d.count
    → IsValid (set_at d i v) × (to_slice (set_at d i v) ≡ set (to_slice d) i v)
unfolding set_at
to_slice-set_at d i v valid h = (
  written-IsValid d v i valid room,
  to_slice-collect w
      ∙ collect-set d.count 0 i (at d) (at w) h (λ k p ne.
        simp zero-add (at-written_ne d v i valid room k (omega arith) (λ e. ne (sym e))))
      ∙ ap₂ (λ xs x. set xs i x) (sym (to_slice-collect d))
          (ap (at w) (zero-add i) ∙ at-written_self d v i valid room),
)
  where
    room : i < length d.buf
    room = omega arith

    w : Deque
    w = written d v i valid room

part : (d : Deque) (i m : ℕ) → i + m ≤ d.count → collect m i (at d) ≡ take m (drop i (to_slice d))
part d i m h =
    ap (λ k. collect m k (at d)) (sym (zero-add i))
    ∙ sym (take-drop-collect m d.count 0 i (at d) h)
    ∙ ap (λ xs. take m (drop i xs)) (sym (to_slice-collect d))

-- `Range` reads the part of the list between the normalised ends, and nothing when they are out of
-- order.
pub range-to_slice :
    (d : Deque) (start stop : ℤ)
    → range d start stop ≡ elim (normalize_range start stop (length (to_slice d))) [
      | none ↦ []
      | some (from, to) ↦ take (to + 1 - from) (drop from (to_slice d))
    ]
unfolding range
range-to_slice d start stop =
    rw length-to_slice (elim (Option-cases (normalize_range start stop d.count)) [
      | inl e ↦ rw (e, range)
      | inr ((from, to), e) ↦
          rw (e, range)
            (part d from (to + 1 - from)
              (omega (arith, normalize_range_bounds start stop d.count from to e)))
    ])
