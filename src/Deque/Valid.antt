-- ===== src/Deque/Valid.antt =====
-- The representation invariant of `Deque`, and where its slots lie.
use vole.Prelude.{
  ℕ, ◌-◌, ◌≤◌, ◌<◌, ◌≡◌, ◌≢◌, length, arith, collect, collect_zero_ext, sym, ◌∙◌, subst, wrap-lt,
  wrap-ne, Bool-cases, ◌==◌, inl, inr,
}
use vole.Deque.{Deque, empty, slot, at, to_slice}

pub record IsValid (d : Deque) : Type 0 where
  -- `head` is an index of the buffer, or 0 while there is no buffer
  pub head_in : d.head ≤ length d.buf - 1
  pub count_in : d.count ≤ length d.buf

pub empty-IsValid : IsValid empty
empty-IsValid = omega arith

-- Each logical index stands in the buffer.
pub slot-lt : (d : Deque) (i : ℕ) → IsValid d → i < length d.buf → slot d i < length d.buf
slot-lt d i v h = wrap-lt d.head i (length d.buf) (omega arith) (omega arith)

-- Two logical indices have two slots.
pub slot-ne :
    (d : Deque) (i j : ℕ)
    → IsValid d
    → i < length d.buf
    → j < length d.buf
    → i ≢ j
    → slot d i ≢ slot d j
slot-ne d i j v h k ne = wrap-ne d.head i j (length d.buf) (omega arith) h k ne

-- `ToSlice` reads the elements in order; its test on `count` changes nothing.
pub to_slice-collect : (d : Deque) → to_slice d ≡ collect d.count 0 (at d)
unfolding to_slice collect
to_slice-collect d = elim (Bool-cases (d.count == 0)) [
  | inl e ↦ ground arith
  | inr e ↦ ground arith
]

-- Deques that agree at every logical index have one slice.
pub to_slice_ext :
    (d e : Deque)
    → d.count ≡ e.count
    → ((k : ℕ) → k < d.count → at d k ≡ at e k)
    → to_slice d ≡ to_slice e
to_slice_ext d e c h =
    to_slice-collect d
    ∙ subst (λ n. collect d.count 0 (at d) ≡ collect n 0 (at e)) c
        (collect_zero_ext d.count (at d) (at e) h)
    ∙ sym (to_slice-collect e)
