-- ===== src/Deque/Pop.antt =====
-- `PopFront` and `PopBack` against lists.
use native.Mathlib.Numerals.{add-one}
use vole.Prelude.{
  ℕ, suc, ◌+◌, ◌-◌, ◌%◌, ◌<◌, ◌≡◌, refl, sym, ◌∙◌, ap, [], ◌++◌, length, get_or, set, arith, none,
  Bool-cases, inl, inr, ◌==◌, get_or-set_ne, length-set, wrap_forward, append-nil, wrap_cases,
  list_of,
}
use vole.Deque.{Deque, slot, at, pop_front, pop_back, to_slice}
use vole.Deque.Valid.{IsValid, slot-ne}
use vole.Deque.Slices.{Inserted, to_slice-cons, to_slice-snoc}
use vole.Deque.Push.{at-written_ne}

-- What is left when the front element goes.
module _ (d : Deque) (valid : IsValid d) (some_left : 0 < d.count) where
  abbrev popped_front : Deque
  popped_front = record {
    buf = set d.buf d.head [];
    head = (d.head + 1) % length d.buf;
    count = d.count - 1;
  }

  popped_front-IsValid : IsValid popped_front
  popped_front-IsValid = record {
    head_in = omega (
      arith,
      wrap_cases d.head 1 (length d.buf) (omega arith) (omega arith),
      length-set d.buf d.head [],
    );
    count_in = omega (arith, length-set d.buf d.head []);
  }

  slot_zero : slot d 0 ≡ d.head
  slot_zero = omega (arith, wrap_cases d.head 0 (length d.buf) (omega arith) (omega arith))

  -- The element after the popped one is now the first.
  at-popped_front : (k : ℕ) → suc k < d.count → at popped_front k ≡ at d (suc k)
  unfolding at
  at-popped_front k h =
      ap (λ n. get_or (set d.buf d.head []) (((d.head + 1) % length d.buf + k) % n) [])
        (length-set d.buf d.head [])
      ∙ ap (λ s. get_or (set d.buf d.head []) s []) forward
      ∙ get_or-set_ne d.buf d.head (slot d (suc k)) [] [] apart
    where
      forward : ((d.head + 1) % length d.buf + k) % length d.buf ≡ slot d (suc k)
      forward =
          wrap_forward d.head k (length d.buf) (omega arith) (omega arith)
          ∙ ap (λ i. (d.head + i) % length d.buf) (add-one k)

      apart : d.head ≡ slot d (suc k) → ⊥
      apart e = slot-ne d 0 (suc k) valid (omega arith) (omega arith) (omega arith) (slot_zero ∙ e)

  popped_front-Inserted : Inserted popped_front d 0 (get_or d.buf d.head [])
  popped_front-Inserted = record {
    one_more = omega arith;
    index_in = omega arith;
    below = λ k p. absurd (omega arith);
    here = unfold at in ap (λ s. get_or d.buf s []) slot_zero;
    above = λ k p q. sym (at-popped_front k (omega arith));
  }

-- `PopFront` keeps a valid deque valid; it takes the first element off, and fails only on an
-- empty deque.
pub to_slice-pop_front :
    (d : Deque)
    → IsValid d
    → let (x, e) = pop_front d in
      IsValid e × (to_slice d ≡ list_of x ++ to_slice e) × (x ≡ none → to_slice d ≡ [])
unfolding pop_front
to_slice-pop_front d valid = elim (Bool-cases (d.count == 0)) [
  | inl e ↦ rw e (valid, refl, λ _. unfold to_slice in rw e)
  | inr e ↦
      let left : 0 < d.count = ground arith in
      rw e (
        popped_front-IsValid d valid left,
        to_slice-cons (popped_front d valid left) d (get_or d.buf d.head [])
            (popped_front-Inserted d valid left),
        λ h. cc,
      )
]

-- `PopBack` clears the last slot and keeps `head`.
module _ (d : Deque) (valid : IsValid d) (some_left : 0 < d.count) where
  abbrev last : ℕ
  last = (d.head + d.count - 1) % length d.buf

  slot-last : slot d (d.count - 1) ≡ last
  slot-last = ap (λ i. i % length d.buf) (omega arith)

  abbrev popped_back : Deque
  popped_back = record d { buf = set d.buf last []; count = d.count - 1 }

  at-popped_back : (k : ℕ) → k < d.count - 1 → at popped_back k ≡ at d k
  unfolding at
  at-popped_back k h =
      ap (λ s. get_or (set d.buf s []) ((d.head + k) % length (set d.buf s [])) []) (sym slot-last)
      ∙ at-written_ne d [] (d.count - 1) valid (omega arith) k (omega arith) (omega arith)

  popped_back-Inserted : Inserted popped_back d (d.count - 1) (get_or d.buf last [])
  popped_back-Inserted = record {
    one_more = omega arith;
    index_in = omega arith;
    below = λ k p. sym (at-popped_back k p);
    here = unfold at in ap (λ s. get_or d.buf s []) slot-last;
    above = λ k p q. absurd (omega arith);
  }

  popped_back-IsValid : IsValid popped_back
  popped_back-IsValid = record {
    head_in = omega (arith, length-set d.buf last []);
    count_in = omega (arith, length-set d.buf last []);
  }

-- `PopBack` keeps a valid deque valid; it takes the last element off, and fails only on an empty
-- deque.
pub to_slice-pop_back :
    (d : Deque)
    → IsValid d
    → let (x, e) = pop_back d in
      IsValid e × (to_slice d ≡ to_slice e ++ list_of x) × (x ≡ none → to_slice d ≡ [])
unfolding pop_back
to_slice-pop_back d valid = elim (Bool-cases (d.count == 0)) [
  | inl e ↦ rw e (valid, sym (append-nil (to_slice d)), λ _. unfold to_slice in rw e)
  | inr e ↦
      let left : 0 < d.count = ground arith in
      rw e (
        popped_back-IsValid d valid left,
        to_slice-snoc (popped_back d valid left) d (get_or d.buf (last d valid left) [])
            (popped_back-Inserted d valid left),
        λ h. cc,
      )
]
