-- ===== src/Deque/Insert.antt =====
-- `Insert` against lists.
use vole.Prelude.{
  ℕ, suc, ◌+◌, ◌-◌, ◌/◌, ◌%◌, ◌≤◌, ◌<◌, ◌≡◌, refl, ◌∙◌, ap, ◌∷◌, [], ◌++◌, length, get_or, arith,
  Bool-cases, inl, inr, leb, take, drop, length-set,
}
use vole.Prelude.Text.{Text}
use vole.Deque.{
  Deque, slot, at, step_back, make_room, open_gap, shift_left, shift_right, insert, to_slice,
}
use vole.Deque.Valid.{IsValid}
use vole.Deque.Slices.{Inserted, to_slice-Inserted}
use vole.Deque.Room.{HasRoom, make_room-HasRoom, front, front-IsValid, slot-front-suc}
use vole.Deque.Gap.{
  length-shift_left, shift_left_moves, shift_left_keeps, length-shift_right, shift_right_moves,
  shift_right_keeps,
}
use vole.Deque.Push.{at-written_self, at-written_ne}

-- `g` holds what `e` holds, with the logical index `i` free.
record HasGap (e g : Deque) (i : ℕ) : Type 0 where
  valid : IsValid g
  same_count : g.count ≡ e.count
  room : e.count < length g.buf
  below : (k : ℕ) → k < i → at g k ≡ at e k
  above : (k : ℕ) → i ≤ k → k < e.count → at g (suc k) ≡ at e k

module _ (e : Deque) (valid : IsValid e) (room : e.count < length e.buf) (i : ℕ)
    (h : i ≤ e.count) where
  abbrev left : Deque
  left = record e { buf = shift_left (step_back e) i 0 e.buf; head = step_back e }

  left-HasGap : i ≤ e.count / 2 → HasGap e left i
  unfolding at
  left-HasGap small = record {
    valid = record { head_in = omega (arith, f, same); count_in = omega (arith, same) };
    same_count = refl;
    room = omega (arith, same);
    below = λ k p.
        at_same k
        ∙ shift_left_moves (step_back e) i 0 e.buf (omega (arith, f)) (omega arith) k (omega arith)
            (omega arith)
        ∙ back k (omega arith);
    above = λ k p q.
        at_same (suc k)
        ∙ shift_left_keeps (step_back e) i 0 e.buf (omega (arith, f)) (omega arith) (suc k)
            (omega arith) (omega arith)
        ∙ back k (omega arith);
  }
    where
      f : IsValid (front e valid room)
      f = front-IsValid e valid room

      same : length left.buf ≡ length e.buf
      same = length-shift_left (step_back e) i 0 e.buf

      at_same : (k : ℕ) → at left k ≡ get_or left.buf ((step_back e + k) % length left.buf) []
      at_same k = refl

      back :
          (k : ℕ)
          → k < length e.buf
          → get_or e.buf ((step_back e + suc k) % length e.buf) [] ≡ at e k
      back k p = ap (λ s. get_or e.buf s []) (slot-front-suc e valid room k p)

  abbrev right : Deque
  right = record e { buf = shift_right e.head (e.count - i) i e.buf }

  right-HasGap : HasGap e right i
  unfolding at
  right-HasGap = record {
    valid = record { head_in = omega (arith, same); count_in = omega (arith, same) };
    same_count = refl;
    room = omega (arith, same);
    below = λ k p.
        shift_right_keeps e.head (e.count - i) i e.buf (omega arith) (omega arith) k (omega arith)
          (omega arith);
    above = λ k p q.
        shift_right_moves e.head (e.count - i) i e.buf (omega arith) (omega arith) k p
          (omega arith);
  }
    where
      same : length right.buf ≡ length e.buf
      same = length-shift_right e.head (e.count - i) i e.buf

  open_gap-HasGap : HasGap e (open_gap e i) i
  unfolding open_gap
  open_gap-HasGap = elim (Bool-cases (leb i (e.count / 2))) [
    | inl small ↦ rw small (left-HasGap (ground arith))
    | inr large ↦ rw large right-HasGap
  ]

module _ (d : Deque) (i : ℕ) (v : Text) (valid : IsValid d) (h : i ≤ d.count) where
  r : HasRoom d (make_room d)
  r = make_room-HasRoom d valid

  abbrev gap : Deque
  gap = open_gap (make_room d) i

  g : HasGap (make_room d) gap i
  g = open_gap-HasGap (make_room d) r.valid r.room i (omega (arith, r.same_count))

  insert-Inserted : Inserted d (insert d i v) i v
  unfolding insert at
  insert-Inserted = record {
    one_more = omega (arith, r.same_count, g.same_count);
    index_in = h;
    below = λ k p.
        at-written_ne gap v i g.valid at_room k (omega (arith, g.room, r.same_count)) (omega arith)
        ∙ g.below k p
        ∙ r.same k (omega arith);
    here = at-written_self gap v i g.valid at_room;
    above = λ k p q.
        at-written_ne gap v i g.valid at_room (suc k) (omega (arith, g.room, r.same_count))
          (omega arith)
        ∙ g.above k p (omega (arith, r.same_count))
        ∙ r.same k q;
  }
    where
      at_room : i < length gap.buf
      at_room = omega (arith, g.room, r.same_count)

  insert-IsValid : IsValid (insert d i v)
  unfolding insert
  insert-IsValid = record {
    head_in = omega (arith, g.valid, length-set gap.buf (slot gap i) v);
    count_in = omega (arith, g.room, g.same_count, length-set gap.buf (slot gap i) v);
  }

  -- `Insert` at an index up to `count` keeps the deque valid, and puts the value between the first
  -- `i` elements and the others, whichever part it shifts and whether or not the buffer grows.
  pub to_slice-insert :
      IsValid (insert d i v)
      × (to_slice (insert d i v) ≡ take i (to_slice d) ++ v ∷ drop i (to_slice d))
  to_slice-insert = (insert-IsValid, to_slice-Inserted d (insert d i v) i v insert-Inserted)
