-- ===== src/Deque/Push.antt =====
-- `PushBack` and `PushFront` against lists.
use vole.Prelude.{
  ℕ, suc, ◌+◌, ◌%◌, ◌<◌, ◌≡◌, refl, sym, ◌∙◌, subst, ap, List, ◌∷◌, [], ◌++◌, length, get_or, set,
  arith, get_or-set_self, get_or-set_ne, length-set, reverse, append_assoc, append-nil,
}
use mathlib.Core.List.{reverse-cons}
use vole.Prelude.Text.{Text}
use vole.Deque.{
  Deque, slot, step_back, at, make_room, push_back_one, push_back, push_front_one, push_front,
  to_slice,
}
use vole.Deque.Valid.{IsValid, slot-lt, slot-ne}
use vole.Deque.Slices.{Inserted, to_slice-cons, to_slice-snoc}
use vole.Deque.Room.{
  front, front-IsValid, slot-front_zero, slot-front-suc, HasRoom, make_room-HasRoom,
}

-- A write at the slot of `i`, read back at another logical index or at `i`.
module _ (d : Deque) (v : Text) (i : ℕ) (valid : IsValid d) (h : i < length d.buf) where
  abbrev pub written : Deque
  written = record d { buf = set d.buf (slot d i) v }

  pub slot-written : (j : ℕ) → slot written j ≡ slot d j
  slot-written j = ap (λ n. (d.head + j) % n) (length-set d.buf (slot d i) v)

  pub at-written_self : at written i ≡ v
  unfolding at
  at-written_self =
      rw (slot-written i) (get_or-set_self d.buf (slot d i) v [] (slot-lt d i valid h))

  pub at-written_ne : (j : ℕ) → j < length d.buf → (i ≡ j → ⊥) → at written j ≡ at d j
  unfolding at
  at-written_ne j k ne =
      rw (slot-written j)
        (get_or-set_ne d.buf (slot d i) (slot d j) v [] (slot-ne d i j valid h k ne))

  pub written-IsValid : IsValid written
  written-IsValid = record {
    head_in = omega (arith, length-set d.buf (slot d i) v);
    count_in = omega (arith, length-set d.buf (slot d i) v);
  }

push_back_one-Inserted :
    (d : Deque) (v : Text) → IsValid d → Inserted d (push_back_one d v) d.count v
unfolding push_back_one at
push_back_one-Inserted d v valid = record {
  one_more = omega (arith, r.same_count);
  index_in = omega arith;
  below = λ k p.
      at-written_ne e v e.count r.valid r.room k (omega (arith, r.same_count, r.room))
        (omega (arith, r.same_count))
      ∙ r.same k p;
  here = subst (λ n. at w n ≡ v) r.same_count (at-written_self e v e.count r.valid r.room);
  above = λ k p q. absurd (omega arith);
}
  where
    e : Deque
    e = make_room d

    r : HasRoom d e
    r = make_room-HasRoom d valid

    w : Deque
    w = push_back_one d v

push_back_one-IsValid : (d : Deque) (v : Text) → IsValid d → IsValid (push_back_one d v)
unfolding push_back_one
push_back_one-IsValid d v valid =
    let r = make_room-HasRoom d valid in
    let w = written-IsValid (make_room d) v (make_room d).count r.valid r.room in
    record {
      head_in = w.head_in;
      count_in =
          omega (
            arith,
            r.room,
            length-set (make_room d).buf (slot (make_room d) (make_room d).count) v,
          );
    }

-- `PushBack` keeps a valid deque valid and appends the values in order.
pub to_slice-push_back :
    (d : Deque) (vals : List Text)
    → IsValid d
    → IsValid (push_back d vals) × (to_slice (push_back d vals) ≡ to_slice d ++ vals)
unfolding push_back
to_slice-push_back d [] valid = (valid, sym (append-nil (to_slice d)))
to_slice-push_back d (v ∷ vals) valid =
    let (w, e) = to_slice-push_back (push_back_one d v) vals (push_back_one-IsValid d v valid) in
    (
      w,
      e
          ∙ ap (λ xs. xs ++ vals)
              (to_slice-snoc d (push_back_one d v) v (push_back_one-Inserted d v valid))
          ∙ append_assoc (to_slice d) (v ∷ []) vals,
    )

-- `PushFront` writes at the slot 0 of the deque read from one slot further back.
module _ (d : Deque) (v : Text) (valid : IsValid d) where
  abbrev roomy : Deque
  roomy = make_room d

  r : HasRoom d roomy
  r = make_room-HasRoom d valid

  abbrev back : Deque
  back = front roomy r.valid r.room

  back-IsValid : IsValid back
  back-IsValid = front-IsValid roomy r.valid r.room

  at-push_front_one :
      (k : ℕ)
      → at (push_front_one d v) k ≡ at (written back v 0 back-IsValid (omega (arith, r.room))) k
  unfolding push_front_one at
  at-push_front_one k =
      ap (λ s. get_or (set roomy.buf s v) ((step_back roomy + k) % length (set roomy.buf s v)) [])
        (sym (slot-front_zero roomy r.valid r.room))

  push_front_one-Inserted : Inserted d (push_front_one d v) 0 v
  push_front_one-Inserted = record {
    one_more = unfold push_front_one in omega (arith, r.same_count);
    index_in = omega arith;
    below = λ k p. absurd (omega arith);
    here = at-push_front_one 0 ∙ at-written_self back v 0 back-IsValid (omega (arith, r.room));
    above = λ k p q.
        at-push_front_one (suc k)
        ∙ at-written_ne back v 0 back-IsValid (omega (arith, r.room)) (suc k)
            (omega (arith, r.room, r.same_count)) (omega arith)
        ∙ unfold at in
          ap (λ s. get_or roomy.buf s [])
            (slot-front-suc roomy r.valid r.room k (omega (arith, r.room, r.same_count)))
          ∙ r.same k q;
  }

  push_front_one-IsValid : IsValid (push_front_one d v)
  unfolding push_front_one
  push_front_one-IsValid = record {
    head_in = omega (arith, back-IsValid, length-set roomy.buf (step_back roomy) v);
    count_in = omega (arith, r.room, length-set roomy.buf (step_back roomy) v);
  }

-- `PushFront` keeps a valid deque valid and puts the values in front one by one: the last value
-- is the first element.
pub to_slice-push_front :
    (d : Deque) (vals : List Text)
    → IsValid d
    → IsValid (push_front d vals) × (to_slice (push_front d vals) ≡ reverse vals ++ to_slice d)
unfolding push_front
to_slice-push_front d [] valid = (valid, refl)
to_slice-push_front d (v ∷ vals) valid =
    let (w, e) = to_slice-push_front (push_front_one d v) vals (push_front_one-IsValid d v valid) in
    (
      w,
      rw (
        e,
        to_slice-cons d (push_front_one d v) v (push_front_one-Inserted d v valid),
        reverse-cons,
        append_assoc,
      ),
    )
