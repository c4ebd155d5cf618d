-- ===== src/Deque/Room.antt =====
-- `grow` and the test before each push: there is room, and nothing has moved.
use vole.Prelude.{
  sym, wrap_cases, wrap_back, ◌%◌, ◌-◌, ℕ, zero, suc, ◌+◌, ◌%◌, ◌≤◌, ◌<◌, ◌≡◌, refl, ◌∙◌, subst, ap,
  List, [], length, get_or, set, arith, Bool-cases, ◌==◌, inl, inr, get_or-set_self, get_or-set_ne,
  length-set, length-replicate, replicate, dec_lt,
}
use native.Mathlib.Nat.{mod-eq_of_lt, zero-add, add-zero}
use native.Mathlib.Numerals.{add-one}
use vole.Prelude.Text.{Text}
use vole.Deque.{Deque, step_back, slot, at, copy_from, grow, make_room, new_cap}
use vole.Deque.Valid.{IsValid}

length-copy_from :
    (d : Deque) (n i : ℕ) (out : List Text) → length (copy_from d n i out) ≡ length out
unfolding copy_from
length-copy_from d zero i out = refl
length-copy_from d (suc n) i out = omega (
  arith,
  length-copy_from d n (i + 1) (set out i (get_or d.buf (slot d i) [])),
  length-set out i (get_or d.buf (slot d i) []),
)

-- What the copying loop leaves alone, and what it writes.
get_or-copy_from_lt :
    (d : Deque) (n i j : ℕ) (out : List Text)
    → j < i
    → get_or (copy_from d n i out) j [] ≡ get_or out j []
unfolding copy_from
get_or-copy_from_lt d zero i j out h = refl
get_or-copy_from_lt d (suc n) i j out h =
    get_or-copy_from_lt d n (i + 1) j (set out i (get_or d.buf (slot d i) [])) (omega arith)
    ∙ get_or-set_ne out i j (get_or d.buf (slot d i) []) [] (omega arith)

get_or-copy_from :
    (d : Deque) (n i j : ℕ) (out : List Text)
    → i + n ≤ length out
    → i ≤ j
    → j < i + n
    → get_or (copy_from d n i out) j [] ≡ at d j
unfolding copy_from at
get_or-copy_from d zero i j out h k l = absurd (omega arith)
get_or-copy_from d (suc n) i j out h k l = elim (dec_lt i j) [
  | yes p ↦
      get_or-copy_from d n (i + 1) j (set out i v) (omega (arith, length-set out i v)) (omega arith)
        (omega arith)
  | no p ↦ get_or-copy_from_lt d n (i + 1) j (set out i v) (omega arith) ∙ here (omega arith)
]
  where
    v : Text
    v = get_or d.buf (slot d i) []

    here : i ≡ j → get_or (set out i v) j [] ≡ get_or d.buf (slot d j) []
    here e =
        subst (λ k. get_or (set out i v) k [] ≡ get_or d.buf (slot d k) []) e
          (get_or-set_self out i v [] (omega arith))

-- A deque with room for one more element, that holds what `d` holds.
pub record HasRoom (d r : Deque) : Type 0 where
  pub valid : IsValid r
  pub room : r.count < length r.buf
  pub same_count : r.count ≡ d.count
  pub same : (j : ℕ) → j < d.count → at r j ≡ at d j

new_cap_large : (d : Deque) → length d.buf < new_cap d
new_cap_large d = ground arith

length-grow : (d : Deque) → length (grow d).buf ≡ new_cap d
unfolding grow
length-grow d =
    length-copy_from d d.count 0 (replicate (new_cap d) []) ∙ length-replicate (new_cap d) []

-- After `grow` the elements stand at the front of the new buffer.
at-grow : (d : Deque) (j : ℕ) → IsValid d → j < d.count → at (grow d) j ≡ at d j
unfolding at
at-grow d j v h = ap (λ k. get_or (grow d).buf k []) front ∙ copied
  where
    small : j < length (grow d).buf
    small = omega (arith, length-grow d, new_cap_large d)

    front : ((grow d).head + j) % length (grow d).buf ≡ j
    front = unfold grow in (rw zero-add (mod-eq_of_lt small))

    copied : get_or (grow d).buf j [] ≡ at d j
    copied =
        unfold grow in
        get_or-copy_from d d.count 0 j (replicate (new_cap d) [])
          (omega (arith, length-replicate {A = Text} (new_cap d) [], new_cap_large d)) (omega arith)
          (omega arith)

grow-HasRoom : (d : Deque) → IsValid d → d.count ≡ length d.buf → HasRoom d (grow d)
grow-HasRoom d v full = record {
  valid = record {
    head_in = unfold grow in omega arith;
    count_in = unfold grow in omega (arith, length-grow d, new_cap_large d);
  };
  room = unfold grow in omega (arith, length-grow d, new_cap_large d);
  same_count = unfold grow in refl;
  same = λ j h. at-grow d j v h;
}

pub make_room-HasRoom : (d : Deque) → IsValid d → HasRoom d (make_room d)
unfolding make_room
make_room-HasRoom d v = elim (Bool-cases (d.count == length d.buf)) [
  | inl full ↦ rw full (grow-HasRoom d v (ground arith))
  | inr more ↦
      rw more (record { valid = v; room = ground arith; same_count = refl; same = λ j h. refl })
]

-- The same buffer read from one slot further back, as `PushFront` and `Insert` set `head`.
module _ (d : Deque) (v : IsValid d) (room : d.count < length d.buf) where
  abbrev pub front : Deque
  front = record d { head = step_back d }

  pub front-IsValid : IsValid front
  front-IsValid = record {
    head_in = omega (
      arith,
      wrap_cases d.head (length d.buf - 1) (length d.buf) (omega arith) (omega arith),
      sum,
    );
    count_in = omega arith;
  }
    where
      sum : d.head + length d.buf - 1 ≡ d.head + (length d.buf - 1)
      sum = omega arith

  pub slot-front_zero : slot front 0 ≡ step_back d
  slot-front_zero = rw add-zero (mod-eq_of_lt (omega (arith, front-IsValid)))

  pub slot-front-suc : (k : ℕ) → k < length d.buf → slot front (suc k) ≡ slot d k
  slot-front-suc k h =
      ap (λ i. (step_back d + i) % length d.buf) (sym (add-one k))
      ∙ wrap_back d.head k (length d.buf) (omega arith) h
