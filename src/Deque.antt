-- ===== src/Deque.antt =====
-- internal/store/deque.go: a double-ended queue in a ring buffer that doubles when it is full.
-- An `int` of the source is a number here: no sum of two indices comes near 2^63. A read out of
-- range would panic in Go and gives "" here, a write out of range changes nothing:
-- `IsValid` rules both out.
pub mod Valid
pub mod Room
pub mod Slices
pub mod Push
pub mod Pop
pub mod Gap
pub mod Insert
pub mod Access
mod Tests
use vole.Prelude.{
  ℕ, zero, suc, ◌+◌, ◌-◌, ◌*◌, ◌/◌, ◌%◌, Bool, true, false, List, [], ◌∷◌, Option, none, some,
  length, get_or, set, replicate, collect, ltb, leb, ◌==◌, if◌then◌else◌,
}
use vole.Prelude.Text.{Text}
use vole.Prelude.Int.{ℤ}
use vole.Ranges.{normalize_range}

-- `Deque`
pub record Deque : Type 0 where
  pub buf : List Text
  pub head : ℕ
  pub count : ℕ

-- `dequeMinCap`
abbrev pub deque_min_cap : ℕ
deque_min_cap = 8

-- `(d.head + i) % len(d.buf)`
abbrev pub slot : Deque → ℕ → ℕ
slot d i = (d.head + i) % length d.buf

-- the zero value of the struct, as `&Deque{}` makes it
abbrev pub empty : Deque
empty = record { buf = []; head = 0; count = 0 }

-- `Len`
unfoldable pub len : Deque → ℕ
len d = d.count

-- `at` and `Get` have one body.
pub at : Deque → ℕ → Text
at d i = get_or d.buf (slot d i) []

pub get : Deque → ℕ → Text
get d i = get_or d.buf (slot d i) []

-- the capacity that `grow` chooses
abbrev pub new_cap : Deque → ℕ
new_cap d =
    let doubled = length d.buf * 2 in if ltb doubled deque_min_cap then deque_min_cap else doubled

-- the first loop of `grow`: `newBuf[i] = d.buf[(d.head+i)%len(d.buf)]` for the `n` indices from `i`
pub copy_from : Deque → ℕ → ℕ → List Text → List Text
copy_from d zero i out = out
copy_from d (suc n) i out = copy_from d n (i + 1) (set out i (get_or d.buf (slot d i) []))

-- `grow`
pub grow : Deque → Deque
grow d = record d { buf = copy_from d d.count 0 (replicate (new_cap d) []); head = 0 }

-- `if d.count == len(d.buf) { d.grow() }`
pub make_room : Deque → Deque
make_room d = if d.count == length d.buf then grow d else d

-- `(d.head - 1 + len(d.buf)) % len(d.buf)`
abbrev pub step_back : Deque → ℕ
step_back d = (d.head + length d.buf - 1) % length d.buf

-- one round of `PushFront`
pub push_front_one : Deque → Text → Deque
push_front_one d v =
    let r = make_room d in
    let h = step_back r in record { buf = set r.buf h v; head = h; count = r.count + 1 }

-- `PushFront`
pub push_front : Deque → List Text → Deque
push_front d [] = d
push_front d (v ∷ vals) = push_front (push_front_one d v) vals

-- one round of `PushBack`
pub push_back_one : Deque → Text → Deque
push_back_one d v =
    let r = make_room d in record r { buf = set r.buf (slot r r.count) v; count = r.count + 1 }

-- `PushBack`
pub push_back : Deque → List Text → Deque
push_back d [] = d
push_back d (v ∷ vals) = push_back (push_back_one d v) vals

-- `PopFront`: the element, if any, and the deque that is left
pub pop_front : Deque → Option Text × Deque
pop_front d = if d.count == 0 then (none, d) else (
  some (get_or d.buf d.head []),
  record { buf = set d.buf d.head []; head = (d.head + 1) % length d.buf; count = d.count - 1 },
)

-- `PopBack`
pub pop_back : Deque → Option Text × Deque
pop_back d =
    if d.count == 0
    then (none, d)
    else let idx = (d.head + d.count - 1) % length d.buf in
      (some (get_or d.buf idx []), record d { buf = set d.buf idx []; count = d.count - 1 })

-- `Range`
pub range : Deque → ℤ → ℤ → List Text
range d start stop = elim (normalize_range start stop d.count) [
  | none ↦ []
  | some (from, to) ↦ collect (to + 1 - from) from (at d)
]

-- `Set`
pub set_at : Deque → ℕ → Text → Deque
set_at d i v = record d { buf = set d.buf (slot d i) v }

-- the loop of `Insert` over the left part: `j` runs up, for the `n` rounds left
pub shift_left : ℕ → ℕ → ℕ → List Text → List Text
shift_left h zero j buf = buf
shift_left h (suc n) j buf =
    shift_left h n (j + 1)
      (set buf ((h + j) % length buf) (get_or buf ((h + 1 + j) % length buf) []))

-- the loop of `Insert` over the right part: `j` runs down from `i + n` to `i + 1`
pub shift_right : ℕ → ℕ → ℕ → List Text → List Text
shift_right h zero i buf = buf
shift_right h (suc n) i buf =
    let j = i + suc n in
    shift_right h n i (set buf ((h + j) % length buf) (get_or buf ((h + j - 1) % length buf) []))

-- the shift of `Insert`: the left part goes left, or the right part goes right
pub open_gap : Deque → ℕ → Deque
open_gap d i =
    if leb i (d.count / 2)
    then (let h = step_back d in record d { buf = shift_left h i 0 d.buf; head = h })
    else record d { buf = shift_right d.head (d.count - i) i d.buf }

-- `Insert`
pub insert : Deque → ℕ → Text → Deque
insert d i v =
    let g = open_gap (make_room d) i in
    record g { buf = set g.buf (slot g i) v; count = g.count + 1 }

-- `ToSlice`
unfoldable pub to_slice : Deque → List Text
to_slice d = if d.count == 0 then [] else collect d.count 0 (at d)
