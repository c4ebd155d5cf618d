-- ===== src/Deque/Tests.antt =====
-- Runs of the deque, and its theorems at inputs that exercise wrapping and growth.
use vole.Prelude.{◌≡◌, refl, [], ◌∷◌, ◌++◌, arith, take, drop, length, get_or, collect}
use vole.Prelude.Text.{Text}
use vole.Prelude.Int.{pos, negsuc}
use vole.Ranges.{normalize_range}
use vole.Deque.{
  Deque, empty, push_back, push_front, push_back_one, push_front_one, pop_front, pop_back,
  make_room, grow, copy_from, insert, open_gap, shift_left, shift_right, set_at, range, get, at,
  to_slice, len,
}
use vole.Deque.Valid.{IsValid}
use vole.Deque.Insert.{to_slice-insert}
use vole.Deque.Access.{get-to_slice}

abbrev a : Text
a = b'a' ∷ []

abbrev b : Text
b = b'b' ∷ []

abbrev c : Text
c = b'c' ∷ []

-- Three elements that go round the end of a buffer of four.
abbrev wrapped : Deque
wrapped = record { buf = b ∷ c ∷ [] ∷ a ∷ []; head = 3; count = 3 }

program : Unit {0}
unfolding push_back push_front push_back_one push_front_one make_room grow copy_from pop_front
    pop_back insert open_gap shift_left shift_right set_at range get at to_slice len
program = tt

wrapped-IsValid : IsValid wrapped
wrapped-IsValid = omega arith

grown : to_slice (push_front (push_back empty (a ∷ b ∷ [])) (c ∷ a ∷ [])) ≡ a ∷ c ∷ a ∷ b ∷ []
unfolding program collect
grown = refl

range_run : range wrapped (negsuc 1) (pos 7) ≡ b ∷ c ∷ []
unfolding program normalize_range collect
range_run = refl

insert_run : to_slice (insert wrapped 1 c) ≡ a ∷ c ∷ b ∷ c ∷ []
unfolding program collect
insert_run = refl

to_slice-insert_example :
    IsValid (insert wrapped 1 c)
    × (to_slice (insert wrapped 1 c) ≡ take 1 (to_slice wrapped) ++ c ∷ drop 1 (to_slice wrapped))
to_slice-insert_example = to_slice-insert wrapped 1 c wrapped-IsValid (omega arith)

get-to_slice_example :
    (get wrapped 1 ≡ get_or (to_slice wrapped) 1 []) × (len wrapped ≡ length (to_slice wrapped))
get-to_slice_example = get-to_slice wrapped 1 (unfold len in omega arith)
