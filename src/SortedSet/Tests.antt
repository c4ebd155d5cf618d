-- ===== src/SortedSet/Tests.antt =====
-- Runs of the sorted set with natural numbers for scores, and its theorems at a set of three.
use vole.Prelude.{ℕ, ◌≡◌, ◌↔◌, refl, true, [], ◌∷◌, some, none, if◌then◌else◌}
use vole.Prelude.Text.{Text, text_eq, text_lt}
use vole.Prelude.Map.{lookup, put, delete}
use vole.Prelude.Search.{search}
use vole.Prelude.Slices.{at_index}
use vole.SortedSet.Naturals.{nat_scores}
use vole.SortedSet.{
  SortedSet, new, add, remove, rank, score_of, find_pos, insert_ordered, remove_ordered,
  range_by_score, count_by_score, score_loop, count_loop,
}
use vole.SortedSet.Pop.{pop_min, pop_max, pop_count, delete_all}
use vole.SortedSet.Update.{IsValid, score_of-add, new-IsValid}

program : Unit {0}
unfolding text_eq text_lt lookup put delete search at_index add remove rank score_of find_pos
    insert_ordered remove_ordered range_by_score count_by_score score_loop count_loop pop_min
    pop_max pop_count delete_all
program = tt

abbrev a : Text
a = b'a' ∷ []

abbrev b : Text
b = b'b' ∷ []

abbrev c : Text
c = b'c' ∷ []

abbrev set_of_three : SortedSet ℕ
set_of_three = (add (add (add (new ℕ) b 5).1 a 7).1 c 5).1

set_of_three_run :
    set_of_three.ordered
    ≡ record { member = b; score = 5 }
      ∷ record { member = c; score = 5 }
      ∷ record { member = a; score = 7 }
      ∷ []
unfolding program
set_of_three_run = refl

valid : IsValid set_of_three
valid =
    (score_of-add (add (add (new ℕ) b 5).1 a 7).1 c 5 c
      (score_of-add (add (new ℕ) b 5).1 a 7 a (score_of-add (new ℕ) b 5 b new-IsValid).0).0).0

score_of-add_example :
    IsValid (add set_of_three b 9).1
    × (score_of (add set_of_three b 9).1 c
        ≡ (if text_eq b c then some 9 else score_of set_of_three c))
    × (((add set_of_three b 9).0 ≡ true) ↔ (score_of set_of_three b ≡ none))
score_of-add_example = score_of-add set_of_three b 9 c valid
