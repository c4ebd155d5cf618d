-- ===== src/SortedSet/Pop.antt =====
-- `PopMin` and `PopMax` of internal/store/sortedset.go.
use vole.Prelude.{ℕ, ◌-◌, List, [], ◌∷◌, length, take, drop, reverse, ltb, ◌==◌, if◌then◌else◌}
use vole.Prelude.Map.{Map, delete}
use vole.Prelude.Int.{ℤ, pos, ltb_ℤ, pos_part}
use vole.SortedSet.{SortedSet, ZMember}

-- how many members `PopMin` and `PopMax` take
unfoldable pub pop_count : ℤ → ℕ → ℕ
pop_count count n =
    let wanted = if ltb_ℤ (pos 0) count then pos_part count else 1 in
    if ltb n wanted then n else wanted

module _ {S : Type 0} where
  -- `for _, m := range result { delete(z.scores, m.Member) }`
  unfoldable pub delete_all : List (ZMember S) → Map S → Map S
  delete_all [] m = m
  delete_all (x ∷ xs) m = delete_all xs (delete x.member m)

  -- `PopMin`: the members taken, and the set
  unfoldable pub pop_min : SortedSet S → ℤ → List (ZMember S) × SortedSet S
  pop_min z count =
      let n = pop_count count (length z.ordered) in
      if n == 0
      then ([], z)
      else (let result = take n z.ordered in
          (result, record { scores = delete_all result z.scores; ordered = drop n z.ordered }))

  -- `PopMax`
  unfoldable pub pop_max : SortedSet S → ℤ → List (ZMember S) × SortedSet S
  pop_max z count =
      let n = pop_count count (length z.ordered) in
      if n == 0
      then ([], z)
      else (let start = length z.ordered - n in
          let result = reverse (drop start z.ordered) in
          (result, record { scores = delete_all result z.scores; ordered = take start z.ordered }))
