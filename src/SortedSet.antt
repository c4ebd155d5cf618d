-- ===== src/SortedSet.antt =====
-- internal/store/sortedset.go: members with scores, kept in a map and in a slice in order of score
-- and then of member.
--
-- Scores are float64 in the source. They are a parameter here: a type with the comparisons that
-- the code makes and the laws of a total order. It stands for the float64 values other than NaN,
-- with 0 and -0 as one value.
pub mod Lex
pub mod Pop
pub mod Order
pub mod Position
pub mod Update
pub mod Naturals
pub mod Sizes
pub mod Scan
mod Tests
use vole.Prelude.{
  ℕ, zero, suc, ◌+◌, ◌-◌, ◌≤◌, ◌<◌, ◌≡◌, ◌↔◌, Bool, true, false, not, ◌&&◌, ◌||◌, List, [], ◌∷◌,
  ◌++◌, Option, none, some, length, get_elem?, take, drop, reverse, ltb, leb, ◌==◌, if◌then◌else◌,
}
use vole.Prelude.Text.{Text, text_eq, text_lt}
use vole.Prelude.Map.{Map, lookup, put, delete}
use vole.Prelude.Search.{search}
use vole.Prelude.Slices.{insert_at, remove_at, at_index}
use vole.Prelude.Int.{ℤ, pos, ltb_ℤ, pos_part}
use vole.Ranges.{normalize_range}

pub record Scores (S : Type 0) : Type 0 where
  pub lt : S → S → Bool
  pub eq : S → S → Bool
  pub eq_iff : (a b : S) → (eq a b ≡ true) ↔ (a ≡ b)
  pub lt_irrefl : (a : S) → lt a a ≡ false
  pub lt_trans : (a b c : S) → lt a b ≡ true → lt b c ≡ true → lt a c ≡ true
  pub lt_total : (a b : S) → lt a b ≡ false → lt b a ≡ false → a ≡ b

-- `ZMember`
pub record ZMember (S : Type 0) : Type 0 where
  pub member : Text
  pub score : S

-- `SortedSet`
pub record SortedSet (S : Type 0) : Type 0 where
  pub scores : Map S
  pub ordered : List (ZMember S)

-- `NewSortedSet`
abbrev pub new : (S : Type 0) → SortedSet S
new S = record { scores = []; ordered = [] }

-- `Len`
unfoldable pub len : {S : Type 0} → SortedSet S → ℕ
len z = length z.scores

module _ {S : Type 0} ⦃o : Scores S⦄ where
  -- `a >= b` of floats that are no NaN
  abbrev pub ge : S → S → Bool
  ge a b = not (o.lt a b)

  -- the condition of `findPos`
  abbrev pub reaches : S → Text → ZMember S → Bool
  reaches score member z =
      if o.eq z.score score then not (text_lt z.member member) else o.lt score z.score

  -- `findPos`
  pub find_pos : SortedSet S → S → Text → ℕ
  find_pos z score member = search (length z.ordered) (at_index (reaches score member) z.ordered)

  -- `insertOrdered`
  insert_ordered : SortedSet S → Text → S → SortedSet S
  insert_ordered z member score = record z {
    ordered =
        insert_at (find_pos z score member) (record { member = member; score = score }) z.ordered;
  }

  -- `pos < len(z.ordered) && z.ordered[pos].Member == member`
  abbrev pub stands_at : Text → List (ZMember S) → ℕ → Bool
  stands_at member xs i = at_index (λ (x : ZMember S). text_eq x.member member) xs i

  -- `removeOrdered`
  pub remove_ordered : SortedSet S → Text → S → SortedSet S
  remove_ordered z member score =
      let p = find_pos z score member in
      if stands_at member z.ordered p then record z { ordered = remove_at p z.ordered } else z

  -- `Add`: whether the member is new, and the set
  pub add : SortedSet S → Text → S → Bool × SortedSet S
  add z member score = elim (lookup member z.scores) [
    | some old ↦ if o.eq old score then (false, z) else (
      false,
      let removed = remove_ordered z member old in
          insert_ordered (record removed { scores = put member score removed.scores }) member score,
    )
    | none ↦ (true, insert_ordered (record z { scores = put member score z.scores }) member score)
  ]

  -- `Remove`: whether the member was there, and the set
  pub remove : SortedSet S → Text → Bool × SortedSet S
  remove z member = elim (lookup member z.scores) [
    | none ↦ (false, z)
    | some score ↦
        (true, remove_ordered (record z { scores = delete member z.scores }) member score)
  ]

  -- `Score`
  pub score_of : SortedSet S → Text → Option S
  score_of z member = lookup member z.scores

  -- `Rank`
  pub rank : SortedSet S → Text → Option ℕ
  rank z member = elim (lookup member z.scores) [
    | none ↦ none
    | some score ↦
        let p = find_pos z score member in if stands_at member z.ordered p then some p else none
  ]

  -- the loop of `RangeByScore`, from the first index on: `skipped` and the number of results
  -- gathered so far decide what to do with each member
  score_loop : S → ℤ → ℤ → ℕ → ℕ → List (ZMember S) → List (ZMember S)
  score_loop max offset count skipped gathered [] = []
  score_loop max offset count skipped gathered (x ∷ xs) =
      let skip = score_loop max offset count (suc skipped) gathered xs in
      let take_more = score_loop max offset count skipped (suc gathered) xs in
      if o.lt max x.score
      then []
      else (if ltb_ℤ (pos 0) offset && ltb_ℤ (pos skipped) offset
          then skip
          else (if ltb_ℤ (pos 0) count && not (ltb_ℤ (pos (suc gathered)) count)
              then x ∷ []
              else x ∷ take_more))

  -- `sort.Search` for the first score that is at least `min`
  abbrev pub first_ge : S → List (ZMember S) → ℕ
  first_ge min xs = search (length xs) (at_index (λ (x : ZMember S). ge x.score min) xs)

  -- `RangeByScore`
  pub range_by_score : SortedSet S → S → S → ℤ → ℤ → List (ZMember S)
  range_by_score z min max offset count =
      score_loop max offset count 0 0 (drop (first_ge min z.ordered) z.ordered)

  -- the loop of `CountByScore`
  count_loop : S → List (ZMember S) → ℕ
  count_loop max [] = 0
  count_loop max (x ∷ xs) = let rest = count_loop max xs in if o.lt max x.score then 0 else suc rest

  -- `CountByScore`
  pub count_by_score : SortedSet S → S → S → ℕ
  count_by_score z min max = count_loop max (drop (first_ge min z.ordered) z.ordered)

module _ {S : Type 0} where
  -- `Range`
  pub range : SortedSet S → ℤ → ℤ → List (ZMember S)
  range z start stop = elim (normalize_range start stop (length z.ordered)) [
    | none ↦ []
    | some (from, to) ↦ take (to + 1 - from) (drop from z.ordered)
  ]

  -- the loop of `RevRange`: `z.ordered[n-1-start-i]` for the `k` indices from `i`
  rev_loop : List (ZMember S) → ℕ → ℕ → ℕ → List (ZMember S)
  rev_loop xs start i zero = []
  rev_loop xs start i (suc k) = elim (get_elem? xs (length xs - 1 - start - i)) [
    | none ↦ []
    | some x ↦ x ∷ rev_loop xs start (suc i) k
  ]

  -- `RevRange`
  pub rev_range : SortedSet S → ℤ → ℤ → List (ZMember S)
  rev_range z start stop = elim (normalize_range start stop (length z.ordered)) [
    | none ↦ []
    | some (from, to) ↦ rev_loop z.ordered from 0 (to + 1 - from)
  ]

  -- `Members`
  pub members : SortedSet S → List (ZMember S)
  members z = z.ordered
