-- ===== src/Keyspace/SortedSets.antt =====
-- internal/store/store.go, `ZAdd` to `ZCount`, `ZCard` and `ZIncrBy` to `ZRangeByLex`: the commands on
-- sorted sets. The sum of two floats and 0 are arguments of `ZIncrBy`.
use vole.Prelude.{
  ℕ, ◌+◌, ◌-◌, Bool, ◌||◌, List, [], ◌∷◌, Option, some, none, ltb, ◌==◌, if◌then◌else◌,
}
use vole.Prelude.Text.{Text}
use vole.Prelude.Int.{ℤ}
use vole.Prelude.Map.{lookup, put, delete, has}
use vole.SortedSet
use vole.SortedSet.{
  Scores, ZMember, SortedSet, new, score_of, rank, range_by_score, count_by_score, rev_range,
}
use vole.SortedSet.Pop.{pop_min, pop_max}
use vole.SortedSet.Lex.{range_by_lex}
use vole.Keyspace.{
  Store, Answer, ok, fail, wrong_type, wrong_number, touch_keys, is_expired, exists_string_read,
  expired_key, exists_string,
}

unfoldable pub or_new : {S : Type 0} → Option (SortedSet S) → SortedSet S
or_new none = new _
or_new (some z) = z

module _ {S : Type 0} ⦃o : Scores S⦄ where
  -- the loop of `ZAdd`: how many members are new, and the set
  unfoldable pub add_members : List (ZMember S) → SortedSet S → ℕ × SortedSet S
  add_members [] z = (0, z)
  add_members (x ∷ xs) z =
      let (fresh, y) = SortedSet.add z x.member x.score in
      let (n, w) = add_members xs y in (if fresh then n + 1 else n, w)

  -- the loop of `ZRem`: how many members were there, and the set
  unfoldable pub remove_members : List Text → SortedSet S → ℕ × SortedSet S
  remove_members [] z = (0, z)
  remove_members (m ∷ ms) z =
      let (found, y) = SortedSet.remove z m in
      let (n, w) = remove_members ms y in (if found then n + 1 else n, w)

  -- `ZIncrBy` of the set
  unfoldable pub add_score : (S → S → S) → S → S → Text → SortedSet S → S × SortedSet S
  add_score plus zero_score incr member z = elim (score_of z member) [
    | none ↦ let sum = plus zero_score incr in (sum, (SortedSet.add z member sum).1)
    | some score ↦
        let sum = plus score incr in
        (sum, (SortedSet.add (SortedSet.remove z member).1 member sum).1)
  ]

unfoldable pub rank_from_end : {S : Type 0} → SortedSet S → Option ℕ → Option ℕ
rank_from_end z none = none
rank_from_end z (some r) = some (SortedSet.len z - 1 - r)

unfoldable pub read_found {ℓ} :
    {F : Type 0} {A : Type ℓ} → A → (SortedSet F → A) → Option (SortedSet F) → A
read_found empty view none = empty
read_found empty view (some z) = view z

-- the members of a set, none where its length is 0
unfoldable pub unless_empty :
    {F : Type 0} → (SortedSet F → List (ZMember F)) → SortedSet F → List (ZMember F)
unless_empty view z = if SortedSet.len z == 0 then [] else view z

module _ {F J : Type 0} where
  -- the test for a value that is neither a string nor a sorted set
  unfoldable pub beside_sorted : Text → Store F J → Bool
  beside_sorted key s =
      has key s.hashes
      || has key s.lists
      || has key s.sets
      || has key s.streams
      || has key s.hlls
      || has key s.jsons
      || has key s.timeseries

  unfoldable pub not_sorted : Text → ℤ → Store F J → Bool × Store F J
  not_sorted key now s =
      let (string, s₁) = exists_string key now s in (string || beside_sorted key s₁, s₁)

  abbrev pub sorted_at : Text → Store F J → SortedSet F
  sorted_at key s = or_new (lookup key s.zsets)

  -- the shape of the commands that read a sorted set: an answer for none, and the view of one
  unfoldable pub read_sorted {ℓ} :
      {A : Type ℓ} → A → (SortedSet F → A) → Text → ℤ → Store F J → Answer A
  read_sorted empty view key now s =
      if is_expired key now s
      then ok empty
      else (if exists_string_read key now s || beside_sorted key s
          then fail wrong_type
          else ok (read_found empty view (lookup key s.zsets)))

  -- `ZRange`
  unfoldable pub z_range : Text → ℤ → ℤ → ℤ → Store F J → Answer (List (ZMember F))
  z_range key start stop now s =
      read_sorted [] (unless_empty (λ z. SortedSet.range z start stop)) key now s

  -- `ZRevRange`
  unfoldable pub z_rev_range : Text → ℤ → ℤ → ℤ → Store F J → Answer (List (ZMember F))
  z_rev_range key start stop now s =
      read_sorted [] (unless_empty (λ z. rev_range z start stop)) key now s

  -- `ZRangeByLex`
  unfoldable pub z_range_by_lex :
      Text → Text → Text → ℤ → ℤ → ℤ → Store F J → Answer (List (ZMember F))
  z_range_by_lex key min max offset count now s =
      read_sorted [] (unless_empty (λ z. range_by_lex z min max offset count)) key now s

  -- `ZCard`
  unfoldable pub z_card : Text → ℤ → Store F J → Answer ℕ
  z_card key now s = read_sorted 0 SortedSet.len key now s

  -- a set without members goes, with its deadline
  unfoldable pub store_sorted : Text → SortedSet F → Store F J → Store F J
  store_sorted key z s =
      if SortedSet.len z == 0
      then record s { zsets = delete key s.zsets; expires = delete key s.expires }
      else record s { zsets = put key z s.zsets }

  unfoldable pub touch_removed : Text → ℤ → ℕ → Store F J → Store F J
  touch_removed key now n s = if ltb 0 n then touch_keys (key ∷ []) now s else s

  -- the shape of `ZPopMin` and `ZPopMax`
  unfoldable pub pop_sorted :
      (SortedSet F → List (ZMember F) × SortedSet F)
      → Text
      → ℤ
      → Store F J
      → Answer (List (ZMember F)) × Store F J
  pop_sorted pop key now s =
      let (expired, s₁) = expired_key key now s in
      if expired
      then (ok [], s₁)
      else (let (wrong, s₂) = not_sorted key now s₁ in
          if wrong
          then (fail wrong_type, s₂)
          else (if SortedSet.len (sorted_at key s₂) == 0
              then (ok [], s₂)
              else (let (result, z) = pop (sorted_at key s₂) in
                  (ok result, touch_keys (key ∷ []) now (store_sorted key z s₂)))))

  -- `ZPopMin`
  unfoldable pub z_pop_min : Text → ℤ → ℤ → Store F J → Answer (List (ZMember F)) × Store F J
  z_pop_min key count now s = pop_sorted (λ z. pop_min z count) key now s

  -- `ZPopMax`
  unfoldable pub z_pop_max : Text → ℤ → ℤ → Store F J → Answer (List (ZMember F)) × Store F J
  z_pop_max key count now s = pop_sorted (λ z. pop_max z count) key now s

  module _ ⦃o : Scores F⦄ where
    -- `ZScore`
    unfoldable pub z_score : Text → Text → ℤ → Store F J → Answer (Option F)
    z_score key member now s = read_sorted none (λ z. score_of z member) key now s

    -- `ZRank`
    unfoldable pub z_rank : Text → Text → ℤ → Store F J → Answer (Option ℕ)
    z_rank key member now s = read_sorted none (λ z. rank z member) key now s

    -- `ZRevRank`
    unfoldable pub z_rev_rank : Text → Text → ℤ → Store F J → Answer (Option ℕ)
    z_rev_rank key member now s = read_sorted none (λ z. rank_from_end z (rank z member)) key now s

    -- `ZRangeByScore`
    unfoldable pub z_range_by_score :
        Text → F → F → ℤ → ℤ → ℤ → Store F J → Answer (List (ZMember F))
    z_range_by_score key min max offset count now s =
        read_sorted [] (unless_empty (λ z. range_by_score z min max offset count)) key now s

    -- `ZCount`
    unfoldable pub z_count : Text → F → F → ℤ → Store F J → Answer ℕ
    z_count key min max now s = read_sorted 0 (λ z. count_by_score z min max) key now s

    -- `ZAdd`
    unfoldable pub z_add : Text → List (ZMember F) → ℤ → Store F J → Answer ℕ × Store F J
    z_add key [] now s = (fail wrong_number, s)
    z_add key (x ∷ xs) now s =
        let (wrong, s₁) = not_sorted key now (expired_key key now s).1 in
        if wrong
        then (fail wrong_type, s₁)
        else (let (added, z) = add_members (x ∷ xs) (sorted_at key s₁) in
            (ok added, touch_keys (key ∷ []) now (record s₁ { zsets = put key z s₁.zsets })))

    -- `ZRem`
    unfoldable pub z_rem : Text → List Text → ℤ → Store F J → Answer ℕ × Store F J
    z_rem key ms now s =
        let (expired, s₁) = expired_key key now s in
        if expired
        then (ok 0, s₁)
        else (let (wrong, s₂) = not_sorted key now s₁ in
            if wrong
            then (fail wrong_type, s₂)
            else (if SortedSet.len (sorted_at key s₂) == 0
                then (ok 0, s₂)
                else (let (removed, z) = remove_members ms (sorted_at key s₂) in
                    (ok removed, touch_removed key now removed (store_sorted key z s₂)))))

    -- `ZIncrBy`
    unfoldable pub z_incr_by :
        (F → F → F) → F → Text → F → Text → ℤ → Store F J → Answer F × Store F J
    z_incr_by plus zero_score key incr member now s =
        let (wrong, s₁) = not_sorted key now (expired_key key now s).1 in
        if wrong
        then (fail wrong_type, s₁)
        else (let (sum, z) = add_score plus zero_score incr member (sorted_at key s₁) in
            (ok sum, touch_keys (key ∷ []) now (record s₁ { zsets = put key z s₁.zsets })))
