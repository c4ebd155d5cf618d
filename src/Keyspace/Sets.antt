-- ===== src/Keyspace/Sets.antt =====
-- internal/store/store.go, `SAdd` to `SCard`, `SInter` to `SDiff`, `SMove` and `SPop`: the commands on
-- sets. The order of Go's maps shows in `SPop` alone, where it is an argument.
use vole.Prelude.{
  ℕ, ◌+◌, Bool, true, false, not, ◌||◌, ◌++◌, List, [], ◌∷◌, Option, some, none, length, ltb, ◌==◌,
  take, if◌then◌else◌,
}
use vole.Prelude.Text.{Text}
use vole.Prelude.Int.{ℤ, pos, pos_part, ltb_ℤ}
use vole.Prelude.Limit.{keep}
use vole.Prelude.Map.{Map, lookup, put, delete, has}
use vole.Keyspace.{
  Store, Answer, ok, fail, wrong_type, wrong_number, touch_keys, is_expired, exists_string_read,
  expired_key, exists_string,
}
use vole.Keyspace.Listing.{map_keys, sort_keys}

-- `map[string]struct{}`
abbrev pub Members : Type 0
Members = Map (Unit {0})

unfoldable pub or_no_members : Option Members → Members
or_no_members none = []
or_no_members (some m) = m

-- the loop of `SAdd`, with the number of new members
unfoldable pub add_members : List Text → Members → ℕ × Members
add_members [] m = (0, m)
add_members (x ∷ xs) m =
    let (n, m₁) = add_members xs (if has x m then m else put x tt m) in
    ((if has x m then 0 else 1) + n, m₁)

-- the loop of `SRem`, with the number of members removed
unfoldable pub remove_members : List Text → Members → ℕ × Members
remove_members [] m = (0, m)
remove_members (x ∷ xs) m =
    let (n, m₁) = remove_members xs (if has x m then delete x m else m) in
    ((if has x m then 1 else 0) + n, m₁)

-- the smallest of some sets, the first of those that are
unfoldable pub smallest : Members → List Members → Members
smallest m [] = m
smallest m (n ∷ ms) = smallest (if ltb (length n) (length m) then n else m) ms

unfoldable pub in_all : List Members → Text → Bool
in_all [] x = true
in_all (m ∷ ms) x = if has x m then in_all ms x else false

unfoldable pub in_any : List Members → Text → Bool
in_any [] x = false
in_any (m ∷ ms) x = if has x m then true else in_any ms x

-- the sorted members of all sets; the smallest, which the loop skips, holds its own members
unfoldable pub intersect : List Members → List Text
intersect [] = []
intersect (m ∷ ms) = sort_keys (keep (in_all (m ∷ ms)) (map_keys (smallest m ms)))

-- the loop of `SUnion`
unfoldable pub unite : List Text → Members → Members
unite [] u = u
unite (x ∷ xs) u = unite xs (put x tt u)

unfoldable pub cons_some : Members → Option (List Members) → Option (List Members)
cons_some m none = none
cons_some m (some ms) = some (m ∷ ms)

-- the rest of `SDiff`; `sets[0]` is the first
unfoldable pub subtract : Option (List Members) → Answer (List Text)
subtract none = fail wrong_type
subtract (some []) = ok []
subtract (some (m ∷ ms)) = ok (sort_keys (keep (λ x. not (in_any ms x)) (map_keys m)))

-- the members that `SPop` takes, for the order in which Go goes round the set
unfoldable pub popped : List Text → ℤ → List Text
popped order count = take (if ltb_ℤ (pos 0) count then pos_part count else 1) order

module _ {F J : Type 0} where
  -- the test for a value that is neither a string nor a set
  unfoldable pub beside_set : Text → Store F J → Bool
  beside_set key s =
      has key s.hashes
      || has key s.lists
      || has key s.zsets
      || has key s.streams
      || has key s.hlls
      || has key s.jsons
      || has key s.timeseries

  abbrev pub set_at : Text → Store F J → Members
  set_at key s = or_no_members (lookup key s.sets)

  -- the type tests of the commands that write, and of those that read
  unfoldable pub not_set : Text → ℤ → Store F J → Bool × Store F J
  not_set key now s =
      let (string, s₁) = exists_string key now s in (string || beside_set key s₁, s₁)

  unfoldable pub not_set_read : Text → ℤ → Store F J → Bool
  not_set_read key now s = exists_string_read key now s || beside_set key s

  -- `SAdd`
  unfoldable pub s_add : Text → List Text → ℤ → Store F J → Answer ℕ × Store F J
  s_add key [] now s = (fail wrong_number, s)
  s_add key (x ∷ xs) now s =
      let (wrong, s₁) = not_set key now (expired_key key now s).1 in
      if wrong
      then (fail wrong_type, s₁)
      else (let (added, m) = add_members (x ∷ xs) (set_at key s₁) in
          (ok added, touch_keys (key ∷ []) now (record s₁ { sets = put key m s₁.sets })))

  -- a set without members goes, with its deadline
  unfoldable pub store_set : Text → Members → Store F J → Store F J
  store_set key m s =
      if length m == 0
      then record s { sets = delete key s.sets; expires = delete key s.expires }
      else record s { sets = put key m s.sets }

  -- `SRem`; it does not touch the key
  unfoldable pub s_rem : Text → List Text → ℤ → Store F J → Answer ℕ × Store F J
  s_rem key xs now s =
      let (expired, s₁) = expired_key key now s in
      if expired
      then (ok 0, s₁)
      else (let (wrong, s₂) = not_set key now s₁ in
          if wrong
          then (fail wrong_type, s₂)
          else (if length (set_at key s₂) == 0
              then (ok 0, s₂)
              else (let (removed, m) = remove_members xs (set_at key s₂) in
                  (ok removed, store_set key m s₂))))

  -- the shape of the commands that read one set
  unfoldable pub read_set {ℓ} : {A : Type ℓ} → A → (Members → A) → Text → ℤ → Store F J → Answer A
  read_set empty view key now s =
      if is_expired key now s
      then ok empty
      else (if not_set_read key now s then fail wrong_type else ok (view (set_at key s)))

  -- `SMembers`
  unfoldable pub s_members : Text → ℤ → Store F J → Answer (List Text)
  s_members key now s = read_set [] (λ m. sort_keys (map_keys m)) key now s

  -- `SIsMember`
  unfoldable pub s_is_member : Text → Text → ℤ → Store F J → Answer Bool
  s_is_member key x now s = read_set false (has x) key now s

  -- `SCard`
  unfoldable pub s_card : Text → ℤ → Store F J → Answer ℕ
  s_card key now s = read_set 0 length key now s

  -- the first loop of `SInter`: the sets so far, or the answer that ends it
  unfoldable pub inter_loop : List Text → ℤ → Store F J → List Members → Answer (List Text)
  inter_loop [] now s sets = ok (intersect sets)
  inter_loop (key ∷ ks) now s sets =
      let rest = inter_loop ks now s (sets ++ set_at key s ∷ []) in
      if is_expired key now s
      then ok []
      else (if not_set_read key now s
          then fail wrong_type
          else (if length (set_at key s) == 0 then ok [] else rest))

  -- `SInter`
  unfoldable pub s_inter : List Text → ℤ → Store F J → Answer (List Text)
  s_inter ks now s = inter_loop ks now s []

  -- the loop of `SUnion`
  unfoldable pub union_loop : List Text → ℤ → Store F J → Members → Answer (List Text)
  union_loop [] now s u = ok (sort_keys (map_keys u))
  union_loop (key ∷ ks) now s u =
      let skipped = union_loop ks now s u in
      let united = union_loop ks now s (unite (map_keys (set_at key s)) u) in
      if is_expired key now s
      then skipped
      else (if not_set_read key now s then fail wrong_type else united)

  -- `SUnion`
  unfoldable pub s_union : List Text → ℤ → Store F J → Answer (List Text)
  s_union ks now s = union_loop ks now s []

  -- the first loop of `SDiff`: the sets, without members where a key is past its deadline; `none` is the
  -- error
  unfoldable pub collect_sets : List Text → ℤ → Store F J → Option (List Members)
  collect_sets [] now s = some []
  collect_sets (key ∷ ks) now s =
      let rest = collect_sets ks now s in
      if is_expired key now s
      then cons_some [] rest
      else (if not_set_read key now s then none else cons_some (set_at key s) rest)

  -- `SDiff`, whose callers give at least one key
  unfoldable pub s_diff : List Text → ℤ → Store F J → Answer (List Text)
  s_diff ks now s = subtract (collect_sets ks now s)

  -- the end of `SMove`, where the member stands in the first set
  unfoldable pub move_member : Text → Text → Text → ℤ → Store F J → Store F J
  move_member src dst x now s =
      let s₁ = store_set src (delete x (set_at src s)) s in
      let s₂ = record s₁ { sets = put dst (put x tt (set_at dst s₁)) s₁.sets } in
      touch_keys (dst ∷ []) now (touch_keys (src ∷ []) now s₂)

  -- `SMove`
  unfoldable pub s_move : Text → Text → Text → ℤ → Store F J → Answer Bool × Store F J
  s_move src dst x now s =
      let s₁ = (expired_key dst now (expired_key src now s).1).1 in
      let (wrong_src, s₂) = not_set src now s₁ in
      if wrong_src
      then (fail wrong_type, s₂)
      else (let (wrong_dst, s₃) = not_set dst now s₂ in
          if wrong_dst
          then (fail wrong_type, s₃)
          else (if has x (set_at src s₃)
              then (ok true, move_member src dst x now s₃)
              else (ok false, s₃)))

  -- `SPop`, for an order of the members
  unfoldable pub s_pop :
      (Members → List Text) → Text → ℤ → ℤ → Store F J → Answer (List Text) × Store F J
  s_pop order key count now s =
      let (expired, s₁) = expired_key key now s in
      if expired
      then (ok [], s₁)
      else (let (wrong, s₂) = not_set key now s₁ in
          if wrong
          then (fail wrong_type, s₂)
          else (let m = set_at key s₂ in
              if length m == 0
              then (ok [], s₂)
              else (let out = popped (order m) count in
                  (ok out, touch_keys (key ∷ []) now (store_set key (remove_members out m).1 s₂)))))
