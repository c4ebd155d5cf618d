-- ===== src/Keyspace/Lists.antt =====
-- internal/store/store.go, `LPush` to `popList`, `LLen`, `LIndex` to `LPos` and `LRem`: the commands on
-- lists.
use vole.Prelude.{
  ◌^◌, ℕ, zero, suc, ◌+◌, Bool, false, not, ◌||◌, List, [], ◌∷◌, Option, some, none, length,
  reverse, ltb, ◌==◌, if◌then◌else◌,
}
use vole.Prelude.Text.{Text, text_eq}
use vole.Prelude.Int.{ℤ, pos, negsuc, pos_part, ltb_ℤ, ◌+ℤ◌}
use vole.Prelude.Map.{lookup, put, has}
use vole.Deque
use vole.Deque.{Deque, push_front, push_back, pop_front, pop_back, to_slice, set_at}
use vole.Keyspace.{
  Store, Answer, ok, fail, wrong_type, wrong_number, no_such_key, index_out_of_range, touch_keys,
  is_expired, exists_string_read, expired_key, exists_string,
}
use vole.Keyspace.Blocking.{Waiting, list_at, pop_side, store_list, wake_waiters}

abbrev pub push_side : Bool → List Text → Deque → Deque
push_side left vs d = if left then push_front d vs else push_back d vs

-- the index of an element in a list from i on, in `LInsert` and `LPos`
unfoldable pub index_of : Text → List Text → ℕ → Option ℕ
index_of x [] i = none
index_of x (y ∷ ys) i = let rest = index_of x ys (i + 1) in if text_eq y x then some i else rest

-- the loop of `LRem`: up to n times the element goes; how often, and what is kept
unfoldable pub remove_first : ℕ → Text → List Text → ℕ × List Text
remove_first n x [] = (0, [])
remove_first zero x (y ∷ ys) = (0, y ∷ ys)
remove_first (suc n) x (y ∷ ys) =
    let (removed, kept) = remove_first n x ys in
    let (others, left) = remove_first (suc n) x ys in
    if text_eq y x then (suc removed, kept) else (others, y ∷ left)

-- `-count` for the count -(n + 1): as an `int64` it is negative for the least one, and no element goes
unfoldable pub abs_count : ℕ → ℕ
abs_count n = if suc n == 2 ^ 63 then 0 else suc n

-- The three loops of `LRem`: from the front, from the back, or all.
unfoldable pub remove_count : ℤ → Text → List Text → ℕ × List Text
remove_count (pos zero) x items = remove_first (length items) x items
remove_count (pos (suc n)) x items = remove_first (suc n) x items
remove_count (negsuc n) x items =
    let (removed, kept) = remove_first (abs_count n) x (reverse items) in (removed, reverse kept)

-- an index from the end is negative
abbrev pub from_end : ℤ → ℕ → ℤ
from_end index n = if ltb_ℤ index (pos 0) then pos n +ℤ index else index

unfoldable pub element_at : ℤ → Deque → Option Text
element_at index d =
    let i = from_end index (Deque.len d) in
    if ltb_ℤ i (pos 0) || not (ltb_ℤ i (pos (Deque.len d)))
    then none
    else some (Deque.get d (pos_part i))

unfoldable pub set_element : ℤ → Text → Deque → Answer (Unit {0}) × Option Deque
set_element index v d =
    let i = from_end index (Deque.len d) in
    if ltb_ℤ i (pos 0) || not (ltb_ℤ i (pos (Deque.len d)))
    then (fail index_out_of_range, none)
    else (ok tt, some (set_at d (pos_part i) v))

unfoldable pub insert_at_pivot : Bool → Text → Deque → Option ℕ → Answer ℤ × Option Deque
insert_at_pivot before v d none = (ok (negsuc 0), none)
insert_at_pivot before v d (some i) =
    let e = Deque.insert d (if before then i else i + 1) v in (ok (pos (Deque.len e)), some e)

unfoldable pub or_none : Option Text → List Text
or_none none = []
or_none (some v) = v ∷ []

module _ {F J : Type 0} where
  -- the test for a value that is neither a string nor a list
  unfoldable pub beside_list : Text → Store F J → Bool
  beside_list key s =
      has key s.hashes
      || has key s.sets
      || has key s.zsets
      || has key s.streams
      || has key s.hlls
      || has key s.jsons
      || has key s.timeseries

  unfoldable pub not_list : Text → ℤ → Store F J → Bool × Store F J
  not_list key now s =
      let (string, s₁) = exists_string key now s in (string || beside_list key s₁, s₁)

  -- `pushList`
  unfoldable pub push_list : Bool → Text → List Text → ℤ → Waiting F J → Answer ℕ × Waiting F J
  push_list left key [] now l = (fail wrong_number, l)
  push_list left key (v ∷ vs) now l =
      let (wrong, s) = not_list key now (expired_key key now l.store).1 in
      if wrong
      then (fail wrong_type, record l { store = s })
      else (let t = record s {
        lists = put key (push_side left (v ∷ vs) (list_at key s)) s.lists;
      } in
          let woken = wake_waiters key (record l { store = touch_keys (key ∷ []) now t }) in
          (ok (Deque.len (list_at key woken.store)), woken))

  -- the rest of `popList`, with the list that it found
  unfoldable pub pop_from :
      Bool → Text → ℤ → Store F J → Option Deque → Answer (Option Text) × Store F J
  pop_from left key now s none = (ok none, s)
  pop_from left key now s (some d) =
      let (v, e) = pop_side left d in
      if Deque.len d == 0
      then (ok none, s)
      else (ok v, touch_keys (key ∷ []) now (store_list key e s))

  -- `popList`
  unfoldable pub pop_list : Bool → Text → ℤ → Store F J → Answer (Option Text) × Store F J
  pop_list left key now s =
      let (expired, s₁) = expired_key key now s in
      if expired
      then (ok none, s₁)
      else (let (wrong, s₂) = not_list key now s₁ in
          if wrong then (fail wrong_type, s₂) else pop_from left key now s₂ (lookup key s₂.lists))

  -- the shape of the commands that read a list: an answer for no list, and the view of one
  unfoldable pub read_list {ℓ} : {A : Type ℓ} → A → (Deque → A) → Text → ℤ → Store F J → Answer A
  read_list empty view key now s =
      if is_expired key now s
      then ok empty
      else (if exists_string_read key now s || beside_list key s
          then fail wrong_type
          else (if Deque.len (list_at key s) == 0 then ok empty else ok (view (list_at key s))))

  -- `LRange`
  unfoldable pub l_range : Text → ℤ → ℤ → ℤ → Store F J → Answer (List Text)
  l_range key start stop now s = read_list [] (λ d. Deque.range d start stop) key now s

  -- `LLen`
  unfoldable pub l_len : Text → ℤ → Store F J → Answer ℕ
  l_len key now s = read_list 0 Deque.len key now s

  -- `LIndex`
  unfoldable pub l_index : Text → ℤ → ℤ → Store F J → Answer (Option Text)
  l_index key index now s = read_list none (element_at index) key now s

  -- `LPos`; `d.Get(i)` for each i is the list of the elements
  unfoldable pub l_pos : Text → Text → ℤ → Store F J → Answer (Option ℕ)
  l_pos key x now s = read_list none (λ d. index_of x (to_slice d) 0) key now s

  unfoldable pub changed : Text → ℤ → Store F J → Option Deque → Store F J
  changed key now s none = s
  changed key now s (some d) = touch_keys (key ∷ []) now (record s { lists = put key d s.lists })

  -- the shape of the commands that change an element of a list that is there
  unfoldable pub change_list {ℓ} :
      {A : Type ℓ}
      → Answer A
      → (Deque → Answer A × Option Deque)
      → Text
      → ℤ
      → Store F J
      → Answer A × Store F J
  change_list missing change key now s =
      let (expired, s₁) = expired_key key now s in
      if expired
      then (missing, s₁)
      else (let (wrong, s₂) = not_list key now s₁ in
          if wrong
          then (fail wrong_type, s₂)
          else (if Deque.len (list_at key s₂) == 0
              then (missing, s₂)
              else (let (answer, e) = change (list_at key s₂) in (answer, changed key now s₂ e))))

  -- `LSet`
  unfoldable pub l_set : Text → ℤ → Text → ℤ → Store F J → Answer (Unit {0}) × Store F J
  l_set key index v now s = change_list (fail no_such_key) (set_element index v) key now s

  -- `LInsert`; -1 where the pivot is not there
  unfoldable pub l_insert : Text → Bool → Text → Text → ℤ → Store F J → Answer ℤ × Store F J
  l_insert key before pivot v now s =
      change_list (ok (pos 0)) (λ d. insert_at_pivot before v d (index_of pivot (to_slice d) 0)) key
        now s

  -- the end of `LRem`: the elements that are kept make a new list
  unfoldable pub store_kept : Text → ℤ → ℕ × List Text → Store F J → Store F J
  store_kept key now (removed, kept) s =
      let t = store_list key (push_back Deque.empty kept) s in
      if ltb 0 removed then touch_keys (key ∷ []) now t else t

  -- `LRem`
  unfoldable pub l_rem : Text → ℤ → Text → ℤ → Store F J → Answer ℕ × Store F J
  l_rem key count x now s =
      let (expired, s₁) = expired_key key now s in
      if expired
      then (ok 0, s₁)
      else (let (wrong, s₂) = not_list key now s₁ in
          if wrong
          then (fail wrong_type, s₂)
          else (if Deque.len (list_at key s₂) == 0
              then (ok 0, s₂)
              else (let r = remove_count count x (to_slice (list_at key s₂)) in
                  (ok r.0, store_kept key now r s₂))))

  -- the type test of `LMove`, which leaves the documents and the time series out
  unfoldable pub not_moved : Text → ℤ → Store F J → Bool × Store F J
  not_moved key now s =
      let (string, s₁) = exists_string key now s in
      (
        string
            || has key s₁.hashes
            || has key s₁.sets
            || has key s₁.zsets
            || has key s₁.streams
            || has key s₁.hlls,
        s₁,
      )

  -- `LMove` behind its tests, with the list of the source
  unfoldable pub move_element :
      Text → Text → Bool → Bool → Deque → ℤ → Waiting F J → Answer (Option Text) × Waiting F J
  move_element src dst src_left dst_left d now l =
      let (v, e) = pop_side src_left d in
      let s = store_list src e l.store in
      let t = record s {
        lists = put dst (push_side dst_left (or_none v) (list_at dst s)) s.lists;
      } in
      (ok v, wake_waiters dst (record l { store = touch_keys (src ∷ dst ∷ []) now t }))

  -- the test of the destination, where it is another key
  unfoldable pub dst_test : Text → Text → ℤ → Store F J → Bool × Store F J
  dst_test src dst now s =
      if text_eq src dst then (false, s) else not_moved dst now (expired_key dst now s).1

  -- `LMove`
  unfoldable pub l_move :
      Text → Text → Bool → Bool → ℤ → Waiting F J → Answer (Option Text) × Waiting F J
  l_move src dst src_left dst_left now l =
      let (wrong, s₁) = not_moved src now (expired_key src now l.store).1 in
      if wrong
      then (fail wrong_type, record l { store = s₁ })
      else (if Deque.len (list_at src s₁) == 0
          then (ok none, record l { store = s₁ })
          else (let (wrong_dst, s₂) = dst_test src dst now s₁ in
              if wrong_dst
              then (fail wrong_type, record l { store = s₂ })
              else move_element src dst src_left dst_left (list_at src s₂) now
                  (record l { store = s₂ })))
