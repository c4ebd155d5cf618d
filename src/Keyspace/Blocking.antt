-- ===== src/Keyspace/Blocking.antt =====
-- internal/store/store.go, `BPop`, `wakeListWaitersLocked` and `removeListWaiter`: the waiters of lists. A
-- waiter is the number of its channel and the side that it takes from; `sent` are the results on the
-- channels, and a channel that has one is done.
use vole.Prelude.{
  ℕ, ◌+◌, Bool, true, false, ◌||◌, List, [], ◌∷◌, ◌++◌, Option, some, none, ◌==◌, if◌then◌else◌,
}
use vole.Prelude.Text.{Text}
use vole.Prelude.Int.{ℤ}
use vole.Prelude.Map.{Map, lookup, put, delete}
use vole.Deque
use vole.Deque.{Deque, push_front, push_back, pop_front, pop_back, to_slice, set_at}
use vole.Keyspace.{Store, touch_keys, expired_key}

unfoldable pub or_empty_list : Option Deque → Deque
or_empty_list none = Deque.empty
or_empty_list (some d) = d

pub record ListWaiter : Type 0 where
  pub channel : ℕ
  pub left : Bool

pub record ListWaitResult : Type 0 where
  pub to : ℕ
  pub key : Text
  pub value : Text

-- the store with `listWaits` and what was sent
pub record Waiting (F J : Type 0) : Type 0 where
  pub store : Store F J
  pub list_waits : Map (List ListWaiter)
  pub sent : List ListWaitResult
  pub next_channel : ℕ

unfoldable pub no_waiters : Option (List ListWaiter) → List ListWaiter
no_waiters none = []
no_waiters (some ws) = ws

-- `w.once` has run
unfoldable pub is_done : ℕ → List ListWaitResult → Bool
is_done c [] = false
is_done c (r ∷ rs) = if r.to == c then true else is_done c rs

-- `w.once.Do(...)`: the result goes into the channel, the first time
unfoldable pub send_once :
    ListWaiter → Text → Option Text → List ListWaitResult → List ListWaitResult
send_once w key none sent = sent
send_once w key (some v) sent =
    if is_done w.channel sent then sent else record { to = w.channel; key = key; value = v } ∷ sent

-- `if w.left { d.PopFront() } else { d.PopBack() }`
abbrev pub pop_side : Bool → Deque → Option Text × Deque
pop_side left d = if left then pop_front d else pop_back d

-- `listWaits[key] = rest`, or its deletion where no waiter is left
unfoldable pub keep_waiters : Text → List ListWaiter → Map (List ListWaiter) → Map (List ListWaiter)
keep_waiters key [] m = delete key m
keep_waiters key (w ∷ ws) m = put key (w ∷ ws) m

unfoldable pub without : ℕ → List ListWaiter → List ListWaiter
without c [] = []
without c (w ∷ ws) = let rest = without c ws in if w.channel == c then rest else w ∷ rest

unfoldable pub register_all : ListWaiter → List Text → Map (List ListWaiter) → Map (List ListWaiter)
register_all w [] m = m
register_all w (key ∷ ks) m = register_all w ks (put key (no_waiters (lookup key m) ++ w ∷ []) m)

-- `removeListWaiter`, when the wait is over
unfoldable pub remove_waiter : List Text → ℕ → Map (List ListWaiter) → Map (List ListWaiter)
remove_waiter [] c m = m
remove_waiter (key ∷ ks) c m =
    remove_waiter ks c (keep_waiters key (without c (no_waiters (lookup key m))) m)

module _ {F J : Type 0} where
  abbrev pub list_at : Text → Store F J → Deque
  list_at key s = or_empty_list (lookup key s.lists)

  -- what stands at the key behind a pop: a list without elements goes, with its deadline
  unfoldable pub store_list : Text → Deque → Store F J → Store F J
  store_list key d s =
      if Deque.len d == 0
      then record s { lists = delete key s.lists; expires = delete key s.expires }
      else record s { lists = put key d s.lists }

  -- one round of `wakeListWaitersLocked`, for the first waiter and those behind it
  unfoldable pub serve : Text → ListWaiter → List ListWaiter → Deque → Waiting F J → Waiting F J
  serve key w ws d l =
      let (v, e) = pop_side w.left d in
      record l {
        store = store_list key e l.store;
        list_waits = keep_waiters key ws l.list_waits;
        sent = send_once w key v l.sent;
      }

  -- the loop of `wakeListWaitersLocked`, over the waiters of the key
  unfoldable pub wake_loop : Text → List ListWaiter → Waiting F J → Waiting F J
  wake_loop key [] l = l
  wake_loop key (w ∷ ws) l = elim (lookup key l.store.lists) [
    | none ↦ l
    | some d ↦
        let rest = wake_loop key ws (serve key w ws d l) in if Deque.len d == 0 then l else rest
  ]

  -- `wakeListWaitersLocked`
  unfoldable pub wake_waiters : Text → Waiting F J → Waiting F J
  wake_waiters key l = wake_loop key (no_waiters (lookup key l.list_waits)) l

  -- the first loop of `BPop`: the first list with an element gives it
  unfoldable pub pop_first :
      Bool → List Text → ℤ → Store F J → Option (Text × Option Text) × Store F J
  pop_first left [] now s = (none, s)
  pop_first left (key ∷ ks) now s =
      let (expired, s₁) = expired_key key now s in
      let d = list_at key s₁ in
      let (v, e) = pop_side left d in
      let rest = pop_first left ks now s₁ in
      if expired || Deque.len d == 0
      then rest
      else (some (key, v), touch_keys (key ∷ []) now (store_list key e s₁))

  -- `BPop` up to its wait: what it returns at once, or the waiter that it registers for each key
  unfoldable pub enter_wait :
      Bool
      → List Text
      → Waiting F J
      → Option (Text × Option Text) × Store F J
      → Option (Text × Option Text) × Waiting F J
  enter_wait left ks l (some r, s) = (some r, record l { store = s })
  enter_wait left ks l (none, s) = (
    none,
    record l {
      store = s;
      list_waits = register_all (record { channel = l.next_channel; left = left }) ks l.list_waits;
      next_channel = l.next_channel + 1;
    },
  )

  unfoldable pub b_pop :
      Bool → List Text → ℤ → Waiting F J → Option (Text × Option Text) × Waiting F J
  b_pop left ks now l = enter_wait left ks l (pop_first left ks now l.store)
