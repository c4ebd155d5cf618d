-- ===== src/Keyspace/Waiters.antt =====
-- internal/store/store.go, `wakeListWaitersLocked`: where the elements go.
use mathlib.Core.List.{reverse-cons}
use vole.Prelude.{
  reverse, ℕ, ◌+◌, ◌≡◌, refl, subst, ap, ◌∙◌, inl, inr, Bool, true, false, List, [], ◌∷◌, ◌++◌,
  Option, some, none, list_of, arith, ◌==◌, if◌then◌else◌, Bool-cases, Option-cases,
}
use vole.Prelude.Text.{Text, text_eq, text_eq_refl}
use vole.Prelude.Map.{lookup, lookup-put_self, lookup-delete}
use vole.Deque
use vole.Deque.{Deque, pop_front, pop_back, to_slice}
use vole.Deque.Valid.{IsValid}
use vole.Deque.Pop.{to_slice-pop_front, to_slice-pop_back}
use vole.Keyspace.{Store}
use vole.Keyspace.Blocking.{
  ListWaiter, ListWaitResult, Waiting, no_waiters, is_done, send_once, pop_side, store_list, serve,
  wake_loop, wake_waiters, list_at, or_empty_list,
}

-- how often an element stands in a list
unfoldable pub tally : Text → List Text → ℕ
tally x [] = 0
tally x (y ∷ ys) = (if text_eq y x then 1 else 0) + tally x ys

pub tally-append : (x : Text) (xs ys : List Text) → tally x (xs ++ ys) ≡ tally x xs + tally x ys
unfolding tally
tally-append x [] ys = omega arith
tally-append x (z ∷ xs) ys = omega (arith, tally-append x xs ys)

pub tally-reverse : (x : Text) (xs : List Text) → tally x (reverse xs) ≡ tally x xs
unfolding tally
tally-reverse x [] = refl
tally-reverse x (y ∷ ys) =
    ap (tally x) (reverse-cons y ys)
    ∙ tally-append x (reverse ys) (y ∷ [])
    ∙ omega (arith, tally-reverse x ys)

-- how often it was sent
unfoldable pub tally_sent : Text → List ListWaitResult → ℕ
tally_sent x [] = 0
tally_sent x (r ∷ rs) = (if text_eq r.value x then 1 else 0) + tally_sent x rs

-- A pop takes its element from the list, and leaves the others.
pub pop_side-tally :
    (x : Text) (left : Bool) (d : Deque)
    → IsValid d
    → IsValid (pop_side left d).1
      × (tally x (to_slice d)
          ≡ tally x (list_of (pop_side left d).0) + tally x (to_slice (pop_side left d).1))
pop_side-tally x true d valid =
    let p = to_slice-pop_front d valid in
    (p.0, ap (tally x) p.1 ∙ tally-append x (list_of (pop_front d).0) (to_slice (pop_front d).1))
pop_side-tally x false d valid =
    let p = to_slice-pop_back d valid in
    (
      p.0,
      ap (tally x) p.1
          ∙ tally-append x (to_slice (pop_back d).1) (list_of (pop_back d).0)
          ∙ omega arith,
    )

pub tally_sent-send_once :
    (x key : Text) (w : ListWaiter) (v : Option Text) (sent : List ListWaitResult)
    → is_done w.channel sent ≡ false
    → tally_sent x (send_once w key v sent) ≡ tally x (list_of v) + tally_sent x sent
unfolding tally_sent send_once tally
tally_sent-send_once x key w none sent h = omega arith
tally_sent-send_once x key w (some v) sent h = rw h (omega arith)

-- the channels of the waiters are not done, and no waiter stands twice
unfoldable pub is_among : ℕ → List ListWaiter → Bool
is_among c [] = false
is_among c (w ∷ ws) = if w.channel == c then true else is_among c ws

abbrev pub Fresh : List ListWaiter → List ListWaitResult → Type 0
Fresh [] sent = Unit {0}
Fresh (w ∷ ws) sent =
    (is_done w.channel sent ≡ false) × (is_among w.channel ws ≡ false) × Fresh ws sent

is_done-send_once :
    (key : Text) (w : ListWaiter) (v : Option Text) (sent : List ListWaitResult) (c : ℕ)
    → is_done c sent ≡ false
    → (w.channel == c) ≡ false
    → is_done c (send_once w key v sent) ≡ false
unfolding send_once is_done
is_done-send_once key w none sent c h k = h
is_done-send_once key w (some v) sent c h k = elim (Bool-cases (is_done w.channel sent)) [
  | inl e ↦ rw e h
  | inr e ↦ rw e (rw k h)
]

Fresh-send_once :
    (key : Text) (w : ListWaiter) (v : Option Text) (ws : List ListWaiter)
    (sent : List ListWaitResult)
    → is_among w.channel ws ≡ false
    → Fresh ws sent
    → Fresh ws (send_once w key v sent)
unfolding is_among
Fresh-send_once key w v [] sent a f = tt
Fresh-send_once key w v (u ∷ ws) sent a f = (
  is_done-send_once key w v sent u.channel f.0 (ground (arith, a)),
  f.1,
  Fresh-send_once key w v ws sent (ground (arith, a)) f.2,
)

module _ {F J : Type 0} (key : Text) where
  -- how often an element is in the list of the key or on its way to a waiter
  abbrev pub held : Text → Waiting F J → ℕ
  held x l = tally x (to_slice (list_at key l.store)) + tally_sent x l.sent

  pub to_slice-store_list :
      (d : Deque) (s : Store F J) → to_slice (list_at key (store_list key d s)) ≡ to_slice d
  unfolding store_list or_empty_list to_slice Deque.len
  to_slice-store_list d s = elim (Bool-cases (d.count == 0)) [
    | inl e ↦ rw e (rw (lookup-delete key key s.lists, text_eq_refl key) refl)
    | inr e ↦ rw e (rw (lookup-put_self key d s.lists) (rw e refl))
  ]

  -- the list of the key, if there is one, is a valid deque
  abbrev pub IsHeldValid : Waiting F J → Type 0
  IsHeldValid l = (d : Deque) → lookup key l.store.lists ≡ some d → IsValid d

  IsHeldValid-store_list :
      (d e : Deque) (s : Store F J)
      → IsValid e
      → lookup key (store_list key e s).lists ≡ some d
      → IsValid d
  unfolding store_list
  IsHeldValid-store_list d e s valid = elim (Bool-cases (Deque.len e == 0)) [
    | inl z ↦
        rw z
          (rw (lookup-delete key key s.lists, text_eq_refl key) (λ h. absurd (ground (arith, h))))
    | inr z ↦
        rw z (rw (lookup-put_self key e s.lists) (λ h. subst IsValid (ground (arith, h)) valid))
  ]

  -- A round in which the waiter is not done moves one element from the list to its channel.
  held-serve :
      (x : Text) (w : ListWaiter) (ws : List ListWaiter) (d : Deque) (l : Waiting F J)
      → IsValid d
      → lookup key l.store.lists ≡ some d
      → is_done w.channel l.sent ≡ false
      → held x (serve key w ws d l) ≡ held x l
  unfolding serve or_empty_list
  held-serve x w ws d l valid e fresh =
      let p = pop_side-tally x w.left d valid in
      rw (to_slice-store_list (pop_side w.left d).1 l.store, e)
        (omega (arith, p.1, tally_sent-send_once x key w (pop_side w.left d).0 l.sent fresh))

  wake_loop-none :
      (w : ListWaiter) (ws : List ListWaiter) (l : Waiting F J)
      → lookup key l.store.lists ≡ none
      → wake_loop key (w ∷ ws) l ≡ l
  unfolding wake_loop
  wake_loop-none w ws l n = rw (wake_loop, n) refl

  wake_loop-empty :
      (w : ListWaiter) (ws : List ListWaiter) (d : Deque) (l : Waiting F J)
      → lookup key l.store.lists ≡ some d
      → (Deque.len d == 0) ≡ true
      → wake_loop key (w ∷ ws) l ≡ l
  unfolding wake_loop
  wake_loop-empty w ws d l e z = rw (wake_loop, e) (rw z refl)

  wake_loop-some :
      (w : ListWaiter) (ws : List ListWaiter) (d : Deque) (l : Waiting F J)
      → lookup key l.store.lists ≡ some d
      → (Deque.len d == 0) ≡ false
      → wake_loop key (w ∷ ws) l ≡ wake_loop key ws (serve key w ws d l)
  unfolding wake_loop
  wake_loop-some w ws d l e z = rw (wake_loop, e) (rw z refl)

  IsHeldValid-serve :
      (w : ListWaiter) (ws : List ListWaiter) (d : Deque) (l : Waiting F J)
      → IsValid d
      → IsHeldValid (serve key w ws d l)
  unfolding serve
  IsHeldValid-serve w ws d l valid e h =
      IsHeldValid-store_list e (pop_side w.left d).1 l.store (pop_side-tally [] w.left d valid).0 h

  Fresh-serve :
      (w : ListWaiter) (ws : List ListWaiter) (d : Deque) (l : Waiting F J)
      → Fresh (w ∷ ws) l.sent
      → Fresh ws (serve key w ws d l).sent
  unfolding serve
  Fresh-serve w ws d l fresh = Fresh-send_once key w (pop_side w.left d).0 ws l.sent fresh.1 fresh.2

  held-wake_loop :
      (x : Text) (ws : List ListWaiter) (l : Waiting F J)
      → IsHeldValid l
      → Fresh ws l.sent
      → held x (wake_loop key ws l) ≡ held x l
  unfolding wake_loop
  held-wake_loop x [] l valid fresh = refl
  held-wake_loop x (w ∷ ws) l valid fresh = elim (Option-cases (lookup key l.store.lists)) [
    | inl n ↦ ap (held x) (wake_loop-none w ws l n)
    | inr (d, e) ↦ elim (Bool-cases (Deque.len d == 0)) [
      | inl z ↦ ap (held x) (wake_loop-empty w ws d l e z)
      | inr z ↦
          ap (held x) (wake_loop-some w ws d l e z)
          ∙ held-wake_loop x ws (serve key w ws d l) (IsHeldValid-serve w ws d l (valid d e))
              (Fresh-serve w ws d l fresh)
          ∙ held-serve x w ws d l (valid d e) e fresh.0
    ]
  ]

  -- waking loses no element and makes none
  pub held-wake_waiters :
      (x : Text) (l : Waiting F J)
      → IsHeldValid l
      → Fresh (no_waiters (lookup key l.list_waits)) l.sent
      → held x (wake_waiters key l) ≡ held x l
  unfolding wake_waiters
  held-wake_waiters x l valid fresh =
      held-wake_loop x (no_waiters (lookup key l.list_waits)) l valid fresh
