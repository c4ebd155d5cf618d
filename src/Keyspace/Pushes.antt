-- ===== src/Keyspace/Pushes.antt =====
-- internal/store/store.go, `pushList` and `wakeListWaitersLocked`: where the elements go that are pushed.
use vole.Prelude.{
  ◌+◌, ◌≡◌, refl, ap, ◌∙◌, list_of, subst, Option-cases, reverse, List, [], ◌∷◌, Option, some, none,
  true, false, Bool, arith, inl, inr,
}
use vole.Prelude.Text.{Text}
use vole.Prelude.Int.{ℤ}
use vole.Prelude.Map.{lookup, has, put, lookup-put_self}
use vole.Deque
use vole.Deque.{Deque, to_slice}
use vole.Deque.Valid.{IsValid, empty-IsValid}
use vole.Deque.Push.{to_slice-push_back, to_slice-push_front}
use vole.Keyspace.{Store, ok, past_deadline, touch_keys}
use vole.Keyspace.Refines.{expired_key-live}
use vole.Keyspace.Plain.{exists_string-settled}
use vole.Keyspace.Lists.{not_list, push_list, push_side, beside_list}
use vole.Keyspace.Blocking.{
  or_empty_list, is_done, ListWaitResult, list_at, Waiting, ListWaiter, serve, send_once, pop_side,
  no_waiters,
}
use vole.Keyspace.Waiters.{
  held, IsHeldValid, Fresh, tally, tally-append, tally-reverse, pop_side-tally, to_slice-store_list,
  held-wake_waiters,
}

-- A push puts its values into the list.
push_side-tally :
    (x : Text) (left : Bool) (vs : List Text) (d : Deque)
    → IsValid d
    → IsValid (push_side left vs d)
      × (tally x (to_slice (push_side left vs d)) ≡ tally x (to_slice d) + tally x vs)
push_side-tally x true vs d valid =
    let p = to_slice-push_front d vs valid in
    (
      p.0,
      ap (tally x) p.1
          ∙ tally-append x (reverse vs) (to_slice d)
          ∙ omega (arith, tally-reverse x vs),
    )
push_side-tally x false vs d valid =
    let p = to_slice-push_back d vs valid in
    (p.0, ap (tally x) p.1 ∙ tally-append x (to_slice d) vs)

send_once-done :
    (key : Text) (w : ListWaiter) (v : Option Text) (sent : List ListWaitResult)
    → is_done w.channel sent ≡ true
    → send_once w key v sent ≡ sent
unfolding send_once
send_once-done key w none sent h = refl
send_once-done key w (some v) sent h = rw h refl

module _ {F J : Type 0} (key : Text) where
  or_empty-IsValid : (l : Waiting F J) → IsHeldValid key l → IsValid (list_at key l.store)
  unfolding vole.Keyspace.Blocking.or_empty_list
  or_empty-IsValid l valid = elim (Option-cases (lookup key l.store.lists)) [
    | inl n ↦ rw n empty-IsValid
    | inr (d, e) ↦ rw e (valid d e)
  ]

  -- the list with the values pushed, before the waiters are woken
  abbrev stored : Bool → List Text → ℤ → Waiting F J → Waiting F J
  stored left vs now l = record l {
    store = touch_keys (key ∷ []) now (record l.store {
      lists = put key (push_side left vs (list_at key l.store)) l.store.lists;
    });
  }

  held-stored :
      (x : Text) (left : Bool) (vs : List Text) (now : ℤ) (l : Waiting F J)
      → IsHeldValid key l
      → IsHeldValid key (stored left vs now l)
        × (held key x (stored left vs now l) ≡ held key x l + tally x vs)
  unfolding touch_keys vole.Keyspace.Blocking.or_empty_list
  held-stored x left vs now l valid =
      let (w, p) = push_side-tally x left vs (list_at key l.store) (or_empty-IsValid l valid) in
      rw (lookup-put_self key (push_side left vs (list_at key l.store)) l.store.lists)
        (λ d h. subst IsValid (ground (arith, h)) w, omega (arith, p))

  -- `pushList` loses none of its values and makes none, though it wakes the waiters of the key: for a key
  -- that is not expired and holds nothing but a list, in a valid deque, where no waiter of the key is done
  -- yet and none is registered twice, it answers with the length of the list that it leaves, and each text
  -- stands in the list and on the channels together as often as it did there and among the values.
  pub held-push_list :
      (x : Text) (left : Bool) (v : Text) (vs : List Text) (now : ℤ) (l : Waiting F J)
      → past_deadline now (lookup key l.store.expires) ≡ false
      → has key l.store.kv ≡ false
      → beside_list key l.store ≡ false
      → IsHeldValid key l
      → Fresh (no_waiters (lookup key l.list_waits)) l.sent
      → ((push_list left key (v ∷ vs) now l).0
          ≡ ok (Deque.len (list_at key (push_list left key (v ∷ vs) now l).1.store)))
        × (held key x (push_list left key (v ∷ vs) now l).1 ≡ held key x l + tally x (v ∷ vs))
  unfolding push_list not_list
  held-push_list x left v vs now l live string beside valid fresh =
      rw (expired_key-live key now l.store live) (
        rw (exists_string-settled key now l.store live, string, beside)
          (
            refl,
            let (w, p) = held-stored x left (v ∷ vs) now l valid in
                held-wake_waiters key x (stored left (v ∷ vs) now l) w fresh ∙ p,
          ))

  -- A round for a waiter that is done already still takes an element from the list: where the list is a
  -- valid deque, nothing is sent, and each text stands in the list afterwards less often by what was
  -- popped.
  pub held-serve_done :
      (x : Text) (w : ListWaiter) (ws : List ListWaiter) (d : Deque) (l : Waiting F J)
      → IsValid d
      → lookup key l.store.lists ≡ some d
      → is_done w.channel l.sent ≡ true
      → ((serve key w ws d l).sent ≡ l.sent)
        × (held key x l ≡ tally x (list_of (pop_side w.left d).0) + held key x (serve key w ws d l))
  unfolding serve vole.Keyspace.Blocking.or_empty_list
  held-serve_done x w ws d l valid e done =
      let p = pop_side-tally x w.left d valid in
      (
        send_once-done key w (pop_side w.left d).0 l.sent done,
        rw
            (
              send_once-done key w (pop_side w.left d).0 l.sent done,
              to_slice-store_list key (pop_side w.left d).1 l.store,
              e,
            )
            (omega (arith, p.1)),
      )
