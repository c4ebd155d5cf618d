-- ===== src/Keyspace/ListTests.antt =====
-- The lists of the keyspace at concrete stores.
use vole.Prelude.{
  subst, arith, ℕ, ◌+◌, ◌≡◌, refl, ◌⊎◌, true, false, List, [], ◌∷◌, ◌++◌, length, if◌then◌else◌,
  list_of,
}
use vole.Prelude.Text.{Text, text_eq}
use vole.Prelude.Int.{pos, negsuc}
use vole.Prelude.Map.{lookup, has}
use vole.Deque
use vole.Deque.{Deque, to_slice}
use vole.Deque.Valid.{IsValid}
use vole.Keys.{Keys}
use vole.Keyspace.{Store, new_store, ok, past_deadline}
use vole.Keyspace.Lists.{beside_list, push_list, l_insert}
use vole.Keyspace.Blocking.{ListWaiter, Waiting, no_waiters, is_done, list_at, serve, pop_side}
use vole.Keyspace.Waiters.{is_among, held, tally, IsHeldValid}
use vole.Keyspace.Pushes.{held-push_list, held-serve_done}
use vole.Keyspace.Places.{to_slice-l_insert}

abbrev a_key : Text
a_key = b'a' ∷ []

abbrev b_key : Text
b_key = b'b' ∷ []

-- the list a b a
abbrev aba : Deque
aba = record { buf = a_key ∷ b_key ∷ a_key ∷ []; head = 0; count = 3 }

aba-IsValid : IsValid aba
aba-IsValid = omega arith

abbrev no_keys : Keys
no_keys = record {
  version = 0;
  key_version = [];
  on_change = false;
  events = [];
  max_memory = pos 0;
  access_time = [];
}

abbrev listed : Store ℕ ℕ
listed = record (new_store no_keys) { lists = (a_key, aba) ∷ [] }

abbrev first_waiter : ListWaiter
first_waiter = record { channel = 0; left = true }

abbrev second_waiter : ListWaiter
second_waiter = record { channel = 1; left = false }

-- two clients wait at the key of the list
abbrev waiting : Waiting ℕ ℕ
waiting = record {
  store = listed;
  list_waits = (a_key, first_waiter ∷ second_waiter ∷ []) ∷ [];
  sent = [];
  next_channel = 2;
}

-- the first of them has its element already
abbrev answered : Waiting ℕ ℕ
answered = record waiting { sent = record { to = 0; key = b_key; value = b_key } ∷ [] }

waiting-IsHeldValid : IsHeldValid a_key waiting
unfolding lookup text_eq
waiting-IsHeldValid d h = subst IsValid (ground (arith, h)) aba-IsValid

held-push_list_example :
    ((push_list true a_key (b_key ∷ a_key ∷ []) (pos 5) waiting).0
      ≡ ok (
          Deque.len
            (list_at a_key (push_list true a_key (b_key ∷ a_key ∷ []) (pos 5) waiting).1.store)))
    × (held a_key b_key (push_list true a_key (b_key ∷ a_key ∷ []) (pos 5) waiting).1
        ≡ held a_key b_key waiting + tally b_key (b_key ∷ a_key ∷ []))
unfolding past_deadline lookup has text_eq beside_list no_waiters is_done is_among
held-push_list_example =
    held-push_list a_key b_key true b_key (a_key ∷ []) (pos 5) waiting refl refl refl
      waiting-IsHeldValid (refl, refl, (refl, refl, tt))

held-serve_done_example :
    ((serve a_key first_waiter (second_waiter ∷ []) aba answered).sent ≡ answered.sent)
    × (held a_key a_key answered
        ≡ tally a_key (list_of (pop_side true aba).0)
          + held a_key a_key (serve a_key first_waiter (second_waiter ∷ []) aba answered))
unfolding lookup text_eq is_done
held-serve_done_example =
    held-serve_done a_key a_key first_waiter (second_waiter ∷ []) aba answered aba-IsValid refl refl

to_slice-l_insert_example :
    ((l_insert a_key false b_key b_key (pos 5) listed ≡ (ok (negsuc 0), listed))
      × (tally b_key (to_slice aba) ≡ 0))
    ⊎ ((front : List Text) × (back : List Text) × (to_slice aba ≡ front ++ b_key ∷ back)
        × (tally b_key front ≡ 0)
        × (to_slice (list_at a_key (l_insert a_key false b_key b_key (pos 5) listed).1)
            ≡ (if false then front ++ b_key ∷ b_key ∷ back else front ++ b_key ∷ b_key ∷ back))
        × ((l_insert a_key false b_key b_key (pos 5) listed).0
            ≡ ok (
                pos (
                  length (
                    to_slice
                      (list_at a_key (l_insert a_key false b_key b_key (pos 5) listed).1))))))
unfolding past_deadline lookup has text_eq beside_list Deque.len
to_slice-l_insert_example =
    to_slice-l_insert a_key (pos 5) listed aba refl refl refl refl refl false b_key b_key
      aba-IsValid
