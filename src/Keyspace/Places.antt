-- ===== src/Keyspace/Places.antt =====
-- internal/store/store.go, `LPos` and `LInsert`: the first place of an element in a list.
use vole.Prelude.{
  ◌≤◌, ℕ, ◌+◌, ◌≡◌, refl, ap, sym, ◌∙◌, ◌⊎◌, inl, inr, Bool, true, false, Bool-cases, List, [], ◌∷◌,
  ◌++◌, Option, some, none, length, arith, ◌==◌, if◌then◌else◌, take-length, drop-length,
  length-append, append_assoc,
}
use vole.Prelude.Text.{Text, text_eq, text_eq_iff}
use vole.Prelude.Int.{ℤ, pos, negsuc}
use vole.Prelude.Map.{lookup, has, lookup-put_self}
use vole.Deque
use vole.Deque.{Deque, to_slice}
use vole.Deque.Valid.{IsValid}
use vole.Deque.Slices.{length-to_slice}
use vole.Deque.Insert.{to_slice-insert}
use vole.Keyspace.{Store, ok, past_deadline, touch_keys, is_expired}
use vole.Keyspace.Refines.{expired_key-live}
use vole.Keyspace.Plain.{exists_string-settled}
use vole.Keyspace.Lists.{
  index_of, insert_at_pivot, l_insert, beside_list, not_list, change_list, changed,
}
use vole.Keyspace.Blocking.{list_at}
use vole.Keyspace.Waiters.{tally}

-- An element has a first place in a list, the one that the search gives, or none at all.
abbrev pub Place : Text → List Text → Option ℕ → ℕ → Type 0
Place x items r i =
    ((r ≡ none) × (tally x items ≡ 0))
    ⊎ ((front : List Text) × (back : List Text) × (r ≡ some (i + length front))
        × (items ≡ front ++ x ∷ back)
        × (tally x front ≡ 0))

index_of-Place : (x : Text) (items : List Text) (i : ℕ) → Place x items (index_of x items i) i
unfolding index_of tally
index_of-Place x [] i = inl (refl, refl)
index_of-Place x (y ∷ ys) i = elim (Bool-cases (text_eq y x)) [
  | inl e ↦
      inr ([], ys, rw e (ap some (omega arith)), ap (λ z. z ∷ ys) ((text_eq_iff y x).0 e), refl)
  | inr e ↦ elim (index_of-Place x ys (i + 1)) [
    | inl (n, t) ↦ inl (rw e n, rw e (omega (arith, t)))
    | inr (front, back, n, split, t) ↦ inr (
      y ∷ front,
      back,
      rw e (n ∙ ap some (omega arith)),
      ap (◌∷◌ y) split,
      rw e (omega (arith, t)),
    )
  ]
]

-- what stands behind an insertion after the elements of a front
inserted :
    (d : Deque) (v : Text) (front rest : List Text) (i : ℕ)
    → IsValid d
    → to_slice d ≡ front ++ rest
    → i ≡ length front
    → (to_slice (Deque.insert d i v) ≡ front ++ v ∷ rest)
      × (Deque.len (Deque.insert d i v) ≡ length (to_slice (Deque.insert d i v)))
unfolding Deque.len
inserted d v front rest i valid split e =
    let fits : i ≤ d.count =
      omega (arith, length-to_slice d, ap length split, length-append front rest, e) in
    (
      (to_slice-insert d i v valid fits).1
          ∙ rw (e, split, take-length front rest, drop-length front rest) refl,
      sym (length-to_slice (Deque.insert d i v)),
    )

inserted_at :
    (d : Deque) (before : Bool) (pivot v : Text) (front back : List Text)
    → IsValid d
    → to_slice d ≡ front ++ pivot ∷ back
    → (e : Deque) × (insert_at_pivot before v d (some (0 + length front))
        ≡ (ok (pos (Deque.len e)), some e))
      × (to_slice e ≡ (if before then front ++ v ∷ pivot ∷ back else front ++ pivot ∷ v ∷ back))
      × (Deque.len e ≡ length (to_slice e))
unfolding insert_at_pivot
inserted_at d true pivot v front back valid split =
    let (e, n) = inserted d v front (pivot ∷ back) (0 + length front) valid split (omega arith) in
    (Deque.insert d (0 + length front) v, refl, e, n)
inserted_at d false pivot v front back valid split =
    let (e, n) =
      inserted d v (front ++ pivot ∷ []) back (0 + length front + 1) valid
        (split ∙ sym (append_assoc front (pivot ∷ []) back))
        (omega (arith, length-append front (pivot ∷ []))) in
    (
      Deque.insert d (0 + length front + 1) v,
      refl,
      e ∙ append_assoc front (pivot ∷ []) (v ∷ back),
      n,
    )

module _ {F J : Type 0} (key : Text) (now : ℤ) (s : Store F J) (d : Deque)
    (live : past_deadline now (lookup key s.expires) ≡ false) (string : has key s.kv ≡ false)
    (beside : beside_list key s ≡ false) (here : lookup key s.lists ≡ some d)
    (some_len : (Deque.len d == 0) ≡ false) where
  l_insert-found :
      (before : Bool) (pivot v : Text)
      → l_insert key before pivot v now s ≡ (
          let r = insert_at_pivot before v d (index_of pivot (to_slice d) 0) in
          (r.0, changed key now s r.1))
  unfolding l_insert change_list not_list vole.Keyspace.Blocking.or_empty_list
  l_insert-found before pivot v =
      rw (expired_key-live key now s live)
        (rw (exists_string-settled key now s live, string, beside, here) (rw some_len refl))

  l_insert-some :
      (before : Bool) (pivot v : Text) (k : ℕ) (e : Deque)
      → index_of pivot (to_slice d) 0 ≡ some k
      → insert_at_pivot before v d (some k) ≡ (ok (pos (Deque.len e)), some e)
      → l_insert key before pivot v now s ≡ (ok (pos (Deque.len e)), changed key now s (some e))
  l_insert-some before pivot v k e n made = rw (l_insert-found before pivot v, n, made) refl

  to_slice-changed : (e : Deque) → to_slice (list_at key (changed key now s (some e))) ≡ to_slice e
  unfolding changed touch_keys vole.Keyspace.Blocking.or_empty_list
  to_slice-changed e = rw (lookup-put_self key e s.lists) refl

  -- `LInsert` finds the first place of the pivot: for a key that is not expired and holds nothing but a
  -- list with elements, in a valid deque, either the pivot is not among them, and the answer is -1 with
  -- the store as before; or the value stands directly before that place or behind it, as asked for, with
  -- the other elements as before, and the answer is the length.
  pub to_slice-l_insert :
      (before : Bool) (pivot v : Text)
      → IsValid d
      → ((l_insert key before pivot v now s ≡ (ok (negsuc 0), s)) × (tally pivot (to_slice d) ≡ 0))
        ⊎ ((front : List Text) × (back : List Text) × (to_slice d ≡ front ++ pivot ∷ back)
            × (tally pivot front ≡ 0)
            × (to_slice (list_at key (l_insert key before pivot v now s).1)
                ≡ (if before then front ++ v ∷ pivot ∷ back else front ++ pivot ∷ v ∷ back))
            × ((l_insert key before pivot v now s).0
                ≡ ok (pos (length (to_slice (list_at key (l_insert key before pivot v now s).1))))))
  unfolding changed insert_at_pivot
  to_slice-l_insert before pivot v valid = elim (index_of-Place pivot (to_slice d) 0) [
    | inl (n, t) ↦ inl (l_insert-found before pivot v ∙ rw n refl, t)
    | inr (front, back, n, split, t) ↦
        let (e, made, placed, len) = inserted_at d before pivot v front back valid split in
        let done = l_insert-some before pivot v (0 + length front) e n made in
        inr (
          front,
          back,
          split,
          t,
          rw (done, to_slice-changed e) placed,
          rw (done, to_slice-changed e) (ap (λ m. ok (pos m)) len),
        )
  ]
