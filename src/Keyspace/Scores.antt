-- ===== src/Keyspace/Scores.antt =====
-- internal/store/store.go, `ZAdd` and `ZRem`: the scores of a sorted set behind them.
use vole.Prelude.{
  ltb, ◌==◌, ℕ, ◌+◌, ◌≡◌, refl, ap, ◌∙◌, inl, inr, false, Bool-cases, List, [], ◌∷◌, Option, some,
  none, arith, if◌then◌else◌,
}
use vole.Prelude.Text.{text_eq_refl, Text, text_eq}
use vole.Prelude.Int.{ℤ}
use vole.Prelude.Map.{lookup-delete, lookup, has, put, lookup-put_self}
use vole.SortedSet
use vole.SortedSet.{Scores, ZMember, SortedSet, score_of}
use vole.SortedSet.Update.{IsValid, score_of-add, score_of-remove}
use vole.SortedSet.Sizes.{score_of-no_len, len-add, len-remove}
use vole.Keyspace.{
  delete, Store, ok, past_deadline, touch_keys, is_expired, is_delayed, exists_string_read,
}
use vole.Keyspace.Refines.{expired_key-live}
use vole.Keyspace.Plain.{exists_string-settled}
use vole.Keyspace.SortedSets.{
  z_rem, store_sorted, touch_removed, add_members, remove_members, beside_sorted, not_sorted,
  sorted_at, read_found, read_sorted, z_add, z_score, z_card,
}

module _ {S : Type 0} where
  -- the score of a member behind additions: the last one for the member counts
  unfoldable pub scored : Text → List (ZMember S) → Option S → Option S
  scored j [] r = r
  scored j (x ∷ xs) r = scored j xs (if text_eq x.member j then some x.score else r)

  -- the score of a member behind removals
  unfoldable pub unscored : Text → List Text → Option S → Option S
  unscored j [] r = r
  unscored j (m ∷ ms) r = unscored j ms (if text_eq m j then none else r)

module _ {S : Type 0} ⦃o : Scores S⦄ where
  add_members_lem :
      (xs : List (ZMember S)) (z : SortedSet S)
      → IsValid z
      → IsValid (add_members xs z).1
        × ((j : Text) → score_of (add_members xs z).1 j ≡ scored j xs (score_of z j))
        × (SortedSet.len (add_members xs z).1 ≡ SortedSet.len z + (add_members xs z).0)
  unfolding add_members scored
  add_members_lem [] z v = (v, λ j. refl, omega arith)
  add_members_lem (x ∷ xs) z v =
      let y = (SortedSet.add z x.member x.score).1 in
      let r = add_members_lem xs y (score_of-add z x.member x.score x.member v).0 in
      (
        r.0,
        λ j. r.1 j ∙ ap (scored j xs) (score_of-add z x.member x.score j v).1,
        ground (arith, r.2, len-add z x.member x.score),
      )

  remove_members_lem :
      (ms : List Text) (z : SortedSet S)
      → IsValid z
      → IsValid (remove_members ms z).1
        × ((j : Text) → score_of (remove_members ms z).1 j ≡ unscored j ms (score_of z j))
        × (SortedSet.len (remove_members ms z).1 + (remove_members ms z).0 ≡ SortedSet.len z)
  unfolding remove_members unscored
  remove_members_lem [] z v = (v, λ j. refl, omega arith)
  remove_members_lem (m ∷ ms) z v =
      let y = (SortedSet.remove z m).1 in
      let r = remove_members_lem ms y (score_of-remove z m m v).0 in
      (
        r.0,
        λ j. r.1 j ∙ ap (unscored j ms) (score_of-remove z m j v).1,
        ground (arith, r.2, len-remove z m v.is_map),
      )

no_len :
    {S : Type 0} (z : SortedSet S)
    → (if SortedSet.len z == 0 then 0 else SortedSet.len z) ≡ SortedSet.len z
no_len z = ground arith

module _ {F J : Type 0} (key : Text) (now : ℤ) where
  -- a read of a key that is not expired and holds nothing but a sorted set
  read_sorted_lem {ℓ} :
      {A : Type ℓ} (empty : A) (view : SortedSet F → A) (t : Store F J)
      → past_deadline now (lookup key t.expires) ≡ false
      → has key t.kv ≡ false
      → beside_sorted key t ≡ false
      → read_sorted empty view key now t ≡ ok (read_found empty view (lookup key t.zsets))
  unfolding read_sorted is_expired exists_string_read
  read_sorted_lem empty view t live string beside = elim (Bool-cases (is_delayed key now t)) [
    | inl e ↦ rw (live, e) (rw beside refl)
    | inr e ↦ rw (live, e) (rw (string, beside) refl)
  ]

module _ {F J : Type 0} ⦃o : Scores F⦄ (key : Text) (now : ℤ) (s : Store F J)
    (live : past_deadline now (lookup key s.expires) ≡ false) (string : has key s.kv ≡ false)
    (beside : beside_sorted key s ≡ false) where
  -- the store with a set at the key
  abbrev with_sorted : SortedSet F → Store F J
  with_sorted z = touch_keys (key ∷ []) now (record s { zsets = put key z s.zsets })

  read-with_sorted {ℓ} :
      {A : Type ℓ} (empty : A) (view : SortedSet F → A) (z : SortedSet F)
      → read_sorted empty view key now (with_sorted z) ≡ ok (view z)
  unfolding touch_keys beside_sorted read_found
  read-with_sorted empty view z =
      read_sorted_lem key now empty view (with_sorted z) live string beside
      ∙ rw (lookup-put_self key z s.zsets) refl

  -- `ZAdd` at a key that is not expired and holds nothing but a sorted set, a valid one: each member
  -- reads as its last score in the call, or as before, and the answer is the number of members that the
  -- set has gained.
  pub z_score-z_add :
      (x : ZMember F) (xs : List (ZMember F))
      → IsValid (sorted_at key s)
      → (n : ℕ) × (u : Store F J) × (z_add key (x ∷ xs) now s ≡ (ok n, u))
        × ((j : Text) → z_score key j now u ≡ ok (scored j (x ∷ xs) (score_of (sorted_at key s) j)))
        × (z_card key now u ≡ ok (SortedSet.len (sorted_at key s) + n))
  unfolding z_add z_score z_card not_sorted
  z_score-z_add x xs valid =
      let r = add_members_lem (x ∷ xs) (sorted_at key s) valid in
      let z = (add_members (x ∷ xs) (sorted_at key s)).1 in
      (
        (add_members (x ∷ xs) (sorted_at key s)).0,
        with_sorted z,
        rw (expired_key-live key now s live)
            (rw (exists_string-settled key now s live, string, beside) refl),
        λ j. read-with_sorted none (λ y. score_of y j) z ∙ ap ok (r.1 j),
        read-with_sorted 0 SortedSet.len z ∙ ap ok r.2,
      )

  -- what is read behind `ZRem` where the set has become z
  abbrev without_members : ℕ → SortedSet F → Store F J
  without_members n z = touch_removed key now n (store_sorted key z s)

  lookup-without_members :
      (n : ℕ) (z : SortedSet F)
      → lookup key (without_members n z).zsets ≡ (if SortedSet.len z == 0 then none else some z)
  unfolding touch_removed store_sorted touch_keys
  lookup-without_members n z = elim (Bool-cases (SortedSet.len z == 0)) [
    | inl e ↦ elim (Bool-cases (ltb 0 n)) [
      | inl h ↦ rw (e, h) (rw (lookup-delete key key s.zsets, text_eq_refl key) refl)
      | inr h ↦ rw (e, h) (rw (lookup-delete key key s.zsets, text_eq_refl key) refl)
    ]
    | inr e ↦ elim (Bool-cases (ltb 0 n)) [
      | inl h ↦ rw (e, h) (lookup-put_self key z s.zsets)
      | inr h ↦ rw (e, h) (lookup-put_self key z s.zsets)
    ]
  ]

  -- the key is not expired, and holds no value of another type
  kept-without_members :
      (n : ℕ) (z : SortedSet F)
      → (past_deadline now (lookup key (without_members n z).expires) ≡ false)
        × (has key (without_members n z).kv ≡ false)
        × (beside_sorted key (without_members n z) ≡ false)
  unfolding touch_removed store_sorted touch_keys beside_sorted
  kept-without_members n z = elim (Bool-cases (SortedSet.len z == 0)) [
    | inl e ↦
        let no_deadline : past_deadline now (lookup key (delete key s.expires)) ≡ false =
          rw (lookup-delete key key s.expires, text_eq_refl key) (unfold past_deadline in refl) in
        elim (Bool-cases (ltb 0 n)) [
          | inl h ↦ rw (e, h) (no_deadline, string, beside)
          | inr h ↦ rw (e, h) (no_deadline, string, beside)
        ]
    | inr e ↦ elim (Bool-cases (ltb 0 n)) [
      | inl h ↦ rw (e, h) (live, string, beside)
      | inr h ↦ rw (e, h) (live, string, beside)
    ]
  ]

  read-without_members {ℓ} :
      {A : Type ℓ} (empty : A) (view : SortedSet F → A) (n : ℕ) (z : SortedSet F)
      → read_sorted empty view key now (without_members n z)
        ≡ ok (if SortedSet.len z == 0 then empty else view z)
  unfolding read_found
  read-without_members empty view n z =
      let k = kept-without_members n z in
      read_sorted_lem key now empty view (without_members n z) k.0 k.1 k.2
      ∙ elim (Bool-cases (SortedSet.len z == 0)) [
        | inl e ↦ rw (lookup-without_members n z) (rw e refl)
        | inr e ↦ rw (lookup-without_members n z) (rw e refl)
      ]

  -- `ZRem` at a key that is not expired and holds nothing but a sorted set, a valid one with members: the
  -- members of the call have no score afterwards, the others the same one as before, and the answer is
  -- the number of members that the set has lost, also where none is left and the key is gone.
  pub z_score-z_rem :
      (ms : List Text) (y : SortedSet F)
      → lookup key s.zsets ≡ some y
      → IsValid y
      → (SortedSet.len y == 0) ≡ false
      → (n : ℕ) × (u : Store F J) × (z_rem key ms now s ≡ (ok n, u))
        × ((j : Text) → z_score key j now u ≡ ok (unscored j ms (score_of y j)))
        × ((m : ℕ) × (z_card key now u ≡ ok m) × (m + n ≡ SortedSet.len y))
  unfolding z_rem z_score z_card not_sorted vole.Keyspace.SortedSets.or_new
  z_score-z_rem ms y here valid some_len =
      let (_, scores, size) = remove_members_lem ms y valid in
      let n = (remove_members ms y).0 in
      let z = (remove_members ms y).1 in
      (
        n,
        without_members n z,
        rw (expired_key-live key now s live)
            (rw (exists_string-settled key now s live, string, beside, here) (rw some_len refl)),
        λ j.
            read-without_members none (λ w. score_of w j) n z
            ∙ ap ok (score_of-no_len z j ∙ scores j),
        (SortedSet.len z, read-without_members 0 SortedSet.len n z ∙ ap ok (no_len z), size),
      )
