-- ===== src/Keyspace/Gone.antt =====
-- internal/store/store.go, `Del`: what is left of the keys.
use vole.Prelude.{
  ℕ, ◌+◌, ◌≡◌, refl, inl, inr, subst, Bool, true, false, List, [], ◌∷◌, arith, if◌then◌else◌,
  Bool-cases,
}
use vole.Prelude.Text.{Text, text_eq, text_eq_iff}
use vole.Prelude.Int.{ℤ}
use vole.Prelude.Map.{lookup, lookup-delete, has-delete}
use vole.Keyspace.{
  Store, past_deadline, before_time, is_expired, is_delayed, exists_read, delete_key, exists_string,
  exists,
}
use vole.Namespace.{one_of}
use vole.Keyspace.Moves.{del_one, del}
use vole.Keyspace.Refines.{expired_key-past, expired_key-live, holds_other-delete_key}

module _ {F J : Type 0} (key : Text) (now : ℤ) (s : Store F J) where
  -- what `existsLocked` finds in a key that is not past its deadline
  pub exists-live :
      past_deadline now (lookup key s.expires) ≡ false
      → exists key now s ≡ (exists_read key now s, s)
  unfolding exists exists_string exists_read is_expired
  exists-live h = elim (Bool-cases (is_delayed key now s)) [
    | inl d ↦ rw (expired_key-live key now s h, d, h) refl
    | inr d ↦ rw (expired_key-live key now s h, d, expired_key-live key now s h, h) refl
  ]

  pub exists_read-past :
      past_deadline now (lookup key s.expires) ≡ true → exists_read key now s ≡ false
  unfolding exists_read is_expired
  exists_read-past h = rw h refl

  -- `Del` of one key answers whether the key could be read, and deletes it if so.
  del_one-live :
      past_deadline now (lookup key s.expires) ≡ false
      → del_one key now s ≡ (if exists_read key now s then (1, delete_key key now s) else (0, s))
  unfolding del_one
  del_one-live h = rw (expired_key-live key now s h, exists-live h) refl

  del_one-past :
      past_deadline now (lookup key s.expires) ≡ true
      → del_one key now s ≡ (0, delete_key key now s)
  unfolding del_one
  del_one-past h = rw (expired_key-past key now s h) refl

  pub exists_read-delete_key :
      (j : Text) (later : ℤ)
      → exists_read j later (delete_key key now s)
        ≡ (if text_eq key j then false else exists_read j later s)
  unfolding exists_read is_expired is_delayed delete_key
  exists_read-delete_key j later = elim (Bool-cases (text_eq key j)) [
    | inl e ↦
        rw
          (
            lookup-delete key j s.expires,
            lookup-delete key j s.not_before,
            has-delete key j s.kv,
            holds_other-delete_key key now s j,
            e,
          )
          (unfold past_deadline before_time in refl)
    | inr e ↦
        rw
          (
            lookup-delete key j s.expires,
            lookup-delete key j s.not_before,
            has-delete key j s.kv,
            holds_other-delete_key key now s j,
            e,
          )
          refl
  ]

  exists_read_self :
      (j : Text)
      → exists_read key now s ≡ false
      → exists_read j now s ≡ (if text_eq key j then false else exists_read j now s)
  exists_read_self j h = elim (Bool-cases (text_eq key j)) [
    | inl e ↦ rw e (subst (λ i. exists_read i now s ≡ false) ((text_eq_iff key j).0 e) h)
    | inr e ↦ rw e refl
  ]

  exists_read-del_one :
      (j : Text)
      → exists_read j now (del_one key now s).1
        ≡ (if text_eq key j then false else exists_read j now s)
  exists_read-del_one j = elim (Bool-cases (past_deadline now (lookup key s.expires))) [
    | inl h ↦ rw (del_one-past h) (exists_read-delete_key j now)
    | inr h ↦ elim (Bool-cases (exists_read key now s)) [
      | inl e ↦ rw (del_one-live h, e) (exists_read-delete_key j now)
      | inr e ↦ rw (del_one-live h, e) (exists_read_self j e)
    ]
  ]

  count-del_one : (del_one key now s).0 ≡ (if exists_read key now s then 1 else 0)
  count-del_one = elim (Bool-cases (past_deadline now (lookup key s.expires))) [
    | inl h ↦ rw (del_one-past h, exists_read-past h) refl
    | inr h ↦ elim (Bool-cases (exists_read key now s)) [
      | inl e ↦ rw (del_one-live h, e) refl
      | inr e ↦ rw (del_one-live h, e) refl
    ]
  ]

-- the number of different keys in the list that can be read
unfoldable pub readable : {F J : Type 0} → List Text → ℤ → Store F J → (Text → Bool) → ℕ
readable [] now s seen = 0
readable (key ∷ ks) now s seen =
    (if seen key then 0 else (if exists_read key now s then 1 else 0))
    + readable ks now s (λ j. if text_eq key j then true else seen j)

module _ {F J : Type 0} (now : ℤ) where
  -- `Del` leaves those keys that can be read and are not in the list, and answers with the number of
  -- different keys of the list that could be read.
  del-masks :
      (ks : List Text) (s t : Store F J) (seen : Text → Bool)
      → ((j : Text) → exists_read j now t ≡ (if seen j then false else exists_read j now s))
      → ((del ks now t).0 ≡ readable ks now s seen)
        × ((j : Text)
            → exists_read j now (del ks now t).1
              ≡ (if one_of j ks then false else (if seen j then false else exists_read j now s)))
  unfolding del readable one_of
  del-masks [] s t seen h = (refl, h)
  del-masks (key ∷ ks) s t seen h =
      let r =
        del-masks ks s (del_one key now t).1 (λ j. if text_eq key j then true else seen j)
          (λ j. step j) in
      (ground (arith, r.0, count-del_one key now t, h key), λ j. ground (arith, r.1 j))
    where
      step :
          (j : Text)
          → exists_read j now (del_one key now t).1
            ≡ (if if text_eq key j then true else seen j then false else exists_read j now s)
      step j = ground (arith, exists_read-del_one key now t j, h j)

  -- `Del` leaves those keys that can be read and are not in the list, and no others, and answers with
  -- the number of different keys of the list that could be read before.
  pub del-readable :
      (ks : List Text) (s : Store F J)
      → ((del ks now s).0 ≡ readable ks now s (λ j. false))
        × ((j : Text)
            → exists_read j now (del ks now s).1
              ≡ (if one_of j ks then false else exists_read j now s))
  del-readable ks s = del-masks ks s s (λ j. false) (λ j. refl)
