-- ===== src/Keyspace/Plain.antt =====
-- internal/store/store.go: what the tests of the commands on strings find at a key that has no value
-- of another type.
use vole.Prelude.{◌≡◌, refl, inl, inr, Bool, true, false, ◌||◌, none, arith, Bool-cases}
use vole.Prelude.Text.{Text, text_eq_refl}
use vole.Prelude.Int.{ℤ}
use vole.Prelude.Map.{lookup, has, lookup-delete}
use vole.Keyspace.{
  Store, past_deadline, before_time, is_delayed, holds_other, delete_key, expired_key,
  exists_string, exists,
}
use vole.Keyspace.Refines.{holds_other-delete_key, expired_key-past, expired_key-live}

-- The key has no value of another type and no time of first visibility, and a deadline only with a
-- value.
pub record IsPlain {F J : Type 0} (j : Text) (s : Store F J) : Type 0 where
  pub no_other : holds_other j s ≡ false
  pub not_delayed : lookup j s.not_before ≡ none
  pub no_dangling : lookup j s.kv ≡ none → lookup j s.expires ≡ none

or_false : (b : Bool) → (b || false) ≡ b
or_false true = refl
or_false false = refl

module _ {F J : Type 0} (key : Text) (now : ℤ) (s : Store F J) where
  pub delete_key-IsPlain : (j : Text) → IsPlain j s → IsPlain j (delete_key key now s)
  unfolding delete_key
  delete_key-IsPlain j p = record {
    no_other = ground (arith, holds_other-delete_key key now s j, p.no_other);
    not_delayed = ground (arith, lookup-delete key j s.not_before, p.not_delayed);
    no_dangling =
        ground (arith, lookup-delete key j s.kv, lookup-delete key j s.expires, p.no_dangling);
  }

  pub expired_key-IsPlain : (j : Text) → IsPlain j s → IsPlain j (expired_key key now s).1
  expired_key-IsPlain j p = elim (Bool-cases (past_deadline now (lookup key s.expires))) [
    | inl h ↦ rw (expired_key-past key now s h) (delete_key-IsPlain j p)
    | inr h ↦ rw (expired_key-live key now s h) p
  ]

  pub settled-expired_key : past_deadline now (lookup key (expired_key key now s).1.expires) ≡ false
  unfolding past_deadline
  settled-expired_key = elim (Bool-cases (past_deadline now (lookup key s.expires))) [
    | inl h ↦
        rw (expired_key-past key now s h)
          (unfold delete_key in ground (arith, lookup-delete key key s.expires, text_eq_refl key))
    | inr h ↦ rw (expired_key-live key now s h) h
  ]

  pub gone-expired_key :
      (expired_key key now s).0 ≡ true → lookup key (expired_key key now s).1.kv ≡ none
  gone-expired_key g = elim (Bool-cases (past_deadline now (lookup key s.expires))) [
    | inl h ↦
        rw (expired_key-past key now s h)
          (unfold delete_key in ground (arith, lookup-delete key key s.kv, text_eq_refl key))
    | inr h ↦ absurd (ground (arith, g, expired_key-live key now s h))
  ]

  pub not_delayed-IsPlain : IsPlain key s → is_delayed key now s ≡ false
  unfolding is_delayed before_time
  not_delayed-IsPlain p = rw p.not_delayed refl

  pub exists_string-settled :
      past_deadline now (lookup key s.expires) ≡ false → exists_string key now s ≡ (has key s.kv, s)
  unfolding exists_string
  exists_string-settled h = rw (expired_key-live key now s h) refl

  pub exists-settled :
      past_deadline now (lookup key s.expires) ≡ false
      → IsPlain key s
      → exists key now s ≡ (has key s.kv, s)
  unfolding exists
  exists-settled h p = rw (expired_key-live key now s h) (
      rw (not_delayed-IsPlain p)
        (rw (exists_string-settled h) (rw p.no_other (rw (or_false (has key s.kv)) refl))))
