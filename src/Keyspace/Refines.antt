-- ===== src/Keyspace/Refines.antt =====
-- internal/store/store.go: the commands on strings keep what they promise (Keyspace/Spec).
use vole.Prelude.{
  ◌≡◌, refl, inl, inr, true, false, none, arith, if◌then◌else◌, Bool-cases, Option-cases,
}
use vole.Prelude.Text.{Text, text_eq, text_eq_iff}
use vole.Prelude.Int.{ℤ}
use vole.Prelude.Map.{lookup, lookup-delete, has-delete}
use vole.Keyspace.{Store, past_deadline, holds_other, delete_key, expired_key}
use vole.Keyspace.Spec.{slot, current, settle}

module _ {F J : Type 0} (key : Text) (now : ℤ) (s : Store F J) where
  -- a key is gone from each map behind its deletion
  pub holds_other-delete_key :
      (j : Text)
      → holds_other j (delete_key key now s) ≡ (if text_eq key j then false else holds_other j s)
  unfolding holds_other delete_key
  holds_other-delete_key j = ground (
    arith,
    has-delete key j s.hashes,
    has-delete key j s.lists,
    has-delete key j s.sets,
    has-delete key j s.zsets,
    has-delete key j s.streams,
    has-delete key j s.hlls,
    has-delete key j s.jsons,
    has-delete key j s.timeseries,
  )

  pub current-delete_key :
      (j : Text)
      → current now j (delete_key key now s) ≡ (if text_eq key j then none else current now j s)
  unfolding current delete_key slot settle
  current-delete_key j = ground (arith, lookup-delete key j s.kv, lookup-delete key j s.expires)

  current-past : past_deadline now (lookup key s.expires) ≡ true → current now key s ≡ none
  unfolding current slot settle
  current-past h = elim (Option-cases (lookup key s.kv)) [
    | inl e ↦ rw e refl
    | inr (v, e) ↦ rw e (rw h refl)
  ]

  pub expired_key-past :
      past_deadline now (lookup key s.expires) ≡ true
      → expired_key key now s ≡ (true, delete_key key now s)
  unfolding expired_key
  expired_key-past h = rw h refl

  pub expired_key-live :
      past_deadline now (lookup key s.expires) ≡ false → expired_key key now s ≡ (false, s)
  unfolding expired_key
  expired_key-live h = rw h refl

  pub current-expired_key : (j : Text) → current now j (expired_key key now s).1 ≡ current now j s
  current-expired_key j = elim (Bool-cases (past_deadline now (lookup key s.expires))) [
    | inl h ↦
        rw (expired_key-past h)
          (ground (arith, current-delete_key j, current-past h, text_eq_iff key j))
    | inr h ↦ rw (expired_key-live h) refl
  ]
