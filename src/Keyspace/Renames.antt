-- ===== src/Keyspace/Renames.antt =====
-- internal/store/store.go, `Rename`: where the value and the key are behind it.
use vole.Prelude.{
  ◌≡◌, refl, inl, inr, ◌∙◌, true, false, List, [], ◌∷◌, none, arith, if◌then◌else◌, Bool-cases,
  Option-cases,
}
use vole.Prelude.Text.{Text, text_eq, text_eq_iff, text_eq_refl}
use vole.Prelude.Int.{ℤ}
use vole.Prelude.Map.{Map, lookup, put, delete, lookup-put, lookup-delete}
use vole.Keyspace.{
  Store, ok, past_deadline, before_time, is_expired, is_delayed, holds_other, exists_read,
  delete_key, touch_keys,
}
use vole.Keyspace.Strings.{value_result}
use vole.Keyspace.Moves.{move, moved, move_values, rename}
use vole.Keyspace.Refines.{expired_key-live}
use vole.Keyspace.Gone.{exists-live, exists_read-past, exists_read-delete_key}

module _ {F J : Type 0} (key newkey : Text) (now : ℤ) (s : Store F J) where
  -- the move of a value between the maps
  lookup-move :
      {V : Type 0} (j : Text) (m : Map V)
      → text_eq key newkey ≡ false
      → lookup newkey m ≡ none
      → lookup j (move key newkey m)
        ≡ (if text_eq newkey j then lookup key m else (if text_eq key j then none else lookup j m))
  unfolding move moved
  lookup-move j m h k = elim (Option-cases (lookup key m)) [
    | inl n ↦
        rw n (ground (arith, text_eq_iff key j, text_eq_iff newkey j, text_eq_iff key newkey, n, k))
    | inr (v, n) ↦ rw n (
        ground (
          arith,
          lookup-delete key j (put newkey v m),
          lookup-put newkey j v m,
          text_eq_iff key j,
          text_eq_iff newkey j,
          text_eq_iff key newkey,
        ))
  ]

  lookup-moved :
      {V : Type 0} (j : Text) (m : Map V)
      → text_eq key newkey ≡ false
      → lookup j (move key newkey (delete newkey m))
        ≡ (if text_eq newkey j then lookup key m else (if text_eq key j then none else lookup j m))
  lookup-moved j m h = ground (
    arith,
    lookup-move j (delete newkey m) h,
    lookup-delete newkey newkey m,
    lookup-delete newkey key m,
    lookup-delete newkey j m,
    text_eq_iff key newkey,
    text_eq_iff newkey key,
    text_eq_refl newkey,
  )

  readable-visible : exists_read key now s ≡ true → is_delayed key now s ≡ false
  unfolding exists_read
  readable-visible k = ground (arith, k)

  rename-live :
      past_deadline now (lookup key s.expires) ≡ false
      → exists_read key now s ≡ true
      → rename key newkey now s ≡ (
        ok tt,
        touch_keys (key ∷ newkey ∷ []) now (move_values key newkey (delete_key newkey now s)),
      )
  unfolding rename
  rename-live h k = rw (expired_key-live key now s h, exists-live key now s h, k) refl

  live-readable : exists_read key now s ≡ true → past_deadline now (lookup key s.expires) ≡ false
  live-readable k = elim (Bool-cases (past_deadline now (lookup key s.expires))) [
    | inl e ↦ absurd (ground (arith, k, exists_read-past key now s e))
    | inr e ↦ e
  ]

  value_result-moved :
      (j : Text)
      → text_eq key newkey ≡ false
      → exists_read key now s ≡ true
      → value_result now
          (touch_keys (key ∷ newkey ∷ []) now (move_values key newkey (delete_key newkey now s)))
          j
        ≡ (if text_eq newkey j
            then value_result now s key
            else (if text_eq key j then none else value_result now s j))
  unfolding touch_keys move_values delete_key value_result is_expired is_delayed
  value_result-moved j d k = elim (Bool-cases (text_eq newkey j)) [
    | inl e ↦
        rw
          (
            lookup-moved j s.expires d,
            lookup-moved j s.kv d,
            lookup-delete newkey j s.not_before,
            e,
            readable-visible k,
          )
          (unfold before_time in refl)
    | inr e ↦ elim (Bool-cases (text_eq key j)) [
      | inl f ↦
          rw
            (
              lookup-moved j s.expires d,
              lookup-moved j s.kv d,
              lookup-delete newkey j s.not_before,
              e,
              f,
            )
            (unfold past_deadline in ground arith)
      | inr f ↦
          rw
            (
              lookup-moved j s.expires d,
              lookup-moved j s.kv d,
              lookup-delete newkey j s.not_before,
              e,
              f,
            )
            refl
    ]
  ]

  expires-moved :
      (j : Text)
      → text_eq key newkey ≡ false
      → lookup j
          (touch_keys
            (key ∷ newkey ∷ [])
            now
            (move_values key newkey (delete_key newkey now s))).expires
        ≡ (if text_eq newkey j
            then lookup key s.expires
            else (if text_eq key j then none else lookup j s.expires))
  unfolding touch_keys move_values delete_key
  expires-moved j d = lookup-moved j s.expires d

  -- `Rename` of a key that can be read to another moves its string with its deadline: the new key reads
  -- as the old one did and has its deadline, or none as it had none; the old one reads as no string and has no
  -- deadline; and any other key reads as before and has the deadline that it had.
  pub value_result-rename :
      text_eq key newkey ≡ false
      → exists_read key now s ≡ true
      → ((rename key newkey now s).0 ≡ ok tt)
        × ((j : Text)
            → value_result now (rename key newkey now s).1 j ≡ (
                if text_eq newkey j
                then value_result now s key
                else (if text_eq key j then none else value_result now s j)))
        × ((j : Text)
            → lookup j (rename key newkey now s).1.expires ≡ (
                if text_eq newkey j
                then lookup key s.expires
                else (if text_eq key j then none else lookup j s.expires)))
  value_result-rename d k =
      rw (rename-live (live-readable k) k)
        (refl, λ j. value_result-moved j d k, λ j. expires-moved j d)

module _ {F J : Type 0} (key : Text) (now : ℤ) (s : Store F J) where
  move_self : {V : Type 0} (m : Map V) → move key key (delete key m) ≡ delete key m
  unfolding move moved
  move_self m = rw (lookup-delete key key m, text_eq_refl key) refl

  move_values_self : move_values key key (delete_key key now s) ≡ delete_key key now s
  unfolding move_values delete_key
  move_values_self =
      rw
        (
          move_self s.kv,
          move_self s.hashes,
          move_self s.lists,
          move_self s.sets,
          move_self s.zsets,
          move_self s.streams,
          move_self s.hlls,
          move_self s.groups,
          move_self s.last_seq,
          move_self s.expires,
        )
        refl

  touched-exists_read :
      (ks : List Text) (j : Text) (later : ℤ) (t : Store F J)
      → exists_read j later (touch_keys ks now t) ≡ exists_read j later t
  unfolding touch_keys exists_read is_expired is_delayed holds_other
  touched-exists_read ks j later t = refl

  -- `Rename` of a key to itself, where the key can be read, answers that it went well and leaves no
  -- such key, at that time or any other.
  pub exists_read-rename :
      (later : ℤ)
      → exists_read key now s ≡ true
      → ((rename key key now s).0 ≡ ok tt)
        × (exists_read key later (rename key key now s).1 ≡ false)
  exists_read-rename later k = rw (rename-live key key now s (live-readable key key now s k) k) (
    refl,
    rw (move_values_self) (
        touched-exists_read (key ∷ key ∷ []) key later (delete_key key now s)
        ∙ exists_read-delete_key key now s key later
        ∙ rw (text_eq_refl key) refl),
  )
