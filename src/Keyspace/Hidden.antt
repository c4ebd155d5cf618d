-- ===== src/Keyspace/Hidden.antt =====
-- internal/store/store.go, `SetDelayed` and `Set`: when a string that was set can be read.
use vole.Prelude.{◌≡◌, refl, ◌∙◌, inl, inr, [], ◌∷◌, some, none, if◌then◌else◌, Bool-cases}
use vole.Prelude.Text.{Text, text_eq_refl}
use vole.Prelude.Int.{ℤ, pos, ltb_ℤ, ◌+ℤ◌}
use vole.Prelude.Map.{Map, lookup, put, lookup-put_self, lookup-delete}
use vole.Keyspace.{Store, past_deadline, before_time, is_expired, is_delayed, touch_keys}
use vole.Keyspace.Strings.{write_deadline, drop_other, note_access, set, value_result}
use vole.Keyspace.Edits.{set_delayed}
use vole.Keyspace.Spec.{fresh}

module _ {F J : Type 0} (key v : Text) (ttl now : ℤ) (s : Store F J) where
  lookup-deadline :
      (from : ℤ) (m : Map ℤ)
      → lookup key (write_deadline key ttl from m) ≡ (fresh v ttl from).deadline
  unfolding write_deadline
  lookup-deadline from m = elim (Bool-cases (ltb_ℤ (pos 0) ttl)) [
    | inl h ↦ rw h (lookup-put_self key (from +ℤ ttl) m)
    | inr h ↦ rw h (rw (lookup-delete key key m, text_eq_refl key) refl)
  ]

  noted-value_result :
      (later : ℤ) (j : Text) (t : Store F J)
      → value_result later (note_access key now t) j ≡ value_result later t j
  unfolding note_access value_result is_expired is_delayed
  noted-value_result later j t = elim (Bool-cases (ltb_ℤ (pos 0) t.keys.max_memory)) [
    | inl h ↦ rw h refl
    | inr h ↦ rw h refl
  ]

  -- What `Set` wrote can be read until its deadline, but not before the time of first visibility that a
  -- `SetDelayed` left: `Set` does not take that time away.
  pub value_result-set :
      (later : ℤ)
      → value_result later (set key v ttl now s) key ≡ (
          if past_deadline later (fresh v ttl now).deadline
          then none
          else (if is_delayed key later s then none else some v))
  unfolding set touch_keys drop_other value_result is_expired is_delayed
  value_result-set later =
      let w : Store F J = record s {
        expires = write_deadline key ttl now s.expires;
        kv = put key v s.kv;
      } in
      noted-value_result later key (touch_keys (key ∷ []) now (drop_other key w))
      ∙ rw (lookup-deadline now s.expires, lookup-put_self key v s.kv) refl

  -- What `SetDelayed` wrote can be read from the end of the delay until its deadline, which counts from
  -- there.
  pub value_result-set_delayed :
      (delay later : ℤ)
      → value_result later (set_delayed key v delay ttl now s) key ≡ (
          if past_deadline later (fresh v ttl (now +ℤ delay)).deadline
          then none
          else (if ltb_ℤ later (now +ℤ delay) then none else some v))
  unfolding set_delayed touch_keys value_result is_expired is_delayed before_time
  value_result-set_delayed delay later =
      rw
        (
          lookup-deadline (now +ℤ delay) s.expires,
          lookup-put_self key (now +ℤ delay) s.not_before,
          lookup-put_self key v s.kv,
        )
        refl
