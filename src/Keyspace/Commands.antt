-- ===== src/Keyspace/Commands.antt =====
-- internal/store/store.go: the commands on strings keep what they promise (Keyspace/Spec).
use vole.Prelude.{
  ◌++◌, length, ◌≡◌, refl, inl, inr, true, false, some, none, if◌then◌else◌, Bool-cases,
  Option-cases,
}
use vole.Prelude.Text.{Text, text_eq}
use vole.Prelude.Int.{ℤ, pos, ltb_ℤ, ◌+ℤ◌}
use vole.Prelude.Map.{
  delete_absent, delete, Map, lookup, put, lookup-put, lookup-put_self, lookup-has-some, lookup-has,
}
use vole.Keyspace.{Option, expired_key, ok, fail, not_an_integer, Store, past_deadline}
use vole.TimeSeries.{wrap64}
use vole.Prelude.Decimal.{append_int}
use vole.Keyspace.Strings.{add_number, incr_by, number_at, as_number, set_nx}
use vole.Keyspace.Edits.{or_empty, append}
use vole.Keyspace.Spec.{
  Slot, do_append, size, do_incr_by, answer, add_to, current, do_set_nx, execute, spec, fresh, flag,
}
use vole.Keyspace.Plain.{gone-expired_key, IsPlain}
use vole.Keyspace.Leaves.{
  something_there, exists-here, nothing_there, Leaves, live-fresh, current-some, write-Leaves,
  keep-Leaves, settled, same-settled, IsPlain-settled, live-settled,
}

-- the entry of a deadline behind a write
lookup-some_deadline :
    (key v : Text) (ttl now : ℤ) (m : Map ℤ)
    → lookup key m ≡ none
    → lookup key (if ltb_ℤ (pos 0) ttl then put key (now +ℤ ttl) m else m)
      ≡ (fresh v ttl now).deadline
lookup-some_deadline key v ttl now m n = elim (Bool-cases (ltb_ℤ (pos 0) ttl)) [
  | inl h ↦ rw h (lookup-put_self key (now +ℤ ttl) m)
  | inr h ↦ rw h n
]

lookup-other_deadline :
    (key j : Text) (ttl now : ℤ) (m : Map ℤ)
    → text_eq key j ≡ false
    → lookup j (if ltb_ℤ (pos 0) ttl then put key (now +ℤ ttl) m else m) ≡ lookup j m
lookup-other_deadline key j ttl now m e = elim (Bool-cases (ltb_ℤ (pos 0) ttl)) [
  | inl h ↦ rw h (rw (lookup-put key j (now +ℤ ttl) m) (rw e refl))
  | inr h ↦ rw h refl
]

module _ {F J : Type 0} (key : Text) (now : ℤ) (s : Store F J) (p : IsPlain key s) where
  abbrev t : Store F J
  t = settled key now s p

  same : (j : Text) → current now j t ≡ current now j s
  same = same-settled key now s p

  plain : (j : Text) → IsPlain j s → IsPlain j t
  plain = IsPlain-settled key now s p

  live : past_deadline now (lookup key t.expires) ≡ false
  live = live-settled key now s p

  pub refine-set_nx :
      (v : Text) (ttl : ℤ)
      → Leaves key now s
          (execute (do_set_nx v ttl) key now s)
          (spec (do_set_nx v ttl) now (current now key s))
  unfolding execute set_nx spec
  refine-set_nx v ttl = elim (Option-cases (lookup key t.kv)) [
    | inl n ↦
        rw (exists-here key now s p, lookup-has key t.kv n, nothing_there key now s p n)
          (write-Leaves key now s p (flag true) v (fresh v ttl now).deadline
            (if ltb_ℤ (pos 0) ttl then put key (now +ℤ ttl) t.expires else t.expires) t same plain
            (lookup-some_deadline key v ttl now t.expires ((plain key p).no_dangling n))
            (live-fresh v ttl now) (λ j. lookup-other_deadline key j ttl now t.expires))
    | inr (w, n) ↦
        rw (exists-here key now s p, lookup-has-some key w t.kv n, something_there key now s p w n)
          (keep-Leaves key now s p (flag false)
            (some (record { text = w; deadline = lookup key t.expires })) t same plain
            (current-some key now w t live n))
  ]

  pub refine-append :
      (v : Text)
      → Leaves key now s
          (execute (do_append v) key now s)
          (spec (do_append v) now (current now key s))
  unfolding execute append spec past_deadline or_empty
  refine-append v = elim (Option-cases (lookup key t.kv)) [
    | inl n ↦
        rw ((plain key p).no_other, n, nothing_there key now s p n)
          (write-Leaves key now s p (size (ok (length v))) v none t.expires t same plain
            ((plain key p).no_dangling n) refl (λ j h. refl))
    | inr (w, n) ↦
        rw ((plain key p).no_other, n, something_there key now s p w n)
          (write-Leaves key now s p (size (ok (length (w ++ v)))) (w ++ v) (lookup key t.expires)
            t.expires t same plain refl live (λ j h. refl))
  ]

  -- what `IncrBy` works on: nothing but `settled`, since its deletion finds nothing
  cleared : Store F J
  cleared = if (expired_key key now s).0 then record t { kv = delete key t.kv } else t

  cleared-eq : cleared ≡ t
  unfolding cleared
  cleared-eq = elim (Bool-cases (expired_key key now s).0) [
    | inl e ↦
        rw e (rw (delete_absent key t.kv (lookup-has key t.kv (gone-expired_key key now s e))) refl)
    | inr e ↦ rw e refl
  ]

  refine-add_number :
      (d : ℤ) (x : Slot) (o : Option ℤ)
      → current now key s ≡ some x
      → lookup key t.expires ≡ x.deadline
      → past_deadline now x.deadline ≡ false
      → current now key t ≡ some x
      → Leaves key now s (let r = add_number key d now t o in (answer r.0, r.1)) (add_to d x o)
  unfolding add_number add_to
  refine-add_number d x none c e l k =
      keep-Leaves key now s p (answer (fail not_an_integer)) (some x) t same plain k
  refine-add_number d x (some n) c e l k =
      write-Leaves key now s p (answer (ok (wrap64 (n +ℤ d)))) (append_int (wrap64 (n +ℤ d)))
        x.deadline t.expires t same plain e l (λ j h. refl)

  pub refine-incr_by :
      (d : ℤ)
      → Leaves key now s
          (execute (do_incr_by d) key now s)
          (spec (do_incr_by d) now (current now key s))
  unfolding execute incr_by spec cleared number_at add_number past_deadline
  refine-incr_by d = elim (Option-cases (lookup key t.kv)) [
    | inl n ↦
        rw (cleared-eq, (plain key p).no_other, n, nothing_there key now s p n)
          (write-Leaves key now s p (answer (ok (wrap64 (pos 0 +ℤ d))))
            (append_int (wrap64 (pos 0 +ℤ d))) none t.expires t same plain
            ((plain key p).no_dangling n) refl (λ j h. refl))
    | inr (w, n) ↦
        rw (cleared-eq, (plain key p).no_other, n, something_there key now s p w n)
          (refine-add_number d (record { text = w; deadline = lookup key t.expires }) (as_number w)
            (something_there key now s p w n) refl live (current-some key now w t live n))
  ]
