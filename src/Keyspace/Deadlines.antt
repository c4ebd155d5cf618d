-- ===== src/Keyspace/Deadlines.antt =====
-- internal/store/store.go: the commands on deadlines, and those that delete a string, keep what they
-- promise (Keyspace/Spec).
use vole.Prelude.{
  sym, [], ◌∷◌, arith, ◌≡◌, refl, inl, inr, true, false, some, none, if◌then◌else◌, Bool-cases,
  Option-cases,
}
use vole.Prelude.Text.{text_eq_refl, Text, text_eq}
use vole.Prelude.Int.{ℤ, ◌+ℤ◌}
use vole.Prelude.Map.{
  has-lookup, lookup-delete, delete_absent, delete, Map, lookup, put, lookup-put, lookup-put_self,
  lookup-has-some, lookup-has,
}
use vole.Keyspace.{
  delete_key, List, holds_other, has, touch_keys, Option, expired_key, Store, past_deadline,
}
use vole.Keyspace.Edits.{take_string, get_del, take_string, get_del}
use vole.Keyspace.Spec.{
  value, text_of, count, do_del, do_persist, do_expire, Reply, settle, do_get_del, slot, had,
  current, execute, spec, flag,
}
use vole.Keyspace.Expiry.{expire, persist, is_held}
use vole.Keyspace.Moves.{del_one}
use vole.Keyspace.Plain.{gone-expired_key, IsPlain}
use vole.Keyspace.Leaves.{
  current-at, delete-Leaves, current-none, Agrees-Leaves, something_there, exists-here,
  nothing_there, Leaves, keep-Leaves, settled, same-settled, IsPlain-settled, live-settled,
}

has-had : (key : Text) (m : Map ℤ) → has key m ≡ had (lookup key m)
unfolding had
has-had key m = elim (Option-cases (lookup key m)) [
  | inl n ↦ rw n (lookup-has key m n)
  | inr (t, n) ↦ rw n (lookup-has-some key t m n)
]

module _ {F J : Type 0} (key : Text) (now : ℤ) (s : Store F J) (p : IsPlain key s) where
  abbrev t : Store F J
  t = settled key now s p

  same : (j : Text) → current now j t ≡ current now j s
  same = same-settled key now s p

  plain : (j : Text) → IsPlain j s → IsPlain j t
  plain = IsPlain-settled key now s p

  live : past_deadline now (lookup key t.expires) ≡ false
  live = live-settled key now s p

  is_held-here : is_held key now s ≡ (has key t.kv, t)
  unfolding is_held
  is_held-here = elim (Bool-cases (expired_key key now s).0) [
    | inl e ↦ rw e (rw (lookup-has key t.kv (gone-expired_key key now s e)) refl)
    | inr e ↦ rw e (exists-here key now s p)
  ]

  -- the deadline of the key is another, or none
  deadline-Leaves :
      (r : Reply) (w : Text) (d : Option ℤ) (e : Map ℤ) (ks : List Text)
      → lookup key t.kv ≡ some w
      → lookup key e ≡ d
      → ((j : Text) → text_eq key j ≡ false → lookup j e ≡ lookup j t.expires)
      → Leaves key now s
          (r, touch_keys ks now (record t { expires = e }))
          (r, settle now (some (record { text = w; deadline = d })))
  unfolding touch_keys holds_other current slot settle
  deadline-Leaves r w d e ks n at off =
      Agrees-Leaves key now s p r (settle now (some (record { text = w; deadline = d }))) t
        (touch_keys ks now (record t { expires = e })) same plain
        (record {
          same_kv = λ j h. refl;
          same_expires = off;
          same_other = λ j h. refl;
          same_delay = λ j h. refl;
        })
        (rw n (rw at refl))
        (record {
          no_other = (plain key p).no_other;
          not_delayed = (plain key p).not_delayed;
          no_dangling = λ h. absurd (ground (arith, h, n));
        })

  pub refine-expire :
      (ttl : ℤ)
      → Leaves key now s
          (execute (do_expire ttl) key now s)
          (spec (do_expire ttl) now (current now key s))
  unfolding execute expire spec
  refine-expire ttl = elim (Option-cases (lookup key t.kv)) [
    | inl n ↦
        rw (is_held-here, lookup-has key t.kv n, nothing_there key now s p n)
          (keep-Leaves key now s p (flag false) none t same plain (current-none key now t n))
    | inr (w, n) ↦
        rw (is_held-here, lookup-has-some key w t.kv n, something_there key now s p w n)
          (deadline-Leaves (flag true) w (some (now +ℤ ttl)) (put key (now +ℤ ttl) t.expires)
            (key ∷ []) n (lookup-put_self key (now +ℤ ttl) t.expires)
            (λ j h. rw (lookup-put key j (now +ℤ ttl) t.expires) (rw h refl)))
  ]

  pub refine-persist :
      Leaves key now s (execute do_persist key now s) (spec do_persist now (current now key s))
  unfolding execute persist spec settle past_deadline
  refine-persist = elim (Option-cases (lookup key t.kv)) [
    | inl n ↦
        rw (is_held-here, lookup-has key t.kv n, nothing_there key now s p n)
          (keep-Leaves key now s p (flag false) none t same plain (current-none key now t n))
    | inr (w, n) ↦
        rw (is_held-here, lookup-has-some key w t.kv n, something_there key now s p w n)
          (elim (Bool-cases (has key t.expires)) [
            | inl h ↦
                rw (h, sym (has-had key t.expires))
                  (rw h (
                    deadline-Leaves (flag true) w none (delete key t.expires) (key ∷ []) n
                      (rw (lookup-delete key key t.expires, text_eq_refl key) refl)
                      (λ j e. rw (lookup-delete key j t.expires, e) refl)))
            | inr h ↦
                rw (h, sym (has-had key t.expires))
                  (rw (h, delete_absent key t.expires h)
                    (keep-Leaves key now s p (flag false)
                      (some (record { text = w; deadline = none })) t same plain
                      (current-at key now s p w none t (has-lookup key t.expires h) refl n)))
          ])
  ]

  del_one-here : del_one key now s ≡ (if has key t.kv then (1, delete_key key now t) else (0, t))
  unfolding del_one
  del_one-here = elim (Bool-cases (expired_key key now s).0) [
    | inl e ↦ rw e (rw (lookup-has key t.kv (gone-expired_key key now s e)) refl)
    | inr e ↦ rw e (rw (exists-here key now s p) refl)
  ]

  get_del-here : get_del key now s ≡ take_string key now t (lookup key t.kv)
  unfolding get_del take_string
  get_del-here = elim (Bool-cases (expired_key key now s).0) [
    | inl e ↦ rw e (rw (gone-expired_key key now s e) refl)
    | inr e ↦ rw e refl
  ]

  pub refine-del : Leaves key now s (execute do_del key now s) (spec do_del now (current now key s))
  unfolding execute del_one spec
  refine-del = elim (Option-cases (lookup key t.kv)) [
    | inl n ↦
        rw (del_one-here, lookup-has key t.kv n, nothing_there key now s p n)
          (keep-Leaves key now s p (count 0) none t same plain (current-none key now t n))
    | inr (w, n) ↦
        rw (del_one-here, lookup-has-some key w t.kv n, something_there key now s p w n)
          (delete-Leaves key now s p (count 1) t same plain)
  ]

  pub refine-get_del :
      Leaves key now s (execute do_get_del key now s) (spec do_get_del now (current now key s))
  unfolding execute get_del take_string spec text_of
  refine-get_del = elim (Option-cases (lookup key t.kv)) [
    | inl n ↦
        rw (get_del-here, n, nothing_there key now s p n)
          (keep-Leaves key now s p (value none) none t same plain (current-none key now t n))
    | inr (w, n) ↦
        rw (get_del-here, n, something_there key now s p w n)
          (delete-Leaves key now s p (value (some w)) t same plain)
  ]
