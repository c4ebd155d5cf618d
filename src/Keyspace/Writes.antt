-- ===== src/Keyspace/Writes.antt =====
-- internal/store/store.go: `Set`, `Get` and `GetSet` keep what they promise (Keyspace/Spec).
use vole.Prelude.{
  [], ◌∷◌, arith, ◌∙◌, ◌≡◌, refl, inl, inr, false, some, none, Bool-cases, Option-cases,
}
use vole.Prelude.Text.{text_eq_refl, Text, text_eq}
use vole.Prelude.Int.{ℤ, pos, ltb_ℤ, ◌+ℤ◌}
use vole.Prelude.Map.{
  lookup-delete, has-delete, delete, Map, lookup, put, lookup-put, lookup-put_self,
}
use vole.Keys.{touch}
use vole.Keyspace.{touch_keys, is_expired, holds_other, Option, ok, Store, past_deadline}
use vole.Keyspace.Strings.{note_access, write_deadline, found_string, drop_other, get, set}
use vole.Keyspace.Edits.{get_set}
use vole.Keyspace.Spec.{
  slot, old_value, value, nothing, settle, text_of, Reply, do_get_set, do_set, do_get, Slot,
  current, execute, spec, fresh,
}
use vole.Keyspace.Plain.{not_delayed-IsPlain, IsPlain}
use vole.Keyspace.Leaves.{
  current-at, Agrees-Leaves, something_there, nothing_there, Leaves, live-fresh, keep-Leaves,
  settled, same-settled, IsPlain-settled, live-settled,
}

module _ {F J : Type 0} (key : Text) (now : ℤ) (s : Store F J) (p : IsPlain key s) where
  abbrev t : Store F J
  t = settled key now s p

  same : (j : Text) → current now j t ≡ current now j s
  same = same-settled key now s p

  plain : (j : Text) → IsPlain j s → IsPlain j t
  plain = IsPlain-settled key now s p

  live : past_deadline now (lookup key t.expires) ≡ false
  live = live-settled key now s p

  -- the entries behind `Set`
  lookup-written :
      (v : Text) (ttl : ℤ) (m : Map ℤ)
      → lookup key (write_deadline key ttl now m) ≡ (fresh v ttl now).deadline
  unfolding write_deadline
  lookup-written v ttl m = elim (Bool-cases (ltb_ℤ (pos 0) ttl)) [
    | inl h ↦ rw h (lookup-put_self key (now +ℤ ttl) m)
    | inr h ↦ rw h (rw (lookup-delete key key m, text_eq_refl key) refl)
  ]

  lookup-unwritten :
      (j : Text) (ttl : ℤ) (m : Map ℤ)
      → text_eq key j ≡ false
      → lookup j (write_deadline key ttl now m) ≡ lookup j m
  unfolding write_deadline
  lookup-unwritten j ttl m e = elim (Bool-cases (ltb_ℤ (pos 0) ttl)) [
    | inl h ↦ rw h (rw (lookup-put key j (now +ℤ ttl) m, e) refl)
    | inr h ↦ rw h (rw (lookup-delete key j m, e) refl)
  ]

  -- a text and a deadline that is not past are written at the key, and values of other types go
  overwrite-Leaves :
      (r : Reply) (v : Text) (d : Option ℤ) (x u : Store F J)
      → ((j : Text) → current now j x ≡ current now j s)
      → ((j : Text) → IsPlain j s → IsPlain j x)
      → ((j : Text) → lookup j u.kv ≡ lookup j (put key v x.kv))
      → lookup key u.expires ≡ d
      → past_deadline now d ≡ false
      → ((j : Text) → text_eq key j ≡ false → lookup j u.expires ≡ lookup j x.expires)
      → ((j : Text) → text_eq key j ≡ false → holds_other j u ≡ holds_other j x)
      → (holds_other key x ≡ false → holds_other key u ≡ false)
      → ((j : Text) → lookup j u.not_before ≡ lookup j x.not_before)
      → Leaves key now s (r, u) (r, some (record { text = v; deadline = d }))
  overwrite-Leaves r v d x u same_x plain_x kv at live_d off other other_at delay =
      Agrees-Leaves key now s p r (some (record { text = v; deadline = d })) x u same_x plain_x
        (record {
          same_kv = λ j h. kv j ∙ rw (lookup-put key j v x.kv) (rw h refl);
          same_expires = off;
          same_other = other;
          same_delay = λ j h. delay j;
        })
        (current-at key now s p v d u at live_d (kv key ∙ lookup-put_self key v x.kv))
        (record {
          no_other = other_at (plain_x key p).no_other;
          not_delayed = delay key ∙ (plain_x key p).not_delayed;
          no_dangling = λ h. absurd (ground (arith, h, kv key, lookup-put_self key v x.kv));
        })

  other-drop_other :
      (j : Text) (x : Store F J)
      → text_eq key j ≡ false
      → holds_other j (drop_other key x) ≡ holds_other j x
  unfolding holds_other drop_other
  other-drop_other j x h =
      rw
        (
          has-delete key j x.hashes,
          has-delete key j x.lists,
          has-delete key j x.sets,
          has-delete key j x.zsets,
          has-delete key j x.streams,
          has-delete key j x.hlls,
          h,
        )
        refl

  no_other-drop_other :
      (x : Store F J) → holds_other key x ≡ false → holds_other key (drop_other key x) ≡ false
  unfolding holds_other drop_other
  no_other-drop_other x h = ground (
    arith,
    has-delete key key x.hashes,
    has-delete key key x.lists,
    has-delete key key x.sets,
    has-delete key key x.zsets,
    has-delete key key x.streams,
    has-delete key key x.hlls,
    text_eq_refl key,
  )

  -- the time of access is none of what a client finds
  note_access-Leaves :
      (r : Reply) (o : Reply × Option Slot) (u : Store F J)
      → Leaves key now s (r, u) o
      → Leaves key now s (r, note_access key now u) o
  unfolding note_access current holds_other
  note_access-Leaves r o u l = elim (Bool-cases (ltb_ℤ (pos 0) u.keys.max_memory)) [
    | inl h ↦ rw h (record {
      replies = l.replies;
      changes = l.changes;
      others = l.others;
      plain = λ j q.
          let k = l.plain j q in
          record {
            no_other = k.no_other;
            not_delayed = k.not_delayed;
            no_dangling = k.no_dangling;
          };
    })
    | inr h ↦ rw h l
  ]

  pub refine-set :
      (v : Text) (ttl : ℤ)
      → Leaves key now s
          (execute (do_set v ttl) key now s)
          (spec (do_set v ttl) now (current now key s))
  unfolding execute set spec touch_keys drop_other touch holds_other
  refine-set v ttl =
      let w : Store F J = record s {
        expires = write_deadline key ttl now s.expires;
        kv = put key v s.kv;
      } in
      note_access-Leaves nothing (nothing, some (fresh v ttl now))
        (touch_keys (key ∷ []) now (drop_other key w))
        (overwrite-Leaves nothing v (fresh v ttl now).deadline s
          (touch_keys (key ∷ []) now (drop_other key w)) (λ j. refl) (λ j q. q) (λ j. refl)
          (lookup-written v ttl s.expires) (live-fresh v ttl now)
          (λ j h. lookup-unwritten j ttl s.expires h) (λ j h. other-drop_other j w h)
          (no_other-drop_other w) (λ j. refl))

  -- `isExpiredRLocked` and the test of the first visibility come before the map
  get_lem : get key now s ≡ found_string key now s (text_of (current now key s))
  unfolding get is_expired current settle slot text_of found_string
  get_lem = elim (Bool-cases (past_deadline now (lookup key s.expires))) [
    | inl h ↦ elim (Option-cases (lookup key s.kv)) [
      | inl n ↦ rw (h, n) refl
      | inr (v, n) ↦ rw (h, n) (rw h refl)
    ]
    | inr h ↦ elim (Option-cases (lookup key s.kv)) [
      | inl n ↦ rw (h, not_delayed-IsPlain key now s p, n) refl
      | inr (v, n) ↦ rw (h, not_delayed-IsPlain key now s p, n) (rw h refl)
    ]
  ]

  pub refine-get : Leaves key now s (execute do_get key now s) (spec do_get now (current now key s))
  unfolding execute spec found_string text_of
  refine-get = elim (Option-cases (current now key s)) [
    | inl n ↦ rw (get_lem, n) (keep-Leaves key now s p (value none) none s (λ j. refl) (λ j q. q) n)
    | inr (x, n) ↦
        rw (get_lem, n)
          (note_access-Leaves (value (some x.text)) (value (some x.text), some x) s
            (keep-Leaves key now s p (value (some x.text)) (some x) s (λ j. refl) (λ j q. q) n))
  ]

  overwritten : Text → Store F J
  overwritten v = touch_keys (key ∷ []) now (record t {
    kv = put key v t.kv;
    expires = delete key t.expires;
    hashes = delete key t.hashes;
    lists = delete key t.lists;
    sets = delete key t.sets;
    zsets = delete key t.zsets;
    streams = delete key t.streams;
    last_seq = delete key t.last_seq;
  })

  overwritten-Leaves :
      (r : Reply) (v : Text)
      → Leaves key now s (r, overwritten v) (r, some (record { text = v; deadline = none }))
  unfolding overwritten touch_keys holds_other past_deadline
  overwritten-Leaves r v =
      overwrite-Leaves r v none t (overwritten v) same plain (λ j. refl)
        (rw (lookup-delete key key t.expires, text_eq_refl key) refl) refl
        (λ j h. rw (lookup-delete key j t.expires, h) refl)
        (λ j h.
          rw
            (
              has-delete key j t.hashes,
              has-delete key j t.lists,
              has-delete key j t.sets,
              has-delete key j t.zsets,
              has-delete key j t.streams,
              h,
            )
            refl)
        (λ h. ground (
          arith,
          h,
          has-delete key key t.hashes,
          has-delete key key t.lists,
          has-delete key key t.sets,
          has-delete key key t.zsets,
          has-delete key key t.streams,
          text_eq_refl key,
        ))
        (λ j. refl)

  pub refine-get_set :
      (v : Text)
      → Leaves key now s
          (execute (do_get_set v) key now s)
          (spec (do_get_set v) now (current now key s))
  unfolding execute get_set spec overwritten text_of
  refine-get_set v = elim (Option-cases (lookup key t.kv)) [
    | inl n ↦
        rw ((plain key p).no_other, n, nothing_there key now s p n)
          (overwritten-Leaves (old_value (ok none)) v)
    | inr (w, n) ↦
        rw ((plain key p).no_other, n, something_there key now s p w n)
          (overwritten-Leaves (old_value (ok (some w))) v)
  ]
