-- ===== src/Keyspace/Leaves.antt =====
-- internal/store/store.go: what a command on a string leaves in the store, beside what it promises.
use vole.Prelude.{
  ◌∙◌, sym, ◌≡◌, refl, inl, inr, subst, false, [], ◌∷◌, Option, some, none, arith, Bool-cases,
}
use vole.Prelude.Text.{Text, text_eq, text_eq_iff, text_eq_refl}
use vole.Prelude.Int.{ℤ, pos, ltb_ℤ, +ℤ_parts}
use vole.Prelude.Map.{Map, lookup, put, lookup-put, lookup-put_self, lookup-delete}
use vole.Keyspace.{
  has, exists, Store, past_deadline, holds_other, delete_key, expired_key, touch_keys,
}
use vole.Keyspace.Spec.{Slot, slot, current, settle, Reply, fresh}
use vole.Keyspace.Refines.{current-expired_key, current-delete_key, holds_other-delete_key}
use vole.Keyspace.Plain.{
  exists-settled, IsPlain, delete_key-IsPlain, expired_key-IsPlain, settled-expired_key,
}

-- the store `u` is `t` but for the key
pub record Agrees {F J : Type 0} (key : Text) (t u : Store F J) : Type 0 where
  pub same_kv : (j : Text) → text_eq key j ≡ false → lookup j u.kv ≡ lookup j t.kv
  pub same_expires : (j : Text) → text_eq key j ≡ false → lookup j u.expires ≡ lookup j t.expires
  pub same_other : (j : Text) → text_eq key j ≡ false → holds_other j u ≡ holds_other j t
  pub same_delay :
      (j : Text) → text_eq key j ≡ false → lookup j u.not_before ≡ lookup j t.not_before

-- What a command leaves: its reply and the value of its key are the promised ones, other keys are as
-- they were, and plain keys are plain.
pub record Leaves {F J : Type 0} (key : Text) (now : ℤ) (s : Store F J) (result : Reply × Store F J)
    (promise : Reply × Option Slot) : Type 0 where
  pub replies : result.0 ≡ promise.0
  pub changes : current now key result.1 ≡ promise.1
  pub others : (j : Text) → text_eq key j ≡ false → current now j result.1 ≡ current now j s
  pub plain : (j : Text) → IsPlain j s → IsPlain j result.1

-- a deadline that is written is not past
pub live-fresh : (v : Text) (ttl now : ℤ) → past_deadline now (fresh v ttl now).deadline ≡ false
unfolding past_deadline
live-fresh v ttl now = elim (Bool-cases (ltb_ℤ (pos 0) ttl)) [
  | inl h ↦ rw h (ground (arith, +ℤ_parts now ttl))
  | inr h ↦ rw h refl
]

module _ {F J : Type 0} (key : Text) (now : ℤ) where
  pub current-some :
      (t : Text) (s : Store F J)
      → past_deadline now (lookup key s.expires) ≡ false
      → lookup key s.kv ≡ some t
      → current now key s ≡ some (record { text = t; deadline = lookup key s.expires })
  unfolding current slot settle
  current-some t s h e = rw e (rw h refl)

  pub current-none : (s : Store F J) → lookup key s.kv ≡ none → current now key s ≡ none
  unfolding current slot settle
  current-none s e = rw e refl

module _ {F J : Type 0} (key : Text) (now : ℤ) (s : Store F J) (p : IsPlain key s) where
  pub Agrees-Leaves :
      (r : Reply) (o : Option Slot) (t u : Store F J)
      → ((j : Text) → current now j t ≡ current now j s)
      → ((j : Text) → IsPlain j s → IsPlain j t)
      → Agrees key t u
      → current now key u ≡ o
      → IsPlain key u
      → Leaves key now s (r, u) (r, o)
  unfolding current
  Agrees-Leaves r o t u same plain a c q = record {
    replies = refl;
    changes = c;
    others = λ j h. rw (a.same_kv j h) (rw (a.same_expires j h) (same j));
    plain = λ j k. elim (Bool-cases (text_eq key j)) [
      | inl e ↦ subst (λ i. IsPlain i u) ((text_eq_iff key j).0 e) q
      | inr e ↦ record {
        no_other = rw (a.same_other j e) (plain j k).no_other;
        not_delayed = rw (a.same_delay j e) (plain j k).not_delayed;
        no_dangling = rw (a.same_kv j e) (rw (a.same_expires j e) (plain j k).no_dangling);
      }
    ];
  }

  pub current-at :
      (v : Text) (d : Option ℤ) (t : Store F J)
      → lookup key t.expires ≡ d
      → past_deadline now d ≡ false
      → lookup key t.kv ≡ some v
      → current now key t ≡ some (record { text = v; deadline = d })
  unfolding current slot settle
  current-at v d t at live e = rw e (rw at (rw live refl))

  -- a text and a deadline that is not past are written at the key
  pub write-Leaves :
      (r : Reply) (v : Text) (d : Option ℤ) (e : Map ℤ) (t : Store F J)
      → ((j : Text) → current now j t ≡ current now j s)
      → ((j : Text) → IsPlain j s → IsPlain j t)
      → lookup key e ≡ d
      → past_deadline now d ≡ false
      → ((j : Text) → text_eq key j ≡ false → lookup j e ≡ lookup j t.expires)
      → Leaves key now s
          (r, touch_keys (key ∷ []) now (record t { kv = put key v t.kv; expires = e }))
          (r, some (record { text = v; deadline = d }))
  unfolding touch_keys holds_other
  write-Leaves r v d e t same plain at live off =
      Agrees-Leaves r (some (record { text = v; deadline = d })) t
        (touch_keys (key ∷ []) now (record t { kv = put key v t.kv; expires = e })) same plain
        (record {
          same_kv = λ j h. rw (lookup-put key j v t.kv) (rw h refl);
          same_expires = off;
          same_other = λ j h. refl;
          same_delay = λ j h. refl;
        })
        (current-at v d (touch_keys (key ∷ []) now (record t { kv = put key v t.kv; expires = e }))
          at live (lookup-put_self key v t.kv))
        (record {
          no_other = (plain key p).no_other;
          not_delayed = (plain key p).not_delayed;
          no_dangling = λ h. absurd (ground (arith, h, lookup-put_self key v t.kv));
        })

  -- the key is deleted
  pub delete-Leaves :
      (r : Reply) (t : Store F J)
      → ((j : Text) → current now j t ≡ current now j s)
      → ((j : Text) → IsPlain j s → IsPlain j t)
      → Leaves key now s (r, delete_key key now t) (r, none)
  delete-Leaves r t same plain =
      Agrees-Leaves r none t (delete_key key now t) same plain
        (record {
          same_kv = λ j h. unfold delete_key in rw (lookup-delete key j t.kv) (rw h refl);
          same_expires = λ j h. unfold delete_key in rw (lookup-delete key j t.expires) (rw h refl);
          same_other = λ j h. rw (holds_other-delete_key key now t j) (rw h refl);
          same_delay =
              λ j h. unfold delete_key in rw (lookup-delete key j t.not_before) (rw h refl);
        })
        (rw (current-delete_key key now t key) (rw (text_eq_refl key) refl))
        (delete_key-IsPlain key now t key (plain key p))

  -- nothing but a key past its deadline changes
  pub keep-Leaves :
      (r : Reply) (o : Option Slot) (t : Store F J)
      → ((j : Text) → current now j t ≡ current now j s)
      → ((j : Text) → IsPlain j s → IsPlain j t)
      → current now key t ≡ o
      → Leaves key now s (r, t) (r, o)
  keep-Leaves r o t same plain c = record {
    replies = refl;
    changes = c;
    others = λ j h. same j;
    plain = plain;
  }

  -- the store behind `expiredKeyLocked`
  abbrev pub settled : Store F J
  settled = (expired_key key now s).1

  pub same-settled : (j : Text) → current now j settled ≡ current now j s
  same-settled = current-expired_key key now s

  pub IsPlain-settled : (j : Text) → IsPlain j s → IsPlain j settled
  IsPlain-settled = expired_key-IsPlain key now s

  pub live-settled : past_deadline now (lookup key settled.expires) ≡ false
  live-settled = settled-expired_key key now s

  -- what the tests of the commands find
  pub exists-here : exists key now settled ≡ (has key settled.kv, settled)
  exists-here = exists-settled key now settled live-settled (IsPlain-settled key p)

  pub nothing_there : lookup key settled.kv ≡ none → current now key s ≡ none
  nothing_there n = sym (same-settled key) ∙ current-none key now settled n

  pub something_there :
      (w : Text)
      → lookup key settled.kv ≡ some w
      → current now key s ≡ some (record { text = w; deadline = lookup key settled.expires })
  something_there w n = sym (same-settled key) ∙ current-some key now w settled live-settled n
