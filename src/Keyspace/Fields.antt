-- ===== src/Keyspace/Fields.antt =====
-- internal/store/store.go, `HSet` and `HDel`: the fields of a hash behind them.
use vole.Prelude.{
  ℕ, ◌+◌, ◌≡◌, refl, sym, subst, ◌∙◌, ap, inl, inr, false, List, [], ◌∷◌, Option, some, length,
  arith, if◌then◌else◌, Bool-cases,
}
use vole.Prelude.Text.{Text, text_eq, text_eq_refl}
use vole.Prelude.Int.{ℤ}
use vole.Prelude.Map.{
  Map, IsMap, lookup, put, has, lookup-put, lookup-put_self, lookup-delete, has-delete, put-IsMap,
  length-put,
}
use vole.Keyspace.{
  is_delayed, Store, ok, past_deadline, is_expired, expired_key, exists_string_read, touch_keys,
  delete_key,
}
use vole.Keyspace.Refines.{expired_key-past, expired_key-live}
use vole.Keyspace.Plain.{settled-expired_key, exists_string-settled}
use vole.Keyspace.Hashes.{
  or_no_fields, set_fields, hash_at, beside_hash, not_hash, not_hash_read, h_set, h_get, read_hash,
}

-- the value of a field behind the pairs: the last one for the field counts
unfoldable pub assigned : Text → List (Text × Text) → Option Text → Option Text
assigned f [] o = o
assigned f ((field, value) ∷ pairs) o = assigned f pairs (if text_eq field f then some value else o)

lookup-set_fields :
    (f : Text) (pairs : List (Text × Text)) (h : Map Text)
    → lookup f (set_fields pairs h).1 ≡ assigned f pairs (lookup f h)
unfolding set_fields assigned
lookup-set_fields f [] h = refl
lookup-set_fields f ((field, value) ∷ pairs) h =
    lookup-set_fields f pairs (put field value h)
    ∙ ap (assigned f pairs) (lookup-put field f value h)

length-set_fields :
    (pairs : List (Text × Text)) (h : Map Text)
    → IsMap h
    → (length (set_fields pairs h).1 ≡ length h + (set_fields pairs h).0)
      × IsMap (set_fields pairs h).1
unfolding set_fields
length-set_fields [] h m = (omega arith, m)
length-set_fields ((field, value) ∷ pairs) h m =
    let r = length-set_fields pairs (put field value h) (put-IsMap field value h m) in
    (ground (arith, r.0, length-put field value h), r.1)

-- nothing stands at a key that was deleted
gone :
    {F J : Type 0} (key : Text) (now : ℤ) (s : Store F J)
    → (has key (delete_key key now s).kv ≡ false) × (beside_hash key (delete_key key now s) ≡ false)
unfolding delete_key beside_hash
gone key now s =
    rw
      (
        has-delete key key s.kv,
        has-delete key key s.lists,
        has-delete key key s.sets,
        has-delete key key s.zsets,
        has-delete key key s.streams,
        has-delete key key s.hlls,
        has-delete key key s.jsons,
        has-delete key key s.timeseries,
        text_eq_refl key,
      )
      (refl, refl)

module _ {F J : Type 0} (key : Text) (now : ℤ) (s : Store F J) where
  -- the fields that a client can read
  abbrev pub fields_now : Map Text
  fields_now = if is_expired key now s then [] else hash_at key s

  fields-settled : hash_at key (expired_key key now s).1 ≡ fields_now
  unfolding is_expired or_no_fields
  fields-settled = elim (Bool-cases (past_deadline now (lookup key s.expires))) [
    | inl e ↦
        rw (expired_key-past key now s e, e)
          (unfold delete_key in rw (lookup-delete key key s.hashes, text_eq_refl key) refl)
    | inr e ↦ rw (expired_key-live key now s e, e) refl
  ]

  module _ (string : has key s.kv ≡ false) (beside : beside_hash key s ≡ false) where
    typed-settled :
        (has key (expired_key key now s).1.kv ≡ false)
        × (beside_hash key (expired_key key now s).1 ≡ false)
    typed-settled = elim (Bool-cases (past_deadline now (lookup key s.expires))) [
      | inl e ↦ rw (expired_key-past key now s e) (gone (key) now s)
      | inr e ↦ rw (expired_key-live key now s e) (string, beside)
    ]

    not_hash-settled :
        not_hash key now (expired_key key now s).1 ≡ (false, (expired_key key now s).1)
    unfolding not_hash
    not_hash-settled =
        rw
          (
            exists_string-settled key now (expired_key key now s).1 (settled-expired_key key now s),
            typed-settled.0,
            typed-settled.1,
          )
          refl

    hash_at-put :
        (t : Store F J) (h : Map Text)
        → hash_at key (touch_keys (key ∷ []) now (record t { hashes = put key h t.hashes })) ≡ h
    unfolding touch_keys or_no_fields
    hash_at-put t h = rw (lookup-put_self key h t.hashes) refl

    read_hash-written :
        (h : Map Text) (f : Text)
        → h_get key f now (
            touch_keys (key ∷ []) now (record ((expired_key key now s).1) {
              hashes = put key h (expired_key key now s).1.hashes;
            }))
          ≡ ok (lookup f h)
    unfolding h_get read_hash not_hash_read exists_string_read is_expired is_delayed touch_keys
        or_no_fields beside_hash
    read_hash-written h f = elim (Bool-cases (is_delayed key now (expired_key key now s).1)) [
      | inl e ↦
          rw (settled-expired_key key now s, e)
            (rw (typed-settled.1, lookup-put_self key h (expired_key key now s).1.hashes) refl)
      | inr e ↦
          rw (settled-expired_key key now s, e)
            (rw
              (
                typed-settled.0,
                typed-settled.1,
                lookup-put_self key h (expired_key key now s).1.hashes,
              )
              refl)
    ]

    -- `HSet` at a key that is no string and nothing beside a hash: each field reads as its last value in
    -- the call, or as before, and the answer is the number of fields that the hash has gained.
    pub h_get-h_set :
        (pair : Text × Text) (pairs : List (Text × Text))
        → IsMap fields_now
        → (n : ℕ) × (u : Store F J) × (h_set key (pair ∷ pairs) now s ≡ (ok n, u))
          × ((f : Text) → h_get key f now u ≡ ok (assigned f (pair ∷ pairs) (lookup f fields_now)))
          × (length (hash_at key u) ≡ length fields_now + n)
    unfolding h_set set_fields touch_keys
    h_get-h_set pair pairs m =
        let t : Store F J = (expired_key key now s).1 in
        let r = set_fields (pair ∷ pairs) (hash_at key t) in
        let u : Store F J =
          touch_keys (key ∷ []) now (record t { hashes = put key r.1 t.hashes }) in
        let held : hash_at key u ≡ r.1 = hash_at-put t r.1 in
        (
          r.0,
          u,
          rw (not_hash-settled) refl,
          (λ f.
              read_hash-written r.1 f
              ∙ ap ok (
                  lookup-set_fields f (pair ∷ pairs) (hash_at key t)
                  ∙ ap (λ h. assigned f (pair ∷ pairs) (lookup f h)) fields-settled)),
          ap length held
              ∙ (length-set_fields (pair ∷ pairs) (hash_at key t)
                  (subst IsMap (sym fields-settled) m)).0
              ∙ ap (λ h. length h + r.0) fields-settled,
        )
