-- ===== src/Keyspace/Hashes.antt =====
-- internal/store/store.go, `HSet` to `HSetNX`, `HLen` and `HExists`: the commands on hashes.
use vole.Prelude.{
  ℕ, ◌+◌, Bool, true, false, ◌||◌, List, [], ◌∷◌, Option, some, none, length, ltb, ◌==◌,
  if◌then◌else◌,
}
use vole.Prelude.Text.{Text, text_lt}
use vole.Prelude.Int.{ℤ, ◌+ℤ◌}
use vole.Prelude.Decimal.{append_int}
use vole.Prelude.Map.{Map, lookup, put, delete, has}
use vole.TimeSeries.{wrap64}
use vole.Keyspace.{
  Store, Answer, ok, fail, wrong_type, wrong_number, not_an_integer, touch_keys, is_expired,
  exists_string_read, expired_key, exists_string,
}
use vole.Keyspace.Strings.{number_at}
use vole.Keyspace.Listing.{map_keys, sort_keys}

-- `s.hashes[key]`, where a missing hash reads as one without fields
unfoldable pub or_no_fields : Option (Map Text) → Map Text
or_no_fields none = []
or_no_fields (some h) = h

-- the loop of `HSet`, with the number of new fields
unfoldable pub set_fields : List (Text × Text) → Map Text → ℕ × Map Text
set_fields [] h = (0, h)
set_fields ((field, value) ∷ pairs) h =
    let (n, h₁) = set_fields pairs (put field value h) in ((if has field h then 0 else 1) + n, h₁)

-- the loop of `HDel`, with the number of fields deleted
unfoldable pub delete_fields : List Text → Map Text → ℕ × Map Text
delete_fields [] h = (0, h)
delete_fields (field ∷ fields) h =
    let (n, h₁) = delete_fields fields (if has field h then delete field h else h) in
    ((if has field h then 1 else 0) + n, h₁)

-- `sort.Slice` by field
unfoldable pub insert_pair : Text × Text → List (Text × Text) → List (Text × Text)
insert_pair p [] = p ∷ []
insert_pair p (q ∷ qs) =
    let rest = insert_pair p qs in if text_lt q.0 p.0 then q ∷ rest else p ∷ q ∷ qs

unfoldable pub sort_pairs : List (Text × Text) → List (Text × Text)
sort_pairs [] = []
sort_pairs (p ∷ ps) = insert_pair p (sort_pairs ps)

unfoldable pub map_values : Map Text → List Text
map_values [] = []
map_values ((field, value) ∷ h) = value ∷ map_values h

module _ {F J : Type 0} where
  -- the test for a value that is neither a string nor a hash
  unfoldable pub beside_hash : Text → Store F J → Bool
  beside_hash key s =
      has key s.lists
      || has key s.sets
      || has key s.zsets
      || has key s.streams
      || has key s.hlls
      || has key s.jsons
      || has key s.timeseries

  abbrev pub hash_at : Text → Store F J → Map Text
  hash_at key s = or_no_fields (lookup key s.hashes)

  -- the type test of the commands that write: `existsStringLocked`, then the other maps
  unfoldable pub not_hash : Text → ℤ → Store F J → Bool × Store F J
  not_hash key now s =
      let (string, s₁) = exists_string key now s in (string || beside_hash key s₁, s₁)

  -- the type test of the commands that read
  unfoldable pub not_hash_read : Text → ℤ → Store F J → Bool
  not_hash_read key now s = exists_string_read key now s || beside_hash key s

  -- `HSet`
  unfoldable pub h_set : Text → List (Text × Text) → ℤ → Store F J → Answer ℕ × Store F J
  h_set key [] now s = (fail wrong_number, s)
  h_set key (pair ∷ pairs) now s =
      let (wrong, s₁) = not_hash key now (expired_key key now s).1 in
      if wrong
      then (fail wrong_type, s₁)
      else (let (added, h) = set_fields (pair ∷ pairs) (hash_at key s₁) in
          (ok added, touch_keys (key ∷ []) now (record s₁ { hashes = put key h s₁.hashes })))

  -- the shape of the commands that read a hash: an empty answer past the deadline, and the type test
  unfoldable pub read_hash {ℓ} : {A : Type ℓ} → A → (Map Text → A) → Text → ℤ → Store F J → Answer A
  read_hash empty view key now s =
      if is_expired key now s
      then ok empty
      else (if not_hash_read key now s then fail wrong_type else ok (view (hash_at key s)))

  -- `HGet`
  unfoldable pub h_get : Text → Text → ℤ → Store F J → Answer (Option Text)
  h_get key field now s = read_hash none (lookup field) key now s

  -- `HGetAll`
  unfoldable pub h_get_all : Text → ℤ → Store F J → Answer (List (Text × Text))
  h_get_all key now s = read_hash [] sort_pairs key now s

  -- `HVals`
  unfoldable pub h_vals : Text → ℤ → Store F J → Answer (List Text)
  h_vals key now s = read_hash [] (λ h. sort_keys (map_values h)) key now s

  -- `HKeys`
  unfoldable pub h_keys : Text → ℤ → Store F J → Answer (List Text)
  h_keys key now s = read_hash [] (λ h. sort_keys (map_keys h)) key now s

  -- `HLen`
  unfoldable pub h_len : Text → ℤ → Store F J → Answer ℕ
  h_len key now s = read_hash 0 length key now s

  -- `HExists`
  unfoldable pub h_exists : Text → Text → ℤ → Store F J → Answer Bool
  h_exists key field now s = read_hash false (has field) key now s

  -- `if deleted > 0 { s.touchKeyLocked(key) }`
  unfoldable pub touch_if : Bool → Text → ℤ → Store F J → Store F J
  touch_if changed key now s = if changed then touch_keys (key ∷ []) now s else s

  -- what `HDel` stores: a hash without fields goes, with its deadline
  unfoldable pub store_hash : Text → Map Text → Store F J → Store F J
  store_hash key h s =
      if length h == 0
      then record s { hashes = delete key s.hashes; expires = delete key s.expires }
      else record s { hashes = put key h s.hashes }

  -- the rest of `HDel`, with the hash that it found
  unfoldable pub delete_from :
      Text → List Text → ℤ → Store F J → Option (Map Text) → Answer ℕ × Store F J
  delete_from key fields now s none = (ok 0, s)
  delete_from key fields now s (some h) =
      let (deleted, h₁) = delete_fields fields h in
      (ok deleted, touch_if (ltb 0 deleted) key now (store_hash key h₁ s))

  -- `HDel`
  unfoldable pub h_del : Text → List Text → ℤ → Store F J → Answer ℕ × Store F J
  h_del key fields now s =
      let (expired, s₁) = expired_key key now s in
      if expired
      then (ok 0, s₁)
      else (let (wrong, s₂) = not_hash key now s₁ in
          if wrong
          then (fail wrong_type, s₂)
          else delete_from key fields now s₂ (lookup key s₂.hashes))

  -- the rest of `HIncrBy`, with the number that it found; the hash is there by then
  unfoldable pub add_field : Text → Text → ℤ → ℤ → Store F J → Option ℤ → Answer ℤ × Store F J
  add_field key field delta now s none =
      (fail not_an_integer, record s { hashes = put key (hash_at key s) s.hashes })
  add_field key field delta now s (some n) =
      let sum = wrap64 (n +ℤ delta) in
      (
        ok sum,
        touch_keys (key ∷ []) now
            (record s { hashes = put key (put field (append_int sum) (hash_at key s)) s.hashes }),
      )

  -- `HIncrBy`
  unfoldable pub h_incr_by : Text → Text → ℤ → ℤ → Store F J → Answer ℤ × Store F J
  h_incr_by key field delta now s =
      let (wrong, s₁) = not_hash key now (expired_key key now s).1 in
      if wrong
      then (fail wrong_type, s₁)
      else add_field key field delta now s₁ (number_at (lookup field (hash_at key s₁)))

  -- `HSetNX`
  unfoldable pub h_set_nx : Text → Text → Text → ℤ → Store F J → Answer Bool × Store F J
  h_set_nx key field value now s =
      let (wrong, s₁) = not_hash key now (expired_key key now s).1 in
      if wrong
      then (fail wrong_type, s₁)
      else (let h = hash_at key s₁ in
          let s₂ = record s₁ { hashes = put key h s₁.hashes } in
          if has field h then (ok false, s₂) else (
            ok true,
            touch_keys (key ∷ []) now
                (record s₂ { hashes = put key (put field value h) s₂.hashes }),
          ))
