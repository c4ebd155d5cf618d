-- ===== src/Keyspace/Edits.antt =====
-- internal/store/store.go, `Strlen` to `GetDel` and `SetDelayed`: the commands that edit strings.
use vole.Prelude.{
  ltb, ℕ, zero, suc, ◌+◌, ◌-◌, Bool, true, false, not, ◌||◌, List, [], ◌∷◌, ◌++◌, Option, some,
  none, length, take, drop, leb, ltb, if◌then◌else◌,
}
use vole.Prelude.Text.{Text}
use vole.Prelude.Int.{ℤ, pos, pos_part, ltb_ℤ, ◌+ℤ◌, ◌-ℤ◌}
use vole.Prelude.Map.{lookup, put, delete}
use vole.TimeSeries.{wrap64}
use vole.Keyspace.{
  Store, Answer, ok, fail, wrong_type, offset_out_of_range, touch_keys, is_expired, holds_other,
  delete_key, expired_key, exists,
}
use vole.Keyspace.Strings.{write_deadline}

unfoldable pub or_empty : Option Text → Text
or_empty none = []
or_empty (some t) = t

-- n zero bytes
unfoldable pub zero_bytes : ℕ → Text
zero_bytes zero = []
zero_bytes (suc n) = 0 ∷ zero_bytes n

-- The bytes that `SetRange` stores. `copy(buf, current)` fills a zeroed buffer of `needed` bytes;
-- where `offset+len(value)` is no `int64` its value is negative, and slicing the old buffer panics.
-- `max_alloc` is the size in bytes up to which `make` allocates: it panics above it.
unfoldable pub set_range_bytes : ℕ → ℕ → Text → Text → Option Text
set_range_bytes max_alloc offset value current =
    let needed = wrap64 (pos offset +ℤ pos (length value)) in
    if ltb_ℤ (pos (length current)) needed
    then (let buf = current ++ zero_bytes (pos_part needed - length current) in
        if ltb max_alloc (pos_part needed)
        then none
        else some (take offset buf ++ value ++ drop (offset + length value) buf))
    else (if leb offset (length current)
        then some (take offset current ++ value ++ drop (offset + length value) current)
        else none)

-- The bytes that `GetRange` returns.
unfoldable pub get_range_bytes : ℤ → ℤ → Text → Text
get_range_bytes start end str =
    let n = pos (length str) in
    let start₁ = (if ltb_ℤ start (pos 0) then n +ℤ start else start) in
    let end₁ = (if ltb_ℤ end (pos 0) then n +ℤ end else end) in
    let start₂ = (if ltb_ℤ start₁ (pos 0) then pos 0 else start₁) in
    let end₂ = (if ltb_ℤ end₁ n then end₁ else n -ℤ pos 1) in
    if ltb_ℤ end₂ start₂ || not (ltb_ℤ start₂ n)
    then []
    else take (pos_part (end₂ +ℤ pos 1) - pos_part start₂) (drop (pos_part start₂) str)

unfoldable pub keys_of : List (Text × Text) → List Text
keys_of [] = []
keys_of ((key, value) ∷ pairs) = key ∷ keys_of pairs

module _ {F J : Type 0} where
  -- `Strlen`
  unfoldable pub strlen : Text → ℤ → Store F J → Answer ℕ
  strlen key now s =
      if is_expired key now s
      then ok 0
      else (if holds_other key s then fail wrong_type else ok (length (or_empty (lookup key s.kv))))

  -- `Append`
  unfoldable pub append : Text → Text → ℤ → Store F J → Answer ℕ × Store F J
  append key value now s =
      let s₁ = (expired_key key now s).1 in
      if holds_other key s₁
      then (fail wrong_type, s₁)
      else (let v = or_empty (lookup key s₁.kv) ++ value in
          (ok (length v), touch_keys (key ∷ []) now (record s₁ { kv = put key v s₁.kv })))

  -- `GetSet`
  unfoldable pub get_set : Text → Text → ℤ → Store F J → Answer (Option Text) × Store F J
  get_set key value now s =
      let s₁ = (expired_key key now s).1 in
      if holds_other key s₁ then (fail wrong_type, s₁) else (
        ok (lookup key s₁.kv),
        touch_keys (key ∷ []) now (record s₁ {
          kv = put key value s₁.kv;
          expires = delete key s₁.expires;
          hashes = delete key s₁.hashes;
          lists = delete key s₁.lists;
          sets = delete key s₁.sets;
          zsets = delete key s₁.zsets;
          streams = delete key s₁.streams;
          last_seq = delete key s₁.last_seq;
        }),
      )

  -- the rest of `GetEx`, with the value found
  unfoldable pub renew : Text → ℤ → Bool → ℤ → Store F J → Option Text → Option Text × Store F J
  renew key ttl persist now s none = (none, s)
  renew key ttl persist now s (some v) = (
    some v,
    if persist
        then touch_keys (key ∷ []) now (record s { expires = delete key s.expires })
        else (if ltb_ℤ (pos 0) ttl
            then touch_keys (key ∷ []) now (record s { expires = put key (now +ℤ ttl) s.expires })
            else s),
  )

  -- `GetEx`
  unfoldable pub get_ex : Text → ℤ → Bool → ℤ → Store F J → Option Text × Store F J
  get_ex key ttl persist now s =
      let (expired, s₁) = expired_key key now s in
      if expired then (none, s₁) else renew key ttl persist now s₁ (lookup key s₁.kv)

  -- `SetRange` behind its checks, with the bytes to store
  unfoldable pub store_range : Text → ℤ → Store F J → Option Text → Option (Answer ℕ × Store F J)
  store_range key now s none = none
  store_range key now s (some v) =
      some (ok (length v), touch_keys (key ∷ []) now (record s { kv = put key v s.kv }))

  -- `SetRange`; `none` is a panic
  unfoldable pub set_range : ℕ → Text → ℤ → Text → ℤ → Store F J → Option (Answer ℕ × Store F J)
  set_range max_alloc key offset value now s =
      let s₁ = (expired_key key now s).1 in
      if holds_other key s₁
      then some (fail wrong_type, s₁)
      else (if ltb_ℤ offset (pos 0)
          then some (fail offset_out_of_range, s₁)
          else store_range key now s₁
              (set_range_bytes max_alloc (pos_part offset) value (or_empty (lookup key s₁.kv))))

  -- `GetRange`; a missing key has the empty range
  unfoldable pub get_range : Text → ℤ → ℤ → ℤ → Store F J → Answer Text
  get_range key start end now s =
      if is_expired key now s
      then ok []
      else (if holds_other key s
          then fail wrong_type
          else ok (get_range_bytes start end (or_empty (lookup key s.kv))))

  -- the first loop of `MSetNX`: whether a key exists; the loop stops at the first
  unfoldable pub any_exists : List Text → ℤ → Store F J → Bool × Store F J
  any_exists [] now s = (false, s)
  any_exists (key ∷ ks) now s =
      let (found, s₁) = exists key now (expired_key key now s).1 in
      let rest = any_exists ks now s₁ in if found then (true, s₁) else rest

  -- the second loop of `MSetNX`, on the keys with their values
  unfoldable pub set_pairs : List (Text × Text) → ℤ → Store F J → Store F J
  set_pairs [] now s = s
  set_pairs ((key, value) ∷ pairs) now s = set_pairs pairs now (
      touch_keys (key ∷ []) now
        (record s { kv = put key value s.kv; expires = delete key s.expires }))

  -- `MSetNX`; the callers give as many values as keys
  unfoldable pub mset_nx : List (Text × Text) → ℤ → Store F J → Bool × Store F J
  mset_nx pairs now s =
      let (found, s₁) = any_exists (keys_of pairs) now s in
      if found then (false, s₁) else (true, set_pairs pairs now s₁)

  -- the rest of `GetDel`, with the value found
  unfoldable pub take_string : Text → ℤ → Store F J → Option Text → Option Text × Store F J
  take_string key now s none = (none, s)
  take_string key now s (some v) = (some v, delete_key key now s)

  -- `GetDel`
  unfoldable pub get_del : Text → ℤ → Store F J → Option Text × Store F J
  get_del key now s =
      let (expired, s₁) = expired_key key now s in
      if expired then (none, s₁) else take_string key now s₁ (lookup key s₁.kv)

  -- `SetDelayed`
  unfoldable pub set_delayed : Text → Text → ℤ → ℤ → ℤ → Store F J → Store F J
  set_delayed key value delay ttl now s = touch_keys (key ∷ []) now (record s {
    kv = put key value s.kv;
    not_before = put key (now +ℤ delay) s.not_before;
    expires = write_deadline key ttl (now +ℤ delay) s.expires;
    hashes = delete key s.hashes;
    lists = delete key s.lists;
    sets = delete key s.sets;
    zsets = delete key s.zsets;
    streams = delete key s.streams;
    last_seq = delete key s.last_seq;
    hlls = delete key s.hlls;
    jsons = delete key s.jsons;
  })
