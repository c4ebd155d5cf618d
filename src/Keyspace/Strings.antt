-- ===== src/Keyspace/Strings.antt =====
-- internal/store/store.go, `Set` to `MGet` and `IncrBy`: the commands that set and read strings.
use vole.Prelude.{Bool, true, false, List, [], ◌∷◌, Option, some, none, if◌then◌else◌}
use vole.Prelude.Text.{Text}
use vole.Prelude.Int.{ℤ, pos, pos_part, ltb_ℤ, ◌+ℤ◌, ◌-ℤ◌}
use vole.Prelude.Decimal.{append_int, parse_int}
use vole.Prelude.Map.{Map, lookup, put, delete}
use vole.TimeSeries.{wrap64}
use vole.Keyspace.{
  Store, Answer, ok, fail, wrong_type, not_an_integer, is_zero, touch_keys, is_expired, is_delayed,
  holds_other, expired_key, exists,
}

-- `m[key] = now.Add(ttl)` under `if ttl > 0`, else `delete(m, key)`
unfoldable pub write_deadline : Text → ℤ → ℤ → Map ℤ → Map ℤ
write_deadline key ttl now m = if ltb_ℤ (pos 0) ttl then put key (now +ℤ ttl) m else delete key m

-- `strconv.ParseInt` of a value: the number, if it is one
unfoldable pub as_number : Text → Option ℤ
as_number t = let p = parse_int t in if p.good then some p.value else none

-- the number that `IncrBy` starts from
unfoldable pub number_at : Option Text → Option ℤ
number_at none = some (pos 0)
number_at (some t) = as_number t

module _ {F J : Type 0} where
  -- the deletions that `Set`, `SetAbsolute` and `SetXX` make
  unfoldable pub drop_other : Text → Store F J → Store F J
  drop_other key s = record s {
    hashes = delete key s.hashes;
    lists = delete key s.lists;
    sets = delete key s.sets;
    zsets = delete key s.zsets;
    streams = delete key s.streams;
    hlls = delete key s.hlls;
    last_seq = delete key s.last_seq;
  }

  -- `if s.maxMemory > 0 { s.accessTime[key] = ... }`
  unfoldable pub note_access : Text → ℤ → Store F J → Store F J
  note_access key now s =
      if ltb_ℤ (pos 0) s.keys.max_memory
      then record s {
        keys = record (s.keys) { access_time = put key (pos_part now) s.keys.access_time };
      }
      else s

  -- `Set`
  unfoldable pub set : Text → Text → ℤ → ℤ → Store F J → Store F J
  set key value ttl now s = note_access key now (
      touch_keys (key ∷ []) now (
        drop_other key
          (record s { expires = write_deadline key ttl now s.expires; kv = put key value s.kv })))

  -- `SetAbsolute`
  unfoldable pub set_absolute : Text → Text → ℤ → ℤ → Store F J → Store F J
  set_absolute key value expire_at now s = touch_keys (key ∷ []) now (
      drop_other key (record s {
        expires = (if is_zero expire_at then delete key s.expires else put key expire_at s.expires);
        kv = put key value s.kv;
      }))

  -- `SetNX`
  unfoldable pub set_nx : Text → Text → ℤ → ℤ → Store F J → Bool × Store F J
  set_nx key value ttl now s =
      let (found, s₁) = exists key now (expired_key key now s).1 in
      if found then (false, s₁) else (
        true,
        touch_keys (key ∷ []) now (record s₁ {
          expires = (if ltb_ℤ (pos 0) ttl then put key (now +ℤ ttl) s₁.expires else s₁.expires);
          kv = put key value s₁.kv;
        }),
      )

  -- `SetXX`
  unfoldable pub set_xx : Text → Text → ℤ → ℤ → Store F J → Bool × Store F J
  set_xx key value ttl now s =
      let (expired, s₁) = expired_key key now s in
      if expired
      then (false, s₁)
      else (let (found, s₂) = exists key now s₁ in
          if found
          then (
            true,
            touch_keys (key ∷ []) now (
                drop_other key (record s₂ {
                  expires = write_deadline key ttl now s₂.expires;
                  kv = put key value s₂.kv;
                })),
          )
          else (false, s₂))

  -- `Get`; a value that is found updates the time of access
  unfoldable pub found_string : Text → ℤ → Store F J → Option Text → Option Text × Store F J
  found_string key now s none = (none, s)
  found_string key now s (some v) = (some v, note_access key now s)

  unfoldable pub get : Text → ℤ → Store F J → Option Text × Store F J
  get key now s =
      if is_expired key now s
      then (none, s)
      else (if is_delayed key now s then (none, s) else found_string key now s (lookup key s.kv))

  -- one turn of the loop of `MGet`; `none` is a result that is not `OK`
  unfoldable pub value_result : ℤ → Store F J → Text → Option Text
  value_result now s key =
      if is_expired key now s
      then none
      else (if is_delayed key now s then none else lookup key s.kv)

  -- `MGet`
  unfoldable pub mget : List Text → ℤ → Store F J → List (Option Text)
  mget [] now s = []
  mget (key ∷ ks) now s = value_result now s key ∷ mget ks now s

  -- the rest of `IncrBy`, behind its checks
  unfoldable pub add_number : Text → ℤ → ℤ → Store F J → Option ℤ → Answer ℤ × Store F J
  add_number key delta now s none = (fail not_an_integer, s)
  add_number key delta now s (some n) =
      let sum = wrap64 (n +ℤ delta) in
      (ok sum, touch_keys (key ∷ []) now (record s { kv = put key (append_int sum) s.kv }))

  -- `IncrBy`
  unfoldable pub incr_by : Text → ℤ → ℤ → Store F J → Answer ℤ × Store F J
  incr_by key delta now s =
      let (expired, s₁) = expired_key key now s in
      let s₂ = (if expired then record s₁ { kv = delete key s₁.kv } else s₁) in
      if holds_other key s₂
      then (fail wrong_type, s₂)
      else add_number key delta now s₂ (number_at (lookup key s₂.kv))

  -- `Incr`
  abbrev pub incr : Text → ℤ → Store F J → Answer ℤ × Store F J
  incr key now s = incr_by key (pos 1) now s

  -- `DecrBy`; `-delta` of the least integer is that integer
  abbrev pub decr_by : Text → ℤ → ℤ → Store F J → Answer ℤ × Store F J
  decr_by key delta now s = incr_by key (wrap64 (pos 0 -ℤ delta)) now s
