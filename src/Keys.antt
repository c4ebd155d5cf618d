-- ===== src/Keys.antt =====
-- internal/store/store.go, `touchKeyLocked` to `KeysModifiedSince`: what the store keeps of each
-- change of a key. The part of `Store` that they use is a record of its own. The channel of change
-- events is the list of the events that wait in it; each event is its name with the key.
pub mod Watch
mod Tests
use vole.Prelude.{
  ℕ, suc, ◌+◌, ◌^◌, ◌%◌, ◌≡◌, Bool, true, false, not, List, [], ◌∷◌, ◌++◌, Option, some, none,
  length, ltb, ◌==◌, if◌then◌else◌,
}
use vole.Prelude.Text.{Text, text_eq}
use vole.Prelude.Int.{ℤ, pos, ltb_ℤ}
use vole.Prelude.Map.{Map, lookup, put, delete}

pub record Keys : Type 0 where
  pub version : ℕ
  pub key_version : Map ℕ
  pub on_change : Bool
  pub events : List (Text × Text)
  pub max_memory : ℤ
  pub access_time : Map ℕ

-- `make(chan func(), 4096)`
abbrev pub event_capacity : ℕ
event_capacity = 4096

abbrev set_event : Text
set_event = b's' ∷ b'e' ∷ b't' ∷ []

abbrev del_event : Text
del_event = b'd' ∷ b'e' ∷ b'l' ∷ []

-- `for _, key := range keys { m[key] = v }`
unfoldable pub put_all : List Text → ℕ → Map ℕ → Map ℕ
put_all [] v m = m
put_all (key ∷ keys) v m = put_all keys v (put key v m)

-- `select { case s.onChangeQueue <- ...: default: }`
unfoldable pub send_event : Text → Text → List (Text × Text) → List (Text × Text)
send_event name key events =
    if ltb (length events) event_capacity then events ++ (name, key) ∷ [] else events

unfoldable pub send_all : List Text → List (Text × Text) → List (Text × Text)
unfolding send_event
send_all [] events = events
send_all (key ∷ keys) events = send_all keys (send_event set_event key events)

-- `touchKeyLockedNoEvent`
unfoldable pub touch_no_event : List Text → ℕ → Keys → Keys
unfolding put_all
touch_no_event keys now k =
    let next = (k.version + 1) % 2 ^ 64 in
    record k {
      version = next;
      key_version = put_all keys next k.key_version;
      access_time =
          (if ltb_ℤ (pos 0) k.max_memory then put_all keys now k.access_time else k.access_time);
    }

-- `touchKeyLocked`
unfoldable pub touch : List Text → ℕ → Keys → Keys
unfolding put_all send_all
touch keys now k =
    let next = (k.version + 1) % 2 ^ 64 in
    record k {
      version = next;
      key_version = put_all keys next k.key_version;
      events = (if k.on_change then send_all keys k.events else k.events);
      access_time =
          (if ltb_ℤ (pos 0) k.max_memory then put_all keys now k.access_time else k.access_time);
    }

-- what `deleteKeyLocked` does behind the deletions from the maps of values: the access time, the
-- event "del", and the touch without an event
unfoldable pub forget : Text → ℕ → Keys → Keys
unfolding send_event touch_no_event
forget key now k = touch_no_event (key ∷ []) now (record k {
  events = (if k.on_change then send_event del_event key k.events else k.events);
  access_time = delete key k.access_time;
})

-- what `FlushDB` does to the versions and the access times
unfoldable pub flush_keys : Keys → Keys
flush_keys k = record k { version = (k.version + 1) % 2 ^ 64; key_version = []; access_time = [] }

-- `s.keyVersion[key]`, 0 for a key that was never touched
unfoldable pub or_zero : Option ℕ → ℕ
or_zero none = 0
or_zero (some v) = v

unfoldable pub version_of : Text → Keys → ℕ
version_of key k = or_zero (lookup key k.key_version)

-- the loop of `KeyVersions`
unfoldable pub versions_into : List Text → Keys → Map ℕ → Map ℕ
versions_into [] k out = out
versions_into (key ∷ keys) k out = versions_into keys k (put key (version_of key k) out)

-- `KeyVersions`
unfoldable pub key_versions : List Text → Keys → Map ℕ
unfolding versions_into
key_versions keys k = versions_into keys k []

-- `KeysModifiedSince`
unfoldable pub keys_modified_since : Map ℕ → Keys → Bool
keys_modified_since [] k = false
keys_modified_since ((key, v) ∷ versions) k =
    let rest = keys_modified_since versions k in if not (version_of key k == v) then true else rest
