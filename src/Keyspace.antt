-- ===== src/Keyspace.antt =====
-- internal/store/store.go: the keyspace. One store keeps a map for each type of value; a deadline
-- and a time of first visibility stand beside the values. Times are nanoseconds since 1970, and a
-- call reads the clock once: `now` stands for each `time.Now()` of the call. The pointers and slices
-- in the maps are never nil, since each write makes one.
mod Tests
pub mod Strings
pub mod Waiters
pub mod ScoreTests
pub mod Scores
pub mod SortedSets
pub mod ListTests
pub mod Places
pub mod Pushes
pub mod Removals
pub mod Blocking
pub mod Lists
pub mod Toggles
pub mod Bits
pub mod Members
pub mod Sets
pub mod Fields
pub mod Hashes
pub mod Edits
pub mod Hidden
pub mod Gone
pub mod Renames
pub mod Bytes
pub mod Pages
pub mod Listed
pub mod Trace
pub mod Deadlines
pub mod Writes
pub mod Leaves
pub mod Commands
pub mod Plain
pub mod Spec
pub mod Refines
pub mod Listing
pub mod Moves
pub mod Expiry
use vole.Prelude.{
  ℕ, ◌+◌, ◌-◌, ◌*◌, ◌≡◌, Bool, true, false, not, ◌&&◌, ◌||◌, List, [], ◌∷◌, Option, some, none,
  if◌then◌else◌,
}
use vole.Prelude.Text.{Text}
use vole.Prelude.Int.{ℤ, pos, negsuc, pos_part, ltb_ℤ, ◌+ℤ◌}
use vole.Prelude.Map.{Map, lookup, put, delete, has}
use vole.Keys.{Keys, touch, forget}
use vole.Deque.{Deque}
use vole.SortedSet.{SortedSet}
use vole.TimeSeries.{TimeSeries, eq_ℤ}
use vole.RateLimit.{RateLimiter}
use vole.Queue.{Queue}

pub record StreamEntry : Type 0 where
  pub id : Text
  pub fields : List Text

pub record PendingEntry : Type 0 where
  pub consumer : Text
  pub delivered : ℤ

pub record ConsumerGroup : Type 0 where
  pub last_id : Text
  pub pending : Map PendingEntry

pub record HyperLogLog : Type 0 where
  pub registers : List ℕ

-- what `encoding/json` parses is a parameter
pub record JsonDoc (J : Type 0) : Type 0 where
  pub value : J

-- `Store`, less the waiters, the channels and the settings of the eviction
pub record Store (F J : Type 0) : Type 0 where
  pub kv : Map Text
  pub hashes : Map (Map Text)
  pub lists : Map Deque
  pub sets : Map (Map (Unit {0}))
  pub zsets : Map (SortedSet F)
  pub streams : Map (List StreamEntry)
  pub hlls : Map HyperLogLog
  pub jsons : Map (JsonDoc J)
  pub groups : Map (Map ConsumerGroup)
  pub expires : Map ℤ
  pub last_seq : Map ℤ
  pub rate_limiters : Map RateLimiter
  pub queues : Map Queue
  pub tags : Map (Map Text)
  pub timeseries : Map (TimeSeries F)
  pub not_before : Map ℤ
  pub keys : Keys

-- the errors that the commands on the keyspace return
pub data StoreError : Type 0 where
  wrong_type not_an_integer offset_out_of_range no_such_key index_out_of_range wrong_number
        bad_bit_offset bad_bit bad_operation one_source_key :
      StoreError

pub data Answer {ℓ} (A : Type ℓ) : Type ℓ where
  ok : A → Answer A
  fail : StoreError → Answer A

-- The zero of `time.Time`: the first of January of the year 1.
abbrev pub zero_time : ℤ
zero_time = negsuc (62135596800000000000 - 1)

abbrev pub is_zero : ℤ → Bool
is_zero t = eq_ℤ t zero_time

-- `if t, ok := m[key]; ok && now.Before(t)`
unfoldable pub before_time : ℤ → Option ℤ → Bool
before_time now none = false
before_time now (some t) = ltb_ℤ now t

-- the test of a deadline, in `isExpiredRLocked`
unfoldable pub past_deadline : ℤ → Option ℤ → Bool
past_deadline now none = false
past_deadline now (some t) = if is_zero t || ltb_ℤ now t then false else true

module _ {F J : Type 0} where
  -- `New`
  abbrev pub new_store : Keys → Store F J
  new_store k = record {
    kv = [];
    hashes = [];
    lists = [];
    sets = [];
    zsets = [];
    streams = [];
    hlls = [];
    jsons = [];
    groups = [];
    expires = [];
    last_seq = [];
    rate_limiters = [];
    queues = [];
    tags = [];
    timeseries = [];
    not_before = [];
    keys = k;
  }

  -- `touchKeyLocked`
  unfoldable pub touch_keys : List Text → ℤ → Store F J → Store F J
  touch_keys ks now s = record s { keys = touch ks (pos_part now) s.keys }

  -- `isExpiredRLocked`
  unfoldable pub is_expired : Text → ℤ → Store F J → Bool
  is_expired key now s = past_deadline now (lookup key s.expires)

  -- `nb, ok := s.notBefore[key]; ok && now.Before(nb)`
  unfoldable pub is_delayed : Text → ℤ → Store F J → Bool
  is_delayed key now s = before_time now (lookup key s.not_before)

  -- `isVisibleRLocked`
  unfoldable pub is_visible : Text → ℤ → Store F J → Bool
  is_visible key now s = not (is_expired key now s) && not (is_delayed key now s)

  -- the test for a value that is no string, in each command on strings
  unfoldable pub holds_other : Text → Store F J → Bool
  holds_other key s =
      has key s.hashes
      || has key s.lists
      || has key s.sets
      || has key s.zsets
      || has key s.streams
      || has key s.hlls
      || has key s.jsons
      || has key s.timeseries

  -- `existsStringRLocked`
  unfoldable pub exists_string_read : Text → ℤ → Store F J → Bool
  exists_string_read key now s =
      if is_expired key now s then false else (if is_delayed key now s then false else has key s.kv)

  -- `existsRLocked`
  unfoldable pub exists_read : Text → ℤ → Store F J → Bool
  exists_read key now s =
      if is_expired key now s
      then false
      else (if is_delayed key now s then false else has key s.kv || holds_other key s)

  -- `deleteKeyLocked`
  unfoldable pub delete_key : Text → ℤ → Store F J → Store F J
  delete_key key now s = record {
    kv = delete key s.kv;
    hashes = delete key s.hashes;
    lists = delete key s.lists;
    sets = delete key s.sets;
    zsets = delete key s.zsets;
    streams = delete key s.streams;
    hlls = delete key s.hlls;
    jsons = delete key s.jsons;
    groups = delete key s.groups;
    expires = delete key s.expires;
    last_seq = delete key s.last_seq;
    rate_limiters = delete key s.rate_limiters;
    queues = delete key s.queues;
    tags = delete key s.tags;
    timeseries = delete key s.timeseries;
    not_before = delete key s.not_before;
    keys = forget key (pos_part now) s.keys;
  }

  -- `expiredKeyLocked`
  unfoldable pub expired_key : Text → ℤ → Store F J → Bool × Store F J
  expired_key key now s =
      if past_deadline now (lookup key s.expires) then (true, delete_key key now s) else (false, s)

  -- `existsStringLocked`
  unfoldable pub exists_string : Text → ℤ → Store F J → Bool × Store F J
  exists_string key now s =
      let (expired, s₁) = expired_key key now s in
      if expired then (false, s₁) else (has key s₁.kv, s₁)

  -- `existsLocked`
  unfoldable pub exists : Text → ℤ → Store F J → Bool × Store F J
  exists key now s =
      let (expired, s₁) = expired_key key now s in
      if expired
      then (false, s₁)
      else (if is_delayed key now s₁
          then (false, s₁)
          else (let (string, s₂) = exists_string key now s₁ in (string || holds_other key s₂, s₂)))
