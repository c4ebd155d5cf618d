-- ===== src/Keyspace/Moves.antt =====
-- internal/store/store.go, `Exists`, `Del`, `Rename`, `Copy` and `FlushDB`: commands on keys of every
-- type.
use vole.Prelude.{
  ℕ, ◌+◌, Bool, true, false, not, ◌&&◌, List, [], ◌∷◌, Option, some, none, if◌then◌else◌,
}
use vole.Prelude.Text.{Text}
use vole.Prelude.Int.{ℤ}
use vole.Prelude.Map.{Map, lookup, put, delete}
use vole.Deque.{Deque}
use vole.Deque
use vole.SortedSet.{SortedSet, Scores, ZMember, members}
use vole.SortedSet
use vole.Keys.{flush_keys}
use vole.Keyspace.{
  Store, Answer, ok, fail, no_such_key, touch_keys, exists_read, delete_key, expired_key, exists,
}

-- `if v, ok := m[key]; ok { m[newkey] = v; delete(m, key) }`
unfoldable pub moved {ℓ} : {V : Type ℓ} → Text → Text → Option V → Map V → Map V
moved key newkey none m = m
moved key newkey (some v) m = delete key (put newkey v m)

unfoldable pub move {ℓ} : {V : Type ℓ} → Text → Text → Map V → Map V
move key newkey m = moved key newkey (lookup key m) m

-- `if v, ok := m[src]; ok { m[dst] = v }`
unfoldable pub copied {ℓ} : {V : Type ℓ} → Text → Option V → Map V → Map V
copied dst none m = m
copied dst (some v) m = put dst v m

unfoldable pub copy {ℓ} : {V : Type ℓ} → Text → Text → Map V → Map V
copy src dst m = copied dst (lookup src m) m

-- the loop of `Copy` over the members of a sorted set
unfoldable pub add_all :
    {F : Type 0} → ⦃o : Scores F⦄ → List (ZMember F) → SortedSet F → SortedSet F
add_all [] z = z
add_all (m ∷ ms) z = add_all ms (SortedSet.add z m.member m.score).1

-- the copies that `Copy` makes of a list and of a sorted set
unfoldable pub copy_list : Option Deque → Option Deque
copy_list none = none
copy_list (some d) = some (Deque.push_back Deque.empty (Deque.to_slice d))

unfoldable pub copy_sorted :
    {F : Type 0} → ⦃o : Scores F⦄ → Option (SortedSet F) → Option (SortedSet F)
copy_sorted none = none
copy_sorted {F} (some z) = some (add_all (members z) (SortedSet.new F))

module _ {F J : Type 0} where
  -- `Exists`
  unfoldable pub count_existing : List Text → ℤ → Store F J → ℕ
  count_existing [] now s = 0
  count_existing (key ∷ ks) now s =
      (if exists_read key now s then 1 else 0) + count_existing ks now s

  -- one turn of the loop of `Del`
  unfoldable pub del_one : Text → ℤ → Store F J → ℕ × Store F J
  del_one key now s =
      let (expired, s₁) = expired_key key now s in
      if expired
      then (0, s₁)
      else (let (found, s₂) = exists key now s₁ in
          if found then (1, delete_key key now s₂) else (0, s₂))

  -- `Del`
  unfoldable pub del : List Text → ℤ → Store F J → ℕ × Store F J
  del [] now s = (0, s)
  del (key ∷ ks) now s =
      let (n, s₁) = del_one key now s in let (m, s₂) = del ks now s₁ in (n + m, s₂)

  -- the moves of `Rename`
  unfoldable pub move_values : Text → Text → Store F J → Store F J
  move_values key newkey s = record s {
    kv = move key newkey s.kv;
    hashes = move key newkey s.hashes;
    lists = move key newkey s.lists;
    sets = move key newkey s.sets;
    zsets = move key newkey s.zsets;
    streams = move key newkey s.streams;
    hlls = move key newkey s.hlls;
    groups = move key newkey s.groups;
    last_seq = move key newkey s.last_seq;
    expires = move key newkey s.expires;
  }

  -- `Rename`
  unfoldable pub rename : Text → Text → ℤ → Store F J → Answer (Unit {0}) × Store F J
  rename key newkey now s =
      let (expired, s₁) = expired_key key now s in
      if expired
      then (fail no_such_key, s₁)
      else (let (found, s₂) = exists key now s₁ in
          if found
          then (
            ok tt,
            touch_keys (key ∷ newkey ∷ []) now (move_values key newkey (delete_key newkey now s₂)),
          )
          else (fail no_such_key, s₂))

  -- the copies of `Copy`
  unfoldable pub copy_values : ⦃o : Scores F⦄ → Text → Text → Store F J → Store F J
  copy_values src dst s = record s {
    kv = copy src dst s.kv;
    hashes = copy src dst s.hashes;
    lists = copied dst (copy_list (lookup src s.lists)) s.lists;
    sets = copy src dst s.sets;
    zsets = copied dst (copy_sorted (lookup src s.zsets)) s.zsets;
    streams = copy src dst s.streams;
    hlls = copy src dst s.hlls;
    expires = copy src dst s.expires;
    last_seq = copy src dst s.last_seq;
  }

  -- `Copy`; its error is always nil
  unfoldable pub copy_key : ⦃o : Scores F⦄ → Text → Text → Bool → ℤ → Store F J → Bool × Store F J
  copy_key src dst replace now s =
      let (found, s₁) = exists src now (expired_key src now s).1 in
      if found
      then (let (taken, s₂) = exists dst now s₁ in
          if taken && not replace
          then (false, s₂)
          else (let (still, s₃) = exists dst now s₂ in
              let s₄ = (if still then delete_key dst now s₃ else s₃) in
              (true, touch_keys (dst ∷ []) now (copy_values src dst s₄))))
      else (false, s₁)

  -- `FlushDB`, less the waiters and the estimate of the memory
  unfoldable pub flush_db : Store F J → Store F J
  flush_db s = record {
    kv = [];
    hashes = [];
    lists = [];
    sets = [];
    zsets = [];
    streams = [];
    hlls = [];
    jsons = [];
    groups = [];
    expires = [];
    last_seq = [];
    rate_limiters = [];
    queues = [];
    tags = [];
    timeseries = [];
    not_before = [];
    keys = flush_keys s.keys;
  }
