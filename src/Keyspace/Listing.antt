-- ===== src/Keyspace/Listing.antt =====
-- internal/store/store.go, `Type`, `Keys`, `Scan`, `DBSize`, `RandomKey` and `Stats`: the keys that a
-- client can list. A map is gone round in the order of its entries here; `Keys` and `Scan` sort, so
-- that the order of Go's maps does not show.
use vole.Prelude.{
  ℕ, ◌-◌, Bool, not, ◌||◌, List, [], ◌∷◌, ◌++◌, Option, some, none, length, take, drop,
  if◌then◌else◌,
}
use vole.Prelude.Text.{Text, text_eq}
use vole.Prelude.Int.{ℤ, pos, pos_part, ltb_ℤ, ◌+ℤ◌}
use vole.Prelude.Limit.{keep}
use vole.Prelude.Map.{Map, has}
use vole.TimeSeries.{wrap64}
use vole.Glob.{match_glob}
use vole.Namespace.{insert_name}
use vole.Keyspace.{Store, is_expired, is_delayed, is_visible, exists_string_read}
use vole.Keyspace.Expiry.{purge_expired}

pub data KeyType : Type 0 where
  no_type a_string a_hash a_list a_set a_zset a_stream a_json a_timeseries : KeyType

unfoldable pub map_keys {ℓ} : {V : Type ℓ} → Map V → List Text
map_keys [] = []
map_keys ((key, v) ∷ m) = key ∷ map_keys m

abbrev pub star : Text
star = b'*' ∷ []

-- `sort.Strings`
unfoldable pub sort_keys : List Text → List Text
sort_keys [] = []
sort_keys (key ∷ ks) = insert_name key (sort_keys ks)

-- `MatchGlob`, with fuel for the pattern
abbrev pub match_pattern : Text → Text → Bool
match_pattern pattern key = match_glob (length pattern) pattern key

-- The page that `Scan` cuts from the keys that match. `cursor + count` wraps around, and a slice that
-- ends before it starts panics: `none`.
unfoldable pub scan_page : ℤ → ℤ → List Text → Option (ℤ × List Text)
scan_page cursor count ks =
    let end = wrap64 (cursor +ℤ (if ltb_ℤ (pos 0) count then count else pos 10)) in
    if ltb_ℤ cursor (pos 0) || not (ltb_ℤ cursor (pos (length ks)))
    then some (pos 0, [])
    else (if ltb_ℤ end (pos (length ks))
        then (if ltb_ℤ end cursor
            then none
            else some (end, take (pos_part end - pos_part cursor) (drop (pos_part cursor) ks)))
        else some (pos 0, drop (pos_part cursor) ks))

module _ {F J : Type 0} where
  -- `Type`; a HyperLogLog is a string to the client
  unfoldable pub type_of : Text → ℤ → Store F J → KeyType
  type_of key now s =
      if is_expired key now s
      then no_type
      else (if is_delayed key now s
          then no_type
          else (if exists_string_read key now s
              then a_string
              else (if has key s.hashes
                  then a_hash
                  else (if has key s.lists
                      then a_list
                      else (if has key s.sets
                          then a_set
                          else (if has key s.zsets
                              then a_zset
                              else (if has key s.streams
                                  then a_stream
                                  else (if has key s.hlls
                                      then a_string
                                      else (if has key s.jsons
                                          then a_json
                                          else (if has key s.timeseries
                                              then a_timeseries
                                              else no_type))))))))))

  -- one loop of `allKeysRLocked`
  abbrev pub visible_keys {ℓ} : {V : Type ℓ} → ℤ → Store F J → Map V → List Text
  visible_keys now s m = keep (λ key. is_visible key now s) (map_keys m)

  -- `allKeysRLocked`
  unfoldable pub all_keys : ℤ → Store F J → List Text
  all_keys now s =
      visible_keys now s s.kv
      ++ visible_keys now s s.hashes
      ++ visible_keys now s s.lists
      ++ visible_keys now s s.sets
      ++ visible_keys now s s.zsets
      ++ visible_keys now s s.streams
      ++ visible_keys now s s.hlls
      ++ visible_keys now s s.jsons
      ++ visible_keys now s s.timeseries

  -- `keysLocked`
  unfoldable pub keys_matching : Text → ℤ → Store F J → List Text
  keys_matching pattern now s =
      if text_eq pattern [] || text_eq pattern star
      then all_keys now s
      else keep (match_pattern pattern) (all_keys now s)

  -- `Keys`
  unfoldable pub keys_sorted : Text → ℤ → Store F J → List Text
  keys_sorted pattern now s = sort_keys (keys_matching pattern now s)

  -- the keys that `Scan` cuts its pages from
  unfoldable pub scan_keys : Text → ℤ → Store F J → List Text
  scan_keys pattern now s =
      let all = sort_keys (all_keys now s) in
      if text_eq pattern [] || text_eq pattern star then all else keep (match_pattern pattern) all

  -- `Scan`
  unfoldable pub scan : ℤ → ℤ → Text → ℤ → Store F J → Option (ℤ × List Text)
  scan cursor count pattern now s = scan_page cursor count (scan_keys pattern now s)

  -- `DBSize`
  unfoldable pub db_size : ℤ → Store F J → ℕ
  db_size now s = length (all_keys now s)

  -- the keys that one loop of `RandomKey` can return: the first that is not expired
  unfoldable pub first_live : List Text → ℤ → Store F J → Option Text
  first_live [] now s = none
  first_live (key ∷ ks) now s =
      let rest = first_live ks now s in if is_expired key now s then rest else some key

  -- `RandomKey`, for orders in which Go goes round the maps of seven types
  unfoldable pub random_key : List (List Text) → ℤ → Store F J → Option Text
  random_key [] now s = none
  random_key (order ∷ orders) now s = elim (first_live order now s) [
    | none ↦ random_key orders now s
    | some key ↦ some key
  ]

  -- `Stats`, for the order in which Go goes round `s.expires`
  unfoldable pub stats : List Text → ℤ → Store F J → (ℕ × ℕ) × Store F J
  stats order now s = let s₁ = purge_expired order now s in ((length s₁.kv, length s₁.streams), s₁)
