-- ===== src/Keyspace/Listed.antt =====
-- internal/store/store.go, `keysLocked` and `Scan`: the list of the keys that match.
use vole.Prelude.{
  ap₂, ℕ, ◌+◌, ◌≡◌, refl, ap, ◌∙◌, subst, Bool, true, false, not, ◌&&◌, ◌||◌, List, [], ◌∷◌, ◌++◌,
  arith, if◌then◌else◌, Bool-cases, inl, inr,
}
use vole.Prelude.Text.{
  Text, text_eq, text_eq_iff, text_lt, text_lt_trans, text_lt_irrefl, text_lt_total,
}
use vole.Prelude.Int.{ℤ}
use vole.Prelude.Map.{Map}
use vole.Prelude.Limit.{keep}
use vole.Namespace.{insert_name}
use vole.Keyspace.{Store, is_visible}
use vole.Keyspace.Waiters.{tally, tally-append}
use vole.Keyspace.Listing.{
  map_keys, sort_keys, visible_keys, all_keys, scan_keys, match_pattern, star,
}

-- No text of the list comes before the first.
unfoldable pub none_before : Text → List Text → Bool
none_before x [] = true
none_before x (y ∷ ys) = not (text_lt y x) && none_before x ys

-- The texts stand in the order of their bytes.
abbrev pub in_order : List Text → Bool
in_order [] = true
in_order (x ∷ xs) = none_before x xs && in_order xs

none_before_trans :
    (x y : Text) (ys : List Text)
    → text_lt y x ≡ false
    → none_before y ys ≡ true
    → none_before x ys ≡ true
unfolding none_before
none_before_trans x y [] h k = refl
none_before_trans x y (z ∷ ys) h k = elim (Bool-cases (text_lt z x)) [
  | inl e ↦ elim (Bool-cases (text_lt x y)) [
    | inl l ↦ absurd (ground (arith, k, text_lt_trans z x y e l))
    | inr l ↦
        let same : x ≡ y = text_lt_total x y l h in
        absurd (ground (arith, k, subst (λ t. text_lt z t ≡ true) same e))
  ]
  | inr e ↦ ground (arith, e, none_before_trans x y ys h (ground (arith, k)))
]

none_before-insert_name :
    (y x : Text) (xs : List Text)
    → text_lt x y ≡ false
    → none_before y xs ≡ true
    → none_before y (insert_name x xs) ≡ true
unfolding none_before insert_name
none_before-insert_name y x [] h k = ground (arith, h)
none_before-insert_name y x (z ∷ zs) h k = ground (arith, h, k, none_before-insert_name y x zs h)

text_lt_asymm : (s t : Text) → text_lt s t ≡ true → text_lt t s ≡ false
text_lt_asymm s t h = elim (Bool-cases (text_lt t s)) [
  | inl e ↦ absurd (ground (arith, text_lt_trans s t s h e, text_lt_irrefl s))
  | inr e ↦ e
]

in_order-insert_name :
    (x : Text) (xs : List Text) → in_order xs ≡ true → in_order (insert_name x xs) ≡ true
unfolding insert_name none_before
in_order-insert_name x [] h = refl
in_order-insert_name x (y ∷ ys) h = elim (Bool-cases (text_lt y x)) [
  | inl e ↦ rw e (
      ground
        (arith, h, none_before-insert_name y x ys (text_lt_asymm y x e), in_order-insert_name x ys))
  | inr e ↦ rw e (ground (arith, h, e, none_before_trans x y ys e))
]

in_order-sort_keys : (xs : List Text) → in_order (sort_keys xs) ≡ true
unfolding sort_keys
in_order-sort_keys [] = refl
in_order-sort_keys (x ∷ xs) = in_order-insert_name x (sort_keys xs) (in_order-sort_keys xs)

none_before-keep :
    (f : Text → Bool) (x : Text) (xs : List Text)
    → none_before x xs ≡ true
    → none_before x (keep f xs) ≡ true
unfolding none_before keep
none_before-keep f x [] h = refl
none_before-keep f x (y ∷ ys) h = ground (arith, h, none_before-keep f x ys)

in_order-keep :
    (f : Text → Bool) (xs : List Text) → in_order xs ≡ true → in_order (keep f xs) ≡ true
unfolding keep
in_order-keep f [] h = refl
in_order-keep f (x ∷ xs) h = elim (Bool-cases (f x)) [
  | inl e ↦ rw e (ground (arith, h, none_before-keep f x xs, in_order-keep f xs))
  | inr e ↦ rw e (in_order-keep f xs (ground (arith, h)))
]

-- How often a text stands in a list.
tally-insert_name : (j x : Text) (xs : List Text) → tally j (insert_name x xs) ≡ tally j (x ∷ xs)
unfolding tally insert_name
tally-insert_name j x [] = refl
tally-insert_name j x (y ∷ ys) = ground (arith, tally-insert_name j x ys)

tally-sort_keys : (j : Text) (xs : List Text) → tally j (sort_keys xs) ≡ tally j xs
unfolding tally sort_keys
tally-sort_keys j [] = refl
tally-sort_keys j (x ∷ xs) =
    tally-insert_name j x (sort_keys xs) ∙ unfold tally in ground (arith, tally-sort_keys j xs)

tally-keep :
    (f : Text → Bool) (j : Text) (xs : List Text)
    → tally j (keep f xs) ≡ (if f j then tally j xs else 0)
unfolding tally keep
tally-keep f j [] = ground arith
tally-keep f j (x ∷ xs) = elim (Bool-cases (text_eq x j)) [
  | inl e ↦
      let same : f x ≡ f j = ap f ((text_eq_iff x j).0 e) in
      ground (arith, e, same, tally-keep f j xs)
  | inr e ↦ ground (arith, e, tally-keep f j xs)
]

-- The key is one that is asked for.
abbrev pub asked : Text → Text → Bool
asked pattern j = text_eq pattern [] || text_eq pattern star || match_pattern pattern j

module _ {F J : Type 0} (now : ℤ) (s : Store F J) where
  -- In how many maps of values a key stands.
  abbrev pub times_held : Text → ℕ
  times_held j =
      tally j (map_keys s.kv)
      + tally j (map_keys s.hashes)
      + tally j (map_keys s.lists)
      + tally j (map_keys s.sets)
      + tally j (map_keys s.zsets)
      + tally j (map_keys s.streams)
      + tally j (map_keys s.hlls)
      + tally j (map_keys s.jsons)
      + tally j (map_keys s.timeseries)

  both :
      (j : Text) (xs ys : List Text) {m n : ℕ}
      → tally j xs ≡ m
      → tally j ys ≡ n
      → tally j (xs ++ ys) ≡ m + n
  both j xs ys h k = tally-append j xs ys ∙ ap₂ ◌+◌ h k

  held {ℓ} :
      {V : Type ℓ} (j : Text) (m : Map V)
      → tally j (visible_keys now s m) ≡ (if is_visible j now s then tally j (map_keys m) else 0)
  held j m = tally-keep (λ key. is_visible key now s) j (map_keys m)

  tally-all_keys :
      (j : Text) → tally j (all_keys now s) ≡ (if is_visible j now s then times_held j else 0)
  unfolding all_keys
  tally-all_keys j =
      both j _ _
        (both j _ _
          (both j _ _
            (both j _ _
              (both j _ _
                (both j _ _
                  (both j _ _ (both j _ _ (held j s.kv) (held j s.hashes)) (held j s.lists))
                  (held j s.sets))
                (held j s.zsets))
              (held j s.streams))
            (held j s.hlls))
          (held j s.jsons))
        (held j s.timeseries)
      ∙ (elim (Bool-cases (is_visible j now s)) [ inl e ↦ rw e refl | inr e ↦ rw e refl ])

  pub scan_keys_lem :
      (pattern : Text)
      → (in_order (scan_keys pattern now s) ≡ true)
        × ((j : Text)
            → tally j (scan_keys pattern now s)
              ≡ (if asked pattern j && is_visible j now s then times_held j else 0))
  unfolding scan_keys
  scan_keys_lem pattern = elim (Bool-cases (text_eq pattern [] || text_eq pattern star)) [
    | inl e ↦ rw e (
      in_order-sort_keys (all_keys now s),
      λ j. tally-sort_keys j (all_keys now s) ∙ tally-all_keys j ∙ ground (arith, e),
    )
    | inr e ↦ rw e (
      in_order-keep (match_pattern pattern) (sort_keys (all_keys now s))
          (in_order-sort_keys (all_keys now s)),
      λ j.
          tally-keep (match_pattern pattern) j (sort_keys (all_keys now s))
          ∙ ap (λ n. if match_pattern pattern j then n else 0)
              (tally-sort_keys j (all_keys now s) ∙ tally-all_keys j)
          ∙ ground (arith, e),
    )
  ]
