-- ===== src/Prelude/Map.antt =====
-- Go maps with string keys: association lists in which a key stands once.
use Prim.Native.Nat.{◌+◌}
use mathlib.Core.Path.{◌≡◌, refl}
use mathlib.Core.Bool.{Bool, true, false}
use mathlib.Core.Option.{Option, none, some}
use mathlib.Core.List.{List, [], ◌∷◌}
use native.Mathlib.Omega.{arith}
use vole.Prelude.Tests.{if◌then◌else◌}
use vole.Prelude.Lists.{length}
use vole.Prelude.Text.{Text, text_eq, text_eq_iff, text_eq_refl}

abbrev pub Map {ℓ} : Type ℓ → Type ℓ
Map V = List (Text × V)

module _ {ℓ} {V : Type ℓ} where
  -- `v, ok := m[k]`
  unfoldable pub lookup : Text → Map V → Option V
  lookup k [] = none
  lookup k ((j, v) ∷ m) = if text_eq j k then some v else lookup k m

  -- `m[k] = v`
  unfoldable pub put : Text → V → Map V → Map V
  put k v [] = (k, v) ∷ []
  put k v ((j, w) ∷ m) = if text_eq j k then (k, v) ∷ m else (j, w) ∷ put k v m

  -- `delete(m, k)`
  unfoldable pub delete : Text → Map V → Map V
  delete k [] = []
  delete k ((j, w) ∷ m) = let rest = delete k m in if text_eq j k then rest else (j, w) ∷ rest

  -- `_, ok := m[k]`
  unfoldable pub has : Text → Map V → Bool
  has k [] = false
  has k ((j, v) ∷ m) = if text_eq j k then true else has k m

  pub lookup-put :
      (k j : Text) (v : V) (m : Map V)
      → lookup j (put k v m) ≡ (if text_eq k j then some v else lookup j m)
  unfolding lookup put
  lookup-put k j v [] = refl
  lookup-put k j v ((i, w) ∷ m) =
      ground (arith, text_eq_iff k j, text_eq_iff i k, text_eq_iff i j, lookup-put k j v m)

  pub lookup-delete :
      (k j : Text) (m : Map V) → lookup j (delete k m) ≡ (if text_eq k j then none else lookup j m)
  unfolding lookup delete
  lookup-delete k j [] = ground arith
  lookup-delete k j ((i, w) ∷ m) =
      ground (arith, text_eq_iff k j, text_eq_iff i k, text_eq_iff i j, lookup-delete k j m)

  pub lookup-put_self : (k : Text) (v : V) (m : Map V) → lookup k (put k v m) ≡ some v
  lookup-put_self k v m = ground (arith, lookup-put k k v m, text_eq_refl k)

  -- No key stands twice.
  abbrev pub IsMap : Map V → Type 0
  IsMap [] = Unit {0}
  IsMap ((k, v) ∷ m) = (has k m ≡ false) × IsMap m

  pub has-put :
      (k j : Text) (v : V) (m : Map V) → has j (put k v m) ≡ (if text_eq k j then true else has j m)
  unfolding has put
  has-put k j v [] = refl
  has-put k j v ((i, w) ∷ m) =
      ground (arith, text_eq_iff k j, text_eq_iff i k, text_eq_iff i j, has-put k j v m)

  pub has-delete :
      (k j : Text) (m : Map V) → has j (delete k m) ≡ (if text_eq k j then false else has j m)
  unfolding has delete
  has-delete k j [] = ground arith
  has-delete k j ((i, w) ∷ m) =
      ground (arith, text_eq_iff k j, text_eq_iff i k, text_eq_iff i j, has-delete k j m)

  pub put-IsMap : (k : Text) (v : V) (m : Map V) → IsMap m → IsMap (put k v m)
  unfolding put has
  put-IsMap k v [] h = (refl, tt)
  put-IsMap k v ((j, w) ∷ m) h =
      ground (arith, text_eq_iff j k, text_eq_iff k j, has-put k j v m, put-IsMap k v m h.1)

  pub delete-IsMap : (k : Text) (m : Map V) → IsMap m → IsMap (delete k m)
  unfolding delete
  delete-IsMap k [] h = tt
  delete-IsMap k ((j, w) ∷ m) h =
      ground (arith, text_eq_iff j k, has-delete k j m, delete-IsMap k m h.1)

  pub has-lookup : (k : Text) (m : Map V) → has k m ≡ false → lookup k m ≡ none
  unfolding lookup has
  has-lookup k [] h = refl
  has-lookup k ((j, v) ∷ m) h = ground (arith, has-lookup k m)

  pub lookup-has : (k : Text) (m : Map V) → lookup k m ≡ none → has k m ≡ false
  unfolding lookup has
  lookup-has k [] h = refl
  lookup-has k ((j, v) ∷ m) h = ground (arith, lookup-has k m)

  pub lookup-has-some : (k : Text) (v : V) (m : Map V) → lookup k m ≡ some v → has k m ≡ true
  unfolding lookup has
  lookup-has-some k v [] h = ground arith
  lookup-has-some k v ((j, w) ∷ m) h = ground (arith, lookup-has-some k v m)

  pub delete_absent : (k : Text) (m : Map V) → has k m ≡ false → delete k m ≡ m
  unfolding delete has
  delete_absent k [] h = refl
  delete_absent k ((j, w) ∷ m) h = ground (arith, delete_absent k m)

  -- `len` after a write and after a deletion.
  pub length-put :
      (k : Text) (v : V) (m : Map V)
      → length (put k v m) ≡ (if has k m then length m else length m + 1)
  unfolding put has
  length-put k v [] = refl
  length-put k v ((j, w) ∷ m) = ground (arith, length-put k v m)

  pub length-delete :
      (k : Text) (m : Map V) → IsMap m → length (delete k m) + (if has k m then 1 else 0) ≡ length m
  unfolding delete has
  length-delete k [] h = refl
  length-delete k ((j, w) ∷ m) h =
      ground (arith, text_eq_iff j k, delete_absent k m, length-delete k m h.1)
